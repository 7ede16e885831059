-- ===== src/Session/Sharing/Return.antt =====
-- What becomes of a connection that is given back.
use go_irodsclient.Base.{
  ℕ, ◌+◌, ◌-◌, ◌≤◌, ◌<◌, ◌≡◌, refl, ◌∙◌, ap, Bool, true, false, List, [], ◌∷◌, ◌++◌, none, some,
  ltb, ◌==◌, length, contains, without, arith, Bool-cases, inl, inr, ◌⊎◌,
}
use go_irodsclient.Base.Maps.{lookup, erase, lookup-insert, lookup-erase}
use go_irodsclient.Session.Pool.{
  Pool, trim, put_back, return_conn, discard, is_connected, call_callbacks, release_occupied,
  disconnect,
}
use go_irodsclient.Session.Sharing.{
  Session, Given, give_back, end_transaction, to_pool, to_waste, end_and_return, return_last,
  return_connection,
}

gone : (c : ℕ) (s : List ℕ) → contains c (without c s) ≡ false
gone c [] = refl
gone c (x ∷ s) = ground (arith, gone c s)

trim-occupied : (idle : List ℕ) (p : Pool) → (trim idle p).occupied ≡ p.occupied
unfolding trim
trim-occupied [] p = refl
trim-occupied (c ∷ rest) p =
    let q = disconnect c (call_callbacks (record p { idle = rest })) in
    elim (Bool-cases (ltb p.config.max_idle (length (c ∷ rest)))) [
      | inl t ↦ simp t (trim-occupied rest q)
      | inr t ↦ simp t refl
    ]

put_back-occupied : (c now : ℕ) (p : Pool) → (put_back c now p).occupied ≡ p.occupied
put_back-occupied c now p = elim (Bool-cases (is_connected p c)) [
  | inr e ↦ simp e refl
  | inl e ↦ elim (Bool-cases (ltb ((p.store c).created + p.config.lifespan) now)) [
    | inl f ↦ simp (e, f) refl
    | inr f ↦
        let q = call_callbacks (record p { idle = p.idle ++ c ∷ [] }) in
        simp (e, f) (trim-occupied q.idle q)
  ]
]

return_conn-gone : (c now : ℕ) (p : Pool) → contains c (return_conn c now p).0.occupied ≡ false
unfolding return_conn
return_conn-gone c now p = elim (Bool-cases (contains c p.occupied)) [
  | inl e ↦
      simp e (ap (contains c) (put_back-occupied c now (release_occupied c p)) ∙ gone c p.occupied)
  | inr e ↦ simp e refl
]

discard-gone : (c : ℕ) (p : Pool) → contains c (discard c p).occupied ≡ false
unfolding discard
discard-gone c p = elim (Bool-cases (is_connected (release_occupied c p) c)) [
  | inl e ↦ simp e (gone c p.occupied)
  | inr e ↦ simp e (gone c p.occupied)
]

-- The connection is not occupied any more, and the map of shares is this one.
record Ended (c : ℕ) (shared : List (ℕ × ℕ)) (s : Session) : Type 0 where
  out : contains c s.pool.occupied ≡ false
  same : s.shared_connections ≡ shared

to_pool-Ended : (c now : ℕ) (s : Session) → Ended c s.shared_connections (to_pool c now s).0
to_pool-Ended c now s = record { out = return_conn-gone c now s.pool; same = refl }

to_waste-Ended : (c : ℕ) (s : Session) → Ended c s.shared_connections (to_waste c s).0
to_waste-Ended c s = record { out = discard-gone c s.pool; same = refl }

end_transaction-shared :
    (commit_ok rollback_ok : Bool) (s : Session)
    → (end_transaction commit_ok rollback_ok s).0.shared_connections ≡ s.shared_connections
unfolding end_transaction
end_transaction-shared commit_ok rollback_ok s = ground arith

end_and_return-Ended :
    (c now : ℕ) (shared : List (ℕ × ℕ)) (r : Session × Bool)
    → r.0.shared_connections ≡ shared
    → Ended c shared (end_and_return c now r).0
end_and_return-Ended c now shared (s, true) e =
    let d = to_pool-Ended c now s in record { out = d.out; same = e }
end_and_return-Ended c now shared (s, false) e =
    let d = to_waste-Ended c s in record { out = d.out; same = e }

return_last-Ended :
    (g : Given) (commit_ok rollback_ok : Bool) (now : ℕ) (s : Session)
    → Ended g.conn s.shared_connections (return_last g commit_ok rollback_ok now s).0
return_last-Ended g commit_ok rollback_ok now s = elim (Bool-cases g.socket_failed) [
  | inl e ↦ simp e (to_waste-Ended g.conn s)
  | inr e ↦ elim (Bool-cases g.transaction_dirty) [
    | inl f ↦
        simp (e, f)
          (end_and_return-Ended g.conn now s.shared_connections
            (end_transaction commit_ok rollback_ok s)
            (end_transaction-shared commit_ok rollback_ok s))
    | inr f ↦ simp (e, f) (to_pool-Ended g.conn now s)
  ]
]

-- A shared connection is given back, whether or not its socket failed, it has a transaction, and the commit
-- and the rollback succeed. With one share it is then neither shared nor occupied; with more, the pool stays
-- as it is and the connection has one share less.
pub return_connection-shared :
    (g : Given) (commit_ok rollback_ok : Bool) (now n : ℕ) (s : Session)
    → lookup g.conn s.shared_connections ≡ some n
    → ((n ≤ 1)
        × (lookup g.conn (return_connection g commit_ok rollback_ok now s).0.shared_connections
            ≡ none)
        × (contains g.conn (return_connection g commit_ok rollback_ok now s).0.pool.occupied
            ≡ false))
      ⊎ ((1 < n)
          × (lookup g.conn (return_connection g commit_ok rollback_ok now s).0.shared_connections
              ≡ some (n - 1))
          × ((return_connection g commit_ok rollback_ok now s).0.pool ≡ s.pool))
unfolding return_connection give_back
return_connection-shared g commit_ok rollback_ok now n s e =
    let c = g.conn in
    let shared = s.shared_connections in
    elim (Bool-cases (n - 1 == 0)) [
      | inl f ↦
          let t = record s { shared_connections = erase c shared } in
          let d = return_last-Ended g commit_ok rollback_ok now t in
          simp (e, f)
            (inl (
              ground (arith, f),
              ap (lookup c) d.same ∙ ground (arith, lookup-erase c c shared),
              d.out,
            ))
      | inr f ↦
          simp (e, f)
            (inr (ground (arith, f), ground (arith, lookup-insert c c (n - 1) shared), refl))
    ]
