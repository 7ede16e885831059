-- ===== src/Session/Sharing/Acquire.antt =====
-- What callers get from the session, and what it leaves of the shares, the last error and the parallel uploads.
use go_irodsclient.Base.{
  ℕ, ◌+◌, ◌≤◌, ◌≡◌, ◌≢◌, refl, Bool, true, false, ◌||◌, List, [], ◌∷◌, Option, none, some, ◌==◌,
  contains, arith, Bool-cases, inl, inr, ◌⊎◌, if◌then◌else◌,
}
use go_irodsclient.Base.Maps.{lookup, insert, lookup-insert}
use go_irodsclient.Session.Pool.{Pool, Dial, dialed, Got, conn, full, failed, get, is_connected}
use go_irodsclient.Session.Pool.Handing.{Handed, get-Handed}
use go_irodsclient.Session.Sharing.{
  Peer, Session, Acquired, acquired, pool_full, error, put_to_share, one_more, share_in_use,
  share_it, check_parallel, share_or_fail, after_get, acquire_connection,
}
use go_irodsclient.Session.Sharing.Counts.{
  among, Positive, AtLeast, SharesLeast, share_in_use-SharesLeast,
}

-- A map has one entry for a connection.
abbrev pub Unique : List (ℕ × ℕ) → Type 0
Unique [] = Unit
Unique ((c, n) ∷ rest) = (lookup c rest ≡ none) × Unique rest

-- The count of a connection, 0 where it is not shared.
abbrev pub count_of : Option ℕ → ℕ
count_of none = 0
count_of (some n) = n

-- The connection has one share more, and the others have those they had.
pub record OneMore (c : ℕ) (before after : List (ℕ × ℕ)) : Type 0 where
  pub more : lookup c after ≡ some (count_of (lookup c before) + 1)
  pub same : (d : ℕ) → d ≢ c → lookup d after ≡ lookup d before

-- A connection from the pool; the first that is connected tells of the parallel uploads.
pub record FromPool (peer : Peer) (c : ℕ) (s t : Session) : Type 0 where
  pub occupied : contains c t.pool.occupied ≡ true
  pub known : t.support_parallel_upload_set ≡ s.support_parallel_upload_set || is_connected t.pool c
  pub parallel : t.support_parallel_upload ≡ (
      if s.support_parallel_upload_set
      then s.support_parallel_upload
      else if is_connected t.pool c
      then peer.parallel
      else s.support_parallel_upload)

-- A connection that was shared before, and no connection was shared less.
pub record Shared (c : ℕ) (s t : Session) : Type 0 where
  pub count : ℕ
  pub there : lookup c s.shared_connections ≡ some count
  pub least : (d n : ℕ) → lookup d s.shared_connections ≡ some n → count ≤ n
  pub known : t.support_parallel_upload_set ≡ s.support_parallel_upload_set
  pub parallel : t.support_parallel_upload ≡ s.support_parallel_upload

-- What the session is left with for each answer.
abbrev pub Answers : Bool → Dial → Peer → ℕ → Session → Session × Acquired → Type 0
Answers allow_shared dial peer now s (t, acquired c) =
    OneMore c s.shared_connections t.shared_connections
    × (t.last_connection_error ≡ s.last_connection_error)
    × (FromPool peer c s t ⊎ ((allow_shared ≡ true) × Shared c s t))
Answers allow_shared dial peer now s (t, pool_full) =
    (allow_shared ≡ false)
    × (t.shared_connections ≡ s.shared_connections)
    × (t.last_connection_error ≡ s.last_connection_error)
Answers allow_shared dial peer now s (t, error) =
    (t.shared_connections ≡ s.shared_connections)
    × (((dial ≢ dialed)
          × (t.last_connection_error
              ≡ some (record { permanent = peer.permanent_failure; time = now })))
        ⊎ ((allow_shared ≡ true)
            × (s.shared_connections ≡ [])
            × (t.last_connection_error ≡ s.last_connection_error)))

among-lookup :
    (c n : ℕ) (shared : List (ℕ × ℕ))
    → Unique shared
    → among c n shared ≡ true
    → lookup c shared ≡ some n
unfolding lookup
among-lookup c n [] u h = ground (arith, h)
among-lookup c n ((d, k) ∷ rest) (u, us) h = elim (Bool-cases (among c n rest)) [
  | inl e ↦
      let later = among-lookup c n rest us e in
      elim (Bool-cases (d == c)) [
        | inl f ↦ let g : d ≡ c = ground (arith, f) in absurd (ground (arith, later, rw g at u))
        | inr f ↦ rw f later
      ]
  | inr e ↦ ground (arith, e, h)
]

AtLeast-lookup :
    (m d n : ℕ) (shared : List (ℕ × ℕ)) → AtLeast m shared → lookup d shared ≡ some n → m ≤ n
unfolding lookup
AtLeast-lookup m d n [] a h = ground (arith, h)
AtLeast-lookup m d n ((c, k) ∷ rest) (a, more) h = elim (Bool-cases (c == d)) [
  | inl e ↦ ground (arith, a, e, h)
  | inr e ↦ AtLeast-lookup m d n rest more (ground (arith, e, h))
]

insert-OneMore :
    (c n : ℕ) (shared : List (ℕ × ℕ))
    → n ≡ count_of (lookup c shared) + 1
    → OneMore c shared (insert c n shared)
insert-OneMore c n shared e = record {
  more = ground (arith, e, lookup-insert c c n shared);
  same = λ d other. ground (arith, other, lookup-insert c d n shared);
}

one_more-count_of : (o : Option ℕ) → one_more o ≡ count_of o + 1
one_more-count_of none = refl
one_more-count_of (some n) = refl

put_to_share-OneMore : (c : ℕ) (shared : List (ℕ × ℕ)) → OneMore c shared (put_to_share c shared)
unfolding put_to_share
put_to_share-OneMore c shared =
    insert-OneMore c (one_more (lookup c shared)) shared (one_more-count_of (lookup c shared))

share_or_fail-Answers :
    (dial : Dial) (peer : Peer) (now : ℕ) (found : Option (List (ℕ × ℕ) × ℕ)) (s : Session)
    (p : Pool)
    → Unique s.shared_connections
    → SharesLeast s.shared_connections found
    → Answers true dial peer now s (share_or_fail found (record s { pool = p }))
share_or_fail-Answers dial peer now none s p u h = (refl, inr (refl, h, refl))
share_or_fail-Answers dial peer now (some (after, c)) s p u (n, there, least, is_after) =
    let shared = s.shared_connections in
    let found : lookup c shared ≡ some n = among-lookup c n shared u there in
    (
      rw is_after (insert-OneMore c (n + 1) shared (rw found refl)),
      refl,
      inr (
        refl,
        record {
          count = n;
          there = found;
          least = λ d m e. AtLeast-lookup n d m shared least e;
          known = refl;
          parallel = refl;
        },
      ),
    )

acquired-Answers :
    (allow_shared : Bool) (dial : Dial) (peer : Peer) (now c : ℕ) (p : Pool) (s : Session)
    → contains c p.occupied ≡ true
    → Answers allow_shared dial peer now s
        (check_parallel peer c (share_it c (record s { pool = p })), acquired c)
acquired-Answers allow_shared dial peer now c p s o =
    elim (Bool-cases s.support_parallel_upload_set) [
      | inl e ↦ rw e (
        put_to_share-OneMore c s.shared_connections,
        refl,
        inl (record { occupied = o; known = refl; parallel = refl }),
      )
      | inr e ↦ elim (Bool-cases (is_connected p c)) [
        | inl f ↦
            rw (e, f)
              (
                put_to_share-OneMore c s.shared_connections,
                refl,
                inl (record { occupied = o; known = rw f refl; parallel = rw f refl }),
              )
        | inr f ↦
            rw (e, f)
              (
                put_to_share-OneMore c s.shared_connections,
                refl,
                inl (record { occupied = o; known = rw f refl; parallel = rw f refl }),
              )
      ]
    ]

after_get-Answers :
    (new no_connect allow_shared : Bool) (dial : Dial) (peer : Peer) (now : ℕ) (got : Pool × Got)
    (s : Session)
    → Handed new no_connect dial s.pool got
    → Positive s.shared_connections
    → Unique s.shared_connections
    → Answers allow_shared dial peer now s (after_get allow_shared peer now got s)
after_get-Answers new no_connect allow dial peer now (p, conn c true) s (_, (o, _)) h u =
    acquired-Answers allow dial peer now c p s o
after_get-Answers new no_connect allow dial peer now (p, conn c false) s (_, (_, (_, (o, _)))) h u =
    acquired-Answers allow dial peer now c p s o
after_get-Answers new no_connect true dial peer now (p, full) s g h u =
    share_or_fail-Answers dial peer now (share_in_use s.shared_connections) s p u
      (share_in_use-SharesLeast s.shared_connections h)
after_get-Answers new no_connect false dial peer now (p, full) s g h u = (refl, refl, refl)
after_get-Answers new no_connect allow dial peer now (p, failed) s g h u = (refl, inl (g, refl))

-- Where every share count is positive and no connection has two: a connection that a caller acquires has one share
-- more than before, the others have what they had, and the last error stays as it was; it is occupied in the pool,
-- and then what it supports is known if it is connected and nothing was known before, or sharing was allowed and it
-- was shared before, no more than any other. A full pool is reported only where sharing is not allowed. On an error
-- the shares stay as they are, and either no connection could be made, and the failure is kept with its time, or
-- sharing was allowed and no connection was shared.
pub acquire_connection-Answers :
    (new allow_shared no_connect : Bool) (dial : Dial) (peer : Peer) (now : ℕ) (s : Session)
    → Positive s.shared_connections
    → Unique s.shared_connections
    → Answers allow_shared dial peer now s
        (acquire_connection new allow_shared no_connect dial peer now s)
unfolding acquire_connection
acquire_connection-Answers new allow no_connect dial peer now s h u =
    after_get-Answers new no_connect allow dial peer now (get new no_connect dial now s.pool) s
      (get-Handed new no_connect dial now s.pool) h u
