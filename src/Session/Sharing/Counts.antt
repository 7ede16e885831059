-- ===== src/Session/Sharing/Counts.antt =====
-- Share counts: the least shared connection is shared, and giving back undoes sharing.
use go_irodsclient.Base.{
  ℕ, ◌+◌, ◌-◌, ◌≤◌, ◌<◌, ◌≡◌, refl, Bool, true, false, ◌||◌, ◌&&◌, List, [], ◌∷◌, Option, none,
  some, ltb, ◌==◌, All, arith, Bool-cases, inl, inr, ◌⊎◌,
}
use go_irodsclient.Base.Maps.{lookup, insert, lookup-insert, lookup-erase}
use go_irodsclient.Session.Sharing.{
  put_to_share, one_more, find_min_share, share_in_use, Share, unknown, still, last, one_less,
  give_back,
}

-- Whether an entry of the map is this one.
abbrev pub among : ℕ → ℕ → List (ℕ × ℕ) → Bool
among c n [] = false
among c n ((d, k) ∷ rest) = ((d == c) && (k == n)) || among c n rest

-- The counts of a map.
abbrev pub Positive : List (ℕ × ℕ) → Type 0
Positive shared = All (λ entry. 0 < entry.1) shared

abbrev pub AtLeast : ℕ → List (ℕ × ℕ) → Type 0
AtLeast n shared = All (λ entry. n ≤ entry.1) shared

Positive-AtLeast : (m : ℕ) (shared : List (ℕ × ℕ)) → m ≤ 1 → Positive shared → AtLeast m shared
Positive-AtLeast m [] e h = tt
Positive-AtLeast m ((c, n) ∷ rest) e (h, k) = (omega (arith, e, h), Positive-AtLeast m rest e k)

-- A connection and its count that the search may give: among the entries, or the one it began with, and no
-- entry has a smaller count.
record Least (b n : ℕ) (shared : List (ℕ × ℕ)) (found : ℕ × Option ℕ) : Type 0 where
  conn : ℕ
  share : ℕ
  result : found ≡ (share, some conn)
  positive : 0 < share
  within : share ≤ n
  below : AtLeast share shared
  entry : ((conn ≡ b) × (share ≡ n)) ⊎ (among conn share shared ≡ true)

-- The search from a connection that is the least so far, where its count is not 1 yet.
find_min_share-Least :
    (b n : ℕ) (shared : List (ℕ × ℕ))
    → 1 < n
    → Positive shared
    → Least b n shared (find_min_share n (some b) shared)
unfolding find_min_share
find_min_share-Least b n [] h k = record {
  conn = b;
  share = n;
  result = refl;
  positive = omega (arith, h);
  within = omega arith;
  below = tt;
  entry = inl (refl, refl);
}
find_min_share-Least b n ((d, share) ∷ rest) h (k, more) =
    let z : (n == 0) ≡ false = ground (arith, h) in
    let y : (n == 1) ≡ false = ground (arith, h) in
    elim (Bool-cases (ltb share n)) [
      | inr e ↦
          let r = find_min_share-Least b n rest h more in
          simp (z, e, y)
            (record {
              conn = r.conn;
              share = r.share;
              result = r.result;
              positive = r.positive;
              within = r.within;
              below = (ground (arith, e, r.within), r.below);
              entry = ground (arith, r.entry);
            })
      | inl e ↦ elim (Bool-cases (share == 1)) [
        | inl f ↦
            let one : share ≡ 1 = ground (arith, f) in
            simp (z, e, f)
              (record {
                conn = d;
                share = share;
                result = refl;
                positive = k;
                within = ground (arith, e);
                below = (omega arith, Positive-AtLeast share rest (omega (arith, one)) more);
                entry = inr (ground arith);
              })
        | inr f ↦
            let r = find_min_share-Least d share rest (ground (arith, f, k)) more in
            simp (z, e, f)
              (record {
                conn = r.conn;
                share = r.share;
                result = r.result;
                positive = r.positive;
                within = ground (arith, e, r.within);
                below = (r.within, r.below);
                entry = inr (ground (arith, r.entry));
              })
      ]
    ]

-- What sharing an in-use connection gives: an error where no connection is shared, or else one whose count is
-- the least, with one more share.
abbrev pub SharesLeast : List (ℕ × ℕ) → Option (List (ℕ × ℕ) × ℕ) → Type 0
SharesLeast shared none = shared ≡ []
SharesLeast shared (some (after, c)) =
    (n : ℕ) × (among c n shared ≡ true) × AtLeast n shared × (after ≡ insert c (n + 1) shared)

-- Where every share count is positive, a connection that is shared because the pool is full is one with the
-- least count, its count goes up by one and no other changes; there is an error only if no connection is
-- shared.
pub share_in_use-SharesLeast :
    (shared : List (ℕ × ℕ)) → Positive shared → SharesLeast shared (share_in_use shared)
unfolding share_in_use find_min_share
share_in_use-SharesLeast [] h = refl
share_in_use-SharesLeast ((d, share) ∷ rest) (k, more) = elim (Bool-cases (share == 1)) [
  | inl f ↦
      let one : share ≡ 1 = ground (arith, f) in
      simp f (
        share,
        ground arith,
        (omega arith, Positive-AtLeast share rest (omega (arith, one)) more),
        refl,
      )
  | inr f ↦
      let r = find_min_share-Least d share rest (ground (arith, f, k)) more in
      simp (f, r.result) (r.share, ground (arith, r.entry), (r.within, r.below), refl)
]

-- The connection is known again as it was, and it is the last share exactly if it was not shared before.
abbrev pub Restores : ℕ → List (ℕ × ℕ) → Share → Type 0
Restores c shared unknown = ⊥
Restores c shared (still after) =
    ((n : ℕ) × (lookup c shared ≡ some n)) × ((d : ℕ) → lookup d after ≡ lookup d shared)
Restores c shared (last after) =
    (lookup c shared ≡ none) × ((d : ℕ) → lookup d after ≡ lookup d shared)

one_less-Restores :
    (c : ℕ) (entry : Option ℕ) (shared : List (ℕ × ℕ))
    → lookup c shared ≡ entry
    → ((n : ℕ) → lookup c shared ≡ some n → 0 < n)
    → Restores c shared (one_less c (some (one_more entry)) (insert c (one_more entry) shared))
one_less-Restores c none shared e h =
    (e, λ d. ground (arith, e, lookup-erase c d (insert c 1 shared), lookup-insert c d 1 shared))
one_less-Restores c (some n) shared e h =
    let z : (n + 1 - 1 == 0) ≡ false = ground (arith, h n e) in
    simp z (
      (n, e),
      λ d. ground (
        arith,
        e,
        lookup-insert c d (n + 1 - 1) (insert c (n + 1) shared),
        lookup-insert c d (n + 1) shared,
      ),
    )

-- Where a count of the connection is positive, giving a connection back after sharing it leaves every count
-- as it was before, and it is the last share exactly if the connection was not shared before.
pub give_back-put_to_share :
    (c : ℕ) (shared : List (ℕ × ℕ))
    → ((n : ℕ) → lookup c shared ≡ some n → 0 < n)
    → Restores c shared (give_back c (put_to_share c shared))
unfolding give_back put_to_share
give_back-put_to_share c shared h =
    let e : lookup c (put_to_share c shared) ≡ some (one_more (lookup c shared)) =
      ground (arith, lookup-insert c c (one_more (lookup c shared)) shared) in
    rw e (one_less-Restores c (lookup c shared) shared refl h)
