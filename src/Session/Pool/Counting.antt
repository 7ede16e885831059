-- ===== src/Session/Pool/Counting.antt =====
-- How often a connection stands in a list, and what the pool's lists operations do to that.
use go_irodsclient.Base.{
  ℕ, suc, ◌+◌, ◌≡◌, refl, List, [], ◌∷◌, ◌++◌, arith, ltb, ◌==◌, if◌then◌else◌, length, contains,
  without,
}
use go_irodsclient.Session.Pool.{pop_back, occupy}

abbrev pub count : ℕ → List ℕ → ℕ
count x [] = 0
count x (y ∷ ys) = let rest = count x ys in if y == x then suc rest else rest

pub count-append : (x : ℕ) (s t : List ℕ) → count x (s ++ t) ≡ count x s + count x t
count-append x [] t = omega arith
count-append x (y ∷ s) t = ground (arith, count-append x s t)

pub count-without :
    (x c : ℕ) (s : List ℕ) → count x (without c s) ≡ (if c == x then 0 else count x s)
count-without x c [] = ground arith
count-without x c (y ∷ s) = ground (arith, count-without x c s)

pub length-without : (c : ℕ) (s : List ℕ) → length (without c s) + count c s ≡ length s
length-without c [] = omega arith
length-without c (y ∷ s) = ground (arith, length-without c s)

pub contains-count : (c : ℕ) (s : List ℕ) → contains c s ≡ ltb 0 (count c s)
contains-count c [] = ground arith
contains-count c (y ∷ s) = ground (arith, contains-count c s)

pub count-occupy : (x c : ℕ) (s : List ℕ) → count c s ≡ 0 → count x (occupy c s) ≡ count x (c ∷ s)
count-occupy x c s h = ground (arith, contains-count c s)

pub length-occupy : (c : ℕ) (s : List ℕ) → count c s ≡ 0 → length (occupy c s) ≡ suc (length s)
length-occupy c s h = ground (arith, contains-count c s)

pub count-pop_back :
    (x c : ℕ) (s : List ℕ) → count x (c ∷ s) ≡ count x ((pop_back c s).0 ++ (pop_back c s).1 ∷ [])
unfolding pop_back
count-pop_back x c [] = refl
count-pop_back x c (y ∷ s) = ground (arith, count-pop_back x y s)

pub length-pop_back : (c : ℕ) (s : List ℕ) → length (pop_back c s).0 ≡ length s
unfolding pop_back
length-pop_back c [] = refl
length-pop_back c (y ∷ s) = ground (arith, length-pop_back y s)
