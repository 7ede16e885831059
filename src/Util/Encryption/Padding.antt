-- ===== src/Util/Encryption/Padding.antt =====
-- `stripPkcs7` against `padPkcs7`.
use go_irodsclient.Base.{
  ℕ, zero, suc, ◌+◌, ◌-◌, ◌%◌, ◌≤◌, ◌<◌, ◌≡◌, refl, true, [], ◌∷◌, ◌++◌, Bytes, arith, length,
  get_or, take, drop, replicate, length-append, length-replicate, take-append, drop-append, ◌⊎◌,
  inl, inr, ap,
}
use native.Mathlib.Nat.{mod-lt}
use go_irodsclient.Base.Text.{eq_text_iff, eq_text_self}
use go_irodsclient.Util.Encryption.{ok, pad_pkcs7, strip_pkcs7, has_suffix}

has_suffix-append : (s t : Bytes) → has_suffix (s ++ t) t ≡ true
unfolding has_suffix
has_suffix-append s t =
    let e : length (s ++ t) - length t ≡ length s = omega (arith, length-append s t) in
    rw (drop-append s t (length (s ++ t) - length t) e, eq_text_self t)
      (ground (arith, length-append s t))

append_of_drop : (s : Bytes) (k : ℕ) → s ≡ take k s ++ drop k s
append_of_drop s zero = refl
append_of_drop [] (suc k) = refl
append_of_drop (x ∷ s) (suc k) = ap (◌∷◌ x) (append_of_drop s k)

append_of_has_suffix : (s t : Bytes) → has_suffix s t ≡ true → s ≡ take (length s - length t) s ++ t
unfolding has_suffix
append_of_has_suffix s t h =
    ground
      (arith, append_of_drop s (length s - length t), eq_text_iff (drop (length s - length t) s) t)

get_or-append : (s t : Bytes) (i : ℕ) → get_or (s ++ t) (length s + i) 0 ≡ get_or t i 0
get_or-append [] t i = let e : 0 + i ≡ i = omega arith in rw e
get_or-append (x ∷ s) t i =
    let e : suc (length s) + i ≡ suc (length s + i) = omega arith in rw e (get_or-append s t i)

get_or-replicate : (n i a : ℕ) → i < n → get_or (replicate n a) i 0 ≡ a
get_or-replicate zero i a h = absurd (omega arith)
get_or-replicate (suc n) zero a h = refl
get_or-replicate (suc n) (suc i) a h = get_or-replicate n i a (omega arith)

-- What `stripPkcs7` does behind its checks.
strip_pkcs7-eq :
    (p s : Bytes) (n k : ℕ)
    → 0 < length p
    → 0 < n
    → length p % n ≡ 0
    → get_or p (length p - 1) 0 ≡ k
    → 0 < k
    → k ≤ n
    → has_suffix p (replicate k (k % 256)) ≡ true
    → take (length p - k) p ≡ s
    → strip_pkcs7 p n ≡ ok s
unfolding strip_pkcs7
strip_pkcs7-eq p s n k h1 h2 h3 h4 h5 h6 h7 h8 = ground arith

padded_length : (l n : ℕ) → 0 < n → (l + (n - l % n)) % n ≡ 0
padded_length l n h = grind arith

strip_padded :
    (s : Bytes) (n k : ℕ)
    → 0 < n
    → 0 < k
    → k ≤ n
    → k < 256
    → (length s + k) % n ≡ 0
    → strip_pkcs7 (s ++ replicate k (k % 256)) n ≡ ok s
strip_padded s n k h1 h2 h3 h4 h5 =
    let r = replicate k (k % 256) in
    let e : length (s ++ r) ≡ length s + k =
      omega (arith, length-append s r, length-replicate k (k % 256)) in
    let at : length (s ++ r) - 1 ≡ length s + (k - 1) = omega arith in
    let byte : k % 256 ≡ k = omega arith in
    let last : get_or (s ++ r) (length (s ++ r) - 1) 0 ≡ k =
      rw (at, get_or-append s r (k - 1), get_or-replicate k (k - 1) (k % 256) (omega arith)) byte in
    strip_pkcs7-eq (s ++ r) s n k (omega arith) h1 (rw e h5) last h2 h3 (has_suffix-append s r)
      (take-append s r _ (omega arith))

-- For a block size from 1 to 255, stripping the padding gives the text back, and the padded text fills
-- whole blocks and is at most one block longer.
pub strip_pkcs7-pad_pkcs7 :
    (s : Bytes) (n : ℕ)
    → 0 < n
    → n < 256
    → (p : Bytes) × (pad_pkcs7 s n ≡ ok p)
      × (strip_pkcs7 p n ≡ ok s)
      × (length p % n ≡ 0)
      × (length s < length p)
      × (length p ≤ length s + n)
unfolding pad_pkcs7
strip_pkcs7-pad_pkcs7 s n h k =
    let d = n - length s % n in
    let r = replicate d (d % 256) in
    let e : length (s ++ r) ≡ length s + d =
      omega (arith, length-append s r, length-replicate d (d % 256)) in
    let m : length s % n < n = mod-lt (length s) h in
    (
      s ++ r,
      ground arith,
      strip_padded s n d h (omega arith) (omega arith) (omega arith) (padded_length (length s) n h),
      rw e (padded_length (length s) n h),
      omega arith,
      omega arith,
    )

-- Whatever `stripPkcs7` accepts is the result behind which a count from 1 to the block size stands
-- that many times, or is empty.
pub strip_pkcs7_sound :
    (p s : Bytes) (n : ℕ)
    → strip_pkcs7 p n ≡ ok s
    → ((p ≡ []) × (s ≡ []))
      ⊎ ((k : ℕ) × (0 < k) × (k ≤ n) × (length p % n ≡ 0) × (p ≡ s ++ replicate k (k % 256)))
unfolding strip_pkcs7
strip_pkcs7_sound [] s n h = inl (refl, ground arith)
strip_pkcs7_sound (x ∷ p) s n h =
    let q = x ∷ p in
    let k = get_or q (length q - 1) 0 in
    inr (
      k,
      ground arith,
      ground arith,
      ground arith,
      ground (arith, append_of_has_suffix q (replicate k (k % 256)), length-replicate k (k % 256)),
    )
