-- ===== src/Util/Encryption/RoundTrip.antt =====
-- `Decrypt` after `Encrypt`, and the unknown algorithm.
use go_irodsclient.Base.{
  ℕ, ◌+◌, ◌%◌, ltb, false, ◌≤◌, ◌<◌, ◌≡◌, ◌≢◌, refl, ap, ◌∙◌, true, Bytes, arith, length, take,
  take_all,
}
use go_irodsclient.Util.Encryption.{
  EncryptionAlgorithm, aes256cbc, aes256ctr, aes256cfb, aes256ofb, des256cbc, des256ctr, des256cfb,
  des256ofb, unknown, ok, encrypt_case, decrypt_case, encrypt_switch, decrypt_switch, cbc, ctr, cfb,
  ofb, Block, aes, des, Mode, Ciphers, encrypt, decrypt, get_encryption_block_size, run_cipher,
  in_blocks, is_key, front,
}
use go_irodsclient.Util.Encryption.Padding.{strip_pkcs7-pad_pkcs7}

abbrev pub block_of : EncryptionAlgorithm → Block
block_of des256cbc = des
block_of des256ctr = des
block_of des256cfb = des
block_of des256ofb = des
block_of _ = aes

not-ltb : (a b : ℕ) → b ≤ a → ltb a b ≡ false
not-ltb a b h = ground arith

run_cipher-ok :
    (b : Block) (m : Mode) (mode : Bytes → Bytes) (key source : Bytes) (dest : ℕ)
    → is_key b key ≡ true
    → length source ≤ dest
    → in_blocks b m (length source) ≡ true
    → run_cipher b m mode key source dest ≡ ok (mode source)
unfolding run_cipher
run_cipher-ok b m mode key source dest h k w = simp (h, not-ltb dest (length source) k, w) refl

front-ok : (n : ℕ) (iv : Bytes) → n ≤ length iv → front n iv ≡ ok (take n iv)
unfolding front
front-ok n iv h = ground arith

module _ (lib : Ciphers) where
  case_inverts :
      (b : Block) (m : Mode) (n : ℕ) (key iv p : Bytes) (dest : ℕ)
      → is_key b key ≡ true
      → n ≤ length iv
      → length p ≤ dest
      → in_blocks b m (length p) ≡ true
      → (c : Bytes) × (encrypt_case lib b m n key iv p dest ≡ ok c)
        × (decrypt_case lib b m n key iv c ≡ ok p)
  case_inverts b m n key iv p dest h k l w =
      let c = lib.encrypts b m key (take n iv) p in
      let same = ap (in_blocks b m) (lib.length-encrypts b m key (take n iv) p) in
      (
        c,
        rw (front-ok n iv k) (run_cipher-ok b m _ key p dest h l w),
        rw (front-ok n iv k) (
            run_cipher-ok b m _ key c (length c) h (omega arith) (same ∙ w)
            ∙ ap ok (lib.decrypts-encrypts b m key (take n iv) p w)),
      )

  switch_inverts :
      (a : EncryptionAlgorithm) (key iv p : Bytes) (dest : ℕ)
      → a ≢ unknown
      → is_key (block_of a) key ≡ true
      → get_encryption_block_size a ≤ length iv
      → length p ≤ dest
      → length p % get_encryption_block_size a ≡ 0
      → (c : Bytes) × (encrypt_switch lib a (get_encryption_block_size a) key iv p dest ≡ ok c)
        × (decrypt_switch lib a (get_encryption_block_size a) key iv c ≡ ok p)
  unfolding encrypt_switch decrypt_switch get_encryption_block_size
  switch_inverts aes256cbc key iv p dest _ h k l w =
      case_inverts aes cbc 16 key iv p dest h k l (ground (arith, w))
  switch_inverts aes256ctr key iv p dest _ h k l w =
      case_inverts aes ctr 16 key iv p dest h k l refl
  switch_inverts aes256cfb key iv p dest _ h k l w =
      case_inverts aes cfb 16 key iv p dest h k l refl
  switch_inverts aes256ofb key iv p dest _ h k l w =
      case_inverts aes ofb 16 key iv p dest h k l refl
  switch_inverts des256cbc key iv p dest _ h k l w =
      case_inverts des cbc 8 key iv p dest h k l (ground (arith, w))
  switch_inverts des256ctr key iv p dest _ h k l w = case_inverts des ctr 8 key iv p dest h k l refl
  switch_inverts des256cfb key iv p dest _ h k l w = case_inverts des cfb 8 key iv p dest h k l refl
  switch_inverts des256ofb key iv p dest _ h k l w = case_inverts des ofb 8 key iv p dest h k l refl
  switch_inverts unknown key iv p dest n h k l w = absurd (n refl)

  block_size_bounds :
      (a : EncryptionAlgorithm)
      → a ≢ unknown
      → (0 < get_encryption_block_size a) × (get_encryption_block_size a < 256)
  unfolding get_encryption_block_size
  block_size_bounds unknown n = absurd (n refl)
  block_size_bounds a n = omega arith

  -- For each of the eight algorithms, with a key of a length that its block cipher takes, a vector of at
  -- least one block and large enough buffers, encryption succeeds, and decryption of what it wrote
  -- gives the source back.
  pub decrypt-encrypt :
      (a : EncryptionAlgorithm) (key iv source : Bytes) (room back : ℕ)
      → a ≢ unknown
      → is_key (block_of a) key ≡ true
      → get_encryption_block_size a ≤ length iv
      → length source + get_encryption_block_size a ≤ room
      → length source ≤ back
      → (c : Bytes) × (encrypt lib a key iv source room ≡ ok c)
        × (decrypt lib a key iv c back ≡ ok source)
  unfolding encrypt decrypt
  decrypt-encrypt a key iv source room back n h k l m =
      let n' = get_encryption_block_size a in
      let (h0, h1) = block_size_bounds a n in
      let (p, pads, strips, whole, _, short) = strip_pkcs7-pad_pkcs7 source n' h0 h1 in
      let (c, e, d) = switch_inverts a key iv p room n h k (omega arith) whole in
      (c, rw pads e, rw (d, strips) (ap ok (take_all source back m)))
