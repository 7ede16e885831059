-- ===== src/Util/Encryption/Tests.antt =====
-- Runs of padding and encryption, with ciphers that keep the text.
use go_irodsclient.Base.{
  ℕ, ◌%◌, ◌≤◌, ◌<◌, ◌≡◌, ◌⊎◌, refl, [], ◌∷◌, ◌++◌, Bytes, arith, codes, length, replicate,
}
use go_irodsclient.Util.Encryption.{
  Ciphers, ok, err, panics, pad_pkcs7, strip_pkcs7, encrypt, decrypt, aes256cbc, unknown, is_key,
  get_encryption_block_size, has_suffix,
}
use go_irodsclient.Base.Text.{eq_text}
use go_irodsclient.Util.Encryption.Padding.{strip_pkcs7_sound}
use go_irodsclient.Util.Encryption.RoundTrip.{decrypt-encrypt}

-- A stand-in for the ciphers, which write the text as it is.
abbrev toy_ciphers : Ciphers
toy_ciphers = record {
  encrypts = λ b m key iv source. source;
  decrypts = λ b m key iv source. source;
  decrypts-encrypts = λ b m key iv source w. refl;
  length-encrypts = λ b m key iv source. refl;
}

pad_runs : pad_pkcs7 (codes "secret") 8 ≡ ok (codes "secret" ++ 2 ∷ 2 ∷ [])
unfolding pad_pkcs7
pad_runs = refl

strip_runs : strip_pkcs7 (codes "secret" ++ 3 ∷ 2 ∷ []) 8 ≡ err
unfolding strip_pkcs7 has_suffix eq_text
strip_runs = refl

strip_accepts : strip_pkcs7 (codes "secret" ++ 2 ∷ 2 ∷ []) 8 ≡ ok (codes "secret")
unfolding strip_pkcs7 has_suffix eq_text
strip_accepts = refl

strip_pkcs7_sound_example :
    ((codes "secret" ++ 2 ∷ 2 ∷ [] ≡ []) × (codes "secret" ≡ []))
    ⊎ ((k : ℕ) × (0 < k)
        × (k ≤ 8)
        × (length (codes "secret" ++ 2 ∷ 2 ∷ []) % 8 ≡ 0)
        × (codes "secret" ++ 2 ∷ 2 ∷ [] ≡ codes "secret" ++ replicate k (k % 256)))
strip_pkcs7_sound_example =
    strip_pkcs7_sound (codes "secret" ++ 2 ∷ 2 ∷ []) (codes "secret") 8 strip_accepts

decrypt-encrypt_example :
    (c : Bytes) × (encrypt toy_ciphers aes256cbc (replicate 32 7) (replicate 16 1) (codes "data") 64
      ≡ ok c)
    × (decrypt toy_ciphers aes256cbc (replicate 32 7) (replicate 16 1) c 64 ≡ ok (codes "data"))
unfolding is_key get_encryption_block_size
decrypt-encrypt_example =
    decrypt-encrypt toy_ciphers aes256cbc (replicate 32 7) (replicate 16 1) (codes "data") 64 64
      (λ e. ground (arith, e)) refl (omega arith) (omega arith) (omega arith)

-- The padding divides by the block size, which is 0.
unknown_algorithm :
    (encrypt toy_ciphers unknown (replicate 32 7) (replicate 16 1) (codes "data") 64 ≡ panics)
    × (decrypt toy_ciphers unknown (replicate 32 7) (replicate 16 1) (codes "data") 64 ≡ err)
unfolding encrypt decrypt pad_pkcs7 get_encryption_block_size
unknown_algorithm = (refl, refl)
