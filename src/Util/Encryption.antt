-- ===== src/Util/Encryption.antt =====
-- irods/util/encryption.go: padding, and the dispatch to the ciphers of Go's standard library, which
-- are a parameter. `panics` stands for a run-time panic. A buffer `dest` is given by its length; what
-- comes back are the bytes written to its front, whose number is the integer that Go returns.
pub mod Padding
pub mod RoundTrip
mod Tests
use go_irodsclient.Base.{
  ℕ, ◌+◌, ◌-◌, ◌%◌, Bool, true, false, ◌||◌, ◌&&◌, [], ◌∷◌, ◌++◌, Bytes, ltb, leb, ◌==◌,
  if◌then◌else◌, length, get_or, take, drop, replicate, ◌≡◌,
}
use go_irodsclient.Base.Text.{eq_text}

pub data EncryptionAlgorithm : Type 0 where
  aes256cbc aes256ctr aes256cfb aes256ofb : EncryptionAlgorithm
  des256cbc des256ctr des256cfb des256ofb : EncryptionAlgorithm
  unknown : EncryptionAlgorithm

pub data Outcome {ℓ} (A : Type ℓ) : Type ℓ where
  ok : A → Outcome A
  err : Outcome A
  panics : Outcome A

infixl 5 ◌>>=◌
abbrev pub ◌>>=◌ {ℓ κ} : {A : Type ℓ} {B : Type κ} → Outcome A → (A → Outcome B) → Outcome B
ok a >>= f = f a
err >>= f = err
panics >>= f = panics

unfoldable pub get_encryption_block_size : EncryptionAlgorithm → ℕ
get_encryption_block_size aes256cbc = 16
get_encryption_block_size aes256ctr = 16
get_encryption_block_size aes256cfb = 16
get_encryption_block_size aes256ofb = 16
get_encryption_block_size unknown = 0
get_encryption_block_size _ = 8

-- crypto/aes, crypto/des and crypto/cipher: what a mode writes for a block cipher, a key, an
-- initialisation vector and a source; decryption undoes encryption of a
-- source that the mode takes, and no length changes.
pub data Block : Type 0 where
  aes des : Block

pub data Mode : Type 0 where
  cbc ctr cfb ofb : Mode

-- CBC takes whole blocks, the other modes take every length.
abbrev pub in_blocks : Block → Mode → ℕ → Bool
in_blocks aes cbc n = n % 16 == 0
in_blocks des cbc n = n % 8 == 0
in_blocks b _ n = true

pub record Ciphers : Type 0 where
  pub encrypts : Block → Mode → Bytes → Bytes → Bytes → Bytes
  pub decrypts : Block → Mode → Bytes → Bytes → Bytes → Bytes
  pub decrypts-encrypts :
      (b : Block) (m : Mode) (key iv source : Bytes)
      → in_blocks b m (length source) ≡ true
      → decrypts b m key iv (encrypts b m key iv source) ≡ source
  pub length-encrypts :
      (b : Block) (m : Mode) (key iv source : Bytes)
      → length (encrypts b m key iv source) ≡ length source

-- bytes.HasSuffix
unfoldable pub has_suffix : Bytes → Bytes → Bool
has_suffix s t = leb (length t) (length s) && eq_text (drop (length s - length t) s) t

unfoldable pub pad_pkcs7 : Bytes → ℕ → Outcome Bytes
pad_pkcs7 source blocksize =
    if blocksize == 0
    then panics
    else (let pad_len = blocksize - length source % blocksize in
        ok (source ++ replicate pad_len (pad_len % 256)))

unfoldable pub strip_pkcs7 : Bytes → ℕ → Outcome Bytes
strip_pkcs7 source block_size =
    if length source == 0
    then ok source
    else if block_size == 0
    then panics
    else if ltb 0 (length source % block_size)
    then err
    else (let pad_len = get_or source (length source - 1) 0 in
        let ref = replicate pad_len (pad_len % 256) in
        if ltb block_size pad_len
        then err
        else if pad_len == 0
        then err
        else if has_suffix source ref
        then ok (take (length source - pad_len) source)
        else err)

-- aes.NewCipher takes keys of 16, 24 or 32 bytes, des.NewCipher of 8.
unfoldable pub is_key : Block → Bytes → Bool
is_key aes key = (length key == 16) || ((length key == 24) || (length key == 32))
is_key des key = length key == 8

-- The sixteen functions encryptAES256CBC to decryptDES256OFB: they differ in the block cipher and in the
-- mode, passed here with the function that the mode computes. Every mode panics where `dest` is shorter
-- than the source, CBC also where the source is not made of whole blocks.
unfoldable pub run_cipher : Block → Mode → (Bytes → Bytes) → Bytes → Bytes → ℕ → Outcome Bytes
unfolding is_key
run_cipher b m mode key source dest =
    if is_key b key
    then (if ltb dest (length source)
        then panics
        else if in_blocks b m (length source)
        then ok (mode source)
        else panics)
    else err

-- `iv[:n]`, which panics where `iv` is shorter.
unfoldable pub front : ℕ → Bytes → Outcome Bytes
front n iv = if ltb (length iv) n then panics else ok (take n iv)

module _ (lib : Ciphers) where
  -- One case of the switch of Encrypt, with the length that the vector is cut to.
  abbrev encrypt_case : Block → Mode → ℕ → Bytes → Bytes → Bytes → ℕ → Outcome Bytes
  encrypt_case b m n key iv padded dest = do
    iv ← front n iv
    run_cipher b m (lib.encrypts b m key iv) key padded dest

  abbrev decrypt_case : Block → Mode → ℕ → Bytes → Bytes → Bytes → Outcome Bytes
  decrypt_case b m n key iv source = do
    iv ← front n iv
    run_cipher b m (lib.decrypts b m key iv) key source (length source)

  encrypt_switch : EncryptionAlgorithm → ℕ → Bytes → Bytes → Bytes → ℕ → Outcome Bytes
  encrypt_switch aes256cbc n = encrypt_case aes cbc n
  encrypt_switch aes256ctr n = encrypt_case aes ctr n
  encrypt_switch aes256cfb n = encrypt_case aes cfb n
  encrypt_switch aes256ofb n = encrypt_case aes ofb n
  encrypt_switch des256cbc n = encrypt_case des cbc 8
  encrypt_switch des256ctr n = encrypt_case des ctr 8
  encrypt_switch des256cfb n = encrypt_case des cfb 8
  encrypt_switch des256ofb n = encrypt_case des ofb 8
  encrypt_switch unknown n = λ key iv padded dest. err

  decrypt_switch : EncryptionAlgorithm → ℕ → Bytes → Bytes → Bytes → Outcome Bytes
  decrypt_switch aes256cbc n = decrypt_case aes cbc n
  decrypt_switch aes256ctr n = decrypt_case aes ctr n
  decrypt_switch aes256cfb n = decrypt_case aes cfb n
  decrypt_switch aes256ofb n = decrypt_case aes ofb n
  decrypt_switch des256cbc n = decrypt_case des cbc 8
  decrypt_switch des256ctr n = decrypt_case des ctr 8
  decrypt_switch des256cfb n = decrypt_case des cfb 8
  decrypt_switch des256ofb n = decrypt_case des ofb 8
  decrypt_switch unknown n = λ key iv source. err

  unfoldable pub encrypt : EncryptionAlgorithm → Bytes → Bytes → Bytes → ℕ → Outcome Bytes
  unfolding encrypt_switch
  encrypt algorithm key iv source dest = do
    let block_size = get_encryption_block_size algorithm
    padded ← pad_pkcs7 source block_size
    encrypt_switch algorithm block_size key iv padded dest

  unfoldable pub decrypt : EncryptionAlgorithm → Bytes → Bytes → Bytes → ℕ → Outcome Bytes
  unfolding decrypt_switch
  decrypt algorithm key iv source dest = do
    let block_size = get_encryption_block_size algorithm
    padded ← decrypt_switch algorithm block_size key iv source
    unpadded ← strip_pkcs7 padded block_size
    ok (take dest unpadded)
