-- ===== src/Util/Scramble.antt =====
-- irods/util/scramble.go: how a password is scrambled for the server. MD5 and the random letter that
-- comes first are parameters. `wheel` is in Base/Wheel.antt.
pub mod Inverse
pub mod Password
mod Tests
use go_irodsclient.Base.Wheel.{wheel, wheel_index, index_from}
use go_irodsclient.Base.{
  ℕ, ◌+◌, ◌-◌, ◌/◌, ◌%◌, Bool, true, [], ◌∷◌, ◌++◌, none, some, Bytes, codes, ltb, ◌==◌,
  if◌then◌else◌, length, get_or, take, drop, replicate,
}

abbrev pub scramble_padding : Bytes
scramble_padding = codes "1gCBizHWbwIYyWLoysGzTe6SyzqFKMniZX05faZHWAwQKXf6Fs"

abbrev pub v2_prefix : Bytes
v2_prefix = codes "A.ObfV2"

abbrev pub default_password_key : Bytes
default_password_key = codes "a9_3fker"

abbrev pub max_password_length : ℕ
max_password_length = 50

-- `lencopy`, an `int` in Go, is negative where ours is 0; both are then at most 15.
unfoldable pub get_password_padded : Bytes → Bytes
get_password_padded new_password =
    let pwd_len = length new_password in
    let cut =
      if ltb max_password_length pwd_len
      then take max_password_length new_password
      else new_password in
    let lencopy = max_password_length - 10 - pwd_len in
    let room = if ltb (length scramble_padding) lencopy then length scramble_padding else lencopy in
    if ltb 15 lencopy then cut ++ take room scramble_padding else cut

-- The loop over the text: the ring, whether blocks are chained, the chain, the position and the rest.
pub scramble_from : Bytes → Bool → ℕ → ℕ → Bytes → Bytes
scramble_from ring block_chaining chain p [] = []
scramble_from ring block_chaining chain p (c ∷ s) =
    let k = get_or ring (p % 61) 0 in
    elim (wheel_index c) [
      | none ↦ c ∷ scramble_from ring block_chaining chain (p + 1) s
      | some i ↦
          let d = get_or wheel ((i + k + chain) % 77) 0 in
          d
          ∷ scramble_from ring block_chaining (if block_chaining then d % 256 else chain) (p + 1) s
    ]

-- hex.EncodeToString
abbrev pub hex_digit : ℕ → ℕ
hex_digit n = if ltb n 10 then b'0' + n else b'a' + (n - 10)

unfoldable pub hex : Bytes → Bytes
hex [] = []
hex (c ∷ s) = hex_digit (c / 16) ∷ hex_digit (c % 16) ∷ hex s

module _ (md5 : Bytes → Bytes) where
  -- `copy(keyBuf[0:], key)` over 100 zero bytes; the slices of `buffer` are what was copied there.
  unfoldable pub get_encoder_ring : Bytes → Bytes
  get_encoder_ring key =
      let key = if ltb 100 (length key) then take 100 key else key in
      let first = md5 (key ++ replicate (100 - length key) 0) in
      let second = md5 first in
      let third = md5 (first ++ second) in first ++ (second ++ (third ++ third))

  unfoldable pub scramble : Bytes → Bytes → Bytes → Bool → Bytes
  unfolding scramble_from get_encoder_ring index_from
  scramble to_scramble key scramble_prefix block_chaining =
      let key = if length key == 0 then default_password_key else key in
      scramble_prefix ++ scramble_from (get_encoder_ring key) block_chaining 0 0 to_scramble

  -- The key of `ScrambleV2`: both texts cut, filled with NULs to 100 bytes, hashed.
  unfoldable pub v2_key : Bytes → Bytes → Bytes
  unfolding hex
  v2_key old_password signature =
      let old = if ltb 90 (length old_password) then take 90 old_password else old_password in
      let sig = if ltb 100 (length signature) then take 100 signature else signature in
      hex (md5 (old ++ (sig ++ replicate (100 - (length old + length sig)) 0)))

  unfoldable pub scramble_v2 : ℕ → Bytes → Bytes → Bytes → Bytes
  unfolding v2_key scramble
  scramble_v2 random new_password old_password signature =
      let cut = if ltb 150 (length new_password) then take 150 new_password else new_password in
      scramble ((random ∷ take 6 (drop 1 v2_prefix)) ++ cut) (v2_key old_password signature) [] true

  -- ObfuscateNewPassword pads by the same lines as GetPasswordPadded.
  unfoldable pub obfuscate_new_password : ℕ → Bytes → Bytes → Bytes → Bytes
  unfolding get_password_padded scramble_v2
  obfuscate_new_password random new_password old_password signature =
      scramble_v2 random (get_password_padded new_password) old_password signature
