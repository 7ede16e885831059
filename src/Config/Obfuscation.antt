-- ===== src/Config/Obfuscation.antt =====
-- config/password_obfuscation.go: the format of the .irodsA password file. The user id is its 64-bit
-- pattern, the time of `Encode` an argument, and a slice out of range (a Go panic) is `none`.
pub mod Wheel
pub mod RoundTrip
pub mod Format
mod Tests
use Prim.Native.Nat.{bit_and}
use go_irodsclient.Base.Wheel.{wheel, wheel_index, index_from}
use go_irodsclient.Base.{
  ℕ, zero, suc, ◌+◌, ◌-◌, ◌*◌, ◌/◌, ◌%◌, ◌^◌, Bool, true, false, List, [], ◌∷◌, ◌++◌, Option, none,
  some, Bytes, codes, ltb, ◌==◌, if◌then◌else◌, length, get_or, get_elem?, take, drop,
}

abbrev pub seq_list : List ℕ
seq_list =
    0xd768b678 ∷ 0xedfdaf56 ∷ 0x2420231b ∷ 0x987098d8 ∷ 0xc1bdfeee ∷ 0xf572341f ∷ 0x478def3a
    ∷ 0xa830d343 ∷ 0x774dfa2a ∷ 0x6720731e ∷ 0x346fa320 ∷ 0x6ffdf43a ∷ 0x7723a320 ∷ 0xdf67d02e
    ∷ 0x86ad240a ∷ 0xe76d342e ∷ []

-- `int((seq>>bitshift)&0x1f) + uidOffset`, and the step of `bitshift`.
pub offset_at : ℕ → ℕ → ℕ → ℕ
offset_at uid seq bitshift = seq / 2 ^ bitshift % 32 + bit_and uid 0xf5f

unfoldable pub next_shift : ℕ → ℕ
next_shift bitshift = let b = bitshift + 3 in if ltb 28 b then 0 else b

-- `newWheelIndex := i - offset; for newWheelIndex < 0 { newWheelIndex += len(wheel) }`: a negative
-- index is kept as the two numbers, `len(wheel)` goes to the first; the first argument is fuel.
unfoldable pub rewind : ℕ → ℕ → ℕ → ℕ
rewind zero i offset = i - offset
rewind (suc f) i offset =
    let again = rewind f (i + 77) offset in if ltb i offset then again else i - offset

-- One round of the loop of `Decode` that does not break, `rewind` with the fuel `offset`.
pub decode_byte : ℕ → ℕ → ℕ
decode_byte offset c = elim (wheel_index c) [
  | none ↦ c
  | some i ↦ get_or wheel (rewind offset i offset) 0
]

-- One round of the loop of `Encode` that does not break; an index never is negative there.
pub encode_byte : ℕ → ℕ → ℕ
encode_byte offset c = elim (wheel_index c) [
  | none ↦ c
  | some i ↦ get_or wheel ((i + offset) % 77) 0
]

pub decode_from : ℕ → ℕ → ℕ → Bytes → Bytes
decode_from uid seq b [] = []
decode_from uid seq b (c ∷ s) =
    let rest = decode_from uid seq (next_shift b) s in
    if c == 0 then [] else decode_byte (offset_at uid seq b) c ∷ rest

pub encode_from : ℕ → ℕ → ℕ → Bytes → Bytes
encode_from uid seq b [] = []
encode_from uid seq b (c ∷ s) =
    let rest = encode_from uid seq (next_shift b) s in
    if c == 0 then [] else encode_byte (offset_at uid seq b) c ∷ rest

-- `seq := seqList[encodedPassword[6] - 'e']`, the subtraction on bytes.
pub select_seq : Bytes → Option ℕ
select_seq encoded = elim (get_elem? encoded 6) [
  | none ↦ none
  | some c ↦ get_elem? seq_list ((c + 256 - b'e') % 256)
]

-- PasswordObfuscator.Decode
unfoldable pub decode : ℕ → Bytes → Option Bytes
unfolding select_seq decode_from decode_byte offset_at rewind index_from next_shift
decode uid encoded = elim (select_seq encoded) [
  | none ↦ none
  | some seq ↦ some (decode_from uid seq 15 (drop 7 encoded))
]

-- The five bytes that stand before the password: 'S' and four letters of the time.
abbrev pub prelude : ℕ → Bytes
prelude mtime =
    b'S'
    ∷ (b'a' + mtime / 2 ^ 4 % 16)
    ∷ (b'a' + mtime % 16)
    ∷ (b'a' + mtime / 2 ^ 12 % 16)
    ∷ (b'a' + mtime / 2 ^ 8 % 16)
    ∷ []

-- PasswordObfuscator.Encode, with `seqIndex` 0.
unfoldable pub encode : ℕ → ℕ → Bytes → Bytes
unfolding encode_from encode_byte offset_at index_from next_shift
encode uid mtime password =
    let encoded = b'.' ∷ encode_from uid 0xd768b678 0 (prelude mtime ++ password) in
    (take 6 encoded ++ (b'e' ∷ drop 6 encoded)) ++ 0 ∷ []
