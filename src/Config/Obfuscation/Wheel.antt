-- ===== src/Config/Obfuscation/Wheel.antt =====
-- One byte of the password: `rewind` turns the wheel back, and no byte becomes NUL.
use go_irodsclient.Base.{
  ℕ, zero, suc, ◌+◌, ◌*◌, ◌%◌, ◌<◌, ◌≤◌, ◌≡◌, none, some, arith, ltb, get_or, Option-cases,
  Bool-cases, inl, inr,
}
use go_irodsclient.Base.Wheel.{wheel, wheel_index, wheel_index-get, wheel_pos, wheel_index-some}
use go_irodsclient.Config.Obfuscation.{rewind, encode_byte, decode_byte}

-- The loop ends within its fuel, below the length of the wheel, after whole turns.
rewind_turns :
    (f i offset : ℕ)
    → i < offset + 77
    → offset ≤ f + i
    → (k : ℕ) × (rewind f i offset + offset ≡ i + 77 * k) × (rewind f i offset < 77)
unfolding rewind
rewind_turns zero i offset hi hf = (0, omega arith, omega arith)
rewind_turns (suc f) i offset hi hf = elim (Bool-cases (ltb i offset)) [
  | inl e ↦
      let (k, p, q) = rewind_turns f (i + 77) offset (ground arith) (ground arith) in
      (suc k, ground arith, ground arith)
  | inr e ↦ (0, ground arith, ground arith)
]

-- `Decode` goes back by what `Encode` went forward.
pub rewind-mod : (i offset : ℕ) → i < 77 → rewind offset ((i + offset) % 77) offset ≡ i
rewind-mod i offset h =
    let (k, p, q) = rewind_turns offset ((i + offset) % 77) offset (omega arith) (omega arith) in
    omega arith

encode_none : (offset c : ℕ) → wheel_index c ≡ none → encode_byte offset c ≡ c
unfolding encode_byte
encode_none offset c e = rw (e, encode_byte)

encode_some :
    (offset c i : ℕ)
    → wheel_index c ≡ some i
    → encode_byte offset c ≡ get_or wheel ((i + offset) % 77) 0
unfolding encode_byte
encode_some offset c i e = rw (e, encode_byte)

decode_none : (offset c : ℕ) → wheel_index c ≡ none → decode_byte offset c ≡ c
unfolding decode_byte
decode_none offset c e = rw (e, decode_byte)

decode_some :
    (offset c i : ℕ)
    → wheel_index c ≡ some i
    → decode_byte offset c ≡ get_or wheel (rewind offset i offset) 0
unfolding decode_byte
decode_some offset c i e = rw (e, decode_byte)

-- One byte, through both ways.
pub decode_byte-encode_byte : (offset c : ℕ) → decode_byte offset (encode_byte offset c) ≡ c
decode_byte-encode_byte offset c = elim (Option-cases (wheel_index c)) [
  | inl e ↦ rw (encode_none offset c e) (decode_none offset c e)
  | inr (i, e) ↦
      let (h, g) = wheel_index-some c i e in
      let j : ℕ = (i + offset) % 77 in
      rw (encode_some offset c i e, decode_some offset _ j (wheel_index-get j (omega arith)))
        (rw (rewind-mod i offset h) g)
]

-- No byte but NUL is encoded as NUL.
pub encode_byte_pos : (offset c : ℕ) → 0 < c → 0 < encode_byte offset c
encode_byte_pos offset c h = elim (Option-cases (wheel_index c)) [
  | inl e ↦ rw (encode_none offset c e) h
  | inr (i, e) ↦ rw (encode_some offset c i e) (wheel_pos ((i + offset) % 77) (omega arith))
]
