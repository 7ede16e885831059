-- ===== src/Config/Obfuscation/Tests.antt =====
-- Runs of the obfuscation.
use go_irodsclient.Base.{
  ℕ, ◌+◌, ◌-◌, ◌%◌, ◌≡◌, ◌≤◌, ◌<◌, ◌↔◌, ◌⊎◌, refl, some, none, length, codes, get_elem?,
}
use go_irodsclient.Config.Obfuscation.{decode, encode}
use go_irodsclient.Config.Obfuscation.RoundTrip.{before_nul, decode-encode}
use go_irodsclient.Config.Obfuscation.Format.{decode-none}

-- The password of the file ".eIUQa" behind its frame, for user 1000.
decode_runs : decode 1000 (encode 1000 1714000000 (codes "rods pass")) ≡ some (codes "rods pass")
unfolding decode encode
decode_runs = refl

decode_short : decode 1000 (codes ".abc") ≡ none
unfolding decode
decode_short = refl

decode-encode_example :
    decode 501 (encode 501 7 (codes "Secret 1")) ≡ some (before_nul (codes "Secret 1"))
decode-encode_example = decode-encode 501 7 (codes "Secret 1")

decode-none_example : (decode 501 (codes ".abcdeZ") ≡ none) ↔ (
    (length (codes ".abcdeZ") < 7)
    ⊎ ((c : ℕ) × (get_elem? (codes ".abcdeZ") 6 ≡ some c) × (16 ≤ (c + 256 - b'e') % 256)))
decode-none_example = decode-none 501 (codes ".abcdeZ")
