-- ===== src/Util/Scramble/Password.antt =====
-- Padding a password, and what a server reads out of an obfuscated one.
use go_irodsclient.Base.{
  ℕ, ◌-◌, ◌≤◌, ◌≡◌, ap, true, false, [], ◌∷◌, ◌++◌, Bytes, codes, arith, ltb, if◌then◌else◌, length,
  take, length-append, length-take, take_all,
}
use go_irodsclient.Util.Scramble.{
  get_password_padded, scramble_padding, scramble_v2, v2_key, obfuscate_new_password,
}
use go_irodsclient.Util.Scramble.Inverse.{unscramble, unscramble-scramble}

-- A password of fewer than 25 bytes is filled up to 40 with padding, one of 25 to 50 stays, and a longer
-- one is cut to 50.
abbrev pub padded_to : Bytes → Bytes
padded_to s = if ltb (length s) 25 then s ++ take (40 - length s) scramble_padding else take 50 s

pub get_password_padded-padded_to : (s : Bytes) → get_password_padded s ≡ padded_to s
unfolding get_password_padded
get_password_padded-padded_to s = ground (arith, take_all s 50)

padded_to_short : (s : Bytes) → length (padded_to s) ≤ 150
padded_to_short s = ground (
  arith,
  length-append s (take (40 - length s) scramble_padding),
  length-take (40 - length s) scramble_padding,
  length-take 50 s,
)

not-ltb : (a b : ℕ) → b ≤ a → ltb a b ≡ false
not-ltb a b h = ground arith

uncut : (s : Bytes) → length s ≤ 150 → (if ltb 150 (length s) then take 150 s else s) ≡ s
uncut s h = ap (λ b. if b then take 150 s else s) (not-ltb 150 (length s) h)

module _ (md5 : Bytes → Bytes) where
  -- Whatever the passwords, the signature and the random letter, a server that has the key of the old
  -- password and the signature reads the letter, ".ObfV2" and the new password: filled up to 40
  -- bytes with padding where it has fewer than 25, cut to 50 where it has more.
  pub unscramble-obfuscate_new_password :
      (random : ℕ) (new_password old_password signature : Bytes)
      → unscramble md5
          (obfuscate_new_password md5 random new_password old_password signature)
          (v2_key md5 old_password signature)
          []
          true
        ≡ (random ∷ codes ".ObfV2") ++ padded_to new_password
  unfolding obfuscate_new_password scramble_v2
  unscramble-obfuscate_new_password random new_password old_password signature =
      let key = v2_key md5 old_password signature in
      let padded = padded_to new_password in
      rw (get_password_padded-padded_to new_password, uncut padded (padded_to_short new_password))
        (unscramble-scramble md5 ((random ∷ codes ".ObfV2") ++ padded) key [] true).0
