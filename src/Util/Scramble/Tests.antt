-- ===== src/Util/Scramble/Tests.antt =====
-- Runs of scrambling, against the values of test/testcases/util_encoding_test.go where MD5 is not needed.
use go_irodsclient.Base.{◌≡◌, refl, [], ◌∷◌, ◌++◌, Bytes, codes, length, take, true}
use go_irodsclient.Util.Scramble.{scramble, v2_key, get_password_padded, obfuscate_new_password}
use go_irodsclient.Util.Scramble.Inverse.{unscramble, unscramble-scramble}
use go_irodsclient.Util.Scramble.Password.{padded_to, unscramble-obfuscate_new_password}

-- A stand-in for MD5.
abbrev toy_hash : Bytes → Bytes
toy_hash s = take 16 (s ++ codes "0123456789abcdef")

padded_runs :
    get_password_padded (codes "secret") ≡ codes "secret1gCBizHWbwIYyWLoysGzTe6SyzqFKMniZX"
unfolding get_password_padded
padded_runs = refl

scramble_runs : scramble toy_hash (codes "a b") (codes "k") (codes "pre") true ≡ codes "pre% -"
unfolding scramble
scramble_runs = refl

unscramble-scramble_example :
    (unscramble toy_hash (scramble toy_hash (codes "pass word") [] [] true) [] [] true
      ≡ codes "pass word")
    × (length (scramble toy_hash (codes "pass word") [] [] true) ≡ 9)
unscramble-scramble_example = unscramble-scramble toy_hash (codes "pass word") [] [] true

unscramble-obfuscate_new_password_example :
    unscramble toy_hash
      (obfuscate_new_password toy_hash b';' (codes "newpass") (codes "old") (codes "sig"))
      (v2_key toy_hash (codes "old") (codes "sig"))
      []
      true
    ≡ (b';' ∷ codes ".ObfV2") ++ padded_to (codes "newpass")
unscramble-obfuscate_new_password_example =
    unscramble-obfuscate_new_password toy_hash b';' (codes "newpass") (codes "old") (codes "sig")
