-- ===== src/Session/Pool/Steps.antt =====
-- irods/session/pool.go: the calls that a program makes on a pool, one after the other, each with the time
-- and with what the network answers. The mutex makes every sequence of calls such a list.
use go_irodsclient.Base.{ℕ, Bool, List, [], ◌∷◌}
use go_irodsclient.Session.Pool.{Pool, Dial, get, return_conn, discard}
use go_irodsclient.Session.Pool.Lifecycle.{release, reap, add_usage_callback, remove_usage_callback}

pub data Call : Type 0 where
  gets : Bool → Bool → Dial → ℕ → Call
  gives_back : ℕ → ℕ → Call
  discards : ℕ → Call
  releases : Call
  ticks : ℕ → Call
  adds : ℕ → Call
  removes : ℕ → Call

unfoldable pub step : Call → Pool → Pool
unfolding get return_conn discard release reap add_usage_callback remove_usage_callback
step (gets new no_connect dial now) p = (get new no_connect dial now p).0
step (gives_back c now) p = (return_conn c now p).0
step (discards c) p = discard c p
step releases p = release p
step (ticks now) p = reap now p.idle p
step (adds id) p = add_usage_callback id p
step (removes id) p = remove_usage_callback id p

unfoldable pub run : List Call → Pool → Pool
unfolding step
run [] p = p
run (call ∷ calls) p = run calls (step call p)
