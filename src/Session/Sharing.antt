-- ===== src/Session/Sharing.antt =====
-- irods/session/session.go: how callers share the connections of the pool, and what becomes of a connection
-- that its last caller gives back. The map of share counts is an association list in the order of its
-- iteration; what the connection and the server answer are arguments.
pub mod Counts
pub mod Acquire
pub mod Return
mod Tests
use go_irodsclient.Base.{
  ℕ, ◌+◌, ◌-◌, Bool, true, false, ◌||◌, List, [], ◌∷◌, Option, none, some, ltb, ◌==◌, if◌then◌else◌,
}
use go_irodsclient.Base.Maps.{lookup, insert, erase}
use go_irodsclient.Session.Pool.{
  Pool, Dial, Got, conn, full, failed, get, disconnect, is_connected, return_conn, discard,
  count_failure,
}

-- lastConnectionError with its time; a permanent failure stays.
pub record Failure : Type 0 where
  pub permanent : Bool
  pub time : ℕ

-- What the other side decides: whether a failure to connect is permanent (IsPermanantFailure), and whether the
-- connection supports parallel uploads (SupportParallelUpload).
pub record Peer : Type 0 where
  pub permanent_failure : Bool
  pub parallel : Bool

-- The fields of IRODSSession that these operations use.
pub record Session : Type 0 where
  pub pool : Pool
  pub shared_connections : List (ℕ × ℕ)
  pub last_connection_error : Option Failure
  pub support_parallel_upload : Bool
  pub support_parallel_upload_set : Bool
  pub start_new_transaction : Bool
  pub commit_fail : Bool
  pub poormans_rollback_fail : Bool

-- "put to share"
abbrev pub one_more : Option ℕ → ℕ
one_more none = 1
one_more (some shares) = shares + 1

unfoldable pub put_to_share : ℕ → List (ℕ × ℕ) → List (ℕ × ℕ)
put_to_share c shared = insert c (one_more (lookup c shared)) shared

-- The loop that finds "a connection from shared connection list that has minimum share count".
unfoldable pub find_min_share : ℕ → Option ℕ → List (ℕ × ℕ) → ℕ × Option ℕ
find_min_share min_share min_conn [] = (min_share, min_conn)
find_min_share min_share min_conn ((c, share) ∷ rest) =
    let better = (min_share == 0) || ltb share min_share in
    let n = if better then share else min_share in
    let found = if better then some c else min_conn in
    let more = find_min_share n found rest in if n == 1 then (n, found) else more

-- The end of acquireConnection, behind a full pool; `none` is the error.
abbrev pub share_found : ℕ × Option ℕ → List (ℕ × ℕ) → Option (List (ℕ × ℕ) × ℕ)
share_found (n, none) shared = none
share_found (n, some c) shared = some (insert c (n + 1) shared, c)

unfoldable pub share_in_use : List (ℕ × ℕ) → Option (List (ℕ × ℕ) × ℕ)
unfolding find_min_share
share_in_use shared = share_found (find_min_share 0 none shared) shared

-- What acquireConnection answers: a connection, a ConnectionPoolFullError, or another error.
pub data Acquired : Type 0 where
  acquired : ℕ → Acquired
  pool_full : Acquired
  error : Acquired

abbrev pub share_or_fail : Option (List (ℕ × ℕ) × ℕ) → Session → Session × Acquired
share_or_fail none s =
    (record s { pool = record (s.pool) { metrics = count_failure s.pool.metrics } }, error)
share_or_fail (some (shared, c)) s = (record s { shared_connections = shared }, acquired c)

abbrev pub share_it : ℕ → Session → Session
share_it c s = record s { shared_connections = put_to_share c s.shared_connections }

-- "check parallel upload"
abbrev pub check_parallel : Peer → ℕ → Session → Session
check_parallel peer c s =
    if s.support_parallel_upload_set
    then s
    else if is_connected s.pool c
    then record s { support_parallel_upload = peer.parallel; support_parallel_upload_set = true }
    else s

abbrev pub after_get : Bool → Peer → ℕ → Pool × Got → Session → Session × Acquired
after_get allow_shared peer now (p, conn c _) s =
    (check_parallel peer c (share_it c (record s { pool = p })), acquired c)
after_get allow_shared peer now (p, full) s =
    let t = record s { pool = p } in
    if allow_shared then share_or_fail (share_in_use s.shared_connections) t else (t, pool_full)
after_get allow_shared peer now (p, failed) s = (
  record s {
    pool = p;
    last_connection_error = some (record { permanent = peer.permanent_failure; time = now });
  },
  error,
)

-- acquireConnection, whose callers all pass `wait` as false. The session's metrics are those of the pool, and all
-- of a call happens at one time.
unfoldable pub acquire_connection :
    Bool → Bool → Bool → Dial → Peer → ℕ → Session → Session × Acquired
unfolding get put_to_share share_in_use
acquire_connection new allow_shared no_connect dial peer now s =
    after_get allow_shared peer now (get new no_connect dial now s.pool) s

-- The share count of a connection that is given back: unknown, still shared, or no share.
pub data Share : Type 0 where
  unknown : Share
  still : List (ℕ × ℕ) → Share
  last : List (ℕ × ℕ) → Share

abbrev pub one_less : ℕ → Option ℕ → List (ℕ × ℕ) → Share
one_less c none shared = unknown
one_less c (some share) shared =
    if share - 1 == 0 then last (erase c shared) else still (insert c (share - 1) shared)

unfoldable pub give_back : ℕ → List (ℕ × ℕ) → Share
give_back c shared = one_less c (lookup c shared) shared

-- endTransaction, for whether a commit and a rollback succeed: the session and whether it succeeds.
abbrev pub roll_back : Bool → Session → Session × Bool
roll_back rollback_ok s =
    if s.poormans_rollback_fail
    then (s, false)
    else if rollback_ok
    then (s, true)
    else (record s { poormans_rollback_fail = true }, false)

unfoldable pub end_transaction : Bool → Bool → Session → Session × Bool
end_transaction commit_ok rollback_ok s =
    if s.start_new_transaction
    then (if s.commit_fail
        then roll_back rollback_ok s
        else if commit_ok
        then (s, true)
        else roll_back rollback_ok (record s { commit_fail = true }))
    else (s, true)

-- The connection that is given back: whether its socket failed, and whether it has a transaction. That mark
-- is on the connection, where it is cleared when the transaction ends; the session does not read it again.
pub record Given : Type 0 where
  pub conn : ℕ
  pub socket_failed : Bool
  pub transaction_dirty : Bool

abbrev pub to_pool : ℕ → ℕ → Session → Session × Bool
to_pool c now s = let (p, ok) = return_conn c now s.pool in (record s { pool = p }, ok)

abbrev pub to_waste : ℕ → Session → Session × Bool
to_waste c s = (record s { pool = discard c s.pool }, true)

abbrev pub end_and_return : ℕ → ℕ → Session × Bool → Session × Bool
end_and_return c now (s, true) = to_pool c now s
end_and_return c now (s, false) = to_waste c s

abbrev pub return_last : Given → Bool → Bool → ℕ → Session → Session × Bool
return_last g commit_ok rollback_ok now s =
    if g.socket_failed
    then to_waste g.conn s
    else if g.transaction_dirty
    then end_and_return g.conn now (end_transaction commit_ok rollback_ok s)
    else to_pool g.conn now s

abbrev pub close_unknown : ℕ → Session → Session
close_unknown c s = record s {
  pool = if is_connected s.pool c then disconnect c s.pool else s.pool;
}

abbrev pub return_shared : Share → Given → Bool → Bool → ℕ → Session → Session × Bool
return_shared unknown g commit_ok rollback_ok now s = (close_unknown g.conn s, true)
return_shared (still shared) g commit_ok rollback_ok now s =
    (record s { shared_connections = shared }, true)
return_shared (last shared) g commit_ok rollback_ok now s =
    return_last g commit_ok rollback_ok now (record s { shared_connections = shared })

-- returnConnection; the result says whether it returns nil.
unfoldable pub return_connection : Given → Bool → Bool → ℕ → Session → Session × Bool
unfolding give_back end_transaction return_conn discard
return_connection g commit_ok rollback_ok now s =
    return_shared (give_back g.conn s.shared_connections) g commit_ok rollback_ok now s

-- DiscardConnection
abbrev pub discard_shared : Share → ℕ → Session → Session
discard_shared unknown c s = close_unknown c s
discard_shared (still shared) c s = record s { shared_connections = shared }
discard_shared (last shared) c s = record s { shared_connections = shared; pool = discard c s.pool }

unfoldable pub discard_connection : ℕ → Session → Session
unfolding give_back discard
discard_connection c s = discard_shared (give_back c s.shared_connections) c s
