-- ===== src/Lib.antt =====
-- go-irodsclient, the parts that carry its own logic. A session (irods/session/session.go) takes connections from
-- a pool (irods/session/pool.go); a connection (irods/connection/connection.go) sends and receives messages
-- (irods/message/message.go) over a socket (irods/util/io.go), after a negotiation of the transport
-- (irods/types/cs_negotiation.go). Passwords are read from and written to the file of the icommands
-- (config/password_obfuscation.go) and are scrambled for the server (irods/util/scramble.go); data on the
-- connections to resource servers is encrypted (irods/util/encryption.go). The file system (fs) keeps a registry
-- of its open file handles (fs/file_handle_map.go), locks files by path (fs/file_lock.go), and caches what it
-- learns of paths, users and groups (fs/cache.go), with an invalidation for every change (fs/fs_cache.go), between
-- its callers and the server (fs/fs.go). Paths are text that irods/util/irods_path.go cleans, joins and takes
-- apart. Large data objects are downloaded by several tasks at once, which can be resumed
-- (irods/fs/data_object_bulk.go, irods/fs/transfer_status.go, irods/util/tasks.go).
--
-- Base: names of the libraries, lists of bytes, texts, maps, and the wheel of 77 characters.
-- Types/Negotiation: irods/types/cs_negotiation.go. A request is the text that Go keeps.
-- Config/Obfuscation: config/password_obfuscation.go. `decode` and `encode` are Decode and Encode, with the user's
-- number and the time as arguments. `none` is a panic. The loop that makes an index non-negative has the offset as
-- fuel, which is enough since every round adds 77.
-- Util/Encryption: irods/util/encryption.go. The ciphers of Go's standard library are the record `Ciphers`.
-- Util/Scramble: irods/util/scramble.go. MD5 and the random letter are arguments.
-- Util/Path: irods/util/irods_path.go, with what it uses of Go's package path written out (`clean` is path.Clean).
-- `get_parent_irods_dirs` has fuel for the rounds of its loop; as much as there are names is enough on an absolute
-- path, and no fuel is on a relative one. GetRelativeIRODSPath is left out.
-- Message: irods/message/message.go. The lengths of a header are taken modulo 2 ^ 32, as uint32 does.
-- Connection: sending and receiving in irods/connection/connection.go and irods/util/io.go. A method is a function
-- of the connection in the monad `M`; the stream arrives in pieces of any length, some with io.EOF or another error,
-- or a read fails. encoding/xml is the record `HeaderCodec`. Deadlines are taken to be accepted by the socket;
-- callbacks and counters of bytes are left out.
-- Session/Pool: irods/session/pool.go. Connections are numbers, with what the pool reads of them in a store. The
-- mutex makes each method one step: `get`, `get_round` (one round of the loop of Get, which returns or waits),
-- `return_conn` (Return), `discard`, and in Session/Pool/Lifecycle `release`, `reap` (one tick of the cleaner),
-- `init` and the callbacks. Session/Pool/Steps has the calls of a program in sequence. Time and the answers of the
-- network are arguments of the calls, as is the identifier of a callback. Not modelled of the pool: the order of
-- the callbacks, which Go leaves open, and the goroutine's channel.
-- Session/Sharing: irods/session/session.go. `acquire_connection`, `return_connection`, `end_transaction` and
-- `discard_connection` are acquireConnection, returnConnection, endTransaction and DiscardConnection on the share
-- counts and the pool. Whether a socket failed, a commit and a rollback succeed, a failure to connect is permanent and
-- a connection supports parallel uploads are arguments.
-- Session/Calls: AcquireConnection and AcquireNewConnection of the same file, by one goroutine, with the mutex as
-- a flag; what the others do while the call waits is an argument. AcquireConnectionsMulti is left out.
-- Fs/HandleMap: fs/file_handle_map.go. Paths and identifiers are numbers, since they are only compared; the calls
-- of event handlers are recorded in the state. ListPathsInDir is left out.
-- Fs/FileLock: fs/file_lock.go. Any number of threads lock and unlock paths; a step of the relation `Reachable` is
-- what Lock or Unlock does under the manager's mutex (`lock`, `unlock`), or the file's own RWMutex taken or given
-- back. Threads are counted by what they do with an object. LockFilesForPrefix and UnlockFiles are left out.
-- Fs/Cache: fs/cache.go, fs/fs_cache.go, fs/fs_cache_update_event_handler_map.go, fs/cache_propagation.go. The
-- library go-cache is the record `GoCache` with its documented laws, and every operation takes the time at which
-- it runs. Fs/Cache/Paths has what is cached by path, Fs/Cache/Zones what is cached by zone, Fs/Cache/Invalidate
-- the methods of FileSystem; the calls of event handlers are recorded in the state. `seen` (Fs/Cache/Seen) is all
-- that the caches answer about a path. Paths are absolute, as the callers make them; on a relative one
-- getCacheTTLForPath would not end if there are settings, where the model finds no parents. The recursion of the
-- invalidations has fuel for its depth; one more than the number of cached entries is enough. A cached listing is
-- taken not to be nil. Left out: the global map of file systems and the goroutines that propagate events.
-- Fs/Files: fs/fs.go, the operations of the file system on top of its caches. The functions of irods/fs on a
-- connection are the record `Server`, whose state is arbitrary; what the server holds is a catalog of entries by
-- path (Fs/Files/Catalog), and `IsCatalog`, `IsEffective` (Fs/Files/Effects) and `Listing` (Fs/Files/Entries) say
-- what the protocol promises of the answers and of the changes that succeed. `Coherent` is that the caches agree
-- with a catalog, `Run` (Fs/Files/Steps) a sequence of calls of one client at times that do not go back, each
-- `Allowed`: a changing request that does not succeed has changed nothing, which the protocol does not promise.
-- Whether a connection is there is read from the state of the server; that no handle stays open until the timeout is
-- an argument of `remove_file`. Fs/Files/TableServer is a server for runs. Fs/Files/Renaming has RenameFileToFile with
-- the open handles of the source as an argument, Fs/Files/Destination has RenameFile and CopyFile. Left out: the
-- renaming and removal of directories, opening and creating files, searches, bulk transfers, metadata and access
-- control.
-- Requests: irods/fs/collection.go, irods/fs/data_object.go. A request is a function of the server's replies to
-- it; a query takes the list of the replies to its pages, which stands for as many requests as it needs. Rows are
-- taken to be parsed. Left out: the requests on file handles, DeleteCollection with its reports, metadata,
-- tickets, users and searches.
-- Transfer: irods/util/tasks.go, irods/fs/transfer_status.go, and DownloadDataObjectParallelResumable of
-- irods/fs/data_object_bulk.go. A step of `run` is one event of one task (`task_step`, `file_step`,
-- `status_step`): opening and seeking, one round of the copying loop, or an error, which says whether the socket
-- failed and was connected again. The data object and the local file are functions from offsets to bytes; a read
-- gives as many bytes as are asked for or left, and a short one is the end of the data, as ReadDataObject has it.
-- The goroutines run in any order. Left out: the text of the status file, the callbacks, the uploads, the
-- downloads without a status file.
--
-- Not modelled: connecting, TLS and authentication, the other requests of irods/fs and their types in
-- irods/message, configuration files and metrics: they are input and output, tables, or left for a later
-- extension.
pub mod Base
pub mod Types
pub mod Config
pub mod Util
pub mod Message
pub mod Connection
pub mod Session
pub mod Fs
pub mod Requests
pub mod Transfer
