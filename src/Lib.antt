-- ===== src/Lib.antt =====
-- A model of DysonFS, the file and storage service, and the theorems about it.
--
-- Parts and files. Paths are from the repository's root.
--   Base      tests, lists, strings, integers and decimal numbers that the parts share.
--   Lock      internal/service/lock.go: the rows of file locks and the six operations on them.
--             Lock/Wopi is HandleLock of internal/service/wopi.go and Lock/Webdav the lock system of
--             internal/handler/webdav_lock.go; both call the operations of Lock. Lock/Spec and
--             Lock/Wopi/Register hold the abstract views: a map from a file to a token and a deadline,
--             and the register of the WOPI protocol.
--   S3        internal/s3server: byte ranges of object.go, multipart uploads of server.go and
--             object.go, and the authentication of requests of auth.go (S3/Signing).
--   Media     internal/media: the memory cache and the disk cache of cache.go, and the parameters of a
--             transform of params.go.
--   Access    internal/service/service.go: who uses a pool and who reads a file (poolVisibleTo,
--             CanAccessPool, CanUsePool, ValidatePoolUsage, CanAccessFile).
--   Quota     internal/service/service.go: the quota of an account, the usage of files and the
--             checks before an upload. Quota/Service calls the workspace service, a record of
--             functions.
--   Modules   internal/module: the modules that a configuration selects, their order (resolve.go; the
--             order in Modules/Order) and the registry of ports (ports.go).
--   Tasks     internal/service/service.go and transfer.go: the rows of upload tasks and chunks, the
--             claims of an upload, and the bytes of a chunk in the staged file. Tasks/UploadName is
--             internal/service/upload_name.go.
--   Tree      internal/service/service.go: the tree of files, its descendants query, moves, deletion,
--             the recycle bin, and the purge of files and their objects.
--   Core      internal/core/registry.go: the kinds of files that are analyzed, and the makers of
--             derivatives.
--   Worker    internal/worker/worker.go: the queues of reanalysis and of rehashing, the migrations of
--             pools with their tasks, the end of an upload, which calls Core and Tasks, and the file
--             actions, which call Tree.
--   Patch     internal/service/patch.go: contents written in place. It calls GetLock of Lock and uses the
--             pools and the backends of Worker/Migration.
--   FailureLog  internal/service/failure_log.go: the newest server failures and the counts of all.
-- The functions have the names of the source in snake case; each file says what its types stand for.
--
-- State. A table is the list of its rows, and an operation takes the tables it reads and returns the
-- ones it writes. Soft-deleted rows are not in the list, except in Tree,
-- whose rows say whether they are deleted; the ids of the rows there are not blank. A handler runs at one instant, a
-- number of seconds, and as one step; interleavings of handlers are lists of calls. A call of the
-- database succeeds, a missing row is a value, and a transaction that returns an error is rolled
-- back. Strings are lists of code points; ToLower and ToUpper act on ASCII letters.
--
-- Parameters: the keys drawn for new rows, uuid.Parse, the resolution of a WebDAV path, MD5, HMAC and
-- SHA-256, url.ParseQuery, time.Parse, the header lookup of net/http, the
-- object backend of S3, the workspace service, the account service, the shared usage service, what the
-- image, audio and video tools answer to the worker, the patches of binarydist, and what a storage
-- backend reads, writes and deletes (Backends of Worker/Migration, the interface of
-- internal/storage/storage.go): the theorems hold whatever it answers.
--
-- Numbers are natural numbers with the subtraction of the source written out; ℤ is used where the
-- source goes below zero. The product of a chunk's index and size wraps to 64 bits. A floating point
-- cost multiplier is a fraction, without rounding errors. Iteration over a Go map is the order of a
-- list.
--
-- Fuel: the eviction of the memory cache has one round more than there are entries, the cascade of
-- module selection one more than there are selected modules, and the query of descendants one more
-- than there are rows; each round removes an entry or a module, or finds a row. The ancestors of a
-- file have one step more than there are files: a chain of parents without a cycle visits a file once.
-- The ordering of modules has one round more than there are selected modules, each of which orders
-- one; a migration one more than there are files, each of which moves one; and the loop over
-- migrations one more than there are tasks, each of which finishes one.
--
-- Not modelled: the creation of files and of their objects, the object cache of media
-- and its rendering, the handlers' decoding of requests, gRPC,
-- the protocols of storage backends, the making of previews, events, and the front end.
pub mod Base
pub mod Lock
pub mod S3
pub mod Media
pub mod Access
pub mod Quota
pub mod Modules
pub mod Tasks
pub mod Tree
pub mod Core
pub mod Worker
pub mod Patch
pub mod FailureLog
