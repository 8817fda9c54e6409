-- ===== src/Lib.antt =====
-- A verification library for S3QL, a file system that stores its data in online storage.
--
-- The program. src/s3ql/fs.py answers the requests of the kernel: it keeps directories, names, inodes
-- and attributes in tables of an SQLite database, and asks src/s3ql/block_cache.py for the blocks of a
-- file. The block cache keeps the blocks in local files, uploads those that are dirty as objects of a
-- backend, shares one object between blocks with the same hash, counts the references to each object,
-- and removes objects that none refers to. Locks on blocks and on objects are those of
-- src/s3ql/multi_lock.py.
--
-- The files.
-- - Prelude: numbers, lists, tables (Sql: a table is a list of rows, a query a count or a first row),
--   and Effect: a method is a function from the state to an outcome, returned or raised, and a state.
-- - MultiLock (src/s3ql/multi_lock.py): the locked keys.
-- - BlockCache (src/s3ql/block_cache.py): Entry is CacheEntry, State the cache with the tables `objects`
--   and `inode_blocks`, Upload and Flush are _deref_obj, _do_upload and upload_if_dirty, Access and
--   Expire are get, _get_entry, expire, remove, flush and drop. Refs has the theorems on reference
--   counts, Stored those on what the backend holds.
-- - Fs (src/s3ql/fs.py): State has the tables, Namespace the operations that make an entry, Removal
--   those that remove or rename one, Attr those on attributes, Data read and write, and Size setattr,
--   open and create. Data/Bytes, Write, Chunks, Read and RoundTrip have the theorems on the bytes of a
--   file, which is in blocks of max_obj_size; XattrCount that on the references of names across setxattr.
-- - InodeCache (src/s3ql/inode_cache.py): rows of the table `inodes` in memory; Coherence and Flush have
--   what a client sees of them, Slots that each is in a slot.
-- - Metadata (src/s3ql/metadata.py): cycle_metadata, with its theorem in Metadata/Cycle.
-- - Backend (src/s3ql/backends): Retry is the wrapper `retry` of common.py, Escape the escape codes
--   of local.py.
-- - Fsck (src/s3ql/fsck.py, with get_path and inode_for_path of src/s3ql/common.py): State has the tables,
--   the objects of the backend and the cache directory; Paths the names, paths and resolve_free; Entries,
--   Attributes, Inodes, Objects, Cache, Loops, Temp and Unix the checks, and Check their order. The others
--   have theorems: ObjectCounts, NameCounts, Agreement, Sizes, Dangling, Cleaned, Committed, Free (with
--   Digits) and Crash on one check each, Healthy (with Idle, Untouched, Consistent, Reached and Quiet) on all of them, Rows
--   and PathFrame what these share.
-- - Comprenc (src/s3ql/backends/comprenc.py, with checksum_basic_mapping of src/s3ql/backends/common.py):
--   Meta is the metadata of an object and _verify_meta, Objects lookup, open_read, open_write and
--   _copy_or_rename. The cipher is a key stream, and it, the hash functions and freeze_basic_mapping are
--   parameters. Signed and Authentic have the theorems. Packets is EncryptFilter and DecryptFilter, for a
--   stream below that gets any number of bytes up to those asked for; its Frames, Encrypted, Decrypted,
--   Room, Rounds, Reads, RoundTrip, Authentic, Accepted and SignedReads have the theorems.
--   Filters is CompressFilter and DecompressFilter, with theorems in its Decompressed and RoundTrip.
-- - ExpireBackups (contrib/expire_backups.py): process_backups, a step for each cycle, with its theorem in
--   ExpireBackups/Kept.
--
-- Concurrency. At each await that may wait, the model calls `other`, a parameter, which may change the
-- whole state: a theorem holds for all that other tasks do, as far as its hypotheses say. Worker
-- threads take what is queued in such a step.
--
-- Loops that the program bounds by nothing (waiting for a lock, for room in a queue, for uploads) take
-- the parameter `patience` as fuel, and raise `cancelled` when it is used up, as a task of trio that is
-- cancelled while it waits. Loops over a file have a round for each byte and one more. `retry` has a
-- round for each fiftieth of a second of its timeout and two more, which is enough since each round
-- adds one to the time waited at least.
--
-- In Fsck a query gives the rows that are there when its loop begins, and where it joins a table that the
-- loop changes, the row is joined when the loop comes to it. get_path takes 255 steps, as its maxdepth
-- says. resolve_free tries one name more than there are entries, so that not all of them can be taken;
-- check_ext_attributes_name one more than there are attributes. check_loops has a round for each
-- directory and one more, and delete_tree calls itself as deep as there are directories, which is
-- deeper than any tree without a loop. The primary key of ext_attributes is not looked at when a row
-- is renamed.
--
-- A read of DecryptFilter has two rounds for each byte that is left of the object and one more, and readall
-- one round more than the data has bytes: a round takes a byte of the object at least, or four bytes of
-- what was read, and a read that does not end the data gives a byte.
--
-- Not modelled: the file descriptors of the host, threads, logging, SQLite, the requests to the
-- online services, the compression libraries, the command line tools.
pub mod Backend
pub mod BlockCache
pub mod Comprenc
pub mod ExpireBackups
pub mod Fs
pub mod Fsck
pub mod InodeCache
pub mod Metadata
pub mod MultiLock
pub mod Prelude
