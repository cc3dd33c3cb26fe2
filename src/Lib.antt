-- ===== src/Lib.antt =====
-- WaveDB: the storage engine's core, modelled from the C sources under src/.
--
-- WaveDB keeps key-value pairs in a trie of B+ trees with multi-version concurrency control: a
-- write gets a transaction identifier and stands on top of its key's version chain, a reader sees
-- the newest version at or below its own identifier, and the garbage collector frees versions below
-- the oldest active transaction. The parts below are modelled, each in a file and the folder of its
-- name:
--
-- - TransactionId: src/Workers/transaction_id.c and .h, with src/Util/endian.h in Base/Bytes. The
--   record is transaction_id_t; compare, is_sentinel, shard_index, serialize and deserialize are the
--   functions of these names. Generator holds the three static variables; get_next takes the reading
--   of the wall clock as an argument.
-- - VersionChain: version_entry_create, _find_visible, _add and _gc of src/HBTrie/bnode.c. A chain is
--   the list of its versions, newest first; value `none` is NULL.
-- - LeafEntry: what hbtrie_find, hbtrie_insert, hbtrie_delete and hbtrie_gc of src/HBTrie/hbtrie.c do
--   at the leaf entry of a key. The answers of the memory pool are Boolean arguments.
-- - Mvcc: src/HBTrie/mvcc.c. TxManager holds the 64 shards, the global minimum and the last committed
--   identifier. Mvcc/Calls has sequences of calls.
-- - Chunk: src/HBTrie/chunk.c, fixed-size pieces of keys and their comparisons.
-- - BsArray: src/HBTrie/bs_array.c, the sorted entries of a node; BsArray/Entry has the keys of
--   entries, from src/HBTrie/bnode.c.
-- - Bnode: the B+ tree inside one node of the trie, from src/HBTrie/bnode.c and src/HBTrie/hbtrie.c. A
--   bnode of level l + 1 is a list of entries, whose payloads are bnodes of level l. bnode_search, _find,
--   _insert, _split and the others are the functions of these names; settle and grow are parts of
--   btree_split_after_insert, raise is a round of btree_propagate_split, insert_below the insertion
--   with its way back along the path. Order, Nodes and Spans have the lemmas on one node, Trees the
--   invariant, Descent the lookup, Splits to Insertion the insertion, Amend and Update a write to an
--   entry, Lost what a split can lose.
-- - HbTrie: the trie of such nodes, from src/HBTrie/hbtrie.c. A path is the chunks of its identifiers in
--   a row; a node of depth d is what d chunks can reach, so that the depth is the fuel, and any d that is
--   not less than the number of chunks is enough. write and rewrite are the loops of hbtrie_insert and
--   hbtrie_delete down the path, put the choice between a new entry and the one that is there; a Slot
--   is the union and trie_child of an entry. Admission has the paths whose chunks are not below the
--   first separators, Slots, Writes and Deletes the laws, Invariant and Runs series of calls.
-- - StaleRegion: src/Storage/stale_region.c, the free ranges of the page file.
--   StaleRegion/Codec has stale_region_serialize and _deserialize, over Base/LittleEndian.
-- - PageFile: src/Storage/page_file.c, the superblocks and the allocation of blocks. In PageFile/Superblocks superblock_with is
--   serialize_superblock, candidate and read_loop are the loop of page_file_read_superblock, put_slot
--   is the write at the end of page_file_write_superblock; XXH32 is a parameter. PageFile/Atomic has
--   the invariant, PageFile/Writing and PageFile/Apart the two places for stale regions, PageFile/Runs
--   series of calls.
-- - EvictionQueue: src/Database/eviction_queue.c, the ring buffer between the page file and the cache.
-- - Identifier: src/HBTrie/identifier.c and .h, keys and values cut into chunks.
-- - Buffer: src/Buffer/buffer.c, byte buffers as lists.
-- - RefCounter: src/RefCounter/refcounter.c, with the yields that hand a reference over.
-- - Wal: a log file of src/Database/wal.c. Entry, header and encode are what wal_write and
--   thread_wal_write put in front of a payload; read is wal_read. Wal/Crc is src/Database/crc32.h;
--   Wal/Recovery has read_wal_file of src/Database/wal_manager.c, where Cipher stands for OpenSSL;
--   Wal/Payload has the encoders of src/Database/database.c and the decoders of the WAL manager.
-- - ThreadWal: thread_wal_t of src/Database/wal_manager.c, the buffer of a thread in front of its log
--   file. flush, rotate and write are thread_wal_flush_buffer_locked, thread_wal_rotate and
--   thread_wal_write, whose branches have names of their own (make_room, store, write_direct, put,
--   trigger); ThreadWal/Lifecycle has create_thread_wal, the timer, the flush of all logs and
--   thread_wal_seal. compact is what compact_wal_files does to a log: it unlinks the files that the
--   manifest calls sealed. The state, in ThreadWal/State, holds the bytes of the last file, of the
--   closed ones and of those that are unlinked. ThreadWal/Files says where the entries lie,
--   ThreadWal/Runs sequences of calls and compactions, ThreadWal/Crash what recovery reads behind
--   them.
--
-- The transaction manager asks TransactionId for identifiers and hands the oldest active one to the
-- collector, which passes it to LeafEntry.gc and so to VersionChain.gc. Entries of a BsArray are
-- compared by Chunk. ThreadWal stores entries as Wal encodes them. Examples has runs at concrete
-- inputs. Base has the shared names, tests and lemmas.
--
-- Numbers are natural numbers; where the code keeps 64-bit words the wrap-around is written out,
-- except for sizes of files and offsets in them. A pointer that may be NULL is an Option. The
-- binary search runs on fuel, the number of entries, which is enough since each round shortens the
-- interval; the loop of read_wal_file on the number of bytes, of which each round takes 33 or more.
-- Every other loop is a structural recursion over a list or a count. A compare-and-swap loop makes
-- one round, since one call is one step.
--
-- Not modelled: failed allocations of nodes of the trie and paths of more than MAX_BTREE_HEIGHT
-- bnodes, interleavings inside a call (locks, the seqlock, atomics), reference counts of values, the
-- memory pool, logging, the dirty marks of nodes, lazy loading and cursors of the trie, the blocks
-- of nodes in the page file, the opening of an existing one, the manifest of the write-ahead log, the
-- file that a compaction writes and the replay, the caches, workers, timers, the GraphQL, graph and
-- vector layers, and the bindings.
pub mod Base
pub mod TransactionId
pub mod VersionChain
pub mod LeafEntry
pub mod Mvcc
pub mod Chunk
pub mod Identifier
pub mod BsArray
pub mod StaleRegion
pub mod EvictionQueue
pub mod RefCounter
pub mod Wal
pub mod ThreadWal
pub mod PageFile
pub mod Bnode
pub mod Buffer
pub mod HbTrie
pub mod Examples
