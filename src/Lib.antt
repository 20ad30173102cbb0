-- ===== src/Lib.antt =====
-- RDFCacheK2 keeps the triples of an RDF dataset in one k2-tree for each predicate, on disk and in
-- a cache in memory, and answers queries from it. This library models the parts of it that decide
-- what is stored and what stays in memory, and proves what they promise.
--
-- Prelude holds the names that the modules share: Boolean tests and lists over the native
-- numbers, single bits of a word (Prelude/Bits), maps as lists of entries in key order
-- (Prelude/Assoc), words of 8 to 64 bits as numbers, and `Result`, in which `undefined` stands for
-- behaviour that C++ leaves undefined and the other errors for exceptions.
--
-- Stream models utils/serialization_util.cpp. An output stream is its bytes and a put position, an
-- input stream the bytes that are left; `write_u16` to `read_u32_array` are the functions of the
-- file, big-endian. Stream/Laws has what they do at the end of a
-- stream, and Stream/Places what they do in the middle of one.
--
-- K2Tree models the file format of core/k2tree. K2Tree/Block is block_serialization.cpp: a tree of
-- blocks is written children first and rebuilt through a stack (`adjust_blocks`). K2Tree/Mixed is
-- the part of K2TreeMixed.cpp that counts, writes, reads and compares the nodes above the cut: a
-- node has its four children, or below the cut its tree of blocks, so the depth that the code
-- passes down is the index of the type. K2Tree/Mixed/Write and K2Tree/Mixed/Read are
-- `write_to_ostream` and `read_from_istream` with the functions they call, and
-- K2Tree/Mixed/Topology describes the bits between them. The loops are structural: over children,
-- over counts read from the stream, over the depth. The functions of the k2-tree library that
-- insert, delete and scan points are code of another repository and are not modelled.
--
-- Replacement models core/replacement. Replacement/Strategy is what `CacheReplacement` asks of its
-- template argument, a record of operations; Replacement/Lru and Replacement/Frequency are the two
-- strategies, each with the laws the cache relies on in its module Order. Replacement/Cache is
-- CacheReplacement.cpp: `hit_key` with its loop over the iterator (`evict`), `mark_using`,
-- `mark_ready` and `is_using`. The set is a list in the order of its comparator, so that `find` is a
-- search for the key; the calls of the data manager are recorded, the last one first. The loop is
-- structural over what the iterator has not reached. `size_t` sums wrap around; the costs of a
-- strategy are differences of numbers that do not overflow. The mutex and the messages on
-- `std::cerr` are left out.
--
-- NodeIds models core/nodeids. NodeIds/Sequence is NodesSequence.cpp, where an id is a position;
-- `std::lower_bound` is its documented result on an ascending range. NodeIds/NodesMap is
-- NodesMapImpl.cpp and NodesMapFactory.cpp, with both maps and the restoring of a log.
-- NodeIds/Manager is NodeIdsManagerImpl.cpp: the sequence, the map, the last id given, and the
-- writers of the log and of its counter as streams; its constructor is a function of the contents
-- of the four files, in which a file opened for output alone is emptied.
--
-- Sampling models core/util_algorithms/fisher_yates.cpp. What `std::rand` returns is a function of the
-- round; the loops count down the rounds that are left.
--
-- Memory models the segments of memory/MemorySegment.cpp and the search for one in MemoryManager.cpp:
-- addresses are numbers, and the map from addresses is a list with the highest address first.
--
-- PredicatesIndex/Metadata models the header of the index file: core/manager/PredicatesCacheMetadata.cpp
-- and `K2TreeConfig` of core/k2tree/K2TreeMixed.hpp. PredicatesIndex/Cache is
-- core/manager/PredicatesIndexCacheMD.cpp: the index file, the trees in memory, and the sets of new and
-- of changed predicates; PredicatesIndex/Cache/Sync writes and loads whole files. The loops are over the
-- predicates. The updates logger is a record of operations, as its interface is in the code; the
-- insertion of points, the sizes of trees and of types and the hash are a parameter. A tree is read
-- before its memory segment is looked at: K2Tree/Mixed/Required sums what the reader requires of the
-- segment, and if that is more than the segment has, the result is the error of the segment. So a file
-- that holds no tree gives the reader's own error even where the segment would be used up first. A stream
-- that a short read has made fail is not told from one at the end.
-- The locks are left out.
--
-- Updates models core/updating. Updates/Log is how the static `log` writes updates and how one is
-- read, with Updates/Log/Records for the bytes of an update and Updates/Log/Indexed for the map of
-- offsets; Updates/Offsets is the file of that map. Updates/Logger is UpdatesLoggerImpl with its three files and
-- its streams as fields: a file is the bytes it has or `none`, a stream that is open holds the
-- bytes of its file, the calls of the `DataMerger` are recorded, and an operation that throws gives
-- no state. A seek of a reader that a short read has made fail is not told from one at the end of
-- the file. Updates/Merge is `PredicateUpdate::merge_with` over any type of trees, whose insertion,
-- removal and scan are functions of the k2-tree library and so a parameter; Updates/Compaction is
-- `compact_logs`.
--
-- ExternalSort models algorithms/triple_external_sort.hpp. ExternalSort/Triples is `TripleValue` and
-- `FileData`; ExternalSort/Library is what the code uses of the standard library, `std::sort` and
-- `std::priority_queue`, with the laws relied on; ExternalSort/Merge is `merge_pass` and
-- ExternalSort/Passes is `merge_bottom_up` and the loop around it. A block is read by recursion on
-- the triples that are left in the file, which are none exactly when it is finished; the loop of a
-- pass has as many rounds as the files announce triples, and the loop around the passes as many as
-- there are files, and a loop that needed more would give the error `diverges`. Files are their bytes:
-- their names, their removal and the buffers of the streams are left out. ExternalSort/Parallel is
-- `parallel_sort`: how the threads of its pool are interleaved is a parameter, the pool is that of
-- Workers, and the error `diverges` stands for a caller that still waits for it. The tasks that were run
-- sort ranges that do not meet, so each is taken to sort at once; ExternalSort/Parallel/Tasks is what
-- they do in any order. ExternalSort/Split is `split_file` and `external_sort_triples`.
--
-- Workers models algorithms/ParallelWorker.hpp, the pool that `parallel_sort` uses. An action is what one
-- thread does between two points at which the others can tell a difference, such as a test under the
-- lock or a call of `notify_all`; a sequence of actions is an interleaving, and an action that its
-- thread cannot take is refused. Tasks are added before any worker is stopped. The tests at the head
-- of the loop of `run` are one action, since no task is added once a worker is stopped.
--
-- PathSearch models core/algorithms/search_paths.cpp: `find_n_paths` and its search, by recursion on
-- the edges that are still to be found. What the scanners of a tree give is a function of the
-- k2-tree library, and all trees are taken as loaded; the number of edges is at least one.
-- PathSearch/Directed is the order of paths in core/algorithms/DirectedPath.cpp.
--
-- The modules called Examples hold tests, and the theorems applied to concrete values.
-- Of the rest, the other files of core/manager, core/fic, core/builder,
-- the rest of core/util_algorithms, the rest of memory, query_engine and network are not modelled; scripts, benchmarks,
-- experiments, proto and the helpers of utils for files and hashing are glue around the program.
pub mod ExternalSort
pub mod K2Tree
pub mod Memory
pub mod NodeIds
pub mod PathSearch
pub mod PredicatesIndex
pub mod Prelude
pub mod Replacement
pub mod Sampling
pub mod Stream
pub mod Updates
pub mod Workers
