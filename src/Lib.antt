-- ===== src/Lib.antt =====
-- Models and theorems for programs of the repository: the replicas of a replicated store
-- (sylan/p4/partA and sylan/p4/partB), a file system in memory (sylan/p1), a versioned one over
-- a content-addressed store (sylan/p2), and the lock server, the chunk server and the file system over
-- it of sylan/p3.
--
-- Parts and files.
--   Prelude: names that the modules share. Integers (int, int64) are ℤ over the native numbers;
--     an addition that can pass 64 bits wraps (`suc_int64`). Slices are lists, and an access by
--     `index` or `assign` panics out of range. `Result` is the outcome of Go code: a value, a
--     panic, or a goroutine that waits for ever.
--   Epaxos: the replica of sylan/p4/partB/replica/replica.go, with the messages of
--     sylan/p4/partB/pb/comm.proto. State is the package variables as a record; a map is a function
--     into Option, a message put into outChannels an entry of `out`, a started goroutine an entry of
--     `pending` (commit) or `woken` (the reply of a batch). Conflicts is findMaxConflict, Handlers
--     the handlers of peer messages, handleProposition and commit, Execute is executeSome with
--     execute, Dispatch is batching, Propose and one iteration of bigDispatcher, Init what main sets
--     up. The handlers run one at a time, as in the program, where only bigDispatcher calls them; a
--     commit is a step of its own. A message is what the shared instance held when it was put into
--     its channel. A log can grow to each slot that a message names: a length that is no int, or for which
--     memory is missing, is left aside. Counts of replies are unbounded: they cannot exceed the messages received.
--     tarjan.Connections and sort.Sort are arguments of executeSome.
--     System is a cluster of N replicas from their start: an iteration of a dispatcher, a commit or
--     the replies of a batch is one step, and a request on a channel of outChannels reaches the
--     bigchan of its replica late, in any order, more than once or never.
--   Dfs: the file system of sylan/p2/dfs/fs.go. Chunks is the content of a file in the store:
--     getNextChunkOff, the loop of goFlush and the loop of loadAllData over the blocks. SHA-1 and the
--     leveldb store are arguments. A uint64 is a native number, wrapped where it can pass 64 bits. The
--     loop of goFlush runs on fuel, which a round for each byte suffices for: a block is not empty.
--     Content is what Write does to the bytes of a file. State has the DNodes in a heap (a pointer is an
--     address, a nil pointer, map or slice is `none`), the package variables as a record, the clock as
--     the list of its readings, and flushMutex, on which Lock waits. Wire is importProtoNode,
--     exportProtoNode, SHA1, getNode and putNode over a record `Env` of leveldb, SHA-1 and protocol
--     buffers. Load is loadAllData and update, Ops and Handlers the handlers of DNode, each run to its
--     end, Save is traversalSave, Flusher, the head, getTimedVersion, getPathNode and Init up to the
--     mount. A Go map is an association list, whose order stands for that of a range;
--     the order in which an encoding goes through the map of a message is drawn anew for each encoding
--     (`orders`). Times are nanoseconds within the range of an int64. The loop of update
--     runs on as many rounds as there are addresses: a parent lies below its kids. traversalSave and
--     getTimedVersion take a bound on the depth of the tree and on the number of versions. A rank of the
--     nodes, lower for a kid than for its directory, stands for the depth.
--   Majority: the replica of sylan/p4/partA/replica/replica.go, with its handlers as functions of the
--     package variables. Sent counts commits among the messages sent, Once is about sequences of answers.
--   Locks: the lock server of sylan/p3/lock/main.go. A path is the list of its bytes, a lock the number of
--     its readers, whether it is held for writing and whether a writer waits for it. A call runs to
--     its end; where it would wait it is `blocked`. Entries is the loop over a path seen from one lock, Paths the paths
--     it goes through.
--   ChunkServer: the chunk server of sylan/p3/chunk/main.go over any store, and the calls of its client in
--     sylan/p3/dfs/chunkClient.go, which can be lost or come back late.
--   Memfs: the file system in memory of sylan/p1/dfs.go: its DNodes in a heap, and their operations as
--     commands of Prelude/Command. What it shares with sylan/p2/dfs/fs.go is taken from Dfs.
--   RemoteFs: the file system of sylan/p3/main.go. Its text is that of sylan/p2/dfs/fs.go but for the calls of
--     the store, so its operations are those of Dfs with the client of ChunkServer in the place of leveldb;
--     how a call fares is a function of the state of the server and the arguments.
--   Inspect: the inspector of a store, sylan/p2/protoget.go: its lookups and what it shows. Paths compares
--     its lookup of a path with that of Dfs.
--   Clients: the clients of sylan/p4/partB/client/client.go and sylan/p4/partA/client/client.go: their
--     scripts, the accesses and the keys of their blasts, and in Proposals the identities of part A. A
--     goroutine of a blast is the list of its accesses; the rounds of its loop are at most as many as
--     there are accesses, which is its fuel.
--
-- Not modelled: sockets, gRPC streams, flags, signals, printing and metrics, which are I/O; the generated
-- protocol buffers; the lock client sylan/p3/app.go; and the inspector sylan/p3/chunkget.go, whose text is that of
-- sylan/p2/protoget.go but for the calls of the store.
pub mod Prelude
pub mod Epaxos
pub mod ChunkServer
pub mod Clients
pub mod Dfs
pub mod Locks
pub mod Majority
pub mod Memfs
pub mod RemoteFs
pub mod Inspect
