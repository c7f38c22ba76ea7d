-- ===== src/Lib.antt =====
-- hcache: a distributed cache of keys and of sorted sets, served over HTTP. This library models its
-- server in Rust (rust/src), built with the feature `memory`, and its client (client/src), and
-- proves what makes them correct.
--
-- The program. A cluster has some nodes, each with a number. A request reaches any node
-- (`hyper_handler` in rust/src/hcache.rs), which reads the path and calls a handler. The handler
-- finds the node that owns the key (`get_shard` in rust/src/storage.rs), and does the work on its
-- own `Storage`, or calls the owner over a connection of its pool (the `*_remote` functions of
-- rust/src/storage.rs, served by `CachePeerServer` of rust/src/cluster.rs). A `Storage` holds the
-- keys and the sorted sets in memory, and writes them to two databases, from which it is filled
-- when the server starts.
--
-- Which file models what:
--   Base, Std      shared names, and what is used of the standard library: `BTreeMap`, `HashSet`,
--                  `splitn`, `to_le_bytes`. A collection whose order of iteration is not specified is
--                  walked by a parameter (Std/Walk).
--   External       the packages, as records of operations and of documented laws: lockfree_cuckoohash,
--                  rocksdb, the hasher, serde_json, the parser of URIs.
--   Dto            rust/src/dto.rs.
--   ZSet           the struct `ZSet` of rust/src/storage.rs, and the parts of `zadd_memory`, `zrange`,
--                  `zrmv` that work on one set; ZSet/Race has their steps, where requests work on one
--                  set at once.
--   Pool           `PeerClientQueue` and `PeerClientPool` of rust/src/storage.rs.
--   Storage        `Storage` of rust/src/storage.rs: one function for each operation, by its name.
--                  Storage/Durable is about its databases, with the flushes of `main` and crashes;
--                  Storage/Race has the writes of two `insert_kv` at once.
--   Shard          `hash_key`, `get_shard` of rust/src/storage.rs.
--   Peer           `CachePeerServer` of rust/src/cluster.rs.
--   Cluster        the `*_remote` functions; `World` holds the nodes, and `Net` says what becomes of the
--                  messages.
--   Http, Handlers the `handle_*` functions of rust/src/hcache.rs. The modules below Handlers follow a
--                  request to the owner of its key and back, also where a call fails.
--   Router         `hyper_handler` of rust/src/hcache.rs.
--   Servers        the loops that accept connections: those of rust/src/hcache.rs, glommio_hyper.rs,
--                  monoio_hyper.rs and monoio_parser.rs, and `cluster_server` of rust/src/cluster.rs.
--   Init           `try_load_peers`, `handle_updatecluster`, `update_peers`; Init/Loader is `handle_init`
--                  with its threads, as a step relation.
--   HttpParser     rust/src/http_parser.rs.
--   Client         the calls of client/src/client.rs; Client/Spec is what its users see, one cache that
--                  runs one command after the other, and Client/Session the server behind it.
--                  Client/Check and Client/CheckSets are checks that `main` makes before its benchmarks,
--                  and Client/Bench is those.
--                  Client/Flood is the loop of client/src/batch-forever.rs.
--   Gendata        rust/src/gendata.rs.
--   Tests          packages and a cluster of two nodes to run the definitions on.
--
-- The model. A string is the list of its bytes (`Text`), a `u32` a number below 2 ^ 32, and
-- wrap-around is written out. A panic is a value of `Run`: it ends the task that it happens in. An
-- operation of a node and a call of a peer are each one step, but for the work on the indexes of
-- one sorted set and `insert_kv`, which are also modelled step by step, and for the threads of
-- /init beside the requests. Elsewhere requests run one after the other, although the runtimes run
-- them on many threads: what they do to each other is stated only for the indexes of one sorted set
-- and for two `insert_kv` of one key. The results of writes to the databases are dropped, as the
-- code does, and a theorem about the databases says if it needs the writes to succeed. A cluster is
-- formed when its nodes agree on its size, know their own numbers, and have for each node a full
-- queue of connections to it.
--
-- Fuel. `feed` of the parser and `conn_dispatcher` are on fuel; the theorems about them hold for
-- every amount. The digits of a number are computed on fuel, one more than the number. The loop
-- that connects to a peer recurses on the attempts, and the theorem about it says how many must
-- succeed.
--
-- Not modelled: the sockets and the runtimes themselves, the adapters of streams and the server of
-- hyper that `tokio_run` starts, which are calls of packages; the variant of `Storage` without the
-- feature `memory`, which does not compile; the servers in C++ (cpp) and the deployment (ros).
pub mod Base
pub mod Std
pub mod External
pub mod Dto
pub mod ZSet
pub mod Pool
pub mod Storage
pub mod Shard
pub mod Peer
pub mod Client
pub mod Gendata
pub mod Cluster
pub mod Http
pub mod Handlers
pub mod Router
pub mod Servers
pub mod Init
pub mod HttpParser
pub mod Tests
