-- ===== src/Tests/PartRuns.antt =====
-- The parts that hold no data of the cluster: paths, shards, connections, the keys on the disk, and
-- the parser.
use hcache.Base.{ℕ, Bool, ◌⊎◌, ltb, some, false, ◌%◌, ◌<◌, ◌≡◌, none, [], ◌∷◌, ◌++◌, arith, codes}
use hcache.Base.Run.{ok, fault, panicked}
use hcache.Storage.{get_zset_key, decode_zset_key}
use hcache.Storage.ZsetKey.{decode-get_zset_key}
use hcache.Shard.{shard_of, hash_key_str}
use hcache.Shard.Bounds.{shard_of-lt}
use hcache.Http.{Method}
use hcache.Router
use hcache.Router.{route}
use hcache.Router.Paths.{path_of, route-query, slash_mismatch}
use hcache.HttpParser.{new_context}
use hcache.HttpParser.Connection.{received, failed, conn_dispatcher, conn_diverges}
use hcache.Tests.Instances.{byte_sum}

decode-get_zset_key_example :
    decode_zset_key (get_zset_key (codes "set") (5 ∷ 0 ∷ 6 ∷ [])) ≡ ok (codes "set", 5 ∷ 0 ∷ 6 ∷ [])
decode-get_zset_key_example = decode-get_zset_key (codes "set") (5 ∷ 0 ∷ 6 ∷ []) (omega arith)

shard_of-lt_example :
    (shard_of (codes "key") 3 < 3) × (shard_of (codes "key") 3 ≡ hash_key_str (codes "key") % 3)
shard_of-lt_example = shard_of-lt (codes "key") 3 (omega arith) (omega arith)

route-query_example :
    route Method.get (path_of (codes "query") (codes "key")) ≡ ok (Router.query (codes "key"))
route-query_example = route-query (codes "key") (omega arith)

slash_mismatch_example :
    (route Method.post (path_of (codes "zadd") (codes "a" ++ 0x2f ∷ codes "b"))
      ≡ ok (Router.zadd (codes "a" ++ 0x2f ∷ codes "b")))
    × (route Method.get
          (path_of (codes "zrmv") ((codes "a" ++ 0x2f ∷ codes "b") ++ 0x2f ∷ codes "v"))
        ≡ ok (Router.zrmv (codes "a") (codes "b" ++ 0x2f ∷ codes "v")))
slash_mismatch_example = slash_mismatch (codes "a") (codes "b") (codes "v") (omega arith)

-- the client has closed the connection after the first reply
abbrev two_writes : ℕ → Bool
two_writes i = ltb i 2

conn_diverges_example :
    (conn_dispatcher two_writes 100 (received (codes "GET / HTTP/1.1") ∷ failed ∷ []) new_context []
      ≡ none)
    ⊎ ((conn_dispatcher two_writes 100
            (received (codes "GET / HTTP/1.1") ∷ failed ∷ [])
            new_context
            []
          ≡ some (fault panicked))
        × ((i : ℕ) × (two_writes i ≡ false)))
conn_diverges_example =
    conn_diverges two_writes 100 (codes "GET / HTTP/1.1") (failed ∷ []) (omega arith)
