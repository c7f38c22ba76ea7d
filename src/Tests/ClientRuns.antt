-- ===== src/Tests/ClientRuns.antt =====
-- Clients of a cluster of two nodes.
use hcache.Base.{
  ℕ, ◌<◌, ◌≡◌, ◌≢◌, refl, ite, none, some, List, [], ◌∷◌, arith, Text, codes, ℕ_discrete,
}
use hcache.Base.Run.{ok}
use hcache.Dto.{InsrtRequest}
use hcache.External.Uri.{Site, Fits, all_plain}
use hcache.Storage.{new_storage, get_kv}
use hcache.Storage.Views.{last_value, unless}
use hcache.Shard.{shard_of}
use hcache.Cluster.{World, delivered}
use hcache.Http.{success}
use hcache.Handlers.{handle_batch}
use hcache.Handlers.Sets.{zset_of, sets_after_batch}
use hcache.Client.{Startup, keyed}
use hcache.Client.Spec.{Command, Reply}
use hcache.Client.View.{view, owns, scores_of}
use hcache.Client.Commands.{IsUp}
use hcache.Client.Reads.{IsSmall}
use hcache.Client.Session.{Sent, AllSent, History, play, play-History}
use hcache.Client.Check.{check_keys}
use hcache.Client.CheckSets.{zset, check_sets}
use hcache.Client.Removals.{check_sets-passes}
use hcache.Client.Bench.{benchmarks, long_key, long_zset, filler}
use hcache.Client.Bench.Kept.{Untouched}
use hcache.Client.Bench.Sets.{Cleared, benchmarks-pass}
use hcache.Client.Passes.{after_add, after_del, after_batch, check_keys-passes}
use hcache.Client.Expected.{Fresh}
use hcache.Handlers.Map.{cluster_get}
use hcache.Client.Flood
use hcache.Client.Flood.{Flood, new_flood, flood_chunk}
use hcache.Client.Flood.Stored.{batch-IsUp, flood_goes_on, flood_stores}
use hcache.Client.Flood.Again.{stored}
use hcache.Tests.Bodies.{plain_bodies, split_at}
use hcache.Tests.Instances.{function_map, list_db, in_order, byte_sum}
use hcache.Tests.Cluster2.{
  all_delivered, fresh_node, fresh_node-IsSound, two_queues, two_queues-IsConnected, two_nodes,
  two_nodes-IsServing,
}

-- A host, and a URI whose path is what stands behind as many bytes.
abbrev plain_site : Site
plain_site = record {
  host = codes "http://h";
  path_of = λ t. some (split_at 8 t).1;
  path_of-Fits = λ t fits. refl;
}

abbrev no_startup : Startup
no_startup = record { on_init = λ w. ok (success [], w); on_update = λ body w. ok (success [], w) }

abbrev empty_nodes : World
empty_nodes i = record fresh_node { me = i; count = 2; pool = two_queues }

empty_nodes-IsUp : IsUp all_delivered 2 empty_nodes
empty_nodes-IsUp = record {
  formed = record {
    count = λ i lt. refl;
    me = λ i lt. refl;
    connected = λ i lt. two_queues-IsConnected delivered;
  };
  sound = λ i. record { at_key = fresh_node-IsSound.at_key };
}

empty_nodes-IsSmall : IsSmall (view 2 empty_nodes)
unfolding view scores_of zset_of new_storage
empty_nodes-IsSmall k v score e = cc

abbrev four_commands : List Sent
four_commands =
    (0, Command.add (codes "k") (codes "new"))
    ∷ (1, Command.query (codes "k"))
    ∷ (1, Command.zadd (codes "z") 3 (codes "u"))
    ∷ (0, Command.zrange (codes "z") 2 9)
    ∷ []

four_commands-AllSent : AllSent 2 plain_site.host four_commands
unfolding keyed all_plain
four_commands-AllSent = (
  omega arith,
  record { plain = refl; short = omega arith },
  (
    omega arith,
    ((omega arith, tt), record { plain = refl; short = omega arith }),
    (
      omega arith,
      (omega arith, record { plain = refl; short = omega arith }),
      (omega arith, (omega arith, omega arith, record { plain = refl; short = omega arith }), tt),
    ),
  ),
)

play-History_example :
    (replies : List Reply) × (w' : World) × (play plain_site all_delivered no_startup four_commands
        empty_nodes
      ≡ ok (replies, w'))
    × History (owns 2) (view 2 empty_nodes) four_commands replies (view 2 w')
    × IsUp all_delivered 2 w'
play-History_example =
    play-History plain_site all_delivered no_startup 2 (omega arith) (λ i. refl) four_commands
      empty_nodes empty_nodes-IsUp empty_nodes-IsSmall four_commands-AllSent

abbrev one_entry : List InsrtRequest
one_entry = record { key = codes "z"; value = codes "new" } ∷ []

sets_after_batch_example :
    (w' : World) × (handle_batch all_delivered 0
        (some (plain_bodies.write_entries one_entry))
        two_nodes
      ≡ ok (success [], w'))
    × ((k : Text)
        → zset_of (w' (shard_of k 2)) k
          ≡ ite
              (ℕ_discrete (shard_of k 2) 0)
              (zset_of (two_nodes (shard_of k 2)) k)
              (unless (last_value k one_entry none) (zset_of (two_nodes (shard_of k 2)) k)))
sets_after_batch_example =
    sets_after_batch all_delivered 2 0 two_nodes (plain_bodies.write_entries one_entry) one_entry
      two_nodes-IsServing (plain_bodies.read-write_entries one_entry)

abbrev flood : Flood
flood = new_flood 2 empty_nodes

-- one request is under way
abbrev one_flies : Flood
one_flies = record flood { permits = 1; flying = 1 }

one_flies-Reach : Flood.Reach plain_site all_delivered no_startup 1 one_entry flood one_flies
one_flies-Reach = Flood.next Flood.here (Flood.sends flood 1 refl)

batch-Fits : Fits plain_site.host (codes "/batch")
unfolding all_plain
batch-Fits = record { plain = refl; short = omega arith }

flood_goes_on_example :
    (one_flies.panicked ≡ 0)
    × ((y : Flood) × Flood.Step plain_site all_delivered no_startup 1 one_entry one_flies y)
    × ((k : Text)
        → cluster_get 2 one_flies.world k
          ≡ last_value k (stored 0 one_entry) (cluster_get 2 empty_nodes k))
flood_goes_on_example =
    flood_goes_on plain_site all_delivered no_startup 1 one_entry 2 (omega arith) (omega arith)
      (λ i. refl) batch-Fits (omega arith) empty_nodes-IsUp one_flies-Reach

-- the first request of the loop has returned
one_returned :
    (w : World) × Flood.Reach plain_site all_delivered no_startup 1 flood_chunk flood
      (record flood { returned = 1; world = w })
one_returned =
    let (w, run, _, _) =
      batch-IsUp plain_site all_delivered no_startup 1 flood_chunk 2 (omega arith) (omega arith)
        (λ i. refl) batch-Fits empty_nodes empty_nodes-IsUp in
    (
      w,
      Flood.next (Flood.next Flood.here (Flood.sends flood 1 refl))
          (Flood.returns one_flies 0 (some tt) w refl run),
    )

flood_stores_example :
    ((i : ℕ) → i < 1000 → cluster_get 2 one_returned.0 (long_key i) ≡ some (filler i))
    × ((k : Text)
        → ((i : ℕ) → long_key i ≢ k)
        → cluster_get 2 one_returned.0 k ≡ cluster_get 2 empty_nodes k)
flood_stores_example =
    flood_stores plain_site all_delivered no_startup 1 2 (omega arith) (omega arith) (λ i. refl)
      batch-Fits empty_nodes-IsUp one_returned.1 (omega arith)

empty_nodes-Fresh : Fresh 2 (view 2 empty_nodes)
unfolding view cluster_get new_storage get_kv
empty_nodes-Fresh j lo hi = refl

check_keys-passes_example :
    (w' : World) × (check_keys plain_site all_delivered no_startup 1 2 empty_nodes ≡ ok w')
    × (view 2 w' ≡ after_batch 2 1 2 (after_del 2 1 (after_add 2 1 (view 2 empty_nodes))))
    × IsUp all_delivered 2 w'
check_keys-passes_example =
    check_keys-passes plain_site all_delivered no_startup 2 1 (omega arith) (omega arith)
      (λ i. refl) (omega arith) 2 empty_nodes (omega arith) empty_nodes-IsUp empty_nodes-IsSmall
      empty_nodes-Fresh

empty_nodes-lacks_zset : (view 2 empty_nodes).sets zset ≡ none
unfolding view new_storage
empty_nodes-lacks_zset = refl

empty_nodes-unset : (k : Text) → (view 2 empty_nodes).keys k ≡ none
unfolding view cluster_get new_storage get_kv
empty_nodes-unset k = refl

check_sets-passes_example :
    (w' : World) × (check_sets plain_site all_delivered no_startup 1 2 empty_nodes ≡ ok w')
    × IsUp all_delivered 2 w'
check_sets-passes_example =
    check_sets-passes plain_site all_delivered no_startup 2 1 (omega arith) (omega arith)
      (λ i. refl) (omega arith) 2 empty_nodes (omega arith) (omega arith) empty_nodes-IsUp
      empty_nodes-IsSmall empty_nodes-lacks_zset (empty_nodes-unset zset)

benchmarks-pass_example :
    (w' : World) × (benchmarks in_order plain_site all_delivered no_startup 1 3 empty_nodes ≡ ok w')
    × ((i : ℕ) → i < 3 → Cleared i (view 2 w'))
    × Untouched (view 2 empty_nodes) (view 2 w')
    × IsUp all_delivered 2 w'
benchmarks-pass_example =
    benchmarks-pass plain_site all_delivered no_startup 2 1 (omega arith) (omega arith) (λ i. refl)
      (omega arith) in_order 3 empty_nodes (omega arith) empty_nodes-IsUp empty_nodes-IsSmall
      (λ i lt. empty_nodes-unset (long_zset i))
