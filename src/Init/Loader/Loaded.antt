-- ===== src/Init/Loader/Loaded.antt =====
-- rust/src/hcache.rs, the threads of `handle_init`: what the entries of a database come to on the nodes
-- of a cluster, and what /query then finds.
use hcache.Base.{
  ℕ, ◌≡◌, refl, ap, ◌∙◌, inl, inr, Bool-cases, ite, some, [], ◌∷◌, arith, Text, text_discrete, ◌==◌,
  if◌then◌else◌,
}
use hcache.Base.Run.{ok}
use hcache.External.Cuckoo.{Cuckoo}
use hcache.External.Rocks.{Rocks, batch_value}
use hcache.External.Hasher.{Hasher}
use hcache.External.Serde.{Serde}
use hcache.Std.Walk.{Walk}
use hcache.Storage.{Storage, get_kv}
use hcache.Shard.{shard_of, shard_of_slice}
use hcache.Cluster.{Net, World}
use hcache.Cluster.Ready.{IsFormed, SamePlace}
use hcache.Handlers.Owner.{own_shard-lt}
use hcache.Handlers.{found, handle_query}
use hcache.Handlers.Routed.{IsServing, handle_query-Updates}
use hcache.Handlers.Map.{cluster_get}
use hcache.Init.Loader.{Entries, load_entry}
use mathlib.Core.Option.{or_else}

module _ ⦃c : Cuckoo⦄ ⦃r : Rocks⦄ ⦃h : Hasher⦄ where
  -- the loop of a loader thread, with the `count` and `me` that it read
  unfoldable pub load_all : ℕ → ℕ → Entries → Storage → Storage
  load_all count me [] st = st
  load_all count me ((key, value) ∷ entries) st =
      load_all count me entries (load_entry count me key value st)

  load_entry-SamePlace :
      (count me : ℕ) (key value : Text) (st : Storage)
      → SamePlace st (load_entry count me key value st)
  unfolding load_entry
  load_entry-SamePlace count me key value st = record {
    count = ground arith;
    me = ground arith;
    pool = ground arith;
  }

  load_all-SamePlace :
      (count me : ℕ) (entries : Entries) (st : Storage)
      → SamePlace st (load_all count me entries st)
  unfolding load_all
  load_all-SamePlace count me [] st = record { count = refl; me = refl; pool = refl }
  load_all-SamePlace count me ((key, value) ∷ entries) st =
      let one = load_entry-SamePlace count me key value st in
      let rest = load_all-SamePlace count me entries (load_entry count me key value st) in
      record { count = rest.count ∙ one.count; me = rest.me ∙ one.me; pool = rest.pool ∙ one.pool }

  get_kv-load_entry :
      (count me : ℕ) (key value : Text) (st : Storage) (k : Text)
      → get_kv (load_entry count me key value st) k ≡ (
          if shard_of_slice k count == me
          then ite (text_discrete key k) (some value) (get_kv st k)
          else get_kv st k)
  unfolding load_entry get_kv
  get_kv-load_entry count me key value st k = elim (text_discrete key k) [
    | yes p ↦ ground (arith, c.get-insert st.kv key k value, ap (λ j. shard_of_slice j count) p)
    | no p ↦ ground (arith, c.get-insert st.kv key k value)
  ]

  -- A thread gives its node the last value of each key whose bytes the node owns.
  pub get_kv-load_all :
      (count me : ℕ) (entries : Entries) (st : Storage) (k : Text)
      → get_kv (load_all count me entries st) k ≡ (
          if shard_of_slice k count == me
          then or_else (batch_value k entries) (get_kv st k)
          else get_kv st k)
  unfolding load_all batch_value or_else
  get_kv-load_all count me [] st k = ground arith
  get_kv-load_all count me ((key, value) ∷ entries) st k =
      let rest = get_kv-load_all count me entries (load_entry count me key value st) k in
      let one = get_kv-load_entry count me key value st k in
      elim (Bool-cases (shard_of_slice k count == me)) [
        | inl e ↦ ground (arith, rest, one)
        | inr e ↦ ground (arith, rest, one)
      ]

  -- every node loads the same entries
  unfoldable pub load_nodes : Entries → World → World
  load_nodes entries w i = load_all (w i).count (w i).me entries (w i)

  load_nodes-IsFormed :
      (net : Net) (n : ℕ) (entries : Entries) (w : World)
      → IsFormed net n w
      → IsFormed net n (load_nodes entries w)
  unfolding load_nodes
  load_nodes-IsFormed net n entries w formed =
      let same : (i : ℕ) → SamePlace (w i) (load_nodes entries w i) =
        λ i. load_all-SamePlace (w i).count (w i).me entries (w i) in
      record {
        count = λ i lt. (same i).count ∙ formed.count i lt;
        me = λ i lt. (same i).me ∙ formed.me i lt;
        connected = λ i lt. rw (same i).pool (formed.connected i lt);
      }

  module _ ⦃s : Serde⦄ ⦃walk : Walk⦄ (net : Net) (n node : ℕ) (w : World)
      (serving : IsServing net n node w) where
    -- In a formed cluster of at most 2 ^ 32 nodes, with every call delivered, when the loader
    -- threads of every node have read the same entries alone, a /query through any node finds the
    -- last value that the entries give its key if the key as a slice and the key as a str have one
    -- owner, and otherwise what it found before.
    pub query_after_load :
        (entries : Entries) (k : Text)
        → (w' : World) × (handle_query net node k (load_nodes entries w)
            ≡ ok (
              found (
                  if shard_of_slice k n == shard_of k n
                  then or_else (batch_value k entries) (cluster_get n w k)
                  else cluster_get n w k),
              w',
            ))
    unfolding load_nodes cluster_get
    query_after_load entries k =
        let own = shard_of k n in
        let lt = own_shard-lt serving.formed serving.member serving.small k in
        let loaded : IsServing net n node (load_nodes entries w) = record {
          formed = load_nodes-IsFormed net n entries w serving.formed;
          delivers = serving.delivers;
          member = serving.member;
          small = serving.small;
        } in
        let (w', run, u) = handle_query-Updates net n node (load_nodes entries w) loaded k in
        let value =
          get_kv-load_all (w own).count (w own).me entries (w own) k
          ∙ rw (serving.formed.count own lt, serving.formed.me own lt) refl in
        (w', rw value at run)
