-- ===== src/Client/Reads.antt =====
-- client/src/client.rs: `batch`, `list` and `zrange`, what they do to the cluster and what they
-- return.
use hcache.Base.{
  ℕ, ◌<◌, ◌^◌, ◌≡◌, ◌≢◌, refl, sym, ap, ◌∙◌, if◌then◌else◌, inl, inr, Option-cases, Option, none,
  some, List, [], ◌∷◌, arith, Text, ℕ_discrete,
}
use hcache.Base.Run.{ok}
use hcache.Dto.{InsrtRequest, ScoreValue, ScoreRange}
use hcache.External.Cuckoo.{Cuckoo}
use hcache.External.Rocks.{Rocks}
use hcache.External.Hasher.{Hasher}
use hcache.External.Serde.{Serde, AllSmall}
use hcache.External.Uri.{Site}
use hcache.Std.Walk.{Walk}
use hcache.ZSet.Range.{count_item}
use hcache.Storage
use hcache.Storage.{Storage, zscore}
use hcache.Storage.Views.{last_value, unless}
use hcache.Storage.Sound.{IsSound, AllConsistent, zrange-ListsKey}
use hcache.Shard.{shard_of}
use hcache.Cluster.{Net, World}
use hcache.Handlers.Routed.{IsServing, handle_zrange-Updates}
use hcache.Handlers.Batches.{batched, batched-Updates, cluster_get-batched, handle_batch-batched}
use hcache.Handlers.Sets.{zset_of, zset_of-batched, zset_of-batched_at}
use hcache.Handlers.Replies.{list_found}
use hcache.Handlers.Map.{cluster_get, get_kv-SameData}
use hcache.Client.{Startup}
use hcache.Client.Calls.{batch-run, list-run, zrange-run, items_of-found, items_of-none}
use hcache.Client.Spec.{
  Command, Cache, Scores, Answers, Allowed, answered, listing, ranking, nonempty, score_in,
}
use hcache.Client.View.{view, view-eq, owns, scores_of}
use hcache.Client.Commands.{ask, Serves, view-kept, IsUp-Updates}
use mathlib.Core.Path.{subst}

-- Every score of a cache is a `u32`.
abbrev pub IsSmall : Cache → Type 0
IsSmall a = (k v : Text) (score : ℕ) → score_in (a.sets k) v ≡ some score → score < 2 ^ 32

all_small :
    (items : List ScoreValue)
    → ((score : ℕ) (v : Text) → 0 < count_item score v items → score < 2 ^ 32)
    → AllSmall items
all_small [] small = tt
all_small (x ∷ items) small = (
  small x.score x.value (ground arith),
  all_small items (λ score v found. small score v (omega (arith, found))),
)

module _ ⦃c : Cuckoo⦄ ⦃r : Rocks⦄ where
  zscore-scores_of : (st : Storage) (k v : Text) → zscore st k v ≡ score_in (scores_of st k) v
  unfolding zscore scores_of zset_of
  zscore-scores_of st k v = elim (Option-cases (c.get st.zsets k)) [
    | inl e ↦ ground arith
    | inr (z, e) ↦ ground arith
  ]

  kept_set :
      {A B : Type 0} (x : Option A) (old : Option B) (z : B) → unless x old ≡ some z → old ≡ some z
  kept_set none old z e = e
  kept_set (some a) old z e = cc

module _ ⦃c : Cuckoo⦄ ⦃r : Rocks⦄ ⦃h : Hasher⦄ ⦃s : Serde⦄ ⦃walk : Walk⦄ (site : Site) (net : Net)
    (startup : Startup) (n node : ℕ) (w : World) (serving : IsServing net n node w)
    (sound : (i : ℕ) → IsSound (w i)) where
  open serving use {formed, delivers, member, small}

  pub batched-IsSound :
      (kvs : List InsrtRequest) (i : ℕ)
      → IsSound (batched net n node member delivers w formed small kvs i)
  unfolding zset_of
  batched-IsSound kvs i = record {
    at_key = λ k z e. (sound i).at_key k z (
        kept_set _ (zset_of (w i) k) z
          (sym (zset_of-batched_at net n node member delivers w formed small kvs i k) ∙ e));
  }

  sets-batched :
      (kvs : List InsrtRequest) (k : Text)
      → scores_of (batched net n node member delivers w formed small kvs (shard_of k n)) k ≡ (
          if owns n node k
          then scores_of (w (shard_of k n)) k
          else unless (last_value k kvs none) (scores_of (w (shard_of k n)) k))
  unfolding scores_of owns
  sets-batched kvs k =
      let at_owner = zset_of-batched net n node member delivers w formed small kvs k in
      elim (ℕ_discrete (shard_of k n) node) [
        | yes p ↦ ground (arith, at_owner)
        | no p ↦ elim (Option-cases (last_value k kvs none)) [
          | inl e ↦ ground (arith, at_owner)
          | inr (v, e) ↦ ground (arith, at_owner)
        ]
      ]

  pub batch-Serves :
      (kvs : List InsrtRequest)
      → Allowed site.host (Command.batch kvs)
      → Serves site net startup n node (Command.batch kvs) w
  unfolding ask view
  batch-Serves kvs allowed =
      let w' = batched net n node member delivers w formed small kvs in
      (
        answered (some tt),
        w',
        rw
            (batch-run site net startup node kvs w w' allowed (
              handle_batch-batched net n node w serving (s.write_entries kvs) kvs
                (s.read-write_entries kvs)))
            refl,
        Answers.batched kvs,
        view-eq n w' _ (cluster_get-batched net n node member delivers w formed small kvs)
            (sets-batched kvs),
        record {
          formed = (batched-Updates net n node member delivers w formed small kvs).formed;
          sound = batched-IsSound kvs;
        },
      )

  pub list-Serves :
      (keys : List Text)
      → Allowed site.host (Command.list keys)
      → Serves site net startup n node (Command.list keys) w
  unfolding ask view cluster_get scores_of
  list-Serves keys allowed =
      let (entries, w', run, counts, formed', same) =
        list_found net n node w serving (s.write_keys keys) keys (s.read-write_keys keys) in
      (
        listing (nonempty entries),
        w',
        rw (list-run site net startup node keys entries w w' allowed run) refl,
        Answers.collected keys entries counts,
        view-eq n w' (view n w)
            (λ k. get_kv-SameData (w (shard_of k n)) (w' (shard_of k n)) k (same (shard_of k n)))
            (λ k. ground (arith, (same (shard_of k n)).zsets)),
        record {
          formed = formed';
          sound = λ i. subst (λ t. AllConsistent t) (sym (same i).zsets) (sound i);
        },
      )

  no_set_here :
      (key : Text)
      → scores_of (w (shard_of key n)) key ≡ none
      → c.get (w (shard_of key n)).zsets key ≡ none
  unfolding scores_of zset_of
  no_set_here key e = elim (Option-cases (c.get (w (shard_of key n)).zsets key)) [
    | inl f ↦ f
    | inr (z, f) ↦ ground arith
  ]

  set_here :
      (key : Text) (f : Scores)
      → scores_of (w (shard_of key n)) key ≡ some f
      → c.get (w (shard_of key n)).zsets key ≢ none
  unfolding scores_of zset_of
  set_here key f e absent = ground arith

  zrange-none :
      (key : Text) (lo hi : ℕ)
      → Allowed site.host (Command.zrange key lo hi)
      → scores_of (w (shard_of key n)) key ≡ none
      → Serves site net startup n node (Command.zrange key lo hi) w
  unfolding ask view
  zrange-none key lo hi allowed e =
      let range : ScoreRange = record { min_score = lo; max_score = hi } in
      let absent : Storage.zrange (w (shard_of key n)) key range ≡ ok none =
        unfold Storage.zrange in rw (no_set_here key e, Storage.zrange) refl in
      let (w', run, u) =
        handle_zrange-Updates net n node w serving key (s.write_score_range range) range none
          (s.read-write_score_range range (omega (arith, allowed.0, allowed.1)) allowed.1) absent in
      (
        ranking none,
        w',
        rw
            (zrange-run site net startup node key lo hi none w w' allowed run
              (items_of-none site net startup node w'))
            refl,
        Answers.no_set key lo hi e,
        view-kept site net startup n node w serving sound key w' u,
        IsUp-Updates site net startup n node w serving sound key (w (shard_of key n)) w' u
            (sound (shard_of key n)),
      )

  zrange-some :
      (key : Text) (lo hi : ℕ) (f : Scores)
      → Allowed site.host (Command.zrange key lo hi)
      → IsSmall (view n w)
      → scores_of (w (shard_of key n)) key ≡ some f
      → Serves site net startup n node (Command.zrange key lo hi) w
  unfolding ask view
  zrange-some key lo hi f allowed below e =
      let own = shard_of key n in
      let range : ScoreRange = record { min_score = lo; max_score = hi } in
      let (items, runs, lists) =
        zrange-ListsKey (w own) key range (sound own) allowed.0 (set_here key f e) in
      let (w', run, u) =
        handle_zrange-Updates net n node w serving key (s.write_score_range range) range
          (some items)
          (s.read-write_score_range range (omega (arith, allowed.0, allowed.1)) allowed.1) runs in
      let scores : (v : Text) → zscore (w own) key v ≡ f v =
        λ v. zscore-scores_of (w own) key v ∙ ap (λ g. score_in g v) e in
      let all : AllSmall items = all_small items (λ score v found.
        below key v score
          (ap (λ g. score_in g v) e ∙ ground (arith, found, lists.counted score v, scores v))) in
      (
        ranking (some items),
        w',
        rw
            (zrange-run site net startup node key lo hi (some items) w w' allowed run
              (items_of-found site net startup node items w' all))
            refl,
        Answers.ranged key lo hi items f e lists.sorted
            (λ score v. ground (arith, lists.counted score v, scores v)),
        view-kept site net startup n node w serving sound key w' u,
        IsUp-Updates site net startup n node w serving sound key (w own) w' u (sound own),
      )

  pub zrange-Serves :
      (key : Text) (lo hi : ℕ)
      → Allowed site.host (Command.zrange key lo hi)
      → IsSmall (view n w)
      → Serves site net startup n node (Command.zrange key lo hi) w
  zrange-Serves key lo hi allowed below = elim (Option-cases (scores_of (w (shard_of key n)) key)) [
    | inl e ↦ zrange-none key lo hi allowed e
    | inr (f, e) ↦ zrange-some key lo hi f allowed below e
  ]
