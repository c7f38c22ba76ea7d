-- ===== src/Client/Commands.antt =====
-- client/src/client.rs: what a command of a client does to the cluster and what it returns.
use hcache.Base.{ℕ, ◌≡◌, refl, none, some, arith, Text}
use hcache.Base.Run.{Run, ok, ◌>>=◌}
use hcache.Dto.{InsrtRequest, ScoreValue}
use hcache.External.Cuckoo.{Cuckoo}
use hcache.External.Rocks.{Rocks}
use hcache.External.Hasher.{Hasher}
use hcache.External.Serde.{Serde}
use hcache.External.Uri.{Site}
use hcache.Std.Walk.{Walk}
use hcache.Storage
use hcache.Storage.{Storage, insert_kv, remove_key}
use hcache.Storage.Views.{get_kv-insert_kv}
use hcache.Storage.Sound.{IsSound, insert_kv-IsSound, zadd-IsSound, zrmv-IsSound}
use hcache.Shard.{shard_of}
use hcache.Peer.{remove_all}
use hcache.Cluster.{Net, World}
use hcache.Cluster.Ready.{IsFormed, Updates}
use hcache.Handlers.Routed.{
  IsServing, handle_query-Updates, handle_del-Updates, handle_add-Updates, handle_zadd-Updates,
  handle_zrmv-Updates,
}
use hcache.Handlers.Map.{cluster_get, cluster_get-Updates}
use hcache.Client
use hcache.Client.{Startup}
use hcache.Client.Calls.{query-run, del-run, add-run, zadd-run, zrmv-run}
use hcache.Client.Spec.{
  Command, Reply, Answers, Allowed, next, got, answered, listing, ranking, scored, without,
}
use hcache.Client.View.{
  view, view-eq, owns, scores_of, IsSound-Updates, sets-Updates, keys-kept, sets-kept,
  scores_of-zadd, scores_of-zrmv, scores_of-insert_kv, scores_of-remove_all, get_kv-remove_all,
  get_kv-zadd, get_kv-zrmv,
}
use mathlib.Core.Option

-- A cluster that serves, with sorted sets whose indexes agree.
pub record IsUp ⦃c : Cuckoo⦄ ⦃r : Rocks⦄ (net : Net) (n : ℕ) (w : World) : Type 0 where
  pub formed : IsFormed net n w
  pub sound : (i : ℕ) → IsSound (w i)

module _ ⦃c : Cuckoo⦄ ⦃r : Rocks⦄ ⦃h : Hasher⦄ ⦃s : Serde⦄ ⦃walk : Walk⦄ (site : Site) (net : Net)
    (startup : Startup) where
  -- a command, as a call of the client
  unfoldable pub ask : ℕ → Command → World → Run (Reply × World)
  ask node (Command.query key) w =
      Client.query site net startup node key w >>= λ (x, w'). ok (got x, w')
  ask node (Command.del key) w =
      Client.del site net startup node key w >>= λ (x, w'). ok (answered x, w')
  ask node (Command.add key value) w =
      Client.add site net startup node key value w >>= λ (x, w'). ok (answered x, w')
  ask node (Command.batch kvs) w =
      Client.batch site net startup node kvs w >>= λ (x, w'). ok (answered x, w')
  ask node (Command.list keys) w =
      Client.list site net startup node keys w >>= λ (x, w'). ok (listing x, w')
  ask node (Command.zadd key score value) w =
      Client.zadd site net startup node key score value w >>= λ (x, w'). ok (answered x, w')
  ask node (Command.zrange key lo hi) w =
      Client.zrange site net startup node key lo hi w >>= λ (x, w'). ok (ranking x, w')
  ask node (Command.zrmv key value) w =
      Client.zrmv site net startup node key value w >>= λ (x, w'). ok (answered x, w')

  -- A command through a node returns what the cluster's cache allows, and changes the cache as the
  -- command says.
  abbrev pub Serves : ℕ → ℕ → Command → World → Type 0
  Serves n node cmd w =
      (reply : Reply) × (w' : World) × (ask node cmd w ≡ ok (reply, w'))
      × Answers (view n w) cmd reply
      × (view n w' ≡ next (owns n node) cmd (view n w))
      × IsUp net n w'

  module _ (n node : ℕ) (w : World) (serving : IsServing net n node w)
      (sound : (i : ℕ) → IsSound (w i)) where
    pub IsUp-Updates :
        (key : Text) (st : Storage) (w' : World)
        → Updates net n (shard_of key n) st w w'
        → IsSound st
        → IsUp net n w'
    IsUp-Updates key st w' u new = record {
      formed = u.formed;
      sound = IsSound-Updates net n (shard_of key n) st w w' u new sound;
    }

    -- the cache that `view` gives, unchanged
    pub view-kept :
        (key : Text) (w' : World)
        → Updates net n (shard_of key n) (w (shard_of key n)) w w'
        → view n w' ≡ view n w
    unfolding view
    view-kept key w' u =
        view-eq n w' (view n w) (keys-kept net n w w' key (w (shard_of key n)) u (λ k. refl))
          (sets-kept net n w w' key (w (shard_of key n)) u (λ k. refl))

    pub query-Serves :
        (key : Text) → Allowed site.host (Command.query key) → Serves n node (Command.query key) w
    unfolding ask view cluster_get
    query-Serves key allowed =
        let (w', run, u) = handle_query-Updates net n node w serving key in
        (
          got (cluster_get n w key),
          w',
          rw (query-run site net startup node key (cluster_get n w key) w w' allowed run) refl,
          Answers.looked_up key,
          view-kept key w' u,
          IsUp-Updates key (w (shard_of key n)) w' u (sound (shard_of key n)),
        )

    remove_all-IsSound : (key : Text) (st : Storage) → IsSound st → IsSound (remove_all key st)
    unfolding remove_all remove_key
    remove_all-IsSound key st h = record {
      at_key = λ j y e. h.at_key j y (ground (arith, c.get-remove st.zsets key j));
    }

    pub del-Serves :
        (key : Text) → Allowed site.host (Command.del key) → Serves n node (Command.del key) w
    unfolding ask view
    del-Serves key allowed =
        let own = shard_of key n in
        let st = remove_all key (w own) in
        let (w', run, u) = handle_del-Updates net n node w serving key in
        (
          answered (some tt),
          w',
          rw (del-run site net startup node key w w' allowed run) refl,
          Answers.deleted key,
          view-eq n w' _
              (cluster_get-Updates net n w w' key st u none (get_kv-remove_all (w own) key))
              (sets-Updates net n w w' key st u none (scores_of-remove_all (w own) key)),
          IsUp-Updates key st w' u (remove_all-IsSound key (w own) (sound own)),
        )

    pub add-Serves :
        (key value : Text)
        → Allowed site.host (Command.add key value)
        → Serves n node (Command.add key value) w
    unfolding ask view
    add-Serves key value allowed =
        let own = shard_of key n in
        let kv : InsrtRequest = record { key = key; value = value } in
        let st = insert_kv (w own) key value in
        let (w', run, u) =
          handle_add-Updates net n node w serving (s.write_insrt kv) kv (s.read-write_insrt kv) in
        (
          answered (some tt),
          w',
          rw (add-run site net startup node key value w w' allowed run) refl,
          Answers.added key value,
          view-eq n w' _
              (cluster_get-Updates net n w w' key st u (some value)
                (get_kv-insert_kv (w own) key value))
              (sets-Updates net n w w' key st u none (scores_of-insert_kv (w own) key value)),
          IsUp-Updates key st w' u (insert_kv-IsSound (w own) key value (sound own)),
        )

    pub zadd-Serves :
        (key : Text) (score : ℕ) (value : Text)
        → Allowed site.host (Command.zadd key score value)
        → Serves n node (Command.zadd key score value) w
    unfolding ask view
    zadd-Serves key score value allowed =
        let own = shard_of key n in
        let sv : ScoreValue = record { score = score; value = value } in
        let st = Storage.zadd (w own) key sv in
        let (w', run, u) =
          handle_zadd-Updates net n node w serving key (s.write_score_value sv) sv
            (s.read-write_score_value sv allowed.0) in
        (
          answered (some tt),
          w',
          rw (zadd-run site net startup node key score value w w' allowed run) refl,
          Answers.set_score key score value,
          view-eq n w' _ (keys-kept net n w w' key st u (get_kv-zadd (w own) key sv)) (
              sets-Updates net n w w' key st u (some (scored value score (scores_of (w own) key)))
                (scores_of-zadd (w own) key sv)),
          IsUp-Updates key st w' u (zadd-IsSound (w own) key sv (sound own)),
        )

    pub zrmv-Serves :
        (key value : Text)
        → Allowed site.host (Command.zrmv key value)
        → Serves n node (Command.zrmv key value) w
    unfolding ask view
    zrmv-Serves key value allowed =
        let own = shard_of key n in
        let st = Storage.zrmv (w own) key value in
        let (w', run, u) = handle_zrmv-Updates net n node w serving key value in
        (
          answered (some tt),
          w',
          rw (zrmv-run site net startup node key value w w' allowed run) refl,
          Answers.removed key value,
          view-eq n w' _ (keys-kept net n w w' key st u (get_kv-zrmv (w own) key value)) (
              sets-Updates net n w w' key st u (Option.map (without value) (scores_of (w own) key))
                (scores_of-zrmv (w own) key value)),
          IsUp-Updates key st w' u (zrmv-IsSound (w own) key value (sound own)),
        )
