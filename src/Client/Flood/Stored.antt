-- ===== src/Client/Flood/Stored.antt =====
-- What the loop of client/src/batch-forever.rs leaves in the cluster, and that it goes on.
use hcache.Base.{
  ℕ, zero, suc, ◌≤◌, ◌<◌, ◌^◌, ◌≡◌, ◌⊎◌, inl, inr, refl, sym, ◌∙◌, some, List, arith, codes, ◌≢◌,
  Text, ap,
}
use hcache.Base.Run.{Fault, ok, fault}
use hcache.Dto.{InsrtRequest}
use hcache.External.Cuckoo.{Cuckoo}
use hcache.External.Rocks.{Rocks}
use hcache.External.Hasher.{Hasher}
use hcache.External.Serde.{Serde}
use hcache.External.Uri.{Site, Fits}
use hcache.Std.Walk.{Walk}
use hcache.Cluster.{Net, World, delivered}
use hcache.Storage.Views.{last_value}
use hcache.Client.Bench.{long_key, filler}
use hcache.Client.Bench.Chunks.{last_value-gets}
use hcache.Client.Bench.Kept.{apart-last_value}
use hcache.Handlers.Map.{cluster_get}
use hcache.Handlers.Routed.{IsServing}
use hcache.Client
use hcache.Client.{Startup}
use hcache.Client.Calls.{batch-run}
use hcache.Client.Commands.{IsUp}
use hcache.Client.Reads.{batched-IsSound}
use hcache.Handlers.Batches.{batched, batched-Updates, cluster_get-batched, handle_batch-batched}
use mathlib.Core.Path.{subst}
use hcache.Client.Flood.{
  flood_chunk, Flood, new_flood, Step, Reach, sends, returns, panics, here, next,
}
use hcache.Client.Flood.Bound.{Reach-total}
use hcache.Client.Flood.Again.{stored, stored_again}

fault_apart : {A : Type 0} {a : A} {e : Fault} → ¬ (ok a ≡ fault e)
fault_apart e = cc

ℕ-cases : (n : ℕ) → (n ≡ 0) ⊎ ((p : ℕ) × (n ≡ suc p))
ℕ-cases zero = inl refl
ℕ-cases (suc p) = inr (p, refl)

module _ ⦃c : Cuckoo⦄ ⦃r : Rocks⦄ ⦃h : Hasher⦄ ⦃s : Serde⦄ ⦃walk : Walk⦄ where
  module _ (site : Site) (net : Net) (startup : Startup) (node : ℕ)
      (chunk : List InsrtRequest) where
    abbrev Takes : Flood → Flood → Type 0
    Takes = Step site net startup node chunk

    abbrev Reaches : Flood → Flood → Type 0
    Reaches = Reach site net startup node chunk

    module _ (n : ℕ) (small : n ≤ 2 ^ 32) (member : node < n)
        (delivers : (i : ℕ) → net.delivery i ≡ delivered)
        (fits : Fits site.host (codes "/batch")) where
      pub batch-IsUp :
          (w : World)
          → IsUp net n w
          → (w' : World) × (Client.batch site net startup node chunk w ≡ ok (some tt, w'))
            × IsUp net n w'
            × ((k : Text) → cluster_get n w' k ≡ last_value k chunk (cluster_get n w k))
      batch-IsUp w up =
          let serving : IsServing net n node w = record {
            formed = up.formed;
            delivers = delivers;
            member = member;
            small = small;
          } in
          let w' = batched net n node member delivers w up.formed small chunk in
          (
            w',
            batch-run site net startup node chunk w w' fits (
                handle_batch-batched net n node w serving (s.write_entries chunk) chunk
                  (s.read-write_entries chunk)),
            record {
              formed = (batched-Updates net n node member delivers w up.formed small chunk).formed;
              sound = batched-IsSound site net startup n node w serving up.sound chunk;
            },
            cluster_get-batched net n node member delivers w up.formed small chunk,
          )

      -- The cluster is up, no request has panicked, and the keys are those of the start with what the
      -- requests have written.
      abbrev Floods : World → Flood → Type 0
      Floods w x =
          IsUp net n x.world
          × (x.panicked ≡ 0)
          × ((k : Text)
              → cluster_get n x.world k
                ≡ last_value k (stored x.returned chunk) (cluster_get n w k))

      Reach-Floods :
          {permits : ℕ} {w : World} {x : Flood}
          → IsUp net n w
          → Reaches (new_flood permits w) x
          → Floods w x
      Reach-Floods up here = (up, refl, λ k. refl)
      Reach-Floods up (next steps (sends _ p e)) = Reach-Floods up steps
      Reach-Floods {w = w} up (next steps (returns y p res w₂ e run)) =
          let (up₁, none_lost, keys) = Reach-Floods up steps in
          let (w', run', up', after) = batch-IsUp y.world up₁ in
          let same : w' ≡ w₂ = cc in
          (
            subst (IsUp net n) same up',
            none_lost,
            λ k.
                ap (λ x. cluster_get n x k) (sym same)
                ∙ after k
                ∙ ap (last_value k chunk) (keys k)
                ∙ stored_again k y.returned chunk (cluster_get n w k),
          )
      Reach-Floods up (next steps (panics y p why e run)) =
          let (up₁, none_lost, keys) = Reach-Floods up steps in
          let (w', run', _, _) = batch-IsUp y.world up₁ in absurd (fault_apart (sym run' ∙ run))

      -- With at least one permit, against a formed cluster of at most 2 ^ 32 nodes, with every call
      -- delivered, sorted sets whose indexes agree and a host whose URI for /batch can be read:
      -- after any steps of the loop that sends batches forever no request has panicked, there is a
      -- next step, and each key has the last value that the batch gives it once a request has
      -- returned, or else the one that it had.
      pub flood_goes_on :
          {permits : ℕ} {w : World} {x : Flood}
          → 0 < permits
          → IsUp net n w
          → Reaches (new_flood permits w) x
          → (x.panicked ≡ 0)
            × ((y : Flood) × Takes x y)
            × ((k : Text)
                → cluster_get n x.world k
                  ≡ last_value k (stored x.returned chunk) (cluster_get n w k))
      flood_goes_on {x = x} some_permit up steps =
          let (up', none_lost, keys) = Reach-Floods up steps in
          let (w', run, _, _) = batch-IsUp x.world up' in
          (
            none_lost,
            elim (ℕ-cases x.permits) [
              | inr (p, e) ↦ (record x { permits = p; flying = suc x.flying }, sends x p e)
              | inl e ↦ elim (ℕ-cases x.flying) [
                | inl f ↦ absurd (
                    omega (
                      arith,
                      some_permit,
                      Reach-total site net startup node chunk steps,
                      none_lost,
                      e,
                      f,
                    ))
                | inr (p, f) ↦ (
                  record x {
                    permits = suc x.permits;
                    flying = p;
                    returned = suc x.returned;
                    world = w';
                  },
                  returns x p (some tt) w' f run,
                )
              ]
            ],
            keys,
          )

  module _ (site : Site) (net : Net) (startup : Startup) (node n : ℕ) (small : n ≤ 2 ^ 32)
      (member : node < n) (delivers : (i : ℕ) → net.delivery i ≡ delivered)
      (fits : Fits site.host (codes "/batch")) where
    -- Against a formed cluster of at most 2 ^ 32 nodes, with every call delivered, sorted sets
    -- whose indexes agree and a host whose URI for /batch can be read: once a request of the loop
    -- that sends batches forever has returned, each of its 1000 keys has its value of 1024 letters,
    -- whatever steps have come or will come, and every key that is not the `key{}` of a number, 16
    -- times over, is as it was.
    pub flood_stores :
        {permits : ℕ} {w : World} {x : Flood}
        → IsUp net n w
        → Reach site net startup node flood_chunk (new_flood permits w) x
        → 0 < x.returned
        → ((i : ℕ) → i < 1000 → cluster_get n x.world (long_key i) ≡ some (filler i))
          × ((k : Text) → ((i : ℕ) → long_key i ≢ k) → cluster_get n x.world k ≡ cluster_get n w k)
    unfolding flood_chunk filler
    flood_stores {w = w} {x = x} up steps some_returned =
        let (_, _, keys) =
          Reach-Floods site net startup node flood_chunk n small member delivers fits up steps in
        elim (ℕ-cases x.returned) [
          | inl e ↦ absurd (omega (arith, e, some_returned))
          | inr (p, e) ↦
              let now : (k : Text)
                  → cluster_get n x.world k ≡ last_value k flood_chunk (cluster_get n w k) =
                λ k. keys k ∙ ap (λ m. last_value k (stored m flood_chunk) (cluster_get n w k)) e in
              (
                λ i lt.
                    now (long_key i)
                    ∙ last_value-gets i 0 1000 (cluster_get n w (long_key i)) (omega arith) lt,
                λ k apart. now k ∙ apart-last_value k 0 1000 (cluster_get n w k) apart,
              )
        ]
