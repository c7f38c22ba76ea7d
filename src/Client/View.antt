-- ===== src/Client/View.antt =====
-- The cache of module `Client.Spec` that a cluster holds.
use hcache.Base.{
  ℕ, ◌≡◌, refl, sym, ap, ◌∙◌, ite, inl, inr, Option-cases, Option, none, some, arith, Text,
  text_discrete, ℕ_discrete, Bool, ◌==◌,
}
use hcache.Dto.{ScoreValue}
use hcache.External.Cuckoo.{Cuckoo}
use hcache.External.Rocks.{Rocks}
use hcache.External.Hasher.{Hasher}
use hcache.ZSet
use hcache.ZSet.{ZSet}
use hcache.ZSet.Add.{score_of-add, score_of-rmv}
use hcache.Storage.{Storage, get_kv, insert_kv, remove_key, put_member, zadd_memory, zadd, zrmv}
use hcache.Storage.Views.{score_of-empty}
use hcache.Storage.Sound.{IsSound, AllConsistent}
use hcache.Shard.{shard_of}
use hcache.Peer.{remove_all}
use hcache.Cluster.{Net, World}
use hcache.Cluster.Ready.{Updates}
use hcache.Handlers.Map.{cluster_get}
use hcache.Handlers.Sets.{zset_of}
use hcache.Client.Spec.{Scores, Cache, scored, without, score_in}
use mathlib.Core.Option
use mathlib.Core.Path.{fun_ext, subst}

module _ ⦃c : Cuckoo⦄ ⦃r : Rocks⦄ where
  -- the scores under a key at a node
  unfoldable pub scores_of : Storage → Text → Option Scores
  unfolding zset_of
  scores_of st k = Option.map ZSet.score_of (zset_of st k)

  score_of-get_or_insert :
      (st : Storage) (k v : Text)
      → ZSet.score_of (c.get_or_insert st.zsets k ZSet.empty).0 v ≡ score_in (scores_of st k) v
  unfolding scores_of
  score_of-get_or_insert st k v = elim (Option-cases (c.get st.zsets k)) [
    | inl e ↦ ground (arith, c.get_or_insert-value st.zsets k ZSet.empty, score_of-empty v)
    | inr (z, e) ↦ ground (arith, c.get_or_insert-value st.zsets k ZSet.empty)
  ]

  added_scores :
      (st : Storage) (k : Text) (sv : ScoreValue)
      → ZSet.score_of (ZSet.add (c.get_or_insert st.zsets k ZSet.empty).0 sv.value sv.score)
        ≡ scored sv.value sv.score (scores_of st k)
  added_scores st k sv = fun_ext (λ v. ground (
    arith,
    score_of-add (c.get_or_insert st.zsets k ZSet.empty).0 sv.value v sv.score,
    score_of-get_or_insert st k v,
  ))

  pub scores_of-zadd :
      (st : Storage) (k : Text) (sv : ScoreValue) (j : Text)
      → scores_of (zadd st k sv) j
        ≡ ite
            (text_discrete k j)
            (some (scored sv.value sv.score (scores_of st k)))
            (scores_of st j)
  unfolding scores_of zadd put_member zadd_memory
  scores_of-zadd st k sv j = ground (
    arith,
    c.get-insert (c.get_or_insert st.zsets k ZSet.empty).1 k j
        (ZSet.add (c.get_or_insert st.zsets k ZSet.empty).0 sv.value sv.score),
    c.get-get_or_insert st.zsets k j ZSet.empty,
    added_scores st k sv,
  )

  removed_scores :
      (z : ZSet) (value : Text)
      → ZSet.score_of (ZSet.rmv z value).1 ≡ without value (ZSet.score_of z)
  removed_scores z value = fun_ext (λ v. score_of-rmv z value v)

  pub scores_of-zrmv :
      (st : Storage) (k value j : Text)
      → scores_of (zrmv st k value) j
        ≡ ite (text_discrete k j) (Option.map (without value) (scores_of st k)) (scores_of st j)
  unfolding scores_of zrmv
  scores_of-zrmv st k value j = elim (Option-cases (c.get st.zsets k)) [
    | inl e ↦ ground arith
    | inr (z, e) ↦
        ground (arith, c.get-insert st.zsets k j (ZSet.rmv z value).1, removed_scores z value)
  ]

  pub scores_of-insert_kv :
      (st : Storage) (k value j : Text)
      → scores_of (insert_kv st k value) j ≡ ite (text_discrete k j) none (scores_of st j)
  unfolding scores_of insert_kv
  scores_of-insert_kv st k value j = ground (arith, c.get-remove st.zsets k j)

  pub scores_of-remove_all :
      (st : Storage) (k j : Text)
      → scores_of (remove_all k st) j ≡ ite (text_discrete k j) none (scores_of st j)
  unfolding scores_of remove_all remove_key
  scores_of-remove_all st k j = ground (arith, c.get-remove st.zsets k j)

  pub get_kv-remove_all :
      (st : Storage) (k j : Text)
      → get_kv (remove_all k st) j ≡ ite (text_discrete k j) none (get_kv st j)
  unfolding remove_all get_kv remove_key
  get_kv-remove_all st k j = c.get-remove st.kv k j

  pub get_kv-zadd :
      (st : Storage) (k : Text) (sv : ScoreValue) (j : Text) → get_kv (zadd st k sv) j ≡ get_kv st j
  unfolding get_kv zadd put_member zadd_memory
  get_kv-zadd st k sv j = refl

  pub get_kv-zrmv : (st : Storage) (k v j : Text) → get_kv (zrmv st k v) j ≡ get_kv st j
  unfolding get_kv zrmv
  get_kv-zrmv st k v j = ground arith

  -- every node's sorted sets stay sound if the new node's are
  pub IsSound-Updates :
      (net : Net) (n owner : ℕ) (st : Storage) (w w' : World)
      → Updates net n owner st w w'
      → IsSound st
      → ((i : ℕ) → IsSound (w i))
      → (i : ℕ) → IsSound (w' i)
  IsSound-Updates net n owner st w w' u new old i = elim (ℕ_discrete i owner) [
    | yes p ↦
        let e : st.zsets ≡ (w' i).zsets = sym u.own.zsets ∙ ap (λ j. (w' j).zsets) (sym p) in
        subst (λ t. AllConsistent t) e new
    | no p ↦ subst (λ t. AllConsistent t) (sym (u.others i p).zsets) (old i)
  ]

module _ ⦃c : Cuckoo⦄ ⦃r : Rocks⦄ ⦃h : Hasher⦄ where
  -- The cache that a cluster holds: each key and each sorted set at its owner.
  unfoldable pub view : ℕ → World → Cache
  unfolding cluster_get scores_of
  view n w = record { keys = λ k. cluster_get n w k; sets = λ k. scores_of (w (shard_of k n)) k }

  -- which keys are a node's own
  unfoldable pub owns : ℕ → ℕ → Text → Bool
  owns n node k = shard_of k n == node

  module _ (net : Net) (n : ℕ) (w w' : World) (key : Text) (st : Storage)
      (u : Updates net n (shard_of key n) st w w') where
    pub sets-Updates :
        (set : Option Scores)
        → ((k : Text)
            → scores_of st k ≡ ite (text_discrete key k) set (scores_of (w (shard_of key n)) k))
        → (k : Text)
        → scores_of (w' (shard_of k n)) k
          ≡ ite (text_discrete key k) set (scores_of (w (shard_of k n)) k)
    unfolding scores_of
    sets-Updates set changes k = elim (ℕ_discrete (shard_of k n) (shard_of key n)) [
      | yes p ↦ ground (arith, u.own.zsets, changes k)
      | no p ↦ ground (arith, (u.others (shard_of k n) p).zsets)
    ]

    -- no key changes at the owner, so none in the cluster
    pub keys-kept :
        ((k : Text) → get_kv st k ≡ get_kv (w (shard_of key n)) k)
        → (k : Text) → cluster_get n w' k ≡ cluster_get n w k
    unfolding cluster_get get_kv
    keys-kept same k = elim (ℕ_discrete (shard_of k n) (shard_of key n)) [
      | yes p ↦ ground (arith, u.own.kv, same k)
      | no p ↦ ground (arith, (u.others (shard_of k n) p).kv)
    ]

    pub sets-kept :
        ((k : Text) → scores_of st k ≡ scores_of (w (shard_of key n)) k)
        → (k : Text) → scores_of (w' (shard_of k n)) k ≡ scores_of (w (shard_of k n)) k
    unfolding scores_of
    sets-kept same k = elim (ℕ_discrete (shard_of k n) (shard_of key n)) [
      | yes p ↦ ground (arith, u.own.zsets, same k)
      | no p ↦ ground (arith, (u.others (shard_of k n) p).zsets)
    ]

  pub view-eq :
      (n : ℕ) (w : World) (a : Cache)
      → ((k : Text) → cluster_get n w k ≡ a.keys k)
      → ((k : Text) → scores_of (w (shard_of k n)) k ≡ a.sets k)
      → view n w ≡ a
  unfolding view
  view-eq n w a keys sets = λ i. record { keys = fun_ext keys i; sets = fun_ext sets i }
