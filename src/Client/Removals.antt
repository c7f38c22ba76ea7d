-- ===== src/Client/Removals.antt =====
-- client/src/client.rs, `main`: its checks of /zrmv and of /del of a sorted set, made against a
-- cluster, behind those of /zadd.
use hcache.Base.{
  ℕ, zero, suc, ◌-◌, ◌+◌, ◌≤◌, ◌<◌, ◌^◌, ◌≡◌, refl, sym, ap, ◌∙◌, none, some, List, [], ◌∷◌, ◌++◌,
  arith, Text, codes, text_discrete, ℕ_discrete, length, leb, ◌&&◌, if◌then◌else◌,
}
use hcache.Base.Run.{ok}
use hcache.Dto.{ScoreValue}
use hcache.External.Cuckoo.{Cuckoo}
use hcache.External.Rocks.{Rocks}
use hcache.External.Hasher.{Hasher}
use hcache.External.Serde.{Serde}
use hcache.External.Uri.{Site, all_plain}
use hcache.Std.Decimal.{digits, decimal, length-decimal}
use hcache.Std.Walk.{Walk}
use hcache.Cluster.{Net, World, delivered}
use hcache.ZSet.{at_score}
use hcache.ZSet.Range.{count_item}
use hcache.Client
use hcache.Client.{Startup, keyed}
use hcache.Client.Spec.{Command, Cache, next, Scores, score_in, without}
use hcache.Client.View.{view, owns}
use hcache.Client.Commands.{IsUp}
use hcache.Client.Reads.{IsSmall}
use hcache.Client.Known.{Holds, zrmv-Holds, del-Holds, zrange-Holds, zrange-Holds-none}
use hcache.Client.Check.{done, value, missing}
use hcache.Client.CheckSets.{
  zset, half, twice, expect_empty, zrmv_each, check_zrmv, check_del_set, check_sets,
}
use hcache.Client.Ranked.{ranked, items_from, count_item-items_from, ranked-items_from}
use hcache.Client.Expected.{Fits-short, put-same, expect-true}
use hcache.Client.PassesSets.{check_scores-Holds}
use hcache.Client.Scored.{ranked-set, ranked-within}
use hcache.Client.Plain.{decimal-plain}
use mathlib.Core.Option

digit_zero : codes "0" ≡ decimal 0
unfolding decimal digits
digit_zero = refl

-- The set has no value with score 0.
abbrev NoneAtZero : Cache → Type 0
NoneAtZero a = (f : Scores) × (a.sets zset ≡ some f) × ((v : Text) → at_score (f v) 0 ≡ 0)

-- A set where only one value has score 0, without that value.
without-zero :
    (x v : Text) (f : Scores) → (¬ (x ≡ v) → at_score (f v) 0 ≡ 0) → at_score (without x f v) 0 ≡ 0
without-zero x v f others = elim (text_discrete x v) [
  | yes p ↦ ground arith
  | no p ↦ ground (arith, others p)
]

-- of the doubles of numbers, only that of 0 is 0
twice-zero :
    (count : ℕ) (v : Text) → ¬ (decimal 0 ≡ v) → count_item 0 v (items_from twice 0 count) ≡ 0
unfolding twice
twice-zero count v other = elim (ℕ_discrete (count_item 0 v (items_from twice 0 count)) 0) [
  | yes p ↦ p
  | no p ↦
      let (j, lo, hi, e, f) = count_item-items_from twice 0 v 0 count (omega (arith, p)) in
      let zero_j : 0 ≡ j = omega (arith, e) in absurd (other (ap decimal zero_j ∙ f))
]

no_items :
    (items : List ScoreValue) → ((s : ℕ) (v : Text) → count_item s v items ≡ 0) → length items ≡ 0
no_items [] zero_each = refl
no_items (x ∷ l) zero_each = absurd (ground (arith, zero_each x.score x.value))

only_zero : (s m : ℕ) → (s ≡ 0 → m ≡ 0) → (if leb 0 s && leb s 0 then m else 0) ≡ 0
only_zero s m e = elim (ℕ_discrete s 0) [ yes p ↦ ground (arith, e p) | no p ↦ ground arith ]

module _ ⦃c : Cuckoo⦄ ⦃r : Rocks⦄ ⦃h : Hasher⦄ ⦃s : Serde⦄ ⦃walk : Walk⦄ (site : Site) (net : Net)
    (startup : Startup) (n node : ℕ) (small : n ≤ 2 ^ 32) (member : node < n)
    (delivers : (i : ℕ) → net.delivery i ≡ delivered) (low : length site.host ≤ 65000) where
  abbrev Now : Cache → World → Type 0
  Now a w = Holds site net startup n node small member delivers a w

  expect_empty-Holds :
      (a : Cache) (w : World)
      → NoneAtZero a
      → Now a w
      → (w' : World) × (expect_empty site net startup node w ≡ ok w') × Now a w'
  unfolding expect_empty value all_plain keyed
  expect_empty-Holds a w (f, set, nothing) now =
      let (items, w', run, ranks, after) =
        zrange-Holds site net startup n node small member delivers a w zset 0 0 f now
          (
            omega arith,
            omega arith,
            Fits-short site.host (keyed (codes "zrange") zset) refl (omega arith) low,
          )
          set in
      let none_left = no_items items (λ s v.
        ranks.counted s v
        ∙ only_zero s (at_score (f v) s) (λ e. ap (at_score (f v)) e ∙ nothing v)) in
      (w', rw run (expect-true (length items) 0 w' none_left), after)

  zrmv-decimal :
      (i : ℕ) (f : Scores) (a : Cache) (w : World)
      → i ≤ 400
      → a.sets zset ≡ some f
      → Now a w
      → (w' : World) × (a' : Cache) × (Client.zrmv site net startup node zset (decimal i) w
          ≡ ok (some tt, w'))
        × (a'.sets zset ≡ some (without (decimal i) f))
        × Now a' w'
  unfolding all_plain keyed
  zrmv-decimal i f a w most set now =
      let (w', run, after) =
        zrmv-Holds site net startup n node small member delivers a w zset (decimal i) now (
          omega arith,
          Fits-short site.host (keyed (codes "zrmv") (zset ++ 0x2f ∷ decimal i)) (decimal-plain i)
              (omega (arith, length-decimal i, most)) low,
        ) in
      (
        w',
        next (owns n node) (Command.zrmv zset (decimal i)) a,
        run,
        put-same zset (Option.map (without (decimal i)) (a.sets zset)) a.sets
            ∙ ap (Option.map (without (decimal i))) set,
        after,
      )

  zrmv_each-Holds :
      (i left : ℕ) (a : Cache) (w : World)
      → i + left ≤ 401
      → NoneAtZero a
      → Now a w
      → (w' : World) × (a' : Cache) × (zrmv_each site net startup node i left w ≡ ok w')
        × NoneAtZero a'
        × Now a' w'
  unfolding zrmv_each done
  zrmv_each-Holds i zero a w most nothing now = (w, a, refl, nothing, now)
  zrmv_each-Holds i (suc left) a w most (f, set, nothing) now =
      let (w₁, b, run, set', now₁) = zrmv-decimal i f a w (omega (arith, most)) set now in
      let (w₂, a', run', nothing', now₂) =
        zrmv_each-Holds (suc i) left b w₁ (omega (arith, most))
          (without (decimal i) f, set', λ v. without-zero (decimal i) v f (λ other. nothing v))
          now₁ in
      (w₂, a', rw run run', nothing', now₂)

  check_zrmv-Holds :
      (count : ℕ) (a : Cache) (w : World)
      → 0 < count
      → count ≤ 400
      → a.sets zset ≡ ranked twice 0 count (ranked half 0 count none)
      → Now a w
      → (w' : World) × (a' : Cache) × (check_zrmv site net startup node count w ≡ ok w') × Now a' w'
  unfolding check_zrmv done
  check_zrmv-Holds count a w found most set now =
      let o = ranked half 0 count none in
      let (f, e) = ranked-set twice 0 count o found in
      let (w₁, b, run₁, set₁, now₁) = zrmv-decimal 0 f a w (omega arith) (set ∙ e) now in
      let nothing : NoneAtZero b = (
        without (decimal 0) f,
        set₁,
        λ v. without-zero (decimal 0) v f (λ other.
            ap (λ x. at_score (score_in x v) 0) (sym e)
            ∙ ranked-items_from twice 0 v 0 count o (ranked-within half 0 count none v)
            ∙ twice-zero count v other),
      ) in
      let (w₂, run₂, now₂) = expect_empty-Holds b w₁ nothing now₁ in
      let (w₃, b', run₃, nothing', now₃) =
        zrmv_each-Holds 1 (count - 1) b w₂ (omega (arith, most)) nothing now₂ in
      let (w₄, run₄, now₄) = expect_empty-Holds b' w₃ nothing' now₃ in
      (w₄, b', rw (digit_zero, run₁, run₂, run₃, run₄) refl, now₄)

  check_del_set-Holds :
      (a : Cache) (w : World)
      → Now a w
      → (w' : World) × (a' : Cache) × (check_del_set site net startup node w ≡ ok w') × Now a' w'
  unfolding check_del_set done missing all_plain keyed
  check_del_set-Holds a w now =
      let (w₁, run, now₁) =
        del-Holds site net startup n node small member delivers a w zset now
          (omega arith, Fits-short site.host (keyed (codes "del") zset) refl (omega arith) low) in
      let b = next (owns n node) (Command.del zset) a in
      let (w₂, run', now₂) =
        zrange-Holds-none site net startup n node small member delivers b w₁ zset 0 0 now₁
          (
            omega arith,
            omega arith,
            Fits-short site.host (keyed (codes "zrange") zset) refl (omega arith) low,
          )
          (put-same zset none a.sets) in
      (w₂, b, rw (run, run') refl, now₂)

  -- In a formed cluster of at most 2 ^ 32 nodes, with every call delivered, sorted sets whose
  -- indexes agree, scores that are `u32` and a host of at most 65000 bytes, the checks of sorted
  -- sets that the client makes before its benchmarks all pass, through any node and for any count
  -- of values from 1 to 400, if there is no set and no value at their key: they add the numbers
  -- with their halves as scores, give them their doubles as scores, remove them and delete the set;
  -- and the cluster is left formed, with indexes that agree.
  pub check_sets-passes :
      (count : ℕ) (w : World)
      → 0 < count
      → count ≤ 400
      → IsUp net n w
      → IsSmall (view n w)
      → (view n w).sets zset ≡ none
      → (view n w).keys zset ≡ none
      → (w' : World) × (check_sets site net startup node count w ≡ ok w') × IsUp net n w'
  unfolding check_sets
  check_sets-passes count w found most up below absent unset =
      let a = view n w in
      let now : Now a w = record { up = up; same = refl; below = below } in
      let (w₁, b, run₁, set, now₁) =
        check_scores-Holds site net startup n node small member delivers low count a w found
          (omega (arith, most)) absent now in
      let (w₂, b₂, run₂, now₂) = check_zrmv-Holds count b w₁ found most set now₁ in
      let (w₃, b₃, run₃, now₃) = check_del_set-Holds b₂ w₂ now₂ in
      (w₃, rw (run₁, run₂, run₃) refl, now₃.up)
