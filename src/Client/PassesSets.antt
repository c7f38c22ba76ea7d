-- ===== src/Client/PassesSets.antt =====
-- client/src/client.rs, `main`: its checks of /zadd and /zrange, made against a cluster.
use hcache.Base.{
  ℕ, zero, suc, ◌-◌, ◌+◌, ◌≤◌, ◌<◌, ◌^◌, ◌≡◌, ◌⊎◌, inl, refl, sym, ap, ◌∙◌, Option, none, some,
  List, arith, Text, codes, length, leb, ◌&&◌, if◌then◌else◌,
}
use hcache.Base.Run.{ok}
use hcache.Dto.{ScoreValue}
use hcache.External.Cuckoo.{Cuckoo}
use hcache.External.Rocks.{Rocks}
use hcache.External.Hasher.{Hasher}
use hcache.External.Serde.{Serde}
use hcache.External.Uri.{Site, all_plain}
use hcache.Std.Decimal.{decimal}
use hcache.Std.Walk.{Walk}
use hcache.Cluster.{Net, World, delivered}
use hcache.ZSet.{at_score}
use hcache.ZSet.Range.{count_item}
use hcache.Client
use hcache.Client.{Startup, keyed}
use hcache.Client.Spec.{Command, Cache, next, Scores, score_in, scored}
use hcache.Client.View.{owns}
use hcache.Client.Known.{Holds, zadd-Holds, zrange-Holds}
use hcache.Client.Check.{done, value}
use hcache.Client.CheckSets.{
  zset, half, twice, zadd_each, check_zadd, check_zadd_again, check_scores,
}
use hcache.Client.Ranked.{
  ranked, items_from, count_item-items_from, ranked-items_from, scores, scores_unique,
  scores-length, length-items_from, items_from-ascends,
}
use hcache.Client.Expected.{Fits-short, put-same, expect-true}
use hcache.Client.Scored.{
  ranked-set, ranked-within, ranked-range, expect_scores-numbered, expect_items-numbered,
}

module _ ⦃c : Cuckoo⦄ ⦃r : Rocks⦄ ⦃h : Hasher⦄ ⦃s : Serde⦄ ⦃walk : Walk⦄ (site : Site) (net : Net)
    (startup : Startup) (n node : ℕ) (small : n ≤ 2 ^ 32) (member : node < n)
    (delivers : (i : ℕ) → net.delivery i ≡ delivered) (low : length site.host ≤ 65000) where
  abbrev Now : Cache → World → Type 0
  Now a w = Holds site net startup n node small member delivers a w

  zadd_each-Holds :
      (score : ℕ → ℕ) (i left : ℕ) (a : Cache) (w : World)
      → ((j : ℕ) → j < i + left → score j < 2 ^ 32)
      → Now a w
      → (w' : World) × (a' : Cache) × (zadd_each site net startup node score i left w ≡ ok w')
        × (a'.sets zset ≡ ranked score i left (a.sets zset))
        × Now a' w'
  unfolding zadd_each ranked done all_plain keyed
  zadd_each-Holds score i zero a w below now = (w, a, refl, refl, now)
  zadd_each-Holds score i (suc left) a w below now =
      let (w₁, run, now₁) =
        zadd-Holds site net startup n node small member delivers a w zset (score i) (decimal i) now
          (
            below i (omega arith),
            Fits-short site.host (keyed (codes "zadd") zset) refl (omega arith) low,
          ) in
      let b = next (owns n node) (Command.zadd zset (score i) (decimal i)) a in
      let (w₂, a', run', e, now₂) =
        zadd_each-Holds score (suc i) left b w₁ (λ j lt. below j (omega (arith, lt))) now₁ in
      let set : b.sets zset ≡ some (scored (decimal i) (score i) (a.sets zset)) =
        put-same zset (some (scored (decimal i) (score i) (a.sets zset))) a.sets in
      (w₂, a', rw run run', e ∙ ap (ranked score (suc i) left) set, now₂)

  zrange-ranked :
      (score : ℕ → ℕ) (count hi : ℕ) (o : Option Scores) (a : Cache) (w : World)
      → 0 < count
      → hi < 2 ^ 32
      → ((j : ℕ) → score j ≤ score (suc j))
      → ((j : ℕ) → j < count → score j ≤ hi)
      → ((v : Text)
          → (score_in o v ≡ none) ⊎ ((j : ℕ) × (0 ≤ j) × (j < 0 + count) × (decimal j ≡ v)))
      → a.sets zset ≡ ranked score 0 count o
      → Now a w
      → (items : List ScoreValue) × (w' : World) × (Client.zrange site net startup node zset 0 hi w
          ≡ ok (some items, w'))
        × (scores items ≡ scores (items_from score 0 count))
        × ((s : ℕ) (v : Text) → count_item s v items ≡ count_item s v (items_from score 0 count))
        × Now a w'
  unfolding all_plain keyed
  zrange-ranked score count hi o a w found top up below within set now =
      let (f, e) = ranked-set score 0 count o found in
      let (items, w', run, ranks, after) =
        zrange-Holds site net startup n node small member delivers a w zset 0 hi f now
          (
            omega arith,
            top,
            Fits-short site.host (keyed (codes "zrange") zset) refl (omega arith) low,
          )
          (set ∙ e) in
      let counts : (s : ℕ) (v : Text)
          → count_item s v items ≡ count_item s v (items_from score 0 count) =
        λ s v.
          ranks.counted s v
          ∙ ap (λ x. if leb 0 s && leb s hi then at_score x s else 0)
              (ap (λ x. score_in x v) (sym e))
          ∙ ap (λ x. if leb 0 s && leb s hi then x else 0)
              (ranked-items_from score s v 0 count o (within v))
          ∙ ranked-range score count hi s v below in
      (
        items,
        w',
        run,
        scores_unique 0 items (items_from score 0 count) ranks.sorted
            (items_from-ascends score 0 0 count up (omega arith)) counts,
        counts,
        after,
      )

  length-ranked :
      (score : ℕ → ℕ) (count : ℕ) (items : List ScoreValue)
      → scores items ≡ scores (items_from score 0 count)
      → length items ≡ count
  length-ranked score count items same =
      sym (scores-length items)
      ∙ ap length same
      ∙ scores-length (items_from score 0 count)
      ∙ length-items_from score 0 count

  check_zadd-Holds :
      (count : ℕ) (a : Cache) (w : World)
      → 0 < count
      → count ≤ 2 ^ 31
      → a.sets zset ≡ none
      → Now a w
      → (w' : World) × (a' : Cache) × (check_zadd site net startup node count w ≡ ok w')
        × (a'.sets zset ≡ ranked half 0 count none)
        × Now a' w'
  unfolding check_zadd value half
  check_zadd-Holds count a w found most absent now =
      let (w₁, a', run, set, now₁) =
        zadd_each-Holds half 0 count a w (λ j lt. omega (arith, lt, most)) now in
      let set' : a'.sets zset ≡ ranked half 0 count none = set ∙ ap (ranked half 0 count) absent in
      let (items, w₂, run', same, counts, now₂) =
        zrange-ranked half count (half (count - 1)) none a' w₁ found (omega (arith, most))
          (λ j. omega arith) (λ j lt. omega (arith, lt)) (λ v. inl refl) set' now₁ in
      (
        w₂,
        a',
        rw (run, run', expect-true (length items) count w₂ (length-ranked half count items same))
            (expect_scores-numbered half 0 count items w₂ same),
        set',
        now₂,
      )

  check_zadd_again-Holds :
      (count : ℕ) (a : Cache) (w : World)
      → 0 < count
      → count ≤ 2 ^ 31
      → a.sets zset ≡ ranked half 0 count none
      → Now a w
      → (w' : World) × (a' : Cache) × (check_zadd_again site net startup node count w ≡ ok w')
        × (a'.sets zset ≡ ranked twice 0 count (ranked half 0 count none))
        × Now a' w'
  unfolding check_zadd_again value twice
  check_zadd_again-Holds count a w found most before now =
      let (w₁, a', run, set, now₁) =
        zadd_each-Holds twice 0 count a w (λ j lt. omega (arith, lt, most)) now in
      let set' : a'.sets zset ≡ ranked twice 0 count (ranked half 0 count none) =
        set ∙ ap (ranked twice 0 count) before in
      let (items, w₂, run', same, counts, now₂) =
        zrange-ranked twice count (twice (count - 1)) (ranked half 0 count none) a' w₁ found
          (omega (arith, most, found)) (λ j. omega arith) (λ j lt. omega (arith, lt))
          (λ v. ranked-within half 0 count none v) set' now₁ in
      let values =
        expect_items-numbered twice 0 count items w₂ (λ j k e. omega (arith, e)) same
          (λ s v here.
            let (j, lo, hi, e, f) =
              count_item-items_from twice s v 0 count (omega (arith, here, counts s v)) in
            (j, e, f)) in
      (
        w₂,
        a',
        rw (run, run', expect-true (length items) count w₂ (length-ranked twice count items same))
            values,
        set',
        now₂,
      )

  pub check_scores-Holds :
      (count : ℕ) (a : Cache) (w : World)
      → 0 < count
      → count ≤ 2 ^ 31
      → a.sets zset ≡ none
      → Now a w
      → (w' : World) × (a' : Cache) × (check_scores site net startup node count w ≡ ok w')
        × (a'.sets zset ≡ ranked twice 0 count (ranked half 0 count none))
        × Now a' w'
  unfolding check_scores
  check_scores-Holds count a w found most absent now =
      let (w₁, b, run, set, now₁) = check_zadd-Holds count a w found most absent now in
      let (w₂, b', run', set', now₂) = check_zadd_again-Holds count b w₁ found most set now₁ in
      (w₂, b', rw (run, run') refl, set', now₂)
