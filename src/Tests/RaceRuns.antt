-- ===== src/Tests/RaceRuns.antt =====
-- Requests at once on one sorted set.
use hcache.Base.{ℕ, ◌≡◌, refl, some, arith, Text, codes, text_discrete}
use hcache.Std.BTreeMap
use hcache.Std.HashSet
use hcache.ZSet
use hcache.ZSet.{ZSet, score_of, bucket, at_score}
use hcache.ZSet.Add.{empty-IsConsistent}
use hcache.ZSet.Race.{Pc, idle, adding, System, asked_add, Reach, here, next}
use hcache.ZSet.Race.Apart.{apart_agree}
use hcache.ZSet.Race.Same.{two, value_at_two_scores}
use hcache.Tests.Instances.{function_map}

value_at_two_scores_example :
    (z' : ZSet) × Reach (λ i. codes "v") (two (adding 1) (adding 2) ZSet.empty) (two idle idle z')
    × (HashSet.occurs (codes "v") (bucket 1 z'.score_to_values) ≡ 1)
    × (HashSet.occurs (codes "v") (bucket 2 z'.score_to_values) ≡ 1)
    × (score_of z' (codes "v") ≡ some 2)
unfolding ZSet.empty score_of
value_at_two_scores_example =
    value_at_two_scores (codes "v") ZSet.empty 1 2 (omega arith) empty-IsConsistent refl

-- A request for each of two values is under way.
abbrev at_value : Text → Pc → Pc → Text → Pc
at_value v pc other w = elim (text_discrete v w) [ yes p ↦ pc | no p ↦ other ]

abbrev nobody : System Text
nobody = record { pcs = λ v. idle; set = ZSet.empty }

abbrev one_asks : System Text
one_asks = record nobody { pcs = at_value (codes "a") (adding 3) idle }

one_asks-Reach : Reach (λ v. v) nobody one_asks
unfolding text_discrete
one_asks-Reach =
    next here (asked_add nobody one_asks (codes "a") 3 refl refl (λ j ne. ground arith) refl)

apart_agree_example :
    (BTreeMap.IsAscending one_asks.set.score_to_values)
    × ((s : ℕ)
        → HashSet.occurs (codes "b") (bucket s one_asks.set.score_to_values)
          ≡ at_score (score_of one_asks.set (codes "b")) s)
unfolding text_discrete
apart_agree_example = apart_agree (λ v. refl) empty-IsConsistent one_asks-Reach (codes "b") refl
