-- ===== src/ZSet/Race/Apart.antt =====
-- `zadd_memory` and `zrmv` (rust/src/storage.rs) on one set at once, no two of them for one value.
use hcache.Base.{
  ℕ, ◌≡◌, ◌≢◌, refl, sym, ap, ◌∙◌, ite, if_pos, if_neg, inl, inr, Option-cases, Option, none, some,
  List, [], arith, Text, text_discrete, ℕ_discrete,
}
use hcache.External.Cuckoo.{Cuckoo}
use hcache.Std.BTreeMap
use hcache.Std.HashSet
use hcache.ZSet.{ZSet, score_of, bucket, at_score, IsConsistent}
use hcache.ZSet.Add.{bucket-upsert, bucket-and_modify}
use hcache.ZSet.Race.{
  Pc, idle, adding, naming, indexing, moving, renaming, removing, clearing, move, read_score,
  cleared, System, Step, asked_add, asked_remove, moved, Reach, here, next,
}
use mathlib.Core.Path.{subst}
use Prim.Native.Nat.{max}

module _ ⦃c : Cuckoo⦄ where
  -- how often a value stands in the bucket of a score
  unfoldable pub stands : ZSet → Text → ℕ → ℕ
  unfolding HashSet.occurs bucket
  stands z v s = HashSet.occurs v (bucket s z.score_to_values)

  -- The value stands once in the bucket of the score that is given, and in no other.
  abbrev pub StandsAt : ZSet → Text → Option ℕ → Type 0
  StandsAt z v t = (s : ℕ) → stands z v s ≡ at_score t s

  -- What the two indexes say of a value while a request for it is under way.
  abbrev pub Local : Text → Pc → ZSet → Type 0
  Local v idle z = StandsAt z v (score_of z v)
  Local v (adding new) z = StandsAt z v (score_of z v)
  Local v (naming new) z = (score_of z v ≡ none) × StandsAt z v none
  Local v (indexing new) z = (score_of z v ≡ some new) × StandsAt z v none
  Local v (moving old new) z = (old ≢ new) × StandsAt z v (some old)
  Local v (renaming new) z = StandsAt z v (some new)
  Local v removing z = StandsAt z v (score_of z v)
  Local v (clearing score) z = (score_of z v ≡ none) × StandsAt z v (some score)

  -- A step works on its own value only.
  record Frame (v : Text) (z z' : ZSet) : Type 0 where
    pub scores : (j : Text) → v ≢ j → score_of z' j ≡ score_of z j
    pub stays : (j : Text) (s : ℕ) → v ≢ j → stands z' j s ≡ stands z j s

  module _ (z : ZSet) (a : BTreeMap.IsAscending z.score_to_values) (v : Text) where
    move-IsAscending : (pc : Pc) → BTreeMap.IsAscending (move v pc z).1.score_to_values
    unfolding move
    move-IsAscending idle = a
    move-IsAscending (adding new) = a
    move-IsAscending (naming new) = a
    move-IsAscending (indexing new) = BTreeMap.upsert-IsAscending new [] (HashSet.insert v) _ a
    move-IsAscending (moving old new) =
        BTreeMap.upsert-IsAscending new [] (HashSet.insert v) _
          (BTreeMap.and_modify-IsAscending old (HashSet.remove v) _ a)
    move-IsAscending (renaming new) = a
    move-IsAscending removing = a
    move-IsAscending (clearing score) = BTreeMap.and_modify-IsAscending score (HashSet.remove v) _ a

    upserts :
        (new : ℕ) (m : List (ℕ × List Text)) (j : Text) (s : ℕ)
        → BTreeMap.IsAscending m
        → HashSet.occurs j (bucket s (BTreeMap.upsert new [] (HashSet.insert v) m))
          ≡ ite
              (text_discrete v j)
              (ite
                (ℕ_discrete new s)
                (max 1 (HashSet.occurs j (bucket s m)))
                (HashSet.occurs j (bucket s m)))
              (HashSet.occurs j (bucket s m))
    upserts new m j s b = rw (bucket-upsert new s v j m b) (ground arith)

    move-Frame : (pc : Pc) → Frame v z (move v pc z).1
    unfolding move score_of stands
    move-Frame idle = record { scores = λ j ne. refl; stays = λ j s ne. refl }
    move-Frame (adding new) = record { scores = λ j ne. refl; stays = λ j s ne. refl }
    move-Frame (naming new) = record {
      scores = λ j ne. ground (arith, c.get-insert z.value_to_score v j new);
      stays = λ j s ne. refl;
    }
    move-Frame (indexing new) = record {
      scores = λ j ne. refl;
      stays = λ j s ne. ground (arith, upserts new z.score_to_values j s a);
    }
    move-Frame (moving old new) =
        let less = BTreeMap.and_modify old (HashSet.remove v) z.score_to_values in
        record {
          scores = λ j ne. refl;
          stays = λ j s ne. ground (
            arith,
            upserts new less j s (BTreeMap.and_modify-IsAscending old (HashSet.remove v) _ a),
            bucket-and_modify old s v j z.score_to_values,
          );
        }
    move-Frame (renaming new) = record {
      scores = λ j ne. ground (arith, c.get-insert z.value_to_score v j new);
      stays = λ j s ne. refl;
    }
    move-Frame removing = record {
      scores = λ j ne.
          ground
            (arith, c.remove_with_guard-eq z.value_to_score v, c.get-remove z.value_to_score v j);
      stays = λ j s ne. refl;
    }
    move-Frame (clearing score) = record {
      scores = λ j ne. refl;
      stays = λ j s ne. ground (arith, bucket-and_modify score s v j z.score_to_values);
    }

    move-Local : (pc : Pc) → Local v pc z → Local v (move v pc z).0 (move v pc z).1
    unfolding move score_of stands read_score cleared
    move-Local idle h = h
    move-Local (adding new) h = elim (Option-cases (c.get z.value_to_score v)) [
      | inl e ↦ rw e (e, λ s. ground (arith, h s))
      | inr (old, e) ↦ elim (ℕ_discrete old new) [
        | yes p ↦ rw (e, if_pos _ p) h
        | no p ↦ rw (e, if_neg _ p) (p, λ s. ground (arith, h s))
      ]
    ]
    move-Local (naming new) h = (ground (arith, c.get-insert z.value_to_score v v new), h.1)
    move-Local (indexing new) h =
        λ s. ground (arith, h.0, h.1 s, upserts new z.score_to_values v s a)
    move-Local (moving old new) h =
        let less = BTreeMap.and_modify old (HashSet.remove v) z.score_to_values in
        λ s. ground (
          arith,
          h.0,
          h.1 s,
          upserts new less v s (BTreeMap.and_modify-IsAscending old (HashSet.remove v) _ a),
          bucket-and_modify old s v v z.score_to_values,
        )
    move-Local (renaming new) h = λ s. ground (arith, h s, c.get-insert z.value_to_score v v new)
    move-Local removing h = elim (Option-cases (c.get z.value_to_score v)) [
      | inl e ↦
          rw (c.remove_with_guard-eq z.value_to_score v, e, cleared)
            (λ s. ground (arith, h s, c.get-remove z.value_to_score v v))
      | inr (old, e) ↦
          rw (c.remove_with_guard-eq z.value_to_score v, e, cleared)
            (ground (arith, c.get-remove z.value_to_score v v), λ s. ground (arith, h s))
    ]
    move-Local (clearing score) h =
        λ s. ground (arith, h.0, h.1 s, bucket-and_modify score s v v z.score_to_values)

  -- what is known of a value stays when another value is worked on
  Local-Frame :
      (v j : Text) (z z' : ZSet) → Frame v z z' → v ≢ j → (pc : Pc) → Local j pc z → Local j pc z'
  Local-Frame v j z z' f ne idle h =
      λ s. f.stays j s ne ∙ h s ∙ ap (λ t. at_score t s) (sym (f.scores j ne))
  Local-Frame v j z z' f ne (adding new) h =
      λ s. f.stays j s ne ∙ h s ∙ ap (λ t. at_score t s) (sym (f.scores j ne))
  Local-Frame v j z z' f ne (naming new) h = (f.scores j ne ∙ h.0, λ s. f.stays j s ne ∙ h.1 s)
  Local-Frame v j z z' f ne (indexing new) h = (f.scores j ne ∙ h.0, λ s. f.stays j s ne ∙ h.1 s)
  Local-Frame v j z z' f ne (moving old new) h = (h.0, λ s. f.stays j s ne ∙ h.1 s)
  Local-Frame v j z z' f ne (renaming new) h = λ s. f.stays j s ne ∙ h s
  Local-Frame v j z z' f ne removing h =
      λ s. f.stays j s ne ∙ h s ∙ ap (λ t. at_score t s) (sym (f.scores j ne))
  Local-Frame v j z z' f ne (clearing score) h = (f.scores j ne ∙ h.0, λ s. f.stays j s ne ∙ h.1 s)

  -- Of each value the indexes say what its request has come to.
  record IsApart (x : System Text) : Type 0 where
    pub ascending : BTreeMap.IsAscending x.set.score_to_values
    pub local : (v : Text) → Local v (x.pcs v) x.set

  asked-IsApart :
      (x y : System Text) (v : Text) (pc : Pc)
      → (Local v idle x.set → Local v pc x.set)
      → x.pcs v ≡ idle
      → y.pcs v ≡ pc
      → ((j : Text) → j ≢ v → y.pcs j ≡ x.pcs j)
      → y.set ≡ x.set
      → IsApart x
      → IsApart y
  asked-IsApart x y v pc start from to others set h = record {
    ascending = subst (λ z. BTreeMap.IsAscending z.score_to_values) (sym set) h.ascending;
    local = λ j. subst (Local j (y.pcs j)) (sym set) (elim (text_discrete j v) [
      | yes p ↦
          subst (λ i. Local i (y.pcs i) x.set) (sym p)
            (subst (λ q. Local v q x.set) (sym to)
              (start (subst (λ q. Local v q x.set) from (h.local v))))
      | no p ↦ subst (λ q. Local j q x.set) (sym (others j p)) (h.local j)
    ]);
  }

  Step-IsApart : {x y : System Text} → Step (λ v. v) x y → IsApart x → IsApart y
  Step-IsApart (asked_add x y v new from to others set) h =
      asked-IsApart x y v (adding new) (λ l. l) from to others set h
  Step-IsApart (asked_remove x y v from to others set) h =
      asked-IsApart x y v removing (λ l. l) from to others set h
  Step-IsApart (moved x y v to set others) h =
      let z' = (move v (x.pcs v) x.set).1 in
      record {
        ascending =
            subst (λ z. BTreeMap.IsAscending z.score_to_values) (sym set)
              (move-IsAscending x.set h.ascending v (x.pcs v));
        local = λ j. subst (Local j (y.pcs j)) (sym set) (elim (text_discrete j v) [
          | yes p ↦
              subst (λ i. Local i (y.pcs i) z') (sym p)
                (subst (λ q. Local v q z') (sym to)
                  (move-Local x.set h.ascending v (x.pcs v) (h.local v)))
          | no p ↦
              subst (λ q. Local j q z') (sym (others j p))
                (Local-Frame v j x.set z' (move-Frame x.set h.ascending v (x.pcs v))
                  (λ e. p (sym e)) (x.pcs j) (h.local j))
        ]);
      }

  Reach-IsApart : {x y : System Text} → Reach (λ v. v) x y → IsApart x → IsApart y
  Reach-IsApart here h = h
  Reach-IsApart (next steps step) h = Step-IsApart step (Reach-IsApart steps h)

  -- From a set whose indexes agree and that no request works on, after any steps of any zadds and
  -- zrmvs of it in any order, no two of them at once for one value: the buckets are in ascending
  -- order of scores, and a value that no request works on stands once in the bucket of its score
  -- and in no other, whatever the requests for other values have come to.
  pub apart_agree :
      {x y : System Text}
      → ((v : Text) → x.pcs v ≡ idle)
      → IsConsistent x.set
      → Reach (λ v. v) x y
      → (v : Text) → y.pcs v ≡ idle
      → (BTreeMap.IsAscending y.set.score_to_values)
        × ((s : ℕ)
            → HashSet.occurs v (bucket s y.set.score_to_values) ≡ at_score (score_of y.set v) s)
  unfolding stands
  apart_agree {x = x} {y = y} quiet h steps v e =
      let start : IsApart x = record {
        ascending = h.ascending;
        local = λ j. subst (λ q. Local j q x.set) (sym (quiet j)) (h.agree j);
      } in
      let end = Reach-IsApart steps start in
      (end.ascending, subst (λ q. Local v q y.set) e (end.local v))
