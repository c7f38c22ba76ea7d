-- ===== src/Client/Ranked.antt =====
-- client/src/client.rs, `main`: the values that it numbers in a sorted set, and the lists that /zrange
-- then gives.
use hcache.Base.{
  ℕ, zero, suc, ◌+◌, ◌≤◌, ◌<◌, ◌≡◌, ◌⊎◌, refl, sym, ap, ◌∙◌, ite, if_pos, if_neg, inl, inr, Option,
  none, some, List, [], ◌∷◌, arith, Text, text_discrete, ℕ_discrete, length,
}
use hcache.Dto.{ScoreValue}
use hcache.Std.Decimal.{decimal, decimal-inj}
use hcache.ZSet.{at_score}
use hcache.ZSet.Range.{count_item, AscendsFrom}
use mathlib.Core.Path.{subst}
use hcache.Client.Spec.{Scores, score_in, scored}

-- The set after a zadd of each number from `i` on.
unfoldable pub ranked : (ℕ → ℕ) → ℕ → ℕ → Option Scores → Option Scores
ranked score i zero o = o
ranked score i (suc left) o = ranked score (suc i) left (some (scored (decimal i) (score i) o))

unfoldable pub items_from : (ℕ → ℕ) → ℕ → ℕ → List ScoreValue
items_from score i zero = []
items_from score i (suc left) =
    record { score = score i; value = decimal i } ∷ items_from score (suc i) left

-- an item that stands among the numbered ones
pub count_item-items_from :
    (score : ℕ → ℕ) (s : ℕ) (v : Text) (i left : ℕ)
    → 0 < count_item s v (items_from score i left)
    → (j : ℕ) × (i ≤ j) × (j < i + left) × (score j ≡ s) × (decimal j ≡ v)
unfolding items_from
count_item-items_from score s v i zero found = absurd (omega (arith, found))
count_item-items_from score s v i (suc left) found = elim (ℕ_discrete (score i) s) [
  | yes p ↦ elim (text_discrete (decimal i) v) [
    | yes q ↦ (i, omega arith, omega arith, p, q)
    | no q ↦
        let (j, lo, hi, e, f) =
          count_item-items_from score s v (suc i) left (ground (arith, found)) in
        (j, omega (arith, lo), omega (arith, hi), e, f)
  ]
  | no p ↦
      let (j, lo, hi, e, f) =
        count_item-items_from score s v (suc i) left (ground (arith, found)) in
      (j, omega (arith, lo), omega (arith, hi), e, f)
]

-- a number that is passed already keeps its score
ranked-before :
    (score : ℕ → ℕ) (k i left : ℕ) (o : Option Scores)
    → k < i
    → score_in (ranked score i left o) (decimal k) ≡ score_in o (decimal k)
unfolding ranked
ranked-before score k i zero o lt = refl
ranked-before score k i (suc left) o lt = elim (text_discrete (decimal i) (decimal k)) [
  | yes p ↦ absurd (omega (arith, lt, decimal-inj i k p))
  | no p ↦ ground (
    arith,
    ranked-before score k (suc i) left (some (scored (decimal i) (score i) o)) (omega (arith, lt)),
  )
]

items_from-before :
    (score : ℕ → ℕ) (s k i left : ℕ)
    → k < i
    → count_item s (decimal k) (items_from score i left) ≡ 0
items_from-before score s k i left lt =
    elim (ℕ_discrete (count_item s (decimal k) (items_from score i left)) 0) [
      | yes p ↦ p
      | no p ↦
          let (j, lo, hi, e, f) =
            count_item-items_from score s (decimal k) i left (omega (arith, p)) in
          absurd (omega (arith, lt, lo, decimal-inj j k f))
    ]

-- Where the set has a number only of those that are added, it has then what the list says.
pub ranked-items_from :
    (score : ℕ → ℕ) (s : ℕ) (v : Text) (i left : ℕ) (o : Option Scores)
    → ((score_in o v ≡ none) ⊎ ((j : ℕ) × (i ≤ j) × (j < i + left) × (decimal j ≡ v)))
    → at_score (score_in (ranked score i left o) v) s ≡ count_item s v (items_from score i left)
unfolding ranked items_from
ranked-items_from score s v i zero o (inl e) = ground (arith, e)
ranked-items_from score s v i zero o (inr (j, lo, hi, e)) = absurd (omega (arith, lo, hi))
ranked-items_from score s v i (suc left) o within = elim (text_discrete (decimal i) v) [
  | yes p ↦
      let o' : Option Scores = some (scored (decimal i) (score i) o) in
      let here : score_in (ranked score (suc i) left o') v ≡ score_in o' v =
        ap (λ x. score_in (ranked score (suc i) left o') x) (sym p)
        ∙ ranked-before score i (suc i) left o' (omega arith)
        ∙ ap (score_in o') p in
      let none_later : count_item s v (items_from score (suc i) left) ≡ 0 =
        ap (λ x. count_item s x (items_from score (suc i) left)) (sym p)
        ∙ items_from-before score s i (suc i) left (omega arith) in
      ground (arith, here, none_later)
  | no p ↦
      let o' : Option Scores = some (scored (decimal i) (score i) o) in
      elim within [
        | inl e ↦
            ground (arith, ranked-items_from score s v (suc i) left o' (inl (ground (arith, e))))
        | inr (j, lo, hi, e) ↦
            let later : suc i ≤ j = elim (ℕ_discrete i j) [
              | yes q ↦ absurd (p (ap decimal q ∙ e))
              | no q ↦ omega (arith, lo, q)
            ] in
            ground (
              arith,
              ranked-items_from score s v (suc i) left o' (inr (j, later, omega (arith, hi), e)),
            )
      ]
]

-- Two lists in ascending order with the same items have the same scores.
unfoldable pub scores : List ScoreValue → List ℕ
scores [] = []
scores (x ∷ l) = x.score ∷ scores l

take_out : ℕ → Text → List ScoreValue → List ScoreValue
take_out s v [] = []
take_out s v (x ∷ l) =
    let rest = take_out s v l in
    ite (ℕ_discrete x.score s) (ite (text_discrete x.value v) l (x ∷ rest)) (x ∷ rest)

count_item-take_out :
    (s : ℕ) (v : Text) (t : ℕ) (u : Text) (l : List ScoreValue)
    → 0 < count_item s v l
    → count_item t u l
      ≡ ite (ℕ_discrete s t) (ite (text_discrete v u) 1 0) 0 + count_item t u (take_out s v l)
unfolding take_out
count_item-take_out s v t u [] found = absurd (omega (arith, found))
count_item-take_out s v t u (x ∷ l) found = elim (ℕ_discrete x.score s) [
  | yes p ↦ elim (text_discrete x.value v) [
    | yes q ↦ ground arith
    | no q ↦ ground (arith, count_item-take_out s v t u l (ground (arith, found)))
  ]
  | no p ↦ ground (arith, count_item-take_out s v t u l (ground (arith, found)))
]

count_item-above :
    (b s : ℕ) (v : Text) (l : List ScoreValue) → AscendsFrom b l → 0 < count_item s v l → b ≤ s
count_item-above b s v [] asc found = absurd (omega (arith, found))
count_item-above b s v (x ∷ l) asc found = elim (ℕ_discrete x.score s) [
  | yes p ↦ omega (arith, asc.0, p)
  | no p ↦ omega (arith, asc.0, count_item-above x.score s v l asc.1 (ground (arith, found)))
]

-- an item with the least score
take_out-least :
    (s : ℕ) (v : Text) (l : List ScoreValue)
    → AscendsFrom s l
    → 0 < count_item s v l
    → (scores l ≡ s ∷ scores (take_out s v l)) × AscendsFrom s (take_out s v l)
unfolding scores take_out
take_out-least s v [] asc found = absurd (omega (arith, found))
take_out-least s v (x ∷ l) (le, asc) found = elim (ℕ_discrete x.score s) [
  | yes p ↦ elim (text_discrete x.value v) [
    | yes q ↦
        rw (if_pos _ p, if_pos _ q) (ap (λ n. n ∷ scores l) p, subst (λ b. AscendsFrom b l) p asc)
    | no q ↦
        let (e, asc') =
          take_out-least s v l (subst (λ b. AscendsFrom b l) p asc) (ground (arith, found)) in
        rw (if_pos _ p, if_neg _ q)
          (
            ap (λ n. n ∷ scores l) p
                ∙ ap (λ m. s ∷ m) (e ∙ ap (λ n. n ∷ scores (take_out s v l)) (sym p)),
            (le, subst (λ b. AscendsFrom b (take_out s v l)) (sym p) asc'),
          )
  ]
  | no p ↦
      let low = count_item-above x.score s v l asc (ground (arith, found)) in
      absurd (omega (arith, p, le, low))
]

pub scores_unique :
    (b : ℕ) (l l' : List ScoreValue)
    → AscendsFrom b l
    → AscendsFrom b l'
    → ((s : ℕ) (v : Text) → count_item s v l ≡ count_item s v l')
    → scores l ≡ scores l'
unfolding scores
scores_unique b [] [] asc asc' same = refl
scores_unique b [] (y ∷ l') asc asc' same = absurd (ground (arith, same y.score y.value))
scores_unique b (x ∷ l) [] asc asc' same = absurd (ground (arith, same x.score x.value))
scores_unique b (x ∷ l) (y ∷ l') asc asc' same =
    let found : 0 < count_item x.score x.value (y ∷ l') = ground (arith, same x.score x.value) in
    let found' : 0 < count_item y.score y.value (x ∷ l) = ground (arith, same y.score y.value) in
    let below = count_item-above x.score y.score y.value (x ∷ l) (omega arith, asc.1) found' in
    let (e, rest) = take_out-least x.score x.value (y ∷ l') (below, asc'.1) found in
    ap (λ m. x.score ∷ m)
      (scores_unique x.score l (take_out x.score x.value (y ∷ l')) asc.1 rest
        (λ s v. omega (arith, same s v, count_item-take_out x.score x.value s v (y ∷ l') found)))
    ∙ sym e

pub scores-length : (l : List ScoreValue) → length (scores l) ≡ length l
unfolding scores
scores-length [] = refl
scores-length (x ∷ l) = ap suc (scores-length l)

pub length-items_from : (score : ℕ → ℕ) (i left : ℕ) → length (items_from score i left) ≡ left
unfolding items_from
length-items_from score i zero = refl
length-items_from score i (suc left) = ap suc (length-items_from score (suc i) left)

pub items_from-ascends :
    (score : ℕ → ℕ) (b i left : ℕ)
    → ((j : ℕ) → score j ≤ score (suc j))
    → (b ≤ score i)
    → AscendsFrom b (items_from score i left)
unfolding items_from
items_from-ascends score b i zero up le = tt
items_from-ascends score b i (suc left) up le =
    (le, items_from-ascends score (score i) (suc i) left up (up i))
