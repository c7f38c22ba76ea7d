-- ===== src/Tests/Bodies.antt =====
-- A plain format of the bodies: a text is its length and its bytes, a list its length and its elements.
use hcache.Base.{
  ℕ, zero, suc, ◌%◌, ◌^◌, ◌<◌, ◌≡◌, refl, ap, Option, none, some, List, [], ◌∷◌, ◌++◌, arith, Text,
  length,
}
use hcache.Dto.{InsrtRequest, ScoreValue, ScoreRange, UpdateCluster}
use hcache.External.Serde.{Serde, AllSmall}
use mathlib.Core.Option

abbrev pub split_at : ℕ → Text → Text × Text
split_at zero t = ([], t)
split_at (suc n) [] = ([], [])
split_at (suc n) (b ∷ t) = let (first, rest) = split_at n t in (b ∷ first, rest)

split_at-append : (t rest : Text) → split_at (length t) (t ++ rest) ≡ (t, rest)
split_at-append [] rest = refl
split_at-append (b ∷ t) rest = rw (split_at-append t rest) refl

abbrev pub encode_text : Text → Text → Text
encode_text t rest = length t ∷ t ++ rest

abbrev pub decode_text : Text → Option (Text × Text)
decode_text [] = none
decode_text (n ∷ t) = some (split_at n t)

module _ {A : Type 0} where
  abbrev pub encode_each : (A → Text → Text) → List A → Text → Text
  encode_each encode [] rest = rest
  encode_each encode (a ∷ as') rest = encode a (encode_each encode as' rest)

  abbrev pub cons_to : A → Option (List A × Text) → Option (List A × Text)
  cons_to a none = none
  cons_to a (some (as', rest)) = some (a ∷ as', rest)

  abbrev pub decode_each : (Text → Option (A × Text)) → ℕ → Text → Option (List A × Text)
  decode_each decode zero t = some ([], t)
  decode_each decode (suc n) t = elim (decode t) [
    | none ↦ none
    | some (a, rest) ↦ cons_to a (decode_each decode n rest)
  ]

  abbrev pub All : (A → Type 0) → List A → Type 0
  All P [] = Unit
  All P (a ∷ as') = P a × All P as'

  decode_each-encode_each :
      (P : A → Type 0) (encode : A → Text → Text) (decode : Text → Option (A × Text))
      → ((a : A) (rest : Text) → P a → decode (encode a rest) ≡ some (a, rest))
      → (as' : List A) (rest : Text) → All P as'
      → decode_each decode (length as') (encode_each encode as' rest) ≡ some (as', rest)
  decode_each-encode_each P encode decode law [] rest all = refl
  decode_each-encode_each P encode decode law (a ∷ as') rest all =
      rw
        (
          law a (encode_each encode as' rest) all.0,
          decode_each-encode_each P encode decode law as' rest all.1,
        )
        refl

  abbrev pub decode_list : (Text → Option (A × Text)) → Text → Option (List A)
  decode_list decode [] = none
  decode_list decode (n ∷ t) = Option.map (λ p. p.0) (decode_each decode n t)

  pub decode_list-encode :
      (P : A → Type 0) (encode : A → Text → Text) (decode : Text → Option (A × Text))
      → ((a : A) (rest : Text) → P a → decode (encode a rest) ≡ some (a, rest))
      → (as' : List A) → All P as'
      → decode_list decode (length as' ∷ encode_each encode as' []) ≡ some as'
  decode_list-encode P encode decode law as' all =
      rw (decode_each-encode_each P encode decode law as' [] all) refl

abbrev pub encode_entry : InsrtRequest → Text → Text
encode_entry kv rest = encode_text kv.key (encode_text kv.value rest)

abbrev pub entry_of : Text → Option (Text × Text) → Option (InsrtRequest × Text)
entry_of key none = none
entry_of key (some (value, rest)) = some (record { key = key; value = value }, rest)

abbrev pub decode_entry : Text → Option (InsrtRequest × Text)
decode_entry t = elim (decode_text t) [
  | none ↦ none
  | some (key, rest) ↦ entry_of key (decode_text rest)
]

pub decode-encode_entry :
    (kv : InsrtRequest) (rest : Text)
    → Unit {0}
    → decode_entry (encode_entry kv rest) ≡ some (kv, rest)
decode-encode_entry kv rest u =
    rw (split_at-append kv.key (encode_text kv.value rest), split_at-append kv.value rest) refl

pub decode-encode_text :
    (t rest : Text) → Unit {0} → decode_text (encode_text t rest) ≡ some (t, rest)
decode-encode_text t rest u = rw (split_at-append t rest) refl

abbrev pub encode_score : ScoreValue → Text → Text
encode_score sv rest = sv.score ∷ encode_text sv.value rest

abbrev pub score_of : ℕ → Option (Text × Text) → Option (ScoreValue × Text)
score_of n none = none
score_of n (some (value, rest)) = some (record { score = n % 2 ^ 32; value = value }, rest)

abbrev pub decode_score : Text → Option (ScoreValue × Text)
decode_score [] = none
decode_score (n ∷ t) = score_of n (decode_text t)

pub decode-encode_score :
    (sv : ScoreValue) (rest : Text)
    → sv.score < 2 ^ 32
    → decode_score (encode_score sv rest) ≡ some (sv, rest)
decode-encode_score sv rest small =
    let e : sv.score % 2 ^ 32 ≡ sv.score = omega (arith, small) in
    rw (split_at-append sv.value rest) (ground (arith, e))

abbrev pub two_scores : Text → Option ScoreRange
two_scores (a ∷ b ∷ t) = some (record { min_score = a; max_score = b })
two_scores _ = none

abbrev pub two_hosts : Text → Option UpdateCluster
two_hosts [] = none
two_hosts (i ∷ t) = some (record { hosts = (0 ∷ []) ∷ (1 ∷ []) ∷ []; index = i })

pub All-units : {A : Type 0} (l : List A) → All (λ a. Unit {0}) l
All-units [] = tt
All-units (a ∷ l) = (tt, All-units l)

pub small_scores : (l : List ScoreValue) → AllSmall l → All (λ sv. sv.score < 2 ^ 32) l
small_scores [] all = tt
small_scores (sv ∷ l) all = (all.0, small_scores l all.1)

pub first-lt :
    (t : Text) (sv : ScoreValue)
    → Option.map (λ p. p.0) (decode_score t) ≡ some sv
    → sv.score < 2 ^ 32
first-lt [] sv e = cc
first-lt (n ∷ []) sv e = cc
first-lt (n ∷ m ∷ t) sv e = ground arith

instance abbrev pub plain_bodies : Serde
plain_bodies = record {
  read_insrt = λ t. Option.map (λ p. p.0) (decode_entry t);
  read_batch = decode_list decode_entry;
  read_keys = decode_list decode_text;
  read_score_value = λ t. Option.map (λ p. p.0) (decode_score t);
  read_score_range = two_scores;
  read_scores = decode_list decode_score;
  read_cluster = two_hosts;
  write_insrt = λ kv. encode_entry kv [];
  write_entries = λ l. length l ∷ encode_each encode_entry l [];
  write_keys = λ l. length l ∷ encode_each encode_text l [];
  write_score_value = λ sv. encode_score sv [];
  write_score_range = λ range. range.min_score ∷ range.max_score ∷ [];
  write_scores = λ l. length l ∷ encode_each encode_score l [];
  score-lt = first-lt;
  read-write_insrt = λ kv. ap (Option.map (λ p. p.0)) (decode-encode_entry kv [] tt);
  read-write_entries = λ l.
      decode_list-encode (λ a. Unit {0}) encode_entry decode_entry decode-encode_entry l
        (All-units l);
  read-write_keys = λ l.
      decode_list-encode (λ a. Unit {0}) encode_text decode_text decode-encode_text l (All-units l);
  read-write_score_value = λ sv small. ap (Option.map (λ p. p.0)) (decode-encode_score sv [] small);
  read-write_score_range = λ range lo hi. refl;
  read-write_scores = λ l all.
      decode_list-encode (λ sv. sv.score < 2 ^ 32) encode_score decode_score decode-encode_score l
        (small_scores l all);
}
