-- ===== src/Client/Flood/Again.antt =====
-- The batch of client/src/batch-forever.rs, once and once more.
use hcache.Base.{
  ℕ, zero, suc, ◌≡◌, ◌⊎◌, inl, inr, refl, sym, ◌∙◌, Option, some, List, [], ◌∷◌, ite, if_pos,
  if_neg, text_discrete, Text,
}
use hcache.Dto.{InsrtRequest}
use hcache.Storage.Views.{last_value}

-- What the requests have written once so many have returned.
abbrev pub stored : ℕ → List InsrtRequest → List InsrtRequest
stored zero chunk = []
stored (suc returned) chunk = chunk

-- A batch sets a key, or it does not.
last_value-cases :
    (k : Text) (kvs : List InsrtRequest)
    → ((old : Option Text) → last_value k kvs old ≡ old)
      ⊎ ((v : Text) × ((old : Option Text) → last_value k kvs old ≡ some v))
last_value-cases k [] = inl (λ old. refl)
last_value-cases k (kv ∷ kvs) = elim (last_value-cases k kvs) [
  | inr (v, sets) ↦ inr (v, λ old. sets (ite (text_discrete kv.key k) (some kv.value) old))
  | inl keeps ↦ elim (text_discrete kv.key k) [
    | yes p ↦ inr (
      kv.value,
      λ old.
          keeps (ite (text_discrete kv.key k) (some kv.value) old)
          ∙ if_pos (text_discrete kv.key k) p (some kv.value) old,
    )
    | no p ↦ inl (λ old.
        keeps (ite (text_discrete kv.key k) (some kv.value) old)
        ∙ if_neg (text_discrete kv.key k) p (some kv.value) old)
  ]
]

-- The same batch once more changes nothing.
last_value_again :
    (k : Text) (kvs : List InsrtRequest) (old : Option Text)
    → last_value k kvs (last_value k kvs old) ≡ last_value k kvs old
last_value_again k kvs old = elim (last_value-cases k kvs) [
  | inl keeps ↦ keeps (last_value k kvs old)
  | inr (v, sets) ↦ sets (last_value k kvs old) ∙ sym (sets old)
]

pub stored_again :
    (k : Text) (returned : ℕ) (kvs : List InsrtRequest) (old : Option Text)
    → last_value k kvs (last_value k (stored returned kvs) old) ≡ last_value k kvs old
stored_again k zero kvs old = refl
stored_again k (suc returned) kvs old = last_value_again k kvs old
