-- ===== src/Client/Lengths.antt =====
-- Lists of entries that have the same entries are equally long.
use hcache.Base.{suc, ◌+◌, ◌<◌, ◌≡◌, refl, ite, List, [], ◌∷◌, arith, Text, text_discrete, length}
use hcache.Dto.{InsrtRequest}
use hcache.Handlers.Listed.{count_entry}

-- Lists that have the same entries equally often are equally long.
drop_one : Text → Text → List InsrtRequest → List InsrtRequest
drop_one k v [] = []
drop_one k v (x ∷ xs) =
    let rest = drop_one k v xs in
    ite (text_discrete x.key k) (ite (text_discrete x.value v) xs (x ∷ rest)) (x ∷ rest)

length-drop_one :
    (k v : Text) (l : List InsrtRequest)
    → 0 < count_entry k v l
    → length l ≡ suc (length (drop_one k v l))
unfolding drop_one
length-drop_one k v [] found = absurd (omega (arith, found))
length-drop_one k v (x ∷ xs) found = elim (text_discrete x.key k) [
  | yes p ↦ elim (text_discrete x.value v) [
    | yes q ↦ ground arith
    | no q ↦ ground (arith, length-drop_one k v xs (ground (arith, found)))
  ]
  | no p ↦ ground (arith, length-drop_one k v xs (ground (arith, found)))
]

count_entry-drop_one :
    (k v j u : Text) (l : List InsrtRequest)
    → 0 < count_entry k v l
    → count_entry j u l
      ≡ ite (text_discrete k j) (ite (text_discrete v u) 1 0) 0 + count_entry j u (drop_one k v l)
unfolding drop_one
count_entry-drop_one k v j u [] found = absurd (omega (arith, found))
count_entry-drop_one k v j u (x ∷ xs) found = elim (text_discrete x.key k) [
  | yes p ↦ elim (text_discrete x.value v) [
    | yes q ↦ ground arith
    | no q ↦ ground (arith, count_entry-drop_one k v j u xs (ground (arith, found)))
  ]
  | no p ↦ ground (arith, count_entry-drop_one k v j u xs (ground (arith, found)))
]

pub length-count_entry :
    (l l' : List InsrtRequest)
    → ((k v : Text) → count_entry k v l ≡ count_entry k v l')
    → length l ≡ length l'
length-count_entry [] [] same = refl
length-count_entry [] (y ∷ l') same = absurd (ground (arith, same y.key y.value))
length-count_entry (x ∷ l) l' same =
    let found : 0 < count_entry x.key x.value l' = ground (arith, same x.key x.value) in
    let rest =
      length-count_entry l (drop_one x.key x.value l')
        (λ k v. omega (arith, same k v, count_entry-drop_one x.key x.value k v l' found)) in
    omega (arith, rest, length-drop_one x.key x.value l' found)
