-- ===== src/Client/Plain.antt =====
-- Paths of client/src/client.rs: texts of plain bytes, none of them a slash.
use hcache.Base.{
  ℕ, zero, suc, ◌+◌, ◌*◌, ◌/◌, ◌%◌, ◌^◌, ◌≤◌, ◌<◌, ◌≡◌, refl, true, inl, inr, Bool-cases, ltb, [],
  ◌∷◌, ◌++◌, arith, Text, length, length-append,
}
use hcache.External.Uri.{all_plain, is_plain}
use hcache.Std.Decimal.{digits, decimal}
use hcache.Std.Split.{Lacks}
use hcache.Std.Repeat.{repeat, append-Lacks}
use native.Mathlib.Numerals.{unary_clauses}

pub all_plain-append :
    (a b : Text) → all_plain a ≡ true → all_plain b ≡ true → all_plain (a ++ b) ≡ true
unfolding all_plain
all_plain-append [] b p q = q
all_plain-append (x ∷ a) b p q = elim (Bool-cases (is_plain x)) [
  | inl e ↦ rw e (all_plain-append a b (ground (arith, p, e)) q)
  | inr e ↦ absurd (ground (arith, p, e))
]

digit-plain : (d : ℕ) → d < 10 → is_plain (0x30 + d) ≡ true
unfolding is_plain
digit-plain d lt = ground (arith, lt)

digits-plain : (fuel n : ℕ) → all_plain (digits fuel n) ≡ true
unfolding digits all_plain
digits-plain zero n = refl
digits-plain (suc fuel) n =
    let last : all_plain ((0x30 + n % 10) ∷ []) ≡ true =
      rw (digit-plain (n % 10) (omega arith)) refl in
    elim (Bool-cases (ltb n 10)) [
      | inl e ↦ rw e last
      | inr e ↦ rw e (
          all_plain-append (digits fuel (n / 10)) ((0x30 + n % 10) ∷ [])
            (digits-plain fuel (n / 10)) last)
    ]

pub decimal-plain : (n : ℕ) → all_plain (decimal n) ≡ true
unfolding decimal
decimal-plain n = digits-plain (suc n) n

pub repeat-plain : (n : ℕ) (t : Text) → all_plain t ≡ true → all_plain (repeat n t) ≡ true
unfolding repeat
repeat-plain zero t p = unfold all_plain in refl
repeat-plain (suc n) t p = all_plain-append t (repeat n t) p (repeat-plain n t p)

digits-Lacks : (fuel n : ℕ) → Lacks 0x2f (digits fuel n)
unfolding digits
digits-Lacks zero n = tt
digits-Lacks (suc fuel) n = elim (Bool-cases (ltb n 10)) [
  | inl e ↦ rw e (omega arith)
  | inr e ↦ rw e (
      append-Lacks 0x2f (digits fuel (n / 10)) ((0x30 + n % 10) ∷ []) (digits-Lacks fuel (n / 10))
        (omega arith))
]

pub decimal-Lacks : (n : ℕ) → Lacks 0x2f (decimal n)
unfolding decimal
decimal-Lacks n = digits-Lacks (suc n) n

pow_step : (k : ℕ) → 10 ^ suc k ≡ 10 * 10 ^ k
pow_step k = simp unary_clauses (omega arith)

-- a number below 10 ^ k has at most k digits
digits-le : (fuel k n : ℕ) → 0 < k → n < 10 ^ k → length (digits fuel n) ≤ k
unfolding digits
digits-le zero k n some_digit lt = omega arith
digits-le (suc fuel) zero n some_digit lt = absurd (omega (arith, some_digit))
digits-le (suc fuel) (suc zero) n some_digit lt =
    let small : ltb n 10 ≡ true = ground (arith, lt) in rw small (omega arith)
digits-le (suc fuel) (suc (suc k)) n some_digit lt =
    let pow : 10 ^ suc (suc k) ≡ 10 * 10 ^ suc k = pow_step (suc k) in
    let rest = digits-le fuel (suc k) (n / 10) (omega arith) (omega (arith, lt, pow)) in
    elim (Bool-cases (ltb n 10)) [
      | inl e ↦ rw e (omega arith)
      | inr e ↦
          rw e (omega (arith, length-append (digits fuel (n / 10)) ((0x30 + n % 10) ∷ []), rest))
    ]

pub length-decimal-u32 : (n : ℕ) → n < 2 ^ 32 → length (decimal n) ≤ 10
unfolding decimal
length-decimal-u32 n lt = digits-le (suc n) 10 n (omega arith) (omega (arith, lt))
