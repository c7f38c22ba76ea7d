-- ===== src/Std/Decimal.antt =====
-- `format!("{}", i)` of an unsigned integer.
use hcache.Base.{
  ℕ, zero, suc, ◌+◌, ◌-◌, ◌*◌, ◌/◌, ◌%◌, ◌<◌, ◌≤◌, ◌≡◌, refl, sym, ap, ◌∙◌, inl, inr, Bool-cases,
  [], ◌∷◌, ◌++◌, arith, Text, ltb, length, length-append, if◌then◌else◌,
}

-- The digits, at most as many as the fuel.
unfoldable pub digits : ℕ → ℕ → Text
digits zero n = []
digits (suc fuel) n =
    let rest = digits fuel (n / 10) in (if ltb n 10 then [] else rest) ++ (0x30 + n % 10) ∷ []

-- A number has no more digits than one more than itself.
unfoldable pub decimal : ℕ → Text
unfolding digits
decimal n = digits (suc n) n

-- the number that digits stand for
read_digits : ℕ → Text → ℕ
read_digits acc [] = acc
read_digits acc (d ∷ t) = read_digits (acc * 10 + (d - 0x30)) t

read_digits-append :
    (t : Text) (acc d : ℕ) → read_digits acc (t ++ d ∷ []) ≡ read_digits acc t * 10 + (d - 0x30)
unfolding read_digits
read_digits-append [] acc d = refl
read_digits-append (b ∷ t) acc d = read_digits-append t (acc * 10 + (b - 0x30)) d

read_digits-digits : (fuel n : ℕ) → n < fuel → read_digits 0 (digits fuel n) ≡ n
unfolding digits read_digits
read_digits-digits zero n lt = absurd (omega (arith, lt))
read_digits-digits (suc fuel) n lt = elim (Bool-cases (ltb n 10)) [
  | inl e ↦ rw e (ground arith)
  | inr e ↦
      let small : n / 10 < fuel = ground arith in
      let rest = read_digits-digits fuel (n / 10) small in
      rw e (read_digits-append (digits fuel (n / 10)) 0 (0x30 + n % 10) ∙ omega (arith, rest))
]

length-digits : (fuel n : ℕ) → length (digits fuel n) ≤ fuel
unfolding digits
length-digits zero n = omega arith
length-digits (suc fuel) n = elim (Bool-cases (ltb n 10)) [
  | inl e ↦ rw e (omega arith)
  | inr e ↦ rw e (
      omega (
        arith,
        length-append (digits fuel (n / 10)) ((0x30 + n % 10) ∷ []),
        length-digits fuel (n / 10),
      ))
]

-- Two numbers with the same digits are the same.
pub decimal-inj : (m n : ℕ) → decimal m ≡ decimal n → m ≡ n
unfolding decimal
decimal-inj m n e =
    sym (read_digits-digits (suc m) m (omega arith))
    ∙ ap (read_digits 0) e
    ∙ read_digits-digits (suc n) n (omega arith)

pub length-decimal : (n : ℕ) → length (decimal n) ≤ suc n
unfolding decimal
length-decimal n = length-digits (suc n) n
