-- ===== src/Std/Repeat.antt =====
-- `str::repeat`.
use hcache.Base.{
  ℕ, zero, suc, ◌*◌, ◌≡◌, refl, ap, arith, [], ◌∷◌, ◌++◌, Text, length, length-append,
}
use hcache.Std.Split.{Lacks}

unfoldable pub repeat : ℕ → Text → Text
repeat zero t = []
repeat (suc n) t = t ++ repeat n t

pub length-repeat : (n : ℕ) (t : Text) → length (repeat n t) ≡ n * length t
unfolding repeat
length-repeat zero t = omega arith
length-repeat (suc n) t = grind (arith, length-append t (repeat n t), length-repeat n t)

append-inj : (a b x y : Text) → length a ≡ length b → (a ++ x) ≡ (b ++ y) → a ≡ b
append-inj [] [] x y same e = refl
append-inj [] (c ∷ b) x y same e = absurd (omega (arith, same))
append-inj (c ∷ a) [] x y same e = absurd (omega (arith, same))
append-inj (c ∷ a) (d ∷ b) x y same e = let rest = append-inj a b x y (omega (arith, same)) cc in cc

-- Sixteen times one text is sixteen times another only if they are the same.
pub repeat-inj : (a b : Text) → repeat 16 a ≡ repeat 16 b → a ≡ b
repeat-inj a b e =
    let same : length a ≡ length b =
      omega (arith, ap length e, length-repeat 16 a, length-repeat 16 b) in
    append-inj a b (repeat 15 a) (repeat 15 b) same (unfold repeat in e)

pub append-Lacks : (sep : ℕ) (a b : Text) → Lacks sep a → Lacks sep b → Lacks sep (a ++ b)
append-Lacks sep [] b h k = k
append-Lacks sep (x ∷ a) b h k = (h.0, append-Lacks sep a b h.1 k)

pub repeat-Lacks : (sep n : ℕ) (t : Text) → Lacks sep t → Lacks sep (repeat n t)
unfolding repeat
repeat-Lacks sep zero t h = tt
repeat-Lacks sep (suc n) t h = append-Lacks sep t (repeat n t) h (repeat-Lacks sep n t h)
