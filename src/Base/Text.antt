-- ===== src/Base/Text.antt =====
-- The order of texts by code points is asymmetric.
use Prim.Native.Nat.{ℕ, Ordering, compare as compare_ℕ}
use Prim.Native.Char.{code}
use Prim.Native.String.compare
use Prim.Native.String.{String, [], ◌∷◌, then, compare}
use text.Mathlib.Text.{is_lt}
use mathlib.Core.Path.{◌≡◌, refl, sym, ap, ◌∙◌}
use mathlib.Core.Bool.{true, false}
use native.Mathlib.Omega.{arith}

then-is_lt :
    (m n : ℕ) (x y : Ordering)
    → (is_lt x ≡ true → is_lt y ≡ false)
    → is_lt (then (compare_ℕ m n) x) ≡ true
    → is_lt (then (compare_ℕ n m) y) ≡ false
then-is_lt m n x y f h = ground arith

pub compare_asym : (s t : String) → is_lt (compare s t) ≡ true → is_lt (compare t s) ≡ false
compare_asym [] [] h = refl
compare_asym [] (d ∷ t) h = ap is_lt (compare.cons-nil d t)
compare_asym (c ∷ s) [] h = absurd (let k = sym (ap is_lt (compare.cons-nil c s)) ∙ h in cc (k))
compare_asym (c ∷ s) (d ∷ t) h =
    ap is_lt (compare.cons-cons d c t s)
    ∙ then-is_lt (code c) (code d) (compare s t) (compare t s) (compare_asym s t)
        (sym (ap is_lt (compare.cons-cons c d s t)) ∙ h)
