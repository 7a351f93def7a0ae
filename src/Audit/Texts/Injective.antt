-- ===== src/Audit/Texts/Injective.antt =====
-- Two byte strings with one hexadecimal text are equal.
use Prim.Native.String.{count}
use text.Mathlib.TextLemmas.{append_inj}
use agentledger_mvp_v.Base.{
  ℕ, zero, suc, ◌/◌, ◌%◌, ◌<◌, ◌≡◌, refl, sym, ap, ◌∙◌, String, List, [], ◌∷◌, All, arith, str_eq,
  if◌then◌else◌, Bool, true, ◌&&◌, ◌==◌, ==_iff, Bool-cases, inl, inr,
}
use agentledger_mvp_v.Audit.Merkle.{Bytes}
use agentledger_mvp_v.Audit.Texts.{digits, nth, nth-one, digits-one, hex, count-hex}

-- The place of a digit in a list of digits.
abbrev pub index : List String → String → ℕ
index [] s = 0
index (d ∷ ds) s = let rest = index ds s in if str_eq d s then 0 else suc rest

-- All digits below a number are found at their place.
abbrev pub found_below : ℕ → Bool
found_below zero = true
found_below (suc k) = (index digits (nth digits k) == k) && found_below k

found_below-index : (k n : ℕ) → found_below k ≡ true → n < k → index digits (nth digits n) ≡ n
found_below-index zero n h l = absurd (omega arith)
found_below-index (suc k) n h l = elim (Bool-cases (n == k)) [
  | inl e ↦ let same : n ≡ k = (==_iff n k).0 e in rw same ((==_iff _ _).0 (ground arith))
  | inr e ↦ found_below-index k n (ground arith) (ground arith)
]

pub index-nth : (n : ℕ) → n < 16 → index digits (nth digits n) ≡ n
index-nth n = found_below-index 16 n refl

pub nth-injective : (m n : ℕ) → m < 16 → n < 16 → nth digits m ≡ nth digits n → m ≡ n
nth-injective m n h k e = sym (index-nth m h) ∙ ap (index digits) e ∙ index-nth n k

pub hex-injective :
    (a b : Bytes) → All (λ x. x < 256) a → All (λ x. x < 256) b → hex a ≡ hex b → a ≡ b
unfolding hex
hex-injective [] [] h k e = refl
hex-injective [] (y ∷ b) h k e = absurd (omega (arith, ap count e, count-hex (y ∷ b), count-hex []))
hex-injective (x ∷ a) [] h k e = absurd (omega (arith, ap count e, count-hex (x ∷ a), count-hex []))
hex-injective (x ∷ a) (y ∷ b) h k e =
    let (high, e1) = append_inj e (one_each (x / 16) (y / 16)) in
    let (low, e2) = append_inj e1 (one_each (x % 16) (y % 16)) in
    let same : x ≡ y = omega (
      arith,
      h.0,
      k.0,
      nth-injective (x / 16) (y / 16) (omega (arith, h.0)) (omega (arith, k.0)) high,
      nth-injective (x % 16) (y % 16) (omega arith) (omega arith) low,
    ) in
    cc (same, hex-injective a b h.1 k.1 e2)
  where
    one_each : (m n : ℕ) → count (nth digits m) ≡ count (nth digits n)
    one_each m n = nth-one digits m digits-one ∙ sym (nth-one digits n digits-one)
