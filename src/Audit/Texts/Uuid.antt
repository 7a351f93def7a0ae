-- ===== src/Audit/Texts/Uuid.antt =====
-- The text of a UUID has 36 characters and determines its 128-bit number.
use Prim.Native.String.{◌++◌, count}
use text.Mathlib.TextLemmas.{append_inj, length-append}
use agentledger_mvp_v.Base.{
  ℕ, zero, suc, ◌+◌, ◌/◌, ◌%◌, ◌^◌, ◌<◌, ◌≡◌, refl, sym, ◌∙◌, String, arith,
}
use agentledger_mvp_v.Audit.Texts.{digits, nth, nth-one, digits-one, padded, uuid_text}
use agentledger_mvp_v.Audit.Texts.Injective.{nth-injective}

-- Equal texts of the same number of hexadecimal digits have equal digits, one by one.
abbrev SameDigits : ℕ → ℕ → ℕ → Type 0
SameDigits zero m n = Unit
SameDigits (suc w) m n = (m % 16 ≡ n % 16) × SameDigits w (m / 16) (n / 16)

count-padded : (w n : ℕ) → count (padded 16 w n) ≡ w
count-padded zero n = refl
count-padded (suc w) n = omega (
  arith,
  length-append (padded 16 w (n / 16)) (nth digits (n % 16)),
  count-padded w (n / 16),
  nth-one digits (n % 16) digits-one,
)

padded-SameDigits : (w m n : ℕ) → padded 16 w m ≡ padded 16 w n → SameDigits w m n
padded-SameDigits zero m n e = tt
padded-SameDigits (suc w) m n e =
    let (front, back) = append_inj e (count-padded w (m / 16) ∙ sym (count-padded w (n / 16))) in
    (
      nth-injective (m % 16) (n % 16) (omega arith) (omega arith) back,
      padded-SameDigits w (m / 16) (n / 16) front,
    )

same_four : (m n : ℕ) → SameDigits 4 m n → m % 65536 ≡ n % 65536
same_four m n h = omega (arith, h.0, h.1.0, h.1.1.0, h.1.1.1.0)

-- The groups of four digits of a longer one.
same_eight : (m n : ℕ) → SameDigits 8 m n → m % 4294967296 ≡ n % 4294967296
same_eight m n h = omega (
  arith,
  same_four m n (h.0, (h.1.0, (h.1.1.0, (h.1.1.1.0, tt)))),
  same_four (m / 16 / 16 / 16 / 16) (n / 16 / 16 / 16 / 16) h.1.1.1.1,
)

same_twelve : (m n : ℕ) → SameDigits 12 m n → m % 281474976710656 ≡ n % 281474976710656
same_twelve m n h = omega (
  arith,
  same_four m n (h.0, (h.1.0, (h.1.1.0, (h.1.1.1.0, tt)))),
  same_eight (m / 16 / 16 / 16 / 16) (n / 16 / 16 / 16 / 16) h.1.1.1.1,
)

-- A group of digits and the hyphen after it.
same_group :
    (w m n : ℕ) {s t : String}
    → padded 16 w m ++ ("-" ++ s) ≡ padded 16 w n ++ ("-" ++ t)
    → SameDigits w m n × (s ≡ t)
same_group w m n e =
    let (group, rest) = append_inj e (count-padded w m ∙ sym (count-padded w n)) in
    let (hyphen, tail) = append_inj rest refl in (padded-SameDigits w m n group, tail)

from_groups :
    (u v : ℕ)
    → u < 2 ^ 128
    → v < 2 ^ 128
    → (u / 2 ^ 96) % 4294967296 ≡ (v / 2 ^ 96) % 4294967296
    → (u / 2 ^ 80) % 65536 ≡ (v / 2 ^ 80) % 65536
    → (u / 2 ^ 64) % 65536 ≡ (v / 2 ^ 64) % 65536
    → (u / 2 ^ 48) % 65536 ≡ (v / 2 ^ 48) % 65536
    → u % 281474976710656 ≡ v % 281474976710656
    → u ≡ v
from_groups u v h k a b c d e = omega arith

count-group :
    (w m : ℕ) (s : String) (k : ℕ) → count s ≡ k → count (padded 16 w m ++ ("-" ++ s)) ≡ w + (1 + k)
count-group w m s k h =
    omega
      (arith, length-append (padded 16 w m) ("-" ++ s), length-append "-" s, count-padded w m, h)

pub count-uuid_text : (u : ℕ) → count (uuid_text u) ≡ 36
unfolding uuid_text
count-uuid_text u = count-group 8 (u / 2 ^ 96) _ 27 (
    count-group 4 (u / 2 ^ 80) _ 22
      (count-group 4 (u / 2 ^ 64) _ 17 (count-group 4 (u / 2 ^ 48) _ 12 (count-padded 12 u))))

pub uuid_text-injective : (u v : ℕ) → u < 2 ^ 128 → v < 2 ^ 128 → uuid_text u ≡ uuid_text v → u ≡ v
unfolding uuid_text
uuid_text-injective u v h k e =
    let (a, e1) = same_group 8 (u / 2 ^ 96) (v / 2 ^ 96) e in
    let (b, e2) = same_group 4 (u / 2 ^ 80) (v / 2 ^ 80) e1 in
    let (c, e3) = same_group 4 (u / 2 ^ 64) (v / 2 ^ 64) e2 in
    let (d, e4) = same_group 4 (u / 2 ^ 48) (v / 2 ^ 48) e3 in
    from_groups u v h k (same_eight _ _ a) (same_four _ _ b) (same_four _ _ c) (same_four _ _ d)
      (same_twelve u v (padded-SameDigits 12 u v e4))
