-- ===== src/Base/Lists.antt =====
-- Lists measured by native numbers, under the library's names, and predicates on lists.
use Prim.Native.Nat.{ℕ, zero, suc, ◌+◌, ◌-◌, min}
use mathlib.Core.Path.{◌≡◌, refl, sym, ap, subst}
use mathlib.Core.Logic.{◌⊎◌, inl, inr}
use mathlib.Core.List.{List, [], ◌∷◌, ◌++◌, map, Permᴰ}
use mathlib.Core.List.Permᴰ
use mathlib.Core.Bool.{Bool}
use native.Mathlib.Omega.{arith}
use agentledger_mvp_v.Base.Tests.{Bool-cases, if◌then◌else◌}

-- A byte string is the list of its bytes.
abbrev pub Bytes : Type 0
Bytes = List ℕ

module _ {ℓ} {A : Type ℓ} where
  abbrev pub length : List A → ℕ
  length [] = 0
  length (x ∷ xs) = suc (length xs)

  abbrev pub take : ℕ → List A → List A
  take zero xs = []
  take (suc n) [] = []
  take (suc n) (x ∷ xs) = x ∷ take n xs

  abbrev pub drop : ℕ → List A → List A
  drop zero xs = xs
  drop (suc n) [] = []
  drop (suc n) (x ∷ xs) = drop n xs

  pub length-append : (xs ys : List A) → length (xs ++ ys) ≡ length xs + length ys
  length-append [] ys = omega arith
  length-append (x ∷ xs) ys = omega (arith, length-append xs ys)

  pub take-append-drop : (n : ℕ) (xs : List A) → take n xs ++ drop n xs ≡ xs
  take-append-drop zero xs = refl
  take-append-drop (suc n) [] = refl
  take-append-drop (suc n) (x ∷ xs) = ap (λ l. x ∷ l) (take-append-drop n xs)

  pub length-take : (n : ℕ) (xs : List A) → length (take n xs) ≡ min n (length xs)
  length-take zero xs = omega arith
  length-take (suc n) [] = omega arith
  length-take (suc n) (x ∷ xs) = omega (arith, length-take n xs)

  pub length-drop : (n : ℕ) (xs : List A) → length (drop n xs) ≡ length xs - n
  length-drop zero xs = omega arith
  length-drop (suc n) [] = omega arith
  length-drop (suc n) (x ∷ xs) = omega (arith, length-drop n xs)

  -- What a list lacks in front of a given index: `xs[0]` and `xs[-1]`.
  abbrev pub head_or : A → List A → A
  head_or d [] = d
  head_or d (x ∷ xs) = x

  abbrev pub last_or : A → List A → A
  last_or d [] = d
  last_or d (x ∷ xs) = last_or x xs

pub List-cases {ℓ} :
    {A : Type ℓ} (xs : List A) → (xs ≡ []) ⊎ ((x : A) × ((ys : List A) × (xs ≡ x ∷ ys)))
List-cases [] = inl refl
List-cases (x ∷ xs) = inr (x, (xs, refl))

pub length-map {ℓ κ} :
    {A : Type ℓ} {B : Type κ} (f : A → B) (xs : List A) → length (map f xs) ≡ length xs
length-map f [] = refl
length-map f (x ∷ xs) = ap suc (length-map f xs)

module _ {ℓ} {A : Type ℓ} where
  abbrev pub filter : (A → Bool) → List A → List A
  filter p [] = []
  filter p (x ∷ xs) = let rest = filter p xs in if p x then x ∷ rest else rest

  -- `ORDER BY` and `sorted`: a stable sort, where `before` is the strict order of the keys.
  abbrev pub insert : (A → A → Bool) → A → List A → List A
  insert before x [] = x ∷ []
  insert before x (y ∷ ys) =
      let rest = insert before x ys in if before y x then y ∷ rest else x ∷ y ∷ ys

  abbrev pub sort_by : (A → A → Bool) → List A → List A
  sort_by before [] = []
  sort_by before (x ∷ xs) = insert before x (sort_by before xs)

-- `P` holds of every member.
abbrev pub All {ℓ κ} : {A : Type ℓ} → (A → Type κ) → List A → Type κ
All P [] = Unit
All P (x ∷ xs) = P x × All P xs

pub All-imp {ℓ κ μ} :
    {A : Type ℓ} {P : A → Type κ} {Q : A → Type μ} (f : (x : A) → P x → Q x) (xs : List A)
    → All P xs
    → All Q xs
All-imp f [] h = tt
All-imp f (x ∷ xs) h = (f x h.0, All-imp f xs h.1)

-- A member, and what may stand in its place.
pub All-replace {ℓ κ} :
    {A : Type ℓ} (P : A → Type κ) (front : List A) (x : A) (back : List A)
    → All P (front ++ (x ∷ back))
    → P x × ((y : A) → P y → All P (front ++ (y ∷ back)))
All-replace P [] x back h = (h.0, (λ y p. (p, h.1)))
All-replace P (z ∷ front) x back h =
    let (there, put) = All-replace P front x back h.1 in (there, (λ y p. (h.0, put y p)))

pub All-dropped {ℓ κ} :
    {A : Type ℓ} (P : A → Type κ) (front : List A) (x : A) (back : List A)
    → All P (front ++ (x ∷ back))
    → All P (front ++ back)
All-dropped P [] x back h = h.1
All-dropped P (z ∷ front) x back h = (h.0, All-dropped P front x back h.1)

pub All-both {ℓ κ μ ν} :
    {A : Type ℓ} {P : A → Type κ} {Q : A → Type μ} {R : A → Type ν} (f : (x : A) → P x → Q x → R x)
    (xs : List A)
    → All P xs
    → All Q xs
    → All R xs
All-both f [] h k = tt
All-both f (x ∷ xs) h k = (f x h.0 k.0, All-both f xs h.1 k.1)

-- `x` is a row of a table.
abbrev pub IsRow : {A : Type 0} → A → List A → Type 0
IsRow x [] = ⊥
IsRow x (y ∷ ys) = (x ≡ y) ⊎ IsRow x ys

pub All-row {κ} : {A : Type 0} (P : A → Type κ) (x : A) (xs : List A) → IsRow x xs → All P xs → P x
All-row P x [] r h = absurd (r)
All-row P x (y ∷ ys) (inl e) h = subst P (sym e) h.0
All-row P x (y ∷ ys) (inr r) h = All-row P x ys r h.1

module _ {A : Type 0} where
  pub IsRow-append_left : (x : A) (xs ys : List A) → IsRow x xs → IsRow x (xs ++ ys)
  IsRow-append_left x [] ys r = absurd (r)
  IsRow-append_left x (z ∷ xs) ys (inl e) = inl e
  IsRow-append_left x (z ∷ xs) ys (inr r) = inr (IsRow-append_left x xs ys r)

  pub IsRow-append_right : (x : A) (xs ys : List A) → IsRow x ys → IsRow x (xs ++ ys)
  IsRow-append_right x [] ys r = r
  IsRow-append_right x (z ∷ xs) ys r = inr (IsRow-append_right x xs ys r)

  pub IsRow-append_split : (x : A) (xs ys : List A) → IsRow x (xs ++ ys) → IsRow x xs ⊎ IsRow x ys
  IsRow-append_split x [] ys r = inr r
  IsRow-append_split x (z ∷ xs) ys (inl e) = inl (inl e)
  IsRow-append_split x (z ∷ xs) ys (inr r) = elim (IsRow-append_split x xs ys r) [
    | inl s ↦ inl (inr s)
    | inr s ↦ inr s
  ]

-- A sort permutes.
module _ {A : Type 0} (before : A → A → Bool) where
  insert-Permᴰ : (x : A) (xs : List A) → Permᴰ (insert before x xs) (x ∷ xs)
  insert-Permᴰ x [] = Permᴰ.refl (x ∷ [])
  insert-Permᴰ x (y ∷ ys) = elim (Bool-cases (before y x)) [
    | inl e ↦ rw e (Permᴰ.trans (Permᴰ.cons refl (insert-Permᴰ x ys)) (Permᴰ.swap refl refl))
    | inr e ↦ rw e (Permᴰ.refl (x ∷ y ∷ ys))
  ]

  pub sort_by-Permᴰ : (xs : List A) → Permᴰ (sort_by before xs) xs
  sort_by-Permᴰ [] = Permᴰ.nil
  sort_by-Permᴰ (x ∷ xs) =
      Permᴰ.trans (insert-Permᴰ x (sort_by before xs)) (Permᴰ.cons refl (sort_by-Permᴰ xs))
