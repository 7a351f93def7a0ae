-- ===== src/Audit/Sealing/Oldest.antt =====
-- Which events a sealing takes: the oldest of those that wait.
use mathlib.Core.List.{Permᴰ}
use agentledger_mvp_v.Base.{
  sort_by-Permᴰ, ℕ, zero, suc, ◌<◌, ◌≡◌, refl, sym, subst, Bool, true, false, List, [], ◌∷◌, ◌++◌,
  All, All-imp, arith, ◌⊎◌, inl, inr, Bool-cases, filter, sort_by, insert, take, drop,
  take-append-drop, IsRow,
}
use agentledger_mvp_v.Audit.Store.{AuditEvent, Tables, occurs_before}
use agentledger_mvp_v.Audit.Sealing.{is_unsealed, unsealed}

-- `a` occurred before `b`, or at the same time with the smaller id.
abbrev pub Earlier : AuditEvent → AuditEvent → Type 0
Earlier a b = (a.occurred_at < b.occurred_at) ⊎ ((a.occurred_at ≡ b.occurred_at) × (a.id < b.id))

-- No event of the list is earlier than one in front of it.
abbrev pub Ordered : List AuditEvent → Type 0
Ordered [] = Unit
Ordered (e ∷ es) = All (λ x. ¬ Earlier x e) es × Ordered es

NotBefore : AuditEvent → AuditEvent → Type 0
NotBefore e x = occurs_before x e ≡ false

NotBefore-Earlier : (e x : AuditEvent) → NotBefore e x → ¬ Earlier x e
unfolding NotBefore occurs_before
NotBefore-Earlier e x h (inl lt) = absurd (ground (arith, h, lt))
NotBefore-Earlier e x h (inr (same, lt)) = absurd (ground (arith, h, same, lt))

occurs_before_asym : (a b : AuditEvent) → occurs_before a b ≡ true → occurs_before b a ≡ false
unfolding occurs_before
occurs_before_asym a b h = ground arith

occurs_before_late :
    (a b c : AuditEvent)
    → occurs_before a b ≡ false
    → occurs_before b c ≡ false
    → occurs_before a c ≡ false
unfolding occurs_before
occurs_before_late a b c h k = ground arith

abbrev Sorted : List AuditEvent → Type 0
Sorted [] = Unit
Sorted (e ∷ es) = All (NotBefore e) es × Sorted es

module _ {A : Type 0} (P : A → Type 0) (before : A → A → Bool) where
  All-insert : (x : A) (xs : List A) → P x → All P xs → All P (insert before x xs)
  All-insert x [] p h = (p, tt)
  All-insert x (y ∷ ys) p h = elim (Bool-cases (before y x)) [
    | inl e ↦ rw e (h.0, All-insert x ys p h.1)
    | inr e ↦ rw e (p, h)
  ]

  All-sort_by : (xs : List A) → All P xs → All P (sort_by before xs)
  All-sort_by [] h = tt
  All-sort_by (x ∷ xs) h = All-insert x (sort_by before xs) h.0 (All-sort_by xs h.1)

insert-Sorted :
    (e : AuditEvent) (es : List AuditEvent) → Sorted es → Sorted (insert occurs_before e es)
unfolding NotBefore
insert-Sorted e [] h = (tt, tt)
insert-Sorted e (x ∷ es) h = elim (Bool-cases (occurs_before x e)) [
  | inl a ↦ rw a (
    All-insert (NotBefore x) occurs_before e es (occurs_before_asym x e a) h.0,
    insert-Sorted e es h.1,
  )
  | inr a ↦ rw a ((a, All-imp (λ y b. occurs_before_late y x e b a) es h.0), h)
]

sort_by-Sorted : (es : List AuditEvent) → Sorted (sort_by occurs_before es)
sort_by-Sorted [] = tt
sort_by-Sorted (e ∷ es) = insert-Sorted e (sort_by occurs_before es) (sort_by-Sorted es)

Sorted-Ordered : (es : List AuditEvent) → Sorted es → Ordered es
Sorted-Ordered [] h = tt
Sorted-Ordered (e ∷ es) h = (All-imp (NotBefore-Earlier e) es h.0, Sorted-Ordered es h.1)

All-filter :
    {A : Type 0} (p : A → Bool) (xs ys : List A)
    → All (λ x. IsRow x ys) xs
    → All (λ x. IsRow x ys × (p x ≡ true)) (filter p xs)
All-filter p [] ys h = tt
All-filter p (x ∷ xs) ys h = elim (Bool-cases (p x)) [
  | inl e ↦ rw e ((h.0, e), All-filter p xs ys h.1)
  | inr e ↦ rw e (All-filter p xs ys h.1)
]

All-take : {A : Type 0} (P : A → Type 0) (n : ℕ) (xs : List A) → All P xs → All P (take n xs)
All-take P zero xs h = tt
All-take P (suc n) [] h = tt
All-take P (suc n) (x ∷ xs) h = (h.0, All-take P n xs h.1)

All-rows : {A : Type 0} (xs : List A) → All (λ x. IsRow x xs) xs
All-rows [] = tt
All-rows (x ∷ xs) = (inl refl, All-imp (λ y r. inr r) xs (All-rows xs))

-- The events that a sealing takes, before those that it leaves.
pub record Oldest (organization_id : ℕ) (events chosen : List AuditEvent) : Type 0 where
  pub left_out : List AuditEvent
  pub of_waiting : Permᴰ (chosen ++ left_out) (filter (is_unsealed organization_id) events)
  pub oldest_first : Ordered (chosen ++ left_out)

pub unsealed-Oldest :
    (organization_id n : ℕ) (s : Tables)
    → Oldest organization_id s.events (unsealed organization_id n s)
unfolding unsealed
unsealed-Oldest organization_id n s =
    let waits = filter (is_unsealed organization_id) s.events in
    let sorted = sort_by occurs_before waits in
    let whole = sym (take-append-drop n sorted) in
    record {
      left_out = drop n sorted;
      of_waiting = subst (λ l. Permᴰ l waits) whole (sort_by-Permᴰ occurs_before waits);
      oldest_first = subst Ordered whole (Sorted-Ordered sorted (sort_by-Sorted waits));
    }

pub unsealed-rows :
    (organization_id n : ℕ) (s : Tables)
    → All
        (λ e. IsRow e s.events × (is_unsealed organization_id e ≡ true))
        (unsealed organization_id n s)
unfolding unsealed
unsealed-rows organization_id n s =
    let waits = filter (is_unsealed organization_id) s.events in
    All-take _ n (sort_by occurs_before waits) (
      All-sort_by _ occurs_before waits
        (All-filter (is_unsealed organization_id) s.events s.events (All-rows s.events)))
