-- ===== src/Audit/Sealing/Counts.antt =====
-- How many events wait before and after a sealing, and the events of other tenants.
use Prim.Native.Nat.{min}
use agentledger_mvp_v.Base.{
  ℕ, suc, ◌+◌, ◌≤◌, ◌<◌, ◌≡◌, refl, sym, ap, ◌∙◌, String, Bool, true, false, not, List, [], ◌∷◌,
  length, arith, filter, sort_by, insert, Bool-cases, ◌⊎◌, inl, inr, ◌==◌, leb, length-take,
  head_or, drop, ==_iff,
}
use agentledger_mvp_v.Base.Result.{ok}
use agentledger_mvp_v.Jobs.Table.{update, rowcount}
use agentledger_mvp_v.Audit.Merkle.{Bytes}
use agentledger_mvp_v.Audit.Texts.{hex}
use agentledger_mvp_v.Audit.Store.{AuditEvent, Tables, occurs_before}
use agentledger_mvp_v.Audit.Sealing.{is_unsealed, unsealed, may_seal, set_sealed, seal_events}

-- An update of rows that count, to rows that do not.
rowcount-update :
    {A : Type 0} (p q : A → Bool) (f : A → A)
    → ((x : A) → q x ≡ true → p x ≡ true)
    → ((x : A) → q x ≡ true → p (f x) ≡ false)
    → (xs : List A) → rowcount q xs + rowcount p (update q f xs) ≡ rowcount p xs
unfolding rowcount update
rowcount-update p q f h k [] = refl
rowcount-update p q f h k (x ∷ xs) = ground (arith, h x, k x, rowcount-update p q f h k xs)

filter-update :
    {A : Type 0} (p q : A → Bool) (f : A → A)
    → ((x : A) → q x ≡ true → p x ≡ false)
    → ((x : A) → q x ≡ true → p (f x) ≡ false)
    → (xs : List A) → filter p (update q f xs) ≡ filter p xs
unfolding update
filter-update p q f h k [] = refl
filter-update p q f h k (x ∷ xs) = ground (arith, h x, k x, filter-update p q f h k xs)

length-insert :
    {A : Type 0} (b : A → A → Bool) (x : A) (xs : List A) → length (insert b x xs) ≡ suc (length xs)
length-insert b x [] = refl
length-insert b x (y ∷ ys) = ground (arith, length-insert b x ys)

length-sort_by : {A : Type 0} (b : A → A → Bool) (xs : List A) → length (sort_by b xs) ≡ length xs
length-sort_by b [] = refl
length-sort_by b (x ∷ xs) = length-insert b x (sort_by b xs) ∙ ap suc (length-sort_by b xs)

length-filter : {A : Type 0} (p : A → Bool) (xs : List A) → length (filter p xs) ≡ rowcount p xs
unfolding rowcount
length-filter p [] = refl
length-filter p (x ∷ xs) = ground (arith, length-filter p xs)

-- The events of a tenant that wait to be sealed.
abbrev pub waiting : ℕ → Tables → ℕ
waiting organization_id s = rowcount (is_unsealed organization_id) s.events

pub length-unsealed :
    (organization_id n : ℕ) (s : Tables)
    → length (unsealed organization_id n s) ≡ min n (waiting organization_id s)
unfolding unsealed
length-unsealed organization_id n s =
    let kept = filter (is_unsealed organization_id) s.events in
    omega (
      arith,
      length-take n (sort_by occurs_before kept),
      length-sort_by occurs_before kept,
      length-filter (is_unsealed organization_id) s.events,
    )

may_seal-is_unsealed :
    (organization_id id : ℕ) (e : AuditEvent)
    → may_seal organization_id id e ≡ true
    → is_unsealed organization_id e ≡ true
may_seal-is_unsealed organization_id id e h = ground arith

set_sealed-is_unsealed :
    (organization_id : ℕ) (text : String) (block_id position : ℕ) (e : AuditEvent)
    → is_unsealed organization_id (set_sealed text block_id position e) ≡ false
unfolding is_unsealed set_sealed
set_sealed-is_unsealed organization_id text block_id position e = ground arith

pub seal_events-waiting :
    (organization_id block_id position : ℕ) (rows : List AuditEvent) (hashes : List Bytes)
    (events events' : List AuditEvent)
    → seal_events organization_id block_id position rows hashes events ≡ ok events'
    → length rows + rowcount (is_unsealed organization_id) events'
      ≡ rowcount (is_unsealed organization_id) events
unfolding seal_events
seal_events-waiting organization_id block_id position [] hashes events events' h = ground arith
seal_events-waiting organization_id block_id position (row ∷ rows) hashes events events' h =
    let q = may_seal organization_id row.id in
    let f = set_sealed (hex (head_or [] hashes)) block_id position in
    elim (Bool-cases (rowcount q events == 1)) [
      | inr e ↦ absurd (ground arith)
      | inl e ↦
          let step =
            rowcount-update (is_unsealed organization_id) q f
              (may_seal-is_unsealed organization_id row.id)
              (λ x t.
                set_sealed-is_unsealed organization_id (hex (head_or [] hashes)) block_id position
                  x)
              events in
          let rest =
            seal_events-waiting organization_id block_id (suc position) rows (drop 1 hashes)
              (update q f events) events' (rw e at h) in
          let one : rowcount q events ≡ 1 = (==_iff _ _).0 e in omega (arith, step, rest, one)
    ]

-- Rows of other tenants.
abbrev pub is_foreign : ℕ → AuditEvent → Bool
is_foreign organization_id e = not (e.organization_id == organization_id)

may_seal-is_foreign :
    (organization_id id : ℕ) (text : String) (block_id position : ℕ) (e : AuditEvent)
    → may_seal organization_id id e ≡ true
    → (is_foreign organization_id e ≡ false)
      × (is_foreign organization_id (set_sealed text block_id position e) ≡ false)
unfolding is_unsealed set_sealed
may_seal-is_foreign organization_id id text block_id position e h = (ground arith, ground arith)

pub seal_events-is_foreign :
    (organization_id block_id position : ℕ) (rows : List AuditEvent) (hashes : List Bytes)
    (events events' : List AuditEvent)
    → seal_events organization_id block_id position rows hashes events ≡ ok events'
    → filter (is_foreign organization_id) events' ≡ filter (is_foreign organization_id) events
unfolding seal_events
seal_events-is_foreign organization_id block_id position [] hashes events events' h =
    let same : events ≡ events' = ground arith in
    ap (filter (is_foreign organization_id)) (sym same)
seal_events-is_foreign organization_id block_id position (row ∷ rows) hashes events events' h =
    let q = may_seal organization_id row.id in
    let text = hex (head_or [] hashes) in
    let f = set_sealed text block_id position in
    elim (Bool-cases (rowcount q events == 1)) [
      | inr e ↦ absurd (ground arith)
      | inl e ↦
          seal_events-is_foreign organization_id block_id (suc position) rows (drop 1 hashes)
            (update q f events) events' (rw e at h)
          ∙ filter-update (is_foreign organization_id) q f
              (λ x t. (may_seal-is_foreign organization_id row.id text block_id position x t).0)
              (λ x t. (may_seal-is_foreign organization_id row.id text block_id position x t).1)
              events
    ]

pub full_or_all :
    (n most left before : ℕ) → n + left ≡ before → n ≡ min most before → (n ≡ most) ⊎ (left ≡ 0)
full_or_all n most left before h e = elim (Bool-cases (leb most before)) [
  | inl a ↦ let le : most ≤ before = ground arith in inl (omega (arith, e, le))
  | inr a ↦ let lt : before < most = ground arith in inr (omega (arith, h, e, lt))
]
