-- ===== src/Audit/Sealing/Written.antt =====
-- What the updates of a sealing write: each event of the block gets its leaf hash, the block and its
-- position, and nothing else changes.
use agentledger_mvp_v.Base.{
  ℕ, suc, ◌≤◌, ◌≡◌, refl, sym, ap, subst, ◌∙◌, String, Bool, true, false, ◌&&◌, some, List, [], ◌∷◌,
  All, All-imp, All-both, ==_refl, arith, ◌⊎◌, inl, inr, Bool-cases, IsRow, head_or, drop, ◌==◌,
  ==_iff,
}
use agentledger_mvp_v.Base.Result.{ok, ok-injective}
use agentledger_mvp_v.Jobs.Table.{update, rowcount}
use agentledger_mvp_v.Audit.Merkle.{Bytes}
use agentledger_mvp_v.Audit.Texts.{hex}
use agentledger_mvp_v.Audit.Store.{AuditEvent}
use agentledger_mvp_v.Audit.Sealing.{is_unsealed, may_seal, set_sealed, seal_events}

-- `z` is the event `y` with this metadata of the sealing.
pub record SealedAs (node_hash : String) (block_id position : ℕ) (y z : AuditEvent) : Type 0 where
  pub has_hash : z.node_hash ≡ some node_hash
  pub in_block : z.batch_block_id ≡ some block_id
  pub at_place : z.batch_position ≡ some position
  pub same_event :
      (z.id ≡ y.id)
      × (z.organization_id ≡ y.organization_id)
      × (z.occurred_at ≡ y.occurred_at)
      × (z.actor_user_id ≡ y.actor_user_id)
      × (z.event_type ≡ y.event_type)
      × (z.entity_type ≡ y.entity_type)
      × (z.entity_id ≡ y.entity_id)
      × (z.event_data ≡ y.event_data)

set_sealed-SealedAs :
    (text : String) (block_id position : ℕ) (e : AuditEvent)
    → SealedAs text block_id position e (set_sealed text block_id position e)
unfolding set_sealed
set_sealed-SealedAs text block_id position e = record {
  has_hash = refl;
  in_block = refl;
  at_place = refl;
  same_event = (refl, refl, refl, refl, refl, refl, refl, refl);
}

-- The events of a block, from `position` on, stand in the table with their hashes and places.
abbrev pub EachSealed : ℕ → ℕ → List AuditEvent → List Bytes → List AuditEvent → Type 0
EachSealed block_id position [] hashes events = Unit
EachSealed block_id position (row ∷ rows) hashes events =
    ((z : AuditEvent) × IsRow z events × SealedAs (hex (head_or [] hashes)) block_id position row z)
    × EachSealed block_id (suc position) rows (drop 1 hashes) events

-- Row by row: as it was, or an event that waited and is in the block now.
abbrev pub OnlySealed : ℕ → ℕ → List AuditEvent → List AuditEvent → Type 0
OnlySealed organization_id block_id [] [] = Unit
OnlySealed organization_id block_id (y ∷ ys) (z ∷ zs) =
    ((z ≡ y)
      ⊎ ((is_unsealed organization_id y ≡ true)
          × ((text : String) × (position : ℕ) × SealedAs text block_id position y z)))
    × OnlySealed organization_id block_id ys zs
OnlySealed organization_id block_id _ _ = ⊥

SealedAs-waits :
    (organization_id : ℕ) (text : String) (block_id position : ℕ) (y z : AuditEvent)
    → SealedAs text block_id position y z
    → is_unsealed organization_id z ≡ false
unfolding is_unsealed
SealedAs-waits organization_id text block_id position y z k =
    let b = k.in_block in rw (is_unsealed, b) (and_false (z.organization_id == organization_id))
  where
    and_false : (b : Bool) → (b && false) ≡ false
    and_false b = ground arith

OnlySealed-refl :
    (organization_id block_id : ℕ) (es : List AuditEvent)
    → OnlySealed organization_id block_id es es
OnlySealed-refl organization_id block_id [] = tt
OnlySealed-refl organization_id block_id (e ∷ es) =
    (inl refl, OnlySealed-refl organization_id block_id es)

OnlySealed-trans :
    (organization_id block_id : ℕ) (xs ys zs : List AuditEvent)
    → OnlySealed organization_id block_id xs ys
    → OnlySealed organization_id block_id ys zs
    → OnlySealed organization_id block_id xs zs
OnlySealed-trans o b [] [] [] h k = tt
OnlySealed-trans o b [] [] (z ∷ zs) h k = absurd (k)
OnlySealed-trans o b [] (y ∷ ys) zs h k = absurd (h)
OnlySealed-trans o b (x ∷ xs) [] zs h k = absurd (h)
OnlySealed-trans o b (x ∷ xs) (y ∷ ys) [] h k = absurd (k)
OnlySealed-trans o b (x ∷ xs) (y ∷ ys) (z ∷ zs) h k = (
  elim k.0 [
    | inl same ↦
        subst
          (λ w.
            (w ≡ x)
            ⊎ ((is_unsealed o x ≡ true)
                × ((text : String) × (position : ℕ) × SealedAs text b position x w)))
          (sym same) h.0
    | inr (waits, _) ↦ elim h.0 [
      | inl same ↦
          subst
            (λ w.
              (z ≡ w)
              ⊎ ((is_unsealed o w ≡ true)
                  × ((text : String) × (position : ℕ) × SealedAs text b position w z)))
            same k.0
      | inr (_, (text, position, s)) ↦
          absurd (let q = sym (SealedAs-waits o text b position x y s) ∙ waits in cc (q))
    ]
  ],
  OnlySealed-trans o b xs ys zs h.1 k.1,
)

waits-may_seal :
    (organization_id id : ℕ) (e : AuditEvent)
    → may_seal organization_id id e ≡ true
    → is_unsealed organization_id e ≡ true
waits-may_seal organization_id id e h = ground arith

update-OnlySealed :
    (organization_id id block_id position : ℕ) (text : String) (es : List AuditEvent)
    → OnlySealed organization_id block_id es
        (update (may_seal organization_id id) (set_sealed text block_id position) es)
unfolding update
update-OnlySealed o id b position text [] = tt
update-OnlySealed o id b position text (e ∷ es) =
    let rest = update-OnlySealed o id b position text es in
    elim (Bool-cases (may_seal o id e)) [
      | inl m ↦ rw m (
        inr (waits-may_seal o id e m, (text, position, set_sealed-SealedAs text b position e)),
        rest,
      )
      | inr m ↦ rw m (inl refl, rest)
    ]

may_seal-id :
    (organization_id id : ℕ) (e : AuditEvent) → may_seal organization_id id e ≡ true → e.id ≡ id
may_seal-id organization_id id e h = (==_iff e.id id).0 (ground arith)

module _ {A : Type 0} (p : A → Bool) (f : A → A) where
  IsRow-update_hit : (x : A) (xs : List A) → IsRow x xs → p x ≡ true → IsRow (f x) (update p f xs)
  unfolding update
  IsRow-update_hit x [] r h = absurd (r)
  IsRow-update_hit x (y ∷ ys) (inl e) h = let here = ap p (sym e) ∙ h in rw here (inl (ap f e))
  IsRow-update_hit x (y ∷ ys) (inr r) h = inr (IsRow-update_hit x ys r h)

  IsRow-update_miss : (x : A) (xs : List A) → IsRow x xs → p x ≡ false → IsRow x (update p f xs)
  unfolding update
  IsRow-update_miss x [] r h = absurd (r)
  IsRow-update_miss x (y ∷ ys) (inl e) h = let here = ap p (sym e) ∙ h in rw here (inl e)
  IsRow-update_miss x (y ∷ ys) (inr r) h = inr (IsRow-update_miss x ys r h)

rowcount-update_le :
    {A : Type 0} (p q : A → Bool) (f : A → A)
    → ((x : A) → p (f x) ≡ false)
    → (xs : List A) → rowcount p (update q f xs) ≤ rowcount p xs
unfolding rowcount update
rowcount-update_le p q f h [] = omega arith
rowcount-update_le p q f h (x ∷ xs) = ground (arith, h x, rowcount-update_le p q f h xs)

rowcount-update_none :
    {A : Type 0} (p : A → Bool) (f : A → A)
    → ((x : A) → p (f x) ≡ false)
    → (xs : List A) → rowcount p (update p f xs) ≡ 0
unfolding rowcount update
rowcount-update_none p f h [] = refl
rowcount-update_none p f h (x ∷ xs) = ground (arith, h x, rowcount-update_none p f h xs)

may_seal-set_sealed :
    (organization_id id : ℕ) (text : String) (block_id position : ℕ) (e : AuditEvent)
    → may_seal organization_id id (set_sealed text block_id position e) ≡ false
unfolding is_unsealed set_sealed
may_seal-set_sealed organization_id id text block_id position e = ground arith

-- One turn of the loop.
seal_events-turn :
    (organization_id block_id position : ℕ) (row : AuditEvent) (rows : List AuditEvent)
    (hashes : List Bytes) (events events' : List AuditEvent)
    → seal_events organization_id block_id position (row ∷ rows) hashes events ≡ ok events'
    → (rowcount (may_seal organization_id row.id) events ≡ 1)
      × (seal_events organization_id block_id (suc position) rows (drop 1 hashes) (
            update
              (may_seal organization_id row.id)
              (set_sealed (hex (head_or [] hashes)) block_id position)
              events)
          ≡ ok events')
unfolding seal_events
seal_events-turn o b position row rows hashes events events' h =
    elim (Bool-cases (rowcount (may_seal o row.id) events == 1)) [
      | inr e ↦ absurd (ground arith)
      | inl e ↦ ((==_iff _ _).0 e, rw e at h)
    ]

-- Every row of the block was there to be updated.
seal_events-counts :
    (organization_id block_id position : ℕ) (rows : List AuditEvent) (hashes : List Bytes)
    (events events' : List AuditEvent)
    → seal_events organization_id block_id position rows hashes events ≡ ok events'
    → All (λ r. 1 ≤ rowcount (may_seal organization_id r.id) events) rows
seal_events-counts o b position [] hashes events events' h = tt
seal_events-counts o b position (row ∷ rows) hashes events events' h =
    let (one, rest) = seal_events-turn o b position row rows hashes events events' h in
    let f = set_sealed (hex (head_or [] hashes)) b position in
    (
      omega (arith, one),
      All-imp
          (λ r le.
            let fewer =
              rowcount-update_le (may_seal o r.id) (may_seal o row.id) f
                (may_seal-set_sealed o r.id (hex (head_or [] hashes)) b position) events in
            omega (arith, le, fewer))
          rows (seal_events-counts o b (suc position) rows (drop 1 hashes) _ events' rest),
    )

-- What is sealed stays as it is.
seal_events-keeps :
    (organization_id block_id position : ℕ) (rows : List AuditEvent) (hashes : List Bytes)
    (events events' : List AuditEvent) (z : AuditEvent)
    → seal_events organization_id block_id position rows hashes events ≡ ok events'
    → is_unsealed organization_id z ≡ false
    → IsRow z events
    → IsRow z events'
unfolding seal_events
seal_events-keeps o b position [] hashes events events' z h sealed r =
    subst (IsRow z) (ok-injective _ _ h) r
seal_events-keeps o b position (row ∷ rows) hashes events events' z h sealed r =
    let (one, rest) = seal_events-turn o b position row rows hashes events events' h in
    let miss : may_seal o row.id z ≡ false = ground (arith, sealed) in
    seal_events-keeps o b (suc position) rows (drop 1 hashes) _ events' z rest sealed (
      IsRow-update_miss (may_seal o row.id) (set_sealed (hex (head_or [] hashes)) b position) z
        events r miss)

pub seal_events-OnlySealed :
    (organization_id block_id position : ℕ) (rows : List AuditEvent) (hashes : List Bytes)
    (events events' : List AuditEvent)
    → seal_events organization_id block_id position rows hashes events ≡ ok events'
    → OnlySealed organization_id block_id events events'
unfolding seal_events
seal_events-OnlySealed o b position [] hashes events events' h =
    subst (OnlySealed o b events) (ok-injective _ _ h) (OnlySealed-refl o b events)
seal_events-OnlySealed o b position (row ∷ rows) hashes events events' h =
    let (one, rest) = seal_events-turn o b position row rows hashes events events' h in
    OnlySealed-trans o b events _ events'
      (update-OnlySealed o row.id b position (hex (head_or [] hashes)) events)
      (seal_events-OnlySealed o b (suc position) rows (drop 1 hashes) _ events' rest)

pub seal_events-EachSealed :
    (organization_id block_id position : ℕ) (rows : List AuditEvent) (hashes : List Bytes)
    (events events' : List AuditEvent)
    → seal_events organization_id block_id position rows hashes events ≡ ok events'
    → All (λ e. IsRow e events × (is_unsealed organization_id e ≡ true)) rows
    → EachSealed block_id position rows hashes events'
seal_events-EachSealed o b position [] hashes events events' h there = tt
seal_events-EachSealed o b position (row ∷ rows) hashes events events' h there =
    let (one, rest) = seal_events-turn o b position row rows hashes events events' h in
    let text = hex (head_or [] hashes) in
    let f = set_sealed text b position in
    let hit : may_seal o row.id row ≡ true = rw (==_refl row.id) there.0.1 in
    let made = set_sealed-SealedAs text b position row in
    (
      (
        f row,
        seal_events-keeps o b (suc position) rows (drop 1 hashes) _ events' (f row) rest
            (SealedAs-waits o text b position row (f row) made)
            (IsRow-update_hit (may_seal o row.id) f row events there.0.0 hit),
        made,
      ),
      seal_events-EachSealed o b (suc position) rows (drop 1 hashes) _ events' rest (
          All-both
            (λ r k le. elim (Bool-cases (may_seal o row.id r)) [
              | inr m ↦ (IsRow-update_miss (may_seal o row.id) f r events k.0 m, k.1)
              | inl m ↦
                  let same = may_seal-id o row.id r m in
                  let none_left =
                    rowcount-update_none (may_seal o row.id) f
                      (may_seal-set_sealed o row.id text b position) events in
                  let le' =
                    subst (λ i. 1 ≤ rowcount (may_seal o i) (update (may_seal o row.id) f events))
                      same le in
                  absurd (omega (arith, le', none_left))
            ])
            rows there.1
            (seal_events-counts o b (suc position) rows (drop 1 hashes) _ events' rest)),
    )
