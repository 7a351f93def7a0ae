-- ===== src/Audit/Sealing/Head.antt =====
-- The chain head after its compare-and-set.
use agentledger_mvp_v.Base.{
  ℕ, ◌≡◌, refl, sym, ap, subst, String, true, false, Option, none, some, List, [], ◌∷◌, arith,
  Bool-cases, inl, inr, ◌==◌, ==_refl, str_eq_iff,
}
use agentledger_mvp_v.Jobs.Table.{update}
use agentledger_mvp_v.Audit.Store.{AuditChainHead, same_text, find_head}
use agentledger_mvp_v.Audit.Sealing.{is_head, set_head}

same_text_refl : (o : Option String) → same_text o o ≡ true
same_text_refl none = refl
same_text_refl (some t) = (str_eq_iff t t).1 refl

find_head-id :
    (organization_id : ℕ) (hs : List AuditChainHead) (head : AuditChainHead)
    → find_head organization_id hs ≡ some head
    → head.organization_id ≡ organization_id
find_head-id organization_id [] head e = absurd (cc)
find_head-id organization_id (h ∷ hs) head e = ground (arith, find_head-id organization_id hs head)

is_head_refl :
    (organization_id : ℕ) (head : AuditChainHead)
    → head.organization_id ≡ organization_id
    → is_head organization_id head head ≡ true
unfolding is_head
is_head_refl organization_id head e = ground (
  arith,
  same_text_refl head.last_block_hash,
  ==_refl head.last_block_sequence,
  ==_refl organization_id,
)

is_head_other :
    (organization_id : ℕ) (head h : AuditChainHead)
    → (h.organization_id == organization_id) ≡ false
    → is_head organization_id head h ≡ false
unfolding is_head
is_head_other organization_id head h e = ground arith

pub find_head-update :
    (organization_id sequence : ℕ) (text : String) (head : AuditChainHead)
    (hs : List AuditChainHead)
    → find_head organization_id hs ≡ some head
    → find_head organization_id (update (is_head organization_id head) (set_head sequence text) hs)
      ≡ some (set_head sequence text head)
unfolding update set_head
find_head-update organization_id sequence text head [] e = absurd (cc)
find_head-update organization_id sequence text head (h ∷ hs) e =
    elim (Bool-cases (h.organization_id == organization_id)) [
      | inl here ↦
          let same : h ≡ head = ground arith in
          let test : is_head organization_id head head ≡ true =
            is_head_refl organization_id head (find_head-id organization_id (h ∷ hs) head e) in
          let taken : is_head organization_id head h ≡ true =
            subst (λ x. is_head organization_id head x ≡ true) (sym same) test in
          rw (taken, here) (ap (λ x. some (set_head sequence text x)) same)
      | inr there ↦
          let kept : is_head organization_id head h ≡ false =
            is_head_other organization_id head h there in
          rw (kept, there) (find_head-update organization_id sequence text head hs (rw there at e))
    ]
