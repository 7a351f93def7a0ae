-- ===== src/Policies/Evaluation.antt =====
-- What the evaluation of a set of rules returns: one result for each rule, in the order of precedence,
-- with its effects exactly where all its conditions hold.
use mathlib.Core.List.{Permᴰ}
use agentledger_mvp_v.Base.Text.{compare_asym}
use agentledger_mvp_v.Base.{
  sort_by-Permᴰ, sort_by, insert, ◌≡◌, sym, subst, ◌∙◌, String, true, false, List, [], ◌∷◌, All,
  arith, ◌⊎◌, inl, inr, Bool-cases, str_eq, str_eq_iff,
}
use agentledger_mvp_v.Base.Result.{ok, Result-cases}
use agentledger_mvp_v.Policies.Effect.{not_applicable, none_severity}
use agentledger_mvp_v.Policies.Engine.{
  Condition, Context, Rule, RuleEvaluation, PolicyEvaluation, evaluate_condition, all_hold,
  evaluate_rule, evaluate_all, evaluate_policies, rule_before,
}

-- The conditions up to one that does not hold.
abbrev pub FirstFails : Context → List Condition → Type 0
FirstFails context [] = ⊥
FirstFails context (k ∷ ks) =
    (evaluate_condition k context ≡ ok false)
    ⊎ ((evaluate_condition k context ≡ ok true) × FirstFails context ks)

-- The result of a rule: `matches` where all conditions hold, `differs` where one does not.
pub data Verdict (context : Context) (r : Rule) (e : RuleEvaluation) : Type 0 where
  matches :
      All (λ k. evaluate_condition k context ≡ ok true) r.conditions
      → e.result ≡ r.result_on_match
      → e.severity ≡ r.severity
      → e.effects ≡ r.effects
      → Verdict context r e
  differs :
      FirstFails context r.conditions
      → e.result ≡ not_applicable
      → e.severity ≡ none_severity
      → e.effects ≡ []
      → Verdict context r e

-- A result for each rule, at its place.
abbrev pub Results : Context → List Rule → List RuleEvaluation → Type 0
Results context [] [] = Unit
Results context (r ∷ rs) (e ∷ es) =
    ((e.rule_id ≡ r.rule_id) × ((e.rule_version ≡ r.version) × Verdict context r e))
    × Results context rs es
Results context _ _ = ⊥

-- No rule goes before the one in front of it.
abbrev pub InPrecedence : List Rule → Type 0
InPrecedence [] = Unit
InPrecedence (r ∷ []) = Unit
InPrecedence (r ∷ q ∷ rs) = (rule_before q r ≡ false) × InPrecedence (q ∷ rs)

all_hold-true :
    (ks : List Condition) (context : Context)
    → all_hold ks context ≡ ok true
    → All (λ k. evaluate_condition k context ≡ ok true) ks
unfolding all_hold
all_hold-true [] context h = tt
all_hold-true (k ∷ ks) context h = elim (Result-cases (evaluate_condition k context)) [
  | inr (x, q) ↦ absurd (ground arith)
  | inl (false, q) ↦ absurd (ground arith)
  | inl (true, q) ↦ (q, all_hold-true ks context (rw q at h))
]

all_hold-false :
    (ks : List Condition) (context : Context)
    → all_hold ks context ≡ ok false
    → FirstFails context ks
unfolding all_hold
all_hold-false [] context h = absurd (cc)
all_hold-false (k ∷ ks) context h = elim (Result-cases (evaluate_condition k context)) [
  | inr (x, q) ↦ absurd (ground arith)
  | inl (false, q) ↦ inl q
  | inl (true, q) ↦ inr (q, all_hold-false ks context (rw q at h))
]

evaluate_rule-Verdict :
    (r : Rule) (context : Context) (e : RuleEvaluation)
    → evaluate_rule r context ≡ ok e
    → (e.rule_id ≡ r.rule_id) × ((e.rule_version ≡ r.version) × Verdict context r e)
unfolding evaluate_rule
evaluate_rule-Verdict r context e h = elim (Result-cases (all_hold r.conditions context)) [
  | inr (x, q) ↦ absurd (ground arith)
  | inl (true, q) ↦ (
    ground arith,
    (
      ground arith,
      matches (all_hold-true r.conditions context q) (ground arith) (ground arith) (ground arith),
    ),
  )
  | inl (false, q) ↦ (
    ground arith,
    (
      ground arith,
      differs (all_hold-false r.conditions context q) (ground arith) (ground arith) (ground arith),
    ),
  )
]

evaluate_all-Results :
    (rs : List Rule) (context : Context) (es : List RuleEvaluation)
    → evaluate_all rs context ≡ ok es
    → Results context rs es
unfolding evaluate_all
evaluate_all-Results [] context [] h = tt
evaluate_all-Results [] context (e ∷ es) h = absurd (cc)
evaluate_all-Results (r ∷ rs) context es h = elim (Result-cases (evaluate_rule r context)) [
  | inr (x, q) ↦ absurd (ground arith)
  | inl (f, q) ↦ elim (Result-cases (evaluate_all rs context)) [
    | inr (x, p) ↦ absurd (ground arith)
    | inl (fs, p) ↦
        let same : f ∷ fs ≡ es = ground arith in
        subst (Results context (r ∷ rs)) same
          (evaluate_rule-Verdict r context f q, evaluate_all-Results rs context fs p)
  ]
]

str_eq_sym : (s t : String) → str_eq s t ≡ str_eq t s
str_eq_sym s t = elim (Bool-cases (str_eq s t)) [
  | inl e ↦ let same = (str_eq_iff s t).0 e in e ∙ sym ((str_eq_iff t s).1 (sym same))
  | inr e ↦ elim (Bool-cases (str_eq t s)) [
    | inl f ↦ let same = (str_eq_iff t s).0 f in (str_eq_iff s t).1 (sym same) ∙ sym f
    | inr f ↦ e ∙ sym f
  ]
]

rule_before_asym : (a b : Rule) → rule_before a b ≡ true → rule_before b a ≡ false
unfolding rule_before
rule_before_asym a b h = ground (
  arith,
  compare_asym a.rule_id b.rule_id,
  compare_asym a.version b.version,
  str_eq_sym a.rule_id b.rule_id,
)

insert-InPrecedence :
    (r : Rule) (rs : List Rule) → InPrecedence rs → InPrecedence (insert rule_before r rs)
insert-InPrecedence r [] h = tt
insert-InPrecedence r (q ∷ []) h = elim (Bool-cases (rule_before q r)) [
  | inl e ↦ rw e (rule_before_asym q r e, tt)
  | inr e ↦ rw e (e, tt)
]
insert-InPrecedence r (q ∷ p ∷ rs) h = elim (Bool-cases (rule_before q r)) [
  | inr e ↦ rw e (e, h)
  | inl e ↦
      let rest = insert-InPrecedence r (p ∷ rs) h.1 in
      elim (Bool-cases (rule_before p r)) [
        | inl f ↦ rw (e, f) (h.0, rw f at rest)
        | inr f ↦ rw (e, f) (rule_before_asym q r e, rw f at rest)
      ]
]

sort_by-InPrecedence : (rs : List Rule) → InPrecedence (sort_by rule_before rs)
sort_by-InPrecedence [] = tt
sort_by-InPrecedence (r ∷ rs) =
    insert-InPrecedence r (sort_by rule_before rs) (sort_by-InPrecedence rs)

-- An evaluation that returns has one result for each rule, in the order of layer, rule and version: a rule
-- whose conditions all hold gives its result, severity and effects; a rule of which one condition does not
-- hold, after those that do, is not applicable and has no effects.
pub evaluate_policies-Results :
    (rules : List Rule) (context : Context) (evaluation : PolicyEvaluation)
    → evaluate_policies rules context ≡ ok evaluation
    → (sorted : List Rule) × Permᴰ sorted rules
      × InPrecedence sorted
      × Results context sorted evaluation.results
unfolding evaluate_policies
evaluate_policies-Results rules context evaluation h =
    elim (Result-cases (evaluate_all (sort_by rule_before rules) context)) [
      | inr (x, q) ↦ absurd (ground arith)
      | inl (es, q) ↦
          let same : es ≡ evaluation.results = ground arith in
          (
            sort_by rule_before rules,
            sort_by-Permᴰ rule_before rules,
            sort_by-InPrecedence rules,
            subst (Results context (sort_by rule_before rules)) same
                (evaluate_all-Results (sort_by rule_before rules) context es q),
          )
    ]
