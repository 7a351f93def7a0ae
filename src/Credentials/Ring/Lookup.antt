-- ===== src/Credentials/Ring/Lookup.antt =====
-- What the methods of the key ring leave of the keys that are found by version.
use agentledger_mvp_v.Base.{
  ◌≡◌, refl, ◌≢◌, none, some, [], ◌∷◌, ◌++◌, Bytes, Bool-cases, inl, inr, sym, ◌∙◌,
}
use agentledger_mvp_v.Base.Int.{ℤ, eq_ℤ, eq_ℤ_iff}
use agentledger_mvp_v.Credentials.Ring.{Keys, find_key, without}

-- A key that is there stays when another is put behind it.
pub find_key-append :
    (v : ℤ) (keys more : Keys) (k : Bytes)
    → find_key v keys ≡ some k
    → find_key v (keys ++ more) ≡ some k
find_key-append v [] more k h = cc
find_key-append v (item ∷ keys) more k h = elim (Bool-cases (eq_ℤ item.0 v)) [
  | inl e ↦ rw e (rw e at h)
  | inr e ↦ rw e (find_key-append v keys more k (rw e at h))
]

pub find_key-append_new :
    (v : ℤ) (keys : Keys) (k : Bytes)
    → find_key v keys ≡ none
    → find_key v (keys ++ ((v, k) ∷ [])) ≡ some k
find_key-append_new v [] k h = rw (((eq_ℤ_iff v v).1 refl)) refl
find_key-append_new v (item ∷ keys) k h = elim (Bool-cases (eq_ℤ item.0 v)) [
  | inl e ↦ absurd (let q = rw e at h in cc (q))
  | inr e ↦ rw e (find_key-append_new v keys k (rw e at h))
]

pub find_key-without_ne :
    (v w : ℤ) (keys : Keys) → v ≢ w → find_key v (without w keys) ≡ find_key v keys
unfolding without
find_key-without_ne v w [] ne = refl
find_key-without_ne v w (item ∷ keys) ne = elim (Bool-cases (eq_ℤ item.0 w)) [
  | inl e ↦ elim (Bool-cases (eq_ℤ item.0 v)) [
    | inl q ↦ absurd (ne (sym ((eq_ℤ_iff item.0 v).0 q) ∙ (eq_ℤ_iff item.0 w).0 e))
    | inr q ↦ rw (e, q) (find_key-without_ne v w keys ne)
  ]
  | inr e ↦ rw (e, find_key-without_ne v w keys ne) refl
]

pub find_key-without : (v : ℤ) (keys : Keys) → find_key v (without v keys) ≡ none
unfolding without
find_key-without v [] = refl
find_key-without v (item ∷ keys) = elim (Bool-cases (eq_ℤ item.0 v)) [
  | inl e ↦ rw e (find_key-without v keys)
  | inr e ↦ rw (e, e) (find_key-without v keys)
]
