-- ===== src/Credentials/Ring/Valid.antt =====
-- A key ring is valid at all times: its versions are positive, its keys have 256 bits, and the active
-- one is there.
use agentledger_mvp_v.Base.{
  String, ◌≡◌, refl, Bool, true, false, none, some, List, [], ◌∷◌, ◌++◌, Bytes, length, All, arith,
  Bool-cases, Option-cases, inl, inr, sym, ◌∙◌, subst, if◌then◌else◌,
}
use agentledger_mvp_v.Base.Int.{ℤ, pos, ◌≤ℤ◌, eq_ℤ, eq_ℤ_iff}
use agentledger_mvp_v.Base.Result.{ok, Result-cases, ok-injective}
use agentledger_mvp_v.Credentials.Envelope.{CredentialEnvelope}
use agentledger_mvp_v.Credentials.Ring.{
  Keys, find_key, has_version, VersionedKekRing, normalize_keys, make_ring, key_for_version,
  add_kek, activate, remove_kek, without, references, _validate_kek,
}
use agentledger_mvp_v.Credentials.Ring.Lookup.{
  find_key-append, find_key-append_new, find_key-without_ne,
}

abbrev pub KeyValid : ℤ × Bytes → Type 0
KeyValid item = (pos 1 ≤ℤ item.0) × (length item.1 ≡ 32)

pub record IsValid (ring : VersionedKekRing) : Type 0 where
  pub keys_valid : All KeyValid ring.keys
  pub active_key : Bytes
  pub active_there : find_key ring.active_version ring.keys ≡ some active_key

pub find_key-size :
    (v : ℤ) (keys : Keys) (k : Bytes) → All KeyValid keys → find_key v keys ≡ some k → length k ≡ 32
find_key-size v [] k valid h = cc
find_key-size v (item ∷ keys) k valid h = elim (Bool-cases (eq_ℤ item.0 v)) [
  | inl e ↦ let q = rw e at h in cc (q, valid.0.1)
  | inr e ↦ find_key-size v keys k valid.1 (rw e at h)
]

pub find_key-positive :
    (v : ℤ) (keys : Keys) (k : Bytes) → All KeyValid keys → find_key v keys ≡ some k → pos 1 ≤ℤ v
find_key-positive v [] k valid h = cc
find_key-positive v (item ∷ keys) k valid h = elim (Bool-cases (eq_ℤ item.0 v)) [
  | inl e ↦ subst (λ w. pos 1 ≤ℤ w) ((eq_ℤ_iff item.0 v).0 e) valid.0.0
  | inr e ↦ find_key-positive v keys k valid.1 (rw e at h)
]

_validate_kek-size : (k c : Bytes) → _validate_kek k ≡ ok c → (c ≡ k) × (length k ≡ 32)
unfolding _validate_kek
_validate_kek-size k c h = ground arith

normalize_keys-valid :
    (keys normalized : Keys) → normalize_keys keys ≡ ok normalized → All KeyValid normalized
unfolding normalize_keys
normalize_keys-valid [] n h = ground arith
normalize_keys-valid (item ∷ keys) n h = elim (Result-cases (_validate_kek item.1)) [
  | inr (x, q) ↦ absurd (ground arith)
  | inl (k, q) ↦ elim (Result-cases (normalize_keys keys)) [
    | inr (x, e) ↦ absurd (ground arith)
    | inl (rest, e) ↦
        ground (arith, _validate_kek-size item.1 k q, normalize_keys-valid keys rest e)
  ]
]

has_version-found :
    (v : ℤ) (keys : Keys) → has_version v keys ≡ true → (k : Bytes) × (find_key v keys ≡ some k)
has_version-found v keys h = elim (Option-cases (find_key v keys)) [
  | inl e ↦ absurd (let q = rw (e, has_version) at h in cc (q))
  | inr (k, e) ↦ (k, e)
]

has_version-absent : (v : ℤ) (keys : Keys) → has_version v keys ≡ false → find_key v keys ≡ none
has_version-absent v keys h = elim (Option-cases (find_key v keys)) [
  | inl e ↦ e
  | inr (k, e) ↦ absurd (let q = rw (e, has_version) at h in cc (q))
]

pub make_ring-IsValid :
    (keys : Keys) (v : ℤ) (ring : VersionedKekRing) → make_ring keys v ≡ ok ring → IsValid ring
unfolding make_ring
make_ring-IsValid keys v ring h = elim (Result-cases (normalize_keys keys)) [
  | inr (x, e) ↦ absurd (ground arith)
  | inl (n, e) ↦ elim (Bool-cases (has_version v n)) [
    | inr q ↦ absurd (let z = rw (e, q) at h in cc (z))
    | inl q ↦
        let (k, there) = has_version-found v n q in
        let made = ok-injective _ _ (rw (e, q) at h) in
        subst IsValid made (record {
          keys_valid = normalize_keys-valid keys n e;
          active_key = k;
          active_there = there;
        })
  ]
]

All-append : (xs ys : Keys) → All KeyValid xs → All KeyValid ys → All KeyValid (xs ++ ys)
All-append [] ys h k = k
All-append (x ∷ xs) ys h k = (h.0, All-append xs ys h.1 k)

without-valid : (v : ℤ) (keys : Keys) → All KeyValid keys → All KeyValid (without v keys)
unfolding without
without-valid v [] h = tt
without-valid v (item ∷ keys) h = ground (arith, without-valid v keys h.1)

module _ (decimal : ℤ → String) where
  -- What a method that returns has tested, and the ring that it leaves.
  pub key_for_version-there :
      (v : ℤ) (ring : VersionedKekRing) (k : Bytes)
      → key_for_version decimal v ring ≡ ok k
      → find_key v ring.keys ≡ some k
  unfolding key_for_version
  key_for_version-there v ring k h = ground arith

  pub key_for_version-found :
      (v : ℤ) (ring : VersionedKekRing) (k : Bytes)
      → find_key v ring.keys ≡ some k
      → key_for_version decimal v ring ≡ ok k
  unfolding key_for_version
  key_for_version-found v ring k h = rw (h, key_for_version) refl

  pub add_kek-result :
      (v : ℤ) (k : Bytes) (make_active : Bool) (ring ring' : VersionedKekRing)
      → add_kek decimal v k make_active ring ≡ ok ring'
      → (find_key v ring.keys ≡ none)
        × ((KeyValid (v, k))
            × ((ring'.keys ≡ ring.keys ++ ((v, k) ∷ []))
                × (ring'.active_version ≡ (if make_active then v else ring.active_version))))
  unfolding add_kek
  add_kek-result v k make_active ring ring' h = elim (Bool-cases (has_version v ring.keys)) [
    | inl q ↦ absurd (ground arith)
    | inr q ↦ elim (Result-cases (_validate_kek k)) [
      | inr (x, e) ↦ absurd (ground arith)
      | inl (c, e) ↦
          let (same, size) = _validate_kek-size k c e in
          ground (arith, has_version-absent v ring.keys q)
    ]
  ]

  pub activate-result :
      (v : ℤ) (ring ring' : VersionedKekRing)
      → activate decimal v ring ≡ ok ring'
      → (k : Bytes) × ((find_key v ring.keys ≡ some k)
          × (ring' ≡ record ring { active_version = v }))
  unfolding activate
  activate-result v ring ring' h = elim (Result-cases (key_for_version decimal v ring)) [
    | inr (x, e) ↦ absurd (ground arith)
    | inl (k, e) ↦ (k, (key_for_version-there v ring k e, sym (ok-injective _ _ (rw e at h))))
  ]

  pub remove_kek-result :
      (v : ℤ) (es : List CredentialEnvelope) (ring ring' : VersionedKekRing)
      → remove_kek decimal v es ring ≡ ok ring'
      → (eq_ℤ v ring.active_version ≡ false)
        × ((references v es ≡ false) × (ring' ≡ record ring { keys = without v ring.keys }))
  unfolding remove_kek
  remove_kek-result v es ring ring' h = elim (Result-cases (key_for_version decimal v ring)) [
    | inr (x, e) ↦ absurd (ground arith)
    | inl (k, e) ↦ ground arith
  ]

  pub add_kek-IsValid :
      (v : ℤ) (k : Bytes) (make_active : Bool) (ring ring' : VersionedKekRing)
      → add_kek decimal v k make_active ring ≡ ok ring'
      → IsValid ring
      → IsValid ring'
  add_kek-IsValid v k make_active ring ring' h valid =
      let (absent, (new, (keys, active))) = add_kek-result v k make_active ring ring' h in
      elim (Bool-cases make_active) [
        | inl q ↦ record {
          keys_valid = rw keys (All-append ring.keys _ valid.keys_valid (new, tt));
          active_key = k;
          active_there = rw (keys, active, q) (find_key-append_new v ring.keys k absent);
        }
        | inr q ↦ record {
          keys_valid = rw keys (All-append ring.keys _ valid.keys_valid (new, tt));
          active_key = valid.active_key;
          active_there =
              rw (keys, active, q)
                (find_key-append _ ring.keys _ valid.active_key valid.active_there);
        }
      ]

  pub activate-IsValid :
      (v : ℤ) (ring ring' : VersionedKekRing)
      → activate decimal v ring ≡ ok ring'
      → IsValid ring
      → IsValid ring'
  activate-IsValid v ring ring' h valid =
      let (k, (there, e)) = activate-result v ring ring' h in
      rw e (record { keys_valid = valid.keys_valid; active_key = k; active_there = there })

  pub remove_kek-IsValid :
      (v : ℤ) (es : List CredentialEnvelope) (ring ring' : VersionedKekRing)
      → remove_kek decimal v es ring ≡ ok ring'
      → IsValid ring
      → IsValid ring'
  remove_kek-IsValid v es ring ring' h valid =
      let (other, (free, e)) = remove_kek-result v es ring ring' h in
      rw e (record {
        keys_valid = without-valid v ring.keys valid.keys_valid;
        active_key = valid.active_key;
        active_there =
            find_key-without_ne ring.active_version v ring.keys
              (λ q. cc (other, (eq_ℤ_iff v ring.active_version).1 (sym q)))
            ∙ valid.active_there;
      })
