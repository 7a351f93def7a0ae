-- ===== src/Reports/Artifacts/Consistent.antt =====
-- Every artifact row has its file in the storage, whatever a call of persist_pdf_artifact meets.
use agentledger_mvp_v.Base.{
  ℕ, ◌≡◌, refl, sym, ap, ◌∙◌, subst, String, Bool, true, false, none, some, Bytes, List, [], ◌∷◌,
  All, All-imp, All-both, length, Bool-cases, inl, inr, arith,
}
use agentledger_mvp_v.Base.Result.{Result, err, ok, Result-cases}
use agentledger_mvp_v.Audit.Merkle.{Primitives}
use agentledger_mvp_v.Reports.Storage.{
  PrivateReportStorage, IsPrivateStorage, build_pdf_object_key, validate_pdf_bytes,
}
use agentledger_mvp_v.Reports.Artifacts.{
  Report, ReportArtifact, ReportTables, ArtifactError, storage_failed, first_where, is_artifact_of,
  sha256_hex, key_of, World, cleaned_up,
}
use agentledger_mvp_v.Reports.Artifacts.Keys.{AreUuids, build_pdf_object_key-injective}

pub first-none {ℓ} :
    {A : Type ℓ} (p : A → Bool) (xs : List A) → first_where p xs ≡ none → All (λ x. p x ≡ false) xs
first-none p [] h = tt
first-none p (x ∷ xs) h = elim (Bool-cases (p x)) [
  | inl e ↦ absurd (let z = rw e at h in cc (z))
  | inr e ↦ (e, first-none p xs (rw e at h))
]

pub first-some {ℓ κ} :
    {A : Type ℓ} (P : A → Type κ) (p : A → Bool) (xs : List A) (x : A)
    → All P xs
    → first_where p xs ≡ some x
    → (p x ≡ true) × P x
first-some P p [] x a h = cc
first-some P p (y ∷ xs) x a h = elim (Bool-cases (p y)) [
  | inr e ↦ first-some P p xs x a.1 (rw e at h)
  | inl e ↦
      let same : some y ≡ some x = rw e at h in
      let q : y ≡ x = ap (λ o. elim o [ none ↦ y | some z ↦ z ]) same in
      (subst (λ z. p z ≡ true) q e, subst P q a.0)
]

module _ (c : Primitives) {St : Type 0} (storage : PrivateReportStorage St)
    (laws : IsPrivateStorage storage) where
  -- The row of a file: it is stored under its key, is a PDF, and has the size and hash of the row.
  pub record IsStored (a : ReportArtifact) (st : St) : Type 0 where
    pub content : Bytes
    pub there : laws.object_at a.object_key st ≡ some content
    pub is_pdf : validate_pdf_bytes content ≡ ok tt
    pub has_size : length content ≡ a.size_bytes
    pub has_hash : sha256_hex c storage content ≡ a.sha256

  pub record IsRecorded (st : St) (a : ReportArtifact) : Type 0 where
    pub stored : IsStored a st
    pub uuids : AreUuids a.organization_id a.assessment_snapshot_id a.report_id
    pub named :
        a.object_key ≡ build_pdf_object_key a.organization_id a.assessment_snapshot_id a.report_id

  abbrev pub IsConsistent : World c storage → Type 0
  IsConsistent w = All (IsRecorded w.1) w.0.artifacts

  -- The keys of reports are aliases only when they are equal.
  abbrev pub KeysApart : Type 0
  KeysApart =
      (o s r o' s' r' : ℕ)
      → laws.Aliases (build_pdf_object_key o s r) (build_pdf_object_key o' s' r')
      → build_pdf_object_key o s r ≡ build_pdf_object_key o' s' r'

  IsRecorded-kept :
      (st st' : St) (a : ReportArtifact)
      → ((b : Bytes)
          → laws.object_at a.object_key st ≡ some b
          → laws.object_at a.object_key st' ≡ some b)
      → IsRecorded st a
      → IsRecorded st' a
  IsRecorded-kept st st' a keeps r = record {
    stored = record {
      content = r.stored.content;
      there = keeps r.stored.content r.stored.there;
      is_pdf = r.stored.is_pdf;
      has_size = r.stored.has_size;
      has_hash = r.stored.has_hash;
    };
    uuids = r.uuids;
    named = r.named;
  }

  -- What a clean-up leaves.
  pub cleaned_up-leaves :
      (e : ArtifactError) (k : String) (db : ReportTables) (st : St)
      → ((cleaned_up c storage e k (db, st)).1 ≡ (db, (storage.delete k st).1))
        × ((x : ArtifactError) × ((cleaned_up c storage e k (db, st)).0 ≡ err x))
  unfolding cleaned_up
  cleaned_up-leaves e k db st = elim (Result-cases (storage.delete k st).0) [
    | inl (u, q) ↦ (rw (cleaned_up, q) refl, (e, rw (cleaned_up, q) refl))
    | inr (x, q) ↦ (rw (cleaned_up, q) refl, (storage_failed x, rw (cleaned_up, q) refl))
  ]

  module _ (apart : KeysApart) (report : Report)
      (uuids : AreUuids report.organization_id report.assessment_snapshot_id report.id) where
    -- Deleting the object of a report without a row takes no other row's file away.
    not_the_key :
        (a : ReportArtifact) (st : St)
        → is_artifact_of report a ≡ false
        → IsRecorded st a
        → ¬ laws.Aliases (key_of c storage report) a.object_key
    not_the_key a st other r aliases =
        let same =
          apart report.organization_id report.assessment_snapshot_id report.id a.organization_id
            a.assessment_snapshot_id a.report_id
            (subst (λ k. laws.Aliases (key_of c storage report) k) r.named aliases) in
        let (org, (snap, rep)) = build_pdf_object_key-injective _ _ _ _ _ _ uuids r.uuids same in
        ground (arith, org, rep, other)

    delete-IsConsistent :
        (db : ReportTables) (st : St)
        → All (λ a. is_artifact_of report a ≡ false) db.artifacts
        → IsConsistent (db, st)
        → IsConsistent (db, (storage.delete (key_of c storage report) st).1)
    delete-IsConsistent db st others h =
        All-both
          (λ a other r.
            IsRecorded-kept st _ a
              (λ b there.
                laws.delete_keeps (key_of c storage report) st a.object_key
                  (not_the_key a st other r)
                ∙ there)
              r)
          db.artifacts others h

    pub put-IsConsistent :
        (db : ReportTables) (st : St) (k : String) (b : Bytes) (t : String)
        → IsConsistent (db, st)
        → IsConsistent (db, (storage.put k b t st).1)
    put-IsConsistent db st k b t h =
        All-imp (λ a r. IsRecorded-kept st _ a (laws.put_keeps k b t st a.object_key) r)
          db.artifacts h

    -- The outcome of a call: consistent, and unchanged rows if it raised.
    pub record IsOutcome (db : ReportTables)
        (r : Result ArtifactError ReportArtifact × World c storage) : Type 0 where
      pub consistent : IsConsistent r.1
      pub rows_kept : (x : ArtifactError) → r.0 ≡ err x → r.1.0 ≡ db

    pub cleaned_up-IsOutcome :
        (e : ArtifactError) (db : ReportTables) (st : St)
        → All (λ a. is_artifact_of report a ≡ false) db.artifacts
        → IsConsistent (db, st)
        → IsOutcome db (cleaned_up c storage e (key_of c storage report) (db, st))
    cleaned_up-IsOutcome e db st others h =
        let (left, raised) = cleaned_up-leaves e (key_of c storage report) db st in
        record {
          consistent = subst IsConsistent (sym left) (delete-IsConsistent db st others h);
          rows_kept = λ x q. ap (λ w. w.0) left;
        }
