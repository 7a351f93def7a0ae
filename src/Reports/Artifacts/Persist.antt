-- ===== src/Reports/Artifacts/Persist.antt =====
-- The outcomes of persist_pdf_artifact.
use agentledger_mvp_v.Base.{
  ℕ, ◌≡◌, refl, sym, subst, Bool, true, false, some, Bytes, ◌∷◌, All, Bool-cases, Option-cases, inl,
  inr, ◌⊎◌,
}
use agentledger_mvp_v.Base.Result.{Result, err, ok, Result-cases}
use agentledger_mvp_v.Audit.Merkle.{Primitives}
use agentledger_mvp_v.Reports.Storage.{
  StorageError, PrivateReportStorage, IsPrivateStorage, pdf_content_type, validate_pdf_bytes,
}
use agentledger_mvp_v.Reports.Artifacts.{
  Report, ReportArtifact, ReportTables, ArtifactError, storage_failed, not_created, not_committed,
  first_where, is_artifact_of, may_create, create_artifact, key_of, new_artifact, is_same_file,
  World, cleaned_up, recorded, persist_new, persist_pdf_artifact,
}
use agentledger_mvp_v.Reports.Artifacts.Keys.{AreUuids}
use agentledger_mvp_v.Reports.Artifacts.Consistent.{
  first-none, IsConsistent, KeysApart, put-IsConsistent, IsOutcome, cleaned_up-IsOutcome,
}

pub create_artifact-cases :
    (a : ReportArtifact) (db : ReportTables)
    → (create_artifact a db ≡ (ok a, record db { artifacts = a ∷ db.artifacts }))
      ⊎ (create_artifact a db ≡ (err not_created, db))
unfolding create_artifact
create_artifact-cases a db = elim (Bool-cases (may_create a db)) [
  | inl e ↦ inl (rw (create_artifact, e) refl)
  | inr e ↦ inr (rw (create_artifact, e) refl)
]

module _ (c : Primitives) {St : Type 0} (storage : PrivateReportStorage St) where
  -- The branches of a call, as equations.
  pub recorded-refused :
      (commits : Bool) (a : ReportArtifact) (db : ReportTables) (st : St)
      → create_artifact a db ≡ (err not_created, db)
      → recorded c storage commits a (db, st)
        ≡ cleaned_up c storage not_created a.object_key (db, st)
  unfolding recorded
  recorded-refused commits a db st e = rw (recorded, e) refl

  pub recorded-uncommitted :
      (a made : ReportArtifact) (db db' : ReportTables) (st : St)
      → create_artifact a db ≡ (ok made, db')
      → recorded c storage false a (db, st)
        ≡ cleaned_up c storage not_committed a.object_key (db, st)
  unfolding recorded
  recorded-uncommitted a made db db' st e = rw (recorded, e) refl

  pub recorded-committed :
      (a made : ReportArtifact) (db db' : ReportTables) (st : St)
      → create_artifact a db ≡ (ok made, db')
      → recorded c storage true a (db, st) ≡ (ok made, (db', st))
  unfolding recorded
  recorded-committed a made db db' st e = rw (recorded, e, e) refl

  pub persist_new-failed :
      (commits : Bool) (a : ReportArtifact) (pdf : Bytes) (db : ReportTables) (st : St)
      (x : StorageError)
      → (storage.put a.object_key pdf pdf_content_type st).0 ≡ err x
      → persist_new c storage commits a pdf (db, st)
        ≡ (err (storage_failed x), (db, (storage.put a.object_key pdf pdf_content_type st).1))
  unfolding persist_new
  persist_new-failed commits a pdf db st x e = rw (persist_new, e) refl

  pub persist_new-put :
      (commits : Bool) (a : ReportArtifact) (pdf : Bytes) (db : ReportTables) (st : St)
      → (storage.put a.object_key pdf pdf_content_type st).0 ≡ ok tt
      → persist_new c storage commits a pdf (db, st)
        ≡ recorded c storage commits a (db, (storage.put a.object_key pdf pdf_content_type st).1)
  unfolding persist_new
  persist_new-put commits a pdf db st e = rw (persist_new, e) refl

  new_artifact-key :
      (new_id : ℕ) (report : Report) (pdf : Bytes)
      → (new_artifact c storage new_id report pdf).object_key ≡ key_of c storage report
  unfolding new_artifact
  new_artifact-key new_id report pdf = refl

  module _ (laws : IsPrivateStorage storage) (apart : KeysApart c storage laws) (report : Report)
      (uuids : AreUuids report.organization_id report.assessment_snapshot_id report.id) where
    abbrev Outcome : ReportTables → Result ArtifactError ReportArtifact × World c storage → Type 0
    Outcome db r = IsOutcome c storage laws apart report uuids db r

    recorded-IsOutcome :
        (commits : Bool) (new_id : ℕ) (pdf : Bytes) (db : ReportTables) (st : St)
        → All (λ a. is_artifact_of report a ≡ false) db.artifacts
        → IsConsistent c storage laws (db, st)
        → laws.object_at (key_of c storage report) st ≡ some pdf
        → validate_pdf_bytes pdf ≡ ok tt
        → Outcome db
            (recorded c storage commits (new_artifact c storage new_id report pdf) (db, st))
    unfolding new_artifact
    recorded-IsOutcome commits new_id pdf db st others h there is_pdf =
        elim (create_artifact-cases a db) [
          | inr e ↦
              subst (Outcome db) (sym (recorded-refused commits a db st e))
                (cleaned_up-IsOutcome c storage laws apart report uuids not_created db st others h)
          | inl e ↦ elim (Bool-cases commits) [
            | inr q ↦
                subst (λ b. Outcome db (recorded c storage b a (db, st))) (sym q)
                  (subst (Outcome db) (sym (recorded-uncommitted a a db _ st e)) (
                    cleaned_up-IsOutcome c storage laws apart report uuids not_committed db st
                      others h))
            | inl q ↦
                subst (λ b. Outcome db (recorded c storage b a (db, st))) (sym q)
                  (subst (Outcome db) (sym (recorded-committed a a db _ st e)) kept)
          ]
        ]
      where
        a : ReportArtifact
        a = new_artifact c storage new_id report pdf

        kept : Outcome db (ok a, (record db { artifacts = a ∷ db.artifacts }, st))
        kept = record {
          consistent = (
            record {
              stored = record {
                content = pdf;
                there = there;
                is_pdf = is_pdf;
                has_size = refl;
                has_hash = refl;
              };
              uuids = uuids;
              named = refl;
            },
            h,
          );
          rows_kept = λ x r. absurd (cc (r));
        }

    persist_new-IsOutcome :
        (commits : Bool) (new_id : ℕ) (pdf : Bytes) (db : ReportTables) (st : St)
        → All (λ a. is_artifact_of report a ≡ false) db.artifacts
        → IsConsistent c storage laws (db, st)
        → Outcome db
            (persist_new c storage commits (new_artifact c storage new_id report pdf) pdf (db, st))
    persist_new-IsOutcome commits new_id pdf db st others h =
        elim (Result-cases (storage.put a.object_key pdf pdf_content_type st).0) [
          | inr (x, e) ↦
              subst (Outcome db) (sym (persist_new-failed commits a pdf db st x e))
                (record { consistent = after_put; rows_kept = λ y r. refl })
          | inl (u, e) ↦
              let (there, is_pdf) = laws.put_stores a.object_key pdf pdf_content_type st e in
              subst (Outcome db) (sym (persist_new-put commits a pdf db st e)) (
                recorded-IsOutcome commits new_id pdf db _ others after_put
                  (subst
                    (λ k.
                      laws.object_at k (storage.put a.object_key pdf pdf_content_type st).1
                      ≡ some pdf)
                    (new_artifact-key new_id report pdf) there)
                  is_pdf)
        ]
      where
        a : ReportArtifact
        a = new_artifact c storage new_id report pdf

        after_put :
            IsConsistent c storage laws (db, (storage.put a.object_key pdf pdf_content_type st).1)
        after_put =
            put-IsConsistent c storage laws apart report uuids db st a.object_key pdf
              pdf_content_type h

    -- Whatever a call of `persist_pdf_artifact` meets (a refused file, other metadata, a failing
    -- storage, a row that is refused, a commit that fails), afterwards every artifact row still has its
    -- file in the storage, with the size and the hash of the row; and a call that raises leaves the
    -- rows as they were. Two report keys are aliases in the storage only when they are equal.
    pub persist_pdf_artifact-IsOutcome :
        (new_id : ℕ) (commits : Bool) (pdf : Bytes) (db : ReportTables) (st : St)
        → IsConsistent c storage laws (db, st)
        → IsOutcome c storage laws apart report uuids db
            (persist_pdf_artifact c storage new_id commits report pdf (db, st))
    unfolding persist_pdf_artifact
    persist_pdf_artifact-IsOutcome new_id commits pdf db st h =
        elim (Result-cases (validate_pdf_bytes pdf)) [
          | inr (x, v) ↦
              rw (persist_pdf_artifact, v) (record { consistent = h; rows_kept = λ y r. refl })
          | inl (u, v) ↦ elim (Option-cases (first_where (is_artifact_of report) db.artifacts)) [
            | inl e ↦
                rw (persist_pdf_artifact, v, e)
                  (persist_new-IsOutcome commits new_id pdf db st
                    (first-none (is_artifact_of report) db.artifacts e) h)
            | inr (existing, e) ↦ elim (Bool-cases (is_same_file c storage existing report pdf)) [
              | inr d ↦
                  rw (persist_pdf_artifact, v, e, d)
                    (record { consistent = h; rows_kept = λ y r. refl })
              | inl d ↦ elim (Bool-cases commits) [
                | inl q ↦
                    rw (persist_pdf_artifact, v, e, d, q)
                      (record { consistent = h; rows_kept = λ y r. refl })
                | inr q ↦
                    rw (persist_pdf_artifact, v, e, d, q)
                      (record { consistent = h; rows_kept = λ y r. refl })
              ]
            ]
          ]
        ]
