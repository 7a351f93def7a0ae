-- ===== src/Reports/Artifacts/RoundTrip.antt =====
-- What was persisted is what is read.
use agentledger_mvp_v.Base.{
  ℕ, ◌≡◌, refl, sym, ap, ◌∙◌, subst, Bool, true, ◌&&◌, arith, none, some, Bytes, List, [], ◌∷◌,
  IsRow, All-row, length, ◌==◌, ==_refl, str_eq, str_eq_iff, Bool-cases, Option-cases, inl, inr,
  ◌⊎◌,
}
use agentledger_mvp_v.Base.Result.{Result, err, ok, Result-cases, ok-injective}
use agentledger_mvp_v.Audit.Merkle.{Primitives}
use agentledger_mvp_v.Audit.Texts.Injective.{hex-injective}
use agentledger_mvp_v.Reports.Storage.{
  PrivateReportStorage, IsPrivateStorage, validate_pdf_bytes, pdf_content_type,
}
use agentledger_mvp_v.Reports.Artifacts.{
  Report, ReportArtifact, ReportTables, World, ArtifactError, storage_failed, not_created,
  not_committed, cleaned_up, sha256_hex, key_of, first_where, is_artifact_of, is_same_file,
  new_artifact, recorded, persist_new, persist_pdf_artifact, verified, read_verified_pdf_artifact,
}
use agentledger_mvp_v.Reports.Artifacts.Keys.{AreUuids}
use agentledger_mvp_v.Reports.Artifacts.Persist.{
  create_artifact-cases, recorded-refused, recorded-uncommitted, recorded-committed,
  persist_new-failed, persist_new-put, persist_pdf_artifact-IsOutcome,
}
use agentledger_mvp_v.Reports.Artifacts.Consistent.{
  cleaned_up-leaves, IsStored, IsRecorded, IsConsistent, KeysApart,
}

third_holds : (a b c d : Bool) → (a && b && c && d) ≡ true → c ≡ true
third_holds a b c d h = ground arith

-- A call that equals one that raised did not return.
not_ok :
    {E A W : Type 0} {r s : Result E A × W} {a : A}
    → r ≡ s
    → (x : E) × (s.0 ≡ err x)
    → r.0 ≡ ok a
    → ⊥
not_ok e (x, q) h = let z = sym q ∙ ap (λ p. p.0) (sym e) ∙ h in absurd (cc (z))

some-same : (x y : Bytes) → some x ≡ some y → x ≡ y
some-same x y h = ap (λ o. elim o [ none ↦ x | some z ↦ z ]) h

module _ (c : Primitives) {St : Type 0} (storage : PrivateReportStorage St)
    (laws : IsPrivateStorage storage) where
  -- What a read returned: the file, or another one with its hash that stood under the key before.
  abbrev pub IsReadBack : Bytes → ReportArtifact → (before after : St) → Type 0
  IsReadBack pdf a before after =
      (content : Bytes) × ((read_verified_pdf_artifact c storage a after).0 ≡ ok content)
      × (c.sha256 content ≡ c.sha256 pdf)
      × ((content ≡ pdf) ⊎ (laws.object_at a.object_key before ≡ some content))

  sha256_hex-same :
      (a b : Bytes) → sha256_hex c storage a ≡ sha256_hex c storage b → c.sha256 a ≡ c.sha256 b
  unfolding sha256_hex
  sha256_hex-same a b e =
      hex-injective (c.sha256 a) (c.sha256 b) (c.sha256_bytes a) (c.sha256_bytes b) e

  -- A stored file passes the tests of a read.
  verified-IsStored :
      (a : ReportArtifact) (st : St) (s : IsStored c storage laws a st)
      → verified c storage a s.content ≡ ok s.content
  unfolding verified
  verified-IsStored a st s =
      rw
        (
          verified,
          s.is_pdf,
          s.has_size,
          ==_refl a.size_bytes,
          s.has_hash,
          (str_eq_iff a.sha256 a.sha256).1 refl,
        )
        refl

  -- The file of an artifact row is read when the storage responds.
  pub read-IsStored :
      (a : ReportArtifact) (st : St) (s : IsStored c storage laws a st)
      → laws.Responds st
      → (read_verified_pdf_artifact c storage a st).0 ≡ ok s.content
  unfolding read_verified_pdf_artifact
  read-IsStored a st s responds =
      rw (read_verified_pdf_artifact, laws.get_answers a.object_key st s.content responds s.there)
        (verified-IsStored a st s)

  module _ (report : Report) (new_id : ℕ) (pdf : Bytes) where
    -- The row that a call returned: it stands in the table, with the hash of the file, and the file was
    -- stored, or the storage is as it was before.
    pub record IsReturned (before : St) (w : World c storage) (a : ReportArtifact) : Type 0 where
      pub is_row : IsRow a w.0.artifacts
      pub hashed : a.sha256 ≡ sha256_hex c storage pdf
      pub file : (laws.object_at a.object_key w.1 ≡ some pdf) ⊎ (w.1 ≡ before)

    first-IsRow :
        (p : ReportArtifact → Bool) (xs : List ReportArtifact) (x : ReportArtifact)
        → first_where p xs ≡ some x
        → IsRow x xs
    first-IsRow p [] x h = absurd (cc (h))
    first-IsRow p (y ∷ xs) x h = elim (Bool-cases (p y)) [
      | inr e ↦ inr (first-IsRow p xs x (rw e at h))
      | inl e ↦
          let same : some y ≡ some x = rw e at h in
          inl (sym (ap (λ o. elim o [ none ↦ y | some z ↦ z ]) same))
    ]

    is_same_file-hash :
        (existing : ReportArtifact)
        → is_same_file c storage existing report pdf ≡ true
        → existing.sha256 ≡ sha256_hex c storage pdf
    unfolding is_same_file
    is_same_file-hash existing h = (str_eq_iff existing.sha256 (sha256_hex c storage pdf)).0 (
        third_holds (str_eq existing.object_key (key_of c storage report))
          (str_eq existing.content_type pdf_content_type) _ (existing.size_bytes == length pdf) h)

    recorded-IsReturned :
        (before : St) (commits : Bool) (db : ReportTables) (st : St) (a : ReportArtifact)
        → laws.object_at (new_artifact c storage new_id report pdf).object_key st ≡ some pdf
        → (recorded c storage commits (new_artifact c storage new_id report pdf) (db, st)).0 ≡ ok a
        → IsReturned before
            (recorded c storage commits (new_artifact c storage new_id report pdf) (db, st)).1
            a
    recorded-IsReturned before commits db st a there h = elim (create_artifact-cases new db) [
      | inr e ↦
          absurd (not_ok (recorded-refused c storage commits new db st e) (raised not_created) h)
      | inl e ↦ elim (Bool-cases commits) [
        | inr q ↦ absurd (
            not_ok
              (ap (λ b. recorded c storage b new (db, st)) q
                ∙ recorded-uncommitted c storage new new db _ st e)
              (raised not_committed) h)
        | inl q ↦
            let done =
              ap (λ b. recorded c storage b new (db, st)) q
              ∙ recorded-committed c storage new new db _ st e in
            let same : new ≡ a = ok-injective _ _ (ap (λ r. r.0) (sym done) ∙ h) in
            subst (λ r. IsReturned before r.1 a) (sym done)
              (record {
                is_row = inl (sym same);
                hashed = ap (λ x. x.sha256) (sym same) ∙ new_hash;
                file = inl (
                    ap (λ (x : ReportArtifact). laws.object_at x.object_key st) (sym same) ∙ there);
              })
      ]
    ]
      where
        new : ReportArtifact
        new = new_artifact c storage new_id report pdf

        new_hash : new.sha256 ≡ sha256_hex c storage pdf
        new_hash = unfold new_artifact in refl

        raised :
            (e : ArtifactError)
            → (x : ArtifactError) × ((cleaned_up c storage e new.object_key (db, st)).0 ≡ err x)
        raised e = (cleaned_up-leaves c storage laws e new.object_key db st).1

    persist_new-IsReturned :
        (commits : Bool) (db : ReportTables) (st : St) (a : ReportArtifact)
        → (persist_new c storage commits (new_artifact c storage new_id report pdf) pdf (db, st)).0
          ≡ ok a
        → IsReturned st
            (persist_new c storage commits
              (new_artifact c storage new_id report pdf)
              pdf
              (db, st)).1
            a
    persist_new-IsReturned commits db st a h =
        elim (Result-cases (storage.put new.object_key pdf pdf_content_type st).0) [
          | inr (x, e) ↦ absurd (
              not_ok (persist_new-failed c storage commits new pdf db st x e)
                (storage_failed x, refl) h)
          | inl (u, e) ↦
              let done = persist_new-put c storage commits new pdf db st e in
              let there = (laws.put_stores new.object_key pdf pdf_content_type st e).0 in
              subst (λ r. IsReturned st r.1 a) (sym done)
                (recorded-IsReturned st commits db _ a there (ap (λ r. r.0) (sym done) ∙ h))
        ]
      where
        new : ReportArtifact
        new = new_artifact c storage new_id report pdf

    persist-IsReturned :
        (commits : Bool) (db : ReportTables) (st : St) (a : ReportArtifact)
        → (persist_pdf_artifact c storage new_id commits report pdf (db, st)).0 ≡ ok a
        → IsReturned st (persist_pdf_artifact c storage new_id commits report pdf (db, st)).1 a
    unfolding persist_pdf_artifact
    persist-IsReturned commits db st a h = elim (Result-cases (validate_pdf_bytes pdf)) [
      | inr (x, v) ↦ absurd (let z = rw (persist_pdf_artifact, v) at h in cc (z))
      | inl (u, v) ↦ elim (Option-cases (first_where (is_artifact_of report) db.artifacts)) [
        | inl e ↦
            rw (persist_pdf_artifact, v, e)
              (persist_new-IsReturned commits db st a (rw (persist_pdf_artifact, v, e) at h))
        | inr (existing, e) ↦ elim (Bool-cases (is_same_file c storage existing report pdf)) [
          | inr d ↦ absurd (let z = rw (persist_pdf_artifact, v, e, d) at h in cc (z))
          | inl d ↦ elim (Bool-cases commits) [
            | inr q ↦ absurd (let z = rw (persist_pdf_artifact, v, e, d, q) at h in cc (z))
            | inl q ↦
                let same : existing ≡ a =
                  ok-injective _ _ (rw (persist_pdf_artifact, v, e, d, q) at h) in
                rw (persist_pdf_artifact, v, e, d, q)
                  (record {
                    is_row = first-IsRow (is_artifact_of report) db.artifacts a (e ∙ ap some same);
                    hashed = ap (λ x. x.sha256) (sym same) ∙ is_same_file-hash existing d;
                    file = inr refl;
                  })
          ]
        ]
      ]
    ]

    -- When `persist_pdf_artifact` returned an artifact, and every artifact row has its file in the
    -- storage beforehand, `read_verified_pdf_artifact` of it returns, as soon as the storage responds. It
    -- returns the file that was persisted, or else the file that already stood under the key of the
    -- report, which then has the same SHA-256. Two report keys are aliases in the storage only when they
    -- are equal.
    pub persist-read :
        (apart : KeysApart c storage laws)
        (uuids : AreUuids report.organization_id report.assessment_snapshot_id report.id)
        (commits : Bool) (w w' : World c storage) (a : ReportArtifact)
        → IsConsistent c storage laws w
        → persist_pdf_artifact c storage new_id commits report pdf w ≡ (ok a, w')
        → laws.Responds w'.1
        → IsReadBack pdf a w.1 w'.1
    persist-read apart uuids commits (db, st) w' a h made responds =
        let outcome =
          persist_pdf_artifact-IsOutcome c storage laws apart report uuids new_id commits pdf db st
            h in
        let consistent = subst (λ r. IsConsistent c storage laws r.1) made outcome.consistent in
        let returned =
          subst (λ r. IsReturned st r.1 a) made
            (persist-IsReturned commits db st a (ap (λ r. r.0) made)) in
        let stored =
          (All-row (IsRecorded c storage laws w'.1) a w'.0.artifacts returned.is_row
            consistent).stored in
        (
          stored.content,
          read-IsStored a w'.1 stored responds,
          sha256_hex-same stored.content pdf (stored.has_hash ∙ returned.hashed),
          elim returned.file [
            | inl put ↦ inl (some-same stored.content pdf (sym stored.there ∙ put))
            | inr kept ↦
                inr (
                  subst (λ x. laws.object_at a.object_key x ≡ some stored.content) kept
                    stored.there)
          ],
        )
