-- ===== src/Reports/Artifacts/Keys.antt =====
-- The object key of a report names its tenant, snapshot and report.
use text.Mathlib.TextLemmas.{append_inj}
use agentledger_mvp_v.Base.{ℕ, ◌^◌, ◌<◌, ◌≡◌, refl, sym, ◌∙◌}
use agentledger_mvp_v.Audit.Texts.Uuid.{count-uuid_text, uuid_text-injective}
use agentledger_mvp_v.Reports.Storage.{build_pdf_object_key}

-- UUIDs have 128 bits.
abbrev pub AreUuids : (o s r : ℕ) → Type 0
AreUuids o s r = (o < 2 ^ 128) × ((s < 2 ^ 128) × (r < 2 ^ 128))

pub build_pdf_object_key-injective :
    (o s r o' s' r' : ℕ)
    → AreUuids o s r
    → AreUuids o' s' r'
    → build_pdf_object_key o s r ≡ build_pdf_object_key o' s' r'
    → (o ≡ o') × ((s ≡ s') × (r ≡ r'))
unfolding build_pdf_object_key
build_pdf_object_key-injective o s r o' s' r' h k e =
    let (label, e1) = append_inj e refl in
    let (tenant, e2) = append_inj e1 (count-uuid_text o ∙ sym (count-uuid_text o')) in
    let (label', e3) = append_inj e2 refl in
    let (snapshot, e4) = append_inj e3 (count-uuid_text s ∙ sym (count-uuid_text s')) in
    let (label'', e5) = append_inj e4 refl in
    let (report, ending) = append_inj e5 (count-uuid_text r ∙ sym (count-uuid_text r')) in
    (
      uuid_text-injective o o' h.0 k.0 tenant,
      (uuid_text-injective s s' h.1.0 k.1.0 snapshot, uuid_text-injective r r' h.1.1 k.1.1 report),
    )
