-- ===== src/Credentials/Envelope/Aad.antt =====
-- The associated data of two records is equal only for one tenant and one record.
use Prim.Native.String.{◌++◌, count}
use text.Mathlib.TextLemmas.{append_inj, length-append}
use agentledger_mvp_v.Base.{ℕ, ◌^◌, ◌<◌, ◌≡◌, refl, sym, ap, ◌∙◌, ◌+◌, String}
use agentledger_mvp_v.Audit.Texts.{uuid_text}
use agentledger_mvp_v.Audit.Texts.Uuid.{count-uuid_text, uuid_text-injective}
use agentledger_mvp_v.Credentials.Envelope.{joined_aad}

pub joined_aad-injective :
    (domain : String) (t r t' r' : ℕ)
    → t < 2 ^ 128
    → r < 2 ^ 128
    → t' < 2 ^ 128
    → r' < 2 ^ 128
    → joined_aad domain (uuid_text t) (uuid_text r)
      ≡ joined_aad domain (uuid_text t') (uuid_text r')
    → (t ≡ t') × (r ≡ r')
unfolding joined_aad
joined_aad-injective domain t r t' r' a b c d e =
    let (same_domain, e1) = append_inj e refl in
    let (bar, e2) = append_inj e1 refl in
    let (tenant, e3) =
      append_inj e2 (count-labelled "tenant=" t ∙ sym (count-labelled "tenant=" t')) in
    let (bar', e4) = append_inj e3 refl in
    let (label, t_text) = append_inj tenant refl in
    let (label', r_text) = append_inj e4 refl in
    (uuid_text-injective t t' a c t_text, uuid_text-injective r r' b d r_text)
  where
    count-labelled : (s : String) (u : ℕ) → count (s ++ uuid_text u) ≡ count s + 36
    count-labelled s u = length-append s (uuid_text u) ∙ ap (λ n. count s + n) (count-uuid_text u)
