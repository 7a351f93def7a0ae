-- ===== src/Credentials/Crypto/Binding.antt =====
-- An envelope is bound to the tenant and the record that it was made for.
use agentledger_mvp_v.Base.{
  ℕ, ◌^◌, ◌<◌, String, ◌≡◌, ◌≢◌, ◌⊎◌, inl, inr, refl, some, Bytes, Option-cases,
}
use agentledger_mvp_v.Base.Int.{ℤ}
use agentledger_mvp_v.Base.Result.{ok, err}
use agentledger_mvp_v.Credentials.Envelope.{CredentialEnvelope, decryption, dek_wrap_domain}
use agentledger_mvp_v.Credentials.Envelope.Aad.{joined_aad-injective}
use agentledger_mvp_v.Credentials.Ring.{VersionedKekRing}
use agentledger_mvp_v.Credentials.Ring.Valid.{IsValid, key_for_version-found}
use agentledger_mvp_v.Credentials.Crypto.{
  Aesgcm, IsAead, Drawn, encrypt_credential, decrypt_credential, _unwrap_dek, opened,
}
use agentledger_mvp_v.Credentials.Crypto.Opens.{encrypt_credential-wrapped, _aad-of_uuids, aad_text}

module _ (cipher : Aesgcm) (decimal : ℤ → String) (aead : IsAead cipher) where
  -- What was encrypted under one text of associated data is refused under another.
  opened-refused :
      (message : String) (k n p : Bytes) (a b : String)
      → a ≢ b
      → opened cipher decimal message k n (cipher.encrypt k n p a) b ≡ err (decryption message)
  unfolding opened
  opened-refused message k n p a b ne =
      elim (Option-cases (cipher.decrypt k n (cipher.encrypt k n p a) b)) [
        | inl e ↦ rw (e, opened) refl
        | inr (q, e) ↦ absurd (ne (aead.authentic k n p q a b e))
      ]

  -- With a valid key ring, an envelope that was made for a record of a tenant does not decrypt for
  -- another tenant or another record: the call raises CredentialDecryptionError. Tenants and records
  -- are UUIDs.
  pub decrypt_credential-refused :
      (drawn : Drawn) (plain : Bytes) (tenant rec tenant' rec' : ℕ) (ring : VersionedKekRing)
      (e : CredentialEnvelope)
      → IsValid ring
      → (tenant < 2 ^ 128) × ((rec < 2 ^ 128) × ((tenant' < 2 ^ 128) × (rec' < 2 ^ 128)))
      → encrypt_credential cipher decimal drawn plain (some tenant) (some rec) ring ≡ ok e
      → (tenant ≢ tenant') ⊎ (rec ≢ rec')
      → decrypt_credential cipher decimal e (some tenant') (some rec') ring
        ≡ err (decryption "Credential envelope authentication failed")
  unfolding decrypt_credential _unwrap_dek
  decrypt_credential-refused drawn plain tenant rec tenant' rec' ring e valid sizes h other =
      let (active, wrapped) =
        encrypt_credential-wrapped cipher decimal aead drawn plain tenant rec ring e valid h in
      rw
        (
          active,
          key_for_version-found decimal ring.active_version ring valid.active_key
              valid.active_there,
          _unwrap_dek,
          _aad-of_uuids dek_wrap_domain tenant' rec',
          wrapped,
          opened-refused "Credential envelope authentication failed" valid.active_key
              e.wrapped_dek_nonce drawn.dek (aad_text dek_wrap_domain tenant rec)
              (aad_text dek_wrap_domain tenant' rec') differs,
          decrypt_credential,
        )
        refl
    where
      differs : aad_text dek_wrap_domain tenant rec ≢ aad_text dek_wrap_domain tenant' rec'
      differs q =
          let (t, r) =
            joined_aad-injective dek_wrap_domain tenant rec tenant' rec' sizes.0 sizes.1.0
              sizes.1.1.0 sizes.1.1.1 q in
          elim other [ inl ne ↦ ne t | inr ne ↦ ne r ]
