-- ===== src/Credentials/Crypto/RoundTrip.antt =====
-- What was encrypted for a tenant's record is what is decrypted, before and after the two rotations.
use agentledger_mvp_v.Base.{ℕ, String, ◌≡◌, some, Bytes, length}
use agentledger_mvp_v.Base.Int.{ℤ}
use agentledger_mvp_v.Base.Result.{ok}
use agentledger_mvp_v.Credentials.Envelope.{CredentialEnvelope}
use agentledger_mvp_v.Credentials.Ring.{VersionedKekRing}
use agentledger_mvp_v.Credentials.Ring.Valid.{IsValid}
use agentledger_mvp_v.Credentials.Crypto.{
  Aesgcm, IsAead, Drawn, HasSizes, encrypt_credential, decrypt_credential, rotate_kek,
  rotate_compromised_key,
}
use agentledger_mvp_v.Credentials.Crypto.Opens.{
  Accepted, encrypt_credential-Opens, decrypt_credential-of_Opens, Opens-of_decrypt,
  rotate_kek-Opens, rotate_compromised_key-Opens,
}

module _ (cipher : Aesgcm) (decimal : ℤ → String) (aead : IsAead cipher) (tenant rec : ℕ)
    (ring : VersionedKekRing) (valid : IsValid ring) (plain : Bytes) where
  -- `e` is what a call returned, it is under the active key and has the sizes that envelopes have, and
  -- it decrypts to `plain`.
  pub record IsFresh (e : CredentialEnvelope) : Type 0 where
    pub accepted : Accepted e
    pub is_active : e.kek_version ≡ ring.active_version
    pub decrypts : decrypt_credential cipher decimal e (some tenant) (some rec) ring ≡ ok plain

  -- With a valid key ring and drawn keys and nonces of the right sizes, encryption for a record of a
  -- tenant always returns an envelope under the active key, and its decryption for the same record
  -- returns what was encrypted.
  pub encrypt-decrypt :
      (drawn : Drawn)
      → HasSizes drawn
      → (e : CredentialEnvelope) × ((encrypt_credential cipher decimal drawn plain
              (some tenant)
              (some rec)
              ring
            ≡ ok e)
          × IsFresh e)
  encrypt-decrypt drawn sizes =
      let (e, (made, (accepted, (active, o)))) =
        encrypt_credential-Opens cipher decimal aead drawn plain tenant rec ring valid sizes in
      (
        e,
        (
          made,
          record {
            accepted = accepted;
            is_active = active;
            decrypts = decrypt_credential-of_Opens cipher decimal aead tenant rec ring e plain o;
          },
        ),
      )

  -- With a valid key ring, an envelope that decrypts is rotated: `rotate_kek` returns an envelope
  -- under the active key with the same ciphertext, and it decrypts to the same plaintext.
  pub rotate_kek-decrypt :
      (e : CredentialEnvelope) (nonce : Bytes)
      → Accepted e
      → length nonce ≡ 12
      → decrypt_credential cipher decimal e (some tenant) (some rec) ring ≡ ok plain
      → (e' : CredentialEnvelope) × ((rotate_kek cipher decimal nonce e
              (some tenant)
              (some rec)
              ring
            ≡ ok e')
          × ((e'.ciphertext ≡ e.ciphertext) × IsFresh e'))
  rotate_kek-decrypt e nonce accepted size h =
      let o = Opens-of_decrypt cipher decimal aead tenant rec ring e plain h in
      let (e', (made, (accepted', (active, (same, o'))))) =
        rotate_kek-Opens cipher decimal aead nonce e plain tenant rec ring valid accepted size o in
      (
        e',
        (
          made,
          (
            same,
            record {
              accepted = accepted';
              is_active = active;
              decrypts =
                  decrypt_credential-of_Opens cipher decimal aead tenant rec ring e' plain o';
            },
          ),
        ),
      )

  -- With a valid key ring, `rotate_compromised_key` of an envelope that decrypts returns an envelope
  -- under the active key, and it decrypts to the same plaintext.
  pub rotate_compromised_key-decrypt :
      (e : CredentialEnvelope) (drawn : Drawn)
      → HasSizes drawn
      → decrypt_credential cipher decimal e (some tenant) (some rec) ring ≡ ok plain
      → (e' : CredentialEnvelope) × ((rotate_compromised_key cipher decimal drawn e
              (some tenant)
              (some rec)
              ring
            ≡ ok e')
          × IsFresh e')
  rotate_compromised_key-decrypt e drawn sizes h =
      let o = Opens-of_decrypt cipher decimal aead tenant rec ring e plain h in
      let (e', (made, (accepted, (active, o')))) =
        rotate_compromised_key-Opens cipher decimal aead drawn e plain tenant rec ring valid sizes
          o in
      (
        e',
        (
          made,
          record {
            accepted = accepted;
            is_active = active;
            decrypts = decrypt_credential-of_Opens cipher decimal aead tenant rec ring e' plain o';
          },
        ),
      )
