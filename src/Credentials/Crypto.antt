-- ===== src/Credentials/Crypto.antt =====
-- Encryption, decryption and the two rotations of apps/credentials/crypto.py. The cipher is
-- `AESGCM` of the `cryptography` package, a parameter; what `os.urandom` and `generate_key` draw are
-- arguments.
pub mod Opens
pub mod RoundTrip
pub mod Binding
pub mod Vault
pub mod Safe
use agentledger_mvp_v.Base.{
  ℕ, ◌+◌, ◌≤◌, ◌≡◌, String, Bool, not, Option, none, some, Bytes, length, ◌==◌,
}
use agentledger_mvp_v.Base.Int.{ℤ}
use agentledger_mvp_v.Base.Result.{Result, err, ok, ◌>>=◌, ◌>>◌, raise_if}
use agentledger_mvp_v.Credentials.Envelope.{
  CredentialError, decryption, CredentialEnvelope, make_envelope, _aad, dek_wrap_domain,
  payload_domain, current_version, aes_256_key_bytes, aes_gcm_nonce_bytes,
}
use agentledger_mvp_v.Credentials.Ring.{VersionedKekRing, key_for_version}

-- `AESGCM(key).encrypt(nonce, data, associated_data)` and `decrypt`, where nothing stands for
-- `InvalidTag`.
pub record Aesgcm : Type 0 where
  pub encrypt : (key nonce plain : Bytes) → String → Bytes
  pub decrypt : (key nonce cipher : Bytes) → String → Option Bytes

-- What the package documents: decryption gives back what was encrypted, it is refused under other
-- associated data, and the text carries a tag of 16 bytes.
pub record IsAead (c : Aesgcm) : Type 0 where
  pub opens : (k n p : Bytes) (a : String) → c.decrypt k n (c.encrypt k n p a) a ≡ some p
  pub authentic :
      (k n p q : Bytes) (a b : String) → c.decrypt k n (c.encrypt k n p a) b ≡ some q → a ≡ b
  pub tagged : (k n p : Bytes) (a : String) → length p + 16 ≤ length (c.encrypt k n p a)

-- What one encryption draws.
pub record Drawn : Type 0 where
  pub dek : Bytes
  pub payload_nonce : Bytes
  pub wrapped_dek_nonce : Bytes

pub record HasSizes (d : Drawn) : Type 0 where
  pub dek_size : length d.dek ≡ aes_256_key_bytes
  pub payload_size : length d.payload_nonce ≡ aes_gcm_nonce_bytes
  pub wrapped_size : length d.wrapped_dek_nonce ≡ aes_gcm_nonce_bytes

module _ (cipher : Aesgcm) (decimal : ℤ → String) where
  unfoldable pub _wrap_dek :
      (nonce dek kek : Bytes) (tenant_id record_id : Option ℕ)
      → Result CredentialError (Bytes × Bytes)
  _wrap_dek nonce dek kek tenant_id record_id = _aad dek_wrap_domain tenant_id record_id >>= λ aad.
      ok (nonce, cipher.encrypt kek nonce dek aad)

  -- `AESGCM(key).decrypt(...)`, with `InvalidTag` turned into the program's error.
  unfoldable pub opened : String → (key nonce text : Bytes) → String → Result CredentialError Bytes
  opened message key nonce text aad = elim (cipher.decrypt key nonce text aad) [
    | none ↦ err (decryption message)
    | some plain ↦ ok plain
  ]

  unfoldable pub _unwrap_dek :
      CredentialEnvelope → Bytes → (tenant_id record_id : Option ℕ) → Result CredentialError Bytes
  _unwrap_dek envelope kek tenant_id record_id = _aad dek_wrap_domain tenant_id record_id >>= λ aad.
      opened "Credential envelope authentication failed" kek envelope.wrapped_dek_nonce
        envelope.wrapped_dek aad
      >>= λ dek.
          raise_if (not (length dek == aes_256_key_bytes))
            (decryption "Credential DEK has an invalid size")
          >> ok dek

  unfoldable pub encrypt_credential :
      Drawn
      → Bytes
      → (tenant_id record_id : Option ℕ) → VersionedKekRing
      → Result CredentialError CredentialEnvelope
  encrypt_credential drawn plaintext tenant_id record_id key_ring =
      _aad payload_domain tenant_id record_id >>= λ payload_aad.
      key_for_version decimal key_ring.active_version key_ring >>= λ kek.
      _wrap_dek drawn.wrapped_dek_nonce drawn.dek kek tenant_id record_id >>= λ wrapped.
      make_envelope (record {
        envelope_version = current_version;
        kek_version = key_ring.active_version;
        wrapped_dek_nonce = wrapped.0;
        wrapped_dek = wrapped.1;
        payload_nonce = drawn.payload_nonce;
        ciphertext = cipher.encrypt drawn.dek drawn.payload_nonce plaintext payload_aad;
      })

  unfoldable pub decrypt_credential :
      CredentialEnvelope
      → (tenant_id record_id : Option ℕ) → VersionedKekRing
      → Result CredentialError Bytes
  decrypt_credential envelope tenant_id record_id key_ring =
      key_for_version decimal envelope.kek_version key_ring >>= λ kek.
      _unwrap_dek envelope kek tenant_id record_id >>= λ dek.
      _aad payload_domain tenant_id record_id >>= λ payload_aad.
      opened "Credential ciphertext authentication failed" dek envelope.payload_nonce
        envelope.ciphertext payload_aad

  unfoldable pub rotate_kek :
      (nonce : Bytes)
      → CredentialEnvelope
      → (tenant_id record_id : Option ℕ) → VersionedKekRing
      → Result CredentialError CredentialEnvelope
  rotate_kek nonce envelope tenant_id record_id key_ring =
      key_for_version decimal envelope.kek_version key_ring >>= λ old_kek.
      _unwrap_dek envelope old_kek tenant_id record_id >>= λ dek.
      key_for_version decimal key_ring.active_version key_ring >>= λ new_kek.
      _wrap_dek nonce dek new_kek tenant_id record_id >>= λ wrapped. make_envelope (record {
        envelope_version = envelope.envelope_version;
        kek_version = key_ring.active_version;
        wrapped_dek_nonce = wrapped.0;
        wrapped_dek = wrapped.1;
        payload_nonce = envelope.payload_nonce;
        ciphertext = envelope.ciphertext;
      })

  unfoldable pub rotate_compromised_key :
      Drawn
      → CredentialEnvelope
      → (tenant_id record_id : Option ℕ) → VersionedKekRing
      → Result CredentialError CredentialEnvelope
  rotate_compromised_key drawn envelope tenant_id record_id key_ring =
      decrypt_credential envelope tenant_id record_id key_ring >>= λ plaintext.
      encrypt_credential drawn plaintext tenant_id record_id key_ring
