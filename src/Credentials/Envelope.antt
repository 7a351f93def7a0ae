-- ===== src/Credentials/Envelope.antt =====
-- The envelope of a stored credential and what authenticates it (apps/credentials/crypto.py).
-- A tenant or record is given by what `uuid.UUID(str(value))` makes of it: its 128-bit number, or
-- nothing where that raises. The associated data is ASCII, so its bytes are written as a text.
pub mod Aad
use Prim.Native.String.{◌++◌}
use agentledger_mvp_v.Base.{
  ℕ, ◌-◌, ◌≡◌, String, Bool, false, not, Option, none, some, Bytes, length, ltb, leb, ◌==◌,
}
use agentledger_mvp_v.Base.Int.{ℤ, pos, ltb_ℤ}
use agentledger_mvp_v.Base.Result.{Result, err, ok, ◌>>=◌, ◌>>◌, raise_if}
use agentledger_mvp_v.Audit.Texts.{uuid_text}

pub data CredentialError : Type 0 where
  crypto : String → CredentialError
  decryption : String → CredentialError
  key : String → CredentialError

pub record CredentialEnvelope : Type 0 where
  pub envelope_version : ℤ
  pub kek_version : ℤ
  pub wrapped_dek_nonce : Bytes
  pub wrapped_dek : Bytes
  pub payload_nonce : Bytes
  pub ciphertext : Bytes

abbrev pub aes_256_key_bytes : ℕ
aes_256_key_bytes = 32

abbrev pub aes_gcm_nonce_bytes : ℕ
aes_gcm_nonce_bytes = 12

abbrev pub current_version : ℤ
current_version = pos 1

abbrev pub is_current : ℤ → Bool
is_current (pos n) = n == 1
is_current _ = false

-- `CredentialEnvelope(...)`: the fields, as `__post_init__` accepts them.
unfoldable pub make_envelope : CredentialEnvelope → Result CredentialError CredentialEnvelope
make_envelope e =
    raise_if (not (is_current e.envelope_version))
      (crypto "Unsupported credential envelope version")
    >> raise_if (ltb_ℤ e.kek_version (pos 1)) (crypto "KEK version must be positive")
    >> raise_if (not (length e.wrapped_dek_nonce == aes_gcm_nonce_bytes))
        (crypto "Wrapped DEK nonce must be 12 bytes")
    >> raise_if (not (length e.payload_nonce == aes_gcm_nonce_bytes))
        (crypto "Payload nonce must be 12 bytes")
    >> raise_if (leb (length e.wrapped_dek) aes_256_key_bytes) (crypto "Wrapped DEK is invalid")
    >> raise_if (ltb (length e.ciphertext) 16) (crypto "Credential ciphertext is invalid")
    >> ok e

unfoldable pub _identity_bytes : Option ℕ → String → Result CredentialError String
_identity_bytes none field_name = err (crypto (field_name ++ " must be a UUID"))
_identity_bytes (some u) field_name = ok (uuid_text u)

abbrev pub dek_wrap_domain : String
dek_wrap_domain = "agentledger:credential-envelope:dek:v1"

abbrev pub payload_domain : String
payload_domain = "agentledger:credential-envelope:payload:v1"

unfoldable pub joined_aad : String → String → String → String
joined_aad domain tenant record_text =
    domain ++ ("|" ++ (("tenant=" ++ tenant) ++ ("|" ++ ("record=" ++ record_text))))

unfoldable pub _aad : String → (tenant_id record_id : Option ℕ) → Result CredentialError String
_aad domain tenant_id record_id = _identity_bytes tenant_id "tenant_id" >>= λ tenant.
    _identity_bytes record_id "record_id" >>= λ record_text.
    ok (joined_aad domain tenant record_text)
