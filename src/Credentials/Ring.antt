-- ===== src/Credentials/Ring.antt =====
-- The ring of key-encryption keys, `VersionedKEKRing` of apps/credentials/crypto.py. The dictionary
-- is the list of its items. A method that raises has not changed the ring: each of them tests before
-- it assigns, so what a method returns is the ring after the call.
pub mod Lookup
pub mod Valid
use Prim.Native.String.{◌++◌ as append}
use agentledger_mvp_v.Base.{
  String, Bool, true, false, not, ◌||◌, Option, none, some, List, [], ◌∷◌, ◌++◌, Bytes, length,
  ◌==◌, if◌then◌else◌,
}
use agentledger_mvp_v.Base.Int.{ℤ, pos, ltb_ℤ, eq_ℤ}
use agentledger_mvp_v.Base.Result.{Result, err, ok, ◌>>=◌, ◌>>◌, raise_if}
use agentledger_mvp_v.Credentials.Envelope.{
  CredentialError, key, CredentialEnvelope, aes_256_key_bytes,
}

abbrev pub Keys : Type 0
Keys = List (ℤ × Bytes)

pub record VersionedKekRing : Type 0 where
  pub keys : Keys
  pub active_version : ℤ

abbrev pub find_key : ℤ → Keys → Option Bytes
find_key version [] = none
find_key version (item ∷ keys) =
    let rest = find_key version keys in if eq_ℤ item.0 version then some item.1 else rest

abbrev pub has_version : ℤ → Keys → Bool
has_version version keys = elim (find_key version keys) [ none ↦ false | some _ ↦ true ]

unfoldable pub _validate_kek : Bytes → Result CredentialError Bytes
_validate_kek k =
    raise_if (not (length k == aes_256_key_bytes)) (key "KEKs must be exactly 256 bits") >> ok k

unfoldable pub normalize_keys : Keys → Result CredentialError Keys
normalize_keys [] = ok []
normalize_keys (item ∷ keys) =
    raise_if (ltb_ℤ item.0 (pos 1)) (key "KEK versions must be positive integers")
    >> (_validate_kek item.1 >>= λ k. normalize_keys keys >>= λ rest. ok ((item.0, k) ∷ rest))

-- `VersionedKEKRing(keys=..., active_version=...)`
unfoldable pub make_ring : Keys → ℤ → Result CredentialError VersionedKekRing
make_ring keys active_version = normalize_keys keys >>= λ normalized.
    raise_if (not (has_version active_version normalized))
      (key "Active KEK version must exist in the key ring")
    >> ok (record { keys = normalized; active_version = active_version })

-- `any(envelope.kek_version == version for envelope in active_envelopes)`
unfoldable pub references : ℤ → List CredentialEnvelope → Bool
references version [] = false
references version (e ∷ es) = eq_ℤ e.kek_version version || references version es

-- `del keys[version]`
unfoldable pub without : ℤ → Keys → Keys
without version [] = []
without version (item ∷ keys) =
    let rest = without version keys in if eq_ℤ item.0 version then rest else item ∷ rest

module _ (decimal : ℤ → String) where
  unfoldable pub key_for_version : ℤ → VersionedKekRing → Result CredentialError Bytes
  key_for_version version ring = elim (find_key version ring.keys) [
    | none ↦ err (key (append "KEK version " (append (decimal version) " is unavailable")))
    | some k ↦ ok k
  ]

  unfoldable pub add_kek :
      ℤ → Bytes → Bool → VersionedKekRing → Result CredentialError VersionedKekRing
  add_kek version k make_active ring =
      raise_if (ltb_ℤ version (pos 1)) (key "KEK versions must be positive integers")
      >> raise_if (has_version version ring.keys)
          (key (append "KEK version " (append (decimal version) " already exists")))
      >> (_validate_kek k >>= λ checked. ok (record {
        keys = ring.keys ++ ((version, checked) ∷ []);
        active_version = if make_active then version else ring.active_version;
      }))

  unfoldable pub activate : ℤ → VersionedKekRing → Result CredentialError VersionedKekRing
  activate version ring =
      key_for_version version ring >>= λ _. ok (record ring { active_version = version })

  unfoldable pub remove_kek :
      ℤ → List CredentialEnvelope → VersionedKekRing → Result CredentialError VersionedKekRing
  remove_kek version active_envelopes ring =
      raise_if (eq_ℤ version ring.active_version) (key "The active KEK cannot be removed")
      >> (key_for_version version ring >>= λ _.
          raise_if (references version active_envelopes)
            (key "KEK cannot be removed while an active envelope references it")
          >> ok (record ring { keys = without version ring.keys }))
