-- ===== src/Credentials/Crypto/Vault.antt =====
-- Histories of a key ring and of the envelopes that are stored under it: encryptions, rotations,
-- deletions, and the methods of the ring, in any order. `remove_kek` is given all stored envelopes, as
-- its caller has to.
use agentledger_mvp_v.Base.{ℕ, String, ◌≡◌, Bool, some, List, ◌∷◌, ◌++◌, map, Bytes, length, All}
use agentledger_mvp_v.Base.Int.{ℤ}
use agentledger_mvp_v.Base.Result.{ok}
use agentledger_mvp_v.Credentials.Envelope.{CredentialEnvelope}
use agentledger_mvp_v.Credentials.Ring.{VersionedKekRing, add_kek, activate, remove_kek}
use agentledger_mvp_v.Credentials.Ring.Valid.{IsValid}
use agentledger_mvp_v.Credentials.Crypto.{
  Aesgcm, Drawn, HasSizes, encrypt_credential, decrypt_credential, rotate_kek,
  rotate_compromised_key,
}
use agentledger_mvp_v.Credentials.Crypto.Opens.{Accepted}

pub record Stored : Type 0 where
  pub tenant : ℕ
  pub rec : ℕ
  pub plain : Bytes
  pub envelope : CredentialEnvelope

pub record Vault : Type 0 where
  pub ring : VersionedKekRing
  pub stored : List Stored

abbrev pub stored_envelopes : List Stored → List CredentialEnvelope
stored_envelopes xs = map (λ x. x.envelope) xs

module _ (cipher : Aesgcm) (decimal : ℤ → String) where
  -- One call, with what it draws, and what the store does with the envelope that it returned.
  pub data Step (v w : Vault) : Type 0 where
    store :
        (drawn : Drawn) (x : Stored)
        → HasSizes drawn
        → encrypt_credential cipher decimal drawn x.plain (some x.tenant) (some x.rec) v.ring
          ≡ ok x.envelope
        → w ≡ record v { stored = x ∷ v.stored }
        → Step v w
    rotated :
        (nonce : Bytes) (front : List Stored) (x : Stored) (back : List Stored)
        (e : CredentialEnvelope)
        → v.stored ≡ front ++ (x ∷ back)
        → length nonce ≡ 12
        → rotate_kek cipher decimal nonce x.envelope (some x.tenant) (some x.rec) v.ring ≡ ok e
        → w ≡ record v { stored = front ++ ((record x { envelope = e }) ∷ back) }
        → Step v w
    encrypted_again :
        (drawn : Drawn) (front : List Stored) (x : Stored) (back : List Stored)
        (e : CredentialEnvelope)
        → v.stored ≡ front ++ (x ∷ back)
        → HasSizes drawn
        → rotate_compromised_key cipher decimal drawn x.envelope (some x.tenant) (some x.rec) v.ring
          ≡ ok e
        → w ≡ record v { stored = front ++ ((record x { envelope = e }) ∷ back) }
        → Step v w
    deleted :
        (front : List Stored) (x : Stored) (back : List Stored)
        → v.stored ≡ front ++ (x ∷ back)
        → w ≡ record v { stored = front ++ back }
        → Step v w
    key_added :
        (version : ℤ) (k : Bytes) (make_active : Bool) (ring : VersionedKekRing)
        → add_kek decimal version k make_active v.ring ≡ ok ring
        → w ≡ record v { ring = ring }
        → Step v w
    key_activated :
        (version : ℤ) (ring : VersionedKekRing)
        → activate decimal version v.ring ≡ ok ring
        → w ≡ record v { ring = ring }
        → Step v w
    key_removed :
        (version : ℤ) (ring : VersionedKekRing)
        → remove_kek decimal version (stored_envelopes v.stored) v.ring ≡ ok ring
        → w ≡ record v { ring = ring }
        → Step v w

  pub data Reach (v : Vault) : Vault → Type 0 where
    here : Reach v v
    next : {u w : Vault} → Reach v u → Step u w → Reach v w

  abbrev pub Decrypts : VersionedKekRing → Stored → Type 0
  Decrypts ring x =
      Accepted x.envelope
      × (decrypt_credential cipher decimal x.envelope (some x.tenant) (some x.rec) ring
          ≡ ok x.plain)

  pub record IsSound (v : Vault) : Type 0 where
    pub ring_valid : IsValid v.ring
    pub all_decrypt : All (Decrypts v.ring) v.stored
