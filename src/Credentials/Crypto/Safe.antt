-- ===== src/Credentials/Crypto/Safe.antt =====
-- No history of the key ring and the store loses a credential.
use agentledger_mvp_v.Base.{
  String, ◌≡◌, sym, ◌∙◌, ◌≢◌, subst, false, some, List, [], ◌∷◌, Bytes, All, All-imp, All-both,
  All-replace, All-dropped, arith,
}
use agentledger_mvp_v.Base.Int.{ℤ, eq_ℤ_iff}
use agentledger_mvp_v.Base.Result.{Result, ok, ok-injective}
use agentledger_mvp_v.Credentials.Envelope.{CredentialError, CredentialEnvelope}
use agentledger_mvp_v.Credentials.Ring.{VersionedKekRing, find_key, references}
use agentledger_mvp_v.Credentials.Ring.Lookup.{find_key-append, find_key-without_ne}
use agentledger_mvp_v.Credentials.Ring.Valid.{
  IsValid, add_kek-result, activate-result, remove_kek-result, add_kek-IsValid, activate-IsValid,
  remove_kek-IsValid,
}
use agentledger_mvp_v.Credentials.Crypto.{Aesgcm, IsAead}
use agentledger_mvp_v.Credentials.Crypto.Opens.{Opens-of_decrypt, decrypt_credential-of_Opens}
use agentledger_mvp_v.Credentials.Crypto.RoundTrip.{
  IsFresh, encrypt-decrypt, rotate_kek-decrypt, rotate_compromised_key-decrypt,
}
use agentledger_mvp_v.Credentials.Crypto.Vault.{
  Stored, Vault, stored_envelopes, Step, store, rotated, encrypted_again, deleted, key_added,
  key_activated, key_removed, Reach, here, next, Decrypts, IsSound,
}

-- What nobody references is not the version of a stored envelope.
All-unreferenced :
    (version : ℤ) (xs : List Stored)
    → references version (stored_envelopes xs) ≡ false
    → All (λ x. x.envelope.kek_version ≢ version) xs
unfolding references
All-unreferenced version [] h = tt
All-unreferenced version (x ∷ xs) h = (
  (λ q. ground (arith, (eq_ℤ_iff x.envelope.kek_version version).1 q)),
  All-unreferenced version xs (ground arith),
)

module _ (cipher : Aesgcm) (decimal : ℤ → String) (aead : IsAead cipher) where
  -- An envelope decrypts under any ring that has its key.
  Decrypts-same_key :
      (ring ring' : VersionedKekRing) (x : Stored)
      → ((k : Bytes)
          → find_key x.envelope.kek_version ring.keys ≡ some k
          → find_key x.envelope.kek_version ring'.keys ≡ some k)
      → Decrypts cipher decimal ring x
      → Decrypts cipher decimal ring' x
  Decrypts-same_key ring ring' x kept (accepted, h) =
      let o = Opens-of_decrypt cipher decimal aead x.tenant x.rec ring x.envelope x.plain h in
      (
        accepted,
        decrypt_credential-of_Opens cipher decimal aead x.tenant x.rec ring' x.envelope x.plain
            (record {
              kek = o.kek;
              dek = o.dek;
              kek_there = kept o.kek o.kek_there;
              dek_size = o.dek_size;
              unwraps = o.unwraps;
              opens = o.opens;
            }),
      )

  -- The envelope that a call returned in the place of another.
  Decrypts-fresh :
      (ring : VersionedKekRing) (x : Stored) (valid : IsValid ring) (e : CredentialEnvelope)
      → (fresh : CredentialEnvelope)
      → Path (Result CredentialError CredentialEnvelope) (ok fresh) (ok e)
      → IsFresh cipher decimal aead x.tenant x.rec ring valid x.plain fresh
      → Decrypts cipher decimal ring (record x { envelope = e })
  Decrypts-fresh ring x valid e fresh same f =
      subst (λ y. Decrypts cipher decimal ring (record x { envelope = y })) (ok-injective _ _ same)
        (f.accepted, f.decrypts)

  Step-IsSound :
      (v w : Vault) → Step cipher decimal v w → IsSound cipher decimal v → IsSound cipher decimal w
  Step-IsSound v w (store drawn x sizes made e) s =
      let (fresh, (made', f)) =
        encrypt-decrypt cipher decimal aead x.tenant x.rec v.ring s.ring_valid x.plain drawn
          sizes in
      rw e (record {
        ring_valid = s.ring_valid;
        all_decrypt = (
          Decrypts-fresh v.ring x s.ring_valid x.envelope fresh (sym made' ∙ made) f,
          s.all_decrypt,
        );
      })
  Step-IsSound v w (rotated nonce front x back e' at size made e) s =
      let (there, put) =
        All-replace (Decrypts cipher decimal v.ring) front x back
          (subst (All (Decrypts cipher decimal v.ring)) at s.all_decrypt) in
      let (fresh, (made', (same, f))) =
        rotate_kek-decrypt cipher decimal aead x.tenant x.rec v.ring s.ring_valid x.plain x.envelope
          nonce there.0 size there.1 in
      rw e (record {
        ring_valid = s.ring_valid;
        all_decrypt =
            put (record x { envelope = e' })
              (Decrypts-fresh v.ring x s.ring_valid e' fresh (sym made' ∙ made) f);
      })
  Step-IsSound v w (encrypted_again drawn front x back e' at sizes made e) s =
      let (there, put) =
        All-replace (Decrypts cipher decimal v.ring) front x back
          (subst (All (Decrypts cipher decimal v.ring)) at s.all_decrypt) in
      let (fresh, (made', f)) =
        rotate_compromised_key-decrypt cipher decimal aead x.tenant x.rec v.ring s.ring_valid
          x.plain x.envelope drawn sizes there.1 in
      rw e (record {
        ring_valid = s.ring_valid;
        all_decrypt =
            put (record x { envelope = e' })
              (Decrypts-fresh v.ring x s.ring_valid e' fresh (sym made' ∙ made) f);
      })
  Step-IsSound v w (deleted front x back at e) s = rw e (record {
    ring_valid = s.ring_valid;
    all_decrypt =
        All-dropped (Decrypts cipher decimal v.ring) front x back
          (subst (All (Decrypts cipher decimal v.ring)) at s.all_decrypt);
  })
  Step-IsSound v w (key_added version k make_active ring made e) s =
      let (absent, (new, (keys, active))) =
        add_kek-result decimal version k make_active v.ring ring made in
      rw e (record {
        ring_valid = add_kek-IsValid decimal version k make_active v.ring ring made s.ring_valid;
        all_decrypt =
            All-imp
              (λ x.
                Decrypts-same_key v.ring ring x
                  (λ k' h. rw keys (find_key-append x.envelope.kek_version v.ring.keys _ k' h)))
              v.stored s.all_decrypt;
      })
  Step-IsSound v w (key_activated version ring made e) s =
      let (k, (there, same)) = activate-result decimal version v.ring ring made in
      rw e (record {
        ring_valid = activate-IsValid decimal version v.ring ring made s.ring_valid;
        all_decrypt =
            All-imp (λ x. Decrypts-same_key v.ring ring x (λ k' h. rw same h)) v.stored
              s.all_decrypt;
      })
  Step-IsSound v w (key_removed version ring made e) s =
      let (other, (free, same)) =
        remove_kek-result decimal version (stored_envelopes v.stored) v.ring ring made in
      rw e (record {
        ring_valid =
            remove_kek-IsValid decimal version (stored_envelopes v.stored) v.ring ring made
              s.ring_valid;
        all_decrypt =
            All-both
              (λ x ne. Decrypts-same_key v.ring ring x (λ k' h.
                rw same (find_key-without_ne x.envelope.kek_version version v.ring.keys ne ∙ h)))
              v.stored (All-unreferenced version v.stored free) s.all_decrypt;
      })

  -- No history of encryptions, rotations, deletions and methods of the key ring loses a credential:
  -- after it the ring still is valid and every stored envelope decrypts to the plaintext that it was
  -- made of, when this holds at the start. Keys are removed with all stored envelopes given.
  pub vault_keeps :
      (v w : Vault) → IsSound cipher decimal v → Reach cipher decimal v w → IsSound cipher decimal w
  vault_keeps v w s here = s
  vault_keeps v w s (next r step) = Step-IsSound _ w step (vault_keeps v _ s r)
