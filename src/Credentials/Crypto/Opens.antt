-- ===== src/Credentials/Crypto/Opens.antt =====
-- Encryption, rotation and decryption: what was encrypted is what is decrypted, before and after the
-- rotation of keys.
use agentledger_mvp_v.Base.{ℕ, ◌≤◌, String, ◌≡◌, refl, some, Bytes, length, arith, inl, inr}
use agentledger_mvp_v.Base.Int.{ℤ, pos, ◌≤ℤ◌}
use agentledger_mvp_v.Base.Result.{ok, Result-cases}
use agentledger_mvp_v.Credentials.Envelope.{
  CredentialEnvelope, make_envelope, _aad, _identity_bytes, joined_aad, dek_wrap_domain,
  payload_domain,
}
use agentledger_mvp_v.Audit.Texts.{uuid_text}
use agentledger_mvp_v.Credentials.Ring.{VersionedKekRing, find_key, key_for_version}
use agentledger_mvp_v.Credentials.Ring.Valid.{
  IsValid, key_for_version-found, key_for_version-there, find_key-positive,
}
use agentledger_mvp_v.Credentials.Crypto.{
  Aesgcm, IsAead, Drawn, HasSizes, _wrap_dek, opened, _unwrap_dek, encrypt_credential,
  decrypt_credential, rotate_kek, rotate_compromised_key,
}

-- The associated data of a tenant's record.
abbrev pub aad_text : String → ℕ → ℕ → String
aad_text domain tenant rec = joined_aad domain (uuid_text tenant) (uuid_text rec)

pub _aad-of_uuids :
    (domain : String) (tenant rec : ℕ)
    → _aad domain (some tenant) (some rec) ≡ ok (aad_text domain tenant rec)
unfolding _aad _identity_bytes
_aad-of_uuids domain tenant rec = refl

-- Sizes that the constructor of the envelope accepts.
pub record Accepted (e : CredentialEnvelope) : Type 0 where
  pub is_version : e.envelope_version ≡ pos 1
  pub is_positive : pos 1 ≤ℤ e.kek_version
  pub nonce_size : length e.wrapped_dek_nonce ≡ 12
  pub payload_size : length e.payload_nonce ≡ 12
  pub wrapped_size : 33 ≤ length e.wrapped_dek
  pub text_size : 16 ≤ length e.ciphertext

pub make_envelope-Accepted : (e : CredentialEnvelope) → Accepted e → make_envelope e ≡ ok e
unfolding make_envelope
make_envelope-Accepted e a =
    ground (
      arith, a.is_version, a.is_positive, a.nonce_size, a.payload_size, a.wrapped_size, a.text_size,
    )

make_envelope-same : (e e' : CredentialEnvelope) → make_envelope e ≡ ok e' → e' ≡ e
unfolding make_envelope
make_envelope-same e e' h = ground arith

module _ (cipher : Aesgcm) (decimal : ℤ → String) (aead : IsAead cipher) where
  -- The keys with which a ring opens the envelope of a tenant's record, and what is in it.
  pub record Opens (tenant rec : ℕ) (ring : VersionedKekRing) (e : CredentialEnvelope)
      (plain : Bytes) : Type 0 where
    pub kek : Bytes
    pub dek : Bytes
    pub kek_there : find_key e.kek_version ring.keys ≡ some kek
    pub dek_size : length dek ≡ 32
    pub unwraps :
        cipher.decrypt kek e.wrapped_dek_nonce e.wrapped_dek (aad_text dek_wrap_domain tenant rec)
        ≡ some dek
    pub opens :
        cipher.decrypt dek e.payload_nonce e.ciphertext (aad_text payload_domain tenant rec)
        ≡ some plain

  opened-ok :
      (message : String) (k n c : Bytes) (a : String) (p : Bytes)
      → opened cipher decimal message k n c a ≡ ok p
      → cipher.decrypt k n c a ≡ some p
  unfolding opened
  opened-ok message k n c a p h = ground arith

  pub opened-of_some :
      (message : String) (k n c : Bytes) (a : String) (p : Bytes)
      → cipher.decrypt k n c a ≡ some p
      → opened cipher decimal message k n c a ≡ ok p
  unfolding opened
  opened-of_some message k n c a p h = rw (h, opened) refl

  _unwrap_dek-of_some :
      (e : CredentialEnvelope) (tenant rec : ℕ) (kek dek : Bytes)
      → length dek ≡ 32
      → cipher.decrypt kek e.wrapped_dek_nonce e.wrapped_dek (aad_text dek_wrap_domain tenant rec)
        ≡ some dek
      → _unwrap_dek cipher decimal e kek (some tenant) (some rec) ≡ ok dek
  unfolding _unwrap_dek
  _unwrap_dek-of_some e tenant rec kek dek size h =
      rw
        (
          _aad-of_uuids dek_wrap_domain tenant rec,
          opened-of_some "Credential envelope authentication failed" kek e.wrapped_dek_nonce
              e.wrapped_dek _ dek h,
          _unwrap_dek,
          size,
        )
        refl

  _unwrap_dek-ok :
      (e : CredentialEnvelope) (tenant rec : ℕ) (kek dek : Bytes)
      → _unwrap_dek cipher decimal e kek (some tenant) (some rec) ≡ ok dek
      → (length dek ≡ 32)
        × (cipher.decrypt kek e.wrapped_dek_nonce e.wrapped_dek
              (aad_text dek_wrap_domain tenant rec)
            ≡ some dek)
  unfolding _unwrap_dek
  _unwrap_dek-ok e tenant rec kek dek h =
      elim (Result-cases (
        opened cipher decimal "Credential envelope authentication failed" kek e.wrapped_dek_nonce
          e.wrapped_dek (aad_text dek_wrap_domain tenant rec))) [
            | inr (x, q) ↦
                absurd (let z = rw (_aad-of_uuids dek_wrap_domain tenant rec, q) at h in cc (z))
            | inl (d, q) ↦
                let z = rw (_aad-of_uuids dek_wrap_domain tenant rec, q) at h in
                let w = opened-ok _ kek e.wrapped_dek_nonce e.wrapped_dek _ d q in
                ground (arith, z, w)
          ]

  pub decrypt_credential-of_Opens :
      (tenant rec : ℕ) (ring : VersionedKekRing) (e : CredentialEnvelope) (plain : Bytes)
      → Opens tenant rec ring e plain
      → decrypt_credential cipher decimal e (some tenant) (some rec) ring ≡ ok plain
  unfolding decrypt_credential
  decrypt_credential-of_Opens tenant rec ring e plain o =
      rw
        (
          key_for_version-found decimal e.kek_version ring o.kek o.kek_there,
          _unwrap_dek-of_some e tenant rec o.kek o.dek o.dek_size o.unwraps,
          _aad-of_uuids payload_domain tenant rec,
          opened-of_some "Credential ciphertext authentication failed" o.dek e.payload_nonce
              e.ciphertext _ plain o.opens,
          decrypt_credential,
        )
        refl

  pub Opens-of_decrypt :
      (tenant rec : ℕ) (ring : VersionedKekRing) (e : CredentialEnvelope) (plain : Bytes)
      → decrypt_credential cipher decimal e (some tenant) (some rec) ring ≡ ok plain
      → Opens tenant rec ring e plain
  unfolding decrypt_credential
  Opens-of_decrypt tenant rec ring e plain h =
      elim (Result-cases (key_for_version decimal e.kek_version ring)) [
        | inr (x, q) ↦ absurd (let z = rw q at h in cc (z))
        | inl (kek, q) ↦
            elim (Result-cases (_unwrap_dek cipher decimal e kek (some tenant) (some rec))) [
              | inr (x, w) ↦ absurd (let z = rw (q, w) at h in cc (z))
              | inl (dek, w) ↦
                  let z = rw (q, w, _aad-of_uuids payload_domain tenant rec) at h in
                  let (size, u) = _unwrap_dek-ok e tenant rec kek dek w in
                  record {
                    kek = kek;
                    dek = dek;
                    kek_there = key_for_version-there decimal e.kek_version ring kek q;
                    dek_size = size;
                    unwraps = u;
                    opens = opened-ok _ dek e.payload_nonce e.ciphertext _ plain z;
                  }
            ]
      ]

  -- The envelope of a data key under a key of the ring.
  abbrev wrapped_envelope : Bytes → Bytes → Bytes → Bytes → Bytes → ℤ → ℕ → ℕ → CredentialEnvelope
  wrapped_envelope kek nonce dek payload_nonce ciphertext version tenant rec = record {
    envelope_version = pos 1;
    kek_version = version;
    wrapped_dek_nonce = nonce;
    wrapped_dek = cipher.encrypt kek nonce dek (aad_text dek_wrap_domain tenant rec);
    payload_nonce = payload_nonce;
    ciphertext = ciphertext;
  }

  wrapped_envelope-Accepted :
      (kek nonce dek payload_nonce ciphertext : Bytes) (version : ℤ) (tenant rec : ℕ)
      → pos 1 ≤ℤ version
      → length nonce ≡ 12
      → length dek ≡ 32
      → length payload_nonce ≡ 12
      → 16 ≤ length ciphertext
      → Accepted (wrapped_envelope kek nonce dek payload_nonce ciphertext version tenant rec)
  wrapped_envelope-Accepted kek nonce dek payload_nonce ciphertext version tenant rec p n d m c =
      record {
        is_version = refl;
        is_positive = p;
        nonce_size = n;
        payload_size = m;
        wrapped_size =
            omega (arith, d, aead.tagged kek nonce dek (aad_text dek_wrap_domain tenant rec));
        text_size = c;
      }

  _wrap_dek-of_uuids :
      (nonce dek kek : Bytes) (tenant rec : ℕ)
      → _wrap_dek cipher decimal nonce dek kek (some tenant) (some rec)
        ≡ ok (nonce, cipher.encrypt kek nonce dek (aad_text dek_wrap_domain tenant rec))
  unfolding _wrap_dek
  _wrap_dek-of_uuids nonce dek kek tenant rec =
      rw (_aad-of_uuids dek_wrap_domain tenant rec, _wrap_dek) refl

  -- An encryption that returns has wrapped the drawn key under the active one.
  pub encrypt_credential-wrapped :
      (drawn : Drawn) (plain : Bytes) (tenant rec : ℕ) (ring : VersionedKekRing)
      (e : CredentialEnvelope) (valid : IsValid ring)
      → encrypt_credential cipher decimal drawn plain (some tenant) (some rec) ring ≡ ok e
      → (e.kek_version ≡ ring.active_version)
        × (e.wrapped_dek
            ≡ cipher.encrypt valid.active_key e.wrapped_dek_nonce drawn.dek
                (aad_text dek_wrap_domain tenant rec))
  unfolding encrypt_credential
  encrypt_credential-wrapped drawn plain tenant rec ring e valid h =
      let made =
        rw
          (
            _aad-of_uuids payload_domain tenant rec,
            key_for_version-found decimal ring.active_version ring valid.active_key
                valid.active_there,
            _wrap_dek-of_uuids drawn.wrapped_dek_nonce drawn.dek valid.active_key tenant rec,
          )
          at h in
      let same = make_envelope-same _ e made in rw same (refl, refl)

  -- Encryption for a tenant's record always returns.
  pub encrypt_credential-Opens :
      (drawn : Drawn) (plain : Bytes) (tenant rec : ℕ) (ring : VersionedKekRing)
      → IsValid ring
      → HasSizes drawn
      → (e : CredentialEnvelope) × ((encrypt_credential cipher decimal drawn plain
              (some tenant)
              (some rec)
              ring
            ≡ ok e)
          × (Accepted e × ((e.kek_version ≡ ring.active_version) × Opens tenant rec ring e plain)))
  unfolding encrypt_credential
  encrypt_credential-Opens drawn plain tenant rec ring valid sizes = (
    e,
    (
      rw
          (
            _aad-of_uuids payload_domain tenant rec,
            key_for_version-found decimal ring.active_version ring valid.active_key
                valid.active_there,
            _wrap_dek-of_uuids drawn.wrapped_dek_nonce drawn.dek valid.active_key tenant rec,
            encrypt_credential,
          )
          (make_envelope-Accepted e accepted),
      (
        accepted,
        (
          refl,
          record {
            kek = valid.active_key;
            dek = drawn.dek;
            kek_there = valid.active_there;
            dek_size = sizes.dek_size;
            unwraps = aead.opens valid.active_key drawn.wrapped_dek_nonce drawn.dek _;
            opens = aead.opens drawn.dek drawn.payload_nonce plain _;
          },
        ),
      ),
    ),
  )
    where
      e : CredentialEnvelope
      e =
          wrapped_envelope valid.active_key drawn.wrapped_dek_nonce drawn.dek drawn.payload_nonce
            (cipher.encrypt drawn.dek drawn.payload_nonce plain
              (aad_text payload_domain tenant rec))
            ring.active_version tenant rec

      accepted : Accepted e
      accepted =
          wrapped_envelope-Accepted valid.active_key drawn.wrapped_dek_nonce drawn.dek
            drawn.payload_nonce _ ring.active_version tenant rec
            (find_key-positive ring.active_version ring.keys valid.active_key valid.keys_valid
              valid.active_there)
            sizes.wrapped_size sizes.dek_size sizes.payload_size
            (omega (
              arith,
              aead.tagged drawn.dek drawn.payload_nonce plain (aad_text payload_domain tenant rec),
            ))

  -- An envelope that opens is rotated to the active key, and opens as before.
  pub rotate_kek-Opens :
      (nonce : Bytes) (e : CredentialEnvelope) (plain : Bytes) (tenant rec : ℕ)
      (ring : VersionedKekRing)
      → IsValid ring
      → Accepted e
      → length nonce ≡ 12
      → Opens tenant rec ring e plain
      → (e' : CredentialEnvelope) × ((rotate_kek cipher decimal nonce e
              (some tenant)
              (some rec)
              ring
            ≡ ok e')
          × (Accepted e'
              × ((e'.kek_version ≡ ring.active_version)
                  × ((e'.ciphertext ≡ e.ciphertext) × Opens tenant rec ring e' plain))))
  unfolding rotate_kek
  rotate_kek-Opens nonce e plain tenant rec ring valid a size o = (
    e',
    (
      rw
          (
            key_for_version-found decimal e.kek_version ring o.kek o.kek_there,
            _unwrap_dek-of_some e tenant rec o.kek o.dek o.dek_size o.unwraps,
            key_for_version-found decimal ring.active_version ring valid.active_key
                valid.active_there,
            _wrap_dek-of_uuids nonce o.dek valid.active_key tenant rec,
            a.is_version,
            rotate_kek,
          )
          (make_envelope-Accepted e' accepted),
      (
        accepted,
        (
          refl,
          (
            refl,
            record {
              kek = valid.active_key;
              dek = o.dek;
              kek_there = valid.active_there;
              dek_size = o.dek_size;
              unwraps = aead.opens valid.active_key nonce o.dek _;
              opens = o.opens;
            },
          ),
        ),
      ),
    ),
  )
    where
      e' : CredentialEnvelope
      e' =
          wrapped_envelope valid.active_key nonce o.dek e.payload_nonce e.ciphertext
            ring.active_version tenant rec

      accepted : Accepted e'
      accepted =
          wrapped_envelope-Accepted valid.active_key nonce o.dek e.payload_nonce e.ciphertext
            ring.active_version tenant rec
            (find_key-positive ring.active_version ring.keys valid.active_key valid.keys_valid
              valid.active_there)
            size o.dek_size a.payload_size a.text_size

  pub rotate_compromised_key-Opens :
      (drawn : Drawn) (e : CredentialEnvelope) (plain : Bytes) (tenant rec : ℕ)
      (ring : VersionedKekRing)
      → IsValid ring
      → HasSizes drawn
      → Opens tenant rec ring e plain
      → (e' : CredentialEnvelope) × ((rotate_compromised_key cipher decimal drawn e
              (some tenant)
              (some rec)
              ring
            ≡ ok e')
          × (Accepted e'
              × ((e'.kek_version ≡ ring.active_version) × Opens tenant rec ring e' plain)))
  unfolding rotate_compromised_key
  rotate_compromised_key-Opens drawn e plain tenant rec ring valid sizes o =
      let (e', (made, rest)) = encrypt_credential-Opens drawn plain tenant rec ring valid sizes in
      (
        e',
        (
          rw (decrypt_credential-of_Opens tenant rec ring e plain o, rotate_compromised_key) made,
          rest,
        ),
      )
