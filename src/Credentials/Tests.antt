-- ===== src/Credentials/Tests.antt =====
-- Runs of the credential envelopes, and the theorems at concrete inputs. The cipher of these runs
-- writes 16 zeros and the associated data in front of the text.
use Prim.Native.String as Text
use Prim.Native.String.{String}
use Prim.Native.Char.{code}
use text.Mathlib.TextEquality.{Char-path}
use agentledger_mvp_v.Base.{
  ℕ, zero, suc, ◌≤◌, ◌≡◌, refl, ◌==◌, ==_iff, ==_refl, Option, none, some, Bytes, length, [], ◌∷◌,
  drop, arith, Bool-cases, inl, inr, if◌then◌else◌,
}
use agentledger_mvp_v.Base.Int.{ℤ, pos}
use agentledger_mvp_v.Base.Result.{ok, err}
use agentledger_mvp_v.Audit.Texts.{uuid_text}
use agentledger_mvp_v.Credentials.Envelope.{
  CredentialEnvelope, decryption, make_envelope, _aad, _identity_bytes, joined_aad, dek_wrap_domain,
  payload_domain,
}
use agentledger_mvp_v.Credentials.Ring.{
  VersionedKekRing, make_ring, normalize_keys, _validate_kek, key_for_version, remove_kek,
  references, without,
}
use agentledger_mvp_v.Credentials.Ring.Valid.{IsValid, make_ring-IsValid}
use agentledger_mvp_v.Credentials.Crypto.{
  Aesgcm, IsAead, Drawn, HasSizes, encrypt_credential, decrypt_credential, rotate_kek,
  rotate_compromised_key, _wrap_dek, _unwrap_dek, opened,
}
use agentledger_mvp_v.Credentials.Crypto.Opens.{Accepted, aad_text}
use agentledger_mvp_v.Credentials.Crypto.RoundTrip.{
  IsFresh, encrypt-decrypt, rotate_kek-decrypt, rotate_compromised_key-decrypt,
}
use agentledger_mvp_v.Credentials.Crypto.Binding.{decrypt_credential-refused}
use agentledger_mvp_v.Credentials.Crypto.Vault.{
  Stored, Vault, store, key_removed, Reach, here, next, IsSound,
}
use agentledger_mvp_v.Credentials.Crypto.Safe.{vault_keeps}

abbrev pub mark : String → Bytes → Bytes
mark Text.[] plain = 0 ∷ plain
mark (Text.◌∷◌ c a) plain = suc (code c) ∷ mark a plain

abbrev pub zeros : ℕ → Bytes → Bytes
zeros zero b = b
zeros (suc n) b = 0 ∷ zeros n b

abbrev pub unmark : String → Bytes → Option Bytes
unmark _ [] = none
unmark Text.[] (zero ∷ plain) = some plain
unmark Text.[] (suc x ∷ plain) = none
unmark (Text.◌∷◌ c a) (zero ∷ plain) = none
unmark (Text.◌∷◌ c a) (suc x ∷ plain) =
    let rest = unmark a plain in if code c == x then rest else none

abbrev pub toy : Aesgcm
toy = record { encrypt = λ k n p a. zeros 16 (mark a p); decrypt = λ k n c a. unmark a (drop 16 c) }

unmark-mark : (a : String) (p : Bytes) → unmark a (mark a p) ≡ some p
unmark-mark Text.[] p = refl
unmark-mark (Text.◌∷◌ c a) p = rw (==_refl (code c), unmark-mark a p) refl

unmark-same : (a b : String) (p q : Bytes) → unmark b (mark a p) ≡ some q → a ≡ b
unmark-same Text.[] Text.[] p q h = refl
unmark-same Text.[] (Text.◌∷◌ d b) p q h = cc
unmark-same (Text.◌∷◌ c a) Text.[] p q h = cc
unmark-same (Text.◌∷◌ c a) (Text.◌∷◌ d b) p q h = elim (Bool-cases (code d == code c)) [
  | inr e ↦ absurd (let z = rw e at h in cc (z))
  | inl e ↦
      let rest = unmark-same a b p q (rw e at h) in
      let same = Char-path d c ((==_iff (code d) (code c)).0 e) in cc (same, rest)
]

length-mark : (a : String) (p : Bytes) → length p ≤ length (mark a p)
length-mark Text.[] p = omega arith
length-mark (Text.◌∷◌ c a) p = omega (arith, length-mark a p)

toy-IsAead : IsAead toy
toy-IsAead = record {
  opens = λ k n p a. unmark-mark a p;
  authentic = λ k n p q a b h. unmark-same a b p q h;
  tagged = λ k n p a. omega (arith, length-mark a p);
}

abbrev pub decimal : ℤ → String
decimal v = "1"

abbrev pub drawn : Drawn
drawn = record { dek = zeros 32 []; payload_nonce = zeros 12 []; wrapped_dek_nonce = zeros 12 [] }

drawn-HasSizes : HasSizes drawn
drawn-HasSizes = record { dek_size = refl; payload_size = refl; wrapped_size = refl }

-- Versions 1 and 2 of the key, where 1 is active.
abbrev pub ring : VersionedKekRing
ring = record {
  keys = (pos 1, zeros 32 []) ∷ (pos 2, zeros 31 (7 ∷ [])) ∷ [];
  active_version = pos 1;
}

ring_run : make_ring ring.keys (pos 1) ≡ ok ring
unfolding make_ring normalize_keys _validate_kek
ring_run = refl

-- A ring whose active version is missing is refused, and so is the removal of the active key.
remove_run :
    remove_kek decimal (pos 2) [] ring ≡ ok (record ring { keys = (pos 1, zeros 32 []) ∷ [] })
unfolding remove_kek key_for_version references without
remove_run = refl

ring-IsValid : IsValid ring
ring-IsValid = make_ring-IsValid ring.keys (pos 1) ring ring_run

abbrev pub secret : Bytes
secret = 115 ∷ 101 ∷ []

encrypt-decrypt_example :
    (e : CredentialEnvelope) × ((encrypt_credential toy decimal drawn secret (some 7) (some 9) ring
        ≡ ok e)
      × IsFresh toy decimal toy-IsAead 7 9 ring ring-IsValid secret e)
encrypt-decrypt_example =
    encrypt-decrypt toy decimal toy-IsAead 7 9 ring ring-IsValid secret drawn drawn-HasSizes

-- The envelope of that encryption.
abbrev pub first : CredentialEnvelope
first = record {
  envelope_version = pos 1;
  kek_version = pos 1;
  wrapped_dek_nonce = zeros 12 [];
  wrapped_dek = zeros 16 (mark (aad_text dek_wrap_domain 7 9) (zeros 32 []));
  payload_nonce = zeros 12 [];
  ciphertext = zeros 16 (mark (aad_text payload_domain 7 9) secret);
}

first_run : encrypt_credential toy decimal drawn secret (some 7) (some 9) ring ≡ ok first
unfolding encrypt_credential _aad _identity_bytes joined_aad key_for_version _wrap_dek make_envelope
    uuid_text
first_run = refl

first-decrypts : decrypt_credential toy decimal first (some 7) (some 9) ring ≡ ok secret
unfolding decrypt_credential _aad _identity_bytes joined_aad key_for_version _unwrap_dek opened
    uuid_text
first-decrypts = refl

first-Accepted : Accepted first
unfolding joined_aad uuid_text
first-Accepted = record {
  is_version = refl;
  is_positive = omega arith;
  nonce_size = refl;
  payload_size = refl;
  wrapped_size = omega arith;
  text_size = omega arith;
}

rotate_kek-decrypt_example :
    (e : CredentialEnvelope) × ((rotate_kek toy decimal (zeros 12 []) first (some 7) (some 9) ring
        ≡ ok e)
      × ((e.ciphertext ≡ first.ciphertext)
          × IsFresh toy decimal toy-IsAead 7 9 ring ring-IsValid secret e))
rotate_kek-decrypt_example =
    rotate_kek-decrypt toy decimal toy-IsAead 7 9 ring ring-IsValid secret first (zeros 12 [])
      first-Accepted refl first-decrypts

rotate_compromised_key-decrypt_example :
    (e : CredentialEnvelope) × ((rotate_compromised_key toy decimal drawn first
          (some 7)
          (some 9)
          ring
        ≡ ok e)
      × IsFresh toy decimal toy-IsAead 7 9 ring ring-IsValid secret e)
rotate_compromised_key-decrypt_example =
    rotate_compromised_key-decrypt toy decimal toy-IsAead 7 9 ring ring-IsValid secret first drawn
      drawn-HasSizes first-decrypts

decrypt_credential-refused_example :
    decrypt_credential toy decimal first (some 8) (some 9) ring
    ≡ err (decryption "Credential envelope authentication failed")
decrypt_credential-refused_example =
    decrypt_credential-refused toy decimal toy-IsAead drawn secret 7 9 8 9 ring first ring-IsValid
      (omega arith, (omega arith, (omega arith, omega arith))) first_run (inl (omega arith))

-- The secret is stored, and then version 2 of the key is removed.
abbrev pub kept : Stored
kept = record { tenant = 7; rec = 9; plain = secret; envelope = first }

abbrev pub empty : Vault
empty = record { ring = ring; stored = [] }

abbrev pub smaller : VersionedKekRing
smaller = record ring { keys = (pos 1, zeros 32 []) ∷ [] }

abbrev pub filled : Vault
filled = record { ring = smaller; stored = kept ∷ [] }

smaller_run : remove_kek decimal (pos 2) (first ∷ []) ring ≡ ok smaller
unfolding remove_kek key_for_version references without
smaller_run = refl

filled-reached : Reach toy decimal empty filled
filled-reached =
    next (next here (store drawn kept drawn-HasSizes first_run refl))
      (key_removed (pos 2) smaller smaller_run refl)

vault_keeps_example : IsSound toy decimal filled
vault_keeps_example =
    vault_keeps toy decimal toy-IsAead empty filled
      (record { ring_valid = ring-IsValid; all_decrypt = tt }) filled-reached
