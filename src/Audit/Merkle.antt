-- ===== src/Audit/Merkle.antt =====
-- Merkle roots and block envelopes (apps/audit/merkle.py). SHA-256 and the canonical JSON of the
-- `rfc8785` package are arguments; a byte string is the list of its bytes.
pub mod Power
pub mod Tree
pub mod Leaves
pub mod Collision
pub use agentledger_mvp_v.Base.{Bytes}
use agentledger_mvp_v.Base.{
  ℕ, zero, suc, ◌-◌, ◌/◌, ◌^◌, ◌<◌, ◌≡◌, String, Bool, true, false, not, ◌||◌, Option, none, some,
  List, [], ◌∷◌, ◌++◌, All, length, take, drop, ltb, ◌==◌, if◌then◌else◌, head_or,
}
use agentledger_mvp_v.Base.Int.{pos}
use agentledger_mvp_v.Base.Json.{Json, Fields, obj, field, end, str, int, null}
use agentledger_mvp_v.Base.Result.{Result, ok, err, ◌>>=◌}

-- The exceptions of the module, and the end of the fuel, which is never met.
pub data MerkleError : Type 0 where
  not_canonical bad_child value_too_small zero_leaves bad_leaf zero_events : MerkleError
  bad_sequence bad_count bad_root bad_previous_hash out_of_fuel : MerkleError

-- `hashlib.sha256` gives 32 bytes; of `rfc8785.dumps`, where `none` stands for an exception, nothing
-- is assumed.
pub record Primitives : Type 0 where
  pub sha256 : Bytes → Bytes
  pub dumps : Json → Option Bytes
  pub sha256_length : (b : Bytes) → length (sha256 b) ≡ 32
  pub sha256_bytes : (b : Bytes) → All (λ x. x < 256) (sha256 b)

-- `int.bit_length`: the number of binary digits, on fuel that the number itself bounds.
unfoldable pub bits : ℕ → ℕ → ℕ
bits zero n = 0
bits (suc fuel) n = let rest = bits fuel (n / 2) in if n == 0 then 0 else suc rest

unfoldable pub bit_length : ℕ → ℕ
unfolding bits
bit_length n = bits n n

-- `_largest_power_of_two_less_than`
unfoldable pub largest_power_of_two_less_than : ℕ → Result MerkleError ℕ
largest_power_of_two_less_than value =
    if ltb value 2 then err value_too_small else ok (2 ^ (bit_length (value - 1) - 1))

-- Some hash is not 32 bytes long.
abbrev pub any_bad : List Bytes → Bool
any_bad [] = false
any_bad (h ∷ hs) = not (length h == 32) || any_bad hs

module _ (c : Primitives) where
  open c use {sha256, dumps}

  unfoldable pub canonical_json : Json → Result MerkleError Bytes
  canonical_json value = elim (dumps value) [ none ↦ err not_canonical | some b ↦ ok b ]

  -- `sha256(b"\x00" + …)`
  unfoldable pub hash_leaf : Fields → Result MerkleError Bytes
  unfolding canonical_json
  hash_leaf event = canonical_json (obj event) >>= λ b. ok (sha256 (0 ∷ b))

  unfoldable pub hash_node : Bytes → Bytes → Result MerkleError Bytes
  hash_node left right =
      if not (length left == 32) || not (length right == 32)
      then err bad_child
      else ok (sha256 (1 ∷ left ++ right))

  unfoldable pub hash_block : Fields → Result MerkleError Bytes
  unfolding canonical_json
  hash_block block = canonical_json (obj block) >>= λ b. ok (sha256 (2 ∷ b))

  -- The recursion of `merkle_root_from_hashes`, on fuel.
  unfoldable pub root_on : ℕ → List Bytes → Result MerkleError Bytes
  unfolding hash_node
  root_on zero hashes = err out_of_fuel
  root_on (suc fuel) hashes =
      if length hashes == 0
      then err zero_leaves
      else if any_bad hashes
      then err bad_leaf
      else elim (length hashes == 1) [
        | true ↦ ok (head_or [] hashes)
        | false ↦ elim (largest_power_of_two_less_than (length hashes)) [
          | err e ↦ err e
          | ok split ↦ root_on fuel (take split hashes) >>= λ left.
              root_on fuel (drop split hashes) >>= λ right. hash_node left right
        ]
      ]

  -- The list shrinks at each call, so its length is fuel enough.
  unfoldable pub merkle_root_from_hashes : List Bytes → Result MerkleError Bytes
  unfolding root_on
  merkle_root_from_hashes hashes = root_on (suc (length hashes)) hashes

  -- `[hash_leaf(event) for event in events]`
  unfoldable pub hash_leaves : List Fields → Result MerkleError (List Bytes)
  unfolding hash_leaf
  hash_leaves [] = ok []
  hash_leaves (event ∷ events) = hash_leaf event >>= λ h. hash_leaves events >>= λ hs. ok (h ∷ hs)

  unfoldable pub merkle_root : List Fields → Result MerkleError Bytes
  merkle_root [] = err zero_events
  merkle_root (event ∷ events) = hash_leaves (event ∷ events) >>= merkle_root_from_hashes
