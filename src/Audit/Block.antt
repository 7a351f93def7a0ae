-- ===== src/Audit/Block.antt =====
-- `build_block_envelope` (apps/audit/merkle.py).
use Prim.Native.String.{count}
use agentledger_mvp_v.Base.{
  ℕ, ◌≡◌, arith, String, Bool, false, not, Option, none, some, ltb, ◌==◌, if◌then◌else◌,
}
use agentledger_mvp_v.Base.Int.{pos}
use agentledger_mvp_v.Base.Json.{Json, Fields, field, end, str, int, null}
use agentledger_mvp_v.Base.Result.{Result, ok, err}
use agentledger_mvp_v.Audit.Merkle.{
  MerkleError, bad_sequence, bad_count, bad_root, bad_previous_hash,
}

-- A value that may be `None`, in JSON.
abbrev pub optional : Option String → Json
optional none = null
optional (some s) = str s

-- `len(previous_block_hash) != 64`, where there is one.
abbrev pub bad_hash : Option String → Bool
bad_hash none = false
bad_hash (some p) = not (count p == 64)

abbrev pub block_fields : String → ℕ → ℕ → String → String → String → Option String → Fields
block_fields organization_id block_sequence event_count first last root previous =
    field "version" (str "AL-BLOCK-1") (
      field "organization_id" (str organization_id) (
        field "block_sequence" (int (pos block_sequence)) (
          field "event_count" (int (pos event_count)) (
            field "first_event_id" (str first) (
              field "last_event_id" (str last) (
                field "merkle_root" (str root)
                  (field "previous_block_hash" (optional previous) end)))))))

unfoldable pub build_block_envelope :
    (organization_id : String) (block_sequence event_count : ℕ)
    (first_event_id last_event_id merkle_root_hex : String) (previous_block_hash : Option String)
    → Result MerkleError Fields
build_block_envelope organization_id block_sequence event_count first last root previous =
    if ltb block_sequence 1
    then err bad_sequence
    else if ltb event_count 1
    then err bad_count
    else if not (count root == 64)
    then err bad_root
    else if bad_hash previous
    then err bad_previous_hash
    else ok (block_fields organization_id block_sequence event_count first last root previous)

-- What the envelope is, when it is made.
pub build_block_envelope-ok :
    (organization_id : String) (block_sequence event_count : ℕ) (first last root : String)
    (previous : Option String) (envelope : Fields)
    → build_block_envelope organization_id block_sequence event_count first last root previous
      ≡ ok envelope
    → envelope ≡ block_fields organization_id block_sequence event_count first last root previous
unfolding build_block_envelope
build_block_envelope-ok organization_id block_sequence event_count first last root previous envelope
      h =
    ground arith
