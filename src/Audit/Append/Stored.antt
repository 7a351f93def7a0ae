-- ===== src/Audit/Append/Stored.antt =====
-- How the type jsonb gives a value back: the keys of an object in an order of its own. The canonical text
-- of RFC 8785 sorts the keys.
use agentledger_mvp_v.Base.{String, ◌≡◌, refl}
use agentledger_mvp_v.Base.Json.{Json, Items, Fields, arr, obj, cons, field}
use agentledger_mvp_v.Audit.Merkle.{Primitives, canonical_json}

-- Two values that differ in the order of keys only, at any depth.
pub data SameJson : Json → Json → Type 0 where
  same : (v : Json) → SameJson v v
  both : {u v w : Json} → SameJson u v → SameJson v w → SameJson u w
  swapped :
      (k k' : String) (v v' : Json) (rest : Fields)
      → SameJson (obj (field k v (field k' v' rest))) (obj (field k' v' (field k v rest)))
  same_value :
      (k : String) {v v' : Json} (rest : Fields)
      → SameJson v v'
      → SameJson (obj (field k v rest)) (obj (field k v' rest))
  same_rest :
      (k : String) (v : Json) {rest rest' : Fields}
      → SameJson (obj rest) (obj rest')
      → SameJson (obj (field k v rest)) (obj (field k v rest'))
  same_item :
      {v v' : Json} (vs : Items) → SameJson v v' → SameJson (arr (cons v vs)) (arr (cons v' vs))
  same_items :
      (v : Json) {vs vs' : Items}
      → SameJson (arr vs) (arr vs')
      → SameJson (arr (cons v vs)) (arr (cons v vs'))

-- The canonical text does not depend on the order of keys.
abbrev pub IgnoresOrder : Primitives → Type 0
IgnoresOrder c = (u v : Json) → SameJson u v → c.dumps u ≡ c.dumps v

pub canonical_json-SameJson :
    (c : Primitives) (u v : Json)
    → IgnoresOrder c
    → SameJson u v
    → canonical_json c u ≡ canonical_json c v
unfolding canonical_json
canonical_json-SameJson c u v ignores s = rw (ignores u v s, canonical_json) refl
