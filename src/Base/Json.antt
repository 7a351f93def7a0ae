-- ===== src/Base/Json.antt =====
-- The values that `json.loads` returns and that the database stores as JSON. A dictionary is the
-- list of its items in insertion order, without a repeated key. A `float` is kept as its text: the
-- code that walks JSON values only refuses it.
use Prim.Native.String.{String}
use mathlib.Core.Bool.{Bool}
use agentledger_mvp_v.Base.Int.{ℤ}

mutual
  pub data Json : Type 0 where
    null : Json
    bool : Bool → Json
    int : ℤ → Json
    float : String → Json
    str : String → Json
    arr : Items → Json
    obj : Fields → Json

  pub data Items : Type 0 where
    nil : Items
    cons : Json → Items → Items

  pub data Fields : Type 0 where
    end : Fields
    field : String → Json → Fields → Fields
