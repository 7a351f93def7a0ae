-- ===== src/Inventory/Provenance.antt =====
-- Where the facts of an inventory item come from (apps/inventory/provenance.py).
use text.Mathlib.Text.{is_lt}
use Prim.Native.String.{compare}
use agentledger_mvp_v.Base.{
  String, ◌≡◌, refl, sym, ap, ◌∙◌, Bool, true, false, not, ◌&&◌, ◌||◌, Option, none, some, List, [],
  ◌∷◌, All, ◌⊎◌, subst, map, sort_by, insert, str_eq, str_eq_iff, if◌then◌else◌, Bool-cases, inl,
  inr, arith,
}
use agentledger_mvp_v.Inventory.Model.{SourceType, manual, csv, discovered, Product, InventoryItem}

pub data Origin : Type 0 where
  observed declared catalog_derived calculated unknown : Origin

abbrev pub inventory_fact_fields : List String
inventory_fact_fields =
    "display_name" ∷ "vendor_name" ∷ "business_owner" ∷ "department" ∷ "user_count"
    ∷ "business_purpose" ∷ "monthly_cost_cents" ∷ "seat_count" ∷ "connected_systems"
    ∷ "data_categories" ∷ "permissions" ∷ "capabilities" ∷ "autonomy_level" ∷ "human_approval"
    ∷ "status" ∷ []

abbrev pub is_one_of : String → List String → Bool
is_one_of s [] = false
is_one_of s (t ∷ ts) = str_eq t s || is_one_of s ts

-- `FORM_FIELD_TO_MODEL_FIELD.get(field_name, field_name)`
abbrev pub model_field : String → String
model_field name = if str_eq name "monthly_cost" then "monthly_cost_cents" else name

-- A field of an item that is not in the set.
abbrev pub adds : String → List String → Bool
adds field fields = is_one_of field inventory_fact_fields && not (is_one_of field fields)

-- The members of the set comprehension.
unfoldable pub fact_set : List String → List String
fact_set [] = []
fact_set (name ∷ names) =
    let rest = fact_set names in
    if adds (model_field name) rest then model_field name ∷ rest else rest

abbrev pub text_before : String → String → Bool
text_before s t = is_lt (compare s t)

unfoldable pub normalized_declared_fields : List String → List String
normalized_declared_fields field_names = sort_by text_before (fact_set field_names)

-- A dictionary, as the list of its items.
abbrev pub Facts : Type 0
Facts = List (String × Origin)

abbrev pub set_fact : String → Origin → Facts → Facts
set_fact key o [] = (key, o) ∷ []
set_fact key o (f ∷ facts) =
    let rest = set_fact key o facts in if str_eq f.0 key then (key, o) ∷ facts else f ∷ rest

abbrev pub fact : String → Facts → Option Origin
fact key [] = none
fact key (f ∷ facts) = let rest = fact key facts in if str_eq f.0 key then some f.1 else rest

abbrev pub product_origin : Option Product → Origin
product_origin none = unknown
product_origin (some p) = catalog_derived

abbrev pub declared_or : Origin → String → List String → Origin
declared_or o field fields = if is_one_of field fields then declared else o

-- The facts of an item that a person or a spreadsheet entered, and of one that was discovered.
unfoldable pub entered_provenance : InventoryItem → Facts
entered_provenance item = set_fact "source_type" declared (
    set_fact "product_id" (product_origin item.product)
      (map (λ field. (field, declared)) inventory_fact_fields))

unfoldable pub discovered_provenance : InventoryItem → Facts
discovered_provenance item = set_fact "source_type" observed (
    set_fact "product_id" catalog_derived (
      set_fact "vendor_name" (declared_or catalog_derived "vendor_name" item.declared_fields) (
        set_fact "display_name" (declared_or catalog_derived "display_name" item.declared_fields) (
          map (λ field. (field, declared_or unknown field item.declared_fields))
            inventory_fact_fields))))

unfoldable pub inventory_provenance : InventoryItem → Facts
inventory_provenance item = elim item.source_type [
  | discovered ↦ discovered_provenance item
  | _ ↦ entered_provenance item
]

-- The names that the catalog can give.
abbrev pub from_catalog : String → Origin
from_catalog field =
    if str_eq field "display_name" || str_eq field "vendor_name" then catalog_derived else unknown

-- What a discovered item says of a field, given the names of the submitted form fields.
abbrev pub expected : String → List String → Origin
expected field names =
    if is_one_of field (map model_field names) then declared else from_catalog field

-- Membership in a sorted list and in the set.
is_one_of-insert :
    (s x : String) (ys : List String)
    → is_one_of s (insert text_before x ys) ≡ (str_eq x s || is_one_of s ys)
is_one_of-insert s x [] = refl
is_one_of-insert s x (y ∷ ys) = elim (Bool-cases (text_before y x)) [
  | inr e ↦ rw e refl
  | inl e ↦ rw (e, is_one_of-insert s x ys) (or_swap (str_eq y s) (str_eq x s) (is_one_of s ys))
]
  where
    or_swap : (a b c : Bool) → (a || (b || c)) ≡ (b || (a || c))
    or_swap a b c = ground arith

is_one_of-sort_by :
    (s : String) (ys : List String) → is_one_of s (sort_by text_before ys) ≡ is_one_of s ys
is_one_of-sort_by s [] = refl
is_one_of-sort_by s (y ∷ ys) =
    is_one_of-insert s y (sort_by text_before ys)
    ∙ ap (λ b. str_eq y s || b) (is_one_of-sort_by s ys)

is_one_of-same :
    (s t : String) (ys : List String) → str_eq t s ≡ true → is_one_of t ys ≡ is_one_of s ys
is_one_of-same s t ys e = ap (λ x. is_one_of x ys) ((str_eq_iff t s).0 e)

-- A field of an item is in the set when a name stands for it.
is_one_of-fact_set :
    (s : String) (names : List String)
    → is_one_of s inventory_fact_fields ≡ true
    → is_one_of s (fact_set names) ≡ is_one_of s (map model_field names)
unfolding fact_set
is_one_of-fact_set s [] h = refl
is_one_of-fact_set s (name ∷ names) h =
    let rest = is_one_of-fact_set s names h in
    elim (Bool-cases (str_eq (model_field name) s)) [
      | inl same ↦
          let fact_field = is_one_of-same s (model_field name) inventory_fact_fields same ∙ h in
          elim (Bool-cases (is_one_of (model_field name) (fact_set names))) [
            | inl there ↦
                rw (fact_set, fact_field, there, same)
                  (sym (is_one_of-same s (model_field name) (fact_set names) same) ∙ there)
            | inr fresh ↦ rw (fact_set, fact_field, fresh, same) refl
          ]
      | inr other ↦ elim (Bool-cases (adds (model_field name) (fact_set names))) [
        | inl a ↦ rw (fact_set, a, other) rest
        | inr a ↦ rw (fact_set, a, other) rest
      ]
    ]

module _ (item : InventoryItem) (names : List String)
    (normalized : item.declared_fields ≡ normalized_declared_fields names) where
  given :
      (field : String)
      → is_one_of field inventory_fact_fields ≡ true
      → some (declared_or (from_catalog field) field item.declared_fields)
        ≡ some (expected field names)
  unfolding normalized_declared_fields
  given field h =
      ap (λ b. some (if b then declared else from_catalog field))
        (ap (is_one_of field) normalized
          ∙ is_one_of-sort_by field (fact_set names)
          ∙ is_one_of-fact_set field names h)

  discovered-facts :
      All
        (λ field. fact field (discovered_provenance item) ≡ some (expected field names))
        inventory_fact_fields
  unfolding discovered_provenance
  discovered-facts = (
    given "display_name" refl,
    (
      given "vendor_name" refl,
      (
        given "business_owner" refl,
        (
          given "department" refl,
          (
            given "user_count" refl,
            (
              given "business_purpose" refl,
              (
                given "monthly_cost_cents" refl,
                (
                  given "seat_count" refl,
                  (
                    given "connected_systems" refl,
                    (
                      given "data_categories" refl,
                      (
                        given "permissions" refl,
                        (
                          given "capabilities" refl,
                          (
                            given "autonomy_level" refl,
                            (given "human_approval" refl, (given "status" refl, tt)),
                          ),
                        ),
                      ),
                    ),
                  ),
                ),
              ),
            ),
          ),
        ),
      ),
    ),
  )

entered-facts :
    (item : InventoryItem)
    → All (λ field. fact field (entered_provenance item) ≡ some declared) inventory_fact_fields
unfolding entered_provenance
entered-facts item = (
  refl,
  (
    refl,
    (
      refl,
      (
        refl,
        (refl, (refl, (refl, (refl, (refl, (refl, (refl, (refl, (refl, (refl, (refl, tt))))))))))),
      ),
    ),
  ),
)

-- What an item of this source says of a field.
abbrev pub origin_of : SourceType → String → List String → Origin
origin_of discovered field names = expected field names
origin_of _ field names = declared

abbrev pub is_discovered : SourceType → Bool
is_discovered discovered = true
is_discovered _ = false

source-cases : (t : SourceType) → (t ≡ discovered) ⊎ (is_discovered t ≡ false)
source-cases manual = inr refl
source-cases csv = inr refl
source-cases discovered = inl refl

provenance-discovered :
    (item : InventoryItem)
    → item.source_type ≡ discovered
    → inventory_provenance item ≡ discovered_provenance item
unfolding inventory_provenance discovered_provenance
provenance-discovered item e = rw (inventory_provenance, e) refl

provenance-entered :
    (item : InventoryItem)
    → is_discovered item.source_type ≡ false
    → inventory_provenance item ≡ entered_provenance item
unfolding inventory_provenance
provenance-entered item e = ground arith

-- The origins of the two facts that are no form fields.
abbrev pub origin_of_source : SourceType → Origin
origin_of_source discovered = observed
origin_of_source _ = declared

abbrev pub origin_of_product : SourceType → Option Product → Origin
origin_of_product discovered p = catalog_derived
origin_of_product _ none = unknown
origin_of_product _ (some p) = catalog_derived

-- The facts of an item of source `t` with product `p`.
abbrev pub FactsOf : SourceType → Option Product → List String → Facts → Type 0
FactsOf t p names facts =
    All (λ field. fact field facts ≡ some (origin_of t field names)) inventory_fact_fields
    × (fact "source_type" facts ≡ some (origin_of_source t))
    × (fact "product_id" facts ≡ some (origin_of_product t p))

discovered-FactsOf :
    (item : InventoryItem) (names : List String)
    → item.declared_fields ≡ normalized_declared_fields names
    → FactsOf discovered item.product names (discovered_provenance item)
unfolding discovered_provenance
discovered-FactsOf item names h = (discovered-facts item names h, refl, refl)

entered-FactsOf :
    (item : InventoryItem) (t : SourceType) (names : List String)
    → is_discovered t ≡ false
    → FactsOf t item.product names (entered_provenance item)
unfolding entered_provenance
entered-FactsOf item discovered names e = absurd (cc (e))
entered-FactsOf item manual names e = (entered-facts item, refl, product_fact item.product)
  where
    product_fact :
        (p : Option Product) → some (product_origin p) ≡ some (origin_of_product manual p)
    product_fact none = refl
    product_fact (some p) = refl
entered-FactsOf item csv names e = (entered-facts item, refl, product_fact item.product)
  where
    product_fact : (p : Option Product) → some (product_origin p) ≡ some (origin_of_product csv p)
    product_fact none = refl
    product_fact (some p) = refl

-- Every fact of an item has one origin. Of an entered item all form fields and the source are declared, and
-- the product comes from the catalog where there is one and is unknown elsewhere. Of a discovered item
-- whose declared fields are the normalized names of submitted form fields, the source is observed, the
-- product comes from the catalog, and a form field is declared when one of the names stands for it;
-- elsewhere the two names come from the catalog and the rest is unknown.
pub inventory_provenance-facts :
    (item : InventoryItem) (names : List String)
    → (is_discovered item.source_type ≡ false)
      ⊎ (item.declared_fields ≡ normalized_declared_fields names)
    → FactsOf item.source_type item.product names (inventory_provenance item)
inventory_provenance-facts item names h = elim (source-cases item.source_type) [
  | inr e ↦
      subst (FactsOf item.source_type item.product names) (sym (provenance-entered item e))
        (entered-FactsOf item item.source_type names e)
  | inl e ↦ elim h [
    | inl entered ↦ absurd (let z = sym (ap is_discovered e) ∙ entered in cc (z))
    | inr normal ↦
        subst (λ t. FactsOf t item.product names (inventory_provenance item)) (sym e)
          (subst (FactsOf discovered item.product names) (sym (provenance-discovered item e))
            (discovered-FactsOf item names normal))
  ]
]
