-- ===== src/Policies/Registry.antt =====
-- The registry of published rule sets (apps/policies/registry.py): a dictionary by name and version, here
-- the list of its items.
use Prim.Native.String.{count}
use agentledger_mvp_v.Base.{
  String, Bool, true, false, ◌&&◌, ◌||◌, Option, none, some, List, [], ◌∷◌, ◌≡◌, refl, arith,
  str_eq, str_eq_iff, ◌==◌, if◌then◌else◌, Bool-cases, Option-cases, inl, inr,
}
use agentledger_mvp_v.Base.Result.{Result, ok, err}
use agentledger_mvp_v.Policies.Engine.{Rule}

pub data RegistryError : Type 0 where
  incomplete_ruleset published_rule_conflict key_error : RegistryError

pub record PublishedRuleSet : Type 0 where
  pub name : String
  pub version : String
  pub rules : List Rule

abbrev no_rules : List Rule → Bool
no_rules [] = true
no_rules (r ∷ rs) = false

-- `PublishedRuleSet.__post_init__`
unfoldable pub published_ruleset : PublishedRuleSet → Result RegistryError PublishedRuleSet
published_ruleset s =
    if (count s.name == 0) || ((count s.version == 0) || no_rules s.rules)
    then err incomplete_ruleset
    else ok s

abbrev pub Registry : Type 0
Registry = List PublishedRuleSet

abbrev has_key : String → String → PublishedRuleSet → Bool
has_key name version s = str_eq s.name name && str_eq s.version version

abbrev lookup : String → String → Registry → Option PublishedRuleSet
lookup name version [] = none
lookup name version (s ∷ registry) =
    if has_key name version s then some s else lookup name version registry

-- `publish`: the exception leaves the dictionary as it was.
unfoldable pub publish : PublishedRuleSet → Registry → Result RegistryError (Unit {0}) × Registry
publish given registry = elim (lookup given.name given.version registry) [
  | some s ↦ (err published_rule_conflict, registry)
  | none ↦ (ok tt, given ∷ registry)
]

unfoldable pub get : String → String → Registry → Result RegistryError PublishedRuleSet
get name version registry = elim (lookup name version registry) [
  | none ↦ err key_error
  | some s ↦ ok s
]

-- A history of publications; one that is refused changes nothing.
abbrev pub publish_all : List PublishedRuleSet → Registry → Registry
publish_all [] registry = registry
publish_all (s ∷ ss) registry = publish_all ss (publish s registry).1

own_key : (s : PublishedRuleSet) → has_key s.name s.version s ≡ true
own_key s =
    ground (arith, (str_eq_iff s.name s.name).1 refl, (str_eq_iff s.version s.version).1 refl)

lookup-publish :
    (name version : String) (given s : PublishedRuleSet) (registry : Registry)
    → lookup name version registry ≡ some s
    → lookup name version (publish given registry).1 ≡ some s
unfolding publish
lookup-publish name version given s registry h =
    elim (Option-cases (lookup given.name given.version registry)) [
      | inr (t, e) ↦ rw (e, publish) h
      | inl e ↦ elim (Bool-cases (has_key name version given)) [
        | inr k ↦ rw (e, publish, k) h
        | inl k ↦
            let n : given.name ≡ name = (str_eq_iff _ _).0 (ground arith) in
            let v : given.version ≡ version = (str_eq_iff _ _).0 (ground arith) in
            let h' : lookup given.name given.version registry ≡ some s = rw (n, v) h in
            absurd (cc (e, h'))
      ]
    ]

lookup-publish_all :
    (name version : String) (s : PublishedRuleSet) (later : List PublishedRuleSet)
    (registry : Registry)
    → lookup name version registry ≡ some s
    → lookup name version (publish_all later registry) ≡ some s
lookup-publish_all name version s [] registry h = h
lookup-publish_all name version s (t ∷ later) registry h =
    lookup-publish_all name version s later (publish t registry).1
      (lookup-publish name version t s registry h)

publish-lookup :
    (given : PublishedRuleSet) (registry : Registry)
    → (publish given registry).0 ≡ ok tt
    → lookup given.name given.version (publish given registry).1 ≡ some given
unfolding publish
publish-lookup given registry h = elim (Option-cases (lookup given.name given.version registry)) [
  | inr (t, e) ↦ absurd (cc (h, e))
  | inl e ↦ rw (e, publish, own_key given) refl
]

publish-refused :
    (again t : PublishedRuleSet) (registry : Registry)
    → lookup again.name again.version registry ≡ some t
    → publish again registry ≡ (err published_rule_conflict, registry)
unfolding publish
publish-refused again t registry e = rw (e, publish) refl

-- A rule set that was published is what its name and version give ever after, whatever is published later; and
-- publishing under the same name and version again is refused and changes nothing.
pub publish_kept :
    (given again : PublishedRuleSet) (registry : Registry) (later : List PublishedRuleSet)
    → (publish given registry).0 ≡ ok tt
    → again.name ≡ given.name
    → again.version ≡ given.version
    → (get given.name given.version (publish_all later (publish given registry).1) ≡ ok given)
      × (publish again (publish_all later (publish given registry).1)
          ≡ (err published_rule_conflict, publish_all later (publish given registry).1))
unfolding get
publish_kept given again registry later h n v =
    let kept =
      lookup-publish_all given.name given.version given later (publish given registry).1
        (publish-lookup given registry h) in
    (
      rw (kept, get) refl,
      publish-refused again given (publish_all later (publish given registry).1) (rw (n, v) kept),
    )
