-- ===== src/Validator/Where/Form.antt =====
-- Which where entries the check accepts.
use dokkimi.Prelude.{◌≡◌, String, true, List, member}
use dokkimi.Json.{Value, string, array, object, Items, nil, cons, Fields, undefined, known, get}
use dokkimi.Validator.Keys.{valid_assertion_operators}
use dokkimi.Validator.Paths.Format.{Begins}

-- `fs` has no property `key`.
abbrev pub Lacks : Fields → String → Type 0
Lacks fs key = get (object fs) key ≡ undefined

-- A text of the list stands under the key.
abbrev pub HasOne : Fields → String → List String → Type 0
HasOne fs key list =
    (s : String) × (get (object fs) key ≡ known (string s)) × (member s list ≡ true)

mutual
  -- A where entry is one of four forms: a comparison of a scoped path, or a combination of entries.
  pub data IsWhere : Value → Type 0 where
    compares :
        {fs : Fields} (path : String)
        → get (object fs) "path" ≡ known (string path)
        → Begins "$$." path
        → HasOne fs "operator" valid_assertion_operators
        → Lacks fs "or"
        → Lacks fs "and"
        → Lacks fs "not"
        → IsWhere (object fs)
    any_of :
        {fs : Fields} {v : Value} {vs : Items}
        → get (object fs) "or" ≡ known (array (cons v vs))
        → AllWhere (cons v vs)
        → Lacks fs "path"
        → Lacks fs "and"
        → Lacks fs "not"
        → IsWhere (object fs)
    all_of :
        {fs : Fields} {v : Value} {vs : Items}
        → get (object fs) "and" ≡ known (array (cons v vs))
        → AllWhere (cons v vs)
        → Lacks fs "path"
        → Lacks fs "or"
        → Lacks fs "not"
        → IsWhere (object fs)
    negates :
        {fs : Fields} {v : Value}
        → get (object fs) "not" ≡ known v
        → IsWhere v
        → Lacks fs "path"
        → Lacks fs "or"
        → Lacks fs "and"
        → IsWhere (object fs)

  pub data AllWhere : Items → Type 0 where
    no_more : AllWhere nil
    more : {v : Value} {vs : Items} → IsWhere v → AllWhere vs → AllWhere (cons v vs)
