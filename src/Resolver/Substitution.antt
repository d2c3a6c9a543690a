-- ===== src/Resolver/Substitution.antt =====
-- shared/definition-resolver/env-substitution.ts: `interpolateEnv` and
-- `interpolateVars`. A text is scanned from left to right into literal characters and references,
-- as `replace` does with the two regular expressions; the set of unresolved names is the list of its
-- additions. `inherited` is what `env[name]` gives, as a text, for a name that every object inherits.
pub mod Laws
use dokkimi.Prelude.{
  ℕ, zero, suc, ◌+◌, ◌-◌, String, Bool, true, false, ◌||◌, ◌&&◌, not, Option, none, some, List, [],
  ◌∷◌, ◌++◌, eqb, ◌==◌, if◌then◌else◌,
}
use dokkimi.Prelude.Text.{strip_prefix, is_empty, is_word}
use dokkimi.Json.{
  Value, null, boolean, number, string, array, object, Items, nil, cons, Fields, end, field,
}
use Prim.Native.Char.{Char, code}
use Prim.Native.String

-- The longest beginning of a text whose characters pass the test.
unfoldable pub take_word : (ℕ → Bool) → String → String
take_word p String.[] = ""
take_word p (String.◌∷◌ c s) =
    let rest = take_word p s in if p (code c) then String.◌∷◌ c rest else ""

-- The number of characters of a text, and what is left behind so many.
unfoldable pub size : String → ℕ
size String.[] = 0
size (String.◌∷◌ c s) = suc (size s)

unfoldable pub skip : ℕ → String → String
skip zero s = s
skip (suc n) String.[] = ""
skip (suc n) (String.◌∷◌ c s) = skip n s

-- A kind of reference: its opening, the characters of its names, and whether a `$` in front of it
-- keeps it from being one.
pub record Syntax : Type 0 where
  pub opening : String
  pub is_name : ℕ → Bool
  pub no_dollar : Bool

-- `/\$\{\{(\w+)\}\}/g`.
abbrev pub env_ref : Syntax
env_ref = record { opening = "${{"; is_name = is_word; no_dollar = false }

-- `/(?<!\$)\{\{([\w-]+)\}\}/g`.
abbrev pub var_ref : Syntax
var_ref = record { opening = "{{"; is_name = λ c. is_word c || eqb c b'-'; no_dollar = true }

-- A reference as it is written.
abbrev pub written : Syntax → String → String
written syn name = String.◌++◌ syn.opening (String.◌++◌ name "}}")

-- The name of the reference that a text begins with.
unfoldable pub reference_at : Syntax → Bool → String → Option String
unfolding take_word size skip
reference_at syn after_dollar s =
    if syn.no_dollar && after_dollar then none else elim (strip_prefix syn.opening s) [
      | none ↦ none
      | some t ↦
          let name = take_word syn.is_name t in
          if is_empty name
          then none
          else elim (strip_prefix "}}" (skip (size name) t)) [ none ↦ none | some rest ↦ some name ]
    ]

pub data Token : Type 0 where
  literal : Char → Token
  reference : String → Token

-- The token at a character, and those behind it; `next` passes over so many characters.
unfoldable pub next_tokens : Syntax → Char → Option String → (ℕ → List Token) → List Token
next_tokens syn c none next = literal c ∷ next zero
next_tokens syn c (some name) next = reference name ∷ next (size (written syn name) - 1)

unfoldable pub tokens_from : Syntax → Bool → ℕ → String → List Token
unfolding reference_at next_tokens
tokens_from syn after_dollar n String.[] = []
tokens_from syn after_dollar (suc n) (String.◌∷◌ c s) = tokens_from syn (eqb (code c) b'$') n s
tokens_from syn after_dollar zero (String.◌∷◌ c s) =
    next_tokens syn c (reference_at syn after_dollar (String.◌∷◌ c s))
      (λ n. tokens_from syn (eqb (code c) b'$') n s)

unfoldable pub tokens : Syntax → String → List Token
unfolding tokens_from
tokens syn s = tokens_from syn false zero s

-- `env[name]` if `name in env`: a pair of the environment, or else what every object inherits.
unfoldable pub look_up : (String → Option String) → List (String × String) → String → Option String
look_up inherited [] name = inherited name
look_up inherited ((key, value) ∷ env) name =
    let rest = look_up inherited env name in if key == name then some value else rest

abbrev pub value_or : Option String → String → String
value_or none text = text
value_or (some value) text = value

abbrev pub unless_found : Option String → String → List String
unless_found none name = name ∷ []
unless_found (some value) name = []

module _ (syn : Syntax) (find : String → Option String) where
  -- The text of a token, and the name that is added to the unresolved ones.
  unfoldable pub token_text : Token → String
  token_text (literal c) = String.◌∷◌ c String.[]
  token_text (reference name) = value_or (find name) (written syn name)

  unfoldable pub token_missing : Token → List String
  token_missing (literal c) = []
  token_missing (reference name) = unless_found (find name) name

  unfoldable pub join : List Token → String
  unfolding token_text
  join [] = ""
  join (t ∷ ts) = String.◌++◌ (token_text t) (join ts)

  unfoldable pub missing : List Token → List String
  unfolding token_missing
  missing [] = []
  missing (t ∷ ts) = token_missing t ++ missing ts

  -- `interpolateEnv` and `interpolateVars`: the new value and the unresolved names.
  unfoldable mutual
    unfolding join missing tokens

    pub interpolate : Value → Value × List String
    interpolate (string s) = (string (join (tokens syn s)), missing (tokens syn s))
    interpolate (array vs) = let r = interpolate_items vs in (array r.0, r.1)
    interpolate (object fs) = let r = interpolate_fields fs in (object r.0, r.1)
    interpolate null = (null, [])
    interpolate (boolean b) = (boolean b, [])
    interpolate (number n) = (number n, [])

    pub interpolate_items : Items → Items × List String
    interpolate_items nil = (nil, [])
    interpolate_items (cons v vs) =
        let first = interpolate v in
        let rest = interpolate_items vs in (cons first.0 rest.0, first.1 ++ rest.1)

    pub interpolate_fields : Fields → Fields × List String
    interpolate_fields end = (end, [])
    interpolate_fields (field k v fs) =
        let first = interpolate v in
        let rest = interpolate_fields fs in (field k first.0 rest.0, first.1 ++ rest.1)

-- `interpolateEnv(value, env, unresolved)`.
unfoldable pub interpolate_env :
    (String → Option String) → List (String × String) → Value → Value × List String
unfolding interpolate look_up
interpolate_env inherited env value = interpolate env_ref (look_up inherited env) value

-- `interpolateVars(value, vars, unresolved)`.
unfoldable pub interpolate_vars :
    (String → Option String) → List (String × String) → Value → Value × List String
unfolding interpolate look_up
interpolate_vars inherited vars value = interpolate var_ref (look_up inherited vars) value
