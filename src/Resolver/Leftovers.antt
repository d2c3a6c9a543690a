-- ===== src/Resolver/Leftovers.antt =====
-- shared/definition-resolver/env-substitution.ts: `findLeftoverVarRefs`.
use dokkimi.Prelude.{
  ℕ, zero, suc, ◌+◌, String, Bool, false, ◌||◌, Option, none, some, List, [], ◌∷◌, ◌++◌, eqb,
  if◌then◌else◌,
}
use dokkimi.Prelude.Text.{strip_prefix}
use dokkimi.Json.{
  Value, null, boolean, number, string, array, object, Items, nil, cons, Fields, end, field,
}
use Prim.Native.Char.{code}
use Prim.Native.String
use dokkimi.Resolver.Substitution.{size}

-- `.`: any character but those that end a line.
abbrev pub ends_line : ℕ → Bool
ends_line c = eqb c 10 || eqb c 13 || eqb c 8232 || eqb c 8233

-- The shortest beginning of at least one character, none of which ends a line, in front of `}}`.
unfoldable pub up_to_close : String → Option String
up_to_close String.[] = none
up_to_close (String.◌∷◌ c s) =
    let rest = up_to_close s in
    if ends_line (code c) then none else elim (strip_prefix "}}" s) [
      | some behind ↦ some (String.◌∷◌ c "")
      | none ↦ elim rest [ none ↦ none | some more ↦ some (String.◌∷◌ c more) ]
    ]

-- What stands in the braces that a text begins with, for `/(?<!\$)\{\{.+?\}\}/g`.
unfoldable pub leftover_at : Bool → String → Option String
unfolding up_to_close
leftover_at after_dollar s =
    if after_dollar
    then none
    else elim (strip_prefix "{{" s) [ none ↦ none | some t ↦ up_to_close t ]

unfoldable pub leftovers_from : Bool → ℕ → String → List String
unfolding leftover_at size
leftovers_from after_dollar n String.[] = []
leftovers_from after_dollar (suc n) (String.◌∷◌ c s) = leftovers_from (eqb (code c) b'$') n s
leftovers_from after_dollar zero (String.◌∷◌ c s) =
    elim (leftover_at after_dollar (String.◌∷◌ c s)) [
      | none ↦ leftovers_from (eqb (code c) b'$') zero s
      | some inside ↦
          String.◌++◌ "{{" (String.◌++◌ inside "}}")
          ∷ leftovers_from (eqb (code c) b'$') (size inside + 3) s
    ]

-- `findLeftoverVarRefs`: the matches in all texts of a value, in order.
unfoldable mutual
  unfolding leftovers_from

  pub find_leftover_var_refs : Value → List String
  find_leftover_var_refs (string s) = leftovers_from false zero s
  find_leftover_var_refs (array vs) = leftovers_in_items vs
  find_leftover_var_refs (object fs) = leftovers_in_fields fs
  find_leftover_var_refs null = []
  find_leftover_var_refs (boolean b) = []
  find_leftover_var_refs (number n) = []

  pub leftovers_in_items : Items → List String
  leftovers_in_items nil = []
  leftovers_in_items (cons v vs) = find_leftover_var_refs v ++ leftovers_in_items vs

  pub leftovers_in_fields : Fields → List String
  leftovers_in_fields end = []
  leftovers_in_fields (field k v fs) = find_leftover_var_refs v ++ leftovers_in_fields fs
