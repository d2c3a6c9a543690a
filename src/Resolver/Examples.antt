-- ===== src/Resolver/Examples.antt =====
-- The substitution of references at concrete inputs.
use dokkimi.Prelude.{◌≡◌, refl, String, Bool, true, Option, none, some, List, [], ◌∷◌, All}
use dokkimi.Json.{Value, string, array, cons, nil}
use dokkimi.Resolver.Substitution.{env_ref, interpolate, interpolate_env, interpolate_vars}
use dokkimi.Resolver.Leftovers.{find_leftover_var_refs}
use dokkimi.Resolver.Substitution.Laws.{references, interpolate-unresolved}

abbrev nothing_found : String → Option String
nothing_found name = none

abbrev greeting : Value
greeting = array (cons (string "Hi ${{NAME}}, {{x}}") nil)

substituted :
    interpolate_env nothing_found (("NAME", "Ann") ∷ []) greeting
    ≡ (array (cons (string "Hi Ann, {{x}}") nil), [])
unfolding interpolate_env dokkimi.Prelude.Text.strip_prefix
substituted = refl

not_dollar :
    interpolate_vars nothing_found (("x", "1") ∷ []) greeting
    ≡ (array (cons (string "Hi ${{NAME}}, 1") nil), [])
unfolding interpolate_vars dokkimi.Prelude.Text.strip_prefix
not_dollar = refl

greeting_missing :
    All (λ name. nothing_found name ≡ none) (references env_ref nothing_found greeting)
unfolding interpolate dokkimi.Prelude.Text.strip_prefix
greeting_missing = (refl, tt)

interpolate-unresolved_example : (interpolate env_ref nothing_found greeting).0 ≡ greeting
interpolate-unresolved_example =
    interpolate-unresolved env_ref nothing_found greeting greeting_missing

left_over :
    find_leftover_var_refs (array (cons (string "a {{b.c}} ${{D}} {{}}") nil)) ≡ "{{b.c}}" ∷ []
unfolding find_leftover_var_refs dokkimi.Prelude.Text.strip_prefix
left_over = refl
