-- ===== src/Validator/Refs/ActionRefs/Fuel.antt =====
-- The expansion of sub-steps ends.
use dokkimi.Prelude.{
  ℕ, zero, suc, ◌+◌, ◌≤◌, ◌<◌, ◌≡◌, inl, inr, refl, String, Bool, Option, none, some, List, [], ◌∷◌,
  arith, ltb, length, Bool-cases,
}
use dokkimi.Json.{Value, string, array, object, Fields, Unknown, undefined, known, own, elements}
use dokkimi.Report.{Message, at}
use dokkimi.Validator.Refs.ActionRefs.{
  StepsResolver, fragment_steps, steps_content, sub_step_steps, own_ref, expand_each, steps_from,
  expand_sub_step_refs,
}

module _ (absolute : String → String) (resolve : String → String → String) (exists : String → Bool)
    (read : String → Option Unknown) where
  module _ (rec rec' : StepsResolver absolute resolve exists read) (visited : List String)
      (same : (p : String) (ctx : Message) (vs : List Value)
        → rec (p ∷ visited) p ctx vs ≡ rec' (p ∷ visited) p ctx vs) where
    fragment-Same :
        (p : String) (ctx here : Message) (s : String) (obj : Fields) (u : Unknown)
        → fragment_steps absolute resolve exists read rec visited p ctx here s obj u
          ≡ fragment_steps absolute resolve exists read rec' visited p ctx here s obj u
    unfolding fragment_steps
    fragment-Same p ctx here s obj (known (array vs)) = rw (same p ctx (elements vs)) refl
    fragment-Same p ctx here s obj _ = refl

    steps_content-Same :
        (p : String) (ctx here : Message) (s : String) (o : Option Unknown)
        → steps_content absolute resolve exists read rec visited p ctx here s o
          ≡ steps_content absolute resolve exists read rec' visited p ctx here s o
    unfolding steps_content
    steps_content-Same p ctx here s none = refl
    steps_content-Same p ctx here s (some (known (object obj))) =
        fragment-Same p ctx here s obj (own obj "steps")
    steps_content-Same p ctx here s (some _) = refl

    sub_step-Same :
        (source : String) (ctx : Message) (i : ℕ) (sub : Value) (u : Unknown)
        → sub_step_steps absolute resolve exists read rec visited source ctx i sub u
          ≡ sub_step_steps absolute resolve exists read rec' visited source ctx i sub u
    unfolding sub_step_steps
    sub_step-Same source ctx i sub undefined = refl
    sub_step-Same source ctx i sub (known (string s)) =
        let p = resolve source s in
        rw (steps_content-Same p ctx (at ctx ".steps" i) s (read p)) refl
    sub_step-Same source ctx i sub _ = refl

    each-Same :
        (source : String) (ctx : Message) (i : ℕ) (raw : List Value)
        → expand_each absolute resolve exists read rec visited source ctx i raw
          ≡ expand_each absolute resolve exists read rec' visited source ctx i raw
    unfolding expand_each
    each-Same source ctx i [] = refl
    each-Same source ctx i (sub ∷ rest) =
        rw
          (
            sub_step-Same source ctx i sub (own_ref absolute resolve exists read sub),
            each-Same source ctx (suc i) rest,
          )
          refl

  steps-agree :
      (f g : ℕ) (visited : List String) (source : String) (ctx : Message) (raw : List Value)
      → length visited ≤ 11
      → 11 < f + length visited
      → 11 < g + length visited
      → steps_from absolute resolve exists read f visited source ctx raw
        ≡ steps_from absolute resolve exists read g visited source ctx raw
  unfolding steps_from
  steps-agree zero g visited source ctx raw l h k = absurd (omega arith)
  steps-agree (suc f) zero visited source ctx raw l h k = absurd (omega arith)
  steps-agree (suc f) (suc g) visited source ctx raw l h k =
      elim (Bool-cases (ltb 10 (length visited))) [
        | inl e ↦ rw e refl
        | inr e ↦
            let inner =
              each-Same (steps_from absolute resolve exists read f)
                (steps_from absolute resolve exists read g) visited
                (λ p c vs.
                  steps-agree f g (p ∷ visited) p c vs (ground arith) (omega arith) (omega arith))
                source ctx 0 raw in
            rw e inner
      ]

  -- Whatever the files hold, more fuel than eleven calls changes nothing: the expansion of sub-steps
  -- terminates.
  pub expand_sub_step_refs_fuel :
      (fuel : ℕ) (source : String) (ctx : Message) (raw : List Value)
      → 11 ≤ fuel
      → steps_from absolute resolve exists read fuel (absolute source ∷ []) source ctx raw
        ≡ expand_sub_step_refs absolute resolve exists read source ctx raw
  unfolding expand_sub_step_refs
  expand_sub_step_refs_fuel fuel source ctx raw h =
      steps-agree fuel 11 (absolute source ∷ []) source ctx raw (omega arith) (omega arith)
        (omega arith)
