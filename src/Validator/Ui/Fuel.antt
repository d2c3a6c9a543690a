-- ===== src/Validator/Ui/Fuel.antt =====
-- The fuel of the check of a UI sub-step is enough for finite values.
use dokkimi.Prelude.{ℕ, zero, suc, ◌<◌, ◌≡◌, refl, String, Bool, List, [], ◌∷◌, arith, All}
use dokkimi.Json.{Value, object, array, Items, Fields, Unknown, known, get, elements, depth}
use dokkimi.Json.Depth.{depth-found_elements}
use dokkimi.Report.{Report, Message, at, for_each}
use dokkimi.Validator.Ui.{
  kind_keys, validate_group_steps, validate_group, sub_step_body, validate_ui_sub_step,
}

module _ (is_regex : String → Bool) where
  -- Checks that agree on the values below a depth.
  abbrev Same : ℕ → (Value → Message → Report) → (Value → Message → Report) → Type 0
  Same d c c' = (v : Value) (ctx : Message) → depth v < d → c v ctx ≡ c' v ctx

  steps-Same :
      (d : ℕ) (c c' : Value → Message → Report) (ctx : Message) (i : ℕ) (vs : List Value)
      → Same d c c'
      → All (λ v. depth v < d) vs
      → for_each (λ i v. c v (at ctx ".steps" i)) i vs
        ≡ for_each (λ i v. c' v (at ctx ".steps" i)) i vs
  steps-Same d c c' ctx i [] same h = refl
  steps-Same d c c' ctx i (v ∷ vs) same (b, h) =
      rw (same v (at ctx ".steps" i) b, steps-Same d c c' ctx (suc i) vs same h) refl

  group_steps-Same :
      (d : ℕ) (c c' : Value → Message → Report) (u : Unknown) (ctx : Message)
      → Same d c c'
      → ((vs : Items) → u ≡ known (array vs) → All (λ v. depth v < d) (elements vs))
      → validate_group_steps is_regex c u ctx ≡ validate_group_steps is_regex c' u ctx
  unfolding validate_group_steps
  group_steps-Same d c c' (known (array vs)) ctx same h =
      steps-Same d c c' ctx 0 (elements vs) same (h vs refl)
  group_steps-Same d c c' _ ctx same h = refl

  group-Same :
      (c c' : Value → Message → Report) (fs : Fields) (ks : List String) (ctx : Message)
      → Same (depth (object fs)) c c'
      → validate_group is_regex c fs ks ctx ≡ validate_group is_regex c' fs ks ctx
  unfolding validate_group
  group-Same c c' fs [] ctx same =
      rw
        (group_steps-Same (depth (object fs)) c c' (get (object fs) "steps") ctx same
          (λ vs e. depth-found_elements fs "steps" vs e))
        refl
  group-Same c c' fs (k ∷ ks) ctx same = refl

  body-agree :
      (f g : ℕ) (v : Value) (ctx : Message)
      → depth v < f
      → depth v < g
      → sub_step_body is_regex f v ctx ≡ sub_step_body is_regex g v ctx
  unfolding sub_step_body
  body-agree zero g v ctx p q = absurd (omega arith)
  body-agree (suc f) zero v ctx p q = absurd (omega arith)
  body-agree (suc f) (suc g) (object fs) ctx p q =
      rw
        (group-Same (sub_step_body is_regex f) (sub_step_body is_regex g) fs (kind_keys fs) ctx
          (λ w c h. body-agree f g w c (omega arith) (omega arith)))
        refl
  body-agree (suc f) (suc g) _ ctx p q = refl

  -- More fuel than the depth of a sub-step changes nothing.
  validate_ui_sub_step_fuel :
      (fuel : ℕ) (v : Value) (ctx : Message)
      → depth v < fuel
      → sub_step_body is_regex fuel v ctx ≡ validate_ui_sub_step is_regex v ctx
  unfolding validate_ui_sub_step
  validate_ui_sub_step_fuel fuel v ctx h = body-agree fuel (suc (depth v)) v ctx h (omega arith)
