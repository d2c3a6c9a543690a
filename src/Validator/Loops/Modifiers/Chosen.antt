-- ===== src/Validator/Loops/Modifiers/Chosen.antt =====
-- Which loop modifier an object is taken to have, and what may stand beside a loop.
use dokkimi.Prelude.{
  ◌≡◌, ◌↔◌, ◌⊎◌, inl, refl, ℕ, Bool, true, false, Option, none, some, List, [], ◌∷◌, String, arith,
  All, if◌then◌else◌,
}
use dokkimi.Prelude.Text.{is_present}
use dokkimi.Json.{Value, Unknown, undefined, known, method, get, is_defined, as_plain}
use dokkimi.Report.{Report, Message, clean, only_if, for_each}
use dokkimi.Report.Clean.{clean-seq_iff, for_each_sound, for_each_complete}
use dokkimi.Validator.Loops.Levels.{LoopLevel, loop_modifier_keys}
use dokkimi.Validator.Loops.Modifiers.{
  Modifier, for_each_loop, for_loop, repeat_loop, modifier_key, present_modifiers, validate_present,
  validate_loop_modifiers, validate_loop_sibling_conflicts, validate_test_loop_sibling_conflicts,
  validate_block_loop_sibling_conflicts, step_sibling, sibling, inside,
}

-- The object has this modifier.
abbrev pub Has : Value → Modifier → Type 0
Has obj m = is_defined (get obj (modifier_key m)) ≡ true

abbrev pub Lacks : Value → Modifier → Type 0
Lacks obj m = is_defined (get obj (modifier_key m)) ≡ false

-- The modifiers of an object: this one alone.
abbrev pub Only : Value → Modifier → Type 0
Only obj for_each_loop = Has obj for_each_loop × Lacks obj for_loop × Lacks obj repeat_loop
Only obj for_loop = Has obj for_loop × Lacks obj for_each_loop × Lacks obj repeat_loop
Only obj repeat_loop = Has obj repeat_loop × Lacks obj for_each_loop × Lacks obj for_loop

present_three : Bool → Bool → Bool → List Modifier
present_three a b c =
    let last = if c then repeat_loop ∷ [] else [] in
    let rest = if b then for_loop ∷ last else last in if a then for_each_loop ∷ rest else rest

head_of : List Modifier → Option Modifier
head_of (m ∷ []) = some m
head_of _ = none

present-head :
    (ms : List Modifier) (obj : Value) (ctx : Message) (docs : Bool) (level : LoopLevel)
    → (validate_present ms obj ctx docs level).1 ≡ head_of ms
unfolding validate_present head_of
present-head [] obj ctx docs level = refl
present-head (m ∷ []) obj ctx docs level = refl
present-head (m ∷ n ∷ ms) obj ctx docs level = refl

IsOnly : Modifier → Bool → Bool → Bool → Type 0
IsOnly for_each_loop a b c = (a ≡ true) × (b ≡ false) × (c ≡ false)
IsOnly for_loop a b c = (b ≡ true) × (a ≡ false) × (c ≡ false)
IsOnly repeat_loop a b c = (c ≡ true) × (a ≡ false) × (b ≡ false)

head-IsOnly :
    (a b c : Bool) (m : Modifier) → (head_of (present_three a b c) ≡ some m) ↔ IsOnly m a b c
unfolding head_of present_three IsOnly
head-IsOnly a b c for_each_loop = ground arith
head-IsOnly a b c for_loop = ground arith
head-IsOnly a b c repeat_loop = ground arith

chosen-head :
    (obj : Value) (ctx : Message) (docs : Bool) (level : LoopLevel)
    → (validate_loop_modifiers obj ctx docs level).1
      ≡ head_of (
          present_three
            (is_defined (get obj "forEach"))
            (is_defined (get obj "for"))
            (is_defined (get obj "repeat")))
unfolding validate_loop_modifiers present_modifiers present_three
chosen-head obj ctx docs level = present-head (present_modifiers obj) obj ctx docs level

-- The result of `validateLoopModifiers` is a modifier exactly if the object has that one alone.
pub validate_loop_modifiers-chosen_iff :
    (obj : Value) (ctx : Message) (docs : Bool) (level : LoopLevel) (m : Modifier)
    → ((validate_loop_modifiers obj ctx docs level).1 ≡ some m) ↔ Only obj m
unfolding IsOnly
validate_loop_modifiers-chosen_iff obj ctx docs level for_each_loop = rw chosen-head (
    head-IsOnly (is_defined (get obj "forEach")) (is_defined (get obj "for"))
      (is_defined (get obj "repeat")) for_each_loop)
validate_loop_modifiers-chosen_iff obj ctx docs level for_loop = rw chosen-head (
    head-IsOnly (is_defined (get obj "forEach")) (is_defined (get obj "for"))
      (is_defined (get obj "repeat")) for_loop)
validate_loop_modifiers-chosen_iff obj ctx docs level repeat_loop = rw chosen-head (
    head-IsOnly (is_defined (get obj "forEach")) (is_defined (get obj "for"))
      (is_defined (get obj "repeat")) repeat_loop)

-- No plain object stands under this key.
abbrev pub Loopless : Value → String → Type 0
Loopless obj loop_key = is_present (as_plain (get obj loop_key)) ≡ false

absent_iff :
    (u : Unknown) (r : Report)
    → clean r ≡ false
    → (clean (only_if (is_defined u) r) ≡ true) ↔ (u ≡ undefined)
absent_iff undefined r e = (λ h. refl, λ p. refl)
absent_iff (known v) r e = (λ h. absurd (ground arith), λ p. cc)
absent_iff method r e = (λ h. absurd (ground arith), λ p. cc)

clean-inside : (ctx : Message) (name loop_key : String) → clean (inside ctx name loop_key) ≡ false
unfolding inside
clean-inside ctx name loop_key = refl

clean-sibling_iff :
    (name : String) (obj : Value) (ctx : Message) (i : ℕ) (loop_key : String)
    → (clean (sibling name obj ctx i loop_key) ≡ true)
      ↔ ((Loopless obj loop_key) ⊎ (get obj name ≡ undefined))
unfolding sibling
clean-sibling_iff name obj ctx i loop_key =
    ground
      (arith, absent_iff (get obj name) (inside ctx name loop_key) (clean-inside ctx name loop_key))

clean-step_sibling_iff :
    (step : Value) (ctx : Message) (i : ℕ) (loop_key : String)
    → (clean (step_sibling step ctx i loop_key) ≡ true) ↔ (
        (Loopless step loop_key)
        ⊎ ((get step "assertions" ≡ undefined) × (get step "extract" ≡ undefined)))
unfolding step_sibling
clean-step_sibling_iff step ctx i loop_key = ground (
  arith,
  absent_iff (get step "assertions") (inside ctx "assertions" loop_key)
      (clean-inside ctx "assertions" loop_key),
  absent_iff (get step "extract") (inside ctx "extract" loop_key)
      (clean-inside ctx "extract" loop_key),
  clean-seq_iff (only_if (is_defined (get step "assertions")) (inside ctx "assertions" loop_key))
      (only_if (is_defined (get step "extract")) (inside ctx "extract" loop_key)),
)

-- An alternative that does not depend on the element is taken once.
All-or_iff :
    (P : String → Type 0) (Q : Type 0) (xs : List String) → (All (λ x. P x ⊎ Q) xs) ↔ (All P xs ⊎ Q)
All-or_iff P Q [] = (λ h. inl tt, λ h. tt)
All-or_iff P Q (x ∷ xs) = ground (arith, All-or_iff P Q xs)

-- A check of each loop key that is passed where the key has no loop, or where the others are absent.
each_key_iff :
    (P : String → Type 0) (Q : Type 0) (body : ℕ → String → Report)
    → ((i : ℕ) (k : String) → (clean (body i k) ≡ true) ↔ (P k ⊎ Q))
    → (ks : List String) → (clean (for_each body 0 ks) ≡ true) ↔ (All P ks ⊎ Q)
each_key_iff P Q body each ks =
    let e = All-or_iff P Q ks in
    (
      λ h. e.0 (for_each_sound body (λ i k. (each i k).0) 0 ks h),
      λ h. for_each_complete body (λ i k. (each i k).1) 0 ks (e.1 h),
    )

-- A step passes the check of what stands beside its loops exactly if it has no loop object, or
-- neither assertions nor extract.
pub validate_loop_sibling_conflicts_iff :
    (step : Value) (ctx : Message)
    → (clean (validate_loop_sibling_conflicts step ctx) ≡ true) ↔ (
        All (Loopless step) loop_modifier_keys
        ⊎ ((get step "assertions" ≡ undefined) × (get step "extract" ≡ undefined)))
unfolding validate_loop_sibling_conflicts
validate_loop_sibling_conflicts_iff step ctx =
    each_key_iff (Loopless step)
      ((get step "assertions" ≡ undefined) × (get step "extract" ≡ undefined))
      (step_sibling step ctx) (clean-step_sibling_iff step ctx) loop_modifier_keys

-- A test passes exactly if it has no loop object or no steps beside it, and a block exactly if it has
-- no loop object or no assertions beside it.
pub sibling_conflicts_iff :
    (obj : Value) (ctx : Message)
    → ((clean (validate_test_loop_sibling_conflicts obj ctx) ≡ true)
        ↔ (All (Loopless obj) loop_modifier_keys ⊎ (get obj "steps" ≡ undefined)))
      × ((clean (validate_block_loop_sibling_conflicts obj ctx) ≡ true)
          ↔ (All (Loopless obj) loop_modifier_keys ⊎ (get obj "assertions" ≡ undefined)))
unfolding validate_test_loop_sibling_conflicts validate_block_loop_sibling_conflicts
sibling_conflicts_iff obj ctx = (
  each_key_iff (Loopless obj) (get obj "steps" ≡ undefined) (sibling "steps" obj ctx)
      (clean-sibling_iff "steps" obj ctx) loop_modifier_keys,
  each_key_iff (Loopless obj) (get obj "assertions" ≡ undefined) (sibling "assertions" obj ctx)
      (clean-sibling_iff "assertions" obj ctx) loop_modifier_keys,
)
