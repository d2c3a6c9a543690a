-- ===== src/Validator/Loops/Modifiers/Bodies.antt =====
-- What a loop modifier that passes its checks looks like.
use dokkimi.Prelude.{◌≡◌, ◌⊎◌, inl, inr, refl, Bool, true, some, List, [], ◌∷◌, arith}
use dokkimi.Json.{Value, object, Fields, undefined, known, get}
use dokkimi.Json.Reads.{not_defined}
use dokkimi.Report.{Message, clean, says}
use dokkimi.Report.Clean.{clean-seq_iff}
use dokkimi.Validator.Loops.Levels.{LoopLevel, under}
use dokkimi.Validator.Loops.Levels.Body.{IsBody, validate_loop_body_iff}
use dokkimi.Validator.Loops.Kinds.Plain.{
  validate_for_each_loop-plain, validate_for_loop-plain, validate_repeat_loop-plain,
}
use dokkimi.Validator.Loops.Modifiers.{
  Modifier, for_each_loop, for_loop, repeat_loop, modifier_key, validate_present, present_modifiers,
  validate_loop_modifiers, validate_modifier, validate_modifier_body,
}
use dokkimi.Validator.Loops.Modifiers.Chosen.{Only, validate_loop_modifiers-chosen_iff}

-- No loop, or a single one: an object that is a loop body of the level.
abbrev pub LoopForm : LoopLevel → Value → Type 0
LoopForm level obj =
    ((get obj "forEach" ≡ undefined) × (get obj "for" ≡ undefined) × (get obj "repeat" ≡ undefined))
    ⊎ ((m : Modifier) × (fs : Fields) × Only obj m
        × (get obj (modifier_key m) ≡ known (object fs))
        × IsBody level (object fs))

modifier-plain :
    (m : Modifier) (obj : Value) (ctx : Message) (docs : Bool)
    → clean (validate_modifier m obj ctx docs) ≡ true
    → (fs : Fields) × (get obj (modifier_key m) ≡ known (object fs))
unfolding validate_modifier
modifier-plain for_each_loop obj ctx docs h =
    validate_for_each_loop-plain (get obj "forEach") (says ctx ".forEach") docs h
modifier-plain for_loop obj ctx docs h = validate_for_loop-plain (get obj "for") (says ctx ".for") h
modifier-plain repeat_loop obj ctx docs h =
    validate_repeat_loop-plain (get obj "repeat") (says ctx ".repeat") h

modifier-IsBody :
    (m : Modifier) (obj : Value) (ctx : Message) (level : LoopLevel) (fs : Fields)
    → get obj (modifier_key m) ≡ known (object fs)
    → clean (validate_modifier_body m obj ctx level) ≡ true
    → IsBody level (object fs)
unfolding validate_modifier_body
modifier-IsBody m obj ctx level fs e h =
    let checked = validate_loop_body_iff (object fs) (under ctx (modifier_key m)) level in
    ground arith

-- A report of the present modifiers that has no error: there is none, or a single one that is right.
present_sound :
    (ms : List Modifier) (obj : Value) (ctx : Message) (docs : Bool) (level : LoopLevel)
    → clean (validate_present ms obj ctx docs level).0 ≡ true
    → (ms ≡ [])
      ⊎ ((m : Modifier) × (fs : Fields) × ((validate_present ms obj ctx docs level).1 ≡ some m)
          × (get obj (modifier_key m) ≡ known (object fs))
          × IsBody level (object fs))
unfolding validate_present
present_sound [] obj ctx docs level h = inl refl
present_sound (m ∷ []) obj ctx docs level h =
    let (a, b) =
      (clean-seq_iff (validate_modifier m obj ctx docs) (validate_modifier_body m obj ctx level)).0
        h in
    let (fs, e) = modifier-plain m obj ctx docs a in
    inr (m, fs, refl, e, modifier-IsBody m obj ctx level fs e b)
present_sound (m ∷ n ∷ ms) obj ctx docs level h = cc

no_modifier :
    (obj : Value)
    → present_modifiers obj ≡ []
    → (get obj "forEach" ≡ undefined) × (get obj "for" ≡ undefined) × (get obj "repeat" ≡ undefined)
unfolding present_modifiers
no_modifier obj h =
    let a = not_defined (get obj "forEach") in
    let b = not_defined (get obj "for") in let c = not_defined (get obj "repeat") in ground arith

-- An object whose check of loop modifiers reports no error has no loop, or a single one, which is an
-- object that is a loop body of the level.
pub validate_loop_modifiers_sound :
    (obj : Value) (ctx : Message) (docs : Bool) (level : LoopLevel)
    → clean (validate_loop_modifiers obj ctx docs level).0 ≡ true
    → LoopForm level obj
unfolding validate_loop_modifiers
validate_loop_modifiers_sound obj ctx docs level h =
    elim (present_sound (present_modifiers obj) obj ctx docs level h) [
      | inl e ↦ inl (no_modifier obj e)
      | inr (m, fs, chosen, e, b) ↦
          inr (m, fs, (validate_loop_modifiers-chosen_iff obj ctx docs level m).0 chosen, e, b)
    ]
