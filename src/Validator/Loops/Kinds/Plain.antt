-- ===== src/Validator/Loops/Kinds/Plain.antt =====
-- A loop modifier that passes its check is a plain object.
use dokkimi.Prelude.{◌≡◌, refl, Bool, true}
use dokkimi.Json.{object, Fields, Unknown, known}
use dokkimi.Report.{Message, clean}
use dokkimi.Validator.Loops.Kinds.{validate_for_each_loop, validate_for_loop, validate_repeat_loop}

pub validate_for_each_loop-plain :
    (u : Unknown) (ctx : Message) (docs : Bool)
    → clean (validate_for_each_loop u ctx docs) ≡ true
    → (fs : Fields) × (u ≡ known (object fs))
unfolding validate_for_each_loop
validate_for_each_loop-plain (known (object fs)) ctx docs h = (fs, refl)
validate_for_each_loop-plain _ ctx docs h = cc

pub validate_for_loop-plain :
    (u : Unknown) (ctx : Message)
    → clean (validate_for_loop u ctx) ≡ true
    → (fs : Fields) × (u ≡ known (object fs))
unfolding validate_for_loop
validate_for_loop-plain (known (object fs)) ctx h = (fs, refl)
validate_for_loop-plain _ ctx h = cc

pub validate_repeat_loop-plain :
    (u : Unknown) (ctx : Message)
    → clean (validate_repeat_loop u ctx) ≡ true
    → (fs : Fields) × (u ≡ known (object fs))
unfolding validate_repeat_loop
validate_repeat_loop-plain (known (object fs)) ctx h = (fs, refl)
validate_repeat_loop-plain _ ctx h = cc
