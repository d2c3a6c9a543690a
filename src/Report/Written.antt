-- ===== src/Report/Written.antt =====
-- What a template literal makes of the values of a message. `${v}` throws a TypeError for an object with
-- a property `toString`, which no value of a file makes a function, and for a list that holds one.
use dokkimi.Prelude.{
  Bool, true, ◌&&◌, not, Option, none, some, [], ◌∷◌, ◌≡◌, Bool-cases, inl, inr, if◌then◌else◌,
  arith,
}
use dokkimi.Json.{Value, Items, nil, cons, array, object, own, is_defined}
use dokkimi.Report.{Report, Message, text, shown, error, warning}

unfoldable mutual
  pub has_text : Value → Bool
  has_text (object fs) = not (is_defined (own fs "toString"))
  has_text (array vs) = have_text vs
  has_text _ = true

  pub have_text : Items → Bool
  have_text nil = true
  have_text (cons v vs) = has_text v && have_text vs

unfoldable pub is_written : Message → Bool
is_written [] = true
is_written (text s ∷ m) = is_written m
is_written (shown v ∷ m) = has_text v && is_written m

unfoldable pub all_written : Report → Bool
unfolding is_written
all_written [] = true
all_written (error m ∷ r) = is_written m && all_written r
all_written (warning m ∷ r) = is_written m && all_written r

-- A result whose messages are written out: `none` is a TypeError.
unfoldable pub written : Option Report → Option Report
unfolding all_written
written none = none
written (some r) = if all_written r then some r else none

pub written-some : (o : Option Report) (r : Report) → written o ≡ some r → o ≡ some r
unfolding written
written-some none r h = cc
written-some (some t) r h = elim (Bool-cases (all_written t)) [
  | inl e ↦ ground arith
  | inr e ↦ absurd (ground arith)
]
