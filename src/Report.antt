-- ===== src/Report.antt =====
-- shared/definition-validator/validate-helpers.ts: what a validator pushes onto a ValidationResult.
-- A report is the list of the pushes, in order; `r.errors` and `r.warnings` are its two parts.
-- A message is a template literal's pieces, before JavaScript turns them into one text.
pub mod Clean
pub mod Accepts
pub mod Written
use dokkimi.Prelude.{ℕ, suc, String, Bool, true, false, ◌&&◌, List, [], ◌∷◌, ◌++◌, if◌then◌else◌}
use dokkimi.Prelude.Int.{pos}
use dokkimi.Json.{Value, number, string, keys}
use dokkimi.Json.Numbers.{Number, int}
use dokkimi.Prelude.{member}

-- A piece of a template: its own text, or the value of a `${…}`.
pub data Piece : Type 0 where
  text : String → Piece
  shown : Value → Piece

abbrev pub Message : Type 0
Message = List Piece

abbrev pub index : ℕ → Piece
index i = shown (number (int (pos i)))

abbrev pub quoted : String → Piece
quoted s = shown (string s)

-- `${ctx}…`, with a last piece of plain text.
abbrev pub says : Message → String → Message
says ctx s = ctx ++ text s ∷ []

-- `list.join(', ')`.
abbrev pub listed : List String → Message
listed [] = []
listed (x ∷ []) = text x ∷ []
listed (x ∷ y ∷ xs) = text x ∷ text ", " ∷ listed (y ∷ xs)

-- `${ctx}.key[${i}]`.
abbrev pub at : Message → String → ℕ → Message
at ctx key i = ctx ++ text key ∷ text "[" ∷ index i ∷ text "]" ∷ []

pub data Diagnostic : Type 0 where
  error warning : Message → Diagnostic

abbrev pub Report : Type 0
Report = List Diagnostic

-- Statements one after the other.
infixl 5 ◌>>◌
abbrev pub ◌>>◌ : Report → Report → Report
a >> b = a ++ b

abbrev pub err : Message → Report
err msg = error msg ∷ []

abbrev pub warn : Message → Report
warn msg = warning msg ∷ []

-- A statement that pushes nothing.
abbrev pub pass : Report
pass = []

-- `if (test) { … }`.
abbrev pub only_if : Bool → Report → Report
only_if test r = if test then r else pass

-- `for (let i = 0; i < xs.length; i++) { … }`.
abbrev pub for_each {ℓ} : {A : Type ℓ} → (ℕ → A → Report) → ℕ → List A → Report
for_each body i [] = pass
for_each body i (x ∷ xs) = do body i x; for_each body (suc i) xs

warn_unknown : List String → Message → List String → Report
warn_unknown valid_keys ctx [] = pass
warn_unknown valid_keys ctx (key ∷ rest) = do
  if member key valid_keys
      then pass
      else warn (ctx ++ text ": unknown property \"" ∷ quoted key ∷ text "\"" ∷ [])
  warn_unknown valid_keys ctx rest

unfoldable pub check_unknown_keys : Value → List String → Message → Report
unfolding warn_unknown
check_unknown_keys obj valid_keys ctx = warn_unknown valid_keys ctx (keys obj)

-- `r.errors` and `r.warnings`.
abbrev pub errors : Report → List Message
errors [] = []
errors (error m ∷ r) = m ∷ errors r
errors (warning m ∷ r) = errors r

abbrev pub warnings : Report → List Message
warnings [] = []
warnings (error m ∷ r) = warnings r
warnings (warning m ∷ r) = m ∷ warnings r

-- `r.errors.length === 0`: the definition is accepted.
abbrev pub clean : Report → Bool
clean [] = true
clean (error m ∷ r) = false
clean (warning m ∷ r) = clean r
