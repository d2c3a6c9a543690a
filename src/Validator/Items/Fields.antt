-- ===== src/Validator/Items/Fields.antt =====
-- What the checks of an item's fields accept.
use dokkimi.Prelude.{
  ℕ, ◌≤◌, ◌≡◌, ◌↔◌, ◌⊎◌, inl, inr, refl, String, Bool, true, false, ◌&&◌, Option, none, some, List,
  arith, eq_iff, member, Option-cases,
}
use dokkimi.Prelude.Int.{ltb_ℤ, pos, negsuc}
use dokkimi.Prelude.Text.{is_present, has_prefix}
use dokkimi.Json.{
  Value, boolean, number, string, Unknown, undefined, known, as_text, as_string, as_integer,
  as_number, is_text, is_one_of,
}
use dokkimi.Json.Numbers.{Number, int, is_less, zero_number}
use dokkimi.Json.Reads.{is_one_of_sound, is_one_of-string}
use dokkimi.Report.{Report, Message, clean, only_if, err}
use dokkimi.Report.Clean.{reject_iff, optional_iff, ListForm}
use dokkimi.Report.Accepts.{Accepts}
use dokkimi.Validator.Items.Parts.{is_integer_in, validate_port, validate_strings, validate_env}
use dokkimi.Validator.Items.{warn_description, validate_stage}
use dokkimi.Validator.Items.Parts.{validate_item_name}
use dokkimi.Validator.Items.Names.{IsLabel, validate_item_name_iff, PortForm, validate_port_iff}
use dokkimi.Validator.Items.Containers.{
  TextForm, TextForm-iff, StringForm, EnvForm, env_iff, strings_iff, IsContainer,
  validate_container_iff,
}
use dokkimi.Validator.Items.Kinds.{
  validate_container, matches_version, validate_version, require_text, validate_health_check,
  validate_no_auth, validate_mock_delay, validate_body_text,
}

-- A word of a list.
abbrev pub WordOf : List String → Unknown → Type 0
WordOf list u = (s : String) × (u ≡ known (string s)) × (member s list ≡ true)

abbrev pub Absent : Unknown → Type 0
Absent u = u ≡ undefined

-- A text that is not empty.
abbrev pub SomeText : Unknown → Type 0
SomeText u = (s : String) × (as_text u ≡ some s)

abbrev pub VersionForm : Unknown → Type 0
VersionForm u = TextForm (λ s. matches_version s ≡ true) u

abbrev pub IntegerIn : ℕ → ℕ → Unknown → Type 0
IntegerIn low high u = (n : ℕ) × (u ≡ known (number (int (pos n)))) × (low ≤ n) × (n ≤ high)

abbrev pub NonNegative : Unknown → Type 0
NonNegative u = (n : Number) × (as_number u ≡ some n) × (is_less n zero_number ≡ false)

require_iff :
    (u : Unknown) (message : String) (label : Message)
    → (clean (require_text u message label) ≡ true) ↔ SomeText u
unfolding require_text
require_iff u message label = elim (Option-cases (as_text u)) [
  | inl e ↦ (λ h. absurd (ground arith), λ (s, p). absurd (ground arith))
  | inr (s, e) ↦ (λ h. (s, e), λ p. ground arith)
]

pub is_one_of_iff : (u : Unknown) (list : List String) → (is_one_of u list ≡ true) ↔ WordOf list u
is_one_of_iff u list =
    (λ h. is_one_of_sound u list h, λ o. let one = is_one_of-string o.0 list in ground arith)

pub IntegerIn-iff :
    (low high : ℕ) (u : Unknown) → (is_integer_in low high u ≡ true) ↔ IntegerIn low high u
IntegerIn-iff low high (known (number (int (pos n)))) =
    (λ h. (n, refl, ground arith, ground arith), λ (m, e, p, q). ground arith)
IntegerIn-iff low high (known (number (int (negsuc n)))) =
    (λ h. absurd (ground arith), λ (m, e, p, q). cc)
IntegerIn-iff low high _ = (λ h. cc, λ (m, e, p, q). cc)

version_iff :
    (u : Unknown) (explain label : Message)
    → (clean (validate_version u explain label) ≡ true) ↔ (Absent u ⊎ VersionForm u)
unfolding validate_version
version_iff u explain label =
    optional_iff u _
      (TextForm-iff u _ _ (λ s. matches_version s ≡ true) (λ s. reject_iff (matches_version s) _))

pub is_text_iff : (u : Unknown) (t : String) → (is_text u t ≡ true) ↔ (u ≡ known (string t))
is_text_iff (known (string s)) t = ground (arith, eq_iff s t)
is_text_iff _ t = (λ h. cc, λ p. cc)

-- A path, or the word "tcp".
abbrev pub HealthForm : Unknown → Type 0
HealthForm u = TextForm (λ s. (u ≡ known (string "tcp")) ⊎ (has_prefix "/" s ≡ true)) u

health_iff :
    (u : Unknown) (label : Message) → (clean (validate_health_check u label) ≡ true) ↔ HealthForm u
unfolding validate_health_check
health_iff u label =
    TextForm-iff u _ _ (λ s. (u ≡ known (string "tcp")) ⊎ (has_prefix "/" s ≡ true))
      (λ s. let tcp = is_text_iff u "tcp" in ground arith)

pub is_string_iff : (u : Unknown) → (is_present (as_string u) ≡ true) ↔ StringForm u
is_string_iff (known (string s)) = (λ h. (s, refl), λ p. refl)
is_string_iff _ = (λ h. cc, λ p. cc)

no_auth_iff :
    (u : Unknown) (credentials : Bool) (label : Message)
    → (clean (validate_no_auth u credentials label) ≡ true)
      ↔ (Absent u ⊎ ((b : Bool) × (u ≡ known (boolean b)) × (b && credentials ≡ false)))
unfolding validate_no_auth
no_auth_iff undefined credentials label = (λ h. inl refl, λ p. refl)
no_auth_iff (known (boolean b)) credentials label =
    (λ h. inr (b, refl, ground arith), λ p. elim p [ inl e ↦ cc | inr (c, e, f) ↦ ground arith ])
no_auth_iff _ credentials label = (λ h. cc, λ p. elim p [ inl e ↦ cc | inr (c, e, f) ↦ cc ])

below_iff :
    (o : Option Number) (m : Message)
    → (clean (elim o [ none ↦ err m | some n ↦ only_if (is_less n zero_number) (err m) ]) ≡ true)
      ↔ ((n : Number) × (o ≡ some n) × (is_less n zero_number ≡ false))
below_iff none m = (λ h. cc, λ (n, e, p). cc)
below_iff (some n) m = (λ h. (n, refl, ground arith), λ (k, e, p). ground arith)

delay_iff :
    (u : Unknown) (label : Message)
    → (clean (validate_mock_delay u label) ≡ true) ↔ (Absent u ⊎ NonNegative u)
unfolding validate_mock_delay
delay_iff u label = optional_iff u _ (below_iff (as_number u) _)

body_text_iff :
    (name : String) (u : Unknown) (label : Message) (check : String → Report) (P : String → Type 0)
    → ((s : String) → (clean (check s) ≡ true) ↔ P s)
    → (clean (validate_body_text name u label check) ≡ true) ↔ (Absent u ⊎ TextForm P u)
unfolding validate_body_text
body_text_iff name (known (string s)) label check P each =
    let e = TextForm-iff (known (string s)) _ check P each in
    (λ h. inr (e.0 h), λ p. elim p [ inl absent ↦ cc | inr ok ↦ e.1 ok ])
body_text_iff name undefined label check P each = (λ h. inl refl, λ p. refl)
body_text_iff name _ label check P each = (λ h. cc, λ p. elim p [ inl e ↦ cc | inr (s, e, q) ↦ cc ])

-- The same, statement by statement.
pub strings_ok :
    (name : String) (u : Unknown) (label : Message)
    → Accepts (validate_strings name u label) (ListForm (λ v. StringForm (known v)) u)
strings_ok name u label = record { iff = strings_iff name u label }

pub env_ok : (u : Unknown) (label : Message) → Accepts (validate_env u label) (ListForm EnvForm u)
env_ok u label = record { iff = env_iff u label }

pub port_ok :
    (u : Unknown) (name : String) (label : Message)
    → Accepts (validate_port u name label) (PortForm u)
port_ok u name label = record { iff = validate_port_iff u name label }

pub IsContainer-ok :
    (exists : String → Bool) (resolve : String → String → String) (item : Value) (label : Message)
    (from : String)
    → Accepts
        (validate_container exists resolve item label from)
        (IsContainer exists resolve item from)
IsContainer-ok exists resolve item label from = record {
  iff = validate_container_iff exists resolve item label from;
}

pub require_ok :
    (u : Unknown) (message : String) (label : Message)
    → Accepts (require_text u message label) (SomeText u)
require_ok u message label = record { iff = require_iff u message label }

pub version_ok :
    (u : Unknown) (explain label : Message)
    → Accepts (validate_version u explain label) (Absent u ⊎ VersionForm u)
version_ok u explain label = record { iff = version_iff u explain label }

pub health_ok :
    (u : Unknown) (label : Message) → Accepts (validate_health_check u label) (HealthForm u)
health_ok u label = record { iff = health_iff u label }

-- A flag that is not set together with the credentials.
abbrev pub NoAuthForm : Bool → Unknown → Type 0
NoAuthForm credentials u =
    Absent u ⊎ ((b : Bool) × (u ≡ known (boolean b)) × (b && credentials ≡ false))

pub no_auth_ok :
    (u : Unknown) (credentials : Bool) (label : Message)
    → Accepts (validate_no_auth u credentials label) (NoAuthForm credentials u)
no_auth_ok u credentials label = record { iff = no_auth_iff u credentials label }

pub delay_ok :
    (u : Unknown) (label : Message)
    → Accepts (validate_mock_delay u label) (Absent u ⊎ NonNegative u)
delay_ok u label = record { iff = delay_iff u label }

pub body_text_ok :
    (name : String) (u : Unknown) (label : Message) (check : String → Report) (P : String → Type 0)
    → ((s : String) → (clean (check s) ≡ true) ↔ P s)
    → Accepts (validate_body_text name u label check) (Absent u ⊎ TextForm P u)
body_text_ok name u label check P each = record { iff = body_text_iff name u label check P each }

abbrev pub NameForm : Unknown → Type 0
NameForm u = (s : String) × (u ≡ known (string s)) × IsLabel s

pub name_ok : (u : Unknown) (ctx : Message) → Accepts (validate_item_name u ctx) (NameForm u)
name_ok u ctx = record { iff = validate_item_name_iff u ctx }

abbrev pub StageForm : Unknown → Type 0
StageForm u = (n : ℕ) × (u ≡ known (number (int (pos n))))

stage_iff :
    (u : Unknown) (m : Message)
    → (clean (elim (as_integer u) [ none ↦ err m | some z ↦ only_if (ltb_ℤ z (pos 0)) (err m) ])
        ≡ true)
      ↔ StageForm u
stage_iff (known (number (int (pos n)))) m = (λ h. (n, refl), λ p. ground arith)
stage_iff (known (number (int (negsuc n)))) m = (λ h. absurd (ground arith), λ p. cc)
stage_iff _ m = (λ h. cc, λ p. cc)

pub stage_ok :
    (u : Unknown) (label : Message) → Accepts (validate_stage u label) (Absent u ⊎ StageForm u)
unfolding validate_stage
stage_ok u label = record { iff = optional_iff u _ (stage_iff u _) }

-- A long description is a warning, never an error.
pub description_quiet : (u : Unknown) (label : Message) → clean (warn_description u label) ≡ true
unfolding warn_description
description_quiet (known (string s)) label = ground arith
description_quiet _ label = refl
