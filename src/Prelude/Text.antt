-- ===== src/Prelude/Text.antt =====
-- Text: prefixes, suffixes and the character classes of the source's regular expressions.
-- A `String` is a list of characters by its own `[]` and `∷`.
pub mod Prefix
use Prim.Native.Nat.{ℕ}
use Prim.Native.Char.{code}
use Prim.Native.String.{String, [], ◌∷◌}
use mathlib.Core.Bool.{Bool, true, false, ◌&&◌, ◌||◌}
use mathlib.Core.Option.{Option, none, some}
use dokkimi.Prelude.Tests.{leb, eqb, if◌then◌else◌}

-- What is left of a text behind a prefix of it: `s.startsWith(p)` with `s.slice(p.length)`.
unfoldable pub strip_prefix : String → String → Option String
strip_prefix [] s = some s
strip_prefix (c ∷ p) [] = none
strip_prefix (c ∷ p) (d ∷ s) = if eqb (code c) (code d) then strip_prefix p s else none

abbrev pub is_present {ℓ} : {A : Type ℓ} → Option A → Bool
is_present none = false
is_present (some a) = true

-- `s.startsWith(p)`.
abbrev pub has_prefix : String → String → Bool
has_prefix p s = is_present (strip_prefix p s)

-- `\w`: a letter, a digit or an underscore.
abbrev pub is_word : ℕ → Bool
is_word c =
    leb b'a' c && leb c b'z' || leb b'A' c && leb c b'Z' || leb b'0' c && leb c b'9' || eqb c b'_'

abbrev pub every_char : (ℕ → Bool) → String → Bool
every_char p [] = true
every_char p (c ∷ s) = p (code c) && every_char p s

abbrev pub is_empty : String → Bool
is_empty [] = true
is_empty (c ∷ s) = false

-- `/^\w+$/.test(s)`.
unfoldable pub is_word_text : String → Bool
is_word_text [] = false
is_word_text (c ∷ s) = every_char is_word (c ∷ s)
