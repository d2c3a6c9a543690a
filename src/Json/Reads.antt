-- ===== src/Json/Reads.antt =====
-- What a passed test says of a value that was read.
use dokkimi.Prelude.{◌≡◌, ◌⊎◌, inl, inr, refl, String, true, false, List, member, none, some, arith}
use dokkimi.Prelude.Int.{ℤ}
use dokkimi.Prelude.Text.{is_present}
use dokkimi.Json.Numbers.{int}
use dokkimi.Json.{
  as_integer, as_text, as_plain, object, Fields, number, string, Unknown, undefined, known, method,
  is_defined, is_one_of, as_string,
}

pub is_one_of_sound :
    (u : Unknown) (list : List String)
    → is_one_of u list ≡ true
    → (s : String) × (u ≡ known (string s)) × (member s list ≡ true)
unfolding is_one_of
is_one_of_sound (known (string s)) list h = (s, refl, h)
is_one_of_sound _ list h = cc

pub is_one_of-string :
    (s : String) (list : List String) → is_one_of (known (string s)) list ≡ member s list
unfolding is_one_of
is_one_of-string s list = refl

pub as_string-cases : (u : Unknown) → (as_string u ≡ none) ⊎ ((s : String) × (u ≡ known (string s)))
as_string-cases (known (string s)) = inr (s, refl)
as_string-cases _ = inl refl

pub not_defined : (u : Unknown) → is_defined u ≡ false → u ≡ undefined
not_defined undefined h = refl
not_defined (known v) h = cc
not_defined method h = cc

pub as_integer_sound :
    (u : Unknown) → is_present (as_integer u) ≡ true → (z : ℤ) × (u ≡ known (number (int z)))
as_integer_sound (known (number (int z))) h = (z, refl)
as_integer_sound _ h = cc

pub as_text-some : (u : Unknown) (s : String) → as_text u ≡ some s → u ≡ known (string s)
as_text-some (known (string t)) s h = ground arith
as_text-some _ s h = cc

pub as_plain-cases :
    (u : Unknown)
    → (as_plain u ≡ none)
      ⊎ ((fs : Fields) × (u ≡ known (object fs)) × (as_plain u ≡ some (object fs)))
as_plain-cases (known (object fs)) = inr (fs, refl, refl)
as_plain-cases _ = inl refl
