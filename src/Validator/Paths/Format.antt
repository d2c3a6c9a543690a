-- ===== src/Validator/Paths/Format.antt =====
-- Which paths the format check accepts.
use Prim.Native.String
use dokkimi.Prelude.{String, ◌≡◌, ◌≢◌, ◌⊎◌, inl, inr, ◌↔◌, true, false, arith, eq_iff, Bool-cases}
use dokkimi.Prelude.Text.{has_prefix, strip_prefix}
use dokkimi.Prelude.Text.Prefix.{has_prefix_iff}
use dokkimi.Report.{Message, clean}
use dokkimi.Validator.Paths.{validate_path_format}

-- `s` is `p` and a rest.
abbrev pub Begins : String → String → Type 0
Begins p s = (r : String) × (s ≡ String.◌++◌ p r)

-- A template, or a rooted path that is not of an old shape.
abbrev pub IsPath : String → Type 0
IsPath s =
    Begins "{{" s
    ⊎ (Begins "$." s
        × (¬ Begins "$.body." s)
        × (¬ Begins "$.headers." s)
        × (s ≢ "$.statusCode")
        × (¬ Begins "$.extracted." s))

has_prefix-false : (p s : String) → has_prefix p s ≡ false → ¬ Begins p s
has_prefix-false p s h b = cc ((has_prefix_iff p s).1 b)

not-has_prefix : (p s : String) → ¬ Begins p s → has_prefix p s ≡ false
not-has_prefix p s h = elim (Bool-cases (has_prefix p s)) [
  | inl e ↦ absurd (h ((has_prefix_iff p s).0 e))
  | inr e ↦ e
]

-- The second character of "$." is not that of "$$".
rooted-ne-scoped : (s : String) → has_prefix "$." s ≡ true → has_prefix "$$" s ≡ false
unfolding strip_prefix
rooted-ne-scoped String.[] h = cc
rooted-ne-scoped (String.◌∷◌ c String.[]) h = ground arith
rooted-ne-scoped (String.◌∷◌ c (String.◌∷◌ d s)) h = ground arith

rooted-ne-scoped_dot : (s : String) → has_prefix "$." s ≡ true → has_prefix "$$." s ≡ false
unfolding strip_prefix
rooted-ne-scoped_dot String.[] h = cc
rooted-ne-scoped_dot (String.◌∷◌ c String.[]) h = ground arith
rooted-ne-scoped_dot (String.◌∷◌ c (String.◌∷◌ d s)) h = ground arith

validate_path_format_sound :
    (s : String) (ctx : Message)
    → clean (validate_path_format s ctx) ≡ true
    → (has_prefix "{{" s ≡ true)
      ⊎ ((has_prefix "$." s ≡ true)
          × (has_prefix "$.body." s ≡ false)
          × (has_prefix "$.headers." s ≡ false)
          × (s ≢ "$.statusCode")
          × (has_prefix "$.extracted." s ≡ false))
unfolding validate_path_format
validate_path_format_sound s ctx h = ground (arith, eq_iff s "$.statusCode")

template_accepted :
    (s : String) (ctx : Message)
    → has_prefix "{{" s ≡ true
    → clean (validate_path_format s ctx) ≡ true
unfolding validate_path_format
template_accepted s ctx h = ground arith

rooted_accepted :
    (s : String) (ctx : Message)
    → has_prefix "$." s ≡ true
    → has_prefix "$.body." s ≡ false
    → has_prefix "$.headers." s ≡ false
    → s ≢ "$.statusCode"
    → has_prefix "$.extracted." s ≡ false
    → has_prefix "$$" s ≡ false
    → has_prefix "$$." s ≡ false
    → clean (validate_path_format s ctx) ≡ true
unfolding validate_path_format
rooted_accepted s ctx a b c d e f g = ground (arith, eq_iff s "$.statusCode")

-- The path check reports no error exactly for a template and for a path rooted at "$." that has none
-- of the deprecated shapes.
pub validate_path_format_iff :
    (s : String) (ctx : Message) → (clean (validate_path_format s ctx) ≡ true) ↔ IsPath s
validate_path_format_iff s ctx = (λ h. sound (validate_path_format_sound s ctx h), complete)
  where
    sound :
        (has_prefix "{{" s ≡ true)
          ⊎ ((has_prefix "$." s ≡ true)
              × (has_prefix "$.body." s ≡ false)
              × (has_prefix "$.headers." s ≡ false)
              × (s ≢ "$.statusCode")
              × (has_prefix "$.extracted." s ≡ false))
        → IsPath s
    sound (inl t) = inl ((has_prefix_iff "{{" s).0 t)
    sound (inr (rooted, body, headers, status, extracted)) = inr (
      (has_prefix_iff "$." s).0 rooted,
      has_prefix-false "$.body." s body,
      has_prefix-false "$.headers." s headers,
      status,
      has_prefix-false "$.extracted." s extracted,
    )

    complete : IsPath s → clean (validate_path_format s ctx) ≡ true
    complete (inl t) = template_accepted s ctx ((has_prefix_iff "{{" s).1 t)
    complete (inr (rooted, body, headers, status, extracted)) =
        let root = (has_prefix_iff "$." s).1 rooted in
        rooted_accepted s ctx root (not-has_prefix "$.body." s body)
          (not-has_prefix "$.headers." s headers) status (not-has_prefix "$.extracted." s extracted)
          (rooted-ne-scoped s root) (rooted-ne-scoped_dot s root)
