-- ===== src/Validator/Items/Names.antt =====
-- Which item names and ports are accepted.
use dokkimi.Prelude.{
  ℕ, ◌≤◌, ◌≡◌, ◌↔◌, ◌⊎◌, inl, inr, refl, String, Bool, true, false, ◌||◌, not, [], ◌∷◌, ◌++◌, arith,
  eqb, ltb, if◌then◌else◌, subst,
}
use dokkimi.Prelude.Int.{pos, negsuc}
use dokkimi.Prelude.Text.{is_empty, every_char}
use dokkimi.Json.{null, number, string, Unknown, undefined, known}
use dokkimi.Json.Numbers.{int}
use dokkimi.Report.{Message, clean, only_if, err, text, quoted}
use dokkimi.Validator.Items.Parts.{
  text_length, is_lower_alnum, is_name_tail, matches_item_name, validate_item_name, validate_port,
}
use Prim.Native.Char.{code}

-- A character of a DNS label.
abbrev pub is_label_char : ℕ → Bool
is_label_char c = is_lower_alnum c || eqb c b'-'

abbrev pub first_is_hyphen : String → Bool
first_is_hyphen String.[] = false
first_is_hyphen (String.◌∷◌ c s) = eqb (code c) b'-'

abbrev pub last_is_hyphen : String → Bool
last_is_hyphen String.[] = false
last_is_hyphen (String.◌∷◌ c s) = if is_empty s then eqb (code c) b'-' else last_is_hyphen s

-- A DNS label: 1 to 63 lower-case letters, digits and hyphens, with no hyphen at either end.
pub record IsLabel (s : String) : Type 0 where
  pub not_empty : is_empty s ≡ false
  pub chars : every_char is_label_char s ≡ true
  pub first : first_is_hyphen s ≡ false
  pub last : last_is_hyphen s ≡ false
  pub short : text_length s ≤ 63

hyphen_not_alnum : (c : ℕ) → is_lower_alnum c ≡ true → eqb c b'-' ≡ false
hyphen_not_alnum c h = ground arith

tail_iff :
    (s : String)
    → (is_name_tail s ≡ true) ↔ ((every_char is_label_char s ≡ true) × (last_is_hyphen s ≡ false))
unfolding is_name_tail
tail_iff String.[] = (λ h. (refl, refl), λ h. refl)
tail_iff (String.◌∷◌ c String.[]) = ground (arith, hyphen_not_alnum (code c))
tail_iff (String.◌∷◌ c (String.◌∷◌ d s)) = let rest = tail_iff (String.◌∷◌ d s) in ground arith

-- The regular expression of item names describes the DNS labels of any length.
matches_iff :
    (s : String)
    → (matches_item_name s ≡ true) ↔ (
        (is_empty s ≡ false)
        × (every_char is_label_char s ≡ true)
        × (first_is_hyphen s ≡ false)
        × (last_is_hyphen s ≡ false))
unfolding matches_item_name
matches_iff String.[] = (λ h. cc, λ p. cc)
matches_iff (String.◌∷◌ c String.[]) = ground (arith, hyphen_not_alnum (code c))
matches_iff (String.◌∷◌ c (String.◌∷◌ d s)) =
    let rest = tail_iff (String.◌∷◌ d s) in ground (arith, hyphen_not_alnum (code c))

label_iff :
    (s : String) (ctx : Message)
    → (clean (
          only_if
            (ltb 63 (text_length s))
            (err (ctx ++ text ": name \"" ∷ quoted s ∷ text "\" exceeds 63 characters" ∷ []))
          ++ only_if (not (matches_item_name s)) (
              err (
                ctx
                ++ text ": name \""
                  ∷ quoted s
                  ∷ text
                      "\" must be lowercase alphanumeric with hyphens, starting/ending with alphanumeric"
                  ∷ [])))
        ≡ true)
      ↔ ((matches_item_name s ≡ true) × (text_length s ≤ 63))
label_iff s ctx = ground arith

empty_label : (s : String) → known (string String.[]) ≡ known (string s) → IsLabel s → ⊥
empty_label String.[] e l = cc (l.not_empty)
empty_label (String.◌∷◌ c s) e l = cc

-- The check of an item's name reports no error exactly for a text that is a DNS label: 1 to 63
-- lower-case letters, digits and hyphens, without a hyphen at either end.
pub validate_item_name_iff :
    (u : Unknown) (ctx : Message)
    → (clean (validate_item_name u ctx) ≡ true)
      ↔ ((s : String) × (u ≡ known (string s)) × IsLabel s)
unfolding validate_item_name
validate_item_name_iff (known (string String.[])) ctx =
    (λ h. cc, λ (s, e, l). absurd (empty_label s e l))
validate_item_name_iff (known (string (String.◌∷◌ c s))) ctx =
    let t = String.◌∷◌ c s in
    let checks = label_iff t ctx in
    let name = matches_iff t in
    (
      λ h.
          let (m, l) = checks.0 h in
          let (a, b, d, e) = name.0 m in
          (t, refl, record { not_empty = a; chars = b; first = d; last = e; short = l }),
      λ (u, e, l).
          let same : u ≡ t = ground arith in
          checks.1 (
            name.1 (
              refl,
              subst (λ x. every_char is_label_char x ≡ true) same l.chars,
              subst (λ x. first_is_hyphen x ≡ false) same l.first,
              subst (λ x. last_is_hyphen x ≡ false) same l.last,
            ),
            subst (λ x. text_length x ≤ 63) same l.short,
          ),
    )
validate_item_name_iff _ ctx = (λ h. cc, λ p. cc)

abbrev pub PortForm : Unknown → Type 0
PortForm u =
    (u ≡ undefined)
    ⊎ (u ≡ known null)
    ⊎ ((n : ℕ) × (u ≡ known (number (int (pos n)))) × (1 ≤ n) × (n ≤ 65535))

-- The check of a port reports no error exactly if it is left out, null, or an integer from 1 to 65535.
pub validate_port_iff :
    (u : Unknown) (name : String) (ctx : Message)
    → (clean (validate_port u name ctx) ≡ true) ↔ PortForm u
unfolding validate_port
validate_port_iff undefined name ctx = (λ h. inl refl, λ p. refl)
validate_port_iff (known null) name ctx = (λ h. inr (inl refl), λ p. refl)
validate_port_iff (known (number (int (pos n)))) name ctx =
    (λ h. inr (inr (n, refl, ground arith, ground arith)), λ p. ground arith)
validate_port_iff (known (number (int (negsuc n)))) name ctx = (
  λ h. absurd (ground arith),
  λ p. elim p [ inl e ↦ cc | inr q ↦ elim q [ inl e ↦ cc | inr (m, e, l, k) ↦ cc ] ],
)
validate_port_iff _ name ctx =
    (λ h. cc, λ p. elim p [ inl e ↦ cc | inr q ↦ elim q [ inl e ↦ cc | inr (n, e, l, m) ↦ cc ] ])
