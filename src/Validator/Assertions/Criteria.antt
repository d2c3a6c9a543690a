-- ===== src/Validator/Assertions/Criteria.antt =====
-- Which match criteria are accepted.
use dokkimi.Prelude.{◌≡◌, ◌↔◌, ◌⊎◌, inl, inr, String, true, ◌∷◌, some, arith, All, Option-cases}
use dokkimi.Prelude.Text.{is_word_text}
use dokkimi.Prelude.Text.Prefix.{has_prefix_iff}
use dokkimi.Json.{
  array, object, cons, Fields, Unknown, undefined, known, elements, get, is_defined, as_text,
}
use dokkimi.Report.{Message, says, at, clean, only_if}
use dokkimi.Report.Clean.{
  clean-unknown_then, clean-seq_four_iff, optional_iff, for_each_sound, for_each_complete,
}
use dokkimi.Validator.Paths.Format.{Begins}
use dokkimi.Validator.Where.{validate_where_entry, validate_match_count}
use dokkimi.Validator.Where.Form.{IsWhere}
use dokkimi.Validator.Where.Complete.{validate_where_entry_iff}
use dokkimi.Validator.Where.Counts.{CountForm, validate_match_count_iff}
use dokkimi.Validator.Assertions.{
  validate_match_criteria, validate_criteria_path, validate_where_list, validate_as,
}

-- A text that begins with "$.".
abbrev pub RootedText : Unknown → Type 0
RootedText u = (s : String) × (as_text u ≡ some s) × Begins "$." s

-- A non-empty list of where entries.
abbrev pub WhereList : Unknown → Type 0
WhereList (known (array (cons v vs))) = All IsWhere (v ∷ elements vs)
WhereList _ = ⊥

-- A word.
abbrev pub WordText : Unknown → Type 0
WordText u = (s : String) × (as_text u ≡ some s) × (is_word_text s ≡ true)

pub record IsCriteria (fs : Fields) : Type 0 where
  pub path : RootedText (get (object fs) "path")
  pub entries : (get (object fs) "where" ≡ undefined) ⊎ WhereList (get (object fs) "where")
  pub count : (get (object fs) "count" ≡ undefined) ⊎ CountForm (get (object fs) "count")
  pub name : (get (object fs) "as" ≡ undefined) ⊎ WordText (get (object fs) "as")

criteria_path_iff :
    (u : Unknown) (ctx : Message) → (clean (validate_criteria_path u ctx) ≡ true) ↔ RootedText u
unfolding validate_criteria_path
criteria_path_iff u ctx = elim (Option-cases (as_text u)) [
  | inl e ↦ (λ h. absurd (ground arith), λ p. absurd (ground arith))
  | inr (s, e) ↦ (
    λ h. (s, e, (has_prefix_iff "$." s).0 (ground arith)),
    λ p. let ok = (has_prefix_iff "$." p.0).1 p.2 in ground arith,
  )
]

as_iff : (u : Unknown) (ctx : Message) → (clean (validate_as u ctx) ≡ true) ↔ WordText u
unfolding validate_as
as_iff u ctx = elim (Option-cases (as_text u)) [
  | inl e ↦ (λ h. absurd (ground arith), λ p. absurd (ground arith))
  | inr (s, e) ↦ (λ h. (s, e, ground arith), λ p. ground arith)
]

where_list_iff :
    (u : Unknown) (ctx : Message) → (clean (validate_where_list u ctx) ≡ true) ↔ WhereList u
unfolding validate_where_list
where_list_iff (known (array (cons v vs))) ctx = (
  for_each_sound (λ i x. validate_where_entry (known x) (at ctx ".where" i))
      (λ i x. (validate_where_entry_iff x (at ctx ".where" i)).0) 0 (v ∷ elements vs),
  for_each_complete (λ i x. validate_where_entry (known x) (at ctx ".where" i))
      (λ i x. (validate_where_entry_iff x (at ctx ".where" i)).1) 0 (v ∷ elements vs),
)
where_list_iff _ ctx = (λ h. cc, λ p. elim p [ ])

IsCriteria-object_iff :
    (fs : Fields) (ctx : Message)
    → (clean (validate_match_criteria (known (object fs)) ctx) ≡ true) ↔ IsCriteria fs
unfolding validate_match_criteria
IsCriteria-object_iff fs ctx =
    let path = get (object fs) "path" in
    let entries = get (object fs) "where" in
    let count = get (object fs) "count" in
    let name = get (object fs) "as" in
    let path_ok = criteria_path_iff path ctx in
    let where_ok =
      optional_iff entries (validate_where_list entries ctx) (where_list_iff entries ctx) in
    let count_ok =
      optional_iff count (validate_match_count count (says ctx ".count"))
        (validate_match_count_iff count (says ctx ".count")) in
    let name_ok = optional_iff name (validate_as name ctx) (as_iff name ctx) in
    let parts =
      clean-seq_four_iff (validate_criteria_path path ctx)
        (only_if (is_defined entries) (validate_where_list entries ctx))
        (only_if (is_defined count) (validate_match_count count (says ctx ".count")))
        (only_if (is_defined name) (validate_as name ctx)) in
    rw clean-unknown_then (
      λ h.
          let (p, w, c, n) = parts.0 h in
          record {
            path = path_ok.0 p;
            entries = where_ok.0 w;
            count = count_ok.0 c;
            name = name_ok.0 n;
          },
      λ r. parts.1 (path_ok.1 r.path, where_ok.1 r.entries, count_ok.1 r.count, name_ok.1 r.name),
    )

abbrev pub CriteriaForm : Unknown → Type 0
CriteriaForm (known (object fs)) = IsCriteria fs
CriteriaForm _ = ⊥

-- The check of match criteria reports no error exactly for an object with a path rooted at "$.", a
-- non-empty list of where entries if any, a count if any, and a word for a name if any.
pub validate_match_criteria_iff :
    (u : Unknown) (ctx : Message) → (clean (validate_match_criteria u ctx) ≡ true) ↔ CriteriaForm u
unfolding validate_match_criteria
validate_match_criteria_iff (known (object fs)) ctx = IsCriteria-object_iff fs ctx
validate_match_criteria_iff _ ctx = (λ h. cc, λ p. elim p [ ])
