-- ===== src/Validator/Items/Parts.antt =====
-- shared/definition-validator/validate-items.ts: the checks of the fields that several kinds of item
-- share. The source writes the checks of commands, files and environments once for each kind.
-- `exists` is `fs.existsSync`, and `resolve` is `path.resolve(path.dirname(from), to)`.
use dokkimi.Prelude.{
  ℕ, ◌+◌, String, Bool, true, false, ◌||◌, ◌&&◌, not, none, some, [], ◌∷◌, ◌++◌, ltb, leb, eqb,
  if◌then◌else◌,
}
use dokkimi.Prelude.Int.{pos, ltb_ℤ}
use dokkimi.Prelude.Text.{is_present, is_empty, has_prefix}
use dokkimi.Json.{
  Value, null, Unknown, undefined, known, method, get, as_object, as_array, as_string, as_text,
  as_integer, is_defined,
}
use dokkimi.Report.{
  Report, Message, Piece, text, quoted, shown, says, at, err, pass, only_if, for_each, ◌>>◌,
}
use dokkimi.Validator.Keys.Items.{item_name_max_length, port_min, port_max}
use Prim.Native.Char.{code}

-- `s.length`: the UTF-16 units of a text.
unfoldable pub text_length : String → ℕ
text_length String.[] = 0
text_length (String.◌∷◌ c s) = (if ltb (code c) 65536 then 1 else 2) + text_length s

-- `[a-z0-9]`.
abbrev pub is_lower_alnum : ℕ → Bool
is_lower_alnum c = leb b'a' c && leb c b'z' || leb b'0' c && leb c b'9'

-- `([-a-z0-9]*[a-z0-9])?$`, and the whole expression `ITEM_NAME_RE`.
unfoldable pub is_name_tail : String → Bool
is_name_tail String.[] = true
is_name_tail (String.◌∷◌ c s) =
    if is_empty s
    then is_lower_alnum (code c)
    else (is_lower_alnum (code c) || eqb (code c) b'-') && is_name_tail s

unfoldable pub matches_item_name : String → Bool
unfolding is_name_tail
matches_item_name String.[] = false
matches_item_name (String.◌∷◌ c s) = is_lower_alnum (code c) && is_name_tail s

-- A value in a template literal. (No field that is printed is a method of an array.)
abbrev pub printed : Unknown → Piece
printed undefined = text "undefined"
printed (known v) = shown v
printed method = text "function"

unfoldable pub validate_item_name : Unknown → Message → Report
unfolding text_length matches_item_name
validate_item_name name ctx = elim (as_text name) [
  | none ↦ err (says ctx ": missing or empty \"name\"")
  | some s ↦ do
    only_if (ltb item_name_max_length (text_length s))
        (err (ctx ++ text ": name \"" ∷ quoted s ∷ text "\" exceeds 63 characters" ∷ []))
    only_if (not (matches_item_name s)) (
        err (
          ctx
          ++ text ": name \""
            ∷ quoted s
            ∷ text
                "\" must be lowercase alphanumeric with hyphens, starting/ending with alphanumeric"
            ∷ []))
]

-- `typeof u === 'number' && Number.isInteger(u) && u >= low && u <= high`.
abbrev pub is_integer_in : ℕ → ℕ → Unknown → Bool
is_integer_in low high u = elim (as_integer u) [
  | none ↦ false
  | some z ↦ not (ltb_ℤ z (pos low)) && not (ltb_ℤ (pos high) z)
]

unfoldable pub validate_port : Unknown → String → Message → Report
validate_port undefined name ctx = pass
validate_port (known null) name ctx = pass
validate_port port name ctx = only_if (not (is_integer_in port_min port_max port)) (
    err
      (ctx ++ text ": " ∷ text name ∷ text " must be an integer 1-65535, got " ∷ printed port ∷ []))

-- `command` and `entrypoint`: a list of strings, if given.
unfoldable pub validate_strings : String → Unknown → Message → Report
validate_strings name u label = only_if (is_defined u) (elim (as_array u) [
  | none ↦ err (label ++ text ": \"" ∷ text name ∷ text "\" must be an array of strings" ∷ [])
  | some vs ↦
      for_each
        (λ i v.
          only_if (not (is_present (as_string (known v))))
            (err (at (label ++ text ": " ∷ []) name i ++ text " must be a string" ∷ [])))
        0 vs
])

unfoldable pub validate_env_entry : Message → ℕ → Value → Report
validate_env_entry label i e =
    only_if
      (not (is_present (as_string (get e "name"))) || not (is_present (as_string (get e "value"))))
      (err (at label ": env" i ++ text " must have \"name\" and \"value\" strings" ∷ []))

unfoldable pub validate_env : Unknown → Message → Report
unfolding validate_env_entry
validate_env u label = only_if (is_defined u) (elim (as_array u) [
  | none ↦ err (says label ": \"env\" must be an array")
  | some vs ↦ for_each (validate_env_entry label) 0 vs
])

-- A text that must be there, and its check.
abbrev pub with_text : Unknown → Report → (String → Report) → Report
with_text u missing check = elim (as_text u) [ none ↦ missing | some s ↦ check s ]

module _ (exists : String → Bool) (resolve : String → String → String) where
  unfoldable pub validate_init_file : Unknown → Message → String → Report
  validate_init_file file_path ctx source_file =
      with_text file_path (err (says ctx ": init file path must be a non-empty string")) (λ s.
        only_if (not (exists (resolve source_file s))) (
          err (
            ctx
            ++ text ": init file not found: "
              ∷ quoted s
              ∷ text " (resolved to "
              ∷ quoted (resolve source_file s)
              ∷ text ")"
              ∷ [])))

  -- The fields of an entry of `mountFiles`.
  unfoldable pub validate_mount_fields : Value → Message → String → ℕ → Report
  validate_mount_fields mf label source_file i = do
    with_text (get mf "source")
        (err
          (at label ": mountFiles" i ++ text " requires \"source\" (relative path to file)" ∷ []))
        (λ s. only_if (not (exists (resolve source_file s))) (
          err (
            at label ": mountFiles" i
            ++ text ".source not found: "
              ∷ quoted s
              ∷ text " (resolved to "
              ∷ quoted (resolve source_file s)
              ∷ text ")"
              ∷ [])))
    with_text (get mf "target")
        (err (
          at label ": mountFiles" i
          ++ text " requires \"target\" (absolute path in container)" ∷ []))
        (λ s. only_if (not (has_prefix "/" s)) (
          err (
            at label ": mountFiles" i
            ++ text ".target must be an absolute path (start with \"/\")" ∷ [])))

  unfoldable pub validate_mount_file : Message → String → ℕ → Value → Report
  unfolding validate_mount_fields
  validate_mount_file label source_file i v = elim (as_object (known v)) [
    | none ↦ err (at label ": mountFiles" i ++ text " must be an object" ∷ [])
    | some mf ↦ validate_mount_fields mf label source_file i
  ]

  unfoldable pub validate_mount_files : Unknown → Message → String → Report
  unfolding validate_mount_file
  validate_mount_files u label source_file = only_if (is_defined u) (elim (as_array u) [
    | none ↦ err (says label ": \"mountFiles\" must be an array")
    | some vs ↦ for_each (validate_mount_file label source_file) 0 vs
  ])
