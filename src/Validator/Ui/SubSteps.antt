-- ===== src/Validator/Ui/SubSteps.antt =====
-- shared/definition-validator/validate-ui-substeps.ts: the checks of the kinds of sub-step, except
-- `extract`.
use dokkimi.Prelude.{
  ℕ, String, Bool, false, ◌||◌, ◌&&◌, not, none, some, [], ◌∷◌, ◌++◌, leb, eqb, if◌then◌else◌,
}
use dokkimi.Prelude.Int.{pos, ltb_ℤ}
use dokkimi.Prelude.Text.{is_present, is_empty, every_char}
use dokkimi.Json.{
  Value, boolean, string, Unknown, known, get, as_plain, as_array, as_string, as_text, as_number,
  as_integer, is_defined,
}
use dokkimi.Json.Numbers.{Number, int, is_less, zero_number}
use dokkimi.Report.{
  Report, Message, text, shown, says, at, err, pass, only_if, for_each, ◌>>◌, check_unknown_keys,
}
use dokkimi.Validator.Keys.Ui.{valid_ui_type_keys, valid_ui_wait_for_object_keys}
use dokkimi.Validator.Items.Parts.{text_length, with_text}

-- `typeof u !== 'string' || u.length === 0`: the message is reported.
unfoldable pub need_text : Unknown → String → Message → Report
need_text u message ctx = only_if (not (is_present (as_text u))) (err (says ctx message))

-- `!u || typeof u !== 'object' || Array.isArray(u)`: the message is reported, and that is all.
unfoldable pub with_plain : Unknown → Report → (Value → Report) → Report
with_plain u missing check = elim (as_plain u) [ none ↦ missing | some obj ↦ check obj ]

-- A text that is not empty, or an object and its check.
unfoldable pub text_or_plain : Unknown → Report → Report → (Value → Report) → Report
unfolding with_plain
text_or_plain (known (string s)) empty missing check = only_if (is_empty s) empty
text_or_plain u empty missing check = with_plain u missing check

unfoldable pub validate_visit : Unknown → Message → Report
unfolding need_text
validate_visit value ctx = need_text value ".visit: must be a non-empty string (path or URL)" ctx

unfoldable pub validate_click : Unknown → Message → Report
unfolding need_text
validate_click value ctx = need_text value ".click: must be a non-empty string (CSS selector)" ctx

unfoldable pub validate_type : Unknown → Message → Report
unfolding with_plain need_text
validate_type value ctx =
    with_plain value (err (says ctx ".type: must be an object { selector, text }")) (λ obj. do
      check_unknown_keys obj valid_ui_type_keys (says ctx ".type")
      need_text (get obj "selector") ".type: requires non-empty \"selector\" string" ctx
      only_if (not (is_present (as_string (get obj "text"))))
          (err (says ctx ".type: requires \"text\" string")))

unfoldable pub validate_wait_for : Unknown → Message → Report
unfolding text_or_plain need_text
validate_wait_for value ctx =
    text_or_plain value (err (says ctx ".waitFor: selector string must not be empty"))
      (err (says ctx ".waitFor: must be a selector string or an object { selector, text? }"))
      (λ obj. do
        check_unknown_keys obj valid_ui_wait_for_object_keys (says ctx ".waitFor")
        need_text (get obj "selector") ".waitFor: requires non-empty \"selector\" string" ctx
        only_if (is_defined (get obj "text") && not (is_present (as_string (get obj "text"))))
            (err (says ctx ".waitFor: \"text\" must be a string when provided")))

is_artifact_char : ℕ → Bool
is_artifact_char c =
    leb b'a' c && leb c b'z'
    || leb b'A' c && leb c b'Z'
    || leb b'0' c && leb c b'9'
    || eqb c b'_'
    || eqb c b'-'

-- `/^[a-zA-Z0-9_-]{1,64}$/`: `ARTIFACT_NAME_PATTERN`.
unfoldable pub matches_artifact_name : String → Bool
unfolding is_artifact_char text_length
matches_artifact_name s =
    not (is_empty s) && every_char is_artifact_char s && leb (text_length s) 64

unfoldable pub validate_regions : Unknown → Message → Report
unfolding need_text
validate_regions u ctx = only_if (is_defined u) (elim (as_array u) [
  | none ↦ err (says ctx ".ignoreRegions: must be an array of selector strings")
  | some vs ↦
      for_each
        (λ i v.
          need_text (known v) ": must be a non-empty selector string" (at ctx ".ignoreRegions" i))
        0 vs
])

abbrev one_number : Number
one_number = int (pos 1)

unfoldable pub validate_threshold : Unknown → Message → Report
validate_threshold u ctx = only_if (is_defined u) (elim (as_number u) [
  | none ↦ err (
      says ctx
        ".threshold: must be a number between 0 and 1 (fraction of pixels allowed to differ)")
  | some n ↦ only_if (is_less n zero_number || is_less one_number n) (
      err (
        ctx
        ++ text ".threshold: must be between 0 and 1 (got "
          ∷ shown (Value.number n)
          ∷ text ")"
          ∷ []))
])

unfoldable pub validate_screenshot_match : Unknown → Message → Report
unfolding with_plain validate_threshold validate_regions
validate_screenshot_match (known (boolean b)) ctx = pass
validate_screenshot_match value ctx =
    with_plain value
      (err (
        says ctx
          ": must be a boolean (true to opt in with defaults) or an object { threshold?, ignoreRegions? }"))
      (λ m. do
        validate_threshold (get m "threshold") ctx
        validate_regions (get m "ignoreRegions") ctx)

unfoldable pub validate_screenshot : Unknown → Message → Report
unfolding with_plain need_text matches_artifact_name validate_screenshot_match
validate_screenshot (known (string s)) ctx =
    if is_empty s
    then err (says ctx ".screenshot: must be a non-empty string (name/identifier for the capture)")
    else only_if (not (matches_artifact_name s)) (
        err (
          says ctx
            ".screenshot: name must match [a-zA-Z0-9_-]{1,64} (alphanumeric, dash, underscore; max 64 chars)"))
validate_screenshot value ctx =
    with_plain value
      (err (says ctx ".screenshot: must be a name string or an object { name, selector?, match? }"))
      (λ v. do
        with_text (get v "name")
            (err (
              says ctx
                ".screenshot.name: required, must be a non-empty string (artifact / baseline key)"))
            (λ s. only_if (not (matches_artifact_name s)) (
              err (
                says ctx
                  ".screenshot.name: must match [a-zA-Z0-9_-]{1,64} (alphanumeric, dash, underscore; max 64 chars)")))
        only_if (is_defined (get v "selector")) (
            need_text (get v "selector")
              ".screenshot.selector: when present, must be a non-empty string" ctx)
        only_if (is_defined (get v "match"))
            (validate_screenshot_match (get v "match") (says ctx ".screenshot.match")))

-- An integer, if given.
unfoldable pub validate_offset : Unknown → String → Message → Report
validate_offset u message ctx =
    only_if (is_defined u && not (is_present (as_integer u))) (err (says ctx message))

unfoldable pub validate_scroll : Unknown → Message → Report
unfolding text_or_plain validate_offset
validate_scroll value ctx =
    text_or_plain value (err (says ctx ".scroll: selector string must not be empty"))
      (err (says ctx ".scroll: must be a selector string or an object { selector?, x?, y? }"))
      (λ obj. do
        check_unknown_keys obj ("selector" ∷ "x" ∷ "y" ∷ []) (says ctx ".scroll")
        only_if
            (not (is_present (as_text (get obj "selector")))
              && not (is_defined (get obj "x") || is_defined (get obj "y")))
            (err
              (says ctx ".scroll: object form needs \"selector\" or at least one of \"x\"/\"y\""))
        validate_offset (get obj "x") ".scroll.x: must be an integer (pixel offset)" ctx
        validate_offset (get obj "y") ".scroll.y: must be an integer (pixel offset)" ctx)

unfoldable pub validate_select : Unknown → Message → Report
unfolding with_plain need_text
validate_select value ctx =
    with_plain value (err (says ctx ".select: must be an object { selector, value }")) (λ obj. do
      check_unknown_keys obj ("selector" ∷ "value" ∷ []) (says ctx ".select")
      need_text (get obj "selector") ".select: requires non-empty \"selector\" string" ctx
      only_if (not (is_present (as_string (get obj "value"))))
          (err (says ctx ".select: requires \"value\" string")))

unfoldable pub validate_hover : Unknown → Message → Report
unfolding need_text
validate_hover value ctx = need_text value ".hover: must be a non-empty CSS selector string" ctx

unfoldable pub validate_key : Unknown → Message → Report
unfolding text_or_plain need_text
validate_key value ctx =
    text_or_plain value (err (says ctx ".key: key string must not be empty"))
      (err (says ctx ".key: must be a key-name string or an object { selector, key }"))
      (λ obj. do
        check_unknown_keys obj ("selector" ∷ "key" ∷ []) (says ctx ".key")
        need_text (get obj "key") ".key: requires non-empty \"key\" string" ctx
        only_if (is_defined (get obj "selector")) (
            need_text (get obj "selector")
              ".key: \"selector\" must be a non-empty string when provided" ctx))

unfoldable pub validate_files : Unknown → Message → Report
unfolding need_text
validate_files files ctx = elim (as_array files) [
  | none ↦ err (says ctx ".upload: \"files\" must be a non-empty array of paths")
  | some [] ↦ err (says ctx ".upload: \"files\" must be a non-empty array of paths")
  | some (v ∷ vs) ↦
      for_each
        (λ i f.
          need_text (known f) ": must be a non-empty string (path inside the test-agent container)"
            (at ctx ".upload.files" i))
        0 (v ∷ vs)
]

unfoldable pub validate_upload : Unknown → Message → Report
unfolding with_plain need_text validate_files
validate_upload value ctx =
    with_plain value (err (says ctx ".upload: must be an object { selector, files }")) (λ obj. do
      check_unknown_keys obj ("selector" ∷ "files" ∷ []) (says ctx ".upload")
      need_text (get obj "selector") ".upload: requires non-empty \"selector\" string" ctx
      validate_files (get obj "files") ctx)

unfoldable pub validate_drag : Unknown → Message → Report
unfolding with_plain need_text
validate_drag value ctx =
    with_plain value (err (says ctx ".drag: must be an object { from, to }")) (λ obj. do
      check_unknown_keys obj ("from" ∷ "to" ∷ []) (says ctx ".drag")
      need_text (get obj "from") ".drag: requires non-empty \"from\" CSS selector" ctx
      need_text (get obj "to") ".drag: requires non-empty \"to\" CSS selector" ctx)

-- `typeof u === 'number' && Number.isInteger(u) && u > 0`.
unfoldable pub is_positive_integer : Unknown → Bool
is_positive_integer u = elim (as_integer u) [ none ↦ false | some z ↦ ltb_ℤ (pos 0) z ]

unfoldable pub validate_viewport : Unknown → Message → Report
unfolding with_plain is_positive_integer
validate_viewport value ctx =
    with_plain value (err (says ctx ".viewport: must be an object { width, height }")) (λ obj. do
      check_unknown_keys obj ("width" ∷ "height" ∷ []) (says ctx ".viewport")
      only_if (not (is_positive_integer (get obj "width")))
          (err (says ctx ".viewport.width: must be a positive integer"))
      only_if (not (is_positive_integer (get obj "height")))
          (err (says ctx ".viewport.height: must be a positive integer")))
