-- ===== src/Validator/Ui/Kinds.antt =====
-- That the checks of shared/definition-validator/validate-ui-substeps.ts accept the forms of Forms.
use dokkimi.Prelude.{
  ℕ, zero, suc, ◌≡◌, ◌↔◌, ◌⊎◌, inl, inr, refl, String, true, ◌||◌, ◌&&◌, not, none, some, ◌∷◌,
  arith, All, subst,
}
use dokkimi.Prelude.Int.{pos, negsuc}
use dokkimi.Prelude.Text.{is_present}
use dokkimi.Json.{
  Value, boolean, number, string, array, object, nil, cons, Fields, Unknown, undefined, known, get,
  as_text, as_number, as_integer, is_defined, elements,
}
use dokkimi.Json.Numbers.{Number, int, is_less, zero_number}
use dokkimi.Report.{Message, at, says, clean, err, only_if, ◌>>◌}
use dokkimi.Report.Clean.{ListForm, reject_iff, for_each_sound, for_each_complete}
use dokkimi.Report.Accepts.{
  Accepts, ◌and◌, accepts_seq, accepts_keys, accepts_optional, accepts_optional_test, accepts_list,
  accepts_test,
}
use dokkimi.Validator.Items.Parts.{with_text}
use dokkimi.Validator.Items.Containers.{TextForm-iff}
use dokkimi.Validator.Items.Fields.{Absent, SomeText, is_string_iff}
use dokkimi.Validator.Ui.SubSteps.{
  need_text, with_plain, validate_visit, validate_click, validate_type, validate_wait_for,
  matches_artifact_name, validate_regions, validate_threshold, validate_screenshot_match,
  validate_screenshot, validate_offset, validate_scroll, validate_select, validate_hover,
  validate_key, validate_files, validate_upload, validate_drag, is_positive_integer,
  validate_viewport,
}
use dokkimi.Validator.Ui.Forms.{
  PlainWith, IntegerForm, PositiveForm, TypeForm, WaitForForm, ArtifactForm, FractionForm,
  MatchForm, ScreenshotForm, ScrollForm, SelectForm, KeyForm, FilesForm, UploadForm, DragForm,
  ViewportForm, SomeText-iff, text_ok, string_ok, plain_ok, text_or_plain_ok,
}

pub visit_ok : (u : Unknown) (ctx : Message) → Accepts (validate_visit u ctx) (SomeText u)
unfolding validate_visit
visit_ok u ctx = text_ok u _ ctx

pub click_ok : (u : Unknown) (ctx : Message) → Accepts (validate_click u ctx) (SomeText u)
unfolding validate_click
click_ok u ctx = text_ok u _ ctx

pub hover_ok : (u : Unknown) (ctx : Message) → Accepts (validate_hover u ctx) (SomeText u)
unfolding validate_hover
hover_ok u ctx = text_ok u _ ctx

pub type_ok : (u : Unknown) (ctx : Message) → Accepts (validate_type u ctx) (PlainWith TypeForm u)
unfolding validate_type
type_ok u ctx = plain_ok u _ _ TypeForm (λ o.
    accepts_keys o _ _ _
      (accepts_seq _ _ (text_ok (get o "selector") _ ctx) (string_ok (get o "text") _)))

pub wait_for_ok :
    (u : Unknown) (ctx : Message)
    → Accepts (validate_wait_for u ctx) (SomeText u ⊎ PlainWith WaitForForm u)
unfolding validate_wait_for
wait_for_ok u ctx = text_or_plain_ok u _ _ _ WaitForForm (λ o. accepts_keys o _ _ _ (
    accepts_seq _ _ (text_ok (get o "selector") _ ctx)
      (accepts_optional_test (get o "text") _ _ (is_string_iff (get o "text")))))

regions_ok :
    (u : Unknown) (ctx : Message)
    → Accepts (validate_regions u ctx) (ListForm (λ v. SomeText (known v)) u)
unfolding validate_regions
regions_ok u ctx = accepts_list u _ _ (λ v. SomeText (known v)) (λ i v. text_ok (known v) _ _)

fraction_iff :
    (u : Unknown) (m : Message) (n : Number → Message)
    → (clean (elim (as_number u) [
      | none ↦ err m
      | some k ↦ only_if (is_less k zero_number || is_less (int (pos 1)) k) (err (n k))
    ])
        ≡ true)
      ↔ FractionForm u
fraction_iff (known (number k)) m n =
    (λ h. (k, refl, ground arith, ground arith), λ (j, e, p, q). ground arith)
fraction_iff _ m n = (λ h. cc, λ (j, e, p, q). cc)

threshold_ok :
    (u : Unknown) (ctx : Message) → Accepts (validate_threshold u ctx) (Absent u ⊎ FractionForm u)
unfolding validate_threshold
threshold_ok u ctx = accepts_optional u _ (record { iff = fraction_iff u _ _ })

settings_ok :
    (u : Unknown) (m ctx : Message)
    → Accepts
        (with_plain u (err m) (λ o. do
          validate_threshold (get o "threshold") ctx
          validate_regions (get o "ignoreRegions") ctx))
        (PlainWith
          (λ o.
            (Absent (get o "threshold") ⊎ FractionForm (get o "threshold"))
            and ListForm (λ v. SomeText (known v)) (get o "ignoreRegions"))
          u)
settings_ok u m ctx = plain_ok u m _ _ (λ o.
    accepts_seq _ _ (threshold_ok (get o "threshold") ctx) (regions_ok (get o "ignoreRegions") ctx))

artifact_ok :
    (u : Unknown) (m n : Message)
    → Accepts
        (with_text u (err m) (λ s. only_if (not (matches_artifact_name s)) (err n)))
        (ArtifactForm u)
artifact_ok u m n = record {
  iff =
      TextForm-iff u _ _ (λ s. matches_artifact_name s ≡ true)
        (λ s. reject_iff (matches_artifact_name s) _);
}

abbrev match_message : String
match_message =
    ": must be a boolean (true to opt in with defaults) or an object { threshold?, ignoreRegions? }"

match_ok : (u : Unknown) (ctx : Message) → Accepts (validate_screenshot_match u ctx) (MatchForm u)
unfolding validate_screenshot_match
match_ok (known (boolean b)) ctx = record { iff = (λ h. inl (b, refl), λ p. refl) }
match_ok (known (object fs)) ctx =
    let parts = settings_ok (known (object fs)) (says ctx match_message) ctx in
    record {
      iff = (λ h. inr (parts.iff.0 h), λ p. elim p [ inl (b, e) ↦ cc | inr q ↦ parts.iff.1 q ]);
    }
match_ok _ ctx = record { iff = (λ h. cc, λ p. elim p [ inl (b, e) ↦ cc | inr (fs, e, q) ↦ cc ]) }

screenshot_object :
    (fs : Fields) (ctx : Message)
    → Accepts
        (validate_screenshot (known (object fs)) ctx)
        (PlainWith ScreenshotForm (known (object fs)))
unfolding validate_screenshot
screenshot_object fs ctx =
    plain_ok (known (object fs))
      (says ctx ".screenshot: must be a name string or an object { name, selector?, match? }") _
      ScreenshotForm
      (λ o.
        accepts_seq _ _
          (artifact_ok (get o "name")
            (says ctx
              ".screenshot.name: required, must be a non-empty string (artifact / baseline key)")
            (says ctx
              ".screenshot.name: must match [a-zA-Z0-9_-]{1,64} (alphanumeric, dash, underscore; max 64 chars)"))
          (accepts_seq _ _
            (accepts_optional (get o "selector") _ (
              text_ok (get o "selector")
                ".screenshot.selector: when present, must be a non-empty string" ctx))
            (accepts_optional (get o "match") _
              (match_ok (get o "match") (says ctx ".screenshot.match")))))

pub screenshot_ok :
    (u : Unknown) (ctx : Message)
    → Accepts (validate_screenshot u ctx) (ArtifactForm u ⊎ PlainWith ScreenshotForm u)
unfolding validate_screenshot
screenshot_ok (known (string s)) ctx = record {
  iff = (
    λ h. inl (s, ground arith, ground arith),
    λ p. elim p [ inl (t, e, q) ↦ ground arith | inr (fs, e, q) ↦ cc ],
  );
}
screenshot_ok (known (object fs)) ctx =
    let parts = (screenshot_object fs ctx).iff in
    record { iff = (λ h. inr (parts.0 h), λ p. elim p [ inl (t, e, q) ↦ cc | inr q ↦ parts.1 q ]) }
screenshot_ok _ ctx = record {
  iff = (λ h. cc, λ p. elim p [ inl (t, e, q) ↦ cc | inr (fs, e, q) ↦ cc ]);
}

integer_iff : (u : Unknown) → (is_present (as_integer u) ≡ true) ↔ IntegerForm u
integer_iff (known (number (int z))) = (λ h. (z, refl), λ p. refl)
integer_iff _ = (λ h. cc, λ (z, e). cc)

offset_ok :
    (u : Unknown) (message : String) (ctx : Message)
    → Accepts (validate_offset u message ctx) (Absent u ⊎ IntegerForm u)
unfolding validate_offset
offset_ok u message ctx = accepts_optional_test u _ _ (integer_iff u)

defined_iff : (u : Unknown) → (is_defined u ≡ true) ↔ (¬ Absent u)
defined_iff undefined = (λ h. cc, λ n. absurd (n refl))
defined_iff _ = (λ h e. cc, λ n. refl)

somewhere_ok :
    (t x y : Unknown) (m : Message)
    → Accepts
        (only_if (not (is_present (as_text t)) && not (is_defined x || is_defined y)) (err m))
        (SomeText t ⊎ ((¬ Absent x) ⊎ (¬ Absent y)))
somewhere_ok t x y m =
    let a = SomeText-iff t in
    let b = defined_iff x in let c = defined_iff y in record { iff = ground arith }

pub scroll_ok :
    (u : Unknown) (ctx : Message)
    → Accepts (validate_scroll u ctx) (SomeText u ⊎ PlainWith ScrollForm u)
unfolding validate_scroll
scroll_ok u ctx = text_or_plain_ok u _ _ _ ScrollForm (λ o. accepts_keys o _ _ _ (
    accepts_seq _ _ (somewhere_ok (get o "selector") (get o "x") (get o "y") _)
      (accepts_seq _ _ (offset_ok (get o "x") _ ctx) (offset_ok (get o "y") _ ctx))))

pub select_ok :
    (u : Unknown) (ctx : Message) → Accepts (validate_select u ctx) (PlainWith SelectForm u)
unfolding validate_select
select_ok u ctx = plain_ok u _ _ SelectForm (λ o.
    accepts_keys o _ _ _
      (accepts_seq _ _ (text_ok (get o "selector") _ ctx) (string_ok (get o "value") _)))

pub key_ok :
    (u : Unknown) (ctx : Message) → Accepts (validate_key u ctx) (SomeText u ⊎ PlainWith KeyForm u)
unfolding validate_key
key_ok u ctx = text_or_plain_ok u _ _ _ KeyForm (λ o. accepts_keys o _ _ _ (
    accepts_seq _ _ (text_ok (get o "key") _ ctx)
      (accepts_optional (get o "selector") _ (text_ok (get o "selector") _ ctx))))

files_ok : (u : Unknown) (ctx : Message) → Accepts (validate_files u ctx) (FilesForm u)
unfolding validate_files
files_ok (known (array (cons v vs))) ctx =
    let body = λ (i : ℕ) (w : Value).
      need_text (known w) ": must be a non-empty string (path inside the test-agent container)"
        (at ctx ".upload.files" i) in
    let each = λ (i : ℕ) (w : Value). (text_ok (known w) _ (at ctx ".upload.files" i)).iff in
    record {
      iff = (
        λ h. (v, vs, refl, for_each_sound body (λ i w. (each i w).0) 0 (v ∷ elements vs) h),
        λ (w, ws, e, all).
            let same : cons w ws ≡ cons v vs = ground arith in
            for_each_complete body (λ i x. (each i x).1) 0 (v ∷ elements vs)
              (subst (λ is. All (λ x. SomeText (known x)) (elements is)) same all),
      );
    }
files_ok (known (array nil)) ctx = record { iff = (λ h. cc, λ (w, ws, e, all). cc) }
files_ok _ ctx = record { iff = (λ h. cc, λ (w, ws, e, all). cc) }

pub upload_ok :
    (u : Unknown) (ctx : Message) → Accepts (validate_upload u ctx) (PlainWith UploadForm u)
unfolding validate_upload
upload_ok u ctx = plain_ok u _ _ UploadForm (λ o.
    accepts_keys o _ _ _
      (accepts_seq _ _ (text_ok (get o "selector") _ ctx) (files_ok (get o "files") ctx)))

pub drag_ok : (u : Unknown) (ctx : Message) → Accepts (validate_drag u ctx) (PlainWith DragForm u)
unfolding validate_drag
drag_ok u ctx = plain_ok u _ _ DragForm (λ o.
    accepts_keys o _ _ _
      (accepts_seq _ _ (text_ok (get o "from") _ ctx) (text_ok (get o "to") _ ctx)))

pub positive_iff : (u : Unknown) → (is_positive_integer u ≡ true) ↔ PositiveForm u
unfolding is_positive_integer
positive_iff (known (number (int (pos (suc n))))) = (λ h. (n, refl), λ p. ground arith)
positive_iff (known (number (int (pos zero)))) = (λ h. absurd (ground arith), λ (n, e). cc)
positive_iff (known (number (int (negsuc n)))) = (λ h. absurd (ground arith), λ (n, e). cc)
positive_iff _ = (λ h. cc, λ (n, e). cc)

pub viewport_ok :
    (u : Unknown) (ctx : Message) → Accepts (validate_viewport u ctx) (PlainWith ViewportForm u)
unfolding validate_viewport
viewport_ok u ctx = plain_ok u _ _ ViewportForm (λ o. accepts_keys o _ _ _ (
    accepts_seq _ _ (accepts_test _ _ (positive_iff (get o "width")))
      (accepts_test _ _ (positive_iff (get o "height")))))
