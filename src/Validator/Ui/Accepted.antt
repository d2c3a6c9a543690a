-- ===== src/Validator/Ui/Accepted.antt =====
-- Which UI sub-steps are accepted.
use dokkimi.Prelude.{
  ◌≡◌, ◌↔◌, ◌⊎◌, refl, String, Bool, true, false, List, [], ◌∷◌, ◌++◌, arith, All, subst, ap, keep,
  ◌==◌, Bool-cases, inl, inr, if◌then◌else◌,
}
use dokkimi.Json.{object, Fields, Unknown, get, keys}
use dokkimi.Report.{Message, clean}
use dokkimi.Report.Accepts.{
  Accepts, accepts_optional_test, accepts_choice, accepts_pass, accepts_quiet, accepts_seq,
}
use dokkimi.Validator.Items.Fields.{Absent, SomeText}
use dokkimi.Validator.Ui.Forms.{
  PlainWith, PositiveForm, TypeForm, WaitForForm, ArtifactForm, ScreenshotForm, ScrollForm,
  SelectForm, KeyForm, UploadForm, DragForm, ViewportForm,
}
use dokkimi.Validator.Ui.Kinds.{
  visit_ok, click_ok, type_ok, wait_for_ok, screenshot_ok, scroll_ok, select_ok, hover_ok, key_ok,
  upload_ok, drag_ok, viewport_ok, positive_iff,
}
use dokkimi.Validator.Ui.Sources.{ExtractForm, extract_ok}
use dokkimi.Validator.Ui.{
  is_kind_key, kind_keys, is_group, warn_sub_step_keys, validate_timeout, validate_kind,
  validate_single, sub_step_body, validate_ui_sub_step,
}

clean-warn_sub_step_keys :
    (ctx : Message) (ks : List String) → clean (warn_sub_step_keys ctx ks) ≡ true
unfolding warn_sub_step_keys
clean-warn_sub_step_keys ctx [] = refl
clean-warn_sub_step_keys ctx (k ∷ ks) = ground (arith, clean-warn_sub_step_keys ctx ks)

timeout_iff :
    (u : Unknown) (ctx : Message)
    → (clean (validate_timeout u ctx) ≡ true) ↔ (Absent u ⊎ PositiveForm u)
unfolding validate_timeout
timeout_iff u ctx = (accepts_optional_test u _ _ (positive_iff u)).iff

-- The words of a list before its only one with a property, and those behind it.
abbrev pub OnlyOne : (String → Bool) → List String → String → Type 0
OnlyOne p xs k =
    (before : List String) × (after : List String) × (xs ≡ before ++ k ∷ after)
    × All (λ x. p x ≡ false) before
    × (p k ≡ true)
    × All (λ x. p x ≡ false) after

keep_none_iff :
    (p : String → Bool) (xs : List String) → (keep p xs ≡ []) ↔ All (λ x. p x ≡ false) xs
keep_none_iff p [] = (λ h. tt, λ h. refl)
keep_none_iff p (x ∷ xs) = let rest = keep_none_iff p xs in ground arith

keep_append : (p : String → Bool) (xs ys : List String) → keep p (xs ++ ys) ≡ keep p xs ++ keep p ys
keep_append p [] ys = refl
keep_append p (x ∷ xs) ys = let rest = keep_append p xs ys in ground arith

keep_one_sound :
    (p : String → Bool) (xs : List String) (k : String) → keep p xs ≡ k ∷ [] → OnlyOne p xs k
keep_one_sound p [] k h = absurd (cc)
keep_one_sound p (x ∷ xs) k h = elim (Bool-cases (p x)) [
  | inl e ↦
      let same : x ≡ k = ground arith in
      let none_left : keep p xs ≡ [] = ground arith in
      let apart = (keep_none_iff p xs).0 none_left in
      ([], xs, ap (λ y. y ∷ xs) same, tt, subst (λ y. p y ≡ true) same e, apart)
  | inr e ↦
      let later : keep p xs ≡ k ∷ [] = ground arith in
      let (before, after, split, q, here, r) = keep_one_sound p xs k later in
      (x ∷ before, after, ap (λ ys. x ∷ ys) split, (e, q), here, r)
]

keep_one_complete :
    (p : String → Bool) (xs : List String) (k : String) → OnlyOne p xs k → keep p xs ≡ k ∷ []
keep_one_complete p xs k (before, after, split, q, here, r) =
    let left = (keep_none_iff p before).1 q in
    let right = (keep_none_iff p after).1 r in rw (split, keep_append, left, here, right) refl

module _ (is_regex : String → Bool) where
  -- What the value of a key may be, by the kind.
  abbrev pub KindForm : String → Unknown → Type 0
  KindForm kind u =
      if kind == "visit"
      then SomeText u
      else if kind == "click"
      then SomeText u
      else if kind == "type"
      then PlainWith TypeForm u
      else if kind == "waitFor"
      then SomeText u ⊎ PlainWith WaitForForm u
      else if kind == "extract"
      then ExtractForm is_regex u
      else if kind == "screenshot"
      then ArtifactForm u ⊎ PlainWith ScreenshotForm u
      else if kind == "scroll"
      then SomeText u ⊎ PlainWith ScrollForm u
      else if kind == "select"
      then PlainWith SelectForm u
      else if kind == "hover"
      then SomeText u
      else if kind == "key"
      then SomeText u ⊎ PlainWith KeyForm u
      else if kind == "upload"
      then PlainWith UploadForm u
      else if kind == "drag"
      then PlainWith DragForm u
      else if kind == "viewport"
      then PlainWith ViewportForm u
      else Unit

  kind_ok :
      (kind : String) (u : Unknown) (ctx : Message)
      → Accepts (validate_kind is_regex kind u ctx) (KindForm kind u)
  unfolding validate_kind
  kind_ok kind u ctx = accepts_choice (kind == "visit") _ _ (visit_ok u ctx) (
      accepts_choice (kind == "click") _ _ (click_ok u ctx) (
        accepts_choice (kind == "type") _ _ (type_ok u ctx) (
          accepts_choice (kind == "waitFor") _ _ (wait_for_ok u ctx) (
            accepts_choice (kind == "extract") _ _ (extract_ok is_regex u ctx) (
              accepts_choice (kind == "screenshot") _ _ (screenshot_ok u ctx) (
                accepts_choice (kind == "scroll") _ _ (scroll_ok u ctx) (
                  accepts_choice (kind == "select") _ _ (select_ok u ctx) (
                    accepts_choice (kind == "hover") _ _ (hover_ok u ctx) (
                      accepts_choice (kind == "key") _ _ (key_ok u ctx) (
                        accepts_choice (kind == "upload") _ _ (upload_ok u ctx) (
                          accepts_choice (kind == "drag") _ _ (drag_ok u ctx) (
                            accepts_choice (kind == "viewport") _ _ (viewport_ok u ctx)
                              accepts_pass))))))))))))

  -- One key that names a kind, a value of that kind's form, and a timeout.
  abbrev pub SingleForm : Fields → Type 0
  SingleForm fs =
      (kind : String) × OnlyOne is_kind_key (keys (object fs)) kind
      × (Absent (get (object fs) "timeoutMs") ⊎ PositiveForm (get (object fs) "timeoutMs"))
      × KindForm kind (get (object fs) kind)

  single_ok :
      (fs : Fields) (kind : String) (ctx : Message)
      → Accepts (validate_single is_regex fs (kind ∷ []) ctx) (
          (Absent (get (object fs) "timeoutMs") ⊎ PositiveForm (get (object fs) "timeoutMs"))
          × KindForm kind (get (object fs) kind))
  unfolding validate_single
  single_ok fs kind ctx =
      accepts_quiet (warn_sub_step_keys ctx (keys (object fs))) _
        (clean-warn_sub_step_keys ctx (keys (object fs)))
        (accepts_seq _ _ (record { iff = timeout_iff (get (object fs) "timeoutMs") ctx })
          (kind_ok kind (get (object fs) kind) ctx))

  single_iff :
      (fs : Fields) (ks : List String) (ctx : Message)
      → (clean (validate_single is_regex fs ks ctx) ≡ true) ↔ (
          (kind : String) × (ks ≡ kind ∷ [])
          × (Absent (get (object fs) "timeoutMs") ⊎ PositiveForm (get (object fs) "timeoutMs"))
          × KindForm kind (get (object fs) kind))
  unfolding validate_single
  single_iff fs [] ctx = (λ h. cc, λ (k, e, t, c). cc)
  single_iff fs (kind ∷ other ∷ more) ctx = (λ h. cc, λ (k, e, t, c). cc)
  single_iff fs (kind ∷ []) ctx =
      let parts = (single_ok fs kind ctx).iff in
      (
        λ h. (kind, refl, (parts.0 h).0, (parts.0 h).1),
        λ (k, e, t, c).
            let same : k ≡ kind = ground arith in
            parts.1 (t, subst (λ x. KindForm x (get (object fs) x)) same c),
      )

  -- For every test of regular expressions, the check of a sub-step that is no group reports no error
  -- exactly if one key of it names a kind and no other does, its timeout is left out or a positive
  -- integer, and the key's value is of the form of the kind.
  pub validate_ui_sub_step_iff :
      (fs : Fields) (ctx : Message)
      → is_group is_regex fs ≡ false
      → (clean (validate_ui_sub_step is_regex (object fs) ctx) ≡ true) ↔ SingleForm fs
  unfolding validate_ui_sub_step sub_step_body
  validate_ui_sub_step_iff fs ctx h =
      let single = single_iff fs (kind_keys fs) ctx in
      rw h (
        λ ok.
            let (kind, e, t, c) = single.0 ok in
            (kind, keep_one_sound is_kind_key (keys (object fs)) kind e, t, c),
        λ (kind, o, t, c).
            single.1 (kind, keep_one_complete is_kind_key (keys (object fs)) kind o, t, c),
      )
