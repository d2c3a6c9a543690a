-- ===== src/Validator/Ui/Forms.antt =====
-- What the checks of shared/definition-validator/validate-ui-substeps.ts accept, except `extract`.
use dokkimi.Prelude.{
  ℕ, suc, ◌≡◌, ◌↔◌, ◌⊎◌, inl, inr, refl, String, Bool, true, false, not, ◌∷◌, arith, All, subst,
  Option-cases,
}
use dokkimi.Prelude.Int.{ℤ, pos}
use dokkimi.Prelude.Text.{is_present}
use dokkimi.Json.{
  Value, boolean, number, string, array, object, Items, cons, Fields, Unknown, known, get, as_text,
  as_string, elements,
}
use dokkimi.Json.Numbers.{Number, int, is_less, zero_number}
use dokkimi.Report.{Report, Message, err, only_if}
use dokkimi.Report.Clean.{ListForm}
use dokkimi.Report.Accepts.{Accepts, ◌and◌, accepts_test}
use dokkimi.Validator.Items.Containers.{TextForm, StringForm}
use dokkimi.Validator.Items.Fields.{Absent, SomeText, is_string_iff}
use dokkimi.Validator.Ui.SubSteps.{need_text, with_plain, text_or_plain, matches_artifact_name}

-- A plain object of a form.
abbrev pub PlainWith : (Value → Type 0) → Unknown → Type 0
PlainWith P u = (fs : Fields) × (u ≡ known (object fs)) × P (object fs)

abbrev pub IntegerForm : Unknown → Type 0
IntegerForm u = (z : ℤ) × (u ≡ known (number (int z)))

abbrev pub PositiveForm : Unknown → Type 0
PositiveForm u = (n : ℕ) × (u ≡ known (number (int (pos (suc n)))))

abbrev pub TypeForm : Value → Type 0
TypeForm o = SomeText (get o "selector") and StringForm (get o "text")

abbrev pub WaitForForm : Value → Type 0
WaitForForm o = SomeText (get o "selector") and (Absent (get o "text") ⊎ StringForm (get o "text"))

-- The name of an artifact.
abbrev pub ArtifactForm : Unknown → Type 0
ArtifactForm u = TextForm (λ s. matches_artifact_name s ≡ true) u

-- A fraction from 0 to 1.
abbrev pub FractionForm : Unknown → Type 0
FractionForm u =
    (n : Number) × (u ≡ known (number n))
    × (is_less n zero_number ≡ false)
    × (is_less (int (pos 1)) n ≡ false)

abbrev pub MatchForm : Unknown → Type 0
MatchForm u =
    ((b : Bool) × (u ≡ known (boolean b)))
    ⊎ PlainWith
        (λ o.
          (Absent (get o "threshold") ⊎ FractionForm (get o "threshold"))
          and ListForm (λ v. SomeText (known v)) (get o "ignoreRegions"))
        u

abbrev pub ScreenshotForm : Value → Type 0
ScreenshotForm o =
    ArtifactForm (get o "name")
    and (Absent (get o "selector") ⊎ SomeText (get o "selector"))
    and (Absent (get o "match") ⊎ MatchForm (get o "match"))

abbrev pub ScrollForm : Value → Type 0
ScrollForm o =
    (SomeText (get o "selector") ⊎ ((¬ Absent (get o "x")) ⊎ (¬ Absent (get o "y"))))
    and (Absent (get o "x") ⊎ IntegerForm (get o "x"))
    and (Absent (get o "y") ⊎ IntegerForm (get o "y"))

abbrev pub SelectForm : Value → Type 0
SelectForm o = SomeText (get o "selector") and StringForm (get o "value")

abbrev pub KeyForm : Value → Type 0
KeyForm o = SomeText (get o "key") and (Absent (get o "selector") ⊎ SomeText (get o "selector"))

-- Texts that are not empty, at least one.
abbrev pub FilesForm : Unknown → Type 0
FilesForm u =
    (v : Value) × (vs : Items) × (u ≡ known (array (cons v vs)))
    × All (λ w. SomeText (known w)) (v ∷ elements vs)

abbrev pub UploadForm : Value → Type 0
UploadForm o = SomeText (get o "selector") and FilesForm (get o "files")

abbrev pub DragForm : Value → Type 0
DragForm o = SomeText (get o "from") and SomeText (get o "to")

abbrev pub ViewportForm : Value → Type 0
ViewportForm o = PositiveForm (get o "width") and PositiveForm (get o "height")

pub SomeText-iff : (u : Unknown) → (is_present (as_text u) ≡ true) ↔ SomeText u
SomeText-iff u = elim (Option-cases (as_text u)) [
  | inl e ↦ (λ h. absurd (ground arith), λ (s, p). absurd (ground arith))
  | inr (s, e) ↦ (λ h. (s, e), λ p. ground arith)
]

pub text_ok :
    (u : Unknown) (message : String) (ctx : Message)
    → Accepts (need_text u message ctx) (SomeText u)
unfolding need_text
text_ok u message ctx = accepts_test (is_present (as_text u)) _ (SomeText-iff u)

pub string_ok :
    (u : Unknown) (m : Message)
    → Accepts (only_if (not (is_present (as_string u))) (err m)) (StringForm u)
string_ok u m = accepts_test _ m (is_string_iff u)

object_of :
    (P : Value → Type 0) (fs gs : Fields)
    → known (object fs) ≡ known (object gs)
    → P (object gs)
    → P (object fs)
object_of P fs gs e p = let same : object gs ≡ object fs = ground arith in subst P same p

pub plain_ok :
    (u : Unknown) (m : Message) (check : Value → Report) (P : Value → Type 0)
    → ((o : Value) → Accepts (check o) (P o))
    → Accepts (with_plain u (err m) check) (PlainWith P u)
unfolding with_plain
plain_ok (known (object fs)) m check P each = record {
  iff = (
    λ h. (fs, refl, (each (object fs)).iff.0 h),
    λ (gs, e, p). (each (object fs)).iff.1 (object_of P fs gs e p),
  );
}
plain_ok _ m check P each = record { iff = (λ h. cc, λ (gs, e, p). cc) }

pub text_or_plain_ok :
    (u : Unknown) (m n : Message) (check : Value → Report) (P : Value → Type 0)
    → ((o : Value) → Accepts (check o) (P o))
    → Accepts (text_or_plain u (err m) (err n) check) (SomeText u ⊎ PlainWith P u)
unfolding text_or_plain
text_or_plain_ok (known (string s)) m n check P each = record {
  iff =
      (λ h. inl (s, ground arith), λ p. elim p [ inl (t, e) ↦ ground arith | inr (gs, e, q) ↦ cc ]);
}
text_or_plain_ok (known (object fs)) m n check P each = record {
  iff = (
    λ h. inr (fs, refl, (each (object fs)).iff.0 h),
    λ p. elim p [
      | inl (t, e) ↦ cc
      | inr (gs, e, q) ↦ (each (object fs)).iff.1 (object_of P fs gs e q)
    ],
  );
}
text_or_plain_ok _ m n check P each = record {
  iff = (λ h. cc, λ p. elim p [ inl (t, e) ↦ cc | inr (gs, e, q) ↦ cc ]);
}
