-- ===== src/Validator/Refs/ActionRefs/Laws.antt =====
-- The resolution of actions: an action is dropped exactly with an error.
use dokkimi.Prelude.{
  ℕ, zero, suc, ◌+◌, ◌≤◌, ◌<◌, ◌≡◌, inl, inr, refl, String, Bool, true, false, Option, none, some,
  List, [], ◌∷◌, arith, ltb, length, member, Bool-cases,
}
use dokkimi.Prelude.Text.{is_present}
use dokkimi.Json.{object, Fields, Unknown, known, own, as_string}
use dokkimi.Report.{Report, Message, clean}
use dokkimi.Report.Clean.{clean-append}
use dokkimi.Validator.Refs.ActionRefs.{
  warn_extra, ActionOutcome, override_action, after_report, guard_ref, ActionResolver, inner_action,
  fragment_action, action_content, action_from, resolve_action_ref,
}

-- An error is reported exactly if there is no result.
abbrev Settled : ActionOutcome → Type 0
Settled o = clean o.0 ≡ is_present o.1

override-Settled :
    (action : Fields) (o : ActionOutcome) → Settled o → Settled (override_action action o)
unfolding override_action
override-Settled action (r, none) h = h
override-Settled action (r, some fs) h = h

after_report-Settled :
    (w : Report) (o : ActionOutcome) → clean w ≡ true → Settled o → Settled (after_report w o)
unfolding after_report
after_report-Settled w o q h = ground (arith, clean-append w o.0)

clean-warn_extra :
    (ctx : Message) (s content : String) (fs : Fields) → clean (warn_extra ctx s content fs) ≡ true
unfolding warn_extra
clean-warn_extra ctx s content fs = ground arith

guard-Settled :
    (circular found : Bool) (ctx : Message) (s p : String) (o : ActionOutcome)
    → Settled o
    → Settled (guard_ref circular found ctx s p none o)
unfolding guard_ref
guard-Settled true found ctx s p o h = refl
guard-Settled false false ctx s p o h = refl
guard-Settled false true ctx s p o h = h

module _ (absolute : String → String) (resolve : String → String → String) (exists : String → Bool)
    (read : String → Option Unknown) where
  module _ (rec : ActionResolver absolute resolve exists read) (visited : List String)
      (inner : (p : String) (ctx : Message) (s : String) (action : Fields)
        → Settled (rec (p ∷ visited) p ctx s action)) where
    inner-Settled :
        (p : String) (ctx : Message) (action : Fields) (o : Option String)
        → Settled (inner_action absolute resolve exists read rec visited p ctx action o)
    unfolding inner_action
    inner-Settled p ctx action none = refl
    inner-Settled p ctx action (some s) = inner p ctx s action

    fragment-Settled :
        (p : String) (ctx : Message) (s : String) (obj : Fields) (u : Unknown)
        → Settled (fragment_action absolute resolve exists read rec visited p ctx s obj u)
    unfolding fragment_action
    fragment-Settled p ctx s obj (known (object action)) =
        after_report-Settled (warn_extra ctx s "action" obj)
          (inner_action absolute resolve exists read rec visited p ctx action
            (as_string (own action "$ref")))
          (clean-warn_extra ctx s "action" obj)
          (inner-Settled p ctx action (as_string (own action "$ref")))
    fragment-Settled p ctx s obj _ = refl

    content-Settled :
        (p : String) (ctx : Message) (s : String) (o : Option Unknown)
        → Settled (action_content absolute resolve exists read rec visited p ctx s o)
    unfolding action_content
    content-Settled p ctx s none = refl
    content-Settled p ctx s (some (known (object obj))) =
        fragment-Settled p ctx s obj (own obj "action")
    content-Settled p ctx s (some _) = refl

  from-Settled :
      (fuel : ℕ) (visited : List String) (source : String) (ctx : Message) (s : String)
      (action : Fields)
      → length visited ≤ 11
      → 11 < fuel + length visited
      → Settled (action_from absolute resolve exists read fuel visited source ctx s action)
  unfolding action_from
  from-Settled zero visited source ctx s action l h = absurd (omega arith)
  from-Settled (suc fuel) visited source ctx s action l h =
      elim (Bool-cases (ltb 10 (length visited))) [
        | inl e ↦ rw e refl
        | inr e ↦
            let p = resolve source s in
            let content =
              action_content absolute resolve exists read
                (action_from absolute resolve exists read fuel) visited p ctx s (read p) in
            let inner =
              content-Settled (action_from absolute resolve exists read fuel) visited
                (λ q c t a. from-Settled fuel (q ∷ visited) q c t a (ground arith) (omega arith)) p
                ctx s (read p) in
            rw e (
              override-Settled action (guard_ref (member p visited) (exists p) ctx s p none content)
                (guard-Settled (member p visited) (exists p) ctx s p content inner))
      ]

  -- Whatever the files hold, the resolution of an action's reference reports an error exactly if it
  -- returns nothing.
  pub resolve_action_ref_settled :
      (source : String) (ctx : Message) (s : String) (action : Fields)
      → clean (resolve_action_ref absolute resolve exists read source ctx s action).0
        ≡ is_present (resolve_action_ref absolute resolve exists read source ctx s action).1
  unfolding resolve_action_ref
  resolve_action_ref_settled source ctx s action =
      from-Settled 11 (absolute source ∷ []) source ctx s action (omega arith) (omega arith)
