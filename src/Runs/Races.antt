-- ===== src/Runs/Races.antt =====
-- services/control-tower/src/runs/deployment-scheduler.service.ts: several callers of
-- `deployPendingInstances` on one run at the same time. Between two awaits a caller runs alone, so a
-- step is one read or one write of the instances' rows; callers take steps in any order, and any other
-- operation may set a row to a status that is not PENDING in between. A caller may throw behind a claim
-- that it won, where it rebuilds the deployment's context (`throw_off`). Whether the run is open when a
-- caller enters is left open.
pub mod Dispatch
pub mod Refinement
pub mod Alone
pub mod Examples
use dokkimi.Prelude.{
  ℕ, zero, suc, ◌≡◌, Bool, true, false, List, [], ◌∷◌, ◌++◌, eqb, leb, keep, map, if◌then◌else◌,
}
use dokkimi.Prelude.Int.{pos}
use dokkimi.Runs.Rows.{Instance, InstanceStatus, is_pending, with_status}
use dokkimi.Runs.Scheduler.{claim, slots_available}

-- The locals of a caller: `slotsAvailable`, `deployed`, and the pending instances it has not come to.
pub record Caller : Type 0 where
  pub slots : ℕ
  pub deployed : ℕ
  pub todo : List ℕ

abbrev pub caller : ℕ → ℕ → List ℕ → Caller
caller slots deployed todo = record { slots = slots; deployed = deployed; todo = todo }

-- The rows, the callers, and the instances given to `deployInBackground`, the latest first.
pub record World : Type 0 where
  pub rows : List Instance
  pub callers : List Caller
  pub log : List ℕ

abbrev pub world : List Instance → List Caller → List ℕ → World
world rows callers log = record { rows = rows; callers = callers; log = log }

abbrev pub pending_ids : List Instance → List ℕ
pending_ids rows = map (λ (i : Instance). i.id) (keep (λ (i : Instance). is_pending i.status) rows)

-- Another operation's write to the row of an instance.
abbrev pub write_status : ℕ → InstanceStatus → List Instance → List Instance
write_status id s rows = map (λ (i : Instance). if eqb i.id id then with_status s i else i) rows

module _ (has_definition : ℕ → Bool) (max_concurrent max_booting : ℕ) where
  pub data Step : World → World → Type 0 where
    enter :
        {rows : List Instance} {callers : List Caller} {log : List ℕ} (n : ℕ)
        → slots_available max_concurrent max_booting rows ≡ pos (suc n)
        → Step
            (world rows callers log)
            (world rows (caller (suc n) 0 (pending_ids rows) ∷ callers) log)
    pass_over :
        {rows : List Instance} {log : List ℕ} (before after : List Caller) (slots deployed id : ℕ)
        (todo : List ℕ)
        → leb slots deployed ≡ false
        → has_definition id ≡ false
        → Step
            (world rows (before ++ caller slots deployed (id ∷ todo) ∷ after) log)
            (world rows (before ++ caller slots deployed todo ∷ after) log)
    try_claim :
        {rows : List Instance} {log : List ℕ} (before after : List Caller) (slots deployed id : ℕ)
        (todo : List ℕ)
        → leb slots deployed ≡ false
        → has_definition id ≡ true
        → Step (world rows (before ++ caller slots deployed (id ∷ todo) ∷ after) log) (
            world
              (claim id rows).0
              (before
                ++ caller slots (if (claim id rows).1 then suc deployed else deployed) todo ∷ after)
              (if (claim id rows).1 then id ∷ log else log))
    throw_off :
        {rows : List Instance} {log : List ℕ} (before after : List Caller) (slots deployed id : ℕ)
        (todo : List ℕ)
        → leb slots deployed ≡ false
        → has_definition id ≡ true
        → (claim id rows).1 ≡ true
        → Step
            (world rows (before ++ caller slots deployed (id ∷ todo) ∷ after) log)
            (world (claim id rows).0 (before ++ after) log)
    break_off :
        {rows : List Instance} {log : List ℕ} (before after : List Caller) (slots deployed : ℕ)
        (todo : List ℕ)
        → leb slots deployed ≡ true
        → Step
            (world rows (before ++ caller slots deployed todo ∷ after) log)
            (world rows (before ++ after) log)
    finish :
        {rows : List Instance} {log : List ℕ} (before after : List Caller) (slots deployed : ℕ)
        → Step
            (world rows (before ++ caller slots deployed [] ∷ after) log)
            (world rows (before ++ after) log)
    other_write :
        {rows : List Instance} {callers : List Caller} {log : List ℕ} (id : ℕ) (s : InstanceStatus)
        → is_pending s ≡ false
        → Step (world rows callers log) (world (write_status id s rows) callers log)

  -- Any number of steps.
  pub data Steps : World → World → Type 0 where
    done : {w : World} → Steps w w
    next : {w v u : World} → Steps w v → Step v u → Steps w u
