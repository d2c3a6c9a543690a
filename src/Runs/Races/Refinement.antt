-- ===== src/Runs/Races/Refinement.antt =====
-- Callers that race implement the dispatch: each instance is given to the deployment at most once.
use dokkimi.Prelude.{
  ℕ, ◌≡◌, refl, sym, inl, inr, Bool, true, false, List, [], ◌∷◌, arith, eqb, All, Bool-cases,
  if◌then◌else◌,
}
use dokkimi.Runs.Rows.{Instance, InstanceStatus, is_pending}
use dokkimi.Runs.Scheduler.{claim}
use dokkimi.Runs.Races.{
  World, world, Caller, write_status, Step, enter, pass_over, try_claim, throw_off, break_off,
  finish, other_write, Steps, done, next,
}
use dokkimi.Runs.Races.Dispatch.{
  Board, Dispatch, dispatch, quiet, Dispatches, none_yet, more, DistinctIds, Dispatches-Once,
}

-- Whether the row of an instance is PENDING.
unfoldable pub pending_at : List Instance → ℕ → Bool
pending_at [] id = false
pending_at (i ∷ is) id = if eqb i.id id then is_pending i.status else pending_at is id

-- The board behind the rows: what may be claimed, and what was given to the deployment.
abbrev pub board : World → Board
board w = record { available = pending_at w.rows; dispatched = w.log }

claim-won : (id : ℕ) (rows : List Instance) → (claim id rows).1 ≡ pending_at rows id
unfolding claim pending_at
claim-won id [] = refl
claim-won id (i ∷ is) = elim (Bool-cases (eqb i.id id)) [
  | inl e ↦ ground arith
  | inr e ↦ rw e (claim-won id is)
]

claim-gone : (id : ℕ) (rows : List Instance) → pending_at (claim id rows).0 id ≡ false
unfolding claim pending_at
claim-gone id [] = refl
claim-gone id (i ∷ is) =
    let rest = claim-gone id is in
    elim (Bool-cases (eqb i.id id)) [ inl e ↦ ground arith | inr e ↦ ground arith ]

claim-shrinks :
    (id x : ℕ) (rows : List Instance)
    → pending_at (claim id rows).0 x ≡ true
    → pending_at rows x ≡ true
unfolding claim pending_at
claim-shrinks id x [] h = h
claim-shrinks id x (i ∷ is) h =
    let rest = claim-shrinks id x is in
    elim (Bool-cases (eqb i.id id)) [ inl e ↦ ground arith | inr e ↦ ground arith ]

write-shrinks :
    (id : ℕ) (s : InstanceStatus) (x : ℕ) (rows : List Instance)
    → is_pending s ≡ false
    → pending_at (write_status id s rows) x ≡ true
    → pending_at rows x ≡ true
unfolding pending_at
write-shrinks id s x [] idle h = h
write-shrinks id s x (i ∷ is) idle h =
    let rest = write-shrinks id s x is idle in
    elim (Bool-cases (eqb i.id id)) [ inl e ↦ ground arith | inr e ↦ ground arith ]

claimed :
    (rows : List Instance) (log : List ℕ) (callers callers' : List Caller) (id : ℕ) (won : Bool)
    → won ≡ pending_at rows id
    → Dispatch
        (board (world rows callers log))
        (board (world (claim id rows).0 callers' (if won then id ∷ log else log)))
claimed rows log callers callers' id true e =
    dispatch id (sym e) (claim-gone id rows) (λ x h. claim-shrinks id x rows h) refl
claimed rows log callers callers' id false e = quiet (λ x h. claim-shrinks id x rows h) refl

module _ (has_definition : ℕ → Bool) (max_concurrent max_booting : ℕ) where
  Step-refines :
      {w v : World}
      → Step has_definition max_concurrent max_booting w v
      → Dispatch (board w) (board v)
  Step-refines (enter n e) = quiet (λ x h. h) refl
  Step-refines (pass_over before after slots deployed id todo p q) = quiet (λ x h. h) refl
  Step-refines (try_claim {rows} {log} before after slots deployed id todo p q) =
      claimed rows log [] [] id (claim id rows).1 (claim-won id rows)
  Step-refines (throw_off {rows} before after slots deployed id todo p q won) =
      quiet (λ x h. claim-shrinks id x rows h) refl
  Step-refines (break_off before after slots deployed todo p) = quiet (λ x h. h) refl
  Step-refines (finish before after slots deployed) = quiet (λ x h. h) refl
  Step-refines (other_write {rows} id s idle) = quiet (λ x h. write-shrinks id s x rows idle h) refl

  -- However the steps of any number of callers and the writes of other operations follow each other,
  -- they are, seen on the board of available instances, a sequence of dispatches of available
  -- instances, each of which is not available from then on.
  pub Steps-refine :
      {w v : World}
      → Steps has_definition max_concurrent max_booting w v
      → Dispatches (board w) (board v)
  Steps-refine done = none_yet
  Steps-refine (next ss s) = more (Steps-refine ss) (Step-refines s)

  -- From rows of which nothing was deployed yet, however the steps of any number of callers and the
  -- writes of other operations follow each other, no instance is given to the deployment twice, and
  -- none that was given to it is PENDING.
  pub Steps-once :
      (rows : List Instance) (v : World)
      → Steps has_definition max_concurrent max_booting (world rows [] []) v
      → DistinctIds v.log × All (λ (x : ℕ). pending_at v.rows x ≡ false) v.log
  Steps-once rows v ss = Dispatches-Once (Steps-refine ss) (tt, tt)
