-- ===== src/Runs/Scheduler/Limits.antt =====
-- How many instances one round of deployments starts.
use dokkimi.Prelude.{
  ◌&&◌, not, ℕ, zero, suc, ◌+◌, ◌≤◌, ◌<◌, ◌≡◌, ◌⊎◌, inl, inr, refl, Bool, true, false, List, [],
  ◌∷◌, arith, Bool-cases, length, if◌then◌else◌, keep, eqb, leb,
}
use dokkimi.Prelude.Int.{ℤ, pos, negsuc}
use dokkimi.Runs.Rows.{Instance, InstanceStatus, pending, is_pending, is_active, is_starting}
use dokkimi.Runs.Scheduler.{
  active_count, starting_count, claim, attempt, slots_available, deploy_loop, deploy_into,
  deploy_instances,
}

abbrev won_count : Bool → ℕ
won_count won = if won then 1 else 0

pending_idle :
    (s : InstanceStatus) → is_pending s ≡ true → (is_active s ≡ false) × (is_starting s ≡ false)
pending_idle pending h = (refl, refl)
pending_idle _ h = cc

claim-counts :
    (id : ℕ) (is : List Instance)
    → (active_count (claim id is).0 ≡ active_count is + won_count (claim id is).1)
      × (starting_count (claim id is).0 ≡ starting_count is + won_count (claim id is).1)
unfolding claim
claim-counts id [] = (omega arith, omega arith)
claim-counts id (i ∷ is) =
    let (a, b) = claim-counts id is in
    let idle = pending_idle i.status in
    elim (Bool-cases (eqb i.id id)) [
      | inr other ↦ ground arith
      | inl same ↦ elim (Bool-cases (is_pending i.status)) [
        | inl idle_row ↦ let (p, q) = idle idle_row in ground arith
        | inr other_status ↦ ground arith
      ]
    ]

attempt-counts :
    (has_definition : ℕ → Bool) (id : ℕ) (is : List Instance)
    → (active_count (attempt has_definition id is).0
        ≡ active_count is + won_count (attempt has_definition id is).1)
      × (starting_count (attempt has_definition id is).0
          ≡ starting_count is + won_count (attempt has_definition id is).1)
unfolding attempt
attempt-counts has_definition id is =
    let c = claim-counts id is in
    elim (Bool-cases (has_definition id)) [
      | inl idle_row ↦ ground arith
      | inr other_status ↦ ground arith
    ]

-- What the loop makes of the rows: it claims as many as it lists, within the slots.
unfoldable pub Counts : List Instance → ℕ → ℕ → List Instance × List ℕ → Type 0
Counts rows slots deployed result =
    (active_count result.0 ≡ active_count rows + length result.1)
    × (starting_count result.0 ≡ starting_count rows + length result.1)
    × ((length result.1 ≡ 0) ⊎ (deployed + length result.1 ≤ slots))

Counts-next :
    (rows : List Instance) (slots deployed id : ℕ) (tried : List Instance × Bool)
    (next : List Instance × List ℕ)
    → (active_count tried.0 ≡ active_count rows + won_count tried.1)
      × (starting_count tried.0 ≡ starting_count rows + won_count tried.1)
    → deployed < slots
    → Counts tried.0 slots (if tried.1 then suc deployed else deployed) next
    → Counts rows slots deployed (next.0, if tried.1 then id ∷ next.1 else next.1)
unfolding Counts
Counts-next rows slots deployed id (tried_rows, true) next (a, b) free (c, d, e) =
    (omega (arith, a, c), omega (arith, b, d), ground arith)
Counts-next rows slots deployed id (tried_rows, false) next (a, b) free (c, d, e) =
    (omega (arith, a, c), omega (arith, b, d), e)

pub deploy_loop-Counts :
    (has_definition rebuilds : ℕ → Bool) (slots deployed : ℕ) (waiting rows : List Instance)
    → Counts rows slots deployed (deploy_loop has_definition rebuilds slots deployed waiting rows)
unfolding deploy_loop Counts
deploy_loop-Counts has_definition rebuilds slots deployed [] rows =
    (omega arith, omega arith, inl refl)
deploy_loop-Counts has_definition rebuilds slots deployed (instance ∷ rest) rows =
    let tried = attempt has_definition instance.id rows in
    let next_deployed = if tried.1 then suc deployed else deployed in
    elim (Bool-cases (leb slots deployed)) [
      | inl full ↦ rw full (omega arith, omega arith, inl refl)
      | inr free ↦ elim (Bool-cases (tried.1 && not (rebuilds instance.id))) [
        | inl broken ↦
            let c = attempt-counts has_definition instance.id rows in
            rw (free, broken) (ground arith, ground arith, inr (ground arith))
        | inr ok ↦
            rw (free, ok)
              (Counts-next rows slots deployed instance.id tried
                (deploy_loop has_definition rebuilds slots next_deployed rest tried.0)
                (attempt-counts has_definition instance.id rows) (ground arith)
                (deploy_loop-Counts has_definition rebuilds slots next_deployed rest tried.0))
      ]
    ]

slots_within :
    (c b : ℕ) (is : List Instance) (n : ℕ)
    → slots_available c b is ≡ pos n
    → (active_count is + n ≤ c) × (starting_count is + n ≤ b)
unfolding slots_available
slots_within c b is n e = ground arith

into_within :
    (has_definition rebuilds : ℕ → Bool) (slots : ℤ) (is : List Instance) (c b : ℕ)
    → ((n : ℕ) → slots ≡ pos n → (active_count is + n ≤ c) × (starting_count is + n ≤ b))
    → let after = deploy_into has_definition rebuilds slots is in
      ((after.0 ≡ is) × (after.1 ≡ []))
      ⊎ ((active_count after.0 ≤ c)
          × (starting_count after.0 ≤ b)
          × (active_count after.0 ≡ active_count is + length after.1))
unfolding deploy_into Counts
into_within has_definition rebuilds (pos zero) is c b room = inl (refl, refl)
into_within has_definition rebuilds (negsuc n) is c b room = inl (refl, refl)
into_within has_definition rebuilds (pos (suc n)) is c b room =
    let (p, q) = room (suc n) refl in
    let (a, s, d) =
      deploy_loop-Counts has_definition rebuilds (suc n) 0
        (keep (λ (i : Instance). is_pending i.status) is) is in
    inr (ground arith, ground arith, a)

-- A round of deployments changes nothing, or ends with at most as many active and as many starting
-- instances as the two limits, and with one more active instance for each that it claims.
pub deploy_instances-within :
    (has_definition rebuilds : ℕ → Bool) (max_concurrent max_booting : ℕ) (is : List Instance)
    → ((deploy_instances has_definition rebuilds max_concurrent max_booting is).0 ≡ is)
        × ((deploy_instances has_definition rebuilds max_concurrent max_booting is).1 ≡ [])
      ⊎ ((active_count (deploy_instances has_definition rebuilds max_concurrent max_booting is).0
            ≤ max_concurrent)
          × (starting_count
                (deploy_instances has_definition rebuilds max_concurrent max_booting is).0
              ≤ max_booting)
          × (active_count (deploy_instances has_definition rebuilds max_concurrent max_booting is).0
              ≡ active_count is
                + length
                    (deploy_instances has_definition rebuilds max_concurrent max_booting is).1))
unfolding deploy_instances
deploy_instances-within has_definition rebuilds c b is =
    into_within has_definition rebuilds (slots_available c b is) is c b (slots_within c b is)
