-- ===== src/Runs/Scheduler/Changes.antt =====
-- What the scheduler may change of an instance and of a run.
use dokkimi.Prelude.{
  ◌&&◌, not, ◌≡◌, ◌≢◌, ◌⊎◌, inl, inr, refl, ◌∙◌, ℕ, suc, Bool, true, List, [], ◌∷◌, arith,
  Bool-cases, if◌then◌else◌, keep, eqb, leb, subst,
}
use dokkimi.Prelude.Int.{ℤ, pos}
use dokkimi.Runs.Rows.{Instance, Run, starting, is_pending, is_open, with_status, update_run}
use dokkimi.Runs.Scheduler.{
  claim, attempt, slots_available, deploy_loop, deploy_into, deploy_instances, deploy_run,
  deploy_pending_instances, check_run, check_run_completion, settle, settle_each,
  handle_instances_stopped, unique,
}

starting_waits : is_pending starting ≢ true
starting_waits e = cc

module _ (has_definition : ℕ → Bool) where
  -- The row is as it was, or was PENDING with a definition and is STARTING.
  abbrev pub Started : Instance → Instance → Type 0
  Started i j =
      (j ≡ i)
      ⊎ ((is_pending i.status ≡ true) × (has_definition i.id ≡ true) × (j ≡ with_status starting i))

  abbrev pub AllStarted : List Instance → List Instance → Type 0
  AllStarted [] [] = Unit
  AllStarted (i ∷ is) (j ∷ js) = Started i j × AllStarted is js
  AllStarted _ _ = ⊥

  started_same : (is : List Instance) → AllStarted is is
  started_same [] = tt
  started_same (i ∷ is) = (inl refl, started_same is)

  Started-one : (i j k : Instance) → Started i j → Started j k → Started i k
  Started-one i j k (inl e) t = subst (λ x. Started x k) e t
  Started-one i j k (inr (p, d, e)) (inl e') = inr (p, d, e' ∙ e)
  Started-one i j k (inr (p, d, e)) (inr (p', d', e')) =
      absurd (starting_waits (subst (λ (x : Instance). is_pending x.status ≡ true) e p'))

  started_then : (is js ks : List Instance) → AllStarted is js → AllStarted js ks → AllStarted is ks
  started_then [] [] [] s t = tt
  started_then (i ∷ is) (j ∷ js) (k ∷ ks) (s, ss) (t, ts) =
      (Started-one i j k s t, started_then is js ks ss ts)
  started_then [] (j ∷ js) ks s t = elim s [ ]
  started_then (i ∷ is) [] ks s t = elim s [ ]
  started_then [] [] (k ∷ ks) s t = elim t [ ]
  started_then (i ∷ is) (j ∷ js) [] s t = elim t [ ]

  claim-AllStarted :
      (id : ℕ) (rows : List Instance) → has_definition id ≡ true → AllStarted rows (claim id rows).0
  unfolding claim
  claim-AllStarted id [] d = tt
  claim-AllStarted id (i ∷ is) d = elim (Bool-cases (eqb i.id id)) [
    | inr other ↦ rw other (inl refl, claim-AllStarted id is d)
    | inl same ↦
        let at_id : i.id ≡ id = ground arith in
        rw same (elim (Bool-cases (is_pending i.status)) [
          | inl waiting ↦ rw waiting (inr (waiting, rw at_id d, refl), started_same is)
          | inr not_waiting ↦ rw not_waiting (inl refl, started_same is)
        ])
  ]

  attempt-AllStarted :
      (id : ℕ) (rows : List Instance) → AllStarted rows (attempt has_definition id rows).0
  unfolding attempt
  attempt-AllStarted id rows = elim (Bool-cases (has_definition id)) [
    | inl defined ↦ rw defined (claim-AllStarted id rows defined)
    | inr missing ↦ rw missing (started_same rows)
  ]

  module _ (rebuilds : ℕ → Bool) where
    deploy_loop-AllStarted :
        (slots deployed : ℕ) (waiting rows : List Instance)
        → AllStarted rows (deploy_loop has_definition rebuilds slots deployed waiting rows).0
    unfolding deploy_loop
    deploy_loop-AllStarted slots deployed [] rows = started_same rows
    deploy_loop-AllStarted slots deployed (instance ∷ rest) rows =
        let tried = attempt has_definition instance.id rows in
        let next_deployed = if tried.1 then suc deployed else deployed in
        elim (Bool-cases (leb slots deployed)) [
          | inl full ↦ rw full (started_same rows)
          | inr free ↦ elim (Bool-cases (tried.1 && not (rebuilds instance.id))) [
            | inl broken ↦ rw (free, broken) (attempt-AllStarted instance.id rows)
            | inr ok ↦
                rw (free, ok)
                  (started_then rows tried.0
                    (deploy_loop has_definition rebuilds slots next_deployed rest tried.0).0
                    (attempt-AllStarted instance.id rows)
                    (deploy_loop-AllStarted slots next_deployed rest tried.0))
          ]
        ]

    into-AllStarted :
        (slots : ℤ) (is : List Instance)
        → AllStarted is (deploy_into has_definition rebuilds slots is).0
    unfolding deploy_into
    into-AllStarted (pos (suc n)) is =
        deploy_loop-AllStarted (suc n) 0 (keep (λ (i : Instance). is_pending i.status) is) is
    into-AllStarted _ is = started_same is

    -- A round of deployments leaves every instance as it was, or takes it from PENDING, with a
    -- definition, to STARTING.
    pub deploy_instances-AllStarted :
        (max_concurrent max_booting : ℕ) (is : List Instance)
        → AllStarted is (deploy_instances has_definition rebuilds max_concurrent max_booting is).0
    unfolding deploy_instances
    deploy_instances-AllStarted c b is = into-AllStarted (slots_available c b is) is

-- The run is open, or it is as it was.
abbrev pub Kept : Run → Run → Type 0
Kept r r' = (is_open r.status ≡ true) ⊎ (r' ≡ r)

abbrev pub AllKept : List Run → List Run → Type 0
AllKept [] [] = Unit
AllKept (r ∷ rs) (r' ∷ rs') = Kept r r' × AllKept rs rs'
AllKept _ _ = ⊥

kept_then : (rs ss ts : List Run) → AllKept rs ss → AllKept ss ts → AllKept rs ts
kept_then [] [] [] h k = tt
kept_then (r ∷ rs) (s ∷ ss) (t ∷ ts) (inl o, hs) (k, ks) = (inl o, kept_then rs ss ts hs ks)
kept_then (r ∷ rs) (s ∷ ss) (t ∷ ts) (inr e, hs) (k, ks) =
    (subst (λ x. Kept x t) e k, kept_then rs ss ts hs ks)
kept_then [] (s ∷ ss) ts h k = elim h [ ]
kept_then (r ∷ rs) [] ts h k = elim h [ ]
kept_then [] [] (t ∷ ts) h k = elim k [ ]
kept_then (r ∷ rs) (s ∷ ss) [] h k = elim k [ ]

kept_same : (rs : List Run) → AllKept rs rs
kept_same [] = tt
kept_same (r ∷ rs) = (inr refl, kept_same rs)

update_run-AllKept :
    (id : ℕ) (f : Run → Run) (rs : List Run)
    → ((r : Run) → Kept r (f r))
    → AllKept rs (update_run id f rs)
unfolding update_run
update_run-AllKept id f [] each = tt
update_run-AllKept id f (r ∷ rs) each =
    let rest = update_run-AllKept id f rs each in
    elim (Bool-cases (eqb r.id id)) [
      | inl same ↦ (rw same (each r), rest)
      | inr other ↦ (rw other (inr refl), rest)
    ]

check_run-Kept : (has_definition : ℕ → Bool) (r : Run) → Kept r (check_run has_definition r)
unfolding check_run
check_run-Kept has_definition r = elim (Bool-cases (is_open r.status)) [
  | inl still_open ↦ inl still_open
  | inr closed ↦ inr (rw closed refl)
]

deploy_run-Kept :
    (has_definition rebuilds : ℕ → Bool) (c b : ℕ) (r : Run)
    → Kept r (deploy_run has_definition rebuilds c b r)
unfolding deploy_run
deploy_run-Kept has_definition rebuilds c b r = elim (Bool-cases (is_open r.status)) [
  | inl still_open ↦ inl still_open
  | inr closed ↦ inr (rw closed refl)
]

module _ (has_definition rebuilds : ℕ → Bool) (max_concurrent max_booting : ℕ) where
  settle-AllKept :
      (id : ℕ) (runs : List Run)
      → AllKept runs (settle has_definition rebuilds max_concurrent max_booting id runs)
  unfolding settle check_run_completion deploy_pending_instances
  settle-AllKept id runs =
      kept_then runs (check_run_completion has_definition id runs)
        (settle has_definition rebuilds max_concurrent max_booting id runs)
        (update_run-AllKept id (check_run has_definition) runs (check_run-Kept has_definition))
        (update_run-AllKept id (deploy_run has_definition rebuilds max_concurrent max_booting)
          (check_run_completion has_definition id runs)
          (deploy_run-Kept has_definition rebuilds max_concurrent max_booting))

  settle_each-AllKept :
      (ids : List ℕ) (runs : List Run)
      → AllKept runs (settle_each has_definition rebuilds max_concurrent max_booting ids runs)
  unfolding settle_each
  settle_each-AllKept [] runs = kept_same runs
  settle_each-AllKept (id ∷ ids) runs =
      let next = settle has_definition rebuilds max_concurrent max_booting id runs in
      kept_then runs next (settle_each has_definition rebuilds max_concurrent max_booting ids next)
        (settle-AllKept id runs) (settle_each-AllKept ids next)

  -- The handling of stopped instances leaves every run that is COMPLETED, FAILED or CANCELLED as it was.
  pub handle_instances_stopped-AllKept :
      (run_ids : List ℕ) (runs : List Run)
      → AllKept runs
          (handle_instances_stopped has_definition rebuilds max_concurrent max_booting run_ids runs)
  unfolding handle_instances_stopped
  handle_instances_stopped-AllKept run_ids runs = settle_each-AllKept (unique run_ids) runs
