-- ===== src/Runs/Races/Alone.antt =====
-- A caller that is not disturbed takes the steps that `deploy_instances` puts together.
use dokkimi.Prelude.{
  ℕ, suc, ◌≡◌, subst, inl, inr, Bool, true, false, List, [], ◌∷◌, leb, keep, map, Bool-cases,
  if◌then◌else◌,
}
use dokkimi.Prelude.Int.{pos}
use dokkimi.Runs.Rows.{Instance, is_pending}
use dokkimi.Runs.Scheduler.{
  claim, attempt, deploy_loop, deploy_into, deploy_instances, slots_available,
}
use dokkimi.Runs.Races.{
  World, world, caller, Step, enter, pass_over, try_claim, throw_off, break_off, finish, Steps,
  done, next,
}

-- The log after these deployments, the first of them first.
abbrev pub logged : List ℕ → List ℕ → List ℕ
logged [] log = log
logged (id ∷ ids) log = logged ids (id ∷ log)

module _ (has_definition rebuilds : ℕ → Bool) (max_concurrent max_booting : ℕ) where
  first-Step :
      {w v u : World}
      → Step has_definition max_concurrent max_booting w v
      → Steps has_definition max_concurrent max_booting v u
      → Steps has_definition max_concurrent max_booting w u
  first-Step s done = next done s
  first-Step s (next ss t) = next (first-Step s ss) t

  abbrev ids_of : List Instance → List ℕ
  ids_of todo = map (λ (i : Instance). i.id) todo

  -- What the loop gives, as a world without the caller.
  abbrev Ends : List Instance × List ℕ → List ℕ → World
  Ends result log = world result.0 [] (logged (keep rebuilds result.1) log)

  claim-Step :
      (rows : List Instance) (log : List ℕ) (slots deployed id : ℕ) (todo : List ℕ) (won : Bool)
      → leb slots deployed ≡ false
      → has_definition id ≡ true
      → (claim id rows).1 ≡ won
      → Step has_definition max_concurrent max_booting
          (world rows (caller slots deployed (id ∷ todo) ∷ []) log)
          (world
            (claim id rows).0
            (caller slots (if won then suc deployed else deployed) todo ∷ [])
            (if won then id ∷ log else log))
  claim-Step rows log slots deployed id todo won e f same =
      subst
        (λ b.
          Step has_definition max_concurrent max_booting
            (world rows (caller slots deployed (id ∷ todo) ∷ []) log)
            (world (claim id rows).0 (caller slots (if b then suc deployed else deployed) todo ∷ [])
              (if b then id ∷ log else log)))
        same (try_claim [] [] slots deployed id todo e f)

  loop-Steps :
      (slots deployed : ℕ) (todo rows : List Instance) (log : List ℕ)
      → Steps has_definition max_concurrent max_booting
          (world rows (caller slots deployed (ids_of todo) ∷ []) log)
          (Ends (deploy_loop has_definition rebuilds slots deployed todo rows) log)
  unfolding deploy_loop attempt
  loop-Steps slots deployed [] rows log = first-Step (finish [] [] slots deployed) done
  loop-Steps slots deployed (i ∷ rest) rows log = elim (Bool-cases (leb slots deployed)) [
    | inl e ↦ rw e (first-Step (break_off [] [] slots deployed (ids_of (i ∷ rest)) e) done)
    | inr e ↦ elim (Bool-cases (has_definition i.id)) [
      | inr f ↦
          rw (e, f)
            (first-Step (pass_over [] [] slots deployed i.id (ids_of rest) e f)
              (loop-Steps slots deployed rest rows log))
      | inl f ↦ elim (Bool-cases (claim i.id rows).1) [
        | inl won ↦ elim (Bool-cases (rebuilds i.id)) [
          | inr broken ↦
              rw (e, f, won, broken, broken)
                (first-Step (throw_off [] [] slots deployed i.id (ids_of rest) e f won) done)
          | inl ok ↦
              rw (e, f, won, ok, ok)
                (first-Step (claim-Step rows log slots deployed i.id (ids_of rest) true e f won)
                  (loop-Steps slots (suc deployed) rest (claim i.id rows).0 (i.id ∷ log)))
        ]
        | inr lost ↦
            rw (e, f, lost)
              (first-Step (claim-Step rows log slots deployed i.id (ids_of rest) false e f lost)
                (loop-Steps slots deployed rest (claim i.id rows).0 log))
      ]
    ]
  ]

  -- A caller that finds a free slot and is not disturbed takes steps that end in the rows and with the
  -- deployments of the function, the claims whose context is rebuilt: what holds of every sequence of steps holds of the function.
  pub deploy_instances-Steps :
      (rows : List Instance) (log : List ℕ) (n : ℕ)
      → slots_available max_concurrent max_booting rows ≡ pos (suc n)
      → Steps has_definition max_concurrent max_booting (world rows [] log) (
          world (deploy_instances has_definition rebuilds max_concurrent max_booting rows).0 [] (
            logged
              (keep rebuilds
                (deploy_instances has_definition rebuilds max_concurrent max_booting rows).1)
              log))
  unfolding deploy_instances deploy_into
  deploy_instances-Steps rows log n e = rw e (
      first-Step (enter n e)
        (loop-Steps (suc n) 0 (keep (λ (i : Instance). is_pending i.status) rows) rows log))
