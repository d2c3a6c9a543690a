-- ===== src/Runs/Cleanup/Stops.antt =====
-- What stopping leaves behind, and which runs the recovery keeps open.
use dokkimi.Prelude.{
  ℕ, ◌≡◌, ◌⊎◌, inl, inr, refl, Bool, true, false, ◌||◌, ◌&&◌, List, [], ◌∷◌, arith, All, Bool-cases,
  some_of, sym, ◌∙◌,
}
use dokkimi.Runs.Rows.{Instance, failed, Run, is_pending, is_live, is_open}
use dokkimi.Runs.Cleanup.{
  stop_instance, stop_row, stop_instances, stop_run, has_live_containers, recover_run,
  recover_stale_runs,
}

module _ (stop_ok : ℕ → Bool) where
  -- The instance that is pending, starting or running becomes FAILED, and any other stays as it is.
  pub StopsTo : Instance → Instance → Type 0
  StopsTo i j =
      ((is_pending i.status || is_live i.status ≡ true)
        × (j.status ≡ failed)
        × (j.id ≡ i.id)
        × (j.test_status ≡ i.test_status))
      ⊎ ((is_pending i.status || is_live i.status ≡ false) × (j ≡ i))

  stop_instance-keeps :
      (i : Instance)
      → ((stop_instance stop_ok i).id ≡ i.id)
        × ((stop_instance stop_ok i).test_status ≡ i.test_status)
  unfolding stop_instance
  stop_instance-keeps i = elim (Bool-cases (stop_ok i.id)) [
    | inl fine ↦ rw fine (refl, refl)
    | inr broken ↦ rw broken (refl, refl)
  ]

  stop_row-StopsTo : (i : Instance) → StopsTo i (stop_row stop_ok i)
  unfolding StopsTo stop_row
  stop_row-StopsTo i =
      let (same_id, same_test) = stop_instance-keeps i in
      elim (Bool-cases (is_live i.status)) [
        | inl live ↦ elim (Bool-cases (is_pending i.status)) [
          | inl waiting ↦ rw live (rw waiting (inl (refl, refl, same_id, same_test)))
          | inr settled ↦ rw live (rw settled (inl (refl, refl, same_id, same_test)))
        ]
        | inr dead ↦ elim (Bool-cases (is_pending i.status)) [
          | inl waiting ↦ rw dead (rw waiting (inl (refl, refl, refl, refl)))
          | inr settled ↦ rw dead (rw settled (inr (refl, refl)))
        ]
      ]

  abbrev pub AllStopped : List Instance → List Instance → Type 0
  AllStopped [] [] = Unit
  AllStopped (i ∷ is) (j ∷ js) = StopsTo i j × AllStopped is js
  AllStopped _ _ = ⊥

  -- The stop of instances makes each that is pending, starting or running FAILED, whether its containers
  -- could be removed or not, and leaves every other as it was.
  pub stop_instances-AllStopped : (is : List Instance) → AllStopped is (stop_instances stop_ok is)
  unfolding stop_instances
  stop_instances-AllStopped [] = tt
  stop_instances-AllStopped (i ∷ is) = (stop_row-StopsTo i, stop_instances-AllStopped is)

  module _ (network_exists : ℕ → Bool) where
    has_live-some :
        (is : List Instance)
        → has_live_containers network_exists is
          ≡ some_of
              (λ (i : Instance). is_pending i.status || (is_live i.status && network_exists i.id))
              is
    unfolding has_live_containers
    has_live-some [] = refl
    has_live-some (i ∷ is) = let next = has_live-some is in ground arith

    -- The run is closed, or one of its instances waits or has a network.
    abbrev pub Running : Run → Type 0
    Running r =
        (is_open r.status ≡ false)
        ⊎ (some_of
              (λ (i : Instance). is_pending i.status || (is_live i.status && network_exists i.id))
              r.instances
            ≡ true)

    recover_run-Running : (r : Run) → Running (recover_run stop_ok network_exists r)
    unfolding recover_run stop_run
    recover_run-Running r =
        let e = has_live-some r.instances in
        elim (Bool-cases (is_open r.status)) [
          | inr closed ↦ rw closed (inl closed)
          | inl still_open ↦ elim (Bool-cases (has_live_containers network_exists r.instances)) [
            | inl live ↦ rw still_open (rw live (inr (sym e ∙ live)))
            | inr dead ↦ rw still_open (rw dead (inl refl))
          ]
        ]

    -- After the recovery of stale runs each run is closed, or one of its instances is pending, or is
    -- starting or running with its network in place.
    pub recover_stale_runs-Running :
        (runs : List Run) → All Running (recover_stale_runs stop_ok network_exists runs)
    unfolding recover_stale_runs
    recover_stale_runs-Running [] = tt
    recover_stale_runs-Running (r ∷ rs) = (recover_run-Running r, recover_stale_runs-Running rs)
