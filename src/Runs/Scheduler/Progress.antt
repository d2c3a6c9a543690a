-- ===== src/Runs/Scheduler/Progress.antt =====
-- That a round of deployments starts every instance that it can.
use dokkimi.Prelude.{
  ◌&&◌, not, some_of, ℕ, zero, suc, ◌+◌, ◌≤◌, ◌≡◌, ◌⊎◌, inl, inr, refl, Bool, true, false, List, [],
  ◌∷◌, arith, All, Bool-cases, length, if◌then◌else◌, keep, eqb, leb, subst, sym,
}
use dokkimi.Prelude.Int.{ℤ, pos, negsuc}
use dokkimi.Runs.Rows.{member_id, Instance, is_pending}
use dokkimi.Runs.Scheduler.{
  active_count, starting_count, claim, attempt, slots_available, deploy_loop, deploy_into,
  deploy_instances,
}
use dokkimi.Runs.Scheduler.Limits.{Counts, deploy_loop-Counts}

-- The ids are a key.
abbrev pub Keyed : List Instance → Type 0
Keyed [] = Unit
Keyed (i ∷ is) = All (λ (j : Instance). eqb j.id i.id ≡ false) is × Keyed is

module _ (has_definition : ℕ → Bool) where
  -- The instance is not pending, or has no definition yet.
  abbrev pub Settled : Instance → Type 0
  Settled i = (is_pending i.status ≡ false) ⊎ (has_definition i.id ≡ false)

  -- The instance is settled, or is still to be tried.
  Waits : List ℕ → Instance → Type 0
  Waits ids i = Settled i ⊎ (member_id i.id ids ≡ true)

  Waits-rest :
      (id key : ℕ) (ids : List ℕ) (is : List Instance)
      → key ≡ id
      → All (λ (j : Instance). eqb j.id key ≡ false) is
      → All (Waits (id ∷ ids)) is
      → All (Waits ids) is
  unfolding Waits member_id
  Waits-rest id key ids [] e u w = tt
  Waits-rest id key ids (i ∷ is) e (u, us) (w, ws) =
      (ground arith, Waits-rest id key ids is e us ws)

  claim-Waits :
      (id : ℕ) (ids : List ℕ) (rows : List Instance)
      → Keyed rows
      → All (Waits (id ∷ ids)) rows
      → All (Waits ids) (claim id rows).0
  unfolding claim Waits member_id
  claim-Waits id ids [] k w = tt
  claim-Waits id ids (i ∷ is) (u, k) (w, ws) = elim (Bool-cases (eqb i.id id)) [
    | inl same ↦
        let rest = Waits-rest id i.id ids is (ground arith) u ws in
        elim (Bool-cases (is_pending i.status)) [
          | inl waiting ↦ rw same (rw waiting (inl (inl refl), rest))
          | inr other ↦ rw same (rw other (inl (inl other), rest))
        ]
    | inr other ↦ rw other (ground arith, claim-Waits id ids is k ws)
  ]

  claim-apart :
      (id key : ℕ) (rows : List Instance)
      → All (λ (j : Instance). eqb j.id key ≡ false) rows
      → All (λ (j : Instance). eqb j.id key ≡ false) (claim id rows).0
  unfolding claim
  claim-apart id key [] u = tt
  claim-apart id key (i ∷ is) (u, us) = elim (Bool-cases (eqb i.id id)) [
    | inr other ↦ rw other (u, claim-apart id key is us)
    | inl same ↦ rw same (elim (Bool-cases (is_pending i.status)) [
      | inl waiting ↦ rw waiting (u, us)
      | inr not_waiting ↦ rw not_waiting (u, us)
    ])
  ]

  claim-Keyed : (id : ℕ) (rows : List Instance) → Keyed rows → Keyed (claim id rows).0
  unfolding claim
  claim-Keyed id [] k = tt
  claim-Keyed id (i ∷ is) (u, k) = elim (Bool-cases (eqb i.id id)) [
    | inr other ↦ rw other (claim-apart id i.id is u, claim-Keyed id is k)
    | inl same ↦ rw same (elim (Bool-cases (is_pending i.status)) [
      | inl waiting ↦ rw waiting (u, k)
      | inr not_waiting ↦ rw not_waiting (u, k)
    ])
  ]

  skipped-Waits :
      (id : ℕ) (ids : List ℕ) (rows : List Instance)
      → has_definition id ≡ false
      → All (Waits (id ∷ ids)) rows
      → All (Waits ids) rows
  unfolding Waits member_id
  skipped-Waits id ids [] e w = tt
  skipped-Waits id ids (i ∷ is) e (w, ws) =
      let rest = skipped-Waits id ids is e ws in
      elim (Bool-cases (eqb id i.id)) [
        | inl same ↦ let at_id : i.id ≡ id = ground arith in (inl (inr (rw at_id e)), rest)
        | inr other ↦ (ground arith, rest)
      ]

  attempt_lem :
      (id : ℕ) (ids : List ℕ) (rows : List Instance)
      → Keyed rows
      → All (Waits (id ∷ ids)) rows
      → Keyed (attempt has_definition id rows).0
        × All (Waits ids) (attempt has_definition id rows).0
  unfolding attempt
  attempt_lem id ids rows k w = elim (Bool-cases (has_definition id)) [
    | inl defined ↦ rw defined (claim-Keyed id rows k, claim-Waits id ids rows k w)
    | inr missing ↦ rw missing (k, skipped-Waits id ids rows missing w)
  ]

  ids_of : List Instance → List ℕ
  ids_of [] = []
  ids_of (i ∷ is) = i.id ∷ ids_of is

  nothing-Waits : (rows : List Instance) → All (Waits []) rows → All Settled rows
  unfolding Waits member_id
  nothing-Waits [] w = tt
  nothing-Waits (i ∷ is) (w, ws) = (elim w [ inl s ↦ s | inr m ↦ cc ], nothing-Waits is ws)

  -- A claimed instance whose context cannot be rebuilt.
  abbrev pub Broken : (ℕ → Bool) → List ℕ → Type 0
  Broken rebuilds ids = some_of (λ id. not (rebuilds id)) ids ≡ true

  Broken-next :
      (rebuilds : ℕ → Bool) (id : ℕ) (won : Bool) (ids : List ℕ)
      → Broken rebuilds ids
      → Broken rebuilds (if won then id ∷ ids else ids)
  Broken-next rebuilds id true ids h = ground arith
  Broken-next rebuilds id false ids h = h

  full_next :
      (slots deployed id : ℕ) (won : Bool) (ids : List ℕ)
      → slots ≤ (if won then suc deployed else deployed) + length ids
      → slots ≤ deployed + length (if won then id ∷ ids else ids)
  full_next slots deployed id true ids h = omega (arith, h)
  full_next slots deployed id false ids h = h

  loop_settles :
      (rebuilds : ℕ → Bool) (slots deployed : ℕ) (waiting rows : List Instance)
      → Keyed rows
      → All (Waits (ids_of waiting)) rows
      → (slots
          ≤ deployed + length (deploy_loop has_definition rebuilds slots deployed waiting rows).1)
        ⊎ (All Settled (deploy_loop has_definition rebuilds slots deployed waiting rows).0
            ⊎ Broken rebuilds (deploy_loop has_definition rebuilds slots deployed waiting rows).1)
  unfolding deploy_loop ids_of
  loop_settles rebuilds slots deployed [] rows k w = inr (inl (nothing-Waits rows w))
  loop_settles rebuilds slots deployed (instance ∷ rest) rows k w =
      let tried = attempt has_definition instance.id rows in
      let next_deployed = if tried.1 then suc deployed else deployed in
      let (k', w') = attempt_lem instance.id (ids_of rest) rows k w in
      let ih = loop_settles rebuilds slots next_deployed rest tried.0 k' w' in
      elim (Bool-cases (leb slots deployed)) [
        | inl full ↦ rw full (inl (ground arith))
        | inr free ↦ elim (Bool-cases (tried.1 && not (rebuilds instance.id))) [
          | inl broken ↦ rw (free, broken) (inr (inr (ground arith)))
          | inr ok ↦
              rw (free, ok)
                (elim ih [
                  | inr (inl settled) ↦ inr (inl settled)
                  | inr (inr later) ↦ inr (
                      inr (
                        Broken-next rebuilds instance.id tried.1
                          (deploy_loop has_definition rebuilds slots next_deployed rest tried.0).1
                          later))
                  | inl full ↦ inl (
                      full_next slots deployed instance.id tried.1
                        (deploy_loop has_definition rebuilds slots next_deployed rest tried.0).1
                        full)
                ])
        ]
      ]

  Waits-more :
      (id : ℕ) (ids : List ℕ) (is : List Instance) → All (Waits ids) is → All (Waits (id ∷ ids)) is
  unfolding Waits member_id
  Waits-more id ids [] w = tt
  Waits-more id ids (i ∷ is) (w, ws) = (ground arith, Waits-more id ids is ws)

  keep_first :
      (p : Instance → Bool) (i : Instance) (is : List Instance)
      → p i ≡ true
      → keep p (i ∷ is) ≡ i ∷ keep p is
  keep_first p i is e = rw e refl

  keep_later :
      (p : Instance → Bool) (i : Instance) (is : List Instance)
      → p i ≡ false
      → keep p (i ∷ is) ≡ keep p is
  keep_later p i is e = rw e refl

  start-Waits :
      (is : List Instance)
      → All (Waits (ids_of (keep (λ (i : Instance). is_pending i.status) is))) is
  unfolding Waits member_id ids_of
  start-Waits [] = tt
  start-Waits (i ∷ is) =
      let p = λ (j : Instance). is_pending j.status in
      let rest = start-Waits is in
      elim (Bool-cases (is_pending i.status)) [
        | inl waiting ↦
            subst (λ l. All (Waits (ids_of l)) (i ∷ is)) (sym (keep_first p i is waiting))
              (inr (ground arith), Waits-more i.id (ids_of (keep p is)) is rest)
        | inr other ↦
            subst (λ l. All (Waits (ids_of l)) (i ∷ is)) (sym (keep_later p i is other))
              (inl (inl other), rest)
      ]

  slots_full :
      (c b : ℕ) (is : List Instance) (n k : ℕ)
      → slots_available c b is ≡ pos n
      → n ≤ k
      → (c ≤ active_count is + k) ⊎ (b ≤ starting_count is + k)
  unfolding slots_available
  slots_full c b is n k e h = ground arith

  slots_none :
      (c b : ℕ) (is : List Instance) (n : ℕ)
      → slots_available c b is ≡ negsuc n
      → (c ≤ active_count is) ⊎ (b ≤ starting_count is)
  unfolding slots_available
  slots_none c b is n e = ground arith

  into_progress :
      (rebuilds : ℕ → Bool) (c b : ℕ) (slots : ℤ) (is : List Instance)
      → slots_available c b is ≡ slots
      → Keyed is
      → (c ≤ active_count (deploy_into has_definition rebuilds slots is).0)
        ⊎ ((b ≤ starting_count (deploy_into has_definition rebuilds slots is).0)
            ⊎ (All Settled (deploy_into has_definition rebuilds slots is).0
                ⊎ Broken rebuilds (deploy_into has_definition rebuilds slots is).1))
  unfolding deploy_into Counts
  into_progress rebuilds c b (pos zero) is e k = elim (slots_full c b is 0 0 e (omega arith)) [
    | inl full ↦ inl (omega (arith, full))
    | inr full ↦ inr (inl (omega (arith, full)))
  ]
  into_progress rebuilds c b (negsuc n) is e k = elim (slots_none c b is n e) [
    | inl full ↦ inl full
    | inr full ↦ inr (inl full)
  ]
  into_progress rebuilds c b (pos (suc n)) is e k =
      let waiting = keep (λ (i : Instance). is_pending i.status) is in
      let (a, s, d) = deploy_loop-Counts has_definition rebuilds (suc n) 0 waiting is in
      elim (loop_settles rebuilds (suc n) 0 waiting is k (start-Waits is)) [
        | inr rest ↦ inr (inr rest)
        | inl full ↦
            elim (slots_full c b is (suc n)
              (length (deploy_loop has_definition rebuilds (suc n) 0 waiting is).1) e
              (omega (arith, full))) [
                | inl at_limit ↦ inl (omega (arith, a, at_limit))
                | inr at_limit ↦ inr (inl (omega (arith, s, at_limit)))
              ]
      ]

  -- With the ids a key, a round of deployments ends with as many active or as many starting instances
  -- as a limit, with no pending instance that has a definition, or at the claim of an instance whose
  -- deployment context cannot be rebuilt.
  pub deploy_instances_progress :
      (rebuilds : ℕ → Bool) (max_concurrent max_booting : ℕ) (is : List Instance)
      → Keyed is
      → (max_concurrent
          ≤ active_count (deploy_instances has_definition rebuilds max_concurrent max_booting is).0)
        ⊎ ((max_booting
              ≤ starting_count
                  (deploy_instances has_definition rebuilds max_concurrent max_booting is).0)
            ⊎ (All Settled
                  (deploy_instances has_definition rebuilds max_concurrent max_booting is).0
                ⊎ Broken rebuilds
                    (deploy_instances has_definition rebuilds max_concurrent max_booting is).1))
  unfolding deploy_instances
  deploy_instances_progress rebuilds c b is k =
      into_progress rebuilds c b (slots_available c b is) is refl k
