-- ===== src/AutoScaler/Apply.antt =====
-- What applying a scaling status does: how many containers are started, and which are removed.
use mathlib.Core.Path.{subst}
use dynamic_conversion_servi.Prelude.{
  ℕ, zero, suc, String, true, false, Option, none, some, List, [], ◌∷◌, arith, ◌≡◌, refl, ap, ◌↔◌,
  map, length, take, ◌≢◌, inl, inr, Bool-cases,
}
use dynamic_conversion_servi.Prelude.Int.{ℤ, pos_part}
use dynamic_conversion_servi.Prelude.Action.{
  Result, ok, err, Action, Ensures, Ensures-bind, Ensures-last, Avoids, Avoids-bind, raise_if, pure,
  ◌>>=◌,
}
use dynamic_conversion_servi.Docker.{
  ContainerInfo, Daemon, DockerError, DockerState, create_container, remove_container,
  get_running_container_info,
}
use dynamic_conversion_servi.Docker.Laws.{remove_container-id}
use dynamic_conversion_servi.AutoScaler.{
  AutoScalerConfiguration, ScalerStatus, ContainerStateChange, start_and_remove, docker,
  join_results, all_of, repeat, map_calls, start_containers, remove_containers, both_nonzero,
  apply_configuration_state, check_container_status,
}
use dynamic_conversion_servi.AutoScaler.Bounds.{scale_exclusive}

module _ {S E A : Type 0} where
  join-length :
      (n : ℕ) (r : Result E A) (rest : Result E (List A)) (u : S)
      → Ensures {S = S} (λ xs. length xs ≡ n) (rest, u)
      → Ensures {S = S} (λ xs. length xs ≡ suc n) (join_results r rest, u)
  join-length n (ok a) (ok xs) u h = ap suc h
  join-length n (ok a) (err e) u h = tt
  join-length n (err e) rest u h = tt

  all_of-repeat :
      (n : ℕ) (m : Action S E A) (s : S) → Ensures (λ xs. length xs ≡ n) (all_of (repeat n m) s)
  unfolding all_of
  all_of-repeat zero m s = refl
  all_of-repeat (suc n) m s = join-length n (m s).0 _ _ (all_of-repeat n m (m s).1)

  module _ {B : Type 0} (key : A → B) where
    join-keys :
        (b : B) (bs : List B) (r : Result E A) (s : S) (rest : Result E (List A)) (u : S)
        → Ensures {S = S} (λ a. key a ≡ b) (r, s)
        → Ensures {S = S} (λ xs. map key xs ≡ bs) (rest, u)
        → Ensures {S = S} (λ xs. map key xs ≡ b ∷ bs) (join_results r rest, u)
    join-keys b bs (ok a) s (ok xs) u p h = cc
    join-keys b bs (ok a) s (err e) u p h = tt
    join-keys b bs (err e) s rest u p h = tt

    all_of-keys :
        (m : B → Action S E A) (bs : List B) (s : S)
        → ((b : B) (t : S) → Ensures (λ a. key a ≡ b) (m b t))
        → Ensures (λ xs. map key xs ≡ bs) (all_of (map_calls m bs) s)
    unfolding all_of
    all_of-keys m [] s k = refl
    all_of-keys m (b ∷ bs) s k =
        join-keys b bs (m b s).0 (m b s).1 _ _ (k b s) (all_of-keys m bs (m b s).1 k)

module _ {W E A : Type 0} (P : A → Type 0) where
  docker-Ensures :
      (m : Action (DockerState W) (DockerError E) A) (s : DockerState W)
      → Ensures P (m s)
      → Ensures P (docker m s)
  docker-Ensures m s = from (m s)
    where
      from :
          (r : Result (DockerError E) A × DockerState W)
          → Ensures P r
          → Ensures P (docker (λ _. r) s)
      from (ok a, t) h = h
      from (err e, t) h = tt

module _ {W E A : Type 0} where
  docker-Avoids :
      (m : Action (DockerState W) (DockerError E) A) (s : DockerState W)
      → Avoids start_and_remove (docker m s)
  docker-Avoids m s h = ground arith

-- The ids of the containers of a list.
abbrev pub ids_of : List ContainerInfo → List String
ids_of = map (λ c. c.container_id)

module _ {W E : Type 0} (daemon : Daemon W E) (config : AutoScalerConfiguration) where
  start_containers-count :
      (image tag : Option String) (n : ℤ) (s : DockerState W)
      → Ensures (λ cs. length cs ≡ pos_part n) (start_containers daemon config image tag n s)
  unfolding start_containers
  start_containers-count image tag n s =
      docker-Ensures (λ cs. length cs ≡ pos_part n)
        (all_of (repeat (pos_part n) (create_container daemon config.docker_config image tag))) s
        (all_of-repeat (pos_part n) (create_container daemon config.docker_config image tag) s)

  remove_containers-ids :
      (idle : List String) (n : ℤ) (s : DockerState W)
      → Ensures
          (λ cs. ids_of cs ≡ take (pos_part n) idle)
          (remove_containers daemon config (some idle) n s)
  unfolding remove_containers
  remove_containers-ids idle n s =
      docker-Ensures (λ cs. ids_of cs ≡ take (pos_part n) idle)
        (all_of (map_calls (remove_container daemon config.docker_config) (take (pos_part n) idle)))
        s
        (all_of-keys (λ c. c.container_id) (remove_container daemon config.docker_config)
          (take (pos_part n) idle) s (remove_container-id daemon config.docker_config))

  -- If applying a status returns, as many containers were started as the status says (none for an
  -- amount of 0 or below), and the containers removed are the first idle ones, as many as the status
  -- says and as there are.
  pub applied_as_asked :
      (status : ScalerStatus) (idle : List String) (image tag : Option String) (s : DockerState W)
      → Ensures
          (λ change.
            (length change.started_containers ≡ pos_part status.containers_to_start)
            × (ids_of change.removed_containers ≡ take (pos_part status.containers_to_remove) idle))
          (apply_configuration_state daemon config status (some idle) image tag s)
  unfolding apply_configuration_state
  applied_as_asked status idle image tag s =
      Ensures-last Q (raise_if (both_nonzero status) start_and_remove) _ s λ _ r.
        Ensures-bind (λ cs. length cs ≡ pos_part status.containers_to_start) Q
          (start_containers daemon config image tag status.containers_to_start) _ r
          (start_containers-count image tag status.containers_to_start r)
          λ started t counted.
            Ensures-bind (λ cs. ids_of cs ≡ take (pos_part status.containers_to_remove) idle) Q
              (remove_containers daemon config (some idle) status.containers_to_remove) _ t
              (remove_containers-ids idle status.containers_to_remove t)
              λ removed u named. (counted, named)
    where
      Q : ContainerStateChange → Type 0
      Q change =
          (length change.started_containers ≡ pos_part status.containers_to_start)
          × (ids_of change.removed_containers ≡ take (pos_part status.containers_to_remove) idle)

  start_containers-Avoids :
      (image tag : Option String) (n : ℤ) (s : DockerState W)
      → Avoids start_and_remove (start_containers daemon config image tag n s)
  unfolding start_containers
  start_containers-Avoids image tag n s =
      docker-Avoids
        (all_of (repeat (pos_part n) (create_container daemon config.docker_config image tag))) s

  remove_containers-Avoids :
      (idle : Option (List String)) (n : ℤ) (s : DockerState W)
      → Avoids start_and_remove (remove_containers daemon config idle n s)
  unfolding remove_containers
  remove_containers-Avoids none n s = λ e. cc
  remove_containers-Avoids (some idle) n s =
      docker-Avoids
        (all_of (map_calls (remove_container daemon config.docker_config) (take (pos_part n) idle)))
        s

  -- Applying a status is refused with `start_and_remove` exactly when both amounts are nonzero.
  pub refused_iff :
      (status : ScalerStatus) (idle : Option (List String)) (image tag : Option String)
      (s : DockerState W)
      → ((apply_configuration_state daemon config status idle image tag s).0 ≡ err start_and_remove)
        ↔ (both_nonzero status ≡ true)
  unfolding apply_configuration_state
  refused_iff status idle image tag s = elim (Bool-cases (both_nonzero status)) [
    | inl both ↦ rw both (λ _. refl, λ _. refl)
    | inr one ↦ rw one (λ refused. absurd (applies refused), λ both. absurd (ground arith))
  ]
    where
      applies : Avoids {A = ContainerStateChange} start_and_remove (
          (do
            started ← start_containers daemon config image tag status.containers_to_start
            removed ← remove_containers daemon config idle status.containers_to_remove
            pure (record { removed_containers = removed; started_containers = started }))
            s)
      applies =
          Avoids-bind start_and_remove
            (start_containers daemon config image tag status.containers_to_start) _ s
            (start_containers-Avoids image tag status.containers_to_start s)
            λ started t.
              Avoids-bind start_and_remove
                (remove_containers daemon config idle status.containers_to_remove) _ t
                (remove_containers-Avoids idle status.containers_to_remove t) λ removed u e. cc

  computed-not-both :
      (pending : ℕ) (s : DockerState W)
      → Ensures
          (λ status. both_nonzero status ≡ false)
          (check_container_status daemon config pending s)
  unfolding check_container_status
  computed-not-both pending s =
      Ensures-last (λ status. both_nonzero status ≡ false)
        (docker (get_running_container_info daemon config.docker_config)) _ s
        λ running t. ground (
          arith,
          scale_exclusive (length running) pending config.tasks_per_container config.max_containers
              config.min_containers,
        )

  -- A status that `checkContainerStatus` computes is never refused for starting and removing at once.
  pub computed_status_applies :
      (pending : ℕ) (idle : Option (List String)) (image tag : Option String)
      (s t u : DockerState W) (status : ScalerStatus)
      → check_container_status daemon config pending s ≡ (ok status, t)
      → (apply_configuration_state daemon config status idle image tag u).0 ≢ err start_and_remove
  computed_status_applies pending idle image tag s t u status e refused =
      let p = subst (Ensures (λ x. both_nonzero x ≡ false)) e (computed-not-both pending s) in
      let q = (refused_iff status idle image tag u).0 refused in cc
