-- ===== src/Redis/Service/Quit.antt =====
-- packages/redis/src/service.ts: what `quit` removes.
use dynamic_conversion_servi.Prelude.{
  ℕ, String, Bool, true, false, not, ◌==◌, ◌++◌, if◌then◌else◌, List, [], ◌∷◌, map, length, take,
  none, some, ◌≡◌, refl, ap, ◌∙◌,
}
use dynamic_conversion_servi.Prelude.Action.{
  Result, ok, err, Action, pure, raise_if, Ensures, Ensures-bind, Ensures-last,
}
use dynamic_conversion_servi.Prelude.Int.{pos}
use dynamic_conversion_servi.Docker.{DockerState, ContainerInfo}
use dynamic_conversion_servi.AutoScaler.{
  ScalerStatus, ScalerError, ContainerStateChange, check_container_status,
  apply_configuration_state,
}
use dynamic_conversion_servi.AutoScaler.Apply.{ids_of, applied_as_asked}
use dynamic_conversion_servi.Redis.Wrapper.{
  RsmqError, WrapperError, WrapperState, quit_wrapper, get_queues, delete_queue, answered_queues,
  answered_one, includes,
}
use dynamic_conversion_servi.Redis.Service.{
  Environment, ServiceConfiguration, ServiceState, ServiceError, scaler, wrapper,
}
use dynamic_conversion_servi.Redis.Service.Loop.{quit}
use dynamic_conversion_servi.Prelude.After.{After, After-bind, After-weaken}
use dynamic_conversion_servi.Docker.Journal.{Journal, Recorded}
use dynamic_conversion_servi.Docker.Effects.{Whatever}
use dynamic_conversion_servi.AutoScaler.Effects.{
  Adds, IsApplied, apply_configuration_state-IsApplied, check_container_status-Leaves,
}
use dynamic_conversion_servi.Redis.Service.Journal.{rsmq_beside, with_journal}

take-map :
    (f : ContainerInfo → String) (xs : List ContainerInfo) → take (length xs) (map f xs) ≡ map f xs
take-map f [] = refl
take-map f (x ∷ xs) = ap (λ ys. f x ∷ ys) (take-map f xs)

module _ {W E A : Type 0} where
  -- A call of the scaler ensures what follows from what the scaler ensures.
  scaler-Ensures :
      (P Q : A → Type 0) (m : Action (DockerState W) (ScalerError E) A) (s : ServiceState W)
      → Ensures P (m (record { has_image = s.has_image; world = s.world }))
      → ((a : A) → P a → Q a)
      → Ensures Q (scaler m s)
  scaler-Ensures P Q m s = from (m (record { has_image = s.has_image; world = s.world }))
    where
      from :
          (r : Result (ScalerError E) A × DockerState W)
          → Ensures P r
          → ((a : A) → P a → Q a)
          → Ensures Q (scaler (λ _. r) s)
      from (ok a, t) h follows = follows a h
      from (err e, t) h follows = tt

  abbrev pub IsReturn : Action (DockerState W) (ScalerError E) A → A → Type 0
  IsReturn m a = (t : DockerState W) × ((m t).0 ≡ ok a)

  -- What a call returns, it returned from some state.
  result-IsReturn :
      (m : Action (DockerState W) (ScalerError E) A) (t : DockerState W)
      → Ensures (IsReturn m) (m t)
  result-IsReturn m t = from (m t) refl
    where
      from : (r : Result (ScalerError E) A × DockerState W) → m t ≡ r → Ensures (IsReturn m) r
      from (ok a, v) e = (t, ap (λ p. p.0) e)
      from (err x, v) e = tt

module _ {W E : Type 0} (environment : Environment W E) (config : ServiceConfiguration) where
  abbrev pub listing : Action (DockerState W) (ScalerError E) ScalerStatus
  listing = check_container_status environment.daemon config.auto_scaler_config 0

  -- The containers of a listing are removed, all of them, and none is started.
  abbrev pub RemovesAll : ContainerStateChange → Type 0
  RemovesAll change =
      (status : ScalerStatus) × IsReturn listing status
      × (length change.started_containers ≡ 0)
      × (ids_of change.removed_containers ≡ ids_of status.running_containers)

  abbrev all_of : List ContainerInfo → ScalerStatus
  all_of running = record {
    containers_to_remove = pos (length running);
    containers_to_start = pos 0;
    pending_requests = 0;
    running_containers = running;
  }

  abbrev removal : List ContainerInfo → Action (DockerState W) (ScalerError E) ContainerStateChange
  removal running =
      apply_configuration_state environment.daemon config.auto_scaler_config (all_of running)
        (some (ids_of running)) none none

  abbrev AsAsked : List ContainerInfo → ContainerStateChange → Type 0
  AsAsked running change =
      (length change.started_containers ≡ 0)
      × (ids_of change.removed_containers ≡ take (length running) (ids_of running))

  -- If quit returns, it started no container and removed exactly those that the auto-scaler listed as
  -- running.
  pub quit-RemovesAll : (s : ServiceState W) → Ensures RemovesAll (quit environment config s)
  unfolding quit
  quit-RemovesAll s =
      Ensures-last RemovesAll (wrapper (quit_wrapper environment.rsmq config.queue)) _ s λ _ r.
        Ensures-bind (IsReturn listing) RemovesAll (scaler listing) _ r
          (scaler-Ensures (IsReturn listing) (IsReturn listing) listing r
            (result-IsReturn listing _) λ a h. h)
          λ status t listed.
            let running = status.running_containers in
            scaler-Ensures (AsAsked running) RemovesAll (removal running) t
              (applied_as_asked environment.daemon config.auto_scaler_config (all_of running)
                (ids_of running) none none (record { has_image = t.has_image; world = t.world }))
              λ change (none_started, removed).
                (status, listed, none_started, removed ∙ take-map (λ c. c.container_id) running)

no_ids : (cs : List ContainerInfo) → length cs ≡ 0 → ids_of cs ≡ []
no_ids [] h = refl
no_ids (c ∷ cs) h = absurd cc

module _ {W E A : Type 0} where
  -- What holds of the daemon's state after a call of the scaler.
  scaler-After :
      (Q : A → DockerState W → Type 0) (m : Action (DockerState W) (ScalerError E) A)
      (s : ServiceState W)
      → After Whatever Q (m (record { has_image = s.has_image; world = s.world }))
      → After Whatever
          (λ a (t : ServiceState W). Q a (record { has_image = t.has_image; world = t.world }))
          (scaler m s)
  scaler-After Q m s = from (m (record { has_image = s.has_image; world = s.world }))
    where
      from :
          (r : Result (ScalerError E) A × DockerState W)
          → After Whatever Q r
          → After Whatever
              (λ a (t : ServiceState W). Q a (record { has_image = t.has_image; world = t.world }))
              (scaler (λ _. r) s)
      from (ok a, t) h = h
      from (err e, t) h = tt

  both-After :
      (P : A → Type 0) (Q : A → DockerState W → Type 0)
      (r : Result (ScalerError E) A × DockerState W)
      → Ensures P r
      → After Whatever Q r
      → After Whatever (λ a t. P a × Q a t) r
  both-After P Q (ok a, t) p q = (p, q)
  both-After P Q (err e, t) p q = tt

module _ {W E : Type 0} (environment : Environment W E) (config : ServiceConfiguration) where
  abbrev State : Type 0
  State = ServiceState (Recorded W)

  -- A call of the queue that leaves the journal.
  abbrev KeepsJournal : {A : Type 0} → Journal → A → WrapperState (Recorded W) → Type 0
  KeepsJournal j a t = t.world.journal ≡ j

  answered :
      (queues : Result RsmqError (List String)) (t : WrapperState (Recorded W))
      → After Whatever (KeepsJournal t.world.journal) (answered_queues queues t)
  answered (err e) t = tt
  answered (ok queues) t = refl

  answered_number :
      (n : Result RsmqError ℕ) (t : WrapperState (Recorded W))
      → After Whatever
          (KeepsJournal t.world.journal)
          (answered_one WrapperError.queue_delete_error n t)
  answered_number (err e) t = tt
  answered_number (ok n) t = tested (not (n == 1))
    where
      tested :
          (b : Bool)
          → After Whatever (KeepsJournal t.world.journal) (raise_if b WrapperError.rejected t)
      tested true = tt
      tested false = refl

  quit_wrapper-journal :
      (s : WrapperState (Recorded W))
      → After Whatever
          (KeepsJournal s.world.journal)
          (quit_wrapper (rsmq_beside environment.rsmq) config.queue s)
  unfolding quit_wrapper get_queues delete_queue
  quit_wrapper-journal s =
      After-bind Whatever (KeepsJournal s.world.journal) (KeepsJournal s.world.journal)
        (get_queues (rsmq_beside environment.rsmq)) _ s (answered _ _)
        λ queues t h. by_test (includes config.queue queues) t h
    where
      deleted :
          (t : WrapperState (Recorded W))
          → After Whatever
              (KeepsJournal t.world.journal)
              (delete_queue (rsmq_beside environment.rsmq) config.queue t)
      deleted t =
          let (n, w) = environment.rsmq.delete_queue config.queue t.world.world in
          answered_number n (record t { world = record t.world { world = w } })

      by_test :
          (b : Bool) (t : WrapperState (Recorded W))
          → t.world.journal ≡ s.world.journal
          → After {E = WrapperError} Whatever
              (KeepsJournal s.world.journal)
              ((if b then delete_queue (rsmq_beside environment.rsmq) config.queue else pure tt) t)
      by_test false t h = h
      by_test true t h =
          After-weaken Whatever (KeepsJournal t.world.journal) (KeepsJournal s.world.journal)
            (delete_queue (rsmq_beside environment.rsmq) config.queue t) (deleted t) λ _ u k. k ∙ h

  closed :
      (s : State)
      → After {E = ServiceError E} Whatever
          (λ _ (t : State). t.world.journal ≡ s.world.journal)
          (wrapper (quit_wrapper (rsmq_beside environment.rsmq) config.queue) s)
  closed s = from _ (quit_wrapper-journal _)
    where
      from :
          (r : Result WrapperError (Unit {0}) × WrapperState (Recorded W))
          → After Whatever (KeepsJournal s.world.journal) r
          → After {E = ServiceError E} Whatever
              (λ _ (t : State). t.world.journal ≡ s.world.journal)
              (wrapper (λ _. r) s)
      from (ok a, t) h = h
      from (err e, t) h = tt

  -- The containers of a listing are stopped and deleted, all of them and no others, and none is started;
  -- they are what is reported.
  abbrev pub StopsAll : Journal → ContainerStateChange → ServiceState (Recorded W) → Type 0
  StopsAll j change t =
      (status : ScalerStatus) × IsReturn (listing (with_journal environment) config) status
      × (length change.started_containers ≡ 0)
      × (ids_of change.removed_containers ≡ ids_of status.running_containers)
      × Adds [] (ids_of status.running_containers) j t.world.journal

  -- If quit returns, the daemon has started no container, and has stopped and deleted exactly those that
  -- the auto-scaler listed as running, which are the ones that are reported.
  pub quit-StopsAll :
      (s : ServiceState (Recorded W))
      → After Whatever (StopsAll s.world.journal) (quit (with_journal environment) config s)
  unfolding quit
  quit-StopsAll s =
      let j = s.world.journal in
      let look = listing (with_journal environment) config in
      After-bind Whatever (λ _ (t : State). t.world.journal ≡ j) (StopsAll j)
        (wrapper (quit_wrapper (rsmq_beside environment.rsmq) config.queue)) _ s (closed s)
        λ _ r h1.
          After-bind Whatever
            (λ status (t : State). IsReturn look status × (t.world.journal ≡ r.world.journal))
            (StopsAll j) (scaler look) _ r
            (scaler-After
              (λ status (t : DockerState (Recorded W)).
                IsReturn look status × (t.world.journal ≡ r.world.journal))
              look r
              (both-After (IsReturn look) (λ _ t. t.world.journal ≡ r.world.journal) _
                (result-IsReturn look _)
                (check_container_status-Leaves environment.daemon config.auto_scaler_config 0 _)))
            λ status t (returned, h2). removes_all j status returned t (h2 ∙ h1)
    where
      removes_all :
          (j : Journal) (status : ScalerStatus)
          → IsReturn (listing (with_journal environment) config) status
          → (t : State) → t.world.journal ≡ j
          → After Whatever
              (StopsAll j)
              (scaler (removal (with_journal environment) config status.running_containers) t)
      removes_all j status returned t h =
          let ids = ids_of status.running_containers in
          After-weaken Whatever _ (StopsAll j) _
            (scaler-After
              (IsApplied environment.daemon config.auto_scaler_config
                (all_of (with_journal environment) config status.running_containers) ids
                t.world.journal)
              (removal (with_journal environment) config status.running_containers) t
              (apply_configuration_state-IsApplied environment.daemon config.auto_scaler_config
                (all_of (with_journal environment) config status.running_containers) ids none none
                _))
            λ change u (none_started, named, (starts, stops, deletes)).
              let all = named ∙ take-map (λ c. c.container_id) status.running_containers in
              (
                status,
                returned,
                none_started,
                all,
                (
                  starts
                      ∙ ap (λ l. t.world.journal.starts ++ l)
                          (no_ids change.started_containers none_started)
                      ∙ ap (λ (k : Journal). k.starts ++ []) h,
                  stops
                      ∙ ap (λ l. t.world.journal.stops ++ l) all
                      ∙ ap (λ (k : Journal). k.stops ++ ids) h,
                  deletes
                      ∙ ap (λ l. t.world.journal.deletes ++ l) all
                      ∙ ap (λ (k : Journal). k.deletes ++ ids) h,
                ),
              )
