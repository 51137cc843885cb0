-- ===== src/AutoScaler/Effects.antt =====
-- packages/auto-scaler/src/index.ts: what applying a scaling status does to containers, as the journal of
-- the daemon's calls has it.
use mathlib.Core.Path.{subst}
use mathlib.Core.List.{append_assoc, append-nil}
use dynamic_conversion_servi.Prelude.{
  ℕ, zero, suc, String, Bool, true, false, Option, some, List, [], ◌∷◌, ◌++◌, ◌≡◌, refl, sym, ap,
  ◌∙◌, length, take,
}
use dynamic_conversion_servi.Prelude.Int.{pos_part}
use dynamic_conversion_servi.Prelude.Action.{Result, ok, err, Action, raise_if, pure}
use dynamic_conversion_servi.Prelude.After.{After, After-bind, After-weaken}
use dynamic_conversion_servi.Docker.{
  ContainerInfo, Daemon, DockerError, DockerState, create_container, remove_container,
  get_running_container_info,
}
use dynamic_conversion_servi.Docker.Journal.{Journal, Recorded, recorded}
use dynamic_conversion_servi.Docker.Effects.{
  Whatever, journal_of, Leaves, IsCreated, IsRemoved, create_container-IsCreated,
  remove_container-IsRemoved, get_running_container_info-Leaves,
}
use dynamic_conversion_servi.AutoScaler.{
  AutoScalerConfiguration, ScalerStatus, ScalerError, ContainerStateChange, start_and_remove,
  docker, join_results, all_of, repeat, map_calls, start_containers, remove_containers,
  both_nonzero, apply_configuration_state, check_container_status,
}
use dynamic_conversion_servi.AutoScaler.Apply.{ids_of}

-- Between two journals these containers were started, and those were stopped and deleted, in this order
-- and no others.
abbrev pub Adds : List String → List String → Journal → Journal → Type 0
Adds started removed j k =
    (k.starts ≡ j.starts ++ started)
    × (k.stops ≡ j.stops ++ removed)
    × (k.deletes ≡ j.deletes ++ removed)

grown :
    (xs es bs : List String) {ys zs : List String}
    → ys ≡ xs ++ es
    → zs ≡ ys ++ bs
    → zs ≡ xs ++ (es ++ bs)
grown xs es bs h k = k ∙ ap (λ l. l ++ bs) h ∙ append_assoc xs es bs

Adds-nil : (j : Journal) → Adds [] [] j j
Adds-nil j = (sym (append-nil j.starts), sym (append-nil j.stops), sym (append-nil j.deletes))

Adds-append :
    (es bs cs ds : List String) (j k l : Journal)
    → Adds es bs j k
    → Adds cs ds k l
    → Adds (es ++ cs) (bs ++ ds) j l
Adds-append es bs cs ds j k l (h0, h1, h2) (k0, k1, k2) =
    (grown j.starts es cs h0 k0, grown j.stops bs ds h1 k1, grown j.deletes bs ds h2 k2)

-- Containers are started first, and then others removed.
Adds-both :
    (es bs : List String) (j k l : Journal) → Adds es [] j k → Adds [] bs k l → Adds es bs j l
Adds-both es bs j k l (h0, h1, h2) (k0, k1, k2) = (
  k0 ∙ append-nil k.starts ∙ h0,
  k1 ∙ ap (λ l. l ++ bs) (h1 ∙ append-nil j.stops),
  k2 ∙ ap (λ l. l ++ bs) (h2 ∙ append-nil j.deletes),
)

-- The next container, started or removed.
Adds-started :
    (id : String) (ids : List String) (j k l : Journal)
    → Adds (id ∷ []) [] j k
    → Adds ids [] k l
    → Adds (id ∷ ids) [] j l
Adds-started id ids = Adds-append (id ∷ []) [] ids []

Adds-removed :
    (id : String) (ids : List String) (j k l : Journal)
    → Adds [] (id ∷ []) j k
    → Adds [] ids k l
    → Adds [] (id ∷ ids) j l
Adds-removed id ids = Adds-append [] (id ∷ []) [] ids

module _ {S E A : Type 0} (X : A → Type 0) (Y Z : List A → Type 0) where
  join-After :
      (r : Result E A) (t : S) (rest : Result E (List A)) (u : S)
      → After Whatever (λ a _. X a) (r, t)
      → After Whatever (λ es _. Y es) (rest, u)
      → ((a : A) (es : List A) → X a → Y es → Z (a ∷ es))
      → After Whatever (λ es _. Z es) (join_results r rest, u)
  join-After (ok a) t (ok es) u x y k = k a es x y
  join-After (ok a) t (err e) u x y k = tt
  join-After (err e) t rest u x y k = tt

module _ {S E A : Type 0} (Q : A → S → Type 0) where
  -- The state at the end, named.
  at_end : (r : Result E A × S) → After Whatever Q r → After Whatever (λ a (_ : S). Q a r.1) r
  at_end (ok a, t) h = h
  at_end (err e, t) h = h

  from_end : (r : Result E A × S) → After Whatever (λ a (_ : S). Q a r.1) r → After Whatever Q r
  from_end (ok a, t) h = h
  from_end (err e, t) h = h

module _ {W E : Type 0} (daemon : Daemon W E) (config : AutoScalerConfiguration) where
  abbrev State : Type 0
  State = DockerState (Recorded W)

  abbrev creating : Option String → Option String → Action State (DockerError E) ContainerInfo
  creating = create_container (recorded daemon) config.docker_config

  abbrev removing : String → Action State (DockerError E) ContainerInfo
  removing = remove_container (recorded daemon) config.docker_config

  -- As many containers es this were started.
  abbrev Started : ℕ → Journal → List ContainerInfo → State → Type 0
  Started n j cs t = (length cs ≡ n) × Adds (ids_of cs) [] j (journal_of t)

  -- The containers with these ids were removed.
  abbrev Removed : List String → Journal → List ContainerInfo → State → Type 0
  Removed ids j cs t = (ids_of cs ≡ ids) × Adds [] (ids_of cs) j (journal_of t)

  one_started :
      (image tag : Option String) (s : State)
      → After Whatever
          (λ c (t : State). Adds (c.container_id ∷ []) [] (journal_of s) (journal_of t))
          (creating image tag s)
  one_started image tag s =
      After-weaken Whatever (IsCreated daemon config.docker_config image tag (journal_of s)) _
        (creating image tag s) (create_container-IsCreated daemon config.docker_config image tag s)
        λ c t h. (
          ap (λ k. k.starts) h.1,
          ap (λ k. k.stops) h.1 ∙ sym (append-nil s.world.journal.stops),
          ap (λ k. k.deletes) h.1 ∙ sym (append-nil s.world.journal.deletes),
        )

  one_removed :
      (id : String) (s : State)
      → After Whatever
          (λ c (t : State).
            (c.container_id ≡ id) × Adds [] (c.container_id ∷ []) (journal_of s) (journal_of t))
          (removing id s)
  one_removed id s =
      After-weaken Whatever (IsRemoved daemon config.docker_config id (journal_of s)) _
        (removing id s) (remove_container-IsRemoved daemon config.docker_config id s)
        λ c t (same, h). (
          same,
          (
            ap (λ k. k.starts) h ∙ sym (append-nil s.world.journal.starts),
            ap (λ k. k.stops) h ∙ ap (λ i. s.world.journal.stops ++ i ∷ []) (sym same),
            ap (λ k. k.deletes) h ∙ ap (λ i. s.world.journal.deletes ++ i ∷ []) (sym same),
          ),
        )

  all_of-Started :
      (image tag : Option String) (n : ℕ) (s : State)
      → After Whatever (Started n (journal_of s)) (all_of (repeat n (creating image tag)) s)
  unfolding all_of
  all_of-Started image tag zero s = (refl, Adds-nil (journal_of s))
  all_of-Started image tag (suc n) s =
      let (r, t) = creating image tag s in
      let (rest, u) = all_of (repeat n (creating image tag)) t in
      from_end (Started (suc n) (journal_of s)) (join_results r rest, u)
        (join-After (λ c. Adds (c.container_id ∷ []) [] (journal_of s) (journal_of t))
          (λ cs. Started n (journal_of t) cs u) (λ cs. Started (suc n) (journal_of s) cs u) r t rest
          u
          (at_end (λ c (v : State). Adds (c.container_id ∷ []) [] (journal_of s) (journal_of v))
            (r, t) (one_started image tag s))
          (at_end (Started n (journal_of t)) (rest, u) (all_of-Started image tag n t))
          λ c cs x y. (
            ap suc y.0,
            Adds-started c.container_id (ids_of cs) (journal_of s) (journal_of t) (journal_of u) x
                y.1,
          ))

  all_of-Removed :
      (ids : List String) (s : State)
      → After Whatever (Removed ids (journal_of s)) (all_of (map_calls removing ids) s)
  unfolding all_of
  all_of-Removed [] s = (refl, Adds-nil (journal_of s))
  all_of-Removed (id ∷ ids) s =
      let (r, t) = removing id s in
      let (rest, u) = all_of (map_calls removing ids) t in
      let One = λ (c : ContainerInfo) (v : State).
        (c.container_id ≡ id) × Adds [] (c.container_id ∷ []) (journal_of s) (journal_of v) in
      from_end (Removed (id ∷ ids) (journal_of s)) (join_results r rest, u)
        (join-After (λ c. One c t) (λ cs. Removed ids (journal_of t) cs u)
          (λ cs. Removed (id ∷ ids) (journal_of s) cs u) r t rest u
          (at_end One (r, t) (one_removed id s))
          (at_end (Removed ids (journal_of t)) (rest, u) (all_of-Removed ids t))
          λ c cs x y. (
            cc (x.0, y.0),
            Adds-removed c.container_id (ids_of cs) (journal_of s) (journal_of t) (journal_of u) x.1
                y.1,
          ))

module _ {W E A : Type 0} (Q : A → DockerState W → Type 0) where
  docker-After :
      (r : Result (DockerError E) A × DockerState W)
      → After Whatever Q r
      → (s : DockerState W) → After Whatever Q (docker (λ _. r) s)
  docker-After (ok a, t) h s = h
  docker-After (err e, t) h s = tt

module _ {W E : Type 0} (daemon : Daemon W E) (config : AutoScalerConfiguration)
    (status : ScalerStatus) (idle : List String) where
  -- As many containers were started as the status says, none for an amount of 0 or below; the first idle
  -- ones were removed, as many as the status says and as there are; what is reported is what was done.
  abbrev pub IsApplied : Journal → ContainerStateChange → DockerState (Recorded W) → Type 0
  IsApplied j change t =
      (length change.started_containers ≡ pos_part status.containers_to_start)
      × (ids_of change.removed_containers ≡ take (pos_part status.containers_to_remove) idle)
      × Adds (ids_of change.started_containers) (ids_of change.removed_containers) j (journal_of t)

  -- If applying a status returns, then the daemon started as many containers as the status says (none for
  -- an amount of 0 or below), stopped and deleted the first idle ones, as many as the status says and as
  -- there are, did so with no other container, and these are the containers that are reported.
  pub apply_configuration_state-IsApplied :
      (image tag : Option String) (s : DockerState (Recorded W))
      → After Whatever
          (IsApplied (journal_of s))
          (apply_configuration_state (recorded daemon) config status (some idle) image tag s)
  unfolding apply_configuration_state start_containers remove_containers
  apply_configuration_state-IsApplied image tag s =
      let n = pos_part status.containers_to_start in
      let ids = take (pos_part status.containers_to_remove) idle in
      let removed = remove_containers (recorded daemon) config (some idle) in
      After-bind Whatever (λ _ r. r ≡ s) (IsApplied (journal_of s))
        (raise_if (both_nonzero status) start_and_remove) _ s (tested (both_nonzero status))
        λ _ r same.
          After-bind Whatever (Started daemon config n (journal_of r)) (IsApplied (journal_of s))
            (start_containers (recorded daemon) config image tag status.containers_to_start) _ r
            (docker-After (Started daemon config n (journal_of r))
              (all_of (repeat n (creating daemon config image tag)) r)
              (all_of-Started daemon config image tag n r) r)
            λ cs t (counted, starts).
              After-bind Whatever (Removed daemon config ids (journal_of t))
                (IsApplied (journal_of s)) (removed status.containers_to_remove)
                (λ ds. pure (record { removed_containers = ds; started_containers = cs })) t
                (docker-After (Removed daemon config ids (journal_of t))
                  (all_of (map_calls (removing daemon config) ids) t)
                  (all_of-Removed daemon config ids t) t)
                λ ds u (named, removes). (
                  counted,
                  named,
                  subst
                      (λ (v : DockerState (Recorded W)).
                        Adds (ids_of cs) (ids_of ds) (journal_of v) (journal_of u))
                      same
                      (Adds-both (ids_of cs) (ids_of ds) (journal_of r) (journal_of t)
                        (journal_of u) starts removes),
                )
    where
      tested :
          (b : Bool)
          → After Whatever
              (λ _ (r : DockerState (Recorded W)). r ≡ s)
              (raise_if {E = ScalerError E} b start_and_remove s)
      tested true = tt
      tested false = refl

-- Looking at the containers changes none.
pub check_container_status-Leaves :
    {W E : Type 0} (daemon : Daemon W E) (config : AutoScalerConfiguration) (pending : ℕ)
    (s : DockerState (Recorded W))
    → After Whatever
        (Leaves (journal_of s))
        (check_container_status (recorded daemon) config pending s)
unfolding check_container_status
check_container_status-Leaves daemon config pending s =
    After-bind Whatever (Leaves (journal_of s)) (Leaves (journal_of s))
      (docker (get_running_container_info (recorded daemon) config.docker_config)) _ s
      (docker-After (Leaves (journal_of s))
        (get_running_container_info (recorded daemon) config.docker_config s)
        (get_running_container_info-Leaves daemon config.docker_config s) s)
      λ running t h. h
