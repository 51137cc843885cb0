-- ===== src/Docker/Effects.antt =====
-- packages/auto-scaler/src/docker/index.ts: what `createContainer` and `removeContainer` do to containers,
-- as the journal of the daemon's calls has it.
use dynamic_conversion_servi.Prelude.{
  String, Bool, not, ◌||◌, is_some, true, false, Option, none, some, List, [], ◌∷◌, str_eq, ◌≡◌,
  refl, All, ap, ◌∙◌, get_or, filter, if◌then◌else◌,
}
use dynamic_conversion_servi.Prelude.Action.{Result, ok, err, Action, pure, ◌>>=◌}
use dynamic_conversion_servi.Prelude.After.{After, After-bind, After-weaken}
use mathlib.Core.Path.{subst}
use dynamic_conversion_servi.Docker.{
  ContainerInfo, DockerContainerStatus, DockerConfiguration, Daemon, DockerState, DockerError,
  CreateOptions, call, check_image, ensure_image, create_container, collect_running,
  get_running_container_info, stop_and_delete, exactly_one, remove_container, some_first_tag,
  health_of,
}
use dynamic_conversion_servi.Docker.Journal.{
  Journal, Recorded, written, noted, unnoted, recorded, note_creation, note_start, note_stop,
  note_delete,
}
use dynamic_conversion_servi.Docker.Names.{concat}
use dynamic_conversion_servi.Docker.Laws.{IsOwn, own_name, All-equal}

-- Nothing is said of a call that rejects.
abbrev pub Whatever : {S : Type 0} → S → Type 0
Whatever s = Unit

abbrev pub journal_of : {W : Type 0} → DockerState (Recorded W) → Journal
journal_of s = s.world.journal

-- A call that returned, and left this journal.
abbrev pub Leaves : {W A : Type 0} → Journal → A → DockerState (Recorded W) → Type 0
Leaves j a t = journal_of t ≡ j

module _ {W E A : Type 0} (g : A → Journal → Journal) (m : Action W E A)
    (s : DockerState (Recorded W)) where
  call-noted :
      After Whatever
        (λ a (t : DockerState (Recorded W)). journal_of t ≡ g a (journal_of s))
        (call (noted g m) s)
  call-noted = of_result (m s.world.world)
    where
      of_result :
          (r : Result E A × W)
          → After Whatever
              (λ a (t : DockerState (Recorded W)). journal_of t ≡ g a (journal_of s))
              (call (λ _. written g (journal_of s) r) s)
      of_result (ok a, w) = refl
      of_result (err e, w) = tt

  -- One call of the daemon, and what follows.
  after_call :
      {B : Type 0} (Q : B → DockerState (Recorded W) → Type 0)
      (f : A → Action (DockerState (Recorded W)) (DockerError E) B) (j : Journal)
      → journal_of s ≡ j
      → ((a : A) (t : DockerState (Recorded W)) → journal_of t ≡ g a j → After Whatever Q (f a t))
      → After Whatever Q ((call (noted g m) >>= f) s)
  after_call Q f j e k =
      After-bind Whatever (λ a (t : DockerState (Recorded W)). journal_of t ≡ g a (journal_of s)) Q
        (call (noted g m)) f s call-noted λ a t h. k a t (h ∙ ap (g a) e)

module _ {W E : Type 0} (daemon : Daemon W E) (config : DockerConfiguration) where
  ensure_image-Leaves :
      (b : Bool) (image tag : String) (j : Journal) (s : DockerState (Recorded W))
      → journal_of s ≡ j
      → After Whatever (Leaves j) (ensure_image (recorded daemon) config b image tag s)
  unfolding ensure_image check_image
  ensure_image-Leaves false image tag j s e = e
  ensure_image-Leaves true image tag j s e =
      After-bind Whatever (Leaves j) (Leaves j) (check_image (recorded daemon) config image tag) _ s
        (after_call (λ a k. k) (daemon.list_images image) s (Leaves j) _ j e
          λ images t h. pulled (some_first_tag (concat image (concat ":" tag)) images) t h)
        λ _ t h. h
    where
      pulled :
          (b : Bool) (t : DockerState (Recorded W))
          → journal_of t ≡ j
          → After Whatever
              (Leaves j)
              ((if b then pure tt else call (unnoted (daemon.pull_image image tag))) t)
      pulled true t h = h
      pulled false t h =
          After-weaken Whatever _ (Leaves j) (call (unnoted (daemon.pull_image image tag)) t)
            (call-noted (λ a k. k) (daemon.pull_image image tag) t) (λ a u k. k ∙ h)

  -- The container that is reported was created from the image and tag asked for, or else the configured
  -- ones, under the name reported, which bears the prefix of the listing, and it was started.
  abbrev pub IsCreated :
      Option String → Option String → Journal → ContainerInfo → DockerState (Recorded W) → Type 0
  IsCreated image tag j c t =
      let target = get_or image config.image_name in
      let target_tag = get_or tag (get_or config.tag "latest") in
      (o : CreateOptions) × (journal_of t
        ≡ note_start c.container_id tt (note_creation o c.container_id j))
      × (o.image ≡ concat target (concat ":" target_tag))
      × (c.container_name ≡ concat "/" o.name)
      × IsOwn config c
      × (c.container_image ≡ some target)
      × (c.container_tag ≡ some target_tag)

  abbrev options : Option String → Option String → String → CreateOptions
  options image tag suffix = record {
    env = get_or config.env_vars [];
    network_mode = if config.is_local then none else some config.network;
    image =
        concat (get_or image config.image_name)
          (concat ":" (get_or tag (get_or config.tag "latest")));
    name = concat config.name_prefix (concat "__" suffix);
  }

  abbrev info :
      Option String → Option String → String → String → DockerContainerStatus → ContainerInfo
  info image tag suffix id state = record {
    container_health_status = health_of state;
    container_id = id;
    container_image = some (get_or image config.image_name);
    container_ip = state.ip_address;
    container_name = concat "/" (concat config.name_prefix (concat "__" suffix));
    container_status = state.status;
    container_tag = some (get_or tag (get_or config.tag "latest"));
  }

  -- If createContainer returns, then of the daemon's calls on containers exactly two were made: a
  -- container was created from the image and tag asked for, or else the configured ones, and it was
  -- started; its name is the reported one, which bears the prefix that the listing recognises.
  pub create_container-IsCreated :
      (image tag : Option String) (s : DockerState (Recorded W))
      → After Whatever
          (IsCreated image tag (journal_of s))
          (create_container (recorded daemon) config image tag s)
  unfolding create_container
  create_container-IsCreated image tag s =
      let j = journal_of s in
      let target = get_or image config.image_name in
      let target_tag = get_or tag (get_or config.tag "latest") in
      let needed = not s.has_image || is_some image || is_some tag in
      let ensure = ensure_image (recorded daemon) config in
      After-bind Whatever (Leaves j) Q (ensure needed target target_tag) _ s
        (ensure_image-Leaves needed target target_tag j s refl)
        λ _ t h1.
          after_call (λ a k. k) (daemon.nanoid 6) t Q _ j h1
            λ suffix u h2.
              after_call (note_creation (options image tag suffix))
                (daemon.create (options image tag suffix)) u Q _ j h2
                λ id v h3. after_call (note_start id) (daemon.start id) v Q _ _ h3 λ _ w h4.
                  after_call (λ a k. k) (daemon.status_of id) w Q
                    (λ state. pure (info image tag suffix id state)) _ h4
                    λ state x h5. reported suffix id state x h5
    where
      Q : ContainerInfo → DockerState (Recorded W) → Type 0
      Q = IsCreated image tag (journal_of s)

      reported :
          (suffix id : String) (state : DockerContainerStatus) (x : DockerState (Recorded W))
          → journal_of x
            ≡ note_start id tt (note_creation (options image tag suffix) id (journal_of s))
          → Q (info image tag suffix id state) x
      reported suffix id state x h =
          (options image tag suffix, h, refl, refl, own_name config.name_prefix suffix, refl, refl)

  -- The container that is reported is the one asked for; it was stopped and deleted.
  abbrev pub IsRemoved : String → Journal → ContainerInfo → DockerState (Recorded W) → Type 0
  IsRemoved id j c t =
      (c.container_id ≡ id) × (journal_of t ≡ note_delete id tt (note_stop id tt j))

  stop_and_delete-IsRemoved :
      (id : String) (j : Journal) (s : DockerState (Recorded W))
      → journal_of s ≡ j
      → After Whatever (IsRemoved id j) (stop_and_delete (recorded daemon) config id s)
  unfolding stop_and_delete
  stop_and_delete-IsRemoved id j s h =
      after_call (λ a k. k) (daemon.status_of id) s (IsRemoved id j) _ j h
        λ state t h1. after_call (note_stop id) (daemon.stop id) t (IsRemoved id j) _ j h1 λ _ u h2.
          after_call (note_delete id) (daemon.delete id) u (IsRemoved id j) _ _ h2
            λ _ v h3. (refl, h3)

  -- If removeContainer returns, it stopped and deleted the container asked for, and no other.
  pub remove_container-IsRemoved :
      (id : String) (s : DockerState (Recorded W))
      → After Whatever
          (IsRemoved id (journal_of s))
          (remove_container (recorded daemon) config id s)
  unfolding remove_container
  remove_container-IsRemoved id s =
      after_call (λ a k. k) daemon.list s Q _ (journal_of s) refl
        λ ids t h. chosen (filter (λ i. str_eq i id) ids) (All-equal id ids) t h
    where
      Q : ContainerInfo → DockerState (Recorded W) → Type 0
      Q = IsRemoved id (journal_of s)

      chosen :
          (xs : List String)
          → All (λ i. i ≡ id) xs
          → (t : DockerState (Recorded W)) → journal_of t ≡ journal_of s
          → After Whatever Q (exactly_one (recorded daemon) config id xs t)
      chosen [] all t h = tt
      chosen (x ∷ []) all t h =
          subst
            (λ (i : String).
              After Whatever (IsRemoved i (journal_of s))
                (stop_and_delete (recorded daemon) config x t))
            all.0 (stop_and_delete-IsRemoved x (journal_of s) t h)
      chosen (x ∷ y ∷ xs) all t h = tt

  collect_running-Leaves :
      (ids : List String) (j : Journal) (s : DockerState (Recorded W))
      → journal_of s ≡ j
      → After Whatever (Leaves j) (collect_running (recorded daemon) config ids s)
  unfolding collect_running
  collect_running-Leaves [] j s h = h
  collect_running-Leaves (id ∷ ids) j s h =
      after_call (λ a k. k) (daemon.status_of id) s (Leaves j) _ j h
        λ state t h1.
          After-bind Whatever (Leaves j) (Leaves j) (collect_running (recorded daemon) config ids) _
            t (collect_running-Leaves ids j t h1) λ rest u h2. h2

  -- The listing changes no container.
  pub get_running_container_info-Leaves :
      (s : DockerState (Recorded W))
      → After Whatever
          (Leaves (journal_of s))
          (get_running_container_info (recorded daemon) config s)
  unfolding get_running_container_info
  get_running_container_info-Leaves s =
      after_call (λ a k. k) daemon.list s (Leaves (journal_of s)) _ (journal_of s) refl
        λ ids t h. collect_running-Leaves ids (journal_of s) t h
