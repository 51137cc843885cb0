-- ===== src/Docker/Laws.antt =====
-- What the Docker service guarantees of the containers that it creates, lists and removes.
use text.Mathlib.Text.{starts_with}
use text.Mathlib.TextEquality.{starts_with_iff}
use text.Mathlib.TextLemmas.{append_assoc, prefix-append}
use dynamic_conversion_servi.Prelude.{
  String, true, Option, some, List, [], ◌∷◌, str_eq, arith, ◌≡◌, refl, All, get_or, filter, length,
  ◌≢◌, eq_iff,
}
use dynamic_conversion_servi.Prelude.Action.{ok, err, Ensures, Ensures-bind, Ensures-last}
use dynamic_conversion_servi.Docker.{
  ContainerInfo, DockerContainerStatus, DockerConfiguration, Daemon, container_not_found,
  DockerState, call, create_container, collect_running, ensure_image, get_running_container_info,
  remove_container, running_info, exactly_one, stop_and_delete,
}
use dynamic_conversion_servi.Docker.Names.{concat}

-- The name that marks a container as one of the service's.
abbrev pub IsOwn : DockerConfiguration → ContainerInfo → Type 0
IsOwn config c = starts_with c.container_name (concat "/" (concat config.name_prefix "__")) ≡ true

pub own_name :
    (prefix suffix : String)
    → starts_with
        (concat "/" (concat prefix (concat "__" suffix)))
        (concat "/" (concat prefix "__"))
      ≡ true
own_name prefix suffix = (starts_with_iff _ _).1 (
    rw (← append_assoc prefix "__" suffix, ← append_assoc "/" (concat prefix "__") suffix)
      (prefix-append (concat "/" (concat prefix "__")) suffix))

pub All-equal :
    (id : String) (ids : List String) → All (λ i. i ≡ id) (filter (λ i. str_eq i id) ids)
All-equal id [] = tt
All-equal id (x ∷ ids) = ground (arith, eq_iff x id, All-equal id ids)

module _ {W E : Type 0} (daemon : Daemon W E) (config : DockerConfiguration) where
  running_info-IsOwn :
      (id : String) (state : DockerContainerStatus) (rest : List ContainerInfo)
      → All (IsOwn config) rest
      → All (IsOwn config) (running_info config id state rest)
  running_info-IsOwn id state rest h = ground arith

  collect_running-IsOwn :
      (ids : List String) (s : DockerState W)
      → Ensures (All (IsOwn config)) (collect_running daemon config ids s)
  unfolding collect_running
  collect_running-IsOwn [] s = tt
  collect_running-IsOwn (id ∷ ids) s =
      Ensures-last (All (IsOwn config)) (call (daemon.status_of id)) _ s λ state t.
        Ensures-bind (All (IsOwn config)) (All (IsOwn config)) (collect_running daemon config ids) _
          t (collect_running-IsOwn ids t) λ rest u h. running_info-IsOwn id state rest h

  -- Every container that is listed as running bears the configured name prefix.
  pub listed-IsOwn :
      (s : DockerState W)
      → Ensures (All (IsOwn config)) (get_running_container_info daemon config s)
  unfolding get_running_container_info
  listed-IsOwn s =
      Ensures-last (All (IsOwn config)) (call daemon.list) _ s λ ids t. collect_running-IsOwn ids t

  -- A container that the service creates has a name that the listing recognises, and the image and
  -- tag that were asked for, or else the configured ones.
  pub created-IsOwn :
      (image tag : Option String) (s : DockerState W)
      → Ensures
          (λ c.
            IsOwn config c
            × (c.container_image ≡ some (get_or image config.image_name))
            × (c.container_tag ≡ some (get_or tag (get_or config.tag "latest"))))
          (create_container daemon config image tag s)
  unfolding create_container
  created-IsOwn image tag s = Ensures-last Q (ensure_image daemon config _ _ _) _ s λ _ t.
      Ensures-last Q (call (daemon.nanoid 6)) _ t λ suffix u.
        Ensures-last Q (call (daemon.create _)) _ u λ id v.
          Ensures-last Q (call (daemon.start id)) _ v λ _ w.
            Ensures-last Q (call (daemon.status_of id)) _ w
              λ state x. (own_name config.name_prefix suffix, refl, refl)
    where
      Q : ContainerInfo → Type 0
      Q c =
          IsOwn config c
          × (c.container_image ≡ some (get_or image config.image_name))
          × (c.container_tag ≡ some (get_or tag (get_or config.tag "latest")))

  exactly_one_absent :
      (id : String) (ids : List String) (t : DockerState W)
      → length ids ≢ 1
      → exactly_one daemon config id ids t ≡ (err (container_not_found id), t)
  exactly_one_absent id [] t h = refl
  exactly_one_absent id (x ∷ []) t h = absurd (h refl)
  exactly_one_absent id (x ∷ y ∷ ids) t h = refl

  -- `removeContainer` finds its container by an id that is listed exactly once: otherwise it throws,
  -- and has done nothing but list the containers.
  pub remove_container_absent :
      (id : String) (s : DockerState W) (ids : List String) (t : DockerState W)
      → call daemon.list s ≡ (ok ids, t)
      → length (filter (λ i. str_eq i id) ids) ≢ 1
      → remove_container daemon config id s ≡ (err (container_not_found id), t)
  unfolding remove_container
  remove_container_absent id s ids t e h =
      rw e (exactly_one_absent id (filter (λ i. str_eq i id) ids) t h)

  exactly_one-id :
      (id : String) (ids : List String) (t : DockerState W)
      → Ensures
          (λ c. c.container_id ≡ id)
          (exactly_one daemon config id (filter (λ i. str_eq i id) ids) t)
  unfolding stop_and_delete
  exactly_one-id id ids t = chosen (filter (λ i. str_eq i id) ids) (All-equal id ids)
    where
      stopped :
          (i : String)
          → i ≡ id
          → Ensures (λ c. c.container_id ≡ id) (stop_and_delete daemon config i t)
      stopped i e =
          Ensures-last (λ c. c.container_id ≡ id) (call (daemon.status_of i)) _ t
            λ state u.
              Ensures-last (λ c. c.container_id ≡ id) (call (daemon.stop i)) _ u
                λ _ v. Ensures-last (λ c. c.container_id ≡ id) (call (daemon.delete i)) _ v λ _ w. e

      chosen :
          (xs : List String)
          → All (λ i. i ≡ id) xs
          → Ensures (λ c. c.container_id ≡ id) (exactly_one daemon config id xs t)
      chosen [] h = tt
      chosen (x ∷ []) h = stopped x h.0
      chosen (x ∷ y ∷ xs) h = tt

  -- `removeContainer` reports the container that it was asked to remove.
  pub remove_container-id :
      (id : String) (s : DockerState W)
      → Ensures (λ c. c.container_id ≡ id) (remove_container daemon config id s)
  unfolding remove_container
  remove_container-id id s =
      Ensures-last (λ c. c.container_id ≡ id) (call daemon.list) _ s
        λ ids t. exactly_one-id id ids t
