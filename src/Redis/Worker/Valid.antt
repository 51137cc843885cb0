-- ===== src/Redis/Worker/Valid.antt =====
-- The invariant of the workers' object: a worker stands under the id of its container, no key is
-- there twice, and no assigned request has `null` for its worker conversion id. Every synchronous
-- method keeps it.
use dynamic_conversion_servi.Prelude.{
  ℕ, zero, suc, String, Bool, true, false, Option, none, some, List, [], ◌∷◌, ◌++◌, ◌≡◌, refl, sym,
  ◌∙◌, arith, All, str_eq, eq_iff, filter, set, Bool-cases, inl, inr,
}
use dynamic_conversion_servi.Prelude.Dict.{
  lookup, insert, erase, has, lookup-insert, lookup-insert_ne, lookup-erase,
}
use dynamic_conversion_servi.Prelude.Action.{modify, raise_if, or_raise, ◌>>=◌, ◌>>◌}
use dynamic_conversion_servi.Prelude.Hoare.{
  Kept, Keeps, Any, Keeps-bind, Keeps-state, modify-Keeps, raise_if-Keeps,
}
use dynamic_conversion_servi.Docker.{ContainerInfo}
use dynamic_conversion_servi.AutoScaler.{ContainerStateChange}
use dynamic_conversion_servi.Redis.Request.{ConversionRequest, WorkerInfo, Workers}
use dynamic_conversion_servi.Redis.Worker.{
  WorkerError, get_worker, or_invalid, no_worker_conversion_id, no_worker_with_request, is_null,
  add_request_to_worker, add_worker,
}
use dynamic_conversion_servi.Redis.Worker.Update.{
  remove_request_from_worker, remove_worker, update_worker_container, last_index_of,
  update_worker_conversion_status, remove_workers, add_workers, update_workers,
}

abbrev pub IsDispatched : ConversionRequest → Type 0
IsDispatched r = is_null r.worker_conversion_id ≡ false

abbrev pub IsValidWorker : String → WorkerInfo → Type 0
IsValidWorker key w = (w.container_info.container_id ≡ key) × All IsDispatched w.requests

abbrev pub IsValid : Workers → Type 0
IsValid [] = Unit
IsValid ((key, w) ∷ ws) = IsValidWorker key w × (lookup key ws ≡ none) × IsValid ws

pub lookup-IsValid :
    (key : String) (ws : Workers) (w : WorkerInfo)
    → IsValid ws
    → lookup key ws ≡ some w
    → IsValidWorker key w
unfolding lookup
lookup-IsValid key [] w v e = cc
lookup-IsValid key ((k, u) ∷ ws) w v e = ground (arith, eq_iff k key, lookup-IsValid key ws w v.2)

pub insert-IsValid :
    (key : String) (w : WorkerInfo) (ws : Workers)
    → IsValid ws
    → IsValidWorker key w
    → IsValid (insert key w ws)
unfolding insert lookup
insert-IsValid key w [] v h = (h, refl, tt)
insert-IsValid key w ((k, u) ∷ ws) v h = elim (Bool-cases (str_eq k key)) [
  | inl same ↦ rw same ((h.0 ∙ sym ((eq_iff k key).0 same), h.1), v.1, v.2)
  | inr differ ↦ rw differ (
    v.0,
    lookup-insert_ne key k w ws (λ e. cc ((eq_iff k key).1 (sym e))) ∙ v.1,
    insert-IsValid key w ws v.2 h,
  )
]

pub erase-IsValid : (key : String) (ws : Workers) → IsValid ws → IsValid (erase key ws)
unfolding erase
erase-IsValid key [] v = tt
erase-IsValid key ((k, u) ∷ ws) v =
    ground (arith, eq_iff k key, eq_iff key k, lookup-erase key k ws, erase-IsValid key ws v.2)

All-append :
    (rs : List ConversionRequest) (r : ConversionRequest)
    → All IsDispatched rs
    → IsDispatched r
    → All IsDispatched (rs ++ r ∷ [])
All-append [] r h p = (p, tt)
All-append (x ∷ rs) r h p = (h.0, All-append rs r h.1 p)

All-filter :
    (p : ConversionRequest → Bool) (rs : List ConversionRequest)
    → All IsDispatched rs
    → All IsDispatched (filter p rs)
All-filter p [] h = tt
All-filter p (x ∷ rs) h = ground (arith, All-filter p rs h.1)

All-set :
    (rs : List ConversionRequest) (i : ℕ) (r : ConversionRequest)
    → All IsDispatched rs
    → IsDispatched r
    → All IsDispatched (set rs i r)
All-set [] i r h p = tt
All-set (x ∷ rs) zero r h p = (p, h.1)
All-set (x ∷ rs) (suc i) r h p = (h.0, All-set rs i r h.1 p)

-- The invariant, with keys that stay present while the loops run.
abbrev pub IsReady : List String → Workers → Type 0
IsReady ids ws = IsValid ws × All (λ id. has id ws ≡ true) ids

insert-covers :
    (key : String) (w : WorkerInfo) (ws : Workers) (ids : List String)
    → All (λ id. has id ws ≡ true) ids
    → All (λ id. has id (insert key w ws) ≡ true) ids
insert-covers key w ws [] h = tt
insert-covers key w ws (id ∷ ids) h =
    (ground (arith, lookup-insert key id w ws), insert-covers key w ws ids h.1)

-- The synchronous methods.
module _ (ids : List String) where
  get_worker-Keeps : (key : String) → Keeps (IsReady ids) (IsValidWorker key) (get_worker key)
  get_worker-Keeps key s v = found (lookup key s) refl
    where
      found :
          (o : Option WorkerInfo)
          → lookup key s ≡ o
          → Kept (IsReady ids) (IsValidWorker key) (or_invalid key o s)
      found none e = v
      found (some w) e = (v, lookup-IsValid key s w v.0 e)

  -- Writing a valid worker keeps the object valid.
  store-Keeps :
      (key : String) (w : WorkerInfo)
      → IsValidWorker key w
      → Keeps {E = WorkerError} (IsReady ids) Any (modify (insert key w))
  store-Keeps key w h =
      modify-Keeps WorkerError (IsReady ids) (insert key w)
        (λ s v. (insert-IsValid key w s v.0 h, insert-covers key w s ids v.1))

  -- A request without a worker conversion id is refused, and the workers stay valid.
  pub add_request_to_worker-Keeps :
      (key : String) (r : ConversionRequest) → Keeps (IsReady ids) Any (add_request_to_worker key r)
  unfolding add_request_to_worker
  add_request_to_worker-Keeps key r =
      Keeps-bind (IsReady ids) (IsValidWorker key) Any (get_worker key) _ (get_worker-Keeps key)
        λ w valid. guarded w valid (is_null r.worker_conversion_id) refl
    where
      guarded :
          (w : WorkerInfo)
          → IsValidWorker key w
          → (b : Bool) → is_null r.worker_conversion_id ≡ b
          → Keeps (IsReady ids) Any (
              raise_if b (no_worker_conversion_id r.external_conversion_id)
              >> modify (insert key (record w { requests = w.requests ++ r ∷ [] })))
      guarded w valid true e s v = v
      guarded w valid false e s v =
          store-Keeps key _ (valid.0, All-append w.requests r valid.1 e) s v

  pub add_worker-Keeps :
      (is_local : Bool) (info : ContainerInfo) → Keeps (IsReady ids) Any (add_worker is_local info)
  unfolding add_worker
  add_worker-Keeps is_local info s v =
      Keeps-bind (IsReady ids) Any Any (raise_if (has info.container_id s) _) _
        (raise_if-Keeps (IsReady ids) _ _) (λ _ _. store-Keeps info.container_id _ (refl, tt)) s v

  pub remove_request_from_worker-Keeps :
      (key id : String) → Keeps (IsReady ids) Any (remove_request_from_worker key id)
  unfolding remove_request_from_worker
  remove_request_from_worker-Keeps key id =
      Keeps-bind (IsReady ids) (IsValidWorker key) Any (get_worker key) _ (get_worker-Keeps key)
        λ w valid. store-Keeps key _ (valid.0, All-filter _ w.requests valid.1)

  -- The new container must be the worker's own.
  pub update_worker_container-Keeps :
      (info : ContainerInfo)
      → Keeps (IsReady ids) Any (update_worker_container info.container_id info)
  unfolding update_worker_container
  update_worker_container-Keeps info =
      Keeps-bind (IsReady ids) (IsValidWorker info.container_id) Any (get_worker info.container_id)
        _ (get_worker-Keeps info.container_id)
        λ w valid. store-Keeps info.container_id _ (refl, valid.1)

  pub update_status-Keeps :
      (key : String) (r : ConversionRequest)
      → IsDispatched r
      → Keeps (IsReady ids) Any (update_worker_conversion_status key r)
  unfolding update_worker_conversion_status
  update_status-Keeps key r p =
      Keeps-bind (IsReady ids) (IsValidWorker key) Any (get_worker key) _ (get_worker-Keeps key)
        λ w valid. at_index w valid (last_index_of r.external_conversion_id 0 none w.requests)
    where
      at_index :
          (w : WorkerInfo)
          → IsValidWorker key w
          → (o : Option ℕ)
          → Keeps (IsReady ids) Any (
              or_raise o (no_worker_with_request key r.external_conversion_id) >>= λ i.
              modify (insert key (record w { requests = set w.requests i r })))
      at_index w valid none s v = v
      at_index w valid (some i) s v =
          store-Keeps key _ (valid.0, All-set w.requests i r valid.1 p) s v

pub remove_worker-Keeps : (key : String) → Keeps (IsReady []) Any (remove_worker key)
unfolding remove_worker
remove_worker-Keeps key =
    Keeps-bind (IsReady []) (IsValidWorker key) Any (get_worker key) _ (get_worker-Keeps [] key)
      λ w valid.
        modify-Keeps WorkerError (IsReady []) (erase key) (λ s v. (erase-IsValid key s v.0, tt))

remove_workers-Keeps : (cs : List ContainerInfo) → Keeps (IsReady []) Any (remove_workers cs)
unfolding remove_workers
remove_workers-Keeps [] = λ s v. (v, tt)
remove_workers-Keeps (c ∷ cs) =
    Keeps-bind (IsReady []) Any Any (remove_worker c.container_id) _
      (remove_worker-Keeps c.container_id) λ _ _. remove_workers-Keeps cs

add_workers-Keeps :
    (is_local : Bool) (cs : List ContainerInfo) → Keeps (IsReady []) Any (add_workers is_local cs)
unfolding add_workers
add_workers-Keeps is_local [] = λ s v. (v, tt)
add_workers-Keeps is_local (c ∷ cs) =
    Keeps-bind (IsReady []) Any Any (add_worker is_local c) _ (add_worker-Keeps [] is_local c)
      λ _ _. add_workers-Keeps is_local cs

pub update_workers-Keeps :
    (is_local : Bool) (change : ContainerStateChange)
    → Keeps (IsReady []) Any (update_workers is_local change)
unfolding update_workers
update_workers-Keeps is_local change =
    Keeps-bind (IsReady []) Any Any (remove_workers change.removed_containers) _
      (remove_workers-Keeps change.removed_containers)
      λ _ _. add_workers-Keeps is_local change.started_containers

-- From valid workers, applying a scaling result leaves the workers valid, whether it throws or not.
pub update_workers-IsValid :
    (is_local : Bool) (change : ContainerStateChange) (ws : Workers)
    → IsValid ws
    → IsValid (update_workers is_local change ws).1
update_workers-IsValid is_local change ws v =
    (Keeps-state (IsReady []) Any (update_workers is_local change)
      (update_workers-Keeps is_local change) ws (v, tt)).0
