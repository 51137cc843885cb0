-- ===== src/Redis/Service/Rescue.antt =====
-- packages/redis/src/service.ts: what `checkHealth` does with the requests of unhealthy workers.
use dynamic_conversion_servi.Prelude.{
  String, Bool, true, not, ◌||◌, none, some, List, [], ◌∷◌, ◌≡◌, refl, ap, arith, eq_iff,
  Option-cases, inl, inr,
}
use dynamic_conversion_servi.Prelude.Dict.{Dict, lookup, insert, erase, has, lookup-insert}
use dynamic_conversion_servi.Prelude.After.{After}
use dynamic_conversion_servi.Docker.{ContainerInfo}
use dynamic_conversion_servi.Redis.Request.{ConversionRequest, WorkerInfo, Workers}
use dynamic_conversion_servi.Redis.Worker.{
  get_requests_from_worker, get_container_name, has_external_id,
}
use dynamic_conversion_servi.Redis.Worker.Update.{remove_worker, update_worker_container}
use dynamic_conversion_servi.Redis.Worker.Valid.{
  IsValid, erase-IsValid, insert-IsValid, lookup-IsValid,
}
use dynamic_conversion_servi.Redis.Worker.Track.{contains, assigned, assigned-insert}

-- The request is at a worker of a valid object, or queued; with `free`, the object is valid.
abbrev pub IsHeld : Bool → String → Workers → Dict ConversionRequest → Type 0
IsHeld free id ws q = IsValid ws × ((free || (assigned id ws || has id q)) ≡ true)

pub has-insert :
    (id : String) (r : ConversionRequest) (q : Dict ConversionRequest)
    → has id (insert r.external_conversion_id r q) ≡ (has_external_id id r || has id q)
has-insert id r q = ground (arith, lookup-insert r.external_conversion_id id r q)

assigned-erase-none :
    (id key : String) (ws : Workers)
    → lookup key ws ≡ none
    → assigned id (erase key ws) ≡ assigned id ws
unfolding lookup erase
assigned-erase-none id key [] e = refl
assigned-erase-none id key ((k, v) ∷ ws) e = ground (arith, assigned-erase-none id key ws)

-- Removing a worker of a valid object loses no request but the worker's own.
assigned-erase :
    (id key : String) (w : WorkerInfo) (ws : Workers)
    → IsValid ws
    → lookup key ws ≡ some w
    → (assigned id (erase key ws) || contains id w.requests)
      ≡ (assigned id ws || contains id w.requests)
unfolding lookup erase
assigned-erase id key w [] v e = cc
assigned-erase id key w ((k, u) ∷ ws) v e =
    ground (arith, eq_iff k key, assigned-erase-none id key ws, assigned-erase id key w ws v.2)

-- While the requests of the worker `key` are queued again: those not yet done are `rest`.
abbrev pub IsMoving :
    Bool
    → String
    → String
    → List ConversionRequest
    → List ConversionRequest
    → Workers
    → Dict ConversionRequest
    → Type 0
IsMoving free id key all rest ws q =
    IsHeld free id ws q
    × ((w : WorkerInfo) × (lookup key ws ≡ some w) × (w.requests ≡ all))
    × ((not (contains id all) || (contains id rest || has id q)) ≡ true)

pub get_requests-After :
    (free : Bool) (id key : String) (ws : Workers) (q : Dict ConversionRequest)
    → IsHeld free id ws q
    → After
        (λ us. IsHeld free id us q)
        (λ rs us. IsMoving free id key rs rs us q)
        (get_requests_from_worker key ws)
unfolding get_requests_from_worker
get_requests-After free id key ws q h = elim (Option-cases (lookup key ws)) [
  | inl missing ↦ rw missing h
  | inr (w, found) ↦ rw found (h, (w, found, refl), ground arith)
]

module _ (key : String) (F G : Workers → Type 0) where
  pub name-After : (ws : Workers) → F ws → G ws → After F (λ _. G) (get_container_name key ws)
  unfolding get_container_name
  name-After ws h k = elim (Option-cases (lookup key ws)) [
    | inl missing ↦ rw missing h
    | inr (w, found) ↦ rw found k
  ]

pub remove_worker-After :
    (free : Bool) (id key : String) (all : List ConversionRequest) (ws : Workers)
    (q : Dict ConversionRequest)
    → IsMoving free id key all [] ws q
    → After (λ us. IsHeld free id us q) (λ _ us. IsHeld free id us q) (remove_worker key ws)
unfolding remove_worker
remove_worker-After free id key all ws q (held, (w, found, same), moved) = rw found (
  erase-IsValid key ws held.0,
  ground (arith, assigned-erase id key w ws held.0 found, held.1, moved, ap (contains id) same),
)

pub update_container-After :
    (free : Bool) (id : String) (c : ContainerInfo) (ws : Workers) (q : Dict ConversionRequest)
    → IsHeld free id ws q
    → After
        (λ us. IsHeld free id us q)
        (λ _ us. IsHeld free id us q)
        (update_worker_container c.container_id c ws)
unfolding update_worker_container
update_container-After free id c ws q held = elim (Option-cases (lookup c.container_id ws)) [
  | inl missing ↦ rw missing held
  | inr (w, found) ↦ rw found (
    insert-IsValid c.container_id (record w { container_info = c }) ws held.0
        (refl, (lookup-IsValid c.container_id ws w held.0 found).1),
    ground (
      arith,
      held.1,
      assigned-insert id c.container_id (record w { container_info = c }) w ws found refl,
    ),
  )
]
