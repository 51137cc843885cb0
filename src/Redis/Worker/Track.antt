-- ===== src/Redis/Worker/Track.antt =====
-- Where a request is during `fetchFiles`: assigned to a worker, or recorded as finished.
use dynamic_conversion_servi.Prelude.{
  String, Bool, true, false, not, ◌||◌, Option, none, some, List, [], ◌∷◌, ◌++◌, ◌≡◌, ◌≢◌, refl,
  arith, filter, eq_iff, Bool-cases, Option-cases, inl, inr,
}
use dynamic_conversion_servi.Prelude.Dict.{lookup, insert, values, lookup-insert_self}
use dynamic_conversion_servi.Prelude.Action.{settle, Result, ok, err, raise_if}
use dynamic_conversion_servi.Prelude.Hoare.{
  Ran, raise_if-Keeps, Kept, Keeps, Any, Keeps-bind, Keeps-state,
}
use dynamic_conversion_servi.Redis.Request.{
  ConversionStatus, ConversionRequest, FinishedRequest, WorkerInfo, Workers,
}
use dynamic_conversion_servi.Redis.Formats.{Directory, removed_path}
use dynamic_conversion_servi.Redis.Worker.{
  WorkerError, is_null, has_external_id, get_container_name,
}
use dynamic_conversion_servi.Redis.Worker.Update.{remove_request_from_worker}
use dynamic_conversion_servi.Redis.Worker.Network.{
  Network, HandlerState, Remote, local, remote, try_log,
}
use dynamic_conversion_servi.Redis.Worker.Safe.{IsValidHandler, fetch_files_safe}
use dynamic_conversion_servi.Redis.Worker.Fetch.{
  record_finished, take_back, take_downloaded, fetch_converted, fetch_erroneous, fetch_by_status,
  fetch_one, fetch_requests, fetch_workers, fetch_files, output_path, dropped, returned_array,
}

abbrev pub contains : String → List ConversionRequest → Bool
contains id [] = false
contains id (r ∷ rs) = has_external_id id r || contains id rs

-- Some worker has a request with that external id.
abbrev pub assigned : String → Workers → Bool
assigned id [] = false
assigned id ((key, w) ∷ ws) = contains id w.requests || assigned id ws

-- The worker, if there is one, has a request with that external id.
abbrev pub assigned_at : String → Option WorkerInfo → Bool
assigned_at id none = false
assigned_at id (some w) = contains id w.requests

-- A finished request has that external id.
abbrev pub recorded : String → List FinishedRequest → Bool
recorded id [] = false
recorded id (f ∷ fs) = has_external_id id f.request || recorded id fs

abbrev pub IsTracked : {W : Type 0} → String → HandlerState W → Type 0
IsTracked id s = (assigned id s.workers || recorded id s.finished) ≡ true

recorded-append :
    (id : String) (fs : List FinishedRequest) (f : FinishedRequest)
    → recorded id (fs ++ f ∷ []) ≡ (recorded id fs || has_external_id id f.request)
recorded-append id [] f = ground arith
recorded-append id (x ∷ fs) f = ground (arith, recorded-append id fs f)

contains-filter_ne :
    (id other : String) (rs : List ConversionRequest)
    → other ≢ id
    → contains id (filter (λ r. not (has_external_id other r)) rs) ≡ contains id rs
contains-filter_ne id other [] h = refl
contains-filter_ne id other (r ∷ rs) h = ground (
  arith,
  eq_iff r.external_conversion_id id,
  eq_iff r.external_conversion_id other,
  contains-filter_ne id other rs h,
)

contains-filter_self :
    (id : String) (rs : List ConversionRequest)
    → contains id (filter (λ r. not (has_external_id id r)) rs) ≡ false
contains-filter_self id [] = refl
contains-filter_self id (r ∷ rs) = ground (arith, contains-filter_self id rs)

-- Another request of a worker stays assigned when its list is rewritten to one with the same request.
pub assigned-insert :
    (id key : String) (w u : WorkerInfo) (ws : Workers)
    → lookup key ws ≡ some u
    → contains id w.requests ≡ contains id u.requests
    → assigned id (insert key w ws) ≡ assigned id ws
unfolding lookup insert
assigned-insert id key w u [] e h = cc
assigned-insert id key w u ((k, v) ∷ ws) e h = ground (arith, assigned-insert id key w u ws)

-- A claim about the state alone.
Kept-of_state : {S E : Type 0} (P : S → Type 0) (r : Result E (Unit {0}) × S) → P r.1 → Kept P Any r
Kept-of_state P (ok a, t) h = (h, tt)
Kept-of_state P (err e, t) h = h

module _ {W : Type 0} (net : Network W) where
  abbrev rest_of : String → WorkerInfo → WorkerInfo
  rest_of id w = record w { requests = filter (λ r. not (has_external_id id r)) w.requests }

  -- What `take_back` does for a known worker, by the outcome of the deletion.
  take_back_missing :
      (cid : String) (r : ConversionRequest) (s : HandlerState W)
      → lookup cid s.workers ≡ none
      → (take_back net cid r s).1 ≡ s
  unfolding take_back remove_request_from_worker
  take_back_missing cid r s e = rw e

  pub take_back_deleted :
      (cid : String) (r : ConversionRequest) (s : HandlerState W) (w : WorkerInfo)
      → lookup cid s.workers ≡ some w
      → (net.delete_file (removed_path net.join Directory.input r) s.world).0 ≡ true
      → let t = (take_back net cid r s).1 in
        (t.workers ≡ insert cid (rest_of r.external_conversion_id w) s.workers)
        × ((f : FinishedRequest) × (t.finished ≡ s.finished ++ f ∷ [])
            × (f.request ≡ r)
            × (f.container_id ≡ cid))
  unfolding take_back remove_request_from_worker record_finished
  take_back_deleted cid r s w e d = rw (e, d) (refl, (_, refl, refl, refl))

  pub take_back_undeleted :
      (cid : String) (r : ConversionRequest) (s : HandlerState W) (w : WorkerInfo)
      → lookup cid s.workers ≡ some w
      → (net.delete_file (removed_path net.join Directory.input r) s.world).0 ≡ false
      → let t = (take_back net cid r s).1 in
        (t.workers ≡ insert cid (rest_of r.external_conversion_id w) s.workers)
        × (t.finished ≡ s.finished)
  unfolding take_back remove_request_from_worker record_finished
  take_back_undeleted cid r s w e d = rw (e, d) (refl, refl)

  module _ (deletes : (path : String) (w : W) → (net.delete_file path w).0 ≡ true)
      (id : String) where
    take_back-IsTracked :
        (cid : String) (r : ConversionRequest) → Keeps (IsTracked id) Any (take_back net cid r)
    take_back-IsTracked cid r s v =
        Kept-of_state (IsTracked id) (take_back net cid r s) (by_worker (lookup cid s.workers) refl)
      where
        t : HandlerState W
        t = (take_back net cid r s).1

        moved : (w : WorkerInfo) → lookup cid s.workers ≡ some w → IsTracked id t
        moved w e =
            let (ws, (f, fs, same, _)) = take_back_deleted cid r s w e (deletes _ s.world) in
            rw (ws, fs, recorded-append id s.finished f, same)
              (elim (Bool-cases (has_external_id id r)) [
                | inl mine ↦ ground (arith, mine)
                | inr other ↦
                    rw
                      (
                        assigned-insert id cid (rest_of r.external_conversion_id w) w s.workers e (
                            contains-filter_ne id r.external_conversion_id w.requests
                              (λ same. cc ((eq_iff r.external_conversion_id id).1 same))),
                        other,
                      )
                      (ground (arith, v))
              ])

        by_worker : (o : Option WorkerInfo) → lookup cid s.workers ≡ o → IsTracked id t
        by_worker none e = rw (take_back_missing cid r s e) v
        by_worker (some w) e = moved w e

    logged-Keeps :
        (m : Remote W (Unit {0}))
        → Keeps (IsTracked id) Any m
        → Keeps (IsTracked id) Any (try_log m)
    logged-Keeps m h s v = (Keeps-state (IsTracked id) Any m h s v, tt)

    name-Keeps : (cid : String) → Keeps (IsTracked id) Any (local {W = W} (get_container_name cid))
    unfolding get_container_name
    name-Keeps cid s v = elim (Option-cases (lookup cid s.workers)) [
      | inl missing ↦ rw missing v
      | inr (w, found) ↦ rw found (v, tt)
    ]

    take_downloaded-Keeps :
        (cid : String) (r : ConversionRequest) (downloaded : Bool)
        → Keeps (IsTracked id) Any (take_downloaded net cid r downloaded)
    unfolding take_downloaded
    take_downloaded-Keeps cid r false = λ s v. (v, tt)
    take_downloaded-Keeps cid r true = take_back-IsTracked cid r

    fetch_converted-Keeps :
        (w : WorkerInfo) (r : ConversionRequest)
        → Keeps (IsTracked id) Any (fetch_converted net w r)
    unfolding fetch_converted
    fetch_converted-Keeps w r =
        Keeps-bind (IsTracked id) Any Any (raise_if (is_null r.worker_conversion_id) _) _
          (raise_if-Keeps (IsTracked id) _ _)
          λ _ _.
            Keeps-bind (IsTracked id) Any Any
              (remote (net.download w.worker_url r.worker_conversion_id (output_path net.join r)))
              (λ downloaded.
                try_log (take_downloaded net w.container_info.container_id r downloaded))
              (λ s v. (v, tt))
              λ downloaded _.
                logged-Keeps _ (take_downloaded-Keeps w.container_info.container_id r downloaded)

    fetch_by_status-Keeps :
        (status : ConversionStatus) (w : WorkerInfo) (r : ConversionRequest)
        → Keeps (IsTracked id) Any (fetch_by_status net status w r)
    unfolding fetch_erroneous
    fetch_by_status-Keeps ConversionStatus.converted w r = fetch_converted-Keeps w r
    fetch_by_status-Keeps ConversionStatus.erroneous w r =
        logged-Keeps _ (take_back-IsTracked w.container_info.container_id r)
    fetch_by_status-Keeps _ w r = λ s v. (v, tt)

    fetch_requests-Keeps :
        (w : WorkerInfo) (rs : List ConversionRequest)
        → Keeps (IsTracked id) Any (fetch_requests net w rs)
    unfolding fetch_requests fetch_one
    fetch_requests-Keeps w [] = λ s v. (v, tt)
    fetch_requests-Keeps w (r ∷ rs) =
        Keeps-bind (IsTracked id) Any Any (fetch_one net w r) _
          (Keeps-bind (IsTracked id) Any Any
            (local (get_container_name w.container_info.container_id)) _
            (name-Keeps w.container_info.container_id)
            λ _ _. fetch_by_status-Keeps r.conversion_status w r)
          λ _ _. fetch_requests-Keeps w rs

    fetch_workers-Keeps : (ws : List WorkerInfo) → Keeps (IsTracked id) Any (fetch_workers net ws)
    unfolding fetch_workers
    fetch_workers-Keeps [] = λ s v. (v, tt)
    fetch_workers-Keeps (w ∷ ws) =
        Keeps-bind (IsTracked id) Any Any (fetch_requests net w w.requests) _
          (fetch_requests-Keeps w w.requests) λ _ _. fetch_workers-Keeps ws

-- A call that returned, with the request at a worker or in the array that it returned.
abbrev pub Delivers :
    {W E : Type 0} → String → Result E (List FinishedRequest) × HandlerState W → Type 0
Delivers id (ok fs, t) = (assigned id t.workers || recorded id fs) ≡ true
Delivers id (err e, t) = ⊥

module _ {W : Type 0} (net : Network W) (id : String) where
  delivered :
      (r : Result WorkerError (Unit {0}) × HandlerState W)
      → Kept (IsTracked id) Any r
      → Ran IsValidHandler Any (dropped net (settle (λ _. returned_array net) r))
      → Delivers id (dropped net (settle (λ _. returned_array net) r))
  delivered (ok a, t) tracked ran = tracked.0
  delivered (err e, t) tracked ran = ran

  -- With valid workers, and while every deletion of an input file succeeds, `fetchFiles` returns and loses
  -- no request: whatever the workers answer, each external id that was assigned to a worker before is
  -- afterwards still assigned to one or stands in the list of finished requests that is returned.
  pub fetch_files-tracks :
      ((path : String) (w : W) → (net.delete_file path w).0 ≡ true)
      → (s : HandlerState W) → IsValidHandler s
      → assigned id s.workers ≡ true
      → Delivers id (fetch_files net s)
  unfolding fetch_files
  fetch_files-tracks deletes s valid h =
      delivered (fetch_workers net (values s.workers) (record s { finished = [] }))
        (fetch_workers-Keeps net deletes id (values s.workers) (record s { finished = [] })
          (rw h refl))
        (fetch_files_safe net s valid)

-- When the deletion of the input file fails, the request is lost: `fetchFiles` has already taken it
-- from its worker, and it is not recorded as finished.
pub take_back-loses :
    {W : Type 0} (net : Network W) (cid : String) (r : ConversionRequest) (s : HandlerState W)
    (w : WorkerInfo)
    → lookup cid s.workers ≡ some w
    → (net.delete_file (removed_path net.join Directory.input r) s.world).0 ≡ false
    → (assigned_at r.external_conversion_id (lookup cid (take_back net cid r s).1.workers) ≡ false)
      × ((take_back net cid r s).1.finished ≡ s.finished)
take_back-loses net cid r s w e d =
    let (ws, fs) = take_back_undeleted net cid r s w e d in
    (
      rw (ws, lookup-insert_self cid (rest_of net r.external_conversion_id w) s.workers)
          (contains-filter_self r.external_conversion_id w.requests),
      fs,
    )
