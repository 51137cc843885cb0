-- ===== src/Redis/Service/Lifetime.antt =====
-- packages/redis/src/service.ts: how long `checkFileTtl` keeps a finished request.
use dynamic_conversion_servi.Prelude.{
  ℕ, ◌*◌, ◌-◌, String, Bool, true, false, not, ◌&&◌, Option, none, some, List, [], ◌∷◌, ◌≡◌, refl,
  sym, ap, ◌∙◌, arith, ltb, str_eq, eq_iff, if◌then◌else◌,
}
use dynamic_conversion_servi.Prelude.Dict.{
  Dict, lookup, insert, erase, values, has, lookup-insert, lookup-erase,
}
use dynamic_conversion_servi.Prelude.Action.{Result, ok, err, settle, pure, ◌>>=◌, ◌>>◌}
use dynamic_conversion_servi.Redis.Request.{FinishedRequest}
use dynamic_conversion_servi.Docker.Names.{first_part}
use dynamic_conversion_servi.Redis.Worker.{get_requests}
use dynamic_conversion_servi.Redis.Service.{
  Environment, ServiceConfiguration, ServiceState, ServiceError, Service, outside,
}
use dynamic_conversion_servi.Redis.Service.Loop.{
  clean_file, clean_files, remove_orphans, clean_output, check_file_ttl, store_finished, is_over,
  erase_finished, any_request,
}

-- Every finished request is filed once, under its id.
abbrev pub IsFiled : Dict FinishedRequest → Type 0
IsFiled [] = Unit
IsFiled ((id, f) ∷ rest) =
    (f.request.external_conversion_id ≡ id) × (lookup id rest ≡ none) × IsFiled rest

abbrev IsDone :
    {W E : Type 0}
    → Result (ServiceError E) (Unit {0}) × ServiceState W
    → Dict FinishedRequest
    → Type 0
IsDone (r, s) finished = (r ≡ ok tt) × (s.finished_request ≡ finished)

then-IsDone :
    {W E : Type 0} (k : Service W E (Unit {0}))
    (p : Result (ServiceError E) (Unit {0}) × ServiceState W) (finished : Dict FinishedRequest)
    → p.0 ≡ ok tt
    → IsDone (k p.1) finished
    → IsDone (settle (λ _. k) p) finished
then-IsDone k (ok a, t) finished h done = done
then-IsDone k (err e, t) finished h done = absurd cc

-- After a step that returned, the next one runs.
then_returned :
    {W E : Type 0} (k : Service W E (Unit {0}))
    (p : Result (ServiceError E) (Unit {0}) × ServiceState W)
    → p.0 ≡ ok tt
    → settle (λ _. k) p ≡ k p.1
then_returned k (ok a, t) h = refl
then_returned k (err e, t) h = absurd cc

module _ {W E : Type 0} (environment : Environment W E) (config : ServiceConfiguration) where
  abbrev pub expired : ℕ → FinishedRequest → Bool
  expired now f = ltb (config.file_ttl * 1000) (now - f.finished_time)

  abbrev cleaned : ℕ → FinishedRequest → Dict FinishedRequest → Dict FinishedRequest
  cleaned now f dict = if expired now f then erase f.request.external_conversion_id dict else dict

  -- The loop over the finished requests erases one after the other.
  abbrev all_cleaned : ℕ → List FinishedRequest → Dict FinishedRequest → Dict FinishedRequest
  all_cleaned now [] dict = dict
  all_cleaned now (f ∷ fs) dict = all_cleaned now fs (cleaned now f dict)

  module _
      (deletes : (path : String) (w : W) → (environment.network.delete_file path w).0 ≡ true) where
    by_flags :
        (old over : Bool) (path id : String) (s : ServiceState W)
        → IsDone
            ((if old
                then ((if over then outside (environment.network.delete_file path) else pure true)
                    >>= erase_finished environment config id)
                else pure tt)
              s)
            (if old then erase id s.finished_request else s.finished_request)
    by_flags true true path id s = rw (deletes path s.world) (refl, refl)
    by_flags true false path id s = (refl, refl)
    by_flags false over path id s = (refl, refl)

    clean_file-IsDone :
        (now : ℕ) (f : FinishedRequest) (s : ServiceState W)
        → IsDone (clean_file environment config now f s) (cleaned now f s.finished_request)
    unfolding clean_file
    clean_file-IsDone now f s = by_flags (expired now f) (is_over f.request.conversion_status) _ _ s

    clean_files-IsDone :
        (now : ℕ) (fs : List FinishedRequest) (s : ServiceState W)
        → IsDone (clean_files environment config now fs s) (all_cleaned now fs s.finished_request)
    unfolding clean_files
    clean_files-IsDone now [] s = (refl, refl)
    clean_files-IsDone now (f ∷ fs) s =
        let (returned, erased) = clean_file-IsDone now f s in
        let (rest, done) = clean_files-IsDone now fs (clean_file environment config now f s).1 in
        then-IsDone (clean_files environment config now fs) (clean_file environment config now f s)
          _ returned (rest, done ∙ ap (all_cleaned now fs) erased)

    abbrev is_orphaned : String → ServiceState W → Bool
    is_orphaned file s =
        let id = first_part b'.' file in
        not (any_request environment config id (get_requests s.workers))
        && not (has id s.finished_request)

    orphan-IsDone :
        (orphaned : Bool) (file : String) (s : ServiceState W)
        → IsDone {E = E}
            ((if orphaned then (outside (environment.delete_orphan file) >> pure tt) else pure tt)
              s)
            s.finished_request
    orphan-IsDone true file s = (refl, refl)
    orphan-IsDone false file s = (refl, refl)

    remove_orphans-IsDone :
        (files : List String) (s : ServiceState W)
        → IsDone (remove_orphans environment config files s) s.finished_request
    unfolding remove_orphans
    remove_orphans-IsDone [] s = (refl, refl)
    remove_orphans-IsDone (file ∷ files) s =
        let first = orphan-IsDone (is_orphaned file s) file s in
        let rest = remove_orphans-IsDone files _ in
        then-IsDone (remove_orphans environment config files) _ s.finished_request first.0
          (rest.0, rest.1 ∙ first.1)

  abbrev pub gone : ℕ → Option FinishedRequest → Bool
  gone now none = false
  gone now (some f) = expired now f

  lookup-cleaned :
      (now : ℕ) (key id : String) (f : FinishedRequest) (dict : Dict FinishedRequest)
      → f.request.external_conversion_id ≡ key
      → lookup id (cleaned now f dict)
        ≡ (if expired now f && str_eq key id then none else lookup id dict)
  lookup-cleaned now key id f dict own =
      ap (λ k. lookup id (if expired now f then erase k dict else dict)) own
      ∙ ground (arith, lookup-erase key id dict)

  if_and_true :
      (b : Bool) (o : Option FinishedRequest)
      → (if b && true then none else o) ≡ (if b then none else o)
  if_and_true true o = refl
  if_and_true false o = refl

  if_and_false : (b : Bool) (o : Option FinishedRequest) → (if b && false then none else o) ≡ o
  if_and_false true o = refl
  if_and_false false o = refl

  -- Of the requests that are filed, those of this id are cleaned and no others.
  lookup-all_cleaned :
      (filed dict : Dict FinishedRequest) (now : ℕ) (id : String)
      → IsFiled filed
      → lookup id (all_cleaned now (values filed) dict)
        ≡ (if gone now (lookup id filed) then none else lookup id dict)
  unfolding lookup
  lookup-all_cleaned [] dict now id h = refl
  lookup-all_cleaned ((key, f) ∷ filed) dict now id (own, once, h) =
      lookup-all_cleaned filed (cleaned now f dict) now id h
      ∙ ap (λ o. if gone now (lookup id filed) then none else o)
          (lookup-cleaned now key id f dict own)
      ∙ by_key (str_eq key id) refl
    where
      by_key :
          (same : Bool)
          → str_eq key id ≡ same
          → (if gone now (lookup id filed)
              then none
              else if expired now f && same
              then none
              else lookup id dict)
            ≡ (if gone now (if same then some f else lookup id filed) then none else lookup id dict)
      by_key true e =
          ap
            (λ o.
              if gone now o then none else if expired now f && true then none else lookup id dict)
            (ap (λ k. lookup k filed) (sym ((eq_iff key id).0 e)) ∙ once)
          ∙ if_and_true (expired now f) (lookup id dict)
      by_key false e =
          ap (λ o. if gone now (lookup id filed) then none else o)
            (if_and_false (expired now f) (lookup id dict))

  -- How `checkFileTtl` ends, by what the reading of the output directory answers.
  abbrev pub end_of : Option (List String) → Result (ServiceError E) (Unit {0})
  end_of none = err ServiceError.directory_error
  end_of (some files) = ok tt

  module _
      (deletes : (path : String) (w : W) → (environment.network.delete_file path w).0 ≡ true) where
    clean_output-end_of :
        (files : Option (List String)) (s : ServiceState W)
        → let r = clean_output environment config files s in
          (r.0 ≡ end_of files) × (r.1.finished_request ≡ s.finished_request)
    clean_output-end_of none s = (refl, refl)
    clean_output-end_of (some files) s = remove_orphans-IsDone deletes files s

    -- While deletions succeed and every finished request is filed once under its id, checkFileTtl removes
    -- a finished request exactly if the time since it was finished exceeds the time to live, and leaves
    -- every other one; then it returns if the output directory, as the deletions left it, can be read,
    -- and throws otherwise.
    pub check_file_ttl-lifetime :
        (s : ServiceState W) (id : String)
        → IsFiled s.finished_request
        → let (now, w) = environment.network.now s.world in
          let r : Result (ServiceError E) (Unit {0}) × ServiceState W =
            check_file_ttl environment config s in
          let cleaning =
            clean_files environment config now
              (values s.finished_request)
              (record s { world = w }) in
          (r.0 ≡ end_of (environment.read_output cleaning.1.world).0)
          × (lookup id r.1.finished_request ≡ (
              if gone now (lookup id s.finished_request)
              then none
              else lookup id s.finished_request))
    unfolding check_file_ttl
    check_file_ttl-lifetime s id h =
        let now = (environment.network.now s.world).0 in
        let started : ServiceState W = record s { world = (environment.network.now s.world).1 } in
        let cleaning = clean_files environment config now (values s.finished_request) started in
        let cleared = clean_files-IsDone deletes now (values s.finished_request) started in
        let (files, w) = environment.read_output cleaning.1.world in
        let ended = clean_output-end_of files (record cleaning.1 { world = w }) in
        let all =
          then_returned (outside environment.read_output >>= clean_output environment config)
            cleaning cleared.0 in
        (
          ap (λ r. r.0) all ∙ ended.0,
          ap (λ r. lookup id r.1.finished_request) all
              ∙ ap (lookup id) (ended.1 ∙ cleared.1)
              ∙ lookup-all_cleaned s.finished_request s.finished_request now id h,
        )

-- The probe files a request under its id.
insert-IsFiled :
    (f : FinishedRequest) (dict : Dict FinishedRequest)
    → IsFiled dict
    → IsFiled (insert f.request.external_conversion_id f dict)
unfolding insert lookup
insert-IsFiled f [] h = (refl, refl, tt)
insert-IsFiled f ((key, g) ∷ rest) (own, once, h) =
    by_key (str_eq key f.request.external_conversion_id) refl (insert-IsFiled f rest h)
  where
    by_key :
        (same : Bool)
        → str_eq key f.request.external_conversion_id ≡ same
        → IsFiled (insert f.request.external_conversion_id f rest)
        → IsFiled (
            if same
            then (key, f) ∷ rest
            else (key, g) ∷ insert f.request.external_conversion_id f rest)
    by_key true e later = (sym ((eq_iff key f.request.external_conversion_id).0 e), once, h)
    by_key false e later = (
      own,
      ground (
        arith,
        e,
        once,
        eq_iff key f.request.external_conversion_id,
        eq_iff f.request.external_conversion_id key,
        lookup-insert f.request.external_conversion_id key f rest,
      ),
      later,
    )

module _ {W E : Type 0} (environment : Environment W E) (config : ServiceConfiguration) where
  pub store_finished-IsFiled :
      (fs : List FinishedRequest) (s : ServiceState W)
      → IsFiled s.finished_request
      → IsFiled (store_finished environment config fs s).finished_request
  store_finished-IsFiled [] s h = h
  store_finished-IsFiled (f ∷ fs) s h =
      store_finished-IsFiled fs _ (insert-IsFiled f s.finished_request h)
