-- ===== src/Redis/Rest/Laws.antt =====
-- What the handlers of packages/redis/src/api/rest/conversion/index.ts answer.
use dynamic_conversion_servi.Prelude.{
  String, Bool, true, false, not, ◌&&◌, Option, get_or, none, some, ◌≡◌, ◌↔◌, ◌⊎◌, inl, inr, refl,
  ap, if◌then◌else◌,
}
use mathlib.Core.Path.{subst}
use dynamic_conversion_servi.Prelude.Dict.{lookup, lookup-insert_self}
use dynamic_conversion_servi.Prelude.Action.{Result, ok, err}
use dynamic_conversion_servi.Prelude.After.{After}
use dynamic_conversion_servi.Redis.Request.{RequestBody, ConversionRequest}
use dynamic_conversion_servi.Redis.Formats.{FormatError, get_ext}
use dynamic_conversion_servi.Redis.Service.{
  Environment, ServiceConfiguration, ServiceState, ServiceError, add_request_to_queue,
  get_conversion_result, or_queued, or_finished,
}
use dynamic_conversion_servi.Redis.Worker.{worker_conversion_result}
use dynamic_conversion_servi.Redis.Service.Frame.{add_request-After}
use dynamic_conversion_servi.Conversion.{Status}
use dynamic_conversion_servi.Redis.Rest.{
  StatusBody, Files, Accepted, found, not_found, queued_request, answered, written, with_extension,
  convert_file, status_body, answer_for, get_converted_file, is_converted, output_file, with_file,
}

-- The status of a request that waits.
abbrev pub waiting_body : String → RequestBody → StatusBody
waiting_body id form = record {
  conversion_id = id;
  path = "";
  retries = 0;
  source_format = some (get_or form.original_format "");
  status = Status.in_queue;
  target_format = form.target_format;
  result_file = none;
}

module _ {W E : Type 0} (environment : Environment W E) (config : ServiceConfiguration)
    (files : Files W) where
  -- The id is queued with this request.
  abbrev Queued : String → RequestBody → Accepted × ServiceState W → Type 0
  Queued id form (Accepted.processing_response given, t) =
      (given ≡ id) × (lookup id t.requests_in_queue ≡ some (queued_request id form))
  Queued id form (Accepted.internal_server_error, t) = Unit

  answered-Queued :
      (id : String) (form : RequestBody) (p : Result (ServiceError E) (Unit {0}) × ServiceState W)
      → After (λ _. Unit) (λ _ t. lookup id t.requests_in_queue ≡ some (queued_request id form)) p
      → Queued id form (answered environment config files id p)
  answered-Queued id form (ok a, t) h = (refl, h)
  answered-Queued id form (err e, t) h = tt

  written-Queued :
      (id : String) (form : RequestBody) (resolved : Bool) (s : ServiceState W)
      → Queued id form (written environment config files id form resolved s)
  written-Queued id form false s = tt
  written-Queued id form true s =
      answered-Queued id form (add_request_to_queue environment config (queued_request id form) s) (
        add_request-After environment config (λ ws q. Unit)
          (λ ws q. lookup id q ≡ some (queued_request id form)) (λ ws q m. tt)
          (queued_request id form) s tt
          (lookup-insert_self id (queued_request id form) s.requests_in_queue))

  extension-Queued :
      (id : String) (form : RequestBody) (ext : Result FormatError String) (s : ServiceState W)
      → Queued id form (with_extension environment config files id form ext s)
  extension-Queued id form (err e) s = tt
  extension-Queued id form (ok ext) s = written-Queued id form _ _

  -- An accepted request is in the queue: when `convertFile` answers with an id, asking for the status of
  -- that id, in either version, answers that the request is in the queue, with the formats of the form.
  pub accepted_is_found :
      (form : RequestBody) (is_v2 : Bool) (id : String) (s : ServiceState W)
      → (convert_file environment config files (some form) s).0 ≡ Accepted.processing_response id
      → let t = (convert_file environment config files (some form) s).1 in
        get_converted_file environment config files is_v2 id t ≡ (found (waiting_body id form), t)
  unfolding convert_file get_converted_file get_conversion_result
  accepted_is_found form is_v2 id s accepted =
      by_queued (files.uuid s.world).0
        (with_extension environment config files (files.uuid s.world).0 form
          (get_ext environment.network.extname form.filename form.original_format)
          (record s { world = (files.uuid s.world).1 }))
        (extension-Queued (files.uuid s.world).0 form _ _) accepted
    where
      by_queued :
          (made : String) (p : Accepted × ServiceState W)
          → Queued made form p
          → p.0 ≡ Accepted.processing_response id
          → get_converted_file environment config files is_v2 id p.1
            ≡ (found (waiting_body id form), p.1)
      by_queued made (Accepted.internal_server_error, t) h same = absurd (cc)
      by_queued made (Accepted.processing_response given, t) (is, queued) same =
          let eq : made ≡ id = cc in
          let at : lookup id t.requests_in_queue ≡ some (queued_request id form) =
            subst (λ k. lookup k t.requests_in_queue ≡ some (queued_request k form)) eq queued in
          ap
            (λ o.
              answer_for environment config files is_v2 id
                (or_queued o (
                  or_finished (lookup id t.finished_request)
                    (worker_conversion_result id t.workers)))
                t)
            at

  missing_iff :
      (id : String) (r : ConversionRequest) (s : ServiceState W) (b : Bool) (o : Option String × W)
      → ((if b
            then with_file environment config files id r o s
            else (found (status_body environment config files id r), s)).0
          ≡ not_found)
        ↔ ((b ≡ true) × (o.0 ≡ none))
  missing_iff id r s true (none, w) = (λ e. (refl, refl), λ h. refl)
  missing_iff id r s true (some contents, w) = (λ e. absurd (cc), λ h. absurd (cc))
  missing_iff id r s false o = (λ e. absurd (cc), λ h. absurd (cc))

  -- The status of an id is answered with "not found" exactly when the id is unknown, or when version 1
  -- is asked for a converted request whose result cannot be read.
  pub not_found_iff :
      (is_v2 : Bool) (id : String) (s : ServiceState W)
      → ((get_converted_file environment config files is_v2 id s).0 ≡ not_found) ↔ (
          (get_conversion_result id s ≡ none)
          ⊎ ((r : ConversionRequest) × (get_conversion_result id s ≡ some r)
              × ((is_converted r.conversion_status && not is_v2) ≡ true)
              × ((files.read_file (output_file id r.conversion_request_body) s.world).0 ≡ none)))
  unfolding get_converted_file
  not_found_iff is_v2 id s = by_request (get_conversion_result id s)
    where
      by_request :
          (o : Option ConversionRequest)
          → ((answer_for environment config files is_v2 id o s).0 ≡ not_found) ↔ (
              (o ≡ none)
              ⊎ ((r : ConversionRequest) × (o ≡ some r)
                  × ((is_converted r.conversion_status && not is_v2) ≡ true)
                  × ((files.read_file (output_file id r.conversion_request_body) s.world).0
                      ≡ none)))
      by_request none = (λ e. inl refl, λ h. refl)
      by_request (some r) =
          let b = is_converted r.conversion_status && not is_v2 in
          let o = files.read_file (output_file id r.conversion_request_body) s.world in
          (
            λ e. let (asked, unread) = (missing_iff id r s b o).0 e in inr (r, refl, asked, unread),
            λ h. elim h [
              | inl none_there ↦ absurd (cc)
              | inr (x, same, asked, unread) ↦
                  let eq : x ≡ r = cc in
                  (missing_iff id r s b o).1 (
                    subst
                      (λ (y : ConversionRequest).
                        ((is_converted y.conversion_status && not is_v2) ≡ true)
                        × ((files.read_file (output_file id y.conversion_request_body) s.world).0
                            ≡ none))
                      eq (asked, unread))
            ],
          )
