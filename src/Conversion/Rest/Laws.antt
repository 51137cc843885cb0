-- ===== src/Conversion/Rest/Laws.antt =====
-- What the handlers of packages/conversion-service/src/controller/conversion/index.ts answer.
use mathlib.Core.Path.{subst}
use dynamic_conversion_servi.Prelude.{
  String, Bool, true, false, Option, none, some, ◌≡◌, ◌⊎◌, inl, inr, refl, sym, ap, ◌∙◌, arith,
  Bool-cases, Option-cases, str_eq, eq_iff, get_or, ltb, if◌then◌else◌,
}
use dynamic_conversion_servi.Prelude.Dict.{lookup, lookup-insert, lookup-insert_self}
use dynamic_conversion_servi.Prelude.Action.{Result, ok, err}
use dynamic_conversion_servi.Conversion.{
  Status, ConversionFile, LogEntry, ConversionFault, ConversionConfig, QueueState,
}
use dynamic_conversion_servi.Conversion.Queue.{
  StatusResponse, add_to_queue, change_conv_log_entry, get_status_by_id, response, first_of,
  rest_of,
}
use dynamic_conversion_servi.Conversion.Rounds.{logged}
use dynamic_conversion_servi.Conversion.Events.{
  Machine, begun, started, start_next, take_next, submit,
}
use dynamic_conversion_servi.Conversion.FileIo.{FileSystem}
use dynamic_conversion_servi.Conversion.Requests.{
  Intake, Upload, Processed, conversion_file, without_dot, supports_conversion, stored,
  process_conversion_request,
}
use dynamic_conversion_servi.Conversion.Rest.{
  Form, upload_of, Accepted, processing_response, internal_server_error, handle_error, accept,
  convert_file, found, Files, status_answer, get_converted_file,
}

-- The file is logged, as waiting or as being converted.
abbrev pub IsPending : ConversionFile → QueueState → Type 0
IsPending f q =
    (s : Status) × (lookup f.conversion_id q.conv_log ≡ some (record { file = f; status = s }))
    × ((s ≡ Status.in_queue) ⊎ (s ≡ Status.processing))

abbrev as_processing : Option LogEntry → Option LogEntry
as_processing none = none
as_processing (some e) = some (record e { status = Status.processing })

module _ (f : ConversionFile) where
  logged-IsPending :
      (id : String) (e : LogEntry) (q : QueueState)
      → lookup id q.conv_log ≡ some e
      → IsPending f q
      → IsPending f (logged id (record e { status = Status.processing }) q)
  logged-IsPending id e q known (s, held, waits) = elim (Bool-cases (str_eq id f.conversion_id)) [
    | inl hit ↦ (
      Status.processing,
      lookup-insert id f.conversion_id (record e { status = Status.processing }) q.conv_log
          ∙ rw hit (
              ap as_processing (
                sym known
                ∙ ap (λ k. lookup k q.conv_log) ((eq_iff id f.conversion_id).0 hit)
                ∙ held)),
      inr refl,
    )
    | inr miss ↦ (
      s,
      lookup-insert id f.conversion_id (record e { status = Status.processing }) q.conv_log
          ∙ rw miss held,
      waits,
    )
  ]

  processing-IsPending :
      (id : String) (q : QueueState)
      → IsPending f q
      → IsPending f (change_conv_log_entry id Status.processing none q).1
  unfolding change_conv_log_entry
  processing-IsPending id q h = elim (Option-cases (lookup id q.conv_log)) [
    | inl unknown ↦ rw unknown h
    | inr (e, known) ↦ rw known (logged-IsPending id e q known h)
  ]

  started_queue :
      (g : ConversionFile) (r : Result ConversionFault (Unit {0}) × QueueState)
      → (started g r).queue ≡ r.1
  started_queue g (ok a, q) = refl
  started_queue g (err e, q) = refl

  start_next-IsPending :
      (o : Option ConversionFile) (q : QueueState)
      → IsPending f q
      → IsPending f (start_next o q).queue
  start_next-IsPending none q h = h
  start_next-IsPending (some g) q h =
      subst (IsPending f)
        (sym (
          started_queue g
            (change_conv_log_entry g.conversion_id Status.processing none (begun g q))))
        (processing-IsPending g.conversion_id (begun g q) h)

  fits : (config : ConversionConfig) → f.retries ≡ 0 → ltb config.conversion_tries f.retries ≡ false
  fits config none_yet = ground arith

  -- A request without tries is logged when it is added.
  added-IsPending :
      (config : ConversionConfig) (q : QueueState)
      → f.retries ≡ 0
      → IsPending f (add_to_queue config f q).1
  unfolding add_to_queue
  added-IsPending config q none_yet = rw (fits config none_yet) (
    Status.in_queue,
    lookup-insert_self f.conversion_id (record { file = f; status = Status.in_queue }) q.conv_log,
    inl refl,
  )

  next-IsPending :
      (m : Machine) (busy : Bool) (q : QueueState)
      → IsPending f q
      → IsPending f (if busy then record m { queue = q } else take_next q).queue
  unfolding take_next
  next-IsPending m true q h = h
  next-IsPending m false q h =
      start_next-IsPending (first_of q.conversion) (record q { conversion = rest_of q.conversion })
        h

  submit-IsPending :
      (config : ConversionConfig) (m : Machine)
      → f.retries ≡ 0
      → IsPending f (submit config f m).queue
  submit-IsPending config m none_yet =
      let q : QueueState = (add_to_queue config f m.queue).1 in
      next-IsPending m q.is_converting q (added-IsPending config m.queue none_yet)

module _ {W : Type 0} (fs : FileSystem W) (files : Files W) where
  pending_found :
      (id : String) (r : StatusResponse) (is_v2 : Bool) (w : W)
      → status_answer fs files is_v2 id Status.in_queue r w ≡ found r
  pending_found id r true w = refl
  pending_found id r false w = refl

  running_found :
      (id : String) (r : StatusResponse) (is_v2 : Bool) (w : W)
      → status_answer fs files is_v2 id Status.processing r w ≡ found r
  running_found id r true w = refl
  running_found id r false w = refl

  -- The status of an id whose request is logged and not over.
  pending_answer :
      (f : ConversionFile) (q : QueueState) (is_v2 : Bool) (w : W)
      → IsPending f q
      → (r : StatusResponse) × (get_converted_file fs files is_v2 f.conversion_id q w ≡ found r)
        × (r.entry.file ≡ f)
        × ((r.entry.status ≡ Status.in_queue) ⊎ (r.entry.status ≡ Status.processing))
  unfolding get_converted_file get_status_by_id
  pending_answer f q is_v2 w (s, held, inl waits) =
      let entry : LogEntry = record { file = f; status = Status.in_queue } in
      (
        response f.conversion_id entry q,
        rw (held, waits) (pending_found f.conversion_id _ is_v2 w),
        refl,
        inl refl,
      )
  pending_answer f q is_v2 w (s, held, inr runs) =
      let entry : LogEntry = record { file = f; status = Status.processing } in
      (
        response f.conversion_id entry q,
        rw (held, runs) (running_found f.conversion_id _ is_v2 w),
        refl,
        inr refl,
      )

module _ {W : Type 0} (intake : Intake W) (config : ConversionConfig) (id : String) where
  -- An accepted request is the one that is logged.
  abbrev IsAccepted : ConversionFile → Accepted × Machine → Type 0
  IsAccepted f (a, m) = a ≡ processing_response id → (f.conversion_id ≡ id) × IsPending f m.queue

  abbrev id_of : Accepted → String
  id_of (processing_response given) = given
  id_of internal_server_error = ""

  by_answers :
      (f : ConversionFile) (m : Machine) (supported resolved : Bool) (w1 w3 : W)
      → f.retries ≡ 0
      → let r : (Processed × Machine) × W =
          if supported
          then (stored intake config f resolved m, w3)
          else ((Processed.unsupported_conversion_format, m), w1) in
        IsAccepted f (handle_error r.0.0, r.0.1)
  by_answers f m true true w1 w3 none_yet h = (ap id_of h, submit-IsPending f config m none_yet)
  by_answers f m true false w1 w3 none_yet h = absurd cc
  by_answers f m false resolved w1 w3 none_yet h = absurd cc

  module _ (upload : Upload) (m : Machine) (w : W) where
    abbrev source : String
    source = without_dot (get_or upload.original_format "")

    abbrev target : String
    target = without_dot upload.target_format

    abbrev new_id : String
    new_id = (intake.uuid (supports_conversion intake config source target w).1).0

    process-IsAccepted :
        IsAccepted (conversion_file new_id source target) (accept intake config (some upload) m w).0
    unfolding process_conversion_request
    process-IsAccepted = by_answers (conversion_file new_id source target) m _ _ _ _ refl

module _ {W : Type 0} (intake : Intake W) (config : ConversionConfig) (fs : FileSystem W)
    (files : Files W) where
  -- What is answered for the id.
  abbrev pub IsFound : Bool → W → QueueState → Form → String → Type 0
  IsFound is_v2 w q form id =
      (r : StatusResponse) × (get_converted_file fs files is_v2 id q w ≡ found r)
      × (r.entry.file
          ≡ conversion_file id (without_dot (get_or form.original_format ""))
              (without_dot form.target_format))
      × ((r.entry.status ≡ Status.in_queue) ⊎ (r.entry.status ≡ Status.processing))

  by_form :
      (form : Form) (failed : Bool) (file : Option (String × String)) (m : Machine) (w : W)
      (id : String)
      → let a : (Accepted × Machine) × W =
          accept intake config (if failed then none else upload_of form file) m w in
        a.0.0 ≡ processing_response id
        → (is_v2 : Bool) (later : W) → IsFound is_v2 later a.0.1.queue form id
  by_form form true file m w id h is_v2 later = absurd cc
  by_form form false none m w id h is_v2 later = absurd cc
  by_form form false (some (content, name)) m w id h is_v2 later =
      let upload : Upload = record {
        file = content;
        filename = name;
        original_format = form.original_format;
        target_format = form.target_format;
      } in
      let new =
        conversion_file (new_id intake config id upload m w)
          (without_dot (get_or form.original_format "")) (without_dot form.target_format) in
      let answer = process_conversion_request intake config upload m w in
      let (same, pending) = process-IsAccepted intake config id upload m w h in
      subst (λ k. IsFound is_v2 later answer.0.1.queue form k) same
        (pending_answer fs files new answer.0.1.queue is_v2 later pending)

  -- When convertFile answers with an id, asking for the status of that id, in either version, finds the
  -- request with the formats of the form, without their first dot, in the queue or being converted.
  pub accepted_is_pending :
      (form : Form) (m : Machine) (w : W) (id : String)
      → (convert_file intake config form m w).0.0 ≡ processing_response id
      → (is_v2 : Bool) (later : W)
      → IsFound is_v2 later (convert_file intake config form m w).0.1.queue form id
  unfolding convert_file
  accepted_is_pending form m w id = by_form form form.failed form.file m w id
