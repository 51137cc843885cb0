-- ===== src/Redis/Http.antt =====
-- packages/redis/src: the functions of util.ts that ask a worker over HTTP, `getFormats` and
-- `pingRandomWorker` of service.ts, which use them, and the handlers of controller/index.ts. A reply is
-- what the record `Http` gives, none for a call that throws.
use dynamic_conversion_servi.Prelude.{
  ℕ, String, Bool, true, false, ◌||◌, Option, none, some, List, [], ◌∷◌, ltb, str_eq, ◌≡◌, refl, ap,
  if◌then◌else◌,
}
use dynamic_conversion_servi.Prelude.Action.{Result, ok, err}
use dynamic_conversion_servi.Docker.Names.{concat}
use dynamic_conversion_servi.Redis.Request.{ConversionStatus, Workers}
use dynamic_conversion_servi.Redis.Formats.{with_dot}
use dynamic_conversion_servi.Redis.Worker.{get_worker_count, get_worker_urls}

-- `Formats` is the reply of a worker to `/formats`, which may be null; `Body` is that of a download.
pub record Http (Formats Body W : Type 0) : Type 0 where
  pub fetch_text : String → W → Option String × W
  pub fetch_formats : String → W → Option (Option Formats) × W
  pub fetch_status : String → W → Option ConversionStatus × W
  pub fetch_body : String → W → Option Body × W
  -- `createWriteStream` and `pipe`: whether neither throws
  pub write_stream : String → Body → W → Bool × W
  pub join : String → String → String

pub data HttpFault : Type 0 where
  format_retrieval status_update file_retrieval : String → HttpFault
  fetch_failed no_formats : HttpFault

module _ {Formats Body W : Type 0} (http : Http Formats Body W) where
  abbrev is_pong : Option String → Bool
  is_pong none = false
  is_pong (some text) = str_eq text "\"pong\""

  -- `pingWorker`
  unfoldable pub ping_worker : String → W → Bool × W
  ping_worker url w = let (text, w1) = http.fetch_text (concat url "/ping") w in (is_pong text, w1)

  abbrev or_fault : {A : Type 0} → HttpFault → Option A → Result HttpFault A
  or_fault fault none = err fault
  or_fault fault (some a) = ok a

  -- `getFormatsFromWorker`
  unfoldable pub get_formats_from_worker : String → W → Result HttpFault (Option Formats) × W
  get_formats_from_worker url w =
      let (formats, w1) = http.fetch_formats (concat url "/formats") w in
      (or_fault (format_retrieval url) formats, w1)

  -- `getConversionStatus`
  unfoldable pub get_conversion_status : String → String → W → Result HttpFault ConversionStatus × W
  get_conversion_status url id w =
      let (status, w1) =
        http.fetch_status (concat url (concat "/conversion/" (concat id "?v2=true"))) w in
      (or_fault (status_update url) status, w1)

  -- `getFileFromWorker`: the fetch stands outside the `try`.
  abbrev piped : String → Bool × W → Result HttpFault (Unit {0}) × W
  piped url (true, w) = (ok tt, w)
  piped url (false, w) = (err (file_retrieval url), w)

  abbrev downloaded : String → String → Option Body × W → Result HttpFault (Unit {0}) × W
  downloaded url path (none, w) = (err fetch_failed, w)
  downloaded url path (some body, w) = piped url (http.write_stream path body w)

  unfoldable pub get_file_from_worker :
      (worker_url worker_conversion_id external_conversion_id target_format : String)
      → W
      → Result HttpFault (Unit {0}) × W
  get_file_from_worker url worker_id external_id target_format w =
      downloaded url (http.join "output" (concat external_id (with_dot target_format)))
        (http.fetch_body (concat url (concat "/conversion/" (concat worker_id "/download"))) w)

  -- `pingRandomWorker`: all workers are asked.
  unfoldable pub ping_all : List String → W → Bool × W
  unfolding ping_worker
  ping_all [] w = (false, w)
  ping_all (url ∷ urls) w =
      let (answered, w1) = ping_worker url w in
      let (others, w2) = ping_all urls w1 in (answered || others, w2)

  unfoldable pub ping_random_worker : Workers → W → Bool × W
  unfolding ping_all get_worker_urls
  ping_random_worker ws w = ping_all (get_worker_urls ws) w

  -- `const [workerUrl] = …`; undefined is spelled out in the address.
  abbrev pub first_url : List String → String
  first_url [] = "undefined"
  first_url (url ∷ urls) = url

  abbrev pub cached :
      Result HttpFault (Option Formats) × W → Result HttpFault Formats × (Option Formats × W)
  cached (err e, w) = (err e, (none, w))
  cached (ok none, w) = (err no_formats, (none, w))
  cached (ok (some formats), w) = (ok formats, (some formats, w))

  -- `getFormats`, over `cachedFormats`
  unfoldable pub get_formats :
      Workers → Option Formats × W → Result HttpFault Formats × (Option Formats × W)
  unfolding get_formats_from_worker get_worker_urls
  get_formats ws (some formats, w) = (ok formats, (some formats, w))
  get_formats ws (none, w) = cached (get_formats_from_worker (first_url (get_worker_urls ws)) w)

-- `hasWorker`, and `getPingResponse`: its status and its text
unfoldable pub has_worker : Workers → Bool
unfolding get_worker_count
has_worker ws = ltb 0 (get_worker_count ws)

unfoldable pub get_ping_response : Workers → ℕ × String
unfolding has_worker
get_ping_response ws = if has_worker ws then (200, "pong") else (503, "no worker available")

module _ {Formats Body W : Type 0} (http : Http Formats Body W) where
  cached-kept :
      (r : Result HttpFault (Option Formats) × W) (formats : Formats)
      → (cached http r).0 ≡ ok formats
      → (cached http r).1.0 ≡ some formats
  cached-kept (err e, w) formats h = absurd cc
  cached-kept (ok none, w) formats h = absurd cc
  cached-kept (ok (some found), w) formats h = cc

  -- Once getFormats returns formats, it returns them for good, whatever the workers are then.
  get_formats-kept :
      (ws later : Workers) (held : Option Formats) (w : W) (formats : Formats)
      → (get_formats http ws (held, w)).0 ≡ ok formats
      → (v : W)
      → get_formats http later ((get_formats http ws (held, w)).1.0, v)
        ≡ (ok formats, (some formats, v))
  unfolding get_formats
  get_formats-kept ws later (some found) w formats h v =
      let same : found ≡ formats = cc in ap (λ f. (ok f, (some f, v))) same
  get_formats-kept ws later none w formats h v =
      rw
        (cached-kept (get_formats_from_worker http (first_url http (get_worker_urls ws)) w) formats
          h)
        refl
