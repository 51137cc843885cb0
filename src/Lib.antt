-- ===== src/Lib.antt =====
-- The dynamic conversion service: an auto-scaled pool of containers that convert files. This library
-- models its core, from the TypeScript sources under packages/.
--
-- Parts. The redis service (packages/redis/src) takes conversion requests, queues them, and in a
-- loop checks the containers, forwards requests to workers, asks for their status, fetches results
-- and scales the pool. The auto-scaler (packages/auto-scaler/src) computes how many containers to
-- start or remove and has the Docker service do it. Each container runs the conversion service
-- (packages/conversion-service/src), which queues files and converts them one by one.
--
-- Files.
--   AutoScaler, AutoScaler/Scale: packages/auto-scaler/src/index.ts, `AutoScaler`. Scale has
--     `computeContainerScaleAmount` as `compute_scale_amount`; Ceil has lemmas on rounding.
--   Docker: packages/auto-scaler/src/docker/index.ts, `DockerService`; its `hasImage` is a field of
--     `DockerState`. Docker/Connect has its constructor, Docker/Names operations on text. Docker/Journal is a
--     journal of what a daemon does to containers; Docker/Effects, AutoScaler/Effects and Redis/Service/Quit
--     read it.
--   Redis/Request, Redis/Formats, Redis/Http: packages/redis/src/interface.ts and util.ts; Http also has
--     the formats that are kept, and controller/index.ts.
--   Redis/Config, with Numbers: packages/redis/src/config/index.ts, the readers of the environment
--     variables, which are the state of an action. RoundTrip writes a configuration as variables.
--   Redis/Worker and its children: packages/redis/src/worker/index.ts, `WorkerHandler`; the object of
--     workers is the dictionary `Workers`. Forward, Probe and Fetch have the three loops.
--   Redis/Wrapper: packages/redis/src/wrapper/index.ts, `RedisWrapper`.
--   Redis/Service, its Health and Loop: packages/redis/src/service.ts, `RedisService`. Cadence is
--     about its timer, Lifetime about finished requests, Filed about their ids through a probe, Quit
--     about its end; Frame, Rescue, Checked, Forwarded and Probed follow the workers through a probe;
--     Posted notes the messages that are sent.
--   Conversion/Configuration, with Create and RuleShape: packages/conversion-service/src/config.
--   Conversion/Requests: the handling of an upload, and the list of the waiting conversions.
--   Conversion/Queue, Conversion/Rules, Conversion/Service: the queue, the choice of a converter and
--     the conversions of packages/conversion-service/src, each as one step. Conversion/Events has the
--     same code cut at its awaits, as a machine whose events are requests and answers; Conversion/Awaits
--     compares the two. Conversion/Life has the life of a request as a relation on its status, and
--     Life/Runs the runs of the machine.
--   Conversion/Wrappers: packages/conversion-service/src/service/unoconv, ffmpeg, imagemagick and
--     capabilities. Wrappers/Unoconv reads the formats that the program shows, Unoconv/Process runs a
--     conversion, whose process is a list of events; Unoconv/Show writes a list of formats as the
--     program does. Wrappers/Offered asks all three wrappers, and
--     Wrappers/Backend puts them under the queue.
--   Conversion/FileIo: packages/conversion-service/src/service/file-io.
--   Conversion/Rest: packages/conversion-service/src/controller/conversion; Conversion/Api decisions of
--     service/api/index.ts.
--   Prelude: shared tests, lists, integers, dictionaries, and `Action`, code that changes a state and
--     may throw; the state is kept after a throw. Prelude/Hoare and Prelude/After have
--     rules for what an action keeps and ends in.
--   Each Tests has concrete runs.
--
-- Conventions. A function `fooBar` of the source is `foo_bar`. What is outside the repository is a
-- parameter over a world that every call may change: `Daemon` (Docker, nanoid), `Network` (the
-- workers' HTTP interface, files, clock), `Rsmq`, `Environment` (JSON, the output directory), `Files`
-- (the REST interface's files), `Intake` (uploads), `Backend` (the conversion programs, files),
-- `FileSystem` (fs), `Http` (node-fetch), `Programs` and `ProcessApi` (unoconv), `FfmpegApi` and `GmApi` (the packages of
-- ffmpeg and ImageMagick). Counts are natural numbers; the amounts of the scaler are integers. Promises that are
-- awaited together run in order. Logging is left out.
--
-- Bounds. `update` runs a limited number of conversions; the work queued, one more than the tries left
-- of each file, is enough. The loop of `forward_requests_to_idle_workers` takes a limit on its rounds,
-- since it does not end while pops fail. `delete_folder_recursive` takes the depth of the directories.
--
-- Not modelled: the generated API client and routes, the set-up of the HTTP servers, the streams of
-- files and the logger. Numbers of environment variables are exact, without the rounding of large
-- ones, and the number of tries is a number, never NaN; the text of an error message is left out of the
-- REST interfaces. The synchronous calls of fs that read (readdirSync, statSync, readFileSync) do not
-- throw; a `$` in the replacement of a text has no special meaning.
pub mod AutoScaler
pub mod Conversion
pub mod Docker
pub mod Prelude
pub mod Redis
