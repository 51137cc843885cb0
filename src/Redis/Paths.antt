-- ===== src/Redis/Paths.antt =====
-- Where a request's input file is stored and read, and which file is deleted for it afterwards
-- (packages/redis/src/util.ts: `getExt`, `getExtFromFormat`, `removeRequestFile`).
use text.Mathlib.TextLemmas.{append_cancel_left}
use dynamic_conversion_servi.Prelude.{String, Option, ◌≡◌, ◌≢◌, ◌↔◌, sym, ◌∙◌, ap, arith, eq_iff}
use dynamic_conversion_servi.Prelude.Action.{ok}
use dynamic_conversion_servi.Docker.Names.{concat}
use dynamic_conversion_servi.Redis.Request.{ConversionRequest}
use dynamic_conversion_servi.Redis.Formats.{get_ext, get_ext_from_format, Directory, removed_path}

-- The extension is the format's, if there is one.
get_ext-of_format :
    (extname : String → String) (filename ext : String) (format : Option String)
    → get_ext extname filename format ≡ ok ext
    → get_ext_from_format format ≢ ""
    → ext ≡ get_ext_from_format format
unfolding get_ext
get_ext-of_format extname filename ext format e h =
    ground (arith, eq_iff (get_ext_from_format format) "")

-- An extension that is found is not empty.
pub get_ext-nonempty :
    (extname : String → String) (filename ext : String) (format : Option String)
    → get_ext extname filename format ≡ ok ext
    → ext ≢ ""
unfolding get_ext
get_ext-nonempty extname filename ext format e h =
    ground (arith, eq_iff (get_ext_from_format format) "", eq_iff (extname filename) "")

-- For a request whose extension is found, the file that is deleted from the input directory has the
-- name under which the input is stored and sent exactly when the request names an original format.
pub removed_input_iff :
    (extname : String → String) (r : ConversionRequest) (ext : String)
    → get_ext extname r.conversion_request_body.filename r.conversion_request_body.original_format
      ≡ ok ext
    → (removed_path (λ directory name. name) Directory.input r
        ≡ concat r.external_conversion_id ext)
      ↔ (get_ext_from_format r.conversion_request_body.original_format ≢ "")
unfolding removed_path
removed_input_iff extname r ext e =
    let body = r.conversion_request_body in
    (
      λ same empty.
          get_ext-nonempty extname body.filename ext body.original_format e
            (sym (append_cancel_left r.external_conversion_id _ _ same) ∙ empty),
      λ named.
          ap (concat r.external_conversion_id)
            (sym (get_ext-of_format extname body.filename ext body.original_format e named)),
    )
