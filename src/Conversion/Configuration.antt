-- ===== src/Conversion/Configuration.antt =====
-- packages/conversion-service/src/config/index.ts: the configuration that is read from the environment
-- variables. `Number` of a text is a parameter; `toLowerCase` and `trim` are those of ASCII.
pub mod Create
pub mod RuleShape
pub mod RuleLaws
pub mod Laws
pub mod Tests
use Prim.Native.Char.{Char, code}
use Prim.Native.String as Text
use dynamic_conversion_servi.Prelude.{
  ℕ, zero, suc, ◌-◌, ◌==◌, String, Bool, true, false, not, ◌&&◌, ◌||◌, Option, none, some, List, [],
  ◌∷◌, ◌++◌, leb, length, if◌then◌else◌,
}
use dynamic_conversion_servi.Prelude.Action.{Result, ok, err}
use dynamic_conversion_servi.Docker.Names.{concat, is_truthy}
use dynamic_conversion_servi.Conversion.{Wrapper, RuleFault}
use dynamic_conversion_servi.Conversion.Rules.{char_at, transform_string_to_wrapper_enum_value}

-- exception.ts, the errors that the configuration throws; `other` is the plain `Error` of
-- `createConfiguration`.
pub data ConfigFault : Type 0 where
  missing_configuration_value : String → ConfigFault
  missing_wrapper_definition configuration_creation other : ConfigFault
  rule : RuleFault → ConfigFault

-- interface.ts
pub record PrecedenceOrder : Type 0 where
  pub document : List Wrapper
  pub media : List Wrapper

pub record WrapperInfo : Type 0 where
  pub binary : Wrapper
  pub path : String

pub record WrapperConfig : Type 0 where
  pub available_wrappers : List WrapperInfo
  pub precedence_order : PrecedenceOrder

-- `text.split(…)` at a separator of one character
abbrev in_front : Char → List String → List String
in_front c [] = Text.◌∷◌ c Text.[] ∷ []
in_front c (part ∷ parts) = Text.◌∷◌ c part ∷ parts

unfoldable pub split : ℕ → String → List String
split sep Text.[] = Text.[] ∷ []
split sep (Text.◌∷◌ c s) =
    let rest = split sep s in if code c == sep then Text.[] ∷ rest else in_front c rest

-- `trim`
abbrev is_space : Char → Bool
is_space c = code c == 32 || (leb 9 (code c) && leb (code c) 13)

unfoldable pub trim_start : String → String
trim_start Text.[] = Text.[]
trim_start (Text.◌∷◌ c s) = let rest = trim_start s in if is_space c then rest else Text.◌∷◌ c s

unfoldable pub trim_end : String → String
trim_end Text.[] = Text.[]
trim_end (Text.◌∷◌ c s) =
    let rest = trim_end s in
    if is_space c && not (is_truthy (some rest)) then Text.[] else Text.◌∷◌ c rest

abbrev lower_char : Char → Char
lower_char c =
    if leb b'A' (code c) && leb (code c) b'Z'
    then char_at (code c - b'A') "abcdefghijklmnopqrstuvwxyz" c
    else c

-- `toLowerCase`
unfoldable pub to_lower_case : String → String
to_lower_case Text.[] = Text.[]
to_lower_case (Text.◌∷◌ c s) = Text.◌∷◌ (lower_char c) (to_lower_case s)

-- `.map(…)` with a throw
abbrev pub prefixed :
    Result RuleFault Wrapper → Result RuleFault (List Wrapper) → Result RuleFault (List Wrapper)
prefixed (err e) rest = err e
prefixed (ok w) (err e) = err e
prefixed (ok w) (ok ws) = ok (w ∷ ws)

unfoldable pub wrappers_of : List String → Result RuleFault (List Wrapper)
unfolding transform_string_to_wrapper_enum_value trim_start trim_end to_lower_case
wrappers_of [] = ok []
wrappers_of (part ∷ parts) =
    prefixed (transform_string_to_wrapper_enum_value (to_lower_case (trim_start (trim_end part))))
      (wrappers_of parts)

-- `transformStringToWrapperCollection`
unfoldable pub transform_string_to_wrapper_collection : String → Result RuleFault (List Wrapper)
unfolding split wrappers_of
transform_string_to_wrapper_collection text = wrappers_of (split b',' text)

-- `getWrapperPathConfigKeyFromEnum`
abbrev pub path_key : Wrapper → String
path_key Wrapper.ffmpeg = "FFMPEG_PATH"
path_key Wrapper.imagemagick = "IMAGE_MAGICK_PATH"
path_key Wrapper.unoconv = "UNOCONV_PATH"

abbrev pub same_wrapper : Wrapper → Wrapper → Bool
same_wrapper Wrapper.ffmpeg Wrapper.ffmpeg = true
same_wrapper Wrapper.imagemagick Wrapper.imagemagick = true
same_wrapper Wrapper.unoconv Wrapper.unoconv = true
same_wrapper _ _ = false

abbrev pub includes : Wrapper → List Wrapper → Bool
includes w [] = false
includes w (v ∷ vs) = same_wrapper v w || includes w vs

-- `[...new Set(…)]`, and the keys of the `Map` of `initializeConversionWrapperMap`, whose default case
-- no value of the enumeration reaches: the first occurrences, in order.
unfoldable pub distinct : List Wrapper → List Wrapper → List Wrapper
distinct seen [] = seen
distinct seen (w ∷ ws) = distinct (if includes w seen then seen else seen ++ w ∷ []) ws

unfoldable pub initialize_conversion_wrapper_map : List Wrapper → List Wrapper
unfolding distinct
initialize_conversion_wrapper_map available = distinct [] available

abbrev pub then_media :
    List Wrapper → Result RuleFault (List Wrapper) → Result ConfigFault PrecedenceOrder
then_media document (err e) = err (ConfigFault.rule e)
then_media document (ok media) = ok (record { document = document; media = media })

module _ (env : String → Option String) where
  -- A defined text that is not empty, or the caught `MissingConfigurationValueError`.
  abbrev pub media_order : List Wrapper → Option String → Result ConfigFault PrecedenceOrder
  media_order document none = err ConfigFault.missing_wrapper_definition
  media_order document (some text) =
      if is_truthy (some text)
      then then_media document (transform_string_to_wrapper_collection text)
      else err ConfigFault.missing_wrapper_definition

  abbrev pub then_document : Result RuleFault (List Wrapper) → Result ConfigFault PrecedenceOrder
  then_document (err e) = err (ConfigFault.rule e)
  then_document (ok document) = media_order document (env "CONVERTER_MEDIA_PRIORITY")

  abbrev pub document_order : Option String → Result ConfigFault PrecedenceOrder
  document_order none = err ConfigFault.missing_wrapper_definition
  document_order (some text) =
      if is_truthy (some text)
      then then_document (transform_string_to_wrapper_collection text)
      else err ConfigFault.missing_wrapper_definition

  -- `createConversionPrecedenceOrderConfig`
  unfoldable pub create_precedence_order : Result ConfigFault PrecedenceOrder
  unfolding transform_string_to_wrapper_collection
  create_precedence_order = document_order (env "CONVERTER_DOCUMENT_PRIORITY")

  -- `transformEnumToIWrapper`; none is the `MissingConfigurationValueError`
  abbrev pub with_path : Wrapper → Option String → Option WrapperInfo
  with_path w none = none
  with_path w (some path) =
      if is_truthy (some path) then some (record { binary = w; path = path }) else none

  unfoldable pub transform_enum : Wrapper → Option WrapperInfo
  transform_enum w = with_path w (env (path_key w))

  -- The loop of `createWrapperConfiguration`: the wrappers with a path.
  abbrev pub kept : Option WrapperInfo → List WrapperInfo → List WrapperInfo
  kept none rest = rest
  kept (some info) rest = info ∷ rest

  unfoldable pub available : List Wrapper → List WrapperInfo
  unfolding transform_enum
  available [] = []
  available (w ∷ ws) = kept (transform_enum w) (available ws)

  -- The errors of the loop are as many as wrappers are missing; `availableWrappers === []` compares
  -- identities and never holds.
  abbrev pub checked :
      PrecedenceOrder → List Wrapper → List WrapperInfo → Result ConfigFault WrapperConfig
  checked order [] [] = ok (record { available_wrappers = []; precedence_order = order })
  checked order (w ∷ ws) [] = err ConfigFault.configuration_creation
  checked order wanted (i ∷ is) =
      ok (record { available_wrappers = i ∷ is; precedence_order = order })

  abbrev pub for_order : Result ConfigFault PrecedenceOrder → Result ConfigFault WrapperConfig
  for_order (err ConfigFault.missing_wrapper_definition) = err ConfigFault.configuration_creation
  for_order (err e) = err e
  for_order (ok order) =
      let wanted = distinct [] (order.document ++ order.media) in
      checked order wanted (available wanted)

  -- `createWrapperConfiguration`
  unfoldable pub create_wrapper_configuration : Result ConfigFault WrapperConfig
  unfolding create_precedence_order available distinct
  create_wrapper_configuration = for_order create_precedence_order
