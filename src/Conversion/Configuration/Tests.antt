-- ===== src/Conversion/Configuration/Tests.antt =====
-- A configuration of two wrappers, one of them without a path.
use dynamic_conversion_servi.Prelude.{
  String, Option, none, some, [], ◌∷◌, ◌≡◌, refl, str_eq, if◌then◌else◌,
}
use dynamic_conversion_servi.Prelude.Action.{ok}
use dynamic_conversion_servi.Conversion.{Wrapper}
use dynamic_conversion_servi.Conversion.Configuration.{
  transform_string_to_wrapper_collection, create_wrapper_configuration,
}
use dynamic_conversion_servi.Conversion.Rules.{RuleType, to_upper_case, hydrated_rule_string}
use dynamic_conversion_servi.Conversion.Configuration.RuleShape.{get_rule_shape}
use dynamic_conversion_servi.Conversion.Configuration.RuleLaws.{rule_shape_roundtrip}
use dynamic_conversion_servi.Conversion.Configuration.Laws.{
  joined, transform-joined, IsOffered, create_wrapper_configuration-IsOffered,
}

transform-joined_run :
    transform_string_to_wrapper_collection (joined Wrapper.unoconv (Wrapper.ffmpeg ∷ []))
    ≡ ok (Wrapper.unoconv ∷ Wrapper.ffmpeg ∷ [])
transform-joined_run = transform-joined Wrapper.unoconv (Wrapper.ffmpeg ∷ [])

abbrev variables : String → Option String
variables key =
    if str_eq key "CONVERTER_DOCUMENT_PRIORITY"
    then some " Unoconv,ffmpeg"
    else if str_eq key "CONVERTER_MEDIA_PRIORITY"
    then some "ffmpeg"
    else if str_eq key "FFMPEG_PATH"
    then some "/usr/bin/ffmpeg"
    else none

create_wrapper_configuration-IsOffered_example :
    IsOffered variables (create_wrapper_configuration variables)
create_wrapper_configuration-IsOffered_example = create_wrapper_configuration-IsOffered variables

-- Without its path, the first wrapper of the document order is not available.
one_available :
    create_wrapper_configuration variables
    ≡ ok (record {
      available_wrappers = record { binary = Wrapper.ffmpeg; path = "/usr/bin/ffmpeg" } ∷ [];
      precedence_order = record {
        document = Wrapper.unoconv ∷ Wrapper.ffmpeg ∷ [];
        media = Wrapper.ffmpeg ∷ [];
      };
    })
unfolding create_wrapper_configuration
one_available = refl

rule_shape_roundtrip_example :
    get_rule_shape (hydrated_rule_string "docx" "pdf" RuleType.mono) ≡ ok RuleType.mono
unfolding to_upper_case
rule_shape_roundtrip_example = rule_shape_roundtrip "docx" "pdf" RuleType.mono refl refl
