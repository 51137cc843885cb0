-- ===== src/Conversion/Rules.antt =====
-- packages/conversion-service/src: the choice of a converter, `determineConverter` of
-- abstract/converter/service.ts with the rules of config/index.ts. `toUpperCase` is that of ASCII.
use Prim.Native.Char.{Char, code}
use dynamic_conversion_servi.Prelude.{
  ℕ, zero, suc, ◌-◌, String, ◌&&◌, Option, none, some, List, ◌∷◌, leb, str_eq, if◌then◌else◌,
}
use dynamic_conversion_servi.Prelude.Action.{Result, ok, err}
use dynamic_conversion_servi.Docker.Names.{concat}
use dynamic_conversion_servi.Conversion.{Wrapper, RuleFault, ConversionConfig}

abbrev pub char_at : ℕ → String → Char → Char
char_at n String.[] other = other
char_at zero (String.◌∷◌ c s) other = c
char_at (suc n) (String.◌∷◌ c s) other = char_at n s other

abbrev upper_char : Char → Char
upper_char c =
    if leb b'a' (code c) && leb (code c) b'z'
    then char_at (code c - b'a') "ABCDEFGHIJKLMNOPQRSTUVWXYZ" c
    else c

-- `toUpperCase`
unfoldable pub to_upper_case : String → String
to_upper_case String.[] = String.[]
to_upper_case (String.◌∷◌ c s) = String.◌∷◌ (upper_char c) (to_upper_case s)

-- `EConversionRuleType`
pub data RuleType : Type 0 where
  mono multi : RuleType

-- `hydratedRuleString`
abbrev pub hydrated_rule_string : String → String → RuleType → String
hydrated_rule_string source target RuleType.mono =
    concat "CONVERT_TO_" (concat (to_upper_case target) "_WITH")
hydrated_rule_string source target RuleType.multi =
    concat "CONVERT_FROM_"
      (concat (to_upper_case source) (concat "_TO_" (concat (to_upper_case target) "_WITH")))

-- `getRuleStringFromTemplate`
unfoldable pub get_rule_string_from_template : String → String → RuleType → Result RuleFault String
get_rule_string_from_template source target rule_type =
    if str_eq source "" && str_eq target ""
    then err RuleFault.invalid_rule_parameter
    else ok (hydrated_rule_string source target rule_type)

-- `transformStringToWrapperEnumValue`
unfoldable pub transform_string_to_wrapper_enum_value : String → Result RuleFault Wrapper
transform_string_to_wrapper_enum_value text =
    if str_eq text "ffmpeg"
    then ok Wrapper.ffmpeg
    else if str_eq text "imagemagick"
    then ok Wrapper.imagemagick
    else if str_eq text "unoconv"
    then ok Wrapper.unoconv
    else err (RuleFault.unknown_wrapper text)

-- The choice between the two rules and the first wrapper of the order.
abbrev pub by_rules : Option String → Option String → Wrapper → Result RuleFault Wrapper
by_rules (some rule) other fallback = transform_string_to_wrapper_enum_value rule
by_rules none (some rule) fallback = transform_string_to_wrapper_enum_value rule
by_rules none none fallback = ok fallback

abbrev pub choose :
    ConversionConfig → Wrapper → Wrapper → String → String → Result RuleFault Wrapper
choose config document media source target =
    elim (get_rule_string_from_template source target RuleType.mono) [
      | err e ↦ err e
      | ok mono_rule ↦ elim (get_rule_string_from_template source target RuleType.multi) [
        | err e ↦ err e
        | ok multi_rule ↦
            by_rules (config.env multi_rule) (config.env mono_rule)
              (if config.is_media_file source then media else document)
      ]
    ]

-- `determineConverter`
unfoldable pub determine_converter : ConversionConfig → String → String → Result RuleFault Wrapper
determine_converter config source target = by_order config.document config.media
  where
    by_order : List Wrapper → List Wrapper → Result RuleFault Wrapper
    by_order (d ∷ ds) (m ∷ ms) = choose config d m source target
    by_order _ _ = err RuleFault.no_available_wrapper
