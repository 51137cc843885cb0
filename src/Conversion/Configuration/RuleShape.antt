-- ===== src/Conversion/Configuration/RuleShape.antt =====
-- packages/conversion-service/src/config/index.ts: `getRuleShape`, whose patterns are matched character by
-- character, and `createConversionRule`.
use Prim.Native.Char.{Char, code}
use Prim.Native.String as Text
use dynamic_conversion_servi.Prelude.{
  ◌==◌, String, Bool, ◌&&◌, ◌||◌, Option, none, some, leb, is_some, if◌then◌else◌,
}
use dynamic_conversion_servi.Prelude.Action.{Result, ok, err}
use dynamic_conversion_servi.Docker.Names.{is_truthy}
use dynamic_conversion_servi.Conversion.Rules.{RuleType}

-- `UnknownConversionRuleFormatError`
pub data ShapeFault : Type 0 where
  unknown_conversion_rule_format : String → ShapeFault

-- The rest after a fixed text.
unfoldable pub after : String → String → Option String
after Text.[] s = some s
after (Text.◌∷◌ c p) Text.[] = none
after (Text.◌∷◌ c p) (Text.◌∷◌ d s) =
    let rest = after p s in if code c == code d then rest else none

-- `[A-Za-z0-9]`
abbrev pub is_alnum : Char → Bool
is_alnum c =
    (leb b'A' (code c) && leb (code c) b'Z')
    || (leb b'a' (code c) && leb (code c) b'z')
    || (leb b'0' (code c) && leb (code c) b'9')

unfoldable pub after_alnum : String → String
after_alnum Text.[] = Text.[]
after_alnum (Text.◌∷◌ c s) = let rest = after_alnum s in if is_alnum c then rest else Text.◌∷◌ c s

-- A fixed text, any number of alphanumeric characters, and what follows.
abbrev pub after_both : Option String → Option String
after_both none = none
after_both (some s) = some (after_alnum s)

abbrev pub then_after : String → Option String → Option String
then_after p none = none
then_after p (some s) = after p s

-- `/(CONVERT_TO_[A-Za-z0-9]*_WITH)/` and `/(CONVERT_FROM_[A-Za-z0-9]*_TO_[A-Za-z0-9]*_WITH)/` here
unfoldable pub mono_here : String → Bool
unfolding after after_alnum
mono_here s = is_some (then_after "_WITH" (after_both (after "CONVERT_TO_" s)))

unfoldable pub multi_here : String → Bool
unfolding after after_alnum
multi_here s =
    is_some
      (then_after "_WITH" (after_both (then_after "_TO_" (after_both (after "CONVERT_FROM_" s)))))

-- `search(…) !== -1`
unfoldable pub somewhere : (String → Bool) → String → Bool
somewhere p Text.[] = p Text.[]
somewhere p (Text.◌∷◌ c s) = let later = somewhere p s in p (Text.◌∷◌ c s) || later

-- `getRuleShape`
unfoldable pub get_rule_shape : String → Result ShapeFault RuleType
unfolding somewhere mono_here multi_here
get_rule_shape text =
    if somewhere multi_here text
    then ok RuleType.multi
    else if somewhere mono_here text
    then ok RuleType.mono
    else err (unknown_conversion_rule_format text)

-- `IConversionRule`, and `InvalidConfigurationSpecError` for an empty key or value
pub record ConversionRule : Type 0 where
  pub rule : String
  pub rule_type : RuleType

pub data RuleFault : Type 0 where
  invalid_configuration_spec : RuleFault

abbrev pub loaded : RuleType → Option String → Result RuleFault (Option ConversionRule)
loaded rule_type none = err invalid_configuration_spec
loaded rule_type (some rule) =
    if is_truthy (some rule)
    then ok (some (record { rule = rule; rule_type = rule_type }))
    else err invalid_configuration_spec

abbrev pub with_shape :
    Option String → Result ShapeFault RuleType → Result RuleFault (Option ConversionRule)
with_shape value (err e) = ok none
with_shape value (ok rule_type) = loaded rule_type value

-- `createConversionRule`: none for a key of no known shape
unfoldable pub create_conversion_rule :
    (String → Option String) → String → Result RuleFault (Option ConversionRule)
unfolding get_rule_shape
create_conversion_rule env key =
    if is_truthy (some key)
    then with_shape (env key) (get_rule_shape key)
    else err invalid_configuration_spec
