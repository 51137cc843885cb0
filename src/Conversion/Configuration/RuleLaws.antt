-- ===== src/Conversion/Configuration/RuleLaws.antt =====
-- packages/conversion-service/src/config/index.ts: `getRuleShape` recognises the rules that the service
-- looks up.
use Prim.Native.Char.{code}
use Prim.Native.String as Text
use text.Mathlib.TextLemmas.{nil-append, cons-append}
use dynamic_conversion_servi.Prelude.{
  ℕ, suc, ◌+◌, ◌≤◌, ◌<◌, ◌==◌, String, Bool, true, false, ◌&&◌, Option, none, some, ◌≡◌, refl, sym,
  ap, ◌∙◌, arith, is_some, if◌then◌else◌, Bool-cases, inl, inr,
}
use dynamic_conversion_servi.Prelude.Action.{ok}
use dynamic_conversion_servi.Docker.Names.{concat}
use dynamic_conversion_servi.Conversion.Rules.{RuleType, to_upper_case, hydrated_rule_string}
use dynamic_conversion_servi.Conversion.Configuration.RuleShape.{
  is_alnum, after, after_alnum, after_both, then_after, mono_here, multi_here, somewhere,
  get_rule_shape,
}

abbrev pub all_alnum : String → Bool
all_alnum Text.[] = true
all_alnum (Text.◌∷◌ c s) = is_alnum c && all_alnum s

after-concat : (p t : String) → after p (concat p t) ≡ some t
unfolding after
after-concat Text.[] t = ap some (nil-append t)
after-concat (Text.◌∷◌ c p) t =
    ap (after (Text.◌∷◌ c p)) (cons-append c p t) ∙ ground (arith, after-concat p t)

-- A format ends where a character that is not alphanumeric follows.
after_alnum-concat :
    (a t : String) → all_alnum a ≡ true → after_alnum t ≡ t → after_alnum (concat a t) ≡ t
unfolding after_alnum
after_alnum-concat Text.[] t h stop = ap after_alnum (nil-append t) ∙ stop
after_alnum-concat (Text.◌∷◌ c a) t h stop =
    ap after_alnum (cons-append c a t)
    ∙ ground (arith, h, after_alnum-concat a t (ground (arith, h)) stop)

-- The underscores of a text
abbrev underscores : String → ℕ
underscores Text.[] = 0
underscores (Text.◌∷◌ c s) = let rest = underscores s in if code c == b'_' then suc rest else rest

underscores-concat : (s t : String) → underscores (concat s t) ≡ underscores s + underscores t
underscores-concat Text.[] t = ap underscores (nil-append t) ∙ omega arith
underscores-concat (Text.◌∷◌ c s) t =
    ap underscores (cons-append c s t) ∙ ground (arith, underscores-concat s t)

underscores-alnum : (a : String) → all_alnum a ≡ true → underscores a ≡ 0
underscores-alnum Text.[] h = refl
underscores-alnum (Text.◌∷◌ c a) h = ground (arith, h, underscores-alnum a (ground (arith, h)))

underscores-after :
    (p s t : String) → after p s ≡ some t → underscores s ≡ underscores p + underscores t
unfolding after
underscores-after Text.[] s t h = let same : s ≡ t = cc in omega (arith, ap underscores same)
underscores-after (Text.◌∷◌ c p) Text.[] t h = absurd (cc)
underscores-after (Text.◌∷◌ c p) (Text.◌∷◌ d s) t h = elim (Bool-cases (code c == code d)) [
  | inl hit ↦
      let rest : after p s ≡ some t = ground (arith, hit, h) in
      ground (arith, hit, underscores-after p s t rest)
  | inr miss ↦ absurd (ground (arith, miss, h))
]

underscores-after_alnum : (s : String) → underscores (after_alnum s) ≤ underscores s
unfolding after_alnum
underscores-after_alnum Text.[] = omega arith
underscores-after_alnum (Text.◌∷◌ c s) = ground (arith, underscores-after_alnum s)

-- A text that matches the pattern of two formats has five underscores.
multi-underscores : (s : String) → multi_here s ≡ true → 5 ≤ underscores s
unfolding multi_here
multi-underscores s h = at_from (after "CONVERT_FROM_" s) refl h
  where
    at_with :
        (u v : String)
        → after "_TO_" u ≡ some v
        → is_some (after "_WITH" (after_alnum v)) ≡ true
        → 3 ≤ underscores u
    at_with u v e k = ending (after "_WITH" (after_alnum v)) refl k
      where
        ending :
            (o : Option String)
            → after "_WITH" (after_alnum v) ≡ o
            → is_some o ≡ true
            → 3 ≤ underscores u
        ending none f l = absurd (cc)
        ending (some w) f l = omega (
          arith,
          underscores-after "_TO_" u v e,
          underscores-after_alnum v,
          underscores-after "_WITH" (after_alnum v) w f,
        )

    at_to :
        (t : String) (o : Option String)
        → after "_TO_" (after_alnum t) ≡ o
        → is_some (then_after "_WITH" (after_both o)) ≡ true
        → 3 ≤ underscores t
    at_to t none e k = absurd (cc)
    at_to t (some v) e k = omega (arith, at_with (after_alnum t) v e k, underscores-after_alnum t)

    at_from :
        (o : Option String)
        → after "CONVERT_FROM_" s ≡ o
        → is_some (then_after "_WITH" (after_both (then_after "_TO_" (after_both o)))) ≡ true
        → 5 ≤ underscores s
    at_from none e k = absurd (cc)
    at_from (some t) e k = omega (
      arith,
      underscores-after "CONVERT_FROM_" s t e,
      at_to t (after "_TO_" (after_alnum t)) refl k,
    )

somewhere-multi : (s : String) → underscores s < 5 → somewhere multi_here s ≡ false
unfolding somewhere
somewhere-multi Text.[] h = elim (Bool-cases (multi_here "")) [
  | inl hit ↦ absurd (omega (arith, multi-underscores "" hit, h))
  | inr miss ↦ miss
]
somewhere-multi (Text.◌∷◌ c s) h = elim (Bool-cases (multi_here (Text.◌∷◌ c s))) [
  | inl hit ↦ absurd (omega (arith, multi-underscores (Text.◌∷◌ c s) hit, h))
  | inr miss ↦ ground (arith, miss, somewhere-multi s (ground (arith, h)))
]

-- A match at the start is a match.
somewhere-start : (p : String → Bool) (s : String) → p s ≡ true → somewhere p s ≡ true
unfolding somewhere
somewhere-start p Text.[] h = h
somewhere-start p (Text.◌∷◌ c s) h = ground (arith, h)

ends_with : after "_WITH" "_WITH" ≡ some ""
unfolding after
ends_with = refl

stops_with : after_alnum "_WITH" ≡ "_WITH"
unfolding after_alnum
stops_with = refl

mono-matches :
    (a : String) → all_alnum a ≡ true → mono_here (concat "CONVERT_TO_" (concat a "_WITH")) ≡ true
unfolding mono_here
mono-matches a h =
    ap (λ o. is_some (then_after "_WITH" (after_both o)))
      (after-concat "CONVERT_TO_" (concat a "_WITH"))
    ∙ ap (λ u. is_some (after "_WITH" u)) (after_alnum-concat a "_WITH" h stops_with)
    ∙ ap is_some ends_with

stops_to : (t : String) → after_alnum (concat "_TO_" t) ≡ concat "_TO_" t
unfolding after_alnum
stops_to t = ap after_alnum (cons-append "_" "TO_" t) ∙ sym (cons-append "_" "TO_" t)

multi-matches :
    (a b : String)
    → all_alnum a ≡ true
    → all_alnum b ≡ true
    → multi_here (concat "CONVERT_FROM_" (concat a (concat "_TO_" (concat b "_WITH")))) ≡ true
unfolding multi_here
multi-matches a b h k =
    ap (λ o. is_some (then_after "_WITH" (after_both (then_after "_TO_" (after_both o)))))
      (after-concat "CONVERT_FROM_" (concat a (concat "_TO_" (concat b "_WITH"))))
    ∙ ap (λ u. is_some (then_after "_WITH" (after_both (after "_TO_" u))))
        (after_alnum-concat a (concat "_TO_" (concat b "_WITH")) h (stops_to (concat b "_WITH")))
    ∙ ap (λ o. is_some (then_after "_WITH" (after_both o))) (after-concat "_TO_" (concat b "_WITH"))
    ∙ ap (λ u. is_some (after "_WITH" u)) (after_alnum-concat b "_WITH" k stops_with)
    ∙ ap is_some ends_with

-- The rule that the service looks up for two formats is recognised as what it is: with formats whose
-- upper-case texts are alphanumeric, `getRuleShape` of the key made by `hydratedRuleString` gives the
-- type of rule that the key was made for.
pub rule_shape_roundtrip :
    (source target : String) (rule_type : RuleType)
    → all_alnum (to_upper_case source) ≡ true
    → all_alnum (to_upper_case target) ≡ true
    → get_rule_shape (hydrated_rule_string source target rule_type) ≡ ok rule_type
unfolding get_rule_shape
rule_shape_roundtrip source target RuleType.multi h k =
    let text = hydrated_rule_string source target RuleType.multi in
    let hit : somewhere multi_here text ≡ true =
      somewhere-start multi_here text
        (multi-matches (to_upper_case source) (to_upper_case target) h k) in
    rw hit refl
rule_shape_roundtrip source target RuleType.mono h k =
    let a = to_upper_case target in
    let text = concat "CONVERT_TO_" (concat a "_WITH") in
    let few : underscores text < 5 = omega (
      arith,
      underscores-concat "CONVERT_TO_" (concat a "_WITH"),
      underscores-concat a "_WITH",
      underscores-alnum a k,
    ) in
    let miss = somewhere-multi text few in
    let hit : somewhere mono_here text ≡ true = somewhere-start mono_here text (mono-matches a k) in
    rw (miss, hit) refl
