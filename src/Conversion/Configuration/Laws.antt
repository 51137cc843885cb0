-- ===== src/Conversion/Configuration/Laws.antt =====
-- What the configuration of packages/conversion-service/src/config/index.ts offers.
use Prim.Native.Char.{code}
use Prim.Native.String as Text
use text.Mathlib.TextLemmas.{nil-append, cons-append}
use dynamic_conversion_servi.Prelude.{
  ℕ, String, Bool, true, false, not, ◌&&◌, ◌||◌, Option, none, some, List, [], ◌∷◌, ◌++◌, ◌==◌, ◌≡◌,
  refl, sym, ap, ◌∙◌, arith, Bool-cases, inl, inr,
}
use dynamic_conversion_servi.Prelude.Action.{Result, ok, err}
use dynamic_conversion_servi.Docker.Names.{concat, is_truthy}
use dynamic_conversion_servi.Conversion.{Wrapper}
use dynamic_conversion_servi.Conversion.Configuration.{
  ConfigFault, PrecedenceOrder, WrapperInfo, WrapperConfig, split, prefixed, wrappers_of,
  transform_string_to_wrapper_collection, path_key, same_wrapper, includes, distinct, with_path,
  transform_enum, kept, available, checked, for_order, create_precedence_order,
  create_wrapper_configuration,
}

-- The name of a wrapper, and a list of them as the variables have it.
abbrev pub name_of : Wrapper → String
name_of Wrapper.ffmpeg = "ffmpeg"
name_of Wrapper.imagemagick = "imagemagick"
name_of Wrapper.unoconv = "unoconv"

abbrev pub joined : Wrapper → List Wrapper → String
joined w [] = name_of w
joined w (v ∷ vs) = concat (name_of w) (concat "," (joined v vs))

-- Without the separator
abbrev lacks : ℕ → String → Bool
lacks sep Text.[] = true
lacks sep (Text.◌∷◌ c s) = not (code c == sep) && lacks sep s

split-comma : (t : String) → split b',' (concat "," t) ≡ Text.[] ∷ split b',' t
unfolding split
split-comma t = ap (split b',') (cons-append "," Text.[] t ∙ ap (Text.◌∷◌ ",") (nil-append t))

split-concat :
    (u t : String) → lacks b',' u ≡ true → split b',' (concat u (concat "," t)) ≡ u ∷ split b',' t
unfolding split
split-concat Text.[] t h = ap (split b',') (nil-append (concat "," t)) ∙ split-comma t
split-concat (Text.◌∷◌ c u) t h =
    ap (split b',') (cons-append c u (concat "," t))
    ∙ ground (arith, h, split-concat u t (ground (arith, h)))

part :
    (w : Wrapper) (vs : List Wrapper) (parts : List String)
    → wrappers_of parts ≡ ok vs
    → wrappers_of (name_of w ∷ parts) ≡ ok (w ∷ vs)
unfolding wrappers_of
part Wrapper.ffmpeg vs parts h = ap (prefixed (ok Wrapper.ffmpeg)) h
part Wrapper.imagemagick vs parts h = ap (prefixed (ok Wrapper.imagemagick)) h
part Wrapper.unoconv vs parts h = ap (prefixed (ok Wrapper.unoconv)) h

name-lacks : (w : Wrapper) → lacks b',' (name_of w) ≡ true
name-lacks Wrapper.ffmpeg = refl
name-lacks Wrapper.imagemagick = refl
name-lacks Wrapper.unoconv = refl

split-name : (w : Wrapper) → split b',' (name_of w) ≡ name_of w ∷ []
unfolding split
split-name Wrapper.ffmpeg = refl
split-name Wrapper.imagemagick = refl
split-name Wrapper.unoconv = refl

none_left : wrappers_of [] ≡ ok []
unfolding wrappers_of
none_left = refl

joined-parts :
    (w : Wrapper) (vs : List Wrapper) → wrappers_of (split b',' (joined w vs)) ≡ ok (w ∷ vs)
joined-parts w [] = ap wrappers_of (split-name w) ∙ part w [] [] none_left
joined-parts w (v ∷ vs) =
    ap wrappers_of (split-concat (name_of w) (joined v vs) (name-lacks w))
    ∙ part w (v ∷ vs) (split b',' (joined v vs)) (joined-parts v vs)

-- A list of wrappers that is written with commas is read back, for a list that is not empty.
pub transform-joined :
    (w : Wrapper) (vs : List Wrapper)
    → transform_string_to_wrapper_collection (joined w vs) ≡ ok (w ∷ vs)
unfolding transform_string_to_wrapper_collection
transform-joined w vs = joined-parts w vs

-- Membership after removing duplicates.
includes-append :
    (w v : Wrapper) (ws : List Wrapper)
    → includes w (ws ++ v ∷ []) ≡ (includes w ws || same_wrapper v w)
includes-append w v [] = ground arith
includes-append w v (u ∷ us) = ground (arith, includes-append w v us)

same_wrapper_sound : (u v : Wrapper) → same_wrapper u v ≡ true → u ≡ v
same_wrapper_sound Wrapper.ffmpeg Wrapper.ffmpeg h = refl
same_wrapper_sound Wrapper.ffmpeg Wrapper.imagemagick h = absurd (cc)
same_wrapper_sound Wrapper.ffmpeg Wrapper.unoconv h = absurd (cc)
same_wrapper_sound Wrapper.imagemagick Wrapper.ffmpeg h = absurd (cc)
same_wrapper_sound Wrapper.imagemagick Wrapper.imagemagick h = refl
same_wrapper_sound Wrapper.imagemagick Wrapper.unoconv h = absurd (cc)
same_wrapper_sound Wrapper.unoconv Wrapper.ffmpeg h = absurd (cc)
same_wrapper_sound Wrapper.unoconv Wrapper.imagemagick h = absurd (cc)
same_wrapper_sound Wrapper.unoconv Wrapper.unoconv h = refl

same-includes :
    (w v : Wrapper) (ws : List Wrapper)
    → includes v ws ≡ true
    → (includes w ws || same_wrapper v w) ≡ includes w ws
same-includes w v [] h = absurd (cc)
same-includes w v (u ∷ us) h = elim (Bool-cases (same_wrapper u v)) [
  | inl hit ↦
      let there = ap (λ (x : Wrapper). same_wrapper x w) (same_wrapper_sound u v hit) in
      ground (arith, there)
  | inr miss ↦ ground (arith, miss, h, same-includes w v us (ground (arith, miss, h)))
]

includes-distinct :
    (w : Wrapper) (seen ws : List Wrapper)
    → includes w (distinct seen ws) ≡ (includes w seen || includes w ws)
unfolding distinct
includes-distinct w seen [] = ground arith
includes-distinct w seen (v ∷ vs) = elim (Bool-cases (includes v seen)) [
  | inl old ↦ rw old (includes-distinct w seen vs ∙ ground (arith, same-includes w v seen old))
  | inr new ↦
      rw new (includes-distinct w (seen ++ v ∷ []) vs ∙ ground (arith, includes-append w v seen))
]

includes-both :
    (w : Wrapper) (us vs : List Wrapper) → includes w (us ++ vs) ≡ (includes w us || includes w vs)
includes-both w [] vs = ground arith
includes-both w (u ∷ us) vs = ground (arith, includes-both w us vs)

-- Some available wrapper is `w`.
abbrev pub offers : Wrapper → List WrapperInfo → Bool
offers w [] = false
offers w (i ∷ is) = same_wrapper i.binary w || offers w is

module _ (env : String → Option String) where
  abbrev pub has_path : Wrapper → Bool
  has_path w = is_truthy (env (path_key w))

  path_at :
      (w v : Wrapper) (o : Option String)
      → env (path_key v) ≡ o
      → (same_wrapper v w && has_path w) ≡ (same_wrapper v w && is_truthy o)
  path_at w v o e = elim (Bool-cases (same_wrapper v w)) [
    | inl hit ↦
        let there : has_path w ≡ is_truthy o =
          ap (λ (x : Wrapper). has_path x) (sym (same_wrapper_sound v w hit)) ∙ ap is_truthy e in
        ground (arith, there)
    | inr miss ↦ ground (arith, miss)
  ]

  offers-kept :
      (w v : Wrapper) (o : Option String) (rest : List WrapperInfo)
      → env (path_key v) ≡ o
      → offers w (kept env (with_path env v o) rest)
        ≡ ((same_wrapper v w && has_path w) || offers w rest)
  offers-kept w v none rest e = ground (arith, path_at w v none e)
  offers-kept w v (some path) rest e = elim (Bool-cases (is_truthy (some path))) [
    | inl full ↦ rw full ground (arith, full, path_at w v (some path) e)
    | inr empty ↦ rw empty ground (arith, empty, path_at w v (some path) e)
  ]

  offers-available :
      (w : Wrapper) (ws : List Wrapper)
      → offers w (available env ws) ≡ (includes w ws && has_path w)
  unfolding available transform_enum
  offers-available w [] = ground arith
  offers-available w (v ∷ vs) =
      offers-kept w v (env (path_key v)) (available env vs) refl
      ∙ ground (arith, offers-available w vs)

  abbrev pub IsOffered : Result ConfigFault WrapperConfig → Type 0
  IsOffered (ok c) =
      (w : Wrapper)
      → offers w c.available_wrappers ≡ (
          (includes w c.precedence_order.document || includes w c.precedence_order.media)
          && has_path w)
  IsOffered (err e) = Unit

  checked-IsOffered :
      (order : PrecedenceOrder) (wanted : List Wrapper) (found : List WrapperInfo)
      → ((w : Wrapper)
          → offers w found ≡ ((includes w order.document || includes w order.media) && has_path w))
      → IsOffered (checked env order wanted found)
  checked-IsOffered order [] [] h = h
  checked-IsOffered order (w ∷ ws) [] h = tt
  checked-IsOffered order wanted (i ∷ is) h = h

  order-IsOffered : (r : Result ConfigFault PrecedenceOrder) → IsOffered (for_order env r)
  order-IsOffered (err (ConfigFault.missing_configuration_value key)) = tt
  order-IsOffered (err ConfigFault.missing_wrapper_definition) = tt
  order-IsOffered (err ConfigFault.configuration_creation) = tt
  order-IsOffered (err ConfigFault.other) = tt
  order-IsOffered (err (ConfigFault.rule e)) = tt
  order-IsOffered (ok order) =
      let wanted = distinct [] (order.document ++ order.media) in
      checked-IsOffered order wanted (available env wanted) λ w.
        offers-available w wanted
        ∙ ground (
          arith,
          includes-distinct w [] (order.document ++ order.media),
          includes-both w order.document order.media,
        )

  -- In a configuration of the wrappers that is created, the available wrappers are exactly those of the two
  -- orders whose path variable is set and not empty.
  pub create_wrapper_configuration-IsOffered : IsOffered (create_wrapper_configuration env)
  unfolding create_wrapper_configuration
  create_wrapper_configuration-IsOffered = order-IsOffered (create_precedence_order env)
