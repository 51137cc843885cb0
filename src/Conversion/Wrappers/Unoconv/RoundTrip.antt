-- ===== src/Conversion/Wrappers/Unoconv/RoundTrip.antt =====
-- packages/conversion-service/src/service/unoconv: the list of formats that the program writes is the list
-- that `detectSupportedFormats` finds.
use Prim.Native.Char.{code}
use Prim.Native.String as Text
use dynamic_conversion_servi.Prelude.{
  ℕ, String, false, Option, none, some, List, [], ◌∷◌, ◌++◌, map, ◌≡◌, ◌≢◌, refl, ap, ◌∙◌, All,
  eq_iff, str_eq, Bool-cases, Option-cases, inl, inr, if◌then◌else◌,
}
use mathlib.Core.List.{append_assoc, append-nil}
use dynamic_conversion_servi.Conversion.Wrappers.Unoconv.{
  Section, heading, section_of, FileFormat, FormatList, push, no_formats, Detection, read_line,
  read_lines, and_then, has_sufficient_formats_detected, Programs, Options, resolved, not_detected,
  detect_supported_formats, get_binary, add_options,
}
use dynamic_conversion_servi.Conversion.Wrappers.Unoconv.Lines.{handle_formats_line}
use dynamic_conversion_servi.Conversion.Wrappers.Unoconv.Show.{
  Shown, Listing, show_line, show_section, show_lines, show, IsShown, IsListing, file_format,
  format_list, entries, detected_as,
}
use dynamic_conversion_servi.Conversion.Wrappers.Unoconv.LineEnds.{split-unlines, lines-IsLine}
use dynamic_conversion_servi.Conversion.Wrappers.Unoconv.LineLaws.{handle_formats_line-show_line}

-- A heading begins with a letter.
abbrev first_code : String → ℕ
first_code Text.[] = 0
first_code (Text.◌∷◌ c s) = code c

no_heading : (s t : String) → first_code s ≢ first_code t → str_eq s t ≡ false
no_heading s t h = elim (Bool-cases (str_eq s t)) [
  | inl e ↦ absurd (h (ap first_code ((eq_iff s t).0 e)))
  | inr e ↦ e
]

plain_line : (s : String) → first_code s ≢ b'T' → section_of s ≡ none
unfolding section_of
plain_line s h =
    rw
      (
        no_heading s (heading Section.documents) h,
        no_heading s (heading Section.drawings) h,
        no_heading s (heading Section.presentations) h,
        no_heading s (heading Section.spreadsheets) h,
      )
      refl

section_of-heading : (section : Section) → section_of (heading section) ≡ some section
unfolding section_of
section_of-heading Section.documents = refl
section_of-heading Section.drawings = refl
section_of-heading Section.presentations = refl
section_of-heading Section.spreadsheets = refl

-- What one section adds.
abbrev extended : Section → List FileFormat → FormatList → FormatList
extended Section.documents gs fs = record fs { document = fs.document ++ gs }
extended Section.drawings gs fs = record fs { graphics = fs.graphics ++ gs }
extended Section.presentations gs fs = record fs { presentation = fs.presentation ++ gs }
extended Section.spreadsheets gs fs = record fs { spreadsheet = fs.spreadsheet ++ gs }

extended-nil : (section : Section) (fs : FormatList) → extended section [] fs ≡ fs
extended-nil Section.documents fs = rw (append-nil fs.document) refl
extended-nil Section.drawings fs = rw (append-nil fs.graphics) refl
extended-nil Section.presentations fs = rw (append-nil fs.presentation) refl
extended-nil Section.spreadsheets fs = rw (append-nil fs.spreadsheet) refl

extended-push :
    (section : Section) (g : FileFormat) (gs : List FileFormat) (fs : FormatList)
    → extended section gs (push g section fs) ≡ extended section (g ∷ gs) fs
unfolding push
extended-push Section.documents g gs fs = rw (append_assoc fs.document (g ∷ []) gs) refl
extended-push Section.drawings g gs fs = rw (append_assoc fs.graphics (g ∷ []) gs) refl
extended-push Section.presentations g gs fs = rw (append_assoc fs.presentation (g ∷ []) gs) refl
extended-push Section.spreadsheets g gs fs = rw (append_assoc fs.spreadsheet (g ∷ []) gs) refl

no_letter : (f : Shown) → first_code (show_line f) ≢ b'T'
unfolding show_line
no_letter f = cc

in_sections :
    (l : Listing)
    → show_lines l ++ Text.[] ∷ []
      ≡ show_section Section.documents l.document
        ++ (show_section Section.drawings l.graphics
            ++ (show_section Section.presentations l.presentation
                ++ (show_section Section.spreadsheets l.spreadsheet ++ Text.[] ∷ [])))
in_sections l = simp append_assoc

module _ (get_type : String → Option String) where
  abbrev at_section : Section → FormatList → Detection
  at_section section fs = record { doc_type = some section; formats = fs }

  read_lines-append :
      (xs ys : List String) (d : Detection)
      → read_lines get_type (xs ++ ys) d
        ≡ and_then (read_lines get_type xs d) (read_lines get_type ys)
  unfolding read_lines
  read_lines-append [] ys d = refl
  read_lines-append (x ∷ xs) ys d = elim (Option-cases (read_line get_type x d)) [
    | inl e ↦ rw e refl
    | inr (d1, e) ↦ rw e (read_lines-append xs ys d1)
  ]

  read_empty_line : (d : Detection) → read_line get_type Text.[] d ≡ some d
  unfolding read_line section_of handle_formats_line
  read_empty_line d = refl

  read_heading :
      (section : Section) (d : Detection)
      → read_line get_type (heading section) d ≡ some (at_section section d.formats)
  unfolding read_line
  read_heading section d = rw (section_of-heading section) refl

  read_shown :
      (f : Shown) (section : Section) (fs : FormatList)
      → IsShown f
      → read_line get_type (show_line f) (at_section section fs)
        ≡ some (at_section section (push (file_format get_type f) section fs))
  unfolding read_line
  read_shown f section fs h =
      rw (plain_line (show_line f) (no_letter f), handle_formats_line-show_line f h) refl

  read_entries :
      (es : List Shown) (section : Section) (fs : FormatList)
      → All IsShown es
      → read_lines get_type (map show_line es) (at_section section fs)
        ≡ some (at_section section (extended section (map (file_format get_type) es) fs))
  unfolding read_lines
  read_entries [] section fs h = rw (extended-nil section fs) refl
  read_entries (e ∷ es) section fs (h, hs) =
      rw
        (
          read_shown e section fs h,
          read_entries es section (push (file_format get_type e) section fs) hs,
          extended-push section (file_format get_type e) (map (file_format get_type) es) fs,
        )
        refl

  read_section :
      (es : List Shown) (section : Section) (d : Detection)
      → All IsShown es
      → read_lines get_type (show_section section es) d
        ≡ some (at_section section (extended section (map (file_format get_type) es) d.formats))
  unfolding read_lines
  read_section es section d h =
      rw
        (
          read_heading section d,
          read_empty_line (at_section section d.formats),
          read_lines-append (map show_line es) (Text.[] ∷ []) (at_section section d.formats),
          read_entries es section d.formats h,
          read_empty_line
              (at_section section (extended section (map (file_format get_type) es) d.formats)),
        )
        refl

  then_section :
      (es : List Shown) (section : Section) (d : Detection) (rest : List String)
      → All IsShown es
      → read_lines get_type (show_section section es ++ rest) d
        ≡ read_lines get_type rest
            (at_section section (extended section (map (file_format get_type) es) d.formats))
  then_section es section d rest h =
      read_lines-append (show_section section es) rest d
      ∙ ap (λ o. and_then o (read_lines get_type rest)) (read_section es section d h)

  abbrev start : Detection
  start = record { doc_type = none; formats = no_formats }

  last_line : (d : Detection) → read_lines get_type (Text.[] ∷ []) d ≡ some d
  unfolding read_lines
  last_line d = rw (read_empty_line d) refl

  -- Reading the four sections from the start.
  read_listing :
      (l : Listing)
      → IsListing l
      → read_lines get_type (show_lines l ++ Text.[] ∷ []) start
        ≡ some (at_section Section.spreadsheets (format_list get_type l))
  read_listing l (hd, hg, hp, hs) =
      ap (λ lines. read_lines get_type lines start) (in_sections l)
      ∙ then_section l.document Section.documents start _ hd
      ∙ then_section l.graphics Section.drawings _ _ hg
      ∙ then_section l.presentation Section.presentations _ _ hp
      ∙ then_section l.spreadsheet Section.spreadsheets _ _ hs
      ∙ last_line (at_section Section.spreadsheets (format_list get_type l))

  -- The formats are sufficient if something is listed in some section.
  sufficient-entries :
      (ds gs ps ss : List Shown)
      → let l : Listing = record {
        document = ds;
        graphics = gs;
        presentation = ps;
        spreadsheet = ss;
      } in
        (if has_sufficient_formats_detected (format_list get_type l)
          then resolved (format_list get_type l)
          else not_detected)
        ≡ detected_as (entries l) (format_list get_type l)
  unfolding has_sufficient_formats_detected
  sufficient-entries (d ∷ ds) gs ps ss = refl
  sufficient-entries [] (g ∷ gs) ps ss = refl
  sufficient-entries [] [] (p ∷ ps) ss = refl
  sufficient-entries [] [] [] (s ∷ ss) = refl
  sufficient-entries [] [] [] [] = refl

module _ {W : Type 0} (programs : Programs W) (options : Option Options) (w : W) (l : Listing) where
  -- The listing is read whole, and then looked at.
  pub detected_listing :
      IsListing l
      → (programs.exec_file (get_binary options) ("--show" ∷ []) w).0 ≡ some (show l)
      → (detect_supported_formats programs options w).0 ≡ (
          if has_sufficient_formats_detected (format_list programs.get_type l)
          then resolved (format_list programs.get_type l)
          else not_detected)
  unfolding detect_supported_formats add_options
  detected_listing h shown =
      rw
        (shown, split-unlines (show_lines l) (lines-IsLine l h), read_listing programs.get_type l h)
        refl

  -- A listing that unoconv shows, whose parts are not empty, have no space around them and hold no dash,
  -- opening bracket or line end of JavaScript, is detected as its formats, section by section and in the
  -- order shown; if no section lists a format, the detection is given up.
  pub detect_supported_formats-show :
      IsListing l
      → (programs.exec_file (get_binary options) ("--show" ∷ []) w).0 ≡ some (show l)
      → (detect_supported_formats programs options w).0
        ≡ detected_as (entries l) (format_list programs.get_type l)
  detect_supported_formats-show h shown =
      detected_listing h shown
      ∙ sufficient-entries programs.get_type l.document l.graphics l.presentation l.spreadsheet
