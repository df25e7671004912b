-- ===== src/DirList/Labels.antt =====
-- widgets/dirlist.go: `getDirString`, the label of a directory by the `dirlist-format`. The functions
-- of go-runewidth are parameters.
use mathlib.Core.List.{append_assoc, append-nil}
use nyat.Common.{
  ℕ, ◌+◌, ◌/◌, ◌%◌, length, Bool, true, false, List, [], ◌∷◌, ◌++◌, Text, codes, ltb, ◌==◌,
  select_if, if◌then◌else◌, ◌≡◌, refl, ap, sym, ◌∙◌, All, ◌≢◌,
}
use nyat.Common.Int.{ℤ, pos, ◌-ℤ◌}

-- `len(s)`: the bytes of its UTF-8 encoding.
unfoldable pub byte_length : Text → ℕ
byte_length [] = 0
byte_length (c ∷ s) =
    (if ltb c 128 then 1 else if ltb c 2048 then 2 else if ltb c 65536 then 3 else 4)
    + byte_length s

pub data Char : Type 0 where
  percent_char right_char name_char recent_char other_char : Char

-- The cases of the switch.
unfoldable pub char_case : ℕ → Char
char_case c =
    if c == 37
    then percent_char
    else if c == 62
    then right_char
    else if c == 110
    then name_char
    else if c == 114
    then recent_char
    else other_char

-- The variables of the loop.
pub record Format : Type 0 where
  pub percent : Bool
  pub right_justify : Bool
  pub formatted : Text

-- The bytes of the UTF-8 encoding.
abbrev pub utf8_char : ℕ → List ℕ
utf8_char c =
    if ltb c 128
    then c ∷ []
    else if ltb c 2048
    then (192 + c / 64) ∷ (128 + c % 64) ∷ []
    else if ltb c 65536
    then (224 + c / 4096) ∷ (128 + (c / 64) % 64) ∷ (128 + c % 64) ∷ []
    else (240 + c / 262144) ∷ (128 + (c / 4096) % 64) ∷ (128 + (c / 64) % 64) ∷ (128 + c % 64) ∷ []

abbrev pub utf8 : Text → List ℕ
utf8 [] = []
utf8 (c ∷ s) = utf8_char c ++ utf8 s

-- A piece of a format, as its author means it.
pub data Piece : Type 0 where
  letter : (c : ℕ) → char_case c ≡ other_char → Piece
  a_percent a_name a_recent a_right_name a_right_recent : Piece

abbrev pub spelled : Piece → Text
spelled (letter c h) = c ∷ []
spelled a_percent = codes "%%"
spelled a_name = codes "%n"
spelled a_recent = codes "%r"
spelled a_right_name = codes "%>n"
spelled a_right_recent = codes "%>r"

abbrev pub spell : List Piece → Text
spell [] = []
spell (p ∷ ps) = spelled p ++ spell ps

module _ (fill_right : Text → ℤ → Text) (truncate : Text → ℤ → Text → Text) where
  unfoldable pub do_right_justify : ℤ → Text → Text → Text
  unfolding byte_length
  do_right_justify width s formatted =
      let room = width -ℤ pos (byte_length s) in
      truncate (fill_right formatted room) room (codes "…")

  -- A verb that stands for the text s.
  unfoldable pub put : ℤ → Text → Format → Format
  unfolding do_right_justify
  put width s f =
      if f.percent
      then record f {
        percent = false;
        right_justify = false;
        formatted =
            (if f.right_justify then do_right_justify width s f.formatted else f.formatted) ++ s;
      }
      else f

  unfoldable pub format_char : ℤ → Text → Text → Char → ℕ → Format → Format
  unfolding put
  format_char width name recent percent_char c f =
      if f.percent
      then record f { percent = false; formatted = f.formatted ++ c ∷ [] }
      else record f { percent = true }
  format_char width name recent right_char c f = record f {
    right_justify = if f.percent then true else f.right_justify;
  }
  format_char width name recent name_char c f = put width name f
  format_char width name recent recent_char c f = put width recent f
  format_char width name recent other_char c f = record f { formatted = f.formatted ++ c ∷ [] }

  unfoldable pub format_from : ℤ → Text → Text → Text → Format → Format
  unfolding format_char char_case
  format_from width name recent [] f = f
  format_from width name recent (c ∷ cs) f =
      format_from width name recent cs (format_char width name recent (char_case c) c f)

  -- `getDirString`: `format` is the option, `recent` what `recentUnseen` returns.
  unfoldable pub get_dir_string : Text → Text → ℤ → Text → Text
  unfolding format_from
  get_dir_string format name width recent =
      (format_from width name recent format
        (record { percent = false; right_justify = false; formatted = [] })).formatted

  -- What stands left of a text s at the right end: filled up or cut to what the bytes of s leave.
  abbrev pub justified : ℤ → Text → Text → Text
  justified width s out =
      truncate (fill_right out (width -ℤ pos (length (utf8 s)))) (width -ℤ pos (length (utf8 s)))
        (codes "…")

  module _ (name recent : Text) (width : ℤ) where
    abbrev pub rendered : Text → Piece → Text
    rendered out (letter c h) = out ++ c ∷ []
    rendered out a_percent = out ++ codes "%"
    rendered out a_name = out ++ name
    rendered out a_recent = out ++ recent
    rendered out a_right_name = justified width name out ++ name
    rendered out a_right_recent = justified width recent out ++ recent

    abbrev pub render : Text → List Piece → Text
    render out [] = out
    render out (p ∷ ps) = render (rendered out p) ps

    abbrev plain : Text → Format
    plain out = record { percent = false; right_justify = false; formatted = out }

    -- The characters that stay where no percent sign stands before them.
    abbrev is_other : Char → Bool
    is_other other_char = true
    is_other _ = false

    unfoldable pub stays : ℕ → Bool
    stays c = is_other (char_case c)

    format_char-plain :
        (k : Char) (c : ℕ) (out : Text)
        → k ≢ percent_char
        → format_char width name recent k c (plain out)
          ≡ plain (if is_other k then out ++ c ∷ [] else out)
    unfolding format_char put
    format_char-plain percent_char c out h = absurd (h refl)
    format_char-plain right_char c out h = refl
    format_char-plain name_char c out h = refl
    format_char-plain recent_char c out h = refl
    format_char-plain other_char c out h = refl

    kept_append :
        (b : Bool) (c : ℕ) (out rest : Text)
        → (if b then out ++ c ∷ [] else out) ++ rest ≡ out ++ (if b then c ∷ rest else rest)
    kept_append true c out rest = append_assoc out (c ∷ []) rest
    kept_append false c out rest = refl

    format_from-plain :
        (format : Text) (out : Text)
        → All (λ c. char_case c ≢ percent_char) format
        → format_from width name recent format (plain out) ≡ plain (out ++ select_if stays format)
    unfolding format_from stays
    format_from-plain [] out h = ap plain (sym (append-nil out))
    format_from-plain (c ∷ format) out h =
        ap (format_from width name recent format) (format_char-plain (char_case c) c out h.0)
        ∙ format_from-plain format (if stays c then out ++ c ∷ [] else out) h.1
        ∙ ap plain (kept_append (stays c) c out (select_if stays format))

    -- A format without a percent sign is not copied to the label: each n, r and > is left out.
    pub get_dir_string-plain :
        (format : Text)
        → All (λ c. char_case c ≢ percent_char) format
        → get_dir_string format name width recent ≡ select_if stays format
    unfolding get_dir_string
    get_dir_string-plain format h = ap (λ f. f.formatted) (format_from-plain format [] h)
