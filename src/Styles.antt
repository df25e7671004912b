-- ===== src/Styles.antt =====
-- config/style.go: styles and style sets. A colour is its number in tcell; reading a colour's name, the
-- matching of regular expressions and the file system are parameters.
pub mod Composing
pub mod Sets
pub mod Selected
use nyat.Common.{
  Result, err, ok, ℕ, Bool, true, false, not, List, [], ◌∷◌, ◌++◌, map, Option, none, some, Text,
  codes, ◌==◌, ◌||◌, text_eq, if◌then◌else◌,
}
use nyat.Common.Dict.{Dict, lookup, insert, nat_eq, text_key_eq}

pub record Style : Type 0 where
  pub fg : ℕ
  pub bg : ℕ
  pub bold : Bool
  pub blink : Bool
  pub underline : Bool
  pub reverse : Bool

-- `new(Style)`, which is also what `Reset` makes: tcell's ColorDefault is 0.
abbrev pub blank_style : Style
blank_style = record {
  fg = 0;
  bg = 0;
  bold = false;
  blink = false;
  underline = false;
  reverse = false;
}

unfoldable pub normal : Style → Style
normal s = record s { bold = false; blink = false; underline = false; reverse = false }

unfoldable pub default : Style → Style
default s = record s { fg = 0; bg = 0 }

unfoldable pub reset : Style → Style
unfolding default normal
reset s = normal (default s)

unfoldable pub bool_switch : Text → Bool → Result Bool
bool_switch val current =
    if text_eq val (codes "true")
    then ok true
    else if text_eq val (codes "false")
    then ok false
    else if text_eq val (codes "toggle")
    then ok (not current)
    else err (codes "Bool Switch attribute must be true, false, or toggle")

abbrev pub switched : Result Bool → (Bool → Style) → Result Style
switched (err e) f = err e
switched (ok b) f = ok (f b)

-- `Set`
unfoldable pub set_attr : (Text → ℕ) → Text → Text → Style → Result Style
unfolding bool_switch default normal
set_attr get_color attr val s =
    if text_eq attr (codes "fg")
    then ok (record s { fg = get_color val })
    else if text_eq attr (codes "bg")
    then ok (record s { bg = get_color val })
    else if text_eq attr (codes "bold")
    then switched (bool_switch val s.bold) (λ b. record s { bold = b })
    else if text_eq attr (codes "blink")
    then switched (bool_switch val s.blink) (λ b. record s { blink = b })
    else if text_eq attr (codes "underline")
    then switched (bool_switch val s.underline) (λ b. record s { underline = b })
    else if text_eq attr (codes "reverse")
    then switched (bool_switch val s.reverse) (λ b. record s { reverse = b })
    else if text_eq attr (codes "default")
    then ok (default s)
    else if text_eq attr (codes "normal")
    then ok (normal s)
    else err (codes "Unknown style attribute: " ++ attr)

abbrev pub bool_eq : Bool → Bool → Bool
bool_eq true b = b
bool_eq false b = not b

-- One round of the loop of `composeWith`, for the style that is composed.
unfoldable pub compose_step : Style → Style → Style → Style
compose_step s st new = record {
  fg = if st.fg == s.fg then new.fg else st.fg;
  bg = if st.bg == s.bg then new.bg else st.bg;
  bold = if bool_eq st.bold s.bold then new.bold else st.bold;
  blink = if bool_eq st.blink s.blink then new.blink else st.blink;
  underline = if bool_eq st.underline s.underline then new.underline else st.underline;
  reverse = if bool_eq st.reverse s.reverse then new.reverse else st.reverse;
}

unfoldable pub compose_loop : Style → List Style → Style → Style
unfolding compose_step
compose_loop s [] new = new
compose_loop s (st ∷ styles) new = compose_loop s styles (compose_step s st new)

unfoldable pub compose_with : Style → List Style → Style
unfolding compose_loop
compose_with s styles = compose_loop s styles s
