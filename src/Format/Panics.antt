-- ===== src/Format/Panics.antt =====
-- lib/format/format.go: formats on which `ParseMessageFormat` reads behind the end.
use nyat.Common.{ℕ, false, [], ◌∷◌, ◌++◌, none, some, Text, length, ◌≡◌, refl, ap, ◌∙◌}
use nyat.Format.{Ctx}
use nyat.Format.Parse.{
  panicked, is_flag, take_flag, take_digits, overrun, scan_point, scan_width, scan_flag, scan, turn,
  parse_from, parse_message_format,
}
use nyat.Format.Pieces.{IsPlain, AreDigits, to_percent-plain}

take_digits-none : (ds : Text) → AreDigits ds → take_digits ds ≡ none
unfolding take_digits
take_digits-none [] h = refl
take_digits-none (d ∷ ds) h = rw (take_digits, h.0, take_digits-none ds h.1) refl

digits_left :
    (before : Text) (d : ℕ) (ds : Text)
    → is_flag d ≡ false
    → AreDigits (d ∷ ds)
    → scan_flag (some (before, d ∷ ds)) ≡ overrun
unfolding scan_flag take_flag scan_width scan_point
digits_left before d ds f h = rw (f) (ap (scan_point (before ++ [])) (take_digits-none (d ∷ ds) h))

module _ (date_text : ℕ → Text) (time_format : Text) (ctx : Ctx) where
  -- A format that ends in a percent sign and a width, which does not begin with 0, panics: the loop over
  -- the digits reads behind the end.
  pub parse_message_format-panicked :
      (before : Text) (d : ℕ) (ds : Text)
      → IsPlain before
      → is_flag d ≡ false
      → AreDigits (d ∷ ds)
      → parse_message_format date_text time_format ctx none (before ++ 37 ∷ d ∷ ds) ≡ panicked
  unfolding parse_message_format parse_from turn scan
  parse_message_format-panicked before d ds b f h =
      let format = before ++ 37 ∷ d ∷ ds in
      ap
        (turn date_text time_format ctx (parse_from date_text time_format ctx (length format))
          format)
        (ap scan_flag (to_percent-plain before (d ∷ ds) b)
          ∙ digits_left (before ++ 37 ∷ []) d ds f h)
