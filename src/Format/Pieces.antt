-- ===== src/Format/Pieces.antt =====
-- lib/format/format.go: what `ParseMessageFormat` makes of a format that is spelled from pieces, and
-- that its loop ends.
use nyat.Common.{
  ℕ, zero, suc, ◌<◌, true, false, List, [], ◌∷◌, ◌++◌, none, some, Text, length, length-append,
  ◌==◌, ==_iff, ◌≡◌, refl, arith, ap, sym, ◌∙◌, All,
}
use nyat.Format.{Ctx, verb_case, run_verb}
use nyat.Format.Parse.{
  Outcome, parsed, to_percent, is_flag, is_digit, take_flag, take_digits, take_point, add_verb,
  ended, at_verb, scan_verb, scan_point, scan_width, scan_flag, scan, turn, parse_from,
  parse_message_format,
}

abbrev pub IsPlain : Text → Type 0
IsPlain s = All (λ c. (c == 37) ≡ false) s

abbrev pub AreDigits : Text → Type 0
AreDigits s = All (λ c. is_digit c ≡ true) s

-- No flag at the start.
abbrev pub NoFlag : Text → Type 0
NoFlag [] = Unit
NoFlag (c ∷ s) = is_flag c ≡ false

-- At most one flag, which stands before s.
abbrev pub IsFlags : Text → Text → Type 0
IsFlags [] s = NoFlag s
IsFlags (f ∷ []) s = is_flag f ≡ true
IsFlags (f ∷ g ∷ fs) s = ⊥

-- A precision, or none.
abbrev pub IsPoint : Text → Type 0
IsPoint [] = Unit
IsPoint (c ∷ ds) = ((c == 46) ≡ true) × AreDigits ds

-- A verb, with the text before it, a flag or none, a width and a precision.
pub record Piece : Type 0 where
  pub before : Text
  pub flag : Text
  pub width : Text
  pub point : Text
  pub verb : ℕ
  pub before_plain : IsPlain before
  pub one_flag : IsFlags flag (width ++ point ++ verb ∷ [])
  pub width_digits : AreDigits width
  pub a_point : IsPoint point
  pub no_digit : is_digit verb ≡ false
  pub no_point : (verb == 46) ≡ false

-- A piece, before the rest of a format.
abbrev pub spelled : Piece → Text → Text
spelled p rest = p.before ++ 37 ∷ (p.flag ++ (p.width ++ (p.point ++ p.verb ∷ rest)))

-- What is copied of a piece.
abbrev pub copied_of : Piece → Text
copied_of p = (((p.before ++ 37 ∷ []) ++ p.flag) ++ p.width) ++ p.point

abbrev pub spell : List Piece → Text → Text
spell [] tail = tail
spell (p ∷ ps) tail = spelled p (spell ps tail)

pub to_percent-plain :
    (before s : Text) → IsPlain before → to_percent (before ++ 37 ∷ s) ≡ some (before ++ 37 ∷ [], s)
unfolding to_percent
to_percent-plain [] s h = refl
to_percent-plain (c ∷ before) s h = rw (to_percent, h.0, to_percent-plain before s h.1) refl

to_percent-none : (s : Text) → IsPlain s → to_percent s ≡ none
unfolding to_percent
to_percent-none [] h = refl
to_percent-none (c ∷ s) h = rw (to_percent, h.0, to_percent-none s h.1) refl

take_digits-all :
    (ds : Text) (c : ℕ) (s : Text)
    → AreDigits ds
    → is_digit c ≡ false
    → take_digits (ds ++ c ∷ s) ≡ some (ds, c ∷ s)
unfolding take_digits
take_digits-all [] c s h k = rw k refl
take_digits-all (d ∷ ds) c s h k = rw (take_digits, h.0, take_digits-all ds c s h.1 k) refl

take_point-all :
    (point : Text) (c : ℕ) (s : Text)
    → IsPoint point
    → is_digit c ≡ false
    → (c == 46) ≡ false
    → take_point (point ++ c ∷ s) ≡ some (point, c ∷ s)
unfolding take_point
take_point-all [] c s h k n = rw n refl
take_point-all (d ∷ ds) c s h k n =
    rw (h.0, take_digits-all ds c s h.1 k)
      (ap (λ z. some (z ∷ ds, c ∷ s)) (sym ((==_iff d 46).0 h.0)))

-- The digits end where the precision begins.
take_digits-point :
    (width point : Text) (c : ℕ) (s : Text)
    → AreDigits width
    → IsPoint point
    → is_digit c ≡ false
    → take_digits (width ++ (point ++ c ∷ s)) ≡ some (width, point ++ c ∷ s)
take_digits-point width [] c s h p k = take_digits-all width c s h k
take_digits-point width (d ∷ ds) c s h p k =
    take_digits-all width d (ds ++ c ∷ s) h (ground (arith, p.0))

scan_width-cons :
    (before flag width point : Text) (c : ℕ) (s : Text)
    → scan_width before (flag, width ++ (point ++ c ∷ s))
      ≡ scan_point (before ++ flag) (take_digits (width ++ (point ++ c ∷ s)))
unfolding scan_width
scan_width-cons before flag [] [] c s = refl
scan_width-cons before flag [] (p ∷ point) c s = refl
scan_width-cons before flag (w ∷ width) point c s = refl

no_flag :
    (before width point : Text) (c : ℕ) (s : Text)
    → NoFlag (width ++ point ++ c ∷ [])
    → scan_flag (some (before, width ++ (point ++ c ∷ s)))
      ≡ scan_width before ([], width ++ (point ++ c ∷ s))
unfolding scan_flag take_flag
no_flag before [] [] c s h = rw h refl
no_flag before [] (p ∷ point) c s h = rw h refl
no_flag before (w ∷ width) point c s h = rw h refl

scan_flag-flags :
    (before flag width point : Text) (c : ℕ) (s : Text)
    → IsFlags flag (width ++ point ++ c ∷ [])
    → scan_flag (some (before, flag ++ (width ++ (point ++ c ∷ s))))
      ≡ scan_width before (flag, width ++ (point ++ c ∷ s))
unfolding scan_flag take_flag
scan_flag-flags before [] width point c s h = no_flag before width point c s h
scan_flag-flags before (f ∷ []) width point c s h = rw h refl
scan_flag-flags before (f ∷ g ∷ fs) width point c s h = absurd h

scan-spelled : (p : Piece) (rest : Text) → scan (spelled p rest) ≡ at_verb (copied_of p) p.verb rest
unfolding scan scan_point scan_verb
scan-spelled p rest =
    let tail = p.flag ++ (p.width ++ (p.point ++ p.verb ∷ rest)) in
    let before = p.before ++ 37 ∷ [] in
    ap scan_flag (to_percent-plain p.before tail p.before_plain)
    ∙ scan_flag-flags before p.flag p.width p.point p.verb rest p.one_flag
    ∙ scan_width-cons before p.flag p.width p.point p.verb rest
    ∙ ap (scan_point (before ++ p.flag))
        (take_digits-point p.width p.point p.verb rest p.width_digits p.a_point p.no_digit)
    ∙ ap (scan_verb ((before ++ p.flag) ++ p.width))
        (take_point-all p.point p.verb rest p.a_point p.no_digit p.no_point)

scan-plain : (tail : Text) → IsPlain tail → scan tail ≡ ended
unfolding scan scan_flag
scan-plain tail h = ap scan_flag (to_percent-none tail h)

length-spelled : (p : Piece) (rest : Text) → length rest < length (spelled p rest)
length-spelled p rest = omega (
  arith,
  length-append p.before (37 ∷ (p.flag ++ (p.width ++ (p.point ++ p.verb ∷ rest)))),
  length-append p.flag (p.width ++ (p.point ++ p.verb ∷ rest)),
  length-append p.width (p.point ++ p.verb ∷ rest),
  length-append p.point (p.verb ∷ rest),
)

module _ (date_text : ℕ → Text) (time_format : Text) (ctx : Ctx) where
  -- The pieces one after the other, each for itself, and then the text behind them.
  abbrev pub evaluate : List Piece → Text → Outcome
  evaluate [] tail = parsed tail []
  evaluate (p ∷ ps) tail =
      add_verb (copied_of p) (run_verb date_text time_format ctx (verb_case p.verb) p.verb)
        (evaluate ps tail)

  parse_from-evaluate :
      (ps : List Piece) (tail : Text) (fuel : ℕ)
      → IsPlain tail
      → length (spell ps tail) < fuel
      → parse_from date_text time_format ctx fuel (spell ps tail) ≡ evaluate ps tail
  unfolding parse_from turn
  parse_from-evaluate ps tail zero h k = absurd (omega arith)
  parse_from-evaluate [] tail (suc fuel) h k =
      ap (turn date_text time_format ctx (parse_from date_text time_format ctx fuel) tail)
        (scan-plain tail h)
  parse_from-evaluate (p ∷ ps) tail (suc fuel) h k =
      let rest = spell ps tail in
      let ih = parse_from-evaluate ps tail fuel h (omega (arith, length-spelled p rest)) in
      ap
        (turn date_text time_format ctx (parse_from date_text time_format ctx fuel)
          (spelled p rest))
        (scan-spelled p rest)
      ∙ ap (add_verb (copied_of p) (run_verb date_text time_format ctx (verb_case p.verb) p.verb))
          ih

  -- A format that is spelled from pieces, each a text without a percent sign and a verb with at most
  -- one flag, a width and a precision, and a text without a percent sign behind them, is read piece by
  -- piece: the text, the flag, the width and the precision are copied and followed by what the verb
  -- adds, and the first verb that gives an error or panics ends the run.
  pub parse_message_format-evaluate :
      (ps : List Piece) (tail : Text)
      → IsPlain tail
      → parse_message_format date_text time_format ctx none (spell ps tail) ≡ evaluate ps tail
  unfolding parse_message_format
  parse_message_format-evaluate ps tail h =
      parse_from-evaluate ps tail (suc (length (spell ps tail))) h (omega arith)
