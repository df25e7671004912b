-- ===== src/Format/Parse.antt =====
-- lib/format/format.go: `ParseMessageFormat`. The index into the format is the rest of it.
use nyat.Common.{
  ℕ, zero, suc, Bool, ◌&&◌, ◌||◌, List, [], ◌∷◌, ◌++◌, Option, none, some, Text, codes, length, leb,
  ◌==◌, if◌then◌else◌,
}
use nyat.Format.{Arg, Ctx, Verb, emit, missing, nil_envelope, verb_case, run_verb}

-- What is returned: the format for printing with its arguments, or an error. A panic is an index out
-- of range or a nil envelope. A run may need more fuel.
pub data Outcome : Type 0 where
  parsed : Text → List Arg → Outcome
  failed : Text → Outcome
  panicked : Outcome
  out_of_fuel : Outcome

abbrev pub end_error : Outcome
end_error = failed (codes "reached end of string while parsing message format")

-- The text to the first percent sign, with it, and what stands behind it.
unfoldable pub to_percent : Text → Option (Text × Text)
to_percent [] = none
to_percent (c ∷ s) =
    let rest = to_percent s in
    if c == 37 then some (37 ∷ [], s) else elim rest [ none ↦ none | some p ↦ some (c ∷ p.0, p.1) ]

abbrev pub is_flag : ℕ → Bool
is_flag c = (c == 43) || (c == 45) || (c == 35) || (c == 32) || (c == 48)

abbrev pub is_digit : ℕ → Bool
is_digit c = leb 48 c && leb c 57

-- A flag of fmt, if one is there.
unfoldable pub take_flag : Text → Text × Text
take_flag [] = ([], [])
take_flag (c ∷ s) = if is_flag c then (c ∷ [], s) else ([], c ∷ s)

-- The digits, and the rest, of which the first byte is read: `none` is the panic at the end.
unfoldable pub take_digits : Text → Option (Text × Text)
take_digits [] = none
take_digits (c ∷ s) =
    let rest = take_digits s in
    if is_digit c
    then (elim rest [ none ↦ none | some p ↦ some (c ∷ p.0, p.1) ])
    else some ([], c ∷ s)

-- A point with the digits behind it, if one is there.
unfoldable pub take_point : Text → Option (Text × Text)
unfolding take_digits
take_point [] = none
take_point (c ∷ s) =
    if c == 46
    then (elim (take_digits s) [ none ↦ none | some p ↦ some (46 ∷ p.0, p.1) ])
    else some ([], c ∷ s)

-- The bytes and arguments of a part, before those of the rest.
unfoldable pub prepend : Text → List Arg → Outcome → Outcome
prepend out args (parsed rest more) = parsed (out ++ rest) (args ++ more)
prepend out args (failed e) = failed e
prepend out args panicked = panicked
prepend out args out_of_fuel = out_of_fuel

-- What a verb comes to, behind the text that has been copied, with what the rest of the loop would.
unfoldable pub add_verb : Text → Verb → Outcome → Outcome
unfolding prepend
add_verb copied (emit out args) rest = prepend (copied ++ out) args rest
add_verb copied (missing e) rest = failed e
add_verb copied nil_envelope rest = panicked

-- What the loop finds next: no percent sign, the end of the format behind one, an index out of range,
-- or a verb with the text up to it and the rest.
pub data Scan : Type 0 where
  ended : Scan
  cut : Scan
  overrun : Scan
  at_verb : (copied : Text) (c : ℕ) (rest : Text) → Scan

unfoldable pub scan_verb : Text → Option (Text × Text) → Scan
scan_verb copied none = overrun
scan_verb copied (some (point, [])) = cut
scan_verb copied (some (point, c ∷ rest)) = at_verb (copied ++ point) c rest

unfoldable pub scan_point : Text → Option (Text × Text) → Scan
unfolding take_point scan_verb
scan_point copied none = overrun
scan_point copied (some (width, s)) = scan_verb (copied ++ width) (take_point s)

unfoldable pub scan_width : Text → Text × Text → Scan
unfolding take_digits scan_point
scan_width before (flag, []) = cut
scan_width before (flag, c ∷ s) = scan_point (before ++ flag) (take_digits (c ∷ s))

unfoldable pub scan_flag : Option (Text × Text) → Scan
unfolding take_flag scan_width
scan_flag none = ended
scan_flag (some (before, [])) = cut
scan_flag (some (before, c ∷ s)) = scan_width before (take_flag (c ∷ s))

unfoldable pub scan : Text → Scan
unfolding to_percent scan_flag
scan format = scan_flag (to_percent format)

module _ (date_text : ℕ → Text) (time_format : Text) (ctx : Ctx) where
  -- What a round makes of a format in which it has found something, with the rounds after it.
  unfoldable pub turn : (Text → Outcome) → Text → Scan → Outcome
  unfolding add_verb run_verb verb_case
  turn next format ended = parsed format []
  turn next format cut = end_error
  turn next format overrun = panicked
  turn next format (at_verb copied c rest) =
      add_verb copied (run_verb date_text time_format ctx (verb_case c) c) (next rest)

  -- The loop.
  unfoldable pub parse_from : ℕ → Text → Outcome
  unfolding scan turn
  parse_from zero format = out_of_fuel
  parse_from (suc fuel) format = turn (parse_from fuel) format (scan format)

  -- `from_error` is what net/mail says of the account's address. Each round of the loop reads a
  -- verb, so one round more than the format is long is enough.
  unfoldable pub parse_message_format : Option Text → Text → Outcome
  unfolding parse_from
  parse_message_format (some from_error) format = failed from_error
  parse_message_format none format = parse_from (suc (length format)) format
