-- ===== src/Format/Ending.antt =====
-- lib/format/format.go: each round of `ParseMessageFormat` shortens the format, so the loop ends.
use nyat.Common.{
  ℕ, zero, suc, ◌≤◌, ◌<◌, List, [], ◌∷◌, ◌++◌, Option, none, some, Text, length, ◌==◌, ◌≢◌, refl,
  arith, Bool-cases, inl, inr,
}
use nyat.Format.{Arg, Ctx, Verb, emit, missing, nil_envelope, verb_case, run_verb}
use nyat.Format.Parse.{
  Outcome, parsed, failed, panicked, out_of_fuel, to_percent, is_flag, is_digit, take_flag,
  take_digits, take_point, prepend, add_verb, Scan, ended, cut, overrun, at_verb, scan_verb,
  scan_point, scan_width, scan_flag, scan, turn, parse_from, parse_message_format,
}

-- What is left is at most n long.
abbrev AtMost : ℕ → Option (Text × Text) → Type 0
AtMost n none = Unit
AtMost n (some (taken, rest)) = length rest ≤ n

-- The rest behind a verb is shorter than n.
abbrev Shorter : ℕ → Scan → Type 0
Shorter n (at_verb copied c rest) = length rest < n
Shorter n _ = Unit

consed :
    (n c : ℕ) (o : Option (Text × Text))
    → AtMost n o
    → AtMost n (elim o [ none ↦ none | some p ↦ some (c ∷ p.0, p.1) ])
consed n c none h = tt
consed n c (some p) h = h

AtMost-suc : (n : ℕ) (o : Option (Text × Text)) → AtMost n o → AtMost (suc n) o
AtMost-suc n none h = tt
AtMost-suc n (some (t, r)) h = omega (arith, h)

take_digits-AtMost : (s : Text) → AtMost (length s) (take_digits s)
unfolding take_digits
take_digits-AtMost [] = tt
take_digits-AtMost (c ∷ s) = elim (Bool-cases (is_digit c)) [
  | inl e ↦
      rw e (AtMost-suc (length s) _ (consed (length s) c (take_digits s) (take_digits-AtMost s)))
  | inr e ↦ rw e (omega arith)
]

take_point-AtMost : (s : Text) → AtMost (length s) (take_point s)
unfolding take_point
take_point-AtMost [] = tt
take_point-AtMost (c ∷ s) = elim (Bool-cases (c == 46)) [
  | inl e ↦
      rw e (AtMost-suc (length s) _ (consed (length s) 46 (take_digits s) (take_digits-AtMost s)))
  | inr e ↦ rw e (omega arith)
]

scan_verb-Shorter :
    (copied : Text) (n : ℕ) (o : Option (Text × Text)) → AtMost n o → Shorter n (scan_verb copied o)
unfolding scan_verb
scan_verb-Shorter copied n none h = tt
scan_verb-Shorter copied n (some (point, [])) h = tt
scan_verb-Shorter copied n (some (point, c ∷ rest)) h = h

AtMost-le : (m n : ℕ) (o : Option (Text × Text)) → m ≤ n → AtMost m o → AtMost n o
AtMost-le m n none k h = tt
AtMost-le m n (some (t, r)) k h = omega (arith, h, k)

scan_point-Shorter :
    (copied : Text) (n : ℕ) (o : Option (Text × Text))
    → AtMost n o
    → Shorter n (scan_point copied o)
unfolding scan_point
scan_point-Shorter copied n none h = tt
scan_point-Shorter copied n (some (width, s)) h =
    scan_verb-Shorter (copied ++ width) n (take_point s)
      (AtMost-le (length s) n (take_point s) h (take_point-AtMost s))

scan_width-Shorter : (before flag s : Text) → Shorter (length s) (scan_width before (flag, s))
unfolding scan_width
scan_width-Shorter before flag [] = tt
scan_width-Shorter before flag (c ∷ s) =
    scan_point-Shorter (before ++ flag) (length (c ∷ s)) (take_digits (c ∷ s))
      (take_digits-AtMost (c ∷ s))

Shorter-le : (m n : ℕ) (r : Scan) → m ≤ n → Shorter m r → Shorter n r
Shorter-le m n ended k h = tt
Shorter-le m n cut k h = tt
Shorter-le m n overrun k h = tt
Shorter-le m n (at_verb copied c rest) k h = omega (arith, h, k)

scan_flag-Shorter : (n : ℕ) (o : Option (Text × Text)) → AtMost n o → Shorter n (scan_flag o)
unfolding scan_flag take_flag
scan_flag-Shorter n none h = tt
scan_flag-Shorter n (some (before, [])) h = tt
scan_flag-Shorter n (some (before, c ∷ s)) h = elim (Bool-cases (is_flag c)) [
  | inl e ↦
      rw e (Shorter-le (length s) n _ (omega (arith, h)) (scan_width-Shorter before (c ∷ []) s))
  | inr e ↦ rw e (Shorter-le (length (c ∷ s)) n _ h (scan_width-Shorter before [] (c ∷ s)))
]

to_percent-AtMost : (s : Text) → AtMost (length s) (to_percent s)
unfolding to_percent
to_percent-AtMost [] = tt
to_percent-AtMost (c ∷ s) = elim (Bool-cases (c == 37)) [
  | inl e ↦ rw e (omega arith)
  | inr e ↦
      rw e (AtMost-suc (length s) _ (consed (length s) c (to_percent s) (to_percent-AtMost s)))
]

scan-Shorter : (s : Text) → Shorter (length s) (scan s)
unfolding scan
scan-Shorter s = scan_flag-Shorter (length s) (to_percent s) (to_percent-AtMost s)

prepend-ends :
    (out : Text) (args : List Arg) (r : Outcome)
    → r ≢ out_of_fuel
    → prepend out args r ≢ out_of_fuel
unfolding prepend
prepend-ends out args (parsed o a) h e = cc
prepend-ends out args (failed x) h e = cc
prepend-ends out args panicked h e = cc
prepend-ends out args out_of_fuel h e = h refl

add_verb-ends :
    (copied : Text) (v : Verb) (r : Outcome) → r ≢ out_of_fuel → add_verb copied v r ≢ out_of_fuel
unfolding add_verb
add_verb-ends copied (emit out args) r h = prepend-ends (copied ++ out) args r h
add_verb-ends copied (missing x) r h = λ e. cc
add_verb-ends copied nil_envelope r h = λ e. cc

module _ (date_text : ℕ → Text) (time_format : Text) (ctx : Ctx) where
  turn-ends :
      (next : Text → Outcome) (format : Text) (n : ℕ) (r : Scan)
      → Shorter n r
      → ((rest : Text) → length rest < n → next rest ≢ out_of_fuel)
      → turn date_text time_format ctx next format r ≢ out_of_fuel
  unfolding turn
  turn-ends next format n ended h k = λ e. cc
  turn-ends next format n cut h k = λ e. cc
  turn-ends next format n overrun h k = λ e. cc
  turn-ends next format n (at_verb copied c rest) h k =
      add_verb-ends copied (run_verb date_text time_format ctx (verb_case c) c) (next rest)
        (k rest h)

  parse_from-ends :
      (fuel : ℕ) (format : Text)
      → length format < fuel
      → parse_from date_text time_format ctx fuel format ≢ out_of_fuel
  unfolding parse_from
  parse_from-ends zero format h = absurd (omega arith)
  parse_from-ends (suc fuel) format h =
      turn-ends (parse_from date_text time_format ctx fuel) format (length format) (scan format)
        (scan-Shorter format) (λ rest k. parse_from-ends fuel rest (omega (arith, h, k)))

  -- The loop always ends: its rounds do not run out.
  pub parse_message_format-ends :
      (from_error : Option Text) (format : Text)
      → parse_message_format date_text time_format ctx from_error format ≢ out_of_fuel
  unfolding parse_message_format
  parse_message_format-ends (some x) format = λ e. cc
  parse_message_format-ends none format = parse_from-ends (suc (length format)) format (omega arith)
