-- ===== src/Imap/Search.antt =====
-- worker/imap/search.go: the criteria of a search. What getopt makes of the arguments is a parameter.
use nyat.Common.{
  Result, err, ok, ℕ, Bool, true, false, List, [], ◌∷◌, ◌++◌, map, Option, none, some, Text, codes,
  text_eq, if◌then◌else◌, ◌==◌,
}

-- `imap.SearchCriteria`, as far as it is filled in.
pub record SearchCriteria : Type 0 where
  pub with_flags : List Text
  pub without_flags : List Text
  pub header : List (Text × Text)
  pub body : List Text
  pub text : List Text

-- An option with its value.
pub record Opt : Type 0 where
  pub option : ℕ
  pub value : Text

-- The names of go-imap's flags.
pub record FlagNames : Type 0 where
  pub seen : Text
  pub flagged : Text
  pub answered : Text

abbrev pub new_search_criteria : SearchCriteria
new_search_criteria = record {
  with_flags = [];
  without_flags = [];
  header = [];
  body = [];
  text = [];
}

pub data OptCase : Type 0 where
  read_opt unread_opt with_opt without_opt from_opt to_opt cc_opt body_opt text_opt no_opt : OptCase

-- The cases of the switch.
unfoldable pub opt_case : ℕ → OptCase
opt_case c =
    if c == 114
    then read_opt
    else if c == 117
    then unread_opt
    else if c == 120
    then with_opt
    else if c == 88
    then without_opt
    else if c == 102
    then from_opt
    else if c == 116
    then to_opt
    else if c == 99
    then cc_opt
    else if c == 98
    then body_opt
    else if c == 97
    then text_opt
    else no_opt

-- The variables of the loop.
pub record Search : Type 0 where
  pub criteria : SearchCriteria
  pub in_body : Bool
  pub in_text : Bool

module _ (lower : ℕ → ℕ) (names : FlagNames) where
  unfoldable pub get_parsed_flag : Text → Option Text
  get_parsed_flag name =
      let n = map lower name in
      if text_eq n (codes "seen")
      then some names.seen
      else if text_eq n (codes "flagged")
      then some names.flagged
      else if text_eq n (codes "answered")
      then some names.answered
      else none

  abbrev pub with_flag : Text → SearchCriteria → SearchCriteria
  with_flag f c = record c { with_flags = c.with_flags ++ f ∷ [] }

  abbrev pub without_flag : Text → SearchCriteria → SearchCriteria
  without_flag f c = record c { without_flags = c.without_flags ++ f ∷ [] }

  abbrev pub add_header : Text → Text → SearchCriteria → SearchCriteria
  add_header key value c = record c { header = c.header ++ (key, value) ∷ [] }

  abbrev pub on_flag :
      Option Text → (Text → SearchCriteria → SearchCriteria) → SearchCriteria → SearchCriteria
  on_flag none f c = c
  on_flag (some flag) f c = f flag c

  unfoldable pub opt_step : OptCase → Text → Search → Search
  unfolding get_parsed_flag
  opt_step read_opt v s = record s { criteria = with_flag names.seen s.criteria }
  opt_step unread_opt v s = record s { criteria = without_flag names.seen s.criteria }
  opt_step with_opt v s = record s { criteria = on_flag (get_parsed_flag v) with_flag s.criteria }
  opt_step without_opt v s = record s {
    criteria = on_flag (get_parsed_flag v) without_flag s.criteria;
  }
  opt_step from_opt v s = record s { criteria = add_header (codes "From") v s.criteria }
  opt_step to_opt v s = record s { criteria = add_header (codes "To") v s.criteria }
  opt_step cc_opt v s = record s { criteria = add_header (codes "Cc") v s.criteria }
  opt_step body_opt v s = record s { in_body = true }
  opt_step text_opt v s = record s { in_text = true }
  opt_step no_opt v s = s

  unfoldable pub opts_loop : List Opt → Search → Search
  unfolding opt_step opt_case
  opts_loop [] s = s
  opts_loop (o ∷ opts) s = opts_loop opts (opt_step (opt_case o.option) o.value s)

  unfoldable pub add_subjects : List Text → SearchCriteria → SearchCriteria
  add_subjects [] c = c
  add_subjects (arg ∷ args) c = add_subjects args (add_header (codes "Subject") arg c)

  -- `parseSearch`: the options and the arguments behind them, or getopt's error.
  unfoldable pub parse_search : Result (List Opt × List Text) → Result SearchCriteria
  unfolding opts_loop add_subjects
  parse_search (err e) = err e
  parse_search (ok (opts, args)) =
      let s =
        opts_loop opts
          (record { criteria = new_search_criteria; in_body = false; in_text = false }) in
      ok (
        if s.in_text
        then record s.criteria { text = args }
        else if s.in_body
        then record s.criteria { body = args }
        else add_subjects args s.criteria)
