-- ===== src/Maildir.antt =====
-- worker/maildir/search.go: the search in a maildir; the modules below have the rest of worker/maildir,
-- and worker/lib/parse.go. A flag is its letter; what getopt makes of the arguments, and what reading a
-- part of a message gives, are parameters.
pub mod Parse
pub mod PartTexts
pub mod Envelope
pub mod Steps
pub mod Container
pub mod Worker
pub mod Actions
pub mod Kept
pub mod Keeping
pub mod Handling
pub mod Acting
pub mod Answering
pub mod Safe
pub mod Contents
pub mod Deleting
pub mod Flagging
pub mod Matching
pub mod Unknown
use nyat.Common.{
  Result, err, ok, ℕ, Bool, true, false, not, ◌&&◌, ◌||◌, List, [], ◌∷◌, ◌++◌, map, Option, none,
  some, Text, codes, length, ltb, ◌==◌, text_eq, if◌then◌else◌,
}
use nyat.Imap.Search.{
  Opt, OptCase, read_opt, unread_opt, with_opt, without_opt, from_opt, to_opt, cc_opt, body_opt,
  text_opt, no_opt, opt_case,
}
use nyat.Commands.{has_prefix, has_upper}

-- `searchCriteria`; a header is listed once for each text that is asked for in it.
pub record Criteria : Type 0 where
  pub header : List (Text × Text)
  pub body : List Text
  pub text : List Text
  pub with_flags : List ℕ
  pub without_flags : List ℕ

abbrev pub new_criteria : Criteria
new_criteria = record { header = []; body = []; text = []; with_flags = []; without_flags = [] }

-- The variables of the loop over the options.
pub record Reading : Type 0 where
  pub criteria : Criteria
  pub in_body : Bool
  pub in_text : Bool

abbrev pub flag_seen : ℕ
flag_seen = 83

abbrev pub flag_replied : ℕ
flag_replied = 82

abbrev pub flag_flagged : ℕ
flag_flagged = 70

-- Whether a text stands in another.
unfoldable pub contains : Text → Text → Bool
unfolding has_prefix
contains [] sub = has_prefix [] sub
contains (c ∷ s) sub = let rest = contains s sub in if has_prefix (c ∷ s) sub then true else rest

-- `containsFlag`
unfoldable pub contains_flag : List ℕ → ℕ → Bool → Bool
contains_flag [] search_flag match = match
contains_flag (f ∷ flags) search_flag match =
    contains_flag flags search_flag (if search_flag == f then true else match)

-- `MsgParts`, as its bits.
pub record MsgParts : Type 0 where
  pub flags : Bool
  pub header : Bool
  pub body : Bool
  pub all : Bool

abbrev pub some_of {ℓ} : {A : Type ℓ} → List A → Bool
some_of [] = false
some_of (x ∷ xs) = true

unfoldable pub get_required_parts : Criteria → MsgParts
get_required_parts c = record {
  flags = some_of c.with_flags || some_of c.without_flags;
  header = some_of c.header;
  body = some_of c.body;
  all = some_of c.text;
}

-- What reading the parts of a message gives.
pub record Message : Type 0 where
  pub flags : Result (List ℕ)
  pub header : Result (Text → Text)
  pub body : Result Text
  pub all : Result Text

-- The parts that have been read, with empty ones for the others.
pub record Parts : Type 0 where
  pub flags : List ℕ
  pub header : Text → Text
  pub body : Text
  pub all : Text

-- A part that is needed is read, and its error ends the search.
unfoldable pub read_part {ℓ} : {A : Type ℓ} → Bool → Result A → A → Result A
read_part false r blank = ok blank
read_part true r blank = r

unfoldable pub then_part {ℓ κ} : {A : Type ℓ} {B : Type κ} → Result A → (A → Result B) → Result B
then_part (err e) f = err e
then_part (ok a) f = f a

abbrev pub no_header : Text → Text
no_header key = []

unfoldable pub read_parts : MsgParts → Message → Result Parts
unfolding read_part then_part
read_parts p m = then_part (read_part p.flags m.flags []) (λ f.
    then_part (read_part p.header m.header no_header) (λ h.
      then_part (read_part p.body m.body []) (λ b.
        then_part (read_part p.all m.all [])
          (λ a. ok (record { flags = f; header = h; body = b; all = a })))))

module _ (is_upper : ℕ → Bool) (lower : ℕ → ℕ) where
  unfoldable pub contains_smart_case : Text → Text → Bool
  unfolding has_upper contains
  contains_smart_case s sub =
      if has_upper is_upper lower sub
      then contains s sub
      else contains (map lower s) (map lower sub)

  unfoldable pub headers_match : (Text → Text) → List (Text × Text) → Bool
  unfolding contains_smart_case
  headers_match header [] = true
  headers_match header ((k, text) ∷ hs) =
      let rest = headers_match header hs in
      if contains_smart_case (header k) text then rest else false

  unfoldable pub terms_match : Text → List Text → Bool
  unfolding contains_smart_case
  terms_match s [] = true
  terms_match s (t ∷ ts) =
      let rest = terms_match s ts in if contains_smart_case s t then rest else false

  unfoldable pub flags_match : List ℕ → List ℕ → Bool
  unfolding contains_flag
  flags_match flags [] = true
  flags_match flags (f ∷ fs) =
      let rest = flags_match flags fs in if contains_flag flags f false then rest else false

  unfoldable pub flags_missing : List ℕ → List ℕ → Bool
  unfolding contains_flag
  flags_missing flags [] = true
  flags_missing flags (f ∷ fs) =
      let rest = flags_missing flags fs in if contains_flag flags f false then false else rest

  -- The criteria, one after the other.
  unfoldable pub criteria_match : Criteria → Parts → Bool
  unfolding headers_match terms_match flags_match flags_missing
  criteria_match c p =
      if headers_match p.header c.header
      then (if terms_match p.body c.body
          then (if terms_match p.all c.text
              then (if flags_match p.flags c.with_flags
                  then flags_missing p.flags c.without_flags
                  else false)
              else false)
          else false)
      else false

  -- `searchKey`, with the message that is found for the key.
  unfoldable pub search_key : Result Message → Criteria → MsgParts → Result Bool
  unfolding then_part read_parts criteria_match
  search_key found c parts =
      then_part found (λ m. then_part (read_parts parts m) (λ p. ok (criteria_match c p)))

  -- A key that is found, before those found after it; an error is only logged.
  unfoldable pub keep_found : Result Bool → ℕ → List ℕ → List ℕ
  keep_found (err e) key rest = rest
  keep_found (ok success) key rest = if success then key ∷ rest else rest

  unfoldable pub search_loop : (ℕ → Result Message) → Criteria → MsgParts → List ℕ → List ℕ
  unfolding search_key keep_found
  search_loop message c parts [] = []
  search_loop message c parts (key ∷ keys) =
      keep_found (search_key (message key) c parts) key (search_loop message c parts keys)

  -- `search`, with the uids of the directory.
  unfoldable pub search : (ℕ → Result Message) → Criteria → Result (List ℕ) → Result (List ℕ)
  unfolding search_loop get_required_parts
  search message c (err e) = err e
  search message c (ok keys) = ok (search_loop message c (get_required_parts c) keys)

  -- The letter of a flag's name, or the zero flag for a name that is not known.
  unfoldable pub get_parsed_flag : Text → ℕ
  get_parsed_flag name =
      let n = map lower name in
      if text_eq n (codes "seen")
      then flag_seen
      else if text_eq n (codes "answered")
      then flag_replied
      else if text_eq n (codes "flagged")
      then flag_flagged
      else 0

  abbrev pub with_flag : ℕ → Criteria → Criteria
  with_flag f c = record c { with_flags = c.with_flags ++ f ∷ [] }

  abbrev pub without_flag : ℕ → Criteria → Criteria
  without_flag f c = record c { without_flags = c.without_flags ++ f ∷ [] }

  abbrev pub add_header : Text → Text → Criteria → Criteria
  add_header key value c = record c { header = c.header ++ (key, value) ∷ [] }

  unfoldable pub opt_step : OptCase → Text → Reading → Reading
  unfolding get_parsed_flag
  opt_step read_opt v s = record s { criteria = with_flag flag_seen s.criteria }
  opt_step unread_opt v s = record s { criteria = without_flag flag_seen s.criteria }
  opt_step with_opt v s = record s { criteria = with_flag (get_parsed_flag v) s.criteria }
  opt_step without_opt v s = record s { criteria = without_flag (get_parsed_flag v) s.criteria }
  opt_step from_opt v s = record s { criteria = add_header (codes "From") v s.criteria }
  opt_step to_opt v s = record s { criteria = add_header (codes "To") v s.criteria }
  opt_step cc_opt v s = record s { criteria = add_header (codes "Cc") v s.criteria }
  opt_step body_opt v s = record s { in_body = true }
  opt_step text_opt v s = record s { in_text = true }
  opt_step no_opt v s = s

  unfoldable pub opts_loop : List Opt → Reading → Reading
  unfolding opt_step opt_case
  opts_loop [] s = s
  opts_loop (o ∷ opts) s = opts_loop opts (opt_step (opt_case o.option) o.value s)

  unfoldable pub add_subjects : List Text → Criteria → Criteria
  add_subjects [] c = c
  add_subjects (arg ∷ args) c = add_subjects args (add_header (codes "Subject") arg c)

  unfoldable pub parse_search : Result (List Opt × List Text) → Result Criteria
  unfolding opts_loop add_subjects
  parse_search (err e) = err e
  parse_search (ok (opts, args)) =
      let s =
        opts_loop opts (record { criteria = new_criteria; in_body = false; in_text = false }) in
      ok (
        if s.in_text
        then record s.criteria { text = args }
        else if s.in_body
        then record s.criteria { body = args }
        else add_subjects args s.criteria)
