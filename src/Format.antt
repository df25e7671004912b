-- ===== src/Format.antt =====
-- lib/format/format.go: addresses for humans, and what each verb of an index format stands for.
-- A text is the list of its bytes here. The formatting of a date is a parameter.
pub mod Parse
pub mod Pieces
pub mod Panics
pub mod Ending
use nyat.Common.{
  ℕ, Bool, true, false, not, ◌&&◌, ◌||◌, List, [], ◌∷◌, ◌++◌, Option, none, some, Text, codes,
  length, leb, ◌==◌, text_eq, if◌then◌else◌,
}
use nyat.Models.{
  Address, Envelope, MessageInfo, Flag, seen_flag, recent_flag, answered_flag, deleted_flag,
  flagged_flag,
}

-- The class of characters of the expression `atom`.
unfoldable pub is_atom_char : ℕ → Bool
is_atom_char c =
    (leb 97 c && leb c 122)  -- a-z
    || (leb 48 c && leb c 57)  -- 0-9
    || (c == 33)
    || (leb 35 c && leb c 37)  -- # $ %
    || (c == 39)
    || (leb 42 c && leb c 47)  -- * and + to /
    || (c == 61)
    || (c == 63)
    || (leb 94 c && leb c 96)  -- ^ _ and the backquote
    || (leb 123 c && leb c 126)  -- { | } ~
    || (c == 32)

unfoldable pub all_atom : Text → Bool
unfolding is_atom_char
all_atom [] = true
all_atom (c ∷ s) = let rest = all_atom s in is_atom_char c && rest

-- `strings.ReplaceAll(a.Name, "\"", "'")`
unfoldable pub requote : Text → Text
requote [] = []
requote (c ∷ s) = (if c == 34 then 39 else c) ∷ requote s

unfoldable pub address_for_humans : Address → Text
unfolding all_atom requote
address_for_humans a = elim a.name [
  | [] ↦ codes "<" ++ a.address ++ codes ">"
  | _ ↦
      if all_atom a.name
      then a.name ++ codes " <" ++ a.address ++ codes ">"
      else 34 ∷ requote a.name ++ 34 ∷ codes " <" ++ a.address ++ codes ">"
]

-- `strings.Join(texts, separator)`
unfoldable pub join : Text → List Text → Text
join sep [] = []
join sep (t ∷ []) = t
join sep (t ∷ u ∷ ts) = t ++ sep ++ join sep (u ∷ ts)

unfoldable pub format_addresses : List Address → List Text
unfolding address_for_humans
format_addresses [] = []
format_addresses (a ∷ l) = address_for_humans a ∷ format_addresses l

-- An argument for the format that is printed.
pub data Arg : Type 0 where
  text : Text → Arg
  number : ℕ → Arg

-- `Ctx`, with the name in its FromAddress.
pub record Ctx : Type 0 where
  pub from_name : Text
  pub account_name : Text
  pub msg_num : ℕ
  pub msg_info : MessageInfo
  pub msg_is_marked : Bool

-- What a verb gives: the bytes and arguments added, an error, or a panic on a nil envelope.
pub data Verb : Type 0 where
  emit : Text → List Arg → Verb
  missing : Text → Verb
  nil_envelope : Verb

abbrev pub no_envelope : Verb
no_envelope = missing (codes "no envelope available for this message")

abbrev pub no_sender : Verb
no_sender = missing (codes "found no address for sender")

abbrev pub string : Text → Verb
string s = emit (codes "s") (text s ∷ [])

-- A verb that reads the envelope, and one that reads the sender.
abbrev pub with_envelope : Ctx → (Envelope → Verb) → Verb
with_envelope ctx f = elim ctx.msg_info.envelope [ none ↦ no_envelope | some e ↦ f e ]

abbrev pub with_sender : Ctx → (Envelope → Address → Verb) → Verb
with_sender ctx f = with_envelope ctx (λ e. elim e.from [ [] ↦ no_sender | a ∷ _ ↦ f e a ])

-- The name if it is there, or else the address.
abbrev pub name_or_address : Address → Text
name_or_address a = elim a.name [ [] ↦ a.address | _ ↦ a.name ]

-- What stands behind the first @, or all if there is none.
unfoldable pub behind_at : Text → Option Text
behind_at [] = none
behind_at (c ∷ s) = let rest = behind_at s in if c == 64 then some s else rest

-- What stands before the first space.
unfoldable pub first_word : Text → Text
first_word [] = []
first_word (c ∷ s) = let rest = first_word s in if c == 32 then [] else c ∷ rest

-- The variables of the loop over the flags for %Z.
pub record Marks : Type 0 where
  pub seen : Bool
  pub recent : Bool
  pub answered : Bool
  pub deleted : Bool
  pub flagged : Bool

unfoldable pub mark_flags : List Flag → Marks → Marks
mark_flags [] m = m
mark_flags (seen_flag ∷ flags) m = mark_flags flags (record m { seen = true })
mark_flags (recent_flag ∷ flags) m = mark_flags flags (record m { recent = true })
mark_flags (answered_flag ∷ flags) m = mark_flags flags (record m { answered = true })
mark_flags (deleted_flag ∷ flags) m = mark_flags flags (record m { deleted = true })
mark_flags (flagged_flag ∷ flags) m = mark_flags flags (record m { flagged = true })

unfoldable pub flag_text : Marks → Bool → Text
flag_text m marked =
    (if m.seen
      then (if m.answered then codes "r" else [])
      else if m.recent
      then codes "N"
      else codes "O")
    ++ (if m.deleted then codes "D" else [])
    ++ (if m.flagged then codes "!" else [])
    ++ (if marked then codes "*" else [])

unfoldable pub questions : Text → Text
questions [] = []
questions (c ∷ s) = 63 ∷ questions s

-- The cases of the switch over the verb.
pub data VerbCase : Type 0 where
  percent_verb from_verb reply_verb num_verb date_verb sender_verb peer_verb labels_verb id_verb :
      VerbCase
  name_verb to_verb cc_verb subject_verb recipient_verb account_verb host_verb first_verb : VerbCase
  flags_verb size_verb other_verb : VerbCase

-- A letter and its case.
abbrev verbs : List (ℕ × VerbCase)
verbs =
    (37, percent_verb)
    ∷ (97, from_verb)
    ∷ (65, reply_verb)
    ∷ (67, num_verb)
    ∷ (100, date_verb)
    ∷ (68, date_verb)
    ∷ (102, sender_verb)
    ∷ (70, peer_verb)
    ∷ (103, labels_verb)
    ∷ (105, id_verb)
    ∷ (110, name_verb)
    ∷ (114, to_verb)
    ∷ (82, cc_verb)
    ∷ (115, subject_verb)
    ∷ (116, recipient_verb)
    ∷ (84, account_verb)
    ∷ (117, host_verb)
    ∷ (118, first_verb)
    ∷ (90, flags_verb)
    ∷ (108, size_verb)
    ∷ []

unfoldable pub find_verb : ℕ → List (ℕ × VerbCase) → VerbCase
find_verb c [] = other_verb
find_verb c ((d, v) ∷ vs) = let rest = find_verb c vs in if c == d then v else rest

unfoldable pub verb_case : ℕ → VerbCase
unfolding find_verb
verb_case c = find_verb c verbs

module _ (date_text : ℕ → Text) (time_format : Text) where
  -- A question mark for each byte of the format, where there is no date.
  unfoldable pub dummy_if_zero_date : ℕ → Text
  unfolding questions
  dummy_if_zero_date date = if date == 0 then questions time_format else date_text date

  -- What the verb c adds, behind the text up to it.
  unfoldable pub run_verb : Ctx → VerbCase → ℕ → Verb
  unfolding address_for_humans format_addresses join behind_at first_word mark_flags flag_text
      dummy_if_zero_date
  run_verb ctx percent_verb c = emit (codes "%") []
  run_verb ctx from_verb c = with_sender ctx (λ e a. string a.address)
  run_verb ctx reply_verb c = with_envelope ctx (λ e. elim e.reply_to [
    | a ∷ _ ↦ string a.address
    | [] ↦ elim e.from [
      | [] ↦ missing (codes "found no address for sender or reply-to")
      | a ∷ _ ↦ string a.address
    ]
  ])
  run_verb ctx num_verb c = emit (codes "d") (number ctx.msg_num ∷ [])
  run_verb ctx date_verb c = elim ctx.msg_info.envelope [
    | none ↦ nil_envelope
    | some e ↦
        string (dummy_if_zero_date (if e.date == 0 then ctx.msg_info.internal_date else e.date))
  ]
  run_verb ctx sender_verb c = with_sender ctx (λ e a. string (address_for_humans a))
  run_verb ctx peer_verb c = with_sender ctx (λ e a. string (
      name_or_address
        (if text_eq a.name ctx.from_name then (elim e.to [ [] ↦ a | b ∷ _ ↦ b ]) else a)))
  run_verb ctx labels_verb c = string (join (codes ", ") ctx.msg_info.labels)
  run_verb ctx id_verb c = with_envelope ctx (λ e. string e.message_id)
  run_verb ctx name_verb c = with_sender ctx (λ e a. string (name_or_address a))
  run_verb ctx to_verb c =
      with_envelope ctx (λ e. string (join (codes ", ") (format_addresses e.to)))
  run_verb ctx cc_verb c =
      with_envelope ctx (λ e. string (join (codes ", ") (format_addresses e.cc)))
  run_verb ctx subject_verb c = with_envelope ctx (λ e. string e.subject)
  run_verb ctx recipient_verb c = with_envelope ctx (λ e. elim e.to [
    | [] ↦ missing (codes "found no address for recipient")
    | a ∷ _ ↦ string a.address
  ])
  run_verb ctx account_verb c = string ctx.account_name
  run_verb ctx host_verb c =
      with_sender ctx
        (λ e a. string (elim (behind_at a.address) [ none ↦ a.address | some host ↦ host ]))
  run_verb ctx first_verb c =
      with_sender ctx (λ e a. elim a.name [ [] ↦ emit [] [] | _ ↦ string (first_word a.name) ])
  run_verb ctx flags_verb c =
      let m = mark_flags ctx.msg_info.flags (record {
        seen = false;
        recent = false;
        answered = false;
        deleted = false;
        flagged = false;
      }) in
      emit (codes "4s") (text (flag_text m ctx.msg_is_marked) ∷ [])
  run_verb ctx size_verb c = emit (codes "d") (number ctx.msg_info.size ∷ [])
  run_verb ctx other_verb c = emit (37 ∷ c ∷ []) []
