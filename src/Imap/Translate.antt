-- ===== src/Imap/Translate.antt =====
-- worker/imap/imap.go and worker/imap/open.go: the translation of go-imap's values. The names that
-- go-imap gives to the flags are a parameter.
use nyat.Common.{
  ℕ, ◌-◌, Bool, false, ◌&&◌, List, [], ◌∷◌, ◌++◌, Option, none, some, Text, length, take, get_elem?,
  ltb, ◌==◌, text_eq, text_eq_iff, if◌then◌else◌, ◌≡◌, ◌≢◌, refl, arith, ap, Bool-cases, inl, inr,
  suc, length-append, lt→ltb,
}
use nyat.Common.Dict.{Dict, lookup, text_key_eq}
use nyat.Models.{
  Flag, seen_flag, recent_flag, answered_flag, deleted_flag, flagged_flag, Address, Envelope,
  BodyStructure, body, Parts, nil, cons, SortField, SortCriterion, sort_arrival, sort_cc, sort_date,
  sort_from, sort_read, sort_size, sort_subject, sort_to,
}
use nyat.Imap.{ImapAddress, ImapEnvelope, ImapStructure, part, ImapParts, no_parts, one_part}

unfoldable mutual
  pub translate_body_structure : ImapStructure → BodyStructure
  translate_body_structure (part header parts) = body header (translate_parts parts)

  pub translate_parts : ImapParts → Parts
  translate_parts no_parts = nil
  translate_parts (one_part p parts) = cons (translate_body_structure p) (translate_parts parts)

unfoldable pub translate_addresses : List ImapAddress → List Address
translate_addresses [] = []
translate_addresses (a ∷ addrs) =
    record { name = a.personal_name; address = a.address } ∷ translate_addresses addrs

-- The message id without its markers < and >.
unfoldable pub strip_markers : Text → Text
strip_markers [] = []
strip_markers (c ∷ id) =
    let n = length id in
    if ltb 0 n && c == 60 && elim (get_elem? id (n - 1)) [ none ↦ false | some d ↦ d == 62 ]
    then take (n - 1) id
    else c ∷ id

unfoldable pub translate_envelope : ImapEnvelope → Envelope
unfolding translate_addresses strip_markers
translate_envelope e = record {
  date = e.date;
  subject = e.subject;
  from = translate_addresses e.from;
  reply_to = translate_addresses e.reply_to;
  to = translate_addresses e.to;
  cc = translate_addresses e.cc;
  bcc = translate_addresses e.bcc;
  message_id = strip_markers e.message_id;
}

module _ (flag_name : Flag → Text) where
  unfoldable pub imap_to_flag : Dict Text Flag
  imap_to_flag =
      (flag_name seen_flag, seen_flag)
      ∷ (flag_name recent_flag, recent_flag)
      ∷ (flag_name answered_flag, answered_flag)
      ∷ (flag_name deleted_flag, deleted_flag)
      ∷ (flag_name flagged_flag, flagged_flag)
      ∷ []

  unfoldable pub translate_imap_flags : List Text → List Flag
  unfolding imap_to_flag
  translate_imap_flags [] = []
  translate_imap_flags (name ∷ names) =
      let rest = translate_imap_flags names in
      elim (lookup name imap_to_flag) [ none ↦ rest | some f ↦ f ∷ rest ]

  -- Every flag of the model has a name.
  unfoldable pub translate_flags : List Flag → List Text
  translate_flags [] = []
  translate_flags (f ∷ flags) = flag_name f ∷ translate_flags flags

-- The fields of go-imap-sortthread that `sortFieldMap` names.
pub data ServerField : Type 0 where
  server_arrival server_cc server_date server_from server_size server_subject server_to :
      ServerField

unfoldable pub sort_field_map : SortField → Option ServerField
sort_field_map sort_arrival = some server_arrival
sort_field_map sort_cc = some server_cc
sort_field_map sort_date = some server_date
sort_field_map sort_from = some server_from
sort_field_map sort_read = none
sort_field_map sort_size = some server_size
sort_field_map sort_subject = some server_subject
sort_field_map sort_to = some server_to

unfoldable pub translate_sort_criterions : List SortCriterion → List (ServerField × Bool)
unfolding sort_field_map
translate_sort_criterions [] = []
translate_sort_criterions (c ∷ cs) =
    let rest = translate_sort_criterions cs in
    elim (sort_field_map c.field) [ none ↦ rest | some f ↦ (f, c.reverse) ∷ rest ]

module _ (flag_name : Flag → Text) where
  module _ (inj : (f g : Flag) → flag_name f ≡ flag_name g → f ≡ g) where
    found :
        (f : Flag) (rest : Option Flag)
        → (if text_eq (flag_name f) (flag_name f) then some f else rest) ≡ some f
    found f rest = ground (arith, text_eq_iff (flag_name f) (flag_name f))

    passed :
        (g f : Flag) (rest : Option Flag)
        → rest ≡ some f
        → (if text_eq (flag_name g) (flag_name f) then some g else rest) ≡ some f
    passed g f rest h = elim (Bool-cases (text_eq (flag_name g) (flag_name f))) [
      | inl e ↦ rw e (ap some (inj g f ((text_eq_iff (flag_name g) (flag_name f)).0 e)))
      | inr e ↦ rw e h
    ]

    abbrev test : Flag → Flag → Option Flag → Option Flag
    test g f rest = if text_eq (flag_name g) (flag_name f) then some g else rest

    lookup-imap_to_flag : (f : Flag) → lookup (flag_name f) (imap_to_flag flag_name) ≡ some f
    unfolding imap_to_flag lookup
    lookup-imap_to_flag seen_flag = found seen_flag (
        test recent_flag seen_flag (
          test answered_flag seen_flag
            (test deleted_flag seen_flag (test flagged_flag seen_flag none))))
    lookup-imap_to_flag recent_flag = passed seen_flag recent_flag _ (
        found recent_flag (
          test answered_flag recent_flag
            (test deleted_flag recent_flag (test flagged_flag recent_flag none))))
    lookup-imap_to_flag answered_flag = passed seen_flag answered_flag _ (
        passed recent_flag answered_flag _ (
          found answered_flag
            (test deleted_flag answered_flag (test flagged_flag answered_flag none))))
    lookup-imap_to_flag deleted_flag = passed seen_flag deleted_flag _ (
        passed recent_flag deleted_flag _ (
          passed answered_flag deleted_flag _
            (found deleted_flag (test flagged_flag deleted_flag none))))
    lookup-imap_to_flag flagged_flag = passed seen_flag flagged_flag _ (
        passed recent_flag flagged_flag _ (
          passed answered_flag flagged_flag _
            (passed deleted_flag flagged_flag _ (found flagged_flag none))))

  -- If go-imap's flags have different names, the flags of a message that are translated for the
  -- server and back are the same flags.
  pub translate_imap_flags-translate_flags :
      ((f g : Flag) → flag_name f ≡ flag_name g → f ≡ g)
      → (flags : List Flag)
      → translate_imap_flags flag_name (translate_flags flag_name flags) ≡ flags
  unfolding translate_imap_flags translate_flags
  translate_imap_flags-translate_flags inj [] = refl
  translate_imap_flags-translate_flags inj (f ∷ flags) =
      rw (translate_imap_flags, lookup-imap_to_flag inj f)
        (ap (◌∷◌ f) (translate_imap_flags-translate_flags inj flags))

length_last : (x : Text) (c : ℕ) → length (x ++ c ∷ []) ≡ suc (length x)
length_last x c = omega (arith, length-append x (c ∷ []))

get_elem?-last : (x : Text) (c : ℕ) → get_elem? (x ++ c ∷ []) (length x) ≡ some c
get_elem?-last [] c = refl
get_elem?-last (d ∷ x) c = get_elem?-last x c

take-last : (x : Text) (c : ℕ) → take (length x) (x ++ c ∷ []) ≡ x
take-last [] c = refl
take-last (d ∷ x) c = ap (◌∷◌ d) (take-last x c)

-- A message id in its markers loses them, and one that does not begin with a marker is kept.
pub strip_markers-id :
    (id : Text)
    → (strip_markers (60 ∷ id ++ 62 ∷ []) ≡ id)
      × ((c : ℕ) → c ≢ 60 → strip_markers (c ∷ id) ≡ c ∷ id)
unfolding strip_markers
strip_markers-id id =
    let e : length (id ++ 62 ∷ []) - 1 ≡ length id = omega (arith, length_last id 62) in
    (
      rw
          (
            lt→ltb 0 (length (id ++ 62 ∷ [])) (omega (arith, length_last id 62)),
            e,
            get_elem?-last id 62,
          )
          (take-last id 62),
      (λ c h. ground (arith, h)),
    )
