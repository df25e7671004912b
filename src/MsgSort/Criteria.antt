-- ===== src/MsgSort/Criteria.antt =====
-- worker/lib/sort.go: `Sort`. `lower` is Go's unicode.ToLower; Go compares strings by bytes, which
-- for UTF-8 is the order of code points. `none` is the panic on a message without an envelope.
use nyat.Common.{
  ℕ, Bool, true, false, not, ◌&&◌, List, [], ◌∷◌, map, reverse, Option, none, some, Text, codes,
  length, drop, ltb, ◌==◌, if◌then◌else◌, ◌>>=◌,
}
use nyat.Models.{
  MessageInfo, Envelope, Address, Flag, seen_flag, SortField, SortCriterion, sort_arrival, sort_cc,
  sort_date, sort_from, sort_read, sort_size, sort_subject, sort_to,
}

-- `a < b` on strings
unfoldable pub text_lt : Text → Text → Bool
text_lt a [] = false
text_lt [] (y ∷ ys) = true
text_lt (x ∷ xs) (y ∷ ys) =
    let rest = text_lt xs ys in if ltb x y then true else if ltb y x then false else rest

-- `sort.SliceStable`: an element passes those behind it that are less.
module _ {ℓ} {A : Type ℓ} (less : A → A → Bool) where
  unfoldable pub insert_stable : A → List A → List A
  insert_stable x [] = x ∷ []
  insert_stable x (y ∷ ys) =
      let rest = insert_stable x ys in if less y x then y ∷ rest else x ∷ y ∷ ys

  unfoldable pub sort_stable : List A → List A
  unfolding insert_stable
  sort_stable [] = []
  sort_stable (x ∷ xs) = insert_stable x (sort_stable xs)

abbrev blank : Envelope
blank = record {
  date = 0;
  subject = [];
  from = [];
  reply_to = [];
  to = [];
  cc = [];
  bcc = [];
  message_id = [];
}

-- `msg.Envelope`, where it has been tested.
abbrev pub envelope_of : MessageInfo → Envelope
envelope_of m = elim m.envelope [ none ↦ blank | some e ↦ e ]

abbrev pub has_no_envelope : MessageInfo → Bool
has_no_envelope m = elim m.envelope [ none ↦ true | some e ↦ false ]

abbrev pub any_info : (MessageInfo → Bool) → List MessageInfo → Bool
any_info p [] = false
any_info p (m ∷ ms) = let rest = any_info p ms in if p m then true else rest

-- `addr.Name` if it is there, or else `addr.Address`
unfoldable pub get_name : Address → Text
get_name a = elim a.name [ [] ↦ a.address | _ ↦ a.name ]

-- The order of `sortAddresses`: by the first address, those with none last.
unfoldable pub addresses_lt : List Address → List Address → Bool
unfolding get_name text_lt
addresses_lt [] bs = false
addresses_lt (a ∷ as') [] = true
addresses_lt (a ∷ as') (b ∷ bs) = text_lt (get_name a) (get_name b)

abbrev is_seen : Flag → Bool
is_seen seen_flag = true
is_seen _ = false

-- The loop of `sortFlags` over the flags of one message, for `SeenFlag`.
unfoldable pub flag_present : List Flag → Bool
flag_present [] = false
flag_present (f ∷ flags) = let rest = flag_present flags in if is_seen f then true else rest

abbrev starts_with : Text → Text → Bool
starts_with [] s = true
starts_with (c ∷ p) [] = false
starts_with (c ∷ p) (d ∷ s) = if c == d then starts_with p s else false

-- `strings.TrimPrefix(s, prefix)`
unfoldable pub trim_prefix : Text → Text → Text
trim_prefix prefix s = if starts_with prefix s then drop (length prefix) s else s

module _ (lower : ℕ → ℕ) where
  unfoldable pub subject_key : MessageInfo → Text
  unfolding trim_prefix
  subject_key m =
      trim_prefix (codes "fwd: ") (trim_prefix (codes "re: ") (map lower (envelope_of m).subject))

  -- The comparison that `Sort` hands to `sortSlice` for a field.
  unfoldable pub field_lt : SortField → MessageInfo → MessageInfo → Bool
  unfolding addresses_lt flag_present text_lt subject_key
  field_lt sort_arrival a b = ltb a.internal_date b.internal_date
  field_lt sort_cc a b = addresses_lt (envelope_of a).cc (envelope_of b).cc
  field_lt sort_date a b = ltb (envelope_of a).date (envelope_of b).date
  field_lt sort_from a b = addresses_lt (envelope_of a).from (envelope_of b).from
  field_lt sort_read a b = flag_present a.flags && not (flag_present b.flags)
  field_lt sort_size a b = ltb a.size b.size
  field_lt sort_subject a b = text_lt (subject_key a) (subject_key b)
  field_lt sort_to a b = addresses_lt (envelope_of a).to (envelope_of b).to

  -- `sortSlice`: a reversed criterion swaps the two sides.
  unfoldable pub less_for : SortCriterion → MessageInfo → MessageInfo → Bool
  unfolding field_lt
  less_for c a b = if c.reverse then field_lt c.field b a else field_lt c.field a b

  -- Whether the field is read from an envelope of the list: a subject of each message, another
  -- field as soon as two messages are compared.
  unfoldable pub reads_nil : SortField → List MessageInfo → Bool
  reads_nil sort_arrival ms = false
  reads_nil sort_read ms = false
  reads_nil sort_size ms = false
  reads_nil sort_subject ms = any_info has_no_envelope ms
  reads_nil _ ms = ltb 1 (length ms) && any_info has_no_envelope ms

  unfoldable pub sort_step : SortCriterion → List MessageInfo → Option (List MessageInfo)
  unfolding reads_nil sort_stable less_for
  sort_step c ms = if reads_nil c.field ms then none else some (sort_stable (less_for c) ms)

  -- The loop over the criteria, the last one first.
  unfoldable pub sort_infos : List SortCriterion → List MessageInfo → Option (List MessageInfo)
  unfolding sort_step
  sort_infos [] ms = some ms
  sort_infos (c ∷ cs) ms = do sorted ← sort_infos cs ms; sort_step c sorted

  -- `Sort`: the uids, in reverse.
  unfoldable pub sort : List MessageInfo → List SortCriterion → Option (List ℕ)
  unfolding sort_infos
  sort ms criteria = do sorted ← sort_infos criteria ms; some (map (λ m. m.uid) (reverse sorted))
