-- ===== src/DirList/Counts.antt =====
-- widgets/dirlist.go: `countRUE` and `getRUEString`, the counts shown behind a directory.
use native.Mathlib.Decide.{dec_lt}
use nyat.Common.{
  ℕ, zero, suc, ◌+◌, ◌-◌, ◌%◌, ◌<◌, ◌/◌, Bool, true, false, not, ◌&&◌, ◌||◌, ◌*◌, lt→ltb, ltb-false,
  List, [], ◌∷◌, ◌++◌, Option, none, some, Text, codes, ltb, if◌then◌else◌, ◌≡◌, refl, arith,
  Bool-cases, ◌∙◌, inl, inr,
}
use nyat.Common.Dict.{Dict}
use nyat.Models.{
  Ref, Flag, seen_flag, recent_flag, answered_flag, deleted_flag, flagged_flag, MessageInfo,
}
use nyat.MsgStore.State.{MessageStore}
use nyat.DirList.{DirectoryList, message_store}

-- The loop over the flags of a message: `seen` and `isrecent`.
unfoldable pub flag_loop : List Flag → Bool × Bool → Bool × Bool
flag_loop [] b = b
flag_loop (seen_flag ∷ flags) (seen, is_recent) = flag_loop flags (true, is_recent)
flag_loop (recent_flag ∷ flags) (seen, is_recent) = flag_loop flags (seen, true)
flag_loop (_ ∷ flags) b = flag_loop flags b

-- The loop over the messages; a map is run through in some order.
unfoldable pub count_from : Dict ℕ (Option MessageInfo) → ℕ × ℕ → ℕ × ℕ
unfolding flag_loop
count_from [] c = c
count_from ((uid, none) ∷ messages) c = count_from messages c
count_from ((uid, some msg) ∷ messages) (recent, unread) =
    let (seen, is_recent) = flag_loop msg.flags (false, false) in
    count_from messages (
      if seen
      then (recent, unread)
      else if is_recent
      then (suc recent, unread)
      else (recent, suc unread))

-- `countRUE`
unfoldable pub count_rue : MessageStore → ℕ × ℕ
unfolding count_from
count_rue s = count_from s.messages (0, 0)

unfoldable pub digits : ℕ → ℕ → Text
digits zero n = []
digits (suc fuel) n =
    let rest = digits fuel (n / 10) in
    if ltb n 10 then (48 + n) ∷ [] else rest ++ (48 + n % 10) ∷ []

-- `%d`; there are at most as many digits as the number and one.
unfoldable pub decimal : ℕ → Text
unfolding digits
decimal n = digits (suc n) n

-- The string for the counts of recent, unseen and existing messages.
unfoldable pub rue_text : ℕ → ℕ → ℕ → Text
unfolding decimal
rue_text recent unseen exists =
    if ltb 0 recent
    then decimal recent ++ codes "/" ++ decimal unseen ++ codes "/" ++ decimal exists
    else if ltb 0 unseen
    then decimal unseen ++ codes "/" ++ decimal exists
    else if ltb 0 exists
    then decimal exists
    else []

-- `getRUEString`; `stores` gives the store at an address.
unfoldable pub get_rue_string : (Ref → MessageStore) → Text → DirectoryList → Text
unfolding message_store count_rue rue_text
get_rue_string stores name l = elim (message_store name l.store) [
  | none ↦ []
  | some r ↦
      let s = stores r in
      let (recent, unread) = count_rue s in
      if s.dir_info.accurate_counts
      then rue_text s.dir_info.recent s.dir_info.unseen s.dir_info.exists
      else rue_text recent unread s.dir_info.exists
]

-- Whether a flag that passes a test is among flags.
abbrev pub has_flag : (Flag → Bool) → List Flag → Bool
has_flag p [] = false
has_flag p (f ∷ flags) = let rest = has_flag p flags in if p f then true else rest

abbrev pub is_seen : Flag → Bool
is_seen seen_flag = true
is_seen _ = false

abbrev pub is_recent : Flag → Bool
is_recent recent_flag = true
is_recent _ = false

-- How many of the messages that are there pass a test.
abbrev pub tally : (MessageInfo → Bool) → Dict ℕ (Option MessageInfo) → ℕ
tally p [] = 0
tally p ((uid, none) ∷ messages) = tally p messages
tally p ((uid, some msg) ∷ messages) =
    let rest = tally p messages in if p msg then suc rest else rest

flag_loop-has_flag :
    (flags : List Flag) (a b : Bool)
    → flag_loop flags (a, b) ≡ (a || has_flag is_seen flags, b || has_flag is_recent flags)
unfolding flag_loop
flag_loop-has_flag [] a b = ground arith
flag_loop-has_flag (seen_flag ∷ flags) a b = ground (arith, flag_loop-has_flag flags true b)
flag_loop-has_flag (recent_flag ∷ flags) a b = ground (arith, flag_loop-has_flag flags a true)
flag_loop-has_flag (answered_flag ∷ flags) a b = flag_loop-has_flag flags a b
flag_loop-has_flag (deleted_flag ∷ flags) a b = flag_loop-has_flag flags a b
flag_loop-has_flag (flagged_flag ∷ flags) a b = flag_loop-has_flag flags a b

abbrev pub unseen_recent : MessageInfo → Bool
unseen_recent m = not (has_flag is_seen m.flags) && has_flag is_recent m.flags

abbrev pub unseen_old : MessageInfo → Bool
unseen_old m = not (has_flag is_seen m.flags) && not (has_flag is_recent m.flags)

pair_eq : (a b c d : ℕ) → a ≡ c → b ≡ d → ◌≡◌ {A = ℕ × ℕ} (a, b) (c, d)
pair_eq a b c d e f = cc

count_from-tally :
    (messages : Dict ℕ (Option MessageInfo)) (a b : ℕ)
    → count_from messages (a, b) ≡ (a + tally unseen_recent messages, b + tally unseen_old messages)
unfolding count_from
count_from-tally [] a b = pair_eq a b (a + 0) (b + 0) (omega arith) (omega arith)
count_from-tally ((uid, none) ∷ messages) a b = count_from-tally messages a b
count_from-tally ((uid, some msg) ∷ messages) a b =
    let u = tally unseen_recent messages in
    let v = tally unseen_old messages in
    rw (flag_loop-has_flag msg.flags false false) (elim (Bool-cases (has_flag is_seen msg.flags)) [
      | inl e ↦ rw e (count_from-tally messages a b)
      | inr e ↦ elim (Bool-cases (has_flag is_recent msg.flags)) [
        | inl f ↦
            rw (e, f)
              (count_from-tally messages (suc a) b
                ∙ pair_eq (suc a + u) (b + v) (a + suc u) (b + v) (omega arith) refl)
        | inr f ↦
            rw (e, f)
              (count_from-tally messages a (suc b)
                ∙ pair_eq (a + u) (suc b + v) (a + u) (b + suc v) refl (omega arith))
      ]
    ])

-- `count_rue` counts the messages with the recent flag and without the seen flag, and those with
-- neither.
pub count_rue-tally :
    (s : MessageStore) → count_rue s ≡ (tally unseen_recent s.messages, tally unseen_old s.messages)
unfolding count_rue
count_rue-tally s =
    let u = tally unseen_recent s.messages in
    let v = tally unseen_old s.messages in
    count_from-tally s.messages 0 0 ∙ pair_eq (0 + u) (0 + v) u v (omega arith) (omega arith)

-- The number that a text of digits stands for, behind a number already read.
abbrev pub value_from : ℕ → Text → ℕ
value_from n [] = n
value_from n (c ∷ s) = value_from (n * 10 + (c - 48)) s

value_from-append :
    (n c : ℕ) (s : Text) → value_from n (s ++ c ∷ []) ≡ value_from n s * 10 + (c - 48)
value_from-append n c [] = refl
value_from-append n c (d ∷ s) = value_from-append (n * 10 + (d - 48)) c s

digits_value : (fuel n : ℕ) → n < fuel → value_from 0 (digits fuel n) ≡ n
unfolding digits
digits_value zero n h = absurd (omega arith)
digits_value (suc fuel) n h = elim (dec_lt n 10) [
  | yes k ↦ rw (lt→ltb n 10 k) (omega arith)
  | no k ↦
      rw
        (
          ltb-false n 10 k,
          value_from-append 0 (48 + n % 10) (digits fuel (n / 10)),
          digits_value fuel (n / 10) (omega arith),
        )
        (omega arith)
]

-- Reading the digits of a number gives the number.
pub decimal-value_from : (n : ℕ) → value_from 0 (decimal n) ≡ n
unfolding decimal
decimal-value_from n = digits_value (suc n) n (omega arith)
