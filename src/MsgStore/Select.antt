-- ===== src/MsgStore/Select.antt =====
-- lib/msgstore.go: the selection, the marks and the search results.
use nyat.Common.{
  ℕ, suc, ◌+◌, ◌-◌, Bool, true, false, not, ◌&&◌, List, [], ◌∷◌, map, Option, none, some, length,
  take, drop, leb, ◌==◌, if◌then◌else◌, ◌>>=◌,
}
use nyat.Common.Int.{ℤ, pos, negsuc, ◌+ℤ◌, ◌-ℤ◌, is_neg, lt_ℤ, at}
use nyat.Common.Dict.{nat_eq, lookup, insert, remove, has}
use nyat.Models.{MessageInfo}
use nyat.MsgStore.State.{MessageStore, Outcome, notify, shown_uids}
use nyat.MsgStore.Actions.{add_all}

-- The place of the selected message in `Uids`, counted from the end.
unfoldable pub selected_place : MessageStore → ℤ
selected_place s = pos (length (shown_uids s)) -ℤ s.selected -ℤ pos 1

unfoldable pub selected_uid : MessageStore → Option ℕ
unfolding selected_place
selected_uid s = at (shown_uids s) (selected_place s)

-- `Selected`: `none` is a panic, `some none` a nil message.
unfoldable pub selected_message : MessageStore → Option (Option MessageInfo)
unfolding selected_uid
selected_message s = do
  uid ← selected_uid s
  some (elim (lookup uid s.messages) [ none ↦ none | some m ↦ m ])

unfoldable pub reset_mark : MessageStore → MessageStore
reset_mark s = record s { marked = [] }

unfoldable pub is_marked : ℕ → MessageStore → Bool
is_marked uid s = has uid s.marked

-- `ClearVisualMark`
unfoldable pub clear_visual_mark : MessageStore → MessageStore
unfolding reset_mark
clear_visual_mark s = record (reset_mark s) { visual_mark_mode = false; visual_start_uid = 0 }

unfoldable pub mark : ℕ → MessageStore → MessageStore
mark uid s = if s.visual_mark_mode then s else record s { marked = insert uid tt s.marked }

unfoldable pub unmark : ℕ → MessageStore → MessageStore
unfolding clear_visual_mark
unmark uid s =
    if s.visual_mark_mode then clear_visual_mark s else record s { marked = remove uid s.marked }

unfoldable pub toggle_mark : ℕ → MessageStore → MessageStore
unfolding mark unmark is_marked
toggle_mark uid s =
    if s.visual_mark_mode then s else if is_marked uid s then unmark uid s else mark uid s

-- `ToggleVisualMark`: `none` is a panic, for want of a selected message.
unfoldable pub toggle_visual_mark : MessageStore → Option MessageStore
unfolding selected_message reset_mark
toggle_visual_mark s = elim (not s.visual_mark_mode) [
  | false ↦ some (record s { visual_mark_mode = false })
  | true ↦ do
    info ← selected_message s
    m ← info
    some (record (reset_mark s) {
      visual_mark_mode = true;
      visual_start_uid = m.uid;
      marked = insert m.uid tt [];
    })
]

-- `Marked`; Go leaves the order open.
unfoldable pub marked_uids : MessageStore → List ℕ
marked_uids s = map (λ e. e.0) s.marked

-- The first place of a uid.
unfoldable pub index_of : ℕ → List ℕ → Option ℕ
index_of uid [] = none
index_of uid (x ∷ xs) =
    let rest = index_of uid xs in
    if x == uid then some 0 else (elim rest [ none ↦ none | some i ↦ some (suc i) ])

-- `visualStartIdx`, with `none` for -1.
unfoldable pub visual_start_idx : MessageStore → Option ℕ
unfolding index_of
visual_start_idx s = index_of s.visual_start_uid (shown_uids s)

-- `xs[lo:hi]`, for `hi` up to the length; `none` is a panic.
unfoldable pub slice : List ℕ → ℤ → ℤ → Option (List ℕ)
slice xs (pos lo) (pos hi) =
    if leb lo hi && leb hi (length xs) then some (take (hi - lo) (drop lo xs)) else none
slice xs (pos lo) (negsuc hi) = none
slice xs (negsuc lo) hi = none

-- The uids from the start of the visual selection to the selected message, both included.
unfoldable pub span_from : ℕ → ℤ → List ℕ → Option (List ℕ)
unfolding slice
span_from start place uids =
    if lt_ℤ (pos start) place
    then slice uids (pos start) (place +ℤ pos 1)
    else slice uids place (pos (start + 1))

unfoldable pub visual_span : ℕ → MessageStore → Option (List ℕ)
unfolding span_from selected_place
visual_span start s = span_from start (selected_place s) (shown_uids s)

unfoldable pub update_visual : MessageStore → Option MessageStore
unfolding visual_start_idx clear_visual_mark reset_mark visual_span
update_visual s = elim s.visual_mark_mode [
  | false ↦ some s
  | true ↦ elim (visual_start_idx s) [
    | none ↦ some (clear_visual_mark s)
    | some start ↦ do
      span ← visual_span start s
      some (record (reset_mark s) { marked = add_all span [] })
  ]
]

unfoldable pub clamp_select : ℤ → ℕ → ℤ
clamp_select index len =
    if is_neg index then pos len -ℤ pos 1 else if lt_ℤ (pos len) index then pos len else index

-- `Select`
unfoldable pub select : ℤ → MessageStore → Option MessageStore
unfolding clamp_select update_visual
select index s = update_visual (record s { selected = clamp_select index (length (shown_uids s)) })

unfoldable pub clamp_move : ℤ → ℕ → ℤ
clamp_move index len =
    let index' = if is_neg index then pos 0 else index in
    if lt_ℤ index' (pos len) then index' else pos len -ℤ pos 1

-- The end of `NextPrev`: the search result follows the selection if it was the next one. The places
-- of the next result and of the selected message are computed first.
unfoldable pub follow_at : ℤ → ℤ → ℤ → List ℕ → MessageStore → Option MessageStore
follow_at delta next place uids s =
    if is_neg next then some s else if not (lt_ℤ next (pos (length s.results))) then some s else do
      next_uid ← at s.results next
      uid ← at uids place
      some (if next_uid == uid then record s { result_index = s.result_index +ℤ delta } else s)

unfoldable pub follow_result : ℤ → List ℕ → MessageStore → Option MessageStore
unfolding follow_at
follow_result delta uids s =
    follow_at delta (pos (length s.results) -ℤ s.result_index -ℤ delta -ℤ delta)
      (pos (length uids) -ℤ s.selected -ℤ pos 1) uids s

unfoldable pub next_prev : ℤ → MessageStore → Option MessageStore
unfolding clamp_move update_visual follow_result
next_prev delta s = if length (shown_uids s) == 0 then some s else do
  t ←
      update_visual
        (record s { selected = clamp_move (s.selected +ℤ delta) (length (shown_uids s)) })
  follow_result delta (shown_uids s) t

unfoldable pub wrap_result : ℤ → ℕ → ℤ
wrap_result index len =
    let index' = if lt_ℤ index (pos len) then index else pos 0 in
    if is_neg index' then pos len -ℤ pos 1 else index'

-- The loop over `store.uids` of `nextPrevResult`, from place `i`.
unfoldable pub select_result : ℕ → List ℕ → MessageStore → Option MessageStore
unfolding select
select_result i [] s = some s
select_result i (uid ∷ rest) s =
    let later = select_result (suc i) rest s in
    do
      wanted ← at s.results (pos (length s.results) -ℤ s.result_index -ℤ pos 1)
      if wanted == uid then select (pos (length s.uids) -ℤ pos i -ℤ pos 1) s else later

unfoldable pub next_prev_result : ℤ → MessageStore → Option Outcome
unfolding wrap_result select_result
next_prev_result delta s = if length s.results == 0 then some (s, []) else do
  t ←
      select_result 0 s.uids
        (record s { result_index = wrap_result (s.result_index +ℤ delta) (length s.results) })
  some (t, notify t)

-- `ApplySearch`
unfoldable pub apply_search : List ℕ → MessageStore → Option Outcome
unfolding next_prev_result
apply_search results s =
    next_prev_result (pos 1) (record s { results = results; result_index = negsuc 0 })

-- `ApplyFilter`: the handlers run before the marks are cleared.
unfoldable pub apply_filter : List ℕ → MessageStore → Outcome
unfolding clear_visual_mark
apply_filter results s =
    let t = record s { results = results; filter = true } in (clear_visual_mark t, notify t)

unfoldable pub apply_clear : MessageStore → MessageStore
apply_clear s = record s { results = []; filter = false }
