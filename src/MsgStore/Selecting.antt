-- ===== src/MsgStore/Selecting.antt =====
-- lib/msgstore.go: `Select` and `NextPrev`.
use native.Mathlib.Decide.{dec_lt}
use nyat.Common.{
  ℕ, suc, ◌-◌, ◌<◌, ◌≡◌, refl, ap, sym, ◌∙◌, false, List, Option, none, some, ◌⊎◌, inl, inr, arith,
  length, get_elem?-lt, ◌==◌, ◌>>=◌, Bool-cases,
}
use nyat.Common.Int.{ℤ, pos, negsuc, ◌+ℤ◌, ◌-ℤ◌, Nearest}
use nyat.MsgStore.State.{MessageStore, shown_uids}
use nyat.MsgStore.Select.{
  selected_place, selected_uid, selected_message, clear_visual_mark, update_visual, clamp_select,
  select, clamp_move, follow_at, follow_result, next_prev,
}
use nyat.MsgStore.Visual.{Marks, update_visual-Marks, update_visual_off}

-- A store whose selection was put at a place.
abbrev pub at_index : MessageStore → ℤ → MessageStore
at_index s index = record s { selected = index }

shown-at_index : (s : MessageStore) (index : ℤ) → shown_uids (at_index s index) ≡ shown_uids s
unfolding shown_uids
shown-at_index s index = refl

-- A selection of a message that is there.
moved_to :
    (s : MessageStore) (k : ℕ)
    → k < length (shown_uids s)
    → (t : MessageStore) × (update_visual (at_index s (pos k)) ≡ some t)
      × Marks (at_index s (pos k)) (length (shown_uids s) - suc k) t
unfolding shown_uids
moved_to s k lt = update_visual-Marks (at_index s (pos k)) k refl lt

clamp_select_in : (k len : ℕ) → k < len → clamp_select (pos k) len ≡ pos k
unfolding clamp_select
clamp_select_in k len lt = ground arith

clamp_select_neg : (k len : ℕ) → 0 < len → clamp_select (negsuc k) len ≡ pos (len - 1)
unfolding clamp_select
clamp_select_neg k len lt = ground arith

clamp_select_over : (k len : ℕ) → len < k → clamp_select (pos k) len ≡ pos len
unfolding clamp_select
clamp_select_over k len lt = ground arith

select-eq :
    (index : ℤ) (s : MessageStore)
    → select index s ≡ update_visual (at_index s (clamp_select index (length (shown_uids s))))
unfolding select
select-eq index s = refl

-- The index that a negative one stands for, and any other.
abbrev pub meant : ℤ → ℕ → ℕ
meant (pos k) len = k
meant (negsuc k) len = len - 1

-- `Select` of an index below the number of messages, or of a negative one, which stands for the last,
-- never panics: the index is selected, and the marks follow it.
pub select-Marks :
    (index : ℤ) (s : MessageStore)
    → meant index (length (shown_uids s)) < length (shown_uids s)
    → let k = meant index (length (shown_uids s)) in
      (t : MessageStore) × (select index s ≡ some t)
      × Marks (at_index s (pos k)) (length (shown_uids s) - suc k) t
select-Marks (pos k) s lt =
    let (t, e, m) = moved_to s k lt in
    (
      t,
      select-eq (pos k) s
          ∙ ap (λ (z : ℤ). update_visual (at_index s z))
              (clamp_select_in k (length (shown_uids s)) lt)
          ∙ e,
      m,
    )
select-Marks (negsuc k) s lt =
    let (t, e, m) = moved_to s (length (shown_uids s) - 1) lt in
    (
      t,
      select-eq (negsuc k) s
          ∙ ap (λ (z : ℤ). update_visual (at_index s z))
              (clamp_select_neg k (length (shown_uids s)) (omega arith))
          ∙ e,
      m,
    )

out_of_list : (s : MessageStore) → s.selected ≡ pos (length (shown_uids s)) → selected_uid s ≡ none
unfolding selected_uid selected_place
out_of_list s e = ground (arith, e)

-- `Select` of an index above the number of messages selects the number of messages, one past the
-- last: `Selected` then panics.
pub select_past_end :
    (k : ℕ) (s : MessageStore)
    → length (shown_uids s) < k
    → s.visual_mark_mode ≡ false
    → (t : MessageStore) × (select (pos k) s ≡ some t)
      × (t.selected ≡ pos (length (shown_uids s)))
      × (selected_message t ≡ none)
unfolding selected_message
select_past_end k s lt off =
    let t : MessageStore = at_index s (pos (length (shown_uids s))) in
    (
      t,
      select-eq (pos k) s
          ∙ ap (λ (z : ℤ). update_visual (at_index s z))
              (clamp_select_over k (length (shown_uids s)) lt)
          ∙ update_visual_off t off,
      refl,
      rw (out_of_list t (ap (λ (l : List ℕ). pos (length l)) (sym (shown-at_index s _)))) refl,
    )

clamp_move_in :
    (index : ℤ) (len : ℕ) → 0 < len → (k : ℕ) × (clamp_move index len ≡ pos k) × (k < len)
unfolding clamp_move
clamp_move_in (pos n) len h = elim (dec_lt n len) [
  | yes lt ↦ (n, ground arith, lt)
  | no ge ↦ (len - 1, ground arith, omega arith)
]
clamp_move_in (negsuc n) len h = (0, ground arith, h)

clamp_move-Nearest :
    (index : ℤ) (len k : ℕ) → 0 < len → clamp_move index len ≡ pos k → Nearest index len k
unfolding clamp_move
clamp_move-Nearest (pos n) len k h e =
    (ground (arith, h, e), λ b. ground (arith, h, e, b), λ b. ground (arith, h, e, b))
clamp_move-Nearest (negsuc n) len k h e = (ground (arith, h, e), ground (arith, h, e))

-- The search position may move; all else stays.
abbrev pub SameButResult : MessageStore → MessageStore → Type 0
SameButResult s t = t ≡ record s { result_index = t.result_index }

follow_at_total :
    (delta next : ℤ) (place : ℕ) (uids : List ℕ) (s : MessageStore)
    → place < length uids
    → (t : MessageStore) × (follow_at delta next (pos place) uids s ≡ some t) × SameButResult s t
unfolding follow_at
follow_at_total delta (negsuc n) place uids s lt = (s, refl, refl)
follow_at_total delta (pos n) place uids s lt = elim (dec_lt n (length s.results)) [
  | no ge ↦ (s, ground arith, refl)
  | yes inside ↦
      let (wanted, g) = get_elem?-lt s.results n inside in
      let (uid, h) = get_elem?-lt uids place lt in
      elim (Bool-cases (wanted == uid)) [
        | inl same ↦
            (record s { result_index = s.result_index +ℤ delta }, ground (arith, g, h), refl)
        | inr other ↦ (s, ground (arith, g, h), refl)
      ]
]

place_of : (k len : ℕ) → k < len → pos len -ℤ pos k -ℤ pos 1 ≡ pos (len - suc k)
place_of k len lt = ground arith

follow_result_total :
    (delta : ℤ) (uids : List ℕ) (s : MessageStore) (k : ℕ)
    → s.selected ≡ pos k
    → k < length uids
    → (t : MessageStore) × (follow_result delta uids s ≡ some t) × SameButResult s t
unfolding follow_result
follow_result_total delta uids s k e lt =
    let next : ℤ = pos (length s.results) -ℤ s.result_index -ℤ delta -ℤ delta in
    let (t, f, same) = follow_at_total delta next (length uids - suc k) uids s (omega arith) in
    (
      t,
      ap (λ (z : ℤ). follow_at delta next (pos (length uids) -ℤ z -ℤ pos 1) uids s) e
          ∙ ap (λ (z : ℤ). follow_at delta next z uids s) (place_of k (length uids) lt)
          ∙ f,
      same,
    )

Marks-selected : (s t : MessageStore) (place : ℕ) → Marks s place t → t.selected ≡ s.selected
unfolding clear_visual_mark
Marks-selected s t place (inl (_, e)) = ap (λ (u : MessageStore). u.selected) e
Marks-selected s t place (inr (inl (_, _, e))) = ap (λ (u : MessageStore). u.selected) e
Marks-selected s t place (inr (inr (_, _, _, e, _))) = ap (λ (u : MessageStore). u.selected) e

next_prev_empty :
    (delta : ℤ) (s : MessageStore) → length (shown_uids s) ≡ 0 → next_prev delta s ≡ some s
unfolding next_prev
next_prev_empty delta s h = rw h refl

==_zero : (n : ℕ) → 0 < n → (n == 0) ≡ false
==_zero n h = ground arith

next_prev-eq :
    (delta : ℤ) (s : MessageStore)
    → 0 < length (shown_uids s)
    → next_prev delta s ≡ (
        update_visual (at_index s (clamp_move (s.selected +ℤ delta) (length (shown_uids s))))
        >>= follow_result delta (shown_uids s))
unfolding next_prev
next_prev-eq delta s h = rw (==_zero (length (shown_uids s)) h) refl

-- `NextPrev` with no message does nothing. Otherwise it never panics, whatever the selection was: it
-- selects the message `delta` further if there is one, the first if that place is negative and else
-- the last, the marks follow it, and at most the place in the search results changes besides.
pub next_prev-Marks :
    (delta : ℤ) (s : MessageStore)
    → ((length (shown_uids s) ≡ 0) × (next_prev delta s ≡ some s))
      ⊎ ((k : ℕ) × (u : MessageStore) × (t : MessageStore) × (next_prev delta s ≡ some t)
          × Nearest (s.selected +ℤ delta) (length (shown_uids s)) k
          × Marks (at_index s (pos k)) (length (shown_uids s) - suc k) u
          × SameButResult u t)
next_prev-Marks delta s = elim (dec_lt 0 (length (shown_uids s))) [
  | no empty ↦ inl (omega arith, next_prev_empty delta s (omega arith))
  | yes h ↦
      let (k, c, lt) = clamp_move_in (s.selected +ℤ delta) (length (shown_uids s)) h in
      let (u, e, m) = moved_to s k lt in
      let (t, f, same) = follow_result_total delta (shown_uids s) u k (Marks-selected _ u _ m) lt in
      inr (
        k,
        u,
        t,
        next_prev-eq delta s h
            ∙ ap (λ (z : ℤ). update_visual (at_index s z) >>= follow_result delta (shown_uids s)) c
            ∙ ap (λ (o : Option MessageStore). o >>= follow_result delta (shown_uids s)) e
            ∙ f,
        clamp_move-Nearest (s.selected +ℤ delta) (length (shown_uids s)) k h c,
        m,
        same,
      )
]
