-- ===== src/MsgStore/Visual.antt =====
-- lib/msgstore.go: moving the selection, and the marks of the visual mode that follow it.
use Prim.Native.Nat.{min, max}
use nyat.Common.{
  ℕ, zero, suc, ◌-◌, ◌<◌, ◌≡◌, refl, ap, ◌∙◌, true, false, List, [], ◌∷◌, none, some, ◌⊎◌, inl, inr,
  arith, length, take, drop, mem, Bool-cases, Option-cases,
}
use native.Mathlib.Decide.{dec_lt}
use nyat.Common.Int.{ℤ, pos}
use nyat.Common.Dict.{lookup, has, nat_eq}
use nyat.MsgStore.State.{MessageStore, shown_uids}
use nyat.MsgStore.Actions.{add_all}
use nyat.MsgStore.Deleting.{has-add_all}
use nyat.MsgStore.Select.{
  selected_place, clear_visual_mark, index_of, visual_start_idx, span_from, visual_span,
  update_visual, is_marked,
}

index_of-lt : (uid : ℕ) (xs : List ℕ) (i : ℕ) → index_of uid xs ≡ some i → i < length xs
unfolding index_of
index_of-lt uid [] i e = cc
index_of-lt uid (x ∷ xs) zero e = omega arith
index_of-lt uid (x ∷ xs) (suc i) e = ground (arith, index_of-lt uid xs i)

-- The elements from one place to another, both included, in either order of the places.
abbrev pub between : ℕ → ℕ → List ℕ → List ℕ
between i j xs = take (suc (max i j) - min i j) (drop (min i j) xs)

selected_place_in :
    (s : MessageStore) (k : ℕ)
    → s.selected ≡ pos k
    → k < length (shown_uids s)
    → selected_place s ≡ pos (length (shown_uids s) - suc k)
unfolding selected_place
selected_place_in s k e lt = ground arith

span_from_in :
    (start place : ℕ) (xs : List ℕ)
    → place < length xs
    → start < length xs
    → span_from start (pos place) xs ≡ some (between start place xs)
unfolding span_from
span_from_in start place xs p q = elim (dec_lt start place) [
  | yes lt ↦ ground arith
  | no ge ↦ ground arith
]

visual_span_in :
    (s : MessageStore) (start k : ℕ)
    → s.selected ≡ pos k
    → k < length (shown_uids s)
    → start < length (shown_uids s)
    → visual_span start s ≡ some (between start (length (shown_uids s) - suc k) (shown_uids s))
visual_span_in s start k e p q =
    opened
    ∙ ap (λ (z : ℤ). span_from start z (shown_uids s)) (selected_place_in s k e p)
    ∙ span_from_in start (length (shown_uids s) - suc k) (shown_uids s) (omega arith) q
  where
    opened : visual_span start s ≡ span_from start (selected_place s) (shown_uids s)
    opened = unfold visual_span in refl

-- What `updateVisual` leaves of a store whose selected message stands at a place: nothing changes
-- outside the visual mode; without the message that the marking began at, the mode and all marks
-- end; otherwise the marked messages are those from it to the selected one.
abbrev pub Marks : MessageStore → ℕ → MessageStore → Type 0
Marks s place t =
    ((s.visual_mark_mode ≡ false) × (t ≡ s))
    ⊎ ((s.visual_mark_mode ≡ true) × (visual_start_idx s ≡ none) × (t ≡ clear_visual_mark s))
    ⊎ ((start : ℕ) × (s.visual_mark_mode ≡ true)
        × (visual_start_idx s ≡ some start)
        × (t ≡ record s { marked = t.marked })
        × ((uid : ℕ) → is_marked uid t ≡ mem uid (between start place (shown_uids s))))

pub update_visual_off : (s : MessageStore) → s.visual_mark_mode ≡ false → update_visual s ≡ some s
unfolding update_visual
update_visual_off s e = ground (arith, e)

update_visual_lost :
    (s : MessageStore)
    → s.visual_mark_mode ≡ true
    → visual_start_idx s ≡ none
    → update_visual s ≡ some (clear_visual_mark s)
unfolding update_visual
update_visual_lost s e h = ground (arith, e, h)

update_visual_span :
    (s : MessageStore) (start : ℕ) (span : List ℕ)
    → s.visual_mark_mode ≡ true
    → visual_start_idx s ≡ some start
    → visual_span start s ≡ some span
    → update_visual s ≡ some (record s { marked = add_all span [] })
unfolding update_visual
update_visual_span s start span e h k = ground (arith, e, h, k)

has-add_all_new : (span : List ℕ) (uid : ℕ) → has uid (add_all span []) ≡ mem uid span
unfolding lookup
has-add_all_new span uid = ground (arith, has-add_all span uid [])

pub update_visual-Marks :
    (s : MessageStore) (k : ℕ)
    → s.selected ≡ pos k
    → k < length (shown_uids s)
    → (t : MessageStore) × (update_visual s ≡ some t) × Marks s (length (shown_uids s) - suc k) t
update_visual-Marks s k e lt = elim (Bool-cases s.visual_mark_mode) [
  | inr off ↦ (s, update_visual_off s off, inl (off, refl))
  | inl on ↦ elim (Option-cases (visual_start_idx s)) [
    | inl h ↦ (clear_visual_mark s, update_visual_lost s on h, inr (inl (on, h, refl)))
    | inr (start, h) ↦ (
      record s {
        marked = add_all (between start (length (shown_uids s) - suc k) (shown_uids s)) [];
      },
      update_visual_span s start _ on h (visual_span_in s start k e lt (inside start h)),
      inr (inr (start, on, h, refl, λ uid. unfold is_marked in has-add_all_new _ uid)),
    )
  ]
]
  where
    inside : (start : ℕ) → visual_start_idx s ≡ some start → start < length (shown_uids s)
    inside start h =
        index_of-lt s.visual_start_uid (shown_uids s) start (unfold visual_start_idx in h)
