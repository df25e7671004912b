-- ===== src/TextInput/Completing.antt =====
-- lib/ui/textinput.go: the list of completions never indexes out of range.
use nyat.Common.{
  ℕ, zero, suc, ◌<◌, Bool, true, false, not, ◌&&◌, ◌++◌, Option, some, Text, length, get_elem?-lt,
  ◌==◌, if◌then◌else◌, ◌≡◌, refl, arith, ◌⊎◌, inl, inr, Bool-cases, ap, ◌∙◌, ◌>>=◌, text_eq, none,
  subst,
}
use native.Mathlib.Decide.{dec_lt}
use nyat.Common.Int.{ℤ, pos, negsuc, at, is_neg, lt_ℤ, ◌+ℤ◌, ◌-ℤ◌, pos_part}
use nyat.TextInput.{TextInput, set_text, string_right, invalidate_completions}
use nyat.TextInput.Popover.{
  Completions, drawn, options, execute_completion, next, prev, on_exec, on_stem, find_stem,
  is_empty, on_tab, PopoverKey, tab, ctrl_n, down, backtab, ctrl_p, up, enter, any_other,
  on_popover_key,
}

-- The chosen completion is there, or none is chosen.
abbrev pub InRange : ℤ → ℕ → Type 0
InRange i n = (n ≡ 0) ⊎ (i ≡ negsuc 0) ⊎ ((i ≡ pos (pos_part i)) × (pos_part i < n))

abbrev pub IsSafe : TextInput → Type 0
IsSafe ti = InRange ti.complete_index (length (options ti))

abbrev next_place : ℤ → ℕ → ℤ
next_place i n = if lt_ℤ (pos n -ℤ pos 1) (i +ℤ pos 1) then negsuc 0 else i +ℤ pos 1

abbrev prev_place : ℤ → ℕ → ℤ
prev_place i n = if lt_ℤ (i -ℤ pos 1) (negsuc 0) then pos n -ℤ pos 1 else i -ℤ pos 1

next_place-InRange : (i : ℤ) (n : ℕ) → InRange i n → InRange (next_place i n) n
next_place-InRange (pos k) n h = ground (arith, h)
next_place-InRange (negsuc zero) n h = ground (arith, h)
next_place-InRange (negsuc (suc k)) n h = ground (arith, h)

prev_place-InRange : (i : ℤ) (n : ℕ) → InRange i n → InRange (prev_place i n) n
prev_place-InRange (pos k) n h = ground (arith, h)
prev_place-InRange (negsuc zero) n h = ground (arith, h)
prev_place-InRange (negsuc (suc k)) n h = ground (arith, h)

-- A list that was drawn with the options that the input still has, and no choice that is gone since.
pub record IsCurrent (c : Completions) (ti : TextInput) : Type 0 where
  pub same_options : c.options ≡ options ti
  pub in_range : InRange c.idx (length c.options)
  pub still_chosen : is_neg c.idx ≡ false → is_neg ti.complete_index ≡ false

-- The list that has just been drawn is such a list.
pub drawn-IsCurrent : (ti : TextInput) → IsSafe ti → IsCurrent (drawn ti) ti
unfolding drawn
drawn-IsCurrent ti h = record { same_options = refl; in_range = h; still_chosen = λ e. e }

next-IsSafe : (c : Completions) (ti : TextInput) → IsCurrent c ti → IsSafe (next c ti)
unfolding next
next-IsSafe c ti h =
    subst (λ l. InRange (next_place c.idx (length c.options)) (length l)) h.same_options
      (next_place-InRange c.idx (length c.options) h.in_range)

prev-IsSafe : (c : Completions) (ti : TextInput) → IsCurrent c ti → IsSafe (prev c ti)
unfolding prev
prev-IsSafe c ti h =
    subst (λ l. InRange (prev_place c.idx (length c.options)) (length l)) h.same_options
      (prev_place-InRange c.idx (length c.options) h.in_range)

-- A choice that is made is in the list, unless there is none.
chosen :
    (ti : TextInput)
    → is_neg ti.complete_index ≡ false
    → IsSafe ti
    → (length (options ti) ≡ 0) ⊎ ((c : Text) × (at (options ti) ti.complete_index ≡ some c))
chosen ti e (inl z) = inl z
chosen ti e (inr (inl m)) = absurd (ground (arith, e, m))
chosen ti e (inr (inr (m, lt))) =
    let (c, g) = get_elem?-lt (options ti) (pos_part ti.complete_index) lt in
    inr (c, ap (λ i. at (options ti) i) m ∙ g)

on_exec-none :
    (ti : TextInput) → length (options ti) ≡ 0 → on_exec ti ≡ some (invalidate_completions ti)
unfolding on_exec execute_completion
on_exec-none ti z = rw z refl

on_exec-some :
    (ti : TextInput) (c : Text)
    → ¬ (length (options ti) ≡ 0)
    → at (options ti) ti.complete_index ≡ some c
    → on_exec ti ≡ some (invalidate_completions (set_text (c ++ string_right ti) ti))
unfolding on_exec execute_completion
on_exec-some ti c n g = ground (arith, n, g)

on_exec-IsSafe :
    (ti : TextInput)
    → is_neg ti.complete_index ≡ false
    → IsSafe ti
    → (t : TextInput) × (on_exec ti ≡ some t) × IsSafe t
unfolding invalidate_completions
on_exec-IsSafe ti e h = elim (dec_lt 0 (length (options ti))) [
  | no z ↦ (invalidate_completions ti, on_exec-none ti (omega arith), inl refl)
  | yes p ↦ elim (chosen ti e h) [
    | inl z ↦ absurd (omega (arith, z))
    | inr (c, g) ↦ (
      invalidate_completions (set_text (c ++ string_right ti) ti),
      on_exec-some ti c (λ z. omega arith) g,
      inl refl,
    )
  ]
]

abbrev picks : Completions → Bool
picks c = length c.options == 1 && not (is_neg c.idx)

picks-chosen : (c : Completions) → picks c ≡ true → is_neg c.idx ≡ false
picks-chosen c e = ground (arith, e)

abbrev extends : Completions → Bool
extends c =
    not (is_empty (find_stem c.options)) && not (text_eq (find_stem c.options) c.string_left)

on_tab-IsSafe :
    (c : Completions) (ti : TextInput)
    → IsSafe ti
    → IsCurrent c ti
    → (t : TextInput) × (on_tab c ti ≡ some t) × IsSafe t
unfolding on_tab on_stem set_text
on_tab-IsSafe c ti s h = elim (Bool-cases (picks c)) [
  | inl e ↦ rw e (on_exec-IsSafe ti (h.still_chosen (picks-chosen c e)) s)
  | inr e ↦ elim (Bool-cases (extends c)) [
    | inl x ↦ rw e (rw x (on_stem (find_stem c.options) ti, refl, s))
    | inr x ↦ rw e (rw x (next c ti, refl, next-IsSafe c ti h))
  ]
]

abbrev Handled : Completions → TextInput → PopoverKey → Type 0
Handled c ti k =
    (t : TextInput) × (used : Bool) × (on_popover_key k c ti ≡ some (t, used)) × IsSafe t

used_safely :
    (c : Completions) (ti : TextInput) (k : PopoverKey) (o : Option TextInput)
    → on_popover_key k c ti ≡ (do t ← o; some (t, true))
    → ((t : TextInput) × (o ≡ some t) × IsSafe t)
    → Handled c ti k
used_safely c ti k o e (t, f, h) =
    (t, true, e ∙ ap (λ (x : Option TextInput). do y ← x; some (y, true)) f, h)

enter-IsSafe :
    (c : Completions) (ti : TextInput) (b : Bool)
    → is_neg c.idx ≡ b
    → IsSafe ti
    → IsCurrent c ti
    → Handled c ti enter
unfolding on_popover_key
enter-IsSafe c ti true e s h = (ti, false, rw e refl, s)
enter-IsSafe c ti false e s h =
    used_safely c ti enter (on_exec ti) (rw e refl) (on_exec-IsSafe ti (h.still_chosen e) s)

-- No key panics on a list of completions that was drawn with the options that the input still has, if
-- its choice is one of them or none, and the input still has a choice where the list has one; the
-- choice of the input is in range before, and so it is afterwards.
pub on_popover_key-IsSafe :
    (k : PopoverKey) (c : Completions) (ti : TextInput)
    → IsSafe ti
    → IsCurrent c ti
    → (t : TextInput) × (used : Bool) × (on_popover_key k c ti ≡ some (t, used)) × IsSafe t
unfolding on_popover_key
on_popover_key-IsSafe tab c ti s h =
    used_safely c ti tab (on_tab c ti) refl (on_tab-IsSafe c ti s h)
on_popover_key-IsSafe ctrl_n c ti s h = (next c ti, true, refl, next-IsSafe c ti h)
on_popover_key-IsSafe down c ti s h = (next c ti, true, refl, next-IsSafe c ti h)
on_popover_key-IsSafe backtab c ti s h = (prev c ti, true, refl, prev-IsSafe c ti h)
on_popover_key-IsSafe ctrl_p c ti s h = (prev c ti, true, refl, prev-IsSafe c ti h)
on_popover_key-IsSafe up c ti s h = (prev c ti, true, refl, prev-IsSafe c ti h)
on_popover_key-IsSafe enter c ti s h = enter-IsSafe c ti (is_neg c.idx) refl s h
on_popover_key-IsSafe any_other c ti s h = (ti, false, refl, s)

-- If the completions have been made anew since the list was drawn, so that none is chosen but the list
-- still has a choice, Enter panics.
pub enter_stale :
    (c : Completions) (ti : TextInput)
    → is_neg c.idx ≡ false
    → ti.complete_index ≡ negsuc 0
    → 0 < length (options ti)
    → on_popover_key enter c ti ≡ none
unfolding on_popover_key on_exec execute_completion
enter_stale c ti e m n = ground (arith, e, m, n)
