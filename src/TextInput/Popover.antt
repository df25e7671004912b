-- ===== src/TextInput/Popover.antt =====
-- lib/ui/textinput.go: the list of completions under a text input. It holds the options, the choice and
-- the text left of the cursor as they were when it was drawn last, while what it calls reads and sets
-- the input as it is now.
use nyat.Common.{
  ℕ, suc, Bool, true, false, not, ◌&&◌, List, [], ◌∷◌, ◌++◌, Option, none, some, Text, length,
  get_elem?, ◌==◌, text_eq, if◌then◌else◌, ◌>>=◌,
}
use nyat.Common.Int.{ℤ, pos, negsuc, ◌+ℤ◌, ◌-ℤ◌, is_neg, lt_ℤ, at}
use nyat.TextInput.{TextInput, string_left, string_right, set_text, invalidate_completions}

abbrev pub options : TextInput → List Text
options ti = elim ti.completions [ none ↦ [] | some l ↦ l ]

-- Whether every word has the rune at a place.
unfoldable pub agrees : ℕ → ℕ → List Text → Bool
agrees place r [] = true
agrees place r (word ∷ words) =
    let rest = agrees place r words in
    elim (get_elem? word place) [ none ↦ false | some c ↦ if c == r then rest else false ]

-- The loop of `findStem` from a place, over what is left of the first word.
unfoldable pub stem_from : ℕ → Text → List Text → Text
unfolding agrees
stem_from place [] words = []
stem_from place (r ∷ first) words =
    let rest = stem_from (suc place) first words in if agrees place r words then r ∷ rest else []

unfoldable pub find_stem : List Text → Text
unfolding stem_from
find_stem [] = []
find_stem (word ∷ []) = word
find_stem (word ∷ other ∷ words) = stem_from 0 word (other ∷ words)

-- `executeCompletion`; `none` is a panic.
unfoldable pub execute_completion : TextInput → Option TextInput
unfolding string_right
execute_completion ti = if length (options ti) == 0 then some ti else do
  chosen ← at (options ti) ti.complete_index
  some (set_text (chosen ++ string_right ti) ti)

pub record Completions : Type 0 where
  pub options : List Text
  pub string_left : Text
  pub idx : ℤ

-- `drawPopover`: the list that is drawn of an input.
unfoldable pub drawn : TextInput → Completions
unfolding string_left
drawn ti = record { options = options ti; string_left = string_left ti; idx = ti.complete_index }

-- `onSelect`
abbrev pub on_select : ℤ → TextInput → TextInput
on_select idx ti = record ti { complete_index = idx }

unfoldable pub next : Completions → TextInput → TextInput
next c ti =
    let idx = c.idx +ℤ pos 1 in
    on_select (if lt_ℤ (pos (length c.options) -ℤ pos 1) idx then negsuc 0 else idx) ti

unfoldable pub prev : Completions → TextInput → TextInput
prev c ti =
    let idx = c.idx -ℤ pos 1 in
    on_select (if lt_ℤ idx (negsuc 0) then pos (length c.options) -ℤ pos 1 else idx) ti

-- `onExec`
unfoldable pub on_exec : TextInput → Option TextInput
unfolding execute_completion invalidate_completions
on_exec ti = do t ← execute_completion ti; some (invalidate_completions t)

-- `onStem`
unfoldable pub on_stem : Text → TextInput → TextInput
unfolding string_right set_text
on_stem stem ti = set_text (stem ++ string_right ti) ti

pub data PopoverKey : Type 0 where
  tab ctrl_n down backtab ctrl_p up enter any_other : PopoverKey

abbrev pub is_empty : Text → Bool
is_empty [] = true
is_empty (c ∷ s) = false

unfoldable pub on_tab : Completions → TextInput → Option TextInput
unfolding on_exec on_stem next find_stem
on_tab c ti =
    if length c.options == 1 && not (is_neg c.idx)
    then on_exec ti
    else if not (is_empty (find_stem c.options))
        && not (text_eq (find_stem c.options) c.string_left)
    then some (on_stem (find_stem c.options) ti)
    else some (next c ti)

-- `Event` of the list: the input afterwards and whether the key was used; `none` is a panic.
unfoldable pub on_popover_key : PopoverKey → Completions → TextInput → Option (TextInput × Bool)
unfolding on_tab on_exec next prev
on_popover_key tab c ti = do t ← on_tab c ti; some (t, true)
on_popover_key ctrl_n c ti = some (next c ti, true)
on_popover_key down c ti = some (next c ti, true)
on_popover_key backtab c ti = some (prev c ti, true)
on_popover_key ctrl_p c ti = some (prev c ti, true)
on_popover_key up c ti = some (prev c ti, true)
on_popover_key enter c ti =
    if is_neg c.idx then some (ti, false) else (do t ← on_exec ti; some (t, true))
on_popover_key any_other c ti = some (ti, false)
