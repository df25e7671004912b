-- ===== src/TextInput/Events.antt =====
-- lib/ui/textinput.go: `Event`, `MouseEvent` and `Draw`.
use nyat.Common.{ℕ, ◌+◌, ◌-◌, not, [], Option, none, some, length, drop, leb, ltb, if◌then◌else◌}
use nyat.TextInput.{
  TextInput, Edited, ensure_scroll, insert, backspace, delete_char, delete_word,
  delete_line_forward, delete_line_backward, invalidate_completions, show_completions,
}

-- The keys that `Event` tells apart (names of tcell), and any other.
pub data Key : Type 0 where
  backspace_key backspace2_key ctrl_d delete_key ctrl_b left_key ctrl_f right_key : Key
  ctrl_a home_key ctrl_e end_key ctrl_k ctrl_w ctrl_u esc_key tab_key : Key
  rune_key : ℕ → Key
  other_key : Key

unfoldable pub cursor_to : ℕ → TextInput → TextInput
unfolding ensure_scroll
cursor_to index ti = ensure_scroll (record ti { index = index })

unfoldable pub cursor_left : TextInput → TextInput
unfolding cursor_to
cursor_left ti = if ltb 0 ti.index then cursor_to (ti.index - 1) ti else ti

unfoldable pub cursor_right : TextInput → TextInput
unfolding cursor_to
cursor_right ti = if ltb ti.index (length ti.text) then cursor_to (ti.index + 1) ti else ti

-- `Event` on a key
unfoldable pub on_key : Key → TextInput → Edited
unfolding invalidate_completions backspace delete_char cursor_left cursor_right cursor_to
    delete_line_forward delete_word delete_line_backward show_completions insert
on_key backspace_key ti = backspace (invalidate_completions ti)
on_key backspace2_key ti = backspace (invalidate_completions ti)
on_key ctrl_d ti = delete_char (invalidate_completions ti)
on_key delete_key ti = delete_char (invalidate_completions ti)
on_key ctrl_b ti = (cursor_left (invalidate_completions ti), [])
on_key left_key ti = (cursor_left (invalidate_completions ti), [])
on_key ctrl_f ti = (cursor_right (invalidate_completions ti), [])
on_key right_key ti = (cursor_right (invalidate_completions ti), [])
on_key ctrl_a ti = (cursor_to 0 (invalidate_completions ti), [])
on_key home_key ti = (cursor_to 0 (invalidate_completions ti), [])
on_key ctrl_e ti = (cursor_to (length ti.text) (invalidate_completions ti), [])
on_key end_key ti = (cursor_to (length ti.text) (invalidate_completions ti), [])
on_key ctrl_k ti = delete_line_forward (invalidate_completions ti)
on_key ctrl_w ti = delete_word (invalidate_completions ti)
on_key ctrl_u ti = delete_line_backward (invalidate_completions ti)
on_key esc_key ti = (invalidate_completions ti, [])
on_key tab_key ti = (show_completions ti, [])
on_key (rune_key ch) ti = insert ch (invalidate_completions ti)
on_key other_key ti = (ti, [])

-- `MouseEvent` with the first button: `text[ti.scroll:]` panics beyond the text. `prompt` is
-- measured in bytes; it is ASCII here.
unfoldable pub on_click : ℕ → TextInput → Option TextInput
unfolding cursor_to
on_click x ti =
    if not (leb (length ti.prompt + 1) x)
    then some ti
    else if ltb (length ti.text) ti.scroll
    then none
    else if leb x (length (drop ti.scroll ti.text) + length ti.prompt + 1)
    then some (cursor_to (x - length ti.prompt - 1) ti)
    else some ti
