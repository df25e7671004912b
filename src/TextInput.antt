-- ===== src/TextInput.antt =====
-- lib/ui/textinput.go: a line of text with a cursor, and its list of completions. Redraw requests
-- and colours are left out; a change callback is known by its address, and the result of an
-- operation lists those that it runs. `none` is the run-time panic on an index out of range.
-- `text[:index]` and `text[index:]` are `take` and `drop`, which agree with Go for an index in the text.
pub mod Events
pub mod Popover
pub mod Printing
pub mod Stems
pub mod Completing
pub mod Drawing
pub mod Zipper
pub mod Editing
pub mod Words
pub mod Keys
use nyat.Common.{
  ℕ, zero, suc, ◌+◌, ◌-◌, ◌≤◌, Bool, true, false, not, ◌&&◌, ◌||◌, List, [], ◌∷◌, ◌++◌, Option,
  none, some, Text, length, take, drop, get_elem?, leb, ltb, ◌==◌, if◌then◌else◌, ◌>>=◌, is_some,
}
use nyat.Common.Int.{ℤ, pos, negsuc}
use nyat.Models.{Ref}

pub record TextInput : Type 0 where
  pub width : Option ℕ  -- of `ctx`, once drawn
  pub focus : Bool
  pub index : ℕ
  pub password : Bool
  pub prompt : Text
  pub scroll : ℕ
  pub text : Text
  pub change : List Ref
  pub tab_complete : Option (Text → Option (List Text))
  pub completions : Option (List Text)
  pub complete_index : ℤ
  pub complete_debouncer : Bool  -- a timer has been made

unfoldable pub new_text_input : Text → TextInput
new_text_input text = record {
  width = none;
  focus = false;
  index = length text;
  password = false;
  prompt = [];
  scroll = 0;
  text = text;
  change = [];
  tab_complete = none;
  completions = none;
  complete_index = pos 0;
  complete_debouncer = false;
}

unfoldable pub string_left : TextInput → Text
string_left ti = take ti.index ti.text

unfoldable pub string_right : TextInput → Text
string_right ti = drop ti.index ti.text

unfoldable pub set_text : Text → TextInput → TextInput
set_text value ti = record ti { text = value; index = length value }

-- `Password`
unfoldable pub set_password : Bool → TextInput → TextInput
set_password password ti = record ti { password = password }

unfoldable pub set_prompt : Text → TextInput → TextInput
set_prompt prompt ti = record ti { prompt = prompt }

-- `TabComplete`; the completer returns a nil slice as `none`.
unfoldable pub add_tab_complete : (Text → Option (List Text)) → TextInput → TextInput
add_tab_complete complete ti = record ti { tab_complete = some complete }

-- `OnChange`
unfoldable pub add_on_change : Ref → TextInput → TextInput
add_on_change cb ti = record ti { change = ti.change ++ cb ∷ [] }

-- `Focus`; `text[:ti.index]` panics beyond the text.
unfoldable pub set_focus : Bool → TextInput → Option TextInput
set_focus focus ti =
    if focus && is_some ti.width && ltb (length ti.text) ti.index
    then none
    else some (record ti { focus = focus })

-- `for ti.index-ti.scroll >= width { ti.scroll++ }`; the fuel is the rounds that are left at most.
unfoldable pub scroll_up : ℕ → ℕ → ℕ → ℕ → ℕ
scroll_up zero index width scroll = scroll
scroll_up (suc fuel) index width scroll =
    let rest = scroll_up fuel index width (suc scroll) in
    if leb (scroll + width) index then rest else scroll

-- `for ti.index-ti.scroll < 0 { ti.scroll-- }`
unfoldable pub scroll_down : ℕ → ℕ → ℕ
scroll_down index zero = zero
scroll_down index (suc scroll) =
    let rest = scroll_down index scroll in if ltb index (suc scroll) then rest else suc scroll

unfoldable pub ensure_scroll : TextInput → TextInput
unfolding scroll_up scroll_down
ensure_scroll ti = elim ti.width [
  | none ↦ ti
  | some width ↦ record ti {
    scroll = scroll_down ti.index (scroll_up (ti.index + 1) ti.index width ti.scroll);
  }
]

abbrev pub Edited : Type 0
Edited = TextInput × List Ref

-- `updateCompletions`: the timer is made, or started again.
unfoldable pub update_completions : TextInput → TextInput
update_completions ti = elim ti.tab_complete [
  | none ↦ ti
  | some f ↦ record ti { complete_debouncer = true }
]

unfoldable pub on_change : TextInput → Edited
unfolding update_completions
on_change ti = (update_completions ti, ti.change)

unfoldable pub insert : ℕ → TextInput → Edited
unfolding ensure_scroll on_change
insert ch ti = on_change (
    ensure_scroll (record ti {
      text = take ti.index ti.text ++ (ch ∷ drop ti.index ti.text);
      index = ti.index + 1;
    }))

-- The loop of `deleteWord`, with `k` = i + 1: the place after the nearest blank to the left.
unfoldable pub word_start : ℕ → Text → ℕ
word_start zero text = 0
word_start (suc k) text =
    let rest = word_start k text in
    elim (get_elem? text k) [ none ↦ suc k | some c ↦ if c == 32 then suc k else rest ]

-- A blank just before the cursor goes with the word.
unfoldable pub skip_blank : ℕ → Text → ℕ
skip_blank index text = elim (get_elem? text (index - 1)) [
  | none ↦ index
  | some c ↦ if c == 32 then index - 1 else index
]

unfoldable pub delete_word : TextInput → Edited
unfolding word_start skip_blank ensure_scroll on_change
delete_word ti =
    if length ti.text == 0 || ti.index == 0
    then (ti, [])
    else let start = word_start (skip_blank ti.index ti.text) ti.text in
      on_change (
        ensure_scroll
          (record ti { text = take start ti.text ++ drop ti.index ti.text; index = start }))

unfoldable pub delete_line_forward : TextInput → Edited
unfolding ensure_scroll on_change
delete_line_forward ti =
    if length ti.text == 0 || length ti.text == ti.index
    then (ti, [])
    else on_change (ensure_scroll (record ti { text = take ti.index ti.text }))

unfoldable pub delete_line_backward : TextInput → Edited
unfolding ensure_scroll on_change
delete_line_backward ti =
    if length ti.text == 0 || ti.index == 0
    then (ti, [])
    else on_change (ensure_scroll (record ti { text = drop ti.index ti.text; index = 0 }))

unfoldable pub delete_char : TextInput → Edited
unfolding ensure_scroll on_change
delete_char ti =
    if ltb 0 (length ti.text) && not (ti.index == length ti.text)
    then on_change
        (ensure_scroll (record ti { text = take ti.index ti.text ++ drop (suc ti.index) ti.text }))
    else (ti, [])

unfoldable pub backspace : TextInput → Edited
unfolding ensure_scroll on_change
backspace ti =
    if ltb 0 (length ti.text) && not (ti.index == 0)
    then on_change (
        ensure_scroll (record ti {
          text = take (ti.index - 1) ti.text ++ drop ti.index ti.text;
          index = ti.index - 1;
        }))
    else (ti, [])

unfoldable pub invalidate_completions : TextInput → TextInput
invalidate_completions ti = record ti { completions = none }

unfoldable pub show_completions : TextInput → TextInput
unfolding string_left
show_completions ti = elim ti.tab_complete [
  | none ↦ ti
  | some f ↦ record ti { completions = f (string_left ti); complete_index = negsuc 0 }
]
