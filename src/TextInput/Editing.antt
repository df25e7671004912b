-- ===== src/TextInput/Editing.antt =====
-- The keys of lib/ui/textinput.go edit the text around the cursor.
use nyat.Common.{ℕ, suc, ◌+◌, ◌-◌, [], ◌∷◌, ◌++◌, Text, length, take, drop, ◌<◌, ◌≡◌, arith}
use nyat.TextInput.{
  TextInput, ensure_scroll, update_completions, on_change, insert, backspace, delete_char,
}
use nyat.TextInput.Events.{rune_key}
use nyat.TextInput.Zipper.{
  Zipper, zip, rev_onto, tail, edit, Shows, length-rev_onto, drop-rev_onto, take-rev_onto,
  append-rev_onto,
}

-- A change reads and moves no text.
unfoldable pub Same : TextInput → TextInput → Type 0
Same t ti = (t.text ≡ ti.text) × (t.index ≡ ti.index)

pub ensure_scroll-Same : (ti : TextInput) → Same (ensure_scroll ti) ti
unfolding Same ensure_scroll
ensure_scroll-Same ti = ground arith

on_change-Same : (ti : TextInput) → Same (on_change ti).0 ti
unfolding Same on_change update_completions
on_change-Same ti = ground arith

pub Same-Shows : (t ti : TextInput) (z : Zipper) → Same t ti → Shows z ti → Shows z t
unfolding Same
Same-Shows t ti z s h = (cc, cc)

-- Both together, at the end of every edit.
pub settle : (ti : TextInput) (z : Zipper) → Shows z ti → Shows z (on_change (ensure_scroll ti)).0
settle ti z h =
    Same-Shows (on_change (ensure_scroll ti)).0 (ensure_scroll ti) z
      (on_change-Same (ensure_scroll ti))
      (Same-Shows (ensure_scroll ti) ti z (ensure_scroll-Same ti) h)

-- The text before the cursor with another behind it, and the text from the cursor on.
pub before :
    (ti : TextInput) (z : Zipper) (s : Text)
    → Shows z ti
    → take ti.index ti.text ++ s ≡ rev_onto z.left s
before ti z s h = grind (arith, take-rev_onto z.left z.right 0, append-rev_onto z.left [] s)

pub behind : (ti : TextInput) (z : Zipper) → Shows z ti → drop ti.index ti.text ≡ z.right
behind ti z h = grind (arith, drop-rev_onto z.left z.right 0)

pub insert-edits :
    (ch : ℕ) (ti : TextInput) (z : Zipper)
    → Shows z ti
    → Shows (edit (rune_key ch) z) (insert ch ti).0
unfolding insert
insert-edits ch ti z h =
    settle
      (record ti {
        text = take ti.index ti.text ++ (ch ∷ drop ti.index ti.text);
        index = ti.index + 1;
      })
      (edit (rune_key ch) z)
      (grind (arith, before ti z (ch ∷ drop ti.index ti.text) h, behind ti z h), grind arith)

pub length-Shows :
    (ti : TextInput) (z : Zipper) → Shows z ti → length ti.text ≡ length z.left + length z.right
length-Shows ti z h = grind (arith, length-rev_onto z.left z.right)

-- Backspace, where there is something before the cursor.
backspace_one :
    (ti : TextInput) (c : ℕ) (left right : Text)
    → Shows (zip (c ∷ left) right) ti
    → Shows (zip left right) (record ti {
      text = take (ti.index - 1) ti.text ++ drop ti.index ti.text;
      index = ti.index - 1;
    })
backspace_one ti c left right h = (
  grind (
    arith,
    take-rev_onto left (c ∷ right) 0,
    append-rev_onto left [] right,
    behind ti (zip (c ∷ left) right) h,
  ),
  grind arith,
)

backspace_first : (ti : TextInput) → ti.index ≡ 0 → (backspace ti).0 ≡ ti
unfolding backspace
backspace_first ti e = ground (arith, e)

backspace_later :
    (ti : TextInput)
    → 0 < length ti.text
    → ¬ (ti.index ≡ 0)
    → backspace ti
      ≡ on_change (
          ensure_scroll (record ti {
            text = take (ti.index - 1) ti.text ++ drop ti.index ti.text;
            index = ti.index - 1;
          }))
unfolding backspace
backspace_later ti e f = ground (arith, e, f)

pub backspace-edits :
    (ti : TextInput) (left right : Text)
    → Shows (zip left right) ti
    → Shows (zip (tail left) right) (backspace ti).0
backspace-edits ti [] r h = rw (backspace_first ti h.1) h
backspace-edits ti (c ∷ l) r h =
    rw
      (backspace_later ti (omega (arith, length-Shows ti (zip (c ∷ l) r) h))
        (λ e. omega (arith, h.1, e)))
      (settle
        (record ti {
          text = take (ti.index - 1) ti.text ++ drop ti.index ti.text;
          index = ti.index - 1;
        })
        (zip l r) (backspace_one ti c l r h))

-- The same for the character behind the cursor.
delete_one :
    (ti : TextInput) (c : ℕ) (left right : Text)
    → Shows (zip left (c ∷ right)) ti
    → Shows
        (zip left right)
        (record ti { text = take ti.index ti.text ++ drop (suc ti.index) ti.text })
delete_one ti c left right h =
    (grind (arith, drop-rev_onto left (c ∷ right) 1, before ti (zip left (c ∷ right)) right h), h.1)

delete_char_last : (ti : TextInput) → ti.index ≡ length ti.text → (delete_char ti).0 ≡ ti
unfolding delete_char
delete_char_last ti e = ground (arith, e)

delete_char_inside :
    (ti : TextInput)
    → ti.index < length ti.text
    → delete_char ti
      ≡ on_change (
          ensure_scroll (record ti { text = take ti.index ti.text ++ drop (suc ti.index) ti.text }))
unfolding delete_char
delete_char_inside ti e = ground (arith, e)

pub delete_char-edits :
    (ti : TextInput) (left right : Text)
    → Shows (zip left right) ti
    → Shows (zip left (tail right)) (delete_char ti).0
delete_char-edits ti l [] h =
    rw (delete_char_last ti (omega (arith, h.1, length-Shows ti (zip l []) h))) h
delete_char-edits ti l (c ∷ r) h =
    rw (delete_char_inside ti (omega (arith, h.1, length-Shows ti (zip l (c ∷ r)) h))) (
      settle (record ti { text = take ti.index ti.text ++ drop (suc ti.index) ti.text }) (zip l r)
        (delete_one ti c l r h))
