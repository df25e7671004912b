-- ===== src/TextInput/Keys.antt =====
-- The keys of lib/ui/textinput.go that move the cursor, and all keys together.
use nyat.Common.{ℕ, ◌+◌, ◌-◌, ◌<◌, [], ◌∷◌, Text, length, ◌≡◌, refl, arith, sym, ◌∙◌}
use nyat.TextInput.{TextInput, ensure_scroll, invalidate_completions, show_completions}
use nyat.TextInput.Events.{
  Key, backspace_key, backspace2_key, ctrl_d, delete_key, ctrl_b, left_key, ctrl_f, right_key,
  ctrl_a, home_key, ctrl_e, end_key, ctrl_k, ctrl_w, ctrl_u, esc_key, tab_key, rune_key, other_key,
  cursor_to, cursor_left, cursor_right, on_key,
}
use nyat.TextInput.Zipper.{
  Zipper, zip, zip_left, zip_right, rev_onto, edit, Shows, length-rev_onto, rev_onto-rev_onto,
}
use nyat.TextInput.Editing.{
  Same-Shows, ensure_scroll-Same, length-Shows, insert-edits, backspace-edits, delete_char-edits,
}
use nyat.TextInput.Words.{delete_word-edits, delete_line_forward-edits, delete_line_backward-edits}

cursor_to-Shows :
    (i : ℕ) (ti : TextInput) (z : Zipper)
    → ti.text ≡ rev_onto z.left z.right
    → i ≡ length z.left
    → Shows z (cursor_to i ti)
unfolding cursor_to
cursor_to-Shows i ti z e f =
    Same-Shows (ensure_scroll (record ti { index = i })) (record ti { index = i }) z
      (ensure_scroll-Same (record ti { index = i })) (e, f)

cursor_left_first : (ti : TextInput) → ti.index ≡ 0 → cursor_left ti ≡ ti
unfolding cursor_left
cursor_left_first ti e = ground (arith, e)

cursor_left_later : (ti : TextInput) → 0 < ti.index → cursor_left ti ≡ cursor_to (ti.index - 1) ti
unfolding cursor_left
cursor_left_later ti e = ground (arith, e)

cursor_left-edits :
    (ti : TextInput) (left right : Text)
    → Shows (zip left right) ti
    → Shows (zip_left left right) (cursor_left ti)
cursor_left-edits ti [] r h = rw (cursor_left_first ti h.1) h
cursor_left-edits ti (c ∷ l) r h =
    rw (cursor_left_later ti (omega (arith, h.1)))
      (cursor_to-Shows (ti.index - 1) ti (zip l (c ∷ r)) h.0 (omega (arith, h.1)))

cursor_right_last : (ti : TextInput) → ti.index ≡ length ti.text → cursor_right ti ≡ ti
unfolding cursor_right
cursor_right_last ti e = ground (arith, e)

cursor_right_inside :
    (ti : TextInput) → ti.index < length ti.text → cursor_right ti ≡ cursor_to (ti.index + 1) ti
unfolding cursor_right
cursor_right_inside ti e = ground (arith, e)

cursor_right-edits :
    (ti : TextInput) (left right : Text)
    → Shows (zip left right) ti
    → Shows (zip_right left right) (cursor_right ti)
cursor_right-edits ti l [] h =
    rw (cursor_right_last ti (omega (arith, h.1, length-Shows ti (zip l []) h))) h
cursor_right-edits ti l (c ∷ r) h =
    rw (cursor_right_inside ti (omega (arith, h.1, length-Shows ti (zip l (c ∷ r)) h)))
      (cursor_to-Shows (ti.index + 1) ti (zip (c ∷ l) r) h.0 (omega (arith, h.1)))

cursor_home-edits :
    (ti : TextInput) (z : Zipper)
    → Shows z ti
    → Shows (zip [] (rev_onto z.left z.right)) (cursor_to 0 ti)
cursor_home-edits ti z h = cursor_to-Shows 0 ti (zip [] (rev_onto z.left z.right)) h.0 refl

cursor_end-edits :
    (ti : TextInput) (z : Zipper)
    → Shows z ti
    → Shows (zip (rev_onto z.right z.left) []) (cursor_to (length ti.text) ti)
cursor_end-edits ti z h =
    cursor_to-Shows (length ti.text) ti (zip (rev_onto z.right z.left) [])
      (h.0 ∙ sym (rev_onto-rev_onto z.right z.left))
      (omega (arith, length-Shows ti z h, length-rev_onto z.right z.left))

-- Every key does to the text and the cursor what its name says of the text on both sides of the
-- cursor, and no key leaves the cursor outside the text: if the text and the index stand for a
-- text left of the cursor and one right of it, then after `on_key` they stand for these texts
-- after `edit`. It inserts, erases a character, a word or a line, or moves the cursor, and does
-- nothing where there is nothing to erase or pass.
pub on_key-edit :
    (k : Key) (ti : TextInput) (z : Zipper) → Shows z ti → Shows (edit k z) (on_key k ti).0
unfolding on_key invalidate_completions show_completions
on_key-edit backspace_key ti z h = backspace-edits (invalidate_completions ti) z.left z.right h
on_key-edit backspace2_key ti z h = backspace-edits (invalidate_completions ti) z.left z.right h
on_key-edit ctrl_d ti z h = delete_char-edits (invalidate_completions ti) z.left z.right h
on_key-edit delete_key ti z h = delete_char-edits (invalidate_completions ti) z.left z.right h
on_key-edit ctrl_b ti z h = cursor_left-edits (invalidate_completions ti) z.left z.right h
on_key-edit left_key ti z h = cursor_left-edits (invalidate_completions ti) z.left z.right h
on_key-edit ctrl_f ti z h = cursor_right-edits (invalidate_completions ti) z.left z.right h
on_key-edit right_key ti z h = cursor_right-edits (invalidate_completions ti) z.left z.right h
on_key-edit ctrl_a ti z h = cursor_home-edits (invalidate_completions ti) z h
on_key-edit home_key ti z h = cursor_home-edits (invalidate_completions ti) z h
on_key-edit ctrl_e ti z h = cursor_end-edits (invalidate_completions ti) z h
on_key-edit end_key ti z h = cursor_end-edits (invalidate_completions ti) z h
on_key-edit ctrl_k ti z h = delete_line_forward-edits (invalidate_completions ti) z.left z.right h
on_key-edit ctrl_w ti z h = delete_word-edits (invalidate_completions ti) z.left z.right h
on_key-edit ctrl_u ti z h = delete_line_backward-edits (invalidate_completions ti) z.left z.right h
on_key-edit esc_key ti z h = h
on_key-edit tab_key ti z h = ground (arith, h)
on_key-edit (rune_key ch) ti z h = insert-edits ch (invalidate_completions ti) z h
on_key-edit other_key ti z h = h
