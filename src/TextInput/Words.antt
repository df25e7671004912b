-- ===== src/TextInput/Words.antt =====
-- The keys of lib/ui/textinput.go that erase a word or a line.
use nyat.Common.{
  ℕ, suc, ◌<◌, [], ◌∷◌, ◌++◌, Text, length, take, drop, ◌==◌, ◌≡◌, refl, arith, Bool-cases, inl,
  inr, ◌∙◌, ap,
}
use nyat.TextInput.{
  TextInput, ensure_scroll, on_change, word_start, skip_blank, delete_word, delete_line_forward,
  delete_line_backward,
}
use nyat.TextInput.Zipper.{
  zip, rev_onto, without_word, without_blank, Shows, get_elem?-rev_onto, take-rev_onto,
  append-rev_onto,
}
use nyat.TextInput.Editing.{settle, behind, length-Shows}

word_start-rev_onto : (l r : Text) → word_start (length l) (rev_onto l r) ≡ length (without_word l)
unfolding word_start
word_start-rev_onto [] r = refl
word_start-rev_onto (c ∷ l) r =
    ground (arith, get_elem?-rev_onto l (c ∷ r) 0, word_start-rev_onto l (c ∷ r))

skip_blank-rev_onto :
    (c : ℕ) (l r : Text)
    → skip_blank (suc (length l)) (rev_onto l (c ∷ r)) ≡ length (without_blank (c ∷ l))
unfolding skip_blank
skip_blank-rev_onto c l r = ground (arith, get_elem?-rev_onto l (c ∷ r) 0)

-- The word's start, from the place where the search begins.
start-rev_onto :
    (c : ℕ) (l r : Text)
    → word_start (skip_blank (suc (length l)) (rev_onto l (c ∷ r))) (rev_onto l (c ∷ r))
      ≡ length (without_word (without_blank (c ∷ l)))
start-rev_onto c l r = elim (Bool-cases (c == 32)) [
  | inl e ↦ rw (skip_blank-rev_onto c l r) (rw e (word_start-rev_onto l (c ∷ r)))
  | inr e ↦ rw (skip_blank-rev_onto c l r) (rw e (word_start-rev_onto (c ∷ l) r))
]

-- A text up to a place, with another behind it.
upto : (l r s : Text) → take (length l) (rev_onto l r) ++ s ≡ rev_onto l s
upto l r s = grind (arith, take-rev_onto l r 0, append-rev_onto l [] s)

upto-without_word :
    (l r s : Text)
    → take (length (without_word l)) (rev_onto l r) ++ s ≡ rev_onto (without_word l) s
upto-without_word [] r s = refl
upto-without_word (c ∷ l) r s = elim (Bool-cases (c == 32)) [
  | inl e ↦ rw e (upto (c ∷ l) r s)
  | inr e ↦ rw e (upto-without_word l (c ∷ r) s)
]

upto_start :
    (c : ℕ) (l r s : Text)
    → take (length (without_word (without_blank (c ∷ l)))) (rev_onto l (c ∷ r)) ++ s
      ≡ rev_onto (without_word (without_blank (c ∷ l))) s
upto_start c l r s = elim (Bool-cases (c == 32)) [
  | inl e ↦ rw e (upto-without_word l (c ∷ r) s)
  | inr e ↦ rw e (upto-without_word (c ∷ l) r s)
]

-- The text that `delete_word` leaves from a place on.
abbrev cut_at : ℕ → TextInput → TextInput
cut_at start ti = record ti { text = take start ti.text ++ drop ti.index ti.text; index = start }

delete_word_first : (ti : TextInput) → ti.index ≡ 0 → (delete_word ti).0 ≡ ti
unfolding delete_word
delete_word_first ti e = ground (arith, e)

delete_word_later :
    (ti : TextInput)
    → 0 < length ti.text
    → ¬ (ti.index ≡ 0)
    → delete_word ti
      ≡ on_change (ensure_scroll (cut_at (word_start (skip_blank ti.index ti.text) ti.text) ti))
unfolding delete_word
delete_word_later ti e f = ground (arith, e, f)

cut-Shows :
    (ti : TextInput) (c : ℕ) (l r : Text) (start : ℕ)
    → start ≡ length (without_word (without_blank (c ∷ l)))
    → Shows (zip (c ∷ l) r) ti
    → Shows (zip (without_word (without_blank (c ∷ l))) r) (cut_at start ti)
cut-Shows ti c l r start e h =
    (rw e (rw (behind ti (zip (c ∷ l) r) h) (rw (h.0) (upto_start c l r r))), e)

pub delete_word-edits :
    (ti : TextInput) (left right : Text)
    → Shows (zip left right) ti
    → Shows (zip (without_word (without_blank left)) right) (delete_word ti).0
delete_word-edits ti [] r h = rw (delete_word_first ti h.1) h
delete_word-edits ti (c ∷ l) r h =
    rw
      (delete_word_later ti (omega (arith, length-Shows ti (zip (c ∷ l) r) h))
        (λ e. omega (arith, h.1, e)))
      (settle (cut_at (word_start (skip_blank ti.index ti.text) ti.text) ti)
        (zip (without_word (without_blank (c ∷ l))) r)
        (cut-Shows ti c l r _
          (ap (λ (x : Text). word_start (skip_blank ti.index x) x) h.0
            ∙ ap (λ i. word_start (skip_blank i (rev_onto l (c ∷ r))) (rev_onto l (c ∷ r))) h.1
            ∙ start-rev_onto c l r)
          h))

delete_line_forward_last :
    (ti : TextInput) → ti.index ≡ length ti.text → (delete_line_forward ti).0 ≡ ti
unfolding delete_line_forward
delete_line_forward_last ti e = ground (arith, e)

delete_line_forward_inside :
    (ti : TextInput)
    → ti.index < length ti.text
    → delete_line_forward ti
      ≡ on_change (ensure_scroll (record ti { text = take ti.index ti.text }))
unfolding delete_line_forward
delete_line_forward_inside ti e = ground (arith, e)

pub delete_line_forward-edits :
    (ti : TextInput) (left right : Text)
    → Shows (zip left right) ti
    → Shows (zip left []) (delete_line_forward ti).0
delete_line_forward-edits ti l [] h =
    rw (delete_line_forward_last ti (omega (arith, h.1, length-Shows ti (zip l []) h))) h
delete_line_forward-edits ti l (c ∷ r) h =
    rw (delete_line_forward_inside ti (omega (arith, h.1, length-Shows ti (zip l (c ∷ r)) h))) (
      settle (record ti { text = take ti.index ti.text }) (zip l [])
        (grind (arith, h, take-rev_onto l (c ∷ r) 0), h.1))

delete_line_backward_first : (ti : TextInput) → ti.index ≡ 0 → (delete_line_backward ti).0 ≡ ti
unfolding delete_line_backward
delete_line_backward_first ti e = ground (arith, e)

delete_line_backward_later :
    (ti : TextInput)
    → 0 < length ti.text
    → ¬ (ti.index ≡ 0)
    → delete_line_backward ti
      ≡ on_change (ensure_scroll (record ti { text = drop ti.index ti.text; index = 0 }))
unfolding delete_line_backward
delete_line_backward_later ti e f = ground (arith, e, f)

pub delete_line_backward-edits :
    (ti : TextInput) (left right : Text)
    → Shows (zip left right) ti
    → Shows (zip [] right) (delete_line_backward ti).0
delete_line_backward-edits ti [] r h = rw (delete_line_backward_first ti h.1) h
delete_line_backward-edits ti (c ∷ l) r h =
    rw
      (delete_line_backward_later ti (omega (arith, length-Shows ti (zip (c ∷ l) r) h))
        (λ e. omega (arith, h.1, e)))
      (settle (record ti { text = drop ti.index ti.text; index = 0 }) (zip [] r)
        (behind ti (zip (c ∷ l) r) h, refl))
