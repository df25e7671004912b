-- ===== src/TextInput/Drawing.antt =====
-- lib/ui/textinput.go: `Set` keeps the scroll, which `Draw` reads before it adjusts it.
use nyat.Common.{
  ℕ, zero, suc, ◌+◌, ◌≤◌, ◌<◌, true, none, some, Text, length, leb, ◌≡◌, refl, arith, inl, inr,
  Bool-cases,
}
use native.Mathlib.Decide.{dec_lt}
use nyat.TextInput.{TextInput, set_text, ensure_scroll, scroll_up, scroll_down}
use nyat.TextInput.Printing.{draw}

-- The second loop brings a scroll beyond the cursor to it, and leaves any other.
scroll_down_beyond : (index scroll : ℕ) → index ≤ scroll → scroll_down index scroll ≡ index
unfolding scroll_down
scroll_down_beyond index zero h = omega arith
scroll_down_beyond index (suc scroll) h = ground (arith, h, scroll_down_beyond index scroll)

scroll_down_same : (index scroll : ℕ) → scroll ≤ index → scroll_down index scroll ≡ scroll
unfolding scroll_down
scroll_down_same index zero h = refl
scroll_down_same index (suc scroll) h = ground (arith, h)

-- The first loop, with fuel for all its rounds, ends with the cursor before the right edge.
scroll_up_lem :
    (fuel index width scroll : ℕ)
    → index + 1 ≤ fuel + scroll
    → (index < scroll_up fuel index width scroll + width)
      × (scroll ≤ scroll_up fuel index width scroll)
unfolding scroll_up
scroll_up_lem zero index width scroll h = (omega arith, omega arith)
scroll_up_lem (suc fuel) index width scroll h = elim (Bool-cases (leb (scroll + width) index)) [
  | inl e ↦
      let (a, b) = scroll_up_lem fuel index width (suc scroll) (omega (arith, h)) in
      rw e (a, omega (arith, b))
  | inr e ↦ rw e (ground arith, omega arith)
]

scroll_up_same :
    (fuel index width scroll : ℕ)
    → index < scroll + width
    → scroll_up fuel index width scroll ≡ scroll
unfolding scroll_up
scroll_up_same zero index width scroll h = refl
scroll_up_same (suc fuel) index width scroll h = ground (arith, h)

scrolled : ℕ → ℕ → ℕ → ℕ
scrolled index width scroll = scroll_down index (scroll_up (index + 1) index width scroll)

ensure_scroll-eq :
    (ti : TextInput) (width : ℕ)
    → ti.width ≡ some width
    → ensure_scroll ti ≡ record ti { scroll = scrolled ti.index width ti.scroll }
unfolding ensure_scroll scrolled
ensure_scroll-eq ti width e = ground (arith, e)

scrolled_visible :
    (index width scroll : ℕ)
    → 0 < width
    → (scrolled index width scroll ≤ index) × (index < scrolled index width scroll + width)
unfolding scrolled
scrolled_visible index width scroll w =
    let (a, b) = scroll_up_lem (index + 1) index width scroll (omega arith) in
    elim (dec_lt index (scroll_up (index + 1) index width scroll)) [
      | yes lt ↦
          rw (scroll_down_beyond index (scroll_up (index + 1) index width scroll) (omega arith))
            (omega arith, omega (arith, w))
      | no ge ↦
          rw (scroll_down_same index (scroll_up (index + 1) index width scroll) (omega arith))
            (omega arith, a)
    ]

scrolled_same :
    (index width scroll : ℕ)
    → scroll ≤ index
    → index < scroll + width
    → scrolled index width scroll ≡ scroll
unfolding scrolled
scrolled_same index width scroll a b =
    rw (scroll_up_same (index + 1) index width scroll b) (scroll_down_same index scroll a)

-- After `ensureScroll` in a context that is not empty the cursor is in sight: it is neither left of
-- the scroll nor a width or more to its right. Only the scroll may change, and it does not if the
-- cursor was in sight before.
pub ensure_scroll-visible :
    (ti : TextInput) (width : ℕ)
    → ti.width ≡ some width
    → 0 < width
    → let t = ensure_scroll ti in
      (t.scroll ≤ t.index)
      × (t.index < t.scroll + width)
      × (t ≡ record ti { scroll = t.scroll })
      × (ti.scroll ≤ ti.index → ti.index < ti.scroll + width → t.scroll ≡ ti.scroll)
ensure_scroll-visible ti width e w = rw (ensure_scroll-eq ti width e) (
  (scrolled_visible ti.index width ti.scroll w).0,
  (scrolled_visible ti.index width ti.scroll w).1,
  refl,
  scrolled_same ti.index width ti.scroll,
)

-- `Set` of a text that is shorter than the scroll makes the next `Draw` of a focused text input
-- panic, whatever the width: the scroll is read before it is adjusted.
pub draw-set_text :
    (string_width : Text → ℕ) (width : ℕ) (value : Text) (ti : TextInput)
    → ti.focus ≡ true
    → length value < ti.scroll
    → draw string_width width (set_text value ti) ≡ none
unfolding draw set_text
draw-set_text string_width width value ti f h = ground (arith, f, h)
