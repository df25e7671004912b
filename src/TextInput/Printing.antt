-- ===== src/TextInput/Printing.antt =====
-- lib/ui/textinput.go: what is drawn: the prompt and the text, and the rows of the list of completions.
-- The styles and the list's scroll bar are left out. `string_width` is that of go-runewidth.
use nyat.Common.{
  ℕ, zero, suc, ◌+◌, ◌-◌, ◌≤◌, ◌<◌, Bool, false, ◌&&◌, List, [], ◌∷◌, Option, none, some, Text,
  length, take, drop, ◌++◌, ◌||◌, get_elem?, leb, ltb, ◌==◌, if◌then◌else◌, ◌≡◌, refl, ap, arith,
}
use nyat.Common.Int.{ℤ, pos, negsuc}
use nyat.TextInput.{TextInput, ensure_scroll}
use nyat.TextInput.Popover.{options}

pub record OptionRow : Type 0 where
  pub place : ℕ
  pub option : Text
  pub is_selected : Bool

-- The first option that is shown on h rows; without a selection the index is -1.
unfoldable pub start_index : ℕ → ℕ → ℤ → ℕ
start_index h n (pos i) = if ltb h n && ltb h (i + 1) then i + 1 - h else 0
start_index h n (negsuc i) = 0

abbrev pub is_at : ℤ → ℕ → Bool
is_at (pos k) i = k == i
is_at (negsuc k) i = false

-- The loop of `Draw` over the options, with i the index of the first.
unfoldable pub rows_from : ℕ → ℕ → ℕ → ℤ → List Text → List OptionRow
rows_from i start h idx [] = []
rows_from i start h idx (opt ∷ opts) =
    let rest = rows_from (suc i) start h idx opts in
    if ltb i start
    then rest
    else if leb (start + h) i
    then rest
    else record { place = i - start; option = opt; is_selected = is_at idx i } ∷ rest

-- `Draw` on h rows.
unfoldable pub draw_options : ℕ → TextInput → List OptionRow
unfolding start_index rows_from
draw_options h ti =
    rows_from 0 (start_index h (length (options ti)) ti.complete_index) h ti.complete_index
      (options ti)

module _ (string_width : Text → ℕ) where
  unfoldable pub max_len : List Text → ℕ
  max_len [] = 0
  max_len (s ∷ ss) =
      let rest = max_len ss in if ltb rest (string_width s) then string_width s else rest

  -- `drawPopover`: the width and the height of the list, if there is one.
  unfoldable pub draw_popover : TextInput → Option (ℕ × ℕ)
  unfolding max_len
  draw_popover ti =
      if length (options ti) == 0
      then none
      else some (max_len (options ti) + 3, length (options ti))

  abbrev stars : ℕ → Text
  stars zero = []
  stars (suc n) = 42 ∷ stars n

  -- `Draw` on a context of a width: what is printed, the cell of the cursor and the size of the list if
  -- it has the focus, and the input afterwards. The scroll is read before it is adjusted; `none` is a
  -- panic on a slice out of range.
  unfoldable pub draw : ℕ → TextInput → Option (Text × Option (ℕ × Option (ℕ × ℕ)) × TextInput)
  unfolding ensure_scroll draw_popover
  draw width ti =
      let scroll = if ti.focus then ti.scroll else 0 in
      let t = record (if ti.focus then ensure_scroll ti else ti) { width = some width } in
      let text = drop scroll ti.text in
      if ltb (length ti.text) scroll || ltb ti.index scroll
      then none
      else some (
        ti.prompt ++ (if ti.password then stars (string_width text) else text),
        (if ti.focus
            then some (string_width (take (ti.index - scroll) text ++ ti.prompt), draw_popover t)
            else none),
        t,
      )

-- The option that is shown on a row.
abbrev pub row_at : ℕ → List OptionRow → Option OptionRow
row_at y [] = none
row_at y (r ∷ rows) = let rest = row_at y rows in if r.place == y then some r else rest

abbrev pub as_row : ℕ → ℕ → ℤ → Option Text → Option OptionRow
as_row y i idx none = none
as_row y i idx (some opt) = some (record { place = y; option = opt; is_selected = is_at idx i })

-- No row above a place.
row_at_low :
    (i start h : ℕ) (idx : ℤ) (opts : List Text) (y : ℕ)
    → start + y < i
    → row_at y (rows_from i start h idx opts) ≡ none
unfolding rows_from
row_at_low i start h idx [] y k = refl
row_at_low i start h idx (o ∷ opts) y k =
    let ih = row_at_low (suc i) start h idx opts y (omega arith) in ground (arith, k, ih)

row_at-rows_from :
    (i j start h : ℕ) (idx : ℤ) (opts : List Text) (y : ℕ)
    → start + y ≡ i + j
    → row_at y (rows_from i start h idx opts)
      ≡ (if ltb y h then as_row y (start + y) idx (get_elem? opts j) else none)
unfolding rows_from
row_at-rows_from i j start h idx [] y k = ground arith
row_at-rows_from i zero start h idx (o ∷ opts) y k =
    let low = row_at_low (suc i) start h idx opts y (omega arith) in
    let e : start + y ≡ i = omega arith in ground (arith, k, low, ap (is_at idx) e)
row_at-rows_from i (suc j) start h idx (o ∷ opts) y k =
    let ih = row_at-rows_from (suc i) j start h idx opts y (omega arith) in ground (arith, k, ih)

start_index-place :
    (h n i : ℕ)
    → 0 < h
    → i < n
    → (start_index h n (pos i) ≤ i)
      × (i < start_index h n (pos i) + h)
      × (start_index h n (pos i) ≤ n - h)
unfolding start_index
start_index-place h n i k b = (ground (arith, k, b), ground (arith, k, b), ground (arith, k, b))

-- On h rows, each row y below h shows the option whose index is y more than that of the first shown,
-- marked if it is the selected one, and there are no others. If an option is selected and there is a
-- row, the selected option is on one of them, and no row stays empty that an option could fill.
pub draw_options-rows :
    (h : ℕ) (ti : TextInput)
    → (first : ℕ) × ((y : ℕ)
        → row_at y (draw_options h ti) ≡ (
            if ltb y h
            then as_row y (first + y) ti.complete_index (get_elem? (options ti) (first + y))
            else none))
      × ((i : ℕ)
          → ti.complete_index ≡ pos i
          → 0 < h
          → i < length (options ti)
          → (first ≤ i) × (i < first + h) × (first ≤ length (options ti) - h))
unfolding draw_options
draw_options-rows h ti =
    let first = start_index h (length (options ti)) ti.complete_index in
    (
      first,
      λ y. row_at-rows_from 0 (first + y) first h ti.complete_index (options ti) y (omega arith),
      λ i e k b. rw e (start_index-place h (length (options ti)) i k b),
    )
