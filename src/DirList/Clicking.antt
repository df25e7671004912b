-- ===== src/DirList/Clicking.antt =====
-- widgets/dirlist.go: the mouse on the list, and `Next` and `Prev`.
use nyat.Common.{
  ℕ, zero, suc, ◌+◌, ◌-◌, ◌<◌, Bool, true, false, List, [], ◌∷◌, Option, none, some, Text, text_eq,
  length, get_elem?, ltb, ◌==◌, if◌then◌else◌, ◌≡◌, refl, arith, ap, sym, ◌∙◌, some_inj,
  get_elem?-some-lt, get_elem?-lt,
}
use nyat.Common.Int.{pos, negsuc, ◌+ℤ◌, pos_part}
use nyat.DirList.{DirectoryList, find_string, next_prev, wrap, clicked, ensure_scroll}
use nyat.DirList.Rows.{IsDistinct, IsDrawn, Row, row_at, as_row, find_string-get}

pub data MouseButton : Type 0 where
  button1 wheel_down wheel_up other_button : MouseButton

-- `MouseEvent`: the directory that is then given to `Select`.
unfoldable pub mouse_event : ℕ → MouseButton → DirectoryList → Option Text
unfolding clicked next_prev
mouse_event y button1 l = clicked y l
mouse_event y wheel_down l = next_prev (pos 1) l
mouse_event y wheel_up l = next_prev (negsuc 0) l
mouse_event y other_button l = none

-- The places after and before place i of n, around the ends.
abbrev pub after : ℕ → ℕ → ℕ
after n i = if suc i == n then 0 else suc i

abbrev pub before : ℕ → ℕ → ℕ
before n zero = n - 1
before n (suc i) = i

nonempty :
    (dirs : List Text) (i : ℕ) (a b : Option Text)
    → i < length dirs
    → (elim dirs [ [] ↦ a | _ ↦ b ]) ≡ b
nonempty [] i a b h = absurd (omega arith)
nonempty (d ∷ dirs) i a b h = refl

wrap_moves :
    (n i : ℕ)
    → i < n
    → (wrap n (pos i +ℤ pos 1) ≡ after n i) × (wrap n (pos i +ℤ negsuc 0) ≡ before n i)
unfolding wrap
wrap_moves n zero h = (ground arith, ground arith)
wrap_moves n (suc i) h = (ground arith, ground arith)

next_prev_moves :
    (l : DirectoryList) (i : ℕ)
    → find_string l.dirs l.selected ≡ pos i
    → (next_prev (pos 1) l ≡ get_elem? l.dirs (after (length l.dirs) i))
      × (next_prev (negsuc 0) l ≡ get_elem? l.dirs (before (length l.dirs) i))
unfolding next_prev
next_prev_moves l i e =
    let n = length l.dirs in
    let b = get_elem?-some-lt l.dirs i l.selected (find_string-get l.dirs i l.selected e) in
    let (f, g) = wrap_moves n i b in
    (
      nonempty l.dirs i none (get_elem? l.dirs (wrap n (find_string l.dirs l.selected +ℤ pos 1))) b
          ∙ ap (λ z. get_elem? l.dirs (wrap n (z +ℤ pos 1))) e
          ∙ ap (get_elem? l.dirs) f,
      nonempty l.dirs i none (get_elem? l.dirs (wrap n (find_string l.dirs l.selected +ℤ negsuc 0)))
            b
          ∙ ap (λ z. get_elem? l.dirs (wrap n (z +ℤ negsuc 0))) e
          ∙ ap (get_elem? l.dirs) g,
    )

around :
    (n i : ℕ)
    → i < n
    → (after n i < n) × (before n i < n) × (before n (after n i) ≡ i) × (after n (before n i) ≡ i)
around n zero h = ground arith
around n (suc i) h = ground arith

-- In a list without repetitions that has the selected directory, `Next` leads to a directory from
-- which `Prev` leads back, and `Prev` to one from which `Next` leads back, also around the ends.
pub next_prev_back :
    (l : DirectoryList) (i : ℕ)
    → IsDistinct l.dirs
    → find_string l.dirs l.selected ≡ pos i
    → ((b : Text) × (next_prev (pos 1) l ≡ some b)
        × (next_prev (negsuc 0) (record l { selected = b }) ≡ some l.selected))
      × ((b : Text) × (next_prev (negsuc 0) l ≡ some b)
          × (next_prev (pos 1) (record l { selected = b }) ≡ some l.selected))
next_prev_back l i d e =
    let n = length l.dirs in
    let s = find_string-get l.dirs i l.selected e in
    let (a_lt, b_lt, ba, ab) = around n i (get_elem?-some-lt l.dirs i l.selected s) in
    let (f, g) = next_prev_moves l i e in
    let (x, hx) = get_elem?-lt l.dirs (after n i) a_lt in
    let (y, hy) = get_elem?-lt l.dirs (before n i) b_lt in
    (
      (
        x,
        f ∙ hx,
        (next_prev_moves (record l { selected = x }) (after n i) (d (after n i) x hx)).1
            ∙ ap (get_elem? l.dirs) ba
            ∙ s,
      ),
      (
        y,
        g ∙ hy,
        (next_prev_moves (record l { selected = y }) (before n i) (d (before n i) y hy)).0
            ∙ ap (get_elem? l.dirs) ab
            ∙ s,
      ),
    )

as_row_name :
    (b : Bool) (y : ℕ) (selected : Text) (o : Option Text) (r : Row)
    → (if b then as_row y selected o else none) ≡ some r
    → o ≡ some r.name
as_row_name false y selected o r h = cc
as_row_name true y selected none r h = cc
as_row_name true y selected (some name) r h = ap some (
    ap (λ q. q.name)
      (some_inj (record { place = y; name = name; is_selected = text_eq name selected }) r h))

-- If a click on a row finds the directory that the row shows, the list has no repetitions, then
-- the list has not been scrolled: on a scrolled list a click selects another directory.
pub clicked_scrolled :
    (width h y : ℕ) (l : DirectoryList) (rows : List Row) (r : Row)
    → IsDistinct l.dirs
    → IsDrawn width h l rows
    → row_at y rows ≡ some r
    → clicked y (ensure_scroll h l) ≡ some r.name
    → (ensure_scroll h l).scroll ≡ 0
unfolding clicked ensure_scroll
clicked_scrolled width h y l rows r d w e c =
    let s = (ensure_scroll h l).scroll in
    let f = as_row_name (ltb y h) y l.selected (get_elem? l.dirs (s + y)) r (sym (w.shows y) ∙ e) in
    let p = ap pos_part (sym (d (s + y) r.name f) ∙ d y r.name c) in omega (arith, p)
