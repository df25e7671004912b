-- ===== src/DirList/Rows.antt =====
-- widgets/dirlist.go: `Draw` of the list, as the rows that it prints, and the scroll position.
use nyat.Common.{
  ℕ, zero, suc, ◌+◌, ◌-◌, ◌≤◌, ◌<◌, Bool, true, false, List, [], ◌∷◌, Option, none, some, Text,
  length, get_elem?, leb, ltb, ltb-false, ◌==◌, text_eq, text_eq_iff, if◌then◌else◌, ◌≡◌, refl,
  arith, ap, sym, Bool-cases, inl, inr, get_elem?-some-lt, subst,
}
use nyat.Common.Int.{pos}
use nyat.DirList.{DirectoryList, find_string, find_from, ensure_scroll, scroll_for}

pub record Row : Type 0 where
  pub place : ℕ
  pub name : Text
  pub is_selected : Bool

pub data Drawn : Type 0 where
  spinner : Drawn
  empty_dirlist : Drawn
  listed : (rows : List Row) (text_width : ℕ) (scrollbar : Bool) → Drawn

-- The loop of `Draw` over the list, with i the index of its first entry.
unfoldable pub rows_from : ℕ → ℕ → ℕ → Text → List Text → List Row
rows_from i scroll h selected [] = []
rows_from i scroll h selected (name ∷ dirs) =
    let rest = rows_from (suc i) scroll h selected dirs in
    if ltb i scroll
    then rest
    else if leb h (i - scroll)
    then []
    else record { place = i - scroll; name = name; is_selected = text_eq name selected } ∷ rest

-- `Draw` on a context of a width and a height.
unfoldable pub draw : ℕ → ℕ → DirectoryList → DirectoryList × Drawn
unfolding ensure_scroll rows_from
draw width h l = if l.spinning then (l, spinner) else elim l.dirs [
  | [] ↦ (l, empty_dirlist)
  | _ ↦
      let l' = ensure_scroll h l in
      let scrollbar = ltb h (length l.dirs) in
      (
        l',
        listed (rows_from 0 l'.scroll h l'.selected l'.dirs)
            (if scrollbar then width - 1 else width) scrollbar,
      )
]

-- What a row shows.
abbrev pub row_at : ℕ → List Row → Option Row
row_at y [] = none
row_at y (r ∷ rows) = let rest = row_at y rows in if r.place == y then some r else rest

abbrev pub as_row : ℕ → Text → Option Text → Option Row
as_row y selected none = none
as_row y selected (some name) =
    some (record { place = y; name = name; is_selected = text_eq name selected })

row_at-rows_from :
    (i j scroll h : ℕ) (selected : Text) (dirs : List Text) (y : ℕ)
    → scroll + y ≡ i + j
    → row_at y (rows_from i scroll h selected dirs)
      ≡ (if ltb y h then as_row y selected (get_elem? dirs j) else none)
unfolding rows_from
row_at-rows_from i j scroll h selected [] y k = ground arith
row_at-rows_from i zero scroll h selected (d ∷ dirs) y k =
    let e : (i - scroll) ≡ y = omega arith in
    rw (ltb-false i scroll (omega arith)) (rw e (ground arith))
row_at-rows_from i (suc j) scroll h selected (d ∷ dirs) y k =
    let ih = row_at-rows_from (suc i) j scroll h selected dirs y (omega arith) in
    elim (Bool-cases (ltb i scroll)) [ inl e ↦ rw e ih | inr e ↦ rw e (ground (arith, e, k, ih)) ]

-- A list with a name at most once.
abbrev pub IsDistinct : List Text → Type 0
IsDistinct dirs =
    (j : ℕ) (name : Text) → get_elem? dirs j ≡ some name → find_string dirs name ≡ pos j

find_from-get :
    (j i : ℕ) (dirs : List Text) (str : Text)
    → find_from j dirs str ≡ pos i
    → (k : ℕ) × (i ≡ j + k) × (get_elem? dirs k ≡ some str)
unfolding find_from
find_from-get j i [] str h = cc
find_from-get j i (d ∷ dirs) str h = elim (Bool-cases (text_eq str d)) [
  | inl e ↦ (0, ground (arith, h, e), ap some (sym ((text_eq_iff str d).0 e)))
  | inr e ↦
      let (k, b, g) = find_from-get (suc j) i dirs str (ground (arith, h, e)) in
      (suc k, omega (arith, b), g)
]

pub find_string-get :
    (dirs : List Text) (i : ℕ) (str : Text)
    → find_string dirs str ≡ pos i
    → get_elem? dirs i ≡ some str
unfolding find_string
find_string-get dirs i str h =
    let (k, b, g) = find_from-get 0 i dirs str h in
    let e : k ≡ i = omega (arith, b) in subst (λ z. get_elem? dirs z ≡ some str) e g

-- The window of h rows holds place i, and it ends with the list if the list is long enough.
abbrev pub Covers : ℕ → ℕ → DirectoryList → Type 0
Covers h i l = (l.scroll ≤ i) × (i < l.scroll + h) × (l.scroll ≤ length l.dirs - h)

scroll_for-place :
    (h n scroll i : ℕ)
    → 0 < h
    → i < n
    → (scroll_for h n scroll (pos i) ≤ i)
      × (i < scroll_for h n scroll (pos i) + h)
      × (scroll_for h n scroll (pos i) ≤ n - h)
unfolding scroll_for
scroll_for-place h n scroll i k b =
    (ground (arith, k, b), ground (arith, k, b), ground (arith, k, b))

ensure_scroll-Covers :
    (h i : ℕ) (l : DirectoryList)
    → 0 < h
    → find_string l.dirs l.selecting ≡ pos i
    → Covers h i (ensure_scroll h l)
unfolding ensure_scroll
ensure_scroll-Covers h i l k e =
    let b = get_elem?-some-lt l.dirs i l.selecting (find_string-get l.dirs i l.selecting e) in
    rw e (scroll_for-place h (length l.dirs) l.scroll i k b)

-- What `draw` prints of a list that scrolls to a position.
pub record IsDrawn (width h : ℕ) (l : DirectoryList) (rows : List Row) : Type 0 where
  pub result : draw width h l ≡ (
    ensure_scroll h l,
    listed rows (if ltb h (length l.dirs) then width - 1 else width) (ltb h (length l.dirs)),
  )
  pub shows :
      (y : ℕ)
      → row_at y rows ≡ (
          if ltb y h
          then as_row y l.selected (get_elem? l.dirs ((ensure_scroll h l).scroll + y))
          else none)

nonempty {ℓ} :
    {A : Type ℓ} (spinning : Bool) (dirs : List Text) (i : ℕ) (c a b : A)
    → spinning ≡ false
    → i < length dirs
    → (if spinning then c else elim dirs [ [] ↦ a | _ ↦ b ]) ≡ b
nonempty true dirs i c a b s h = cc
nonempty false [] i c a b s h = absurd (omega arith)
nonempty false (d ∷ dirs) i c a b s h = refl

-- If the spinner stands and the directory being selected is in the list, at place i, `draw` on at
-- least one row scrolls so that its row is among those printed and no row stays empty that a
-- directory could fill, and each row y shows the directory at the scroll position plus y.
pub draw-IsDrawn :
    (width h i : ℕ) (l : DirectoryList)
    → 0 < h
    → l.spinning ≡ false
    → find_string l.dirs l.selecting ≡ pos i
    → Covers h i (ensure_scroll h l)
      × IsDrawn width h l (rows_from 0 (ensure_scroll h l).scroll h l.selected l.dirs)
unfolding draw
draw-IsDrawn width h i l k s e =
    let b = get_elem?-some-lt l.dirs i l.selecting (find_string-get l.dirs i l.selecting e) in
    (
      ensure_scroll-Covers h i l k e,
      record {
        result =
            nonempty l.spinning l.dirs i (l, spinner) (l, empty_dirlist)
              (
                ensure_scroll h l,
                listed (rows_from 0 (ensure_scroll h l).scroll h l.selected l.dirs)
                    (if ltb h (length l.dirs) then width - 1 else width) (ltb h (length l.dirs)),
              )
              s b;
        shows = λ y.
            row_at-rows_from 0 ((ensure_scroll h l).scroll + y) (ensure_scroll h l).scroll h
              l.selected l.dirs y (omega arith);
      },
    )
