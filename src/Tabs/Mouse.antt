-- ===== src/Tabs/Mouse.antt =====
-- lib/ui/tab.go: `MouseEvent` and `Clicked` of the strip of tabs. `label_len` is the number of bytes
-- of a name as go-runewidth truncates it to 32 cells, and `close_tab` the callback `CloseTab`.
use nyat.Common.{
  ℕ, suc, ◌+◌, ◌<◌, ◌≡◌, refl, inl, inr, ◌&&◌, List, [], ◌∷◌, Option, none, some, Text, arith,
  length, get_elem?, leb, ltb, ◌==◌, if◌then◌else◌, get_elem?-lt, Bool-cases, ◌>>=◌,
}
use nyat.Common.Int.{pos}
use nyat.Tabs.{Tab, Tabs, select, next_tab, prev_tab}
use nyat.Tabs.Valid.{IsValid}
use nyat.Tabs.Safety.{op_select, op_next, op_prev, apply, apply-IsValid}

-- The events that the strip tells apart, at a column.
pub data Mouse : Type 0 where
  button1 button3 : ℕ → Mouse
  wheel_down wheel_up other_mouse : Mouse

module _ (label_len : Text → ℕ) (close_tab : ℕ → Tabs → Option Tabs) where
  -- The loop of `Clicked`, from column `x` and tab `i` on.
  unfoldable pub clicked_from : ℕ → ℕ → ℕ → List Tab → Option ℕ
  clicked_from mouse x i [] = none
  clicked_from mouse x i (tab ∷ rest) =
      let later = clicked_from mouse (x + (label_len tab.name + 2)) (suc i) rest in
      if leb x mouse && ltb mouse (x + (label_len tab.name + 2)) then some i else later

  unfoldable pub clicked : ℕ → Tabs → Option ℕ
  unfolding clicked_from
  clicked mouse t = clicked_from mouse 0 0 t.tabs

  -- `changeFocus` reads the selected tab: `none` is its panic.
  abbrev refocus : Tabs → Option Tabs
  refocus t = elim (get_elem? t.tabs t.selected) [ none ↦ none | some tab ↦ some t ]

  abbrev change : (Tabs → Option Tabs) → Tabs → Option Tabs
  change f t = do u ← refocus t; v ← f u; refocus v

  unfoldable pub close : ℕ → Tabs → Option Tabs
  unfolding select
  close i t =
      if i == t.selected then close_tab i t else (do u ← close_tab i t; select (pos t.selected) u)

  unfoldable pub mouse_event : Mouse → Tabs → Option Tabs
  unfolding clicked select next_tab prev_tab close
  mouse_event (button1 x) t = elim (clicked x t) [
    | none ↦ some t
    | some i ↦ if i == t.selected then some t else change (select (pos i)) t
  ]
  mouse_event wheel_down t = change next_tab t
  mouse_event wheel_up t = change prev_tab t
  mouse_event (button3 x) t = elim (clicked x t) [ none ↦ some t | some i ↦ change (close i) t ]
  mouse_event other_mouse t = some t

  abbrev Ends : Option Tabs → Type 0
  Ends o = (u : Tabs) × (o ≡ some u) × IsValid u

  refocus_valid : (t : Tabs) → IsValid t → refocus t ≡ some t
  refocus_valid t v =
      let (tab, g) = get_elem?-lt t.tabs t.selected v.selected_in in rw (g, refocus) refl

  change-Ends : (f : Tabs → Option Tabs) (t : Tabs) → IsValid t → Ends (f t) → Ends (change f t)
  change-Ends f t v (u, e, w) = (u, rw (refocus_valid t v) (rw e (refocus_valid u w)), w)

  clicked_from-lt :
      (mouse x i : ℕ) (tabs : List Tab) (j : ℕ)
      → clicked_from mouse x i tabs ≡ some j
      → j < i + length tabs
  unfolding clicked_from
  clicked_from-lt mouse x i [] j e = cc
  clicked_from-lt mouse x i (tab ∷ rest) j e =
      ground (arith, e, clicked_from-lt mouse (x + (label_len tab.name + 2)) (suc i) rest j)

  clicked-lt : (mouse : ℕ) (t : Tabs) (j : ℕ) → clicked mouse t ≡ some j → j < length t.tabs
  unfolding clicked
  clicked-lt mouse t j e = omega (arith, clicked_from-lt mouse 0 0 t.tabs j e)

  select-Ends : (i : ℕ) (t : Tabs) → IsValid t → Ends (select (pos i) t)
  select-Ends i t v = unfold apply in apply-IsValid (op_select i) t v

  on_button1 :
      (x : ℕ) (t : Tabs) (o : Option ℕ)
      → clicked x t ≡ o
      → IsValid t
      → Ends (mouse_event (button1 x) t)
  unfolding mouse_event
  on_button1 x t none e v = rw (e, mouse_event) (t, refl, v)
  on_button1 x t (some i) e v =
      rw (e, mouse_event)
        (elim (Bool-cases (i == t.selected)) [
          | inl q ↦ rw q (t, refl, v)
          | inr q ↦ rw q (change-Ends (select (pos i)) t v (select-Ends i t v))
        ])

  -- The callback closes a tab that is there, and some tab stays selected.
  abbrev pub Closes : Type 0
  Closes =
      (i : ℕ) (t : Tabs)
      → IsValid t
      → i < length t.tabs
      → (u : Tabs) × (close_tab i t ≡ some u) × IsValid u

  close-Ends : (i : ℕ) (t : Tabs) → Closes → IsValid t → i < length t.tabs → Ends (close i t)
  unfolding close
  close-Ends i t c v lt = elim (Bool-cases (i == t.selected)) [
    | inl q ↦ rw q (c i t v lt)
    | inr q ↦ let (u, e, w) = c i t v lt in rw q (rw e (select-Ends t.selected u w))
  ]

  on_button3 :
      (x : ℕ) (t : Tabs) (o : Option ℕ)
      → clicked x t ≡ o
      → Closes
      → IsValid t
      → Ends (mouse_event (button3 x) t)
  unfolding mouse_event
  on_button3 x t none e c v = rw (e, mouse_event) (t, refl, v)
  on_button3 x t (some i) e c v =
      rw (e, mouse_event) (change-Ends (close i) t v (close-Ends i t c v (clicked-lt x t i e)))

  -- No mouse event on the strip of tabs panics, at any column, and it leaves the selection and the
  -- history in range, if they are so before and the callback that closes a tab keeps them so.
  pub mouse_event-IsValid :
      (event : Mouse) (t : Tabs)
      → Closes
      → IsValid t
      → (u : Tabs) × (mouse_event event t ≡ some u) × IsValid u
  unfolding mouse_event
  mouse_event-IsValid (button1 x) t c v = on_button1 x t (clicked x t) refl v
  mouse_event-IsValid (button3 x) t c v = on_button3 x t (clicked x t) refl c v
  mouse_event-IsValid wheel_down t c v =
      change-Ends next_tab t v (unfold apply in apply-IsValid op_next t v)
  mouse_event-IsValid wheel_up t c v =
      change-Ends prev_tab t v (unfold apply in apply-IsValid op_prev t v)
  mouse_event-IsValid other_mouse t c v = (t, refl, v)
