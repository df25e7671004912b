-- ===== src/Tabs.antt =====
-- lib/ui/tab.go: the tabs, the selected one and the history of selections. Redraw requests and the
-- focus of a tab's content are left out. `none` is the run-time panic on an index out of range.
pub mod Pins
pub mod Moving
pub mod Valid
pub mod Safety
pub mod Mouse
pub mod Removing
pub mod Faces
pub mod PinOrder
pub mod Pinning
pub mod Unpinning
use nyat.Common.{
  ℕ, zero, suc, ◌+◌, ◌-◌, Bool, true, false, not, ◌&&◌, List, [], ◌∷◌, ◌++◌, map, Option, none,
  some, Text, length, take, drop, get_elem?, set, delete_at, leb, ltb, ◌==◌, if◌then◌else◌, ◌>>=◌,
}
use nyat.Common.Int.{ℤ, pos, negsuc, ◌+ℤ◌, ◌-ℤ◌, is_neg, lt_ℤ}
use nyat.Models.{Ref}

pub record Tab : Type 0 where
  pub content : Ref
  pub name : Text
  pub pinned : Bool
  pub index_before_pin : ℤ

pub record Tabs : Type 0 where
  pub tabs : List Tab
  pub selected : ℕ
  pub history : List ℕ

unfoldable pub new_tabs : Tabs
new_tabs = record { tabs = []; selected = 0; history = [] }

abbrev pub new_tab : Ref → Text → Tab
new_tab content name = record {
  content = content;
  name = name;
  pinned = false;
  index_before_pin = pos 0;
}

unfoldable pub add : Ref → Text → Tabs → Tabs
add content name t = record t { tabs = t.tabs ++ new_tab content name ∷ [] }

-- `Select`. A negative index, or one into no tabs, ends in the panic of `TabContent.Invalidate`.
unfoldable pub select : ℤ → Tabs → Option Tabs
select index t =
    elim (if lt_ℤ index (pos (length t.tabs)) then index else pos (length t.tabs) -ℤ pos 1) [
      | negsuc k ↦ none
      | pos i ↦
          if t.selected == i
          then some t
          else some (record t {
            selected = i;
            history =
                if ltb t.selected (length t.tabs) then t.history ++ t.selected ∷ [] else t.history;
          })
    ]

abbrev last? : List ℕ → Option ℕ
last? [] = none
last? (x ∷ []) = some x
last? (x ∷ y ∷ r) = last? (y ∷ r)

abbrev but_last : List ℕ → List ℕ
but_last [] = []
but_last (x ∷ []) = []
but_last (x ∷ y ∷ r) = x ∷ but_last (y ∷ r)

-- `popHistory`
unfoldable pub pop_history : Tabs → Option (ℕ × Tabs)
pop_history t = elim (last? t.history) [
  | none ↦ none
  | some item ↦ some (item, record t { history = but_last t.history })
]

abbrev is_last : ℕ → List ℕ → Bool
is_last item acc = elim (last? acc) [ none ↦ false | some l ↦ item == l ]

-- The loop of `removeHistory`, with `newHist` as the accumulator.
unfoldable pub remove_history : ℕ → List ℕ → List ℕ → List ℕ
remove_history index [] acc = acc
remove_history index (item ∷ items) acc =
    let item' = if ltb index item then item - 1 else item in
    remove_history index items
      (if item == index then acc else if is_last item' acc then acc else acc ++ item' ∷ [])

-- The first tab with a content.
unfoldable pub find_content : Ref → List Tab → Option ℕ
find_content c [] = none
find_content c (tab ∷ rest) =
    let later = find_content c rest in
    if tab.content == c then some 0 else (elim later [ none ↦ none | some i ↦ some (suc i) ])

unfoldable pub remove : Ref → Tabs → Option Tabs
unfolding find_content remove_history pop_history select
remove content t = elim (find_content content t.tabs) [
  | none ↦ some t
  | some i ↦
      let u = record t { tabs = delete_at i t.tabs; history = remove_history i t.history [] } in
      if i == u.selected
      then (elim (pop_history u) [ none ↦ some u | some (index, v) ↦ select (pos index) v ])
      else if ltb i u.selected
      then some (record u { selected = u.selected - 1 })
      else some u
]

unfoldable pub replace : Ref → Ref → Text → Tabs → Option Tabs
unfolding find_content select
replace source target name t = elim (find_content source t.tabs) [
  | none ↦ some t
  | some i ↦ select (pos i) (record t { tabs = set t.tabs i (new_tab target name) })
]

unfoldable pub select_previous : Tabs → Option (Bool × Tabs)
unfolding pop_history select
select_previous t = elim (pop_history t) [
  | none ↦ some (false, t)
  | some (index, u) ↦ do v ← select (pos index) u; some (true, v)
]

-- `copy(tabs[from:to], tabs[from+1:to+1]); tabs[to] = tab`, for `from` < `to`.
unfoldable pub move_right {ℓ} : {A : Type ℓ} → ℕ → ℕ → A → List A → List A
move_right source to tab xs =
    take source xs ++ (take (to - source) (drop (suc source) xs) ++ (tab ∷ drop (suc to) xs))

-- `copy(tabs[to+1:from+1], tabs[to:from]); tabs[to] = tab`, for `to` < `from`.
unfoldable pub move_left {ℓ} : {A : Type ℓ} → ℕ → ℕ → A → List A → List A
move_left source to tab xs =
    take to xs ++ (tab ∷ (take (source - to) (drop to xs) ++ drop (suc source) xs))

-- What the loops over the history do to one entry.
unfoldable pub shift_right : ℕ → ℕ → ℕ → ℕ
shift_right source to h = if h == source then to else if ltb source h && leb h to then h - 1 else h

unfoldable pub shift_left : ℕ → ℕ → ℕ → ℕ
shift_left source to h = if h == source then to else if leb to h && ltb h source then h + 1 else h

unfoldable pub clamp_to : ℤ → ℕ → ℕ
clamp_to (negsuc k) len = 0
clamp_to (pos to) len = if ltb to len then to else len - 1

-- `MoveTab`, its target put in range.
unfoldable pub move_to : ℕ → Tabs → Option Tabs
unfolding move_right move_left shift_right shift_left
move_to to t = elim (get_elem? t.tabs t.selected) [
  | none ↦ none
  | some tab ↦
      if ltb t.selected to
      then some (record {
        tabs = move_right t.selected to tab t.tabs;
        selected = to;
        history = map (shift_right t.selected to) t.history;
      })
      else if ltb to t.selected
      then some (record {
        tabs = move_left t.selected to tab t.tabs;
        selected = to;
        history = map (shift_left t.selected to) t.history;
      })
      else some t
]

unfoldable pub move_tab : ℤ → Tabs → Option Tabs
unfolding clamp_to move_to
move_tab to t = move_to (clamp_to to (length t.tabs)) t

unfoldable pub next_tab : Tabs → Option Tabs
unfolding select
next_tab t = select (pos (if leb (length t.tabs) (t.selected + 1) then 0 else t.selected + 1)) t

unfoldable pub prev_tab : Tabs → Option Tabs
unfolding select
prev_tab t =
    select (if t.selected == 0 then pos (length t.tabs) -ℤ pos 1 else pos (t.selected - 1)) t
