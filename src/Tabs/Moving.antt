-- ===== src/Tabs/Moving.antt =====
-- lib/ui/tab.go: `MoveTab` takes the history along.
use nyat.Common.{
  ℕ, zero, suc, ◌-◌, ◌<◌, ◌≡◌, refl, ap, sym, ◌∙◌, List, [], ◌∷◌, ◌++◌, map, some, arith, length,
  take, drop, get_elem?, delete_at, insert_at, get_elem?-delete_at, get_elem?-insert_at_lt,
  get_elem?-insert_at_self, get_elem?-insert_at_gt, length-delete_at, get_elem?-some-lt,
  insert_at-delete_at, lt→ltb, ltb-false,
}
use native.Mathlib.Decide.{dec_lt}
use nyat.Common.Int.{ℤ, pos, negsuc, Nearest}
use nyat.Tabs.{
  Tab, Tabs, move_right, move_left, shift_right, shift_left, clamp_to, move_to, move_tab,
}

module _ {A : Type 0} where
  -- Moving is taking out and putting in.
  pub move_right-insert_at :
      (source to : ℕ) (a : A) (xs : List A)
      → source < to
      → to < length xs
      → move_right source to a xs ≡ insert_at to a (delete_at source xs)
  unfolding move_right
  move_right-insert_at source to a [] h k = elim k [ ]
  move_right-insert_at zero zero a (x ∷ xs) h k = elim h [ ]
  move_right-insert_at zero (suc to) a (x ∷ xs) h k =
      ap (λ (n : ℕ). take n xs ++ (a ∷ drop (suc to) xs))
        (let e : suc to - 0 ≡ suc to = omega arith in e)
  move_right-insert_at (suc source) zero a (x ∷ xs) h k = elim h [ ]
  move_right-insert_at (suc source) (suc to) a (x ∷ xs) h k = ap (◌∷◌ x) (
      ap (λ (n : ℕ). take source xs ++ (take n (drop (suc source) xs) ++ (a ∷ drop (suc to) xs)))
        (let e : suc to - suc source ≡ to - source = omega arith in e)
      ∙ move_right-insert_at source to a xs (omega arith) (omega arith))

  pub move_left-insert_at :
      (source to : ℕ) (a : A) (xs : List A)
      → to < source
      → source < length xs
      → move_left source to a xs ≡ insert_at to a (delete_at source xs)
  unfolding move_left
  move_left-insert_at source to a [] h k = elim k [ ]
  move_left-insert_at zero to a (x ∷ xs) h k = elim h [ ]
  move_left-insert_at (suc source) zero a (x ∷ xs) h k =
      ap (λ (n : ℕ). a ∷ (take n (x ∷ xs) ++ drop (suc source) xs))
        (let e : suc source - 0 ≡ suc source = omega arith in e)
  move_left-insert_at (suc source) (suc to) a (x ∷ xs) h k = ap (◌∷◌ x) (
      ap (λ (n : ℕ). take to xs ++ (a ∷ (take n (drop to xs) ++ drop (suc (suc source)) (x ∷ xs))))
        (let e : suc source - suc to ≡ source - to = omega arith in e)
      ∙ move_left-insert_at source to a xs (omega arith) (omega arith))

  module _ (source to : ℕ) (a : A) (xs : List A) (g : get_elem? xs source ≡ some a) where
    -- What stood at a place stands at the place that the history is given for it.
    pub get_elem?-shift_right :
        (h : ℕ)
        → source < to
        → to < length xs
        → get_elem? (insert_at to a (delete_at source xs)) (shift_right source to h)
          ≡ get_elem? xs h
    unfolding shift_right
    get_elem?-shift_right zero lt le = ground (
      arith,
      length-delete_at source xs,
      get_elem?-insert_at_self to a (delete_at source xs),
      get_elem?-insert_at_lt to 0 a (delete_at source xs),
      get_elem?-delete_at source 0 xs,
    )
    get_elem?-shift_right (suc j) lt le = ground (
      arith,
      length-delete_at source xs,
      get_elem?-insert_at_self to a (delete_at source xs),
      get_elem?-insert_at_lt to j a (delete_at source xs),
      get_elem?-delete_at source j xs,
      get_elem?-insert_at_lt to (suc j) a (delete_at source xs),
      get_elem?-delete_at source (suc j) xs,
      get_elem?-insert_at_gt to j a (delete_at source xs),
    )

    pub get_elem?-shift_left :
        (h : ℕ)
        → to < source
        → source < length xs
        → get_elem? (insert_at to a (delete_at source xs)) (shift_left source to h) ≡ get_elem? xs h
    unfolding shift_left
    get_elem?-shift_left zero lt le = ground (
      arith,
      length-delete_at source xs,
      get_elem?-insert_at_self to a (delete_at source xs),
      get_elem?-insert_at_lt to 0 a (delete_at source xs),
      get_elem?-delete_at source 0 xs,
      get_elem?-insert_at_gt to 0 a (delete_at source xs),
    )
    get_elem?-shift_left (suc j) lt le = ground (
      arith,
      length-delete_at source xs,
      get_elem?-insert_at_self to a (delete_at source xs),
      get_elem?-insert_at_lt to (suc j) a (delete_at source xs),
      get_elem?-delete_at source j xs,
      get_elem?-delete_at source (suc j) xs,
      get_elem?-insert_at_gt to j a (delete_at source xs),
      get_elem?-insert_at_gt to (suc j) a (delete_at source xs),
    )

-- `t` with its selected tab moved to place `to`: the other tabs keep their order, each history entry
-- still names the tab that it named, and the selection goes along.
pub record Moved (t : Tabs) (to : ℕ) (tab : Tab) (u : Tabs) : Type 0 where
  pub order : u.tabs ≡ insert_at to tab (delete_at t.selected t.tabs)
  pub new_place : ℕ → ℕ
  pub followed : (h : ℕ) → get_elem? u.tabs (new_place h) ≡ get_elem? t.tabs h
  pub history_eq : u.history ≡ map new_place t.history
  pub own_place : new_place t.selected ≡ to
  pub selected_eq : u.selected ≡ to

map_same : (xs : List ℕ) → xs ≡ map (λ x. x) xs
map_same [] = refl
map_same (x ∷ xs) = ap (◌∷◌ x) (map_same xs)

shift_right_self : (source to : ℕ) → shift_right source to source ≡ to
unfolding shift_right
shift_right_self source to = ground arith

shift_left_self : (source to : ℕ) → shift_left source to source ≡ to
unfolding shift_left
shift_left_self source to = ground arith

move_to_right :
    (to : ℕ) (t : Tabs) (tab : Tab)
    → get_elem? t.tabs t.selected ≡ some tab
    → t.selected < to
    → move_to to t
      ≡ some (record {
        tabs = move_right t.selected to tab t.tabs;
        selected = to;
        history = map (shift_right t.selected to) t.history;
      })
unfolding move_to
move_to_right to t tab g lt = rw (g, move_to) (rw (lt→ltb t.selected to lt) refl)

move_to_left :
    (to : ℕ) (t : Tabs) (tab : Tab)
    → get_elem? t.tabs t.selected ≡ some tab
    → to < t.selected
    → move_to to t
      ≡ some (record {
        tabs = move_left t.selected to tab t.tabs;
        selected = to;
        history = map (shift_left t.selected to) t.history;
      })
unfolding move_to
move_to_left to t tab g lt =
    rw (g, move_to) (rw (ltb-false t.selected to (omega arith)) (rw (lt→ltb to t.selected lt) refl))

move_to_same :
    (to : ℕ) (t : Tabs) (tab : Tab)
    → get_elem? t.tabs t.selected ≡ some tab
    → t.selected ≡ to
    → move_to to t ≡ some t
unfolding move_to
move_to_same to t tab g e =
    rw (g, move_to)
      (rw (ltb-false t.selected to (omega arith), ltb-false to t.selected (omega arith)) refl)

move_to_lem :
    (to : ℕ) (t : Tabs) (tab : Tab)
    → get_elem? t.tabs t.selected ≡ some tab
    → to < length t.tabs
    → (u : Tabs) × (move_to to t ≡ some u) × Moved t to tab u
move_to_lem to t tab g le = elim (dec_lt t.selected to) [
  | yes lt ↦ (
    _,
    move_to_right to t tab g lt,
    record {
      order = order_right lt;
      new_place = shift_right t.selected to;
      followed =
          λ h. rw (order_right lt) (get_elem?-shift_right t.selected to tab t.tabs g h lt le);
      history_eq = refl;
      own_place = shift_right_self t.selected to;
      selected_eq = refl;
    },
  )
  | no nlt ↦ elim (dec_lt to t.selected) [
    | yes gt ↦ (
      _,
      move_to_left to t tab g gt,
      record {
        order = order_left gt;
        new_place = shift_left t.selected to;
        followed =
            λ h. rw (order_left gt) (get_elem?-shift_left t.selected to tab t.tabs g h gt inside);
        history_eq = refl;
        own_place = shift_left_self t.selected to;
        selected_eq = refl;
      },
    )
    | no ngt ↦
        let e : t.selected ≡ to = omega arith in
        (
          t,
          move_to_same to t tab g e,
          record {
            order =
                sym (insert_at-delete_at t.selected tab t.tabs g)
                ∙ ap (λ (n : ℕ). insert_at n tab (delete_at t.selected t.tabs)) e;
            new_place = λ h. h;
            followed = λ h. refl;
            history_eq = map_same t.history;
            own_place = e;
            selected_eq = e;
          },
        )
  ]
]
  where
    inside : t.selected < length t.tabs
    inside = get_elem?-some-lt t.tabs t.selected tab g

    order_right :
        t.selected < to
        → move_right t.selected to tab t.tabs ≡ insert_at to tab (delete_at t.selected t.tabs)
    order_right lt = move_right-insert_at t.selected to tab t.tabs lt le

    order_left :
        to < t.selected
        → move_left t.selected to tab t.tabs ≡ insert_at to tab (delete_at t.selected t.tabs)
    order_left gt = move_left-insert_at t.selected to tab t.tabs gt inside

pub clamp_to-lt : (to : ℤ) (len : ℕ) → 0 < len → clamp_to to len < len
unfolding clamp_to
clamp_to-lt (pos n) len h = ground arith
clamp_to-lt (negsuc n) len h = h

-- `MoveTab`, with its target as the code brings it into range.
pub move_tab_clamped :
    (to : ℤ) (t : Tabs) (tab : Tab)
    → get_elem? t.tabs t.selected ≡ some tab
    → (u : Tabs) × (move_tab to t ≡ some u) × Moved t (clamp_to to (length t.tabs)) tab u
unfolding move_tab
move_tab_clamped to t tab g =
    move_to_lem (clamp_to to (length t.tabs)) t tab g
      (clamp_to-lt to (length t.tabs) (omega (arith, get_elem?-some-lt t.tabs t.selected tab g)))

clamp_to-Nearest : (to : ℤ) (len : ℕ) → 0 < len → Nearest to len (clamp_to to len)
unfolding clamp_to
clamp_to-Nearest (pos n) len h = (ground arith, λ k. ground (arith, k), λ k. ground (arith, h, k))
clamp_to-Nearest (negsuc n) len h = (h, refl)

-- With a selected tab, `MoveTab` to any target, in range or not, succeeds: the tab goes to the target
-- if that is a place of a tab, to the first place if it is negative and else to the last, the other
-- tabs keep their order, each history entry names the tab that it named before, and the moved tab is
-- selected.
pub move_tab-Moved :
    (to : ℤ) (t : Tabs) (tab : Tab)
    → get_elem? t.tabs t.selected ≡ some tab
    → (k : ℕ) × (u : Tabs) × Nearest to (length t.tabs) k
      × (move_tab to t ≡ some u)
      × Moved t k tab u
move_tab-Moved to t tab g =
    let some_tab : 0 < length t.tabs = omega (arith, get_elem?-some-lt t.tabs t.selected tab g) in
    let (u, e, m) = move_tab_clamped to t tab g in
    (clamp_to to (length t.tabs), u, clamp_to-Nearest to (length t.tabs) some_tab, e, m)
