-- ===== src/Tabs/Pinning.antt =====
-- lib/ui/tab.go: what `PinTab` does.
use nyat.Common.{
  ℕ, zero, suc, ◌+◌, ◌≤◌, ◌<◌, ◌≡◌, refl, ap, sym, ◌∙◌, true, false, List, [], ◌∷◌, some, arith,
  length, get_elem?, delete_at, insert_at, get_elem?-insert_at_self, length-delete_at, subst,
  get_elem?-some-lt, lt→ltb,
}
use nyat.Common.Int.{ℤ, pos, ◌-ℤ◌, ◌+ℤ◌}
use nyat.Tabs.{Tab, Tabs, move_tab, clamp_to}
use nyat.Tabs.Pins.{pin_end, lower_pins, raise_pins, update_at, pin_tab, unpin_tab}
use nyat.Tabs.Moving.{Moved, move_tab_clamped}
use nyat.Tabs.Faces.{
  face, faces, PinsFirst, pinned_prefix, pin_end-faces, faces-lower_pins, get_elem?-faces,
  faces-insert_at, faces-delete_at, delete_at-update_at, get_elem?-update_at, length-update_at,
  length-faces,
}
use nyat.Tabs.PinOrder.{Grown, prefix-le, insert_at-Grown}

get_elem?-lower_pins :
    (limit : ℤ) (tabs : List Tab) (i : ℕ) (tab : Tab)
    → get_elem? tabs i ≡ some tab
    → tab.pinned ≡ false
    → get_elem? (lower_pins limit tabs) i ≡ some tab
unfolding lower_pins
get_elem?-lower_pins limit [] i tab e n = cc
get_elem?-lower_pins limit (x ∷ xs) zero tab e n = ground arith
get_elem?-lower_pins limit (x ∷ xs) (suc i) tab e n = get_elem?-lower_pins limit xs i tab e n

pub get_elem?-raise_pins :
    (sel : ℕ) (before : ℤ) (i j : ℕ) (tabs : List Tab)
    → i + j ≡ sel
    → get_elem? (raise_pins sel before i tabs) j ≡ get_elem? tabs j
unfolding raise_pins
get_elem?-raise_pins sel before i j [] e = refl
get_elem?-raise_pins sel before i zero (x ∷ xs) e = ground arith
get_elem?-raise_pins sel before i (suc j) (x ∷ xs) e =
    ground (arith, get_elem?-raise_pins sel before (suc i) j xs)

-- The selected tab as `PinTab` marks it.
abbrev as_pinned : ℤ → Tab → Tab
as_pinned before tab = record tab { pinned = true; index_before_pin = before }

abbrev pub as_unpinned : Tab → Tab
as_unpinned tab = record tab { pinned = false }

before_of : Tabs → ℤ
before_of t = pos t.selected -ℤ pos (pin_end t.tabs)

marked : Tabs → Tabs
marked t = record t {
  tabs = update_at t.selected (as_pinned (before_of t)) (lower_pins (before_of t) t.tabs);
}

pin_step :
    (t : Tabs) (tab : Tab)
    → get_elem? t.tabs t.selected ≡ some tab
    → tab.pinned ≡ false
    → pin_tab t ≡ move_tab (pos (pin_end t.tabs)) (marked t)
unfolding pin_tab marked before_of
pin_step t tab g n = rw (g, pin_tab) (rw n refl)

unfoldable pub unmarked : ℤ → Tabs → Tabs
unmarked before u = record u {
  tabs = update_at u.selected as_unpinned (raise_pins u.selected before 0 u.tabs);
}

pub unpin_step :
    (u : Tabs) (tab : Tab)
    → get_elem? u.tabs u.selected ≡ some tab
    → tab.pinned ≡ true
    → unpin_tab u
      ≡ move_tab
          (tab.index_before_pin +ℤ pos (pin_end u.tabs) -ℤ pos 1)
          (unmarked tab.index_before_pin u)
unfolding unpin_tab unmarked
unpin_step u tab g n = rw (g, unpin_tab) (rw n refl)

pub clamp_to_in : (n len : ℕ) → n < len → clamp_to (pos n) len ≡ n
unfolding clamp_to
clamp_to_in n len lt = rw (lt→ltb n len lt) refl

-- What `PinTab` leaves.
pub record Pins (t : Tabs) (tab : Tab) (u : Tabs) : Type 0 where
  pub selected_eq : u.selected ≡ pin_end t.tabs
  pub faces_eq :
      faces u.tabs
      ≡ insert_at
          (pin_end t.tabs)
          (record (face tab) { pinned = true })
          (delete_at t.selected (faces t.tabs))
  pub first : PinsFirst (faces u.tabs)
  pub grown : pin_end u.tabs ≡ suc (pin_end t.tabs)
  pub own :
      get_elem? u.tabs u.selected
      ≡ some
          (record tab { pinned = true; index_before_pin = pos t.selected -ℤ pos (pin_end t.tabs) })

module _ (t : Tabs) (tab : Tab) (g : get_elem? t.tabs t.selected ≡ some tab)
    (n : tab.pinned ≡ false) (first : PinsFirst (faces t.tabs)) where
  pub end-le : pin_end t.tabs ≤ t.selected
  end-le =
      rw (pin_end-faces t.tabs)
        (prefix-le (faces t.tabs) t.selected (face tab) (get_elem?-faces t.tabs t.selected tab g) n)

  inside : t.selected < length t.tabs
  inside = get_elem?-some-lt t.tabs t.selected tab g

  marked_own : get_elem? (marked t).tabs (marked t).selected ≡ some (as_pinned (before_of t) tab)
  unfolding marked
  marked_own =
      get_elem?-update_at t.selected (as_pinned (before_of t)) (lower_pins (before_of t) t.tabs) tab
        (get_elem?-lower_pins (before_of t) t.tabs t.selected tab g n)

  marked_faces :
      insert_at
        (pin_end t.tabs)
        (face (as_pinned (before_of t) tab))
        (delete_at t.selected (faces (marked t).tabs))
      ≡ insert_at
          (pin_end t.tabs)
          (record (face tab) { pinned = true })
          (delete_at t.selected (faces t.tabs))
  unfolding marked
  marked_faces = ap (insert_at (pin_end t.tabs) (record (face tab) { pinned = true })) (
      sym (faces-delete_at t.selected (marked t).tabs)
      ∙ ap faces (delete_at-update_at t.selected (as_pinned (before_of t)) _)
      ∙ faces-delete_at t.selected (lower_pins (before_of t) t.tabs)
      ∙ ap (delete_at t.selected) (faces-lower_pins (before_of t) t.tabs))

  length-marked : length (marked t).tabs ≡ length t.tabs
  unfolding marked
  length-marked =
      length-update_at t.selected (as_pinned (before_of t)) (lower_pins (before_of t) t.tabs)
      ∙ sym (length-faces (lower_pins (before_of t) t.tabs))
      ∙ ap length (faces-lower_pins (before_of t) t.tabs)
      ∙ length-faces t.tabs

  target : clamp_to (pos (pin_end t.tabs)) (length (marked t).tabs) ≡ pin_end t.tabs
  target =
      rw length-marked
        (clamp_to_in (pin_end t.tabs) (length t.tabs) (omega (arith, end-le, inside)))

  own_mark :
      some (as_pinned (before_of t) tab)
      ≡ some
          (record tab { pinned = true; index_before_pin = pos t.selected -ℤ pos (pin_end t.tabs) })
  unfolding before_of
  own_mark = refl

  pin_tab-Pins :
      (u : Tabs)
      → Moved
          (marked t)
          (clamp_to (pos (pin_end t.tabs)) (length (marked t).tabs))
          (as_pinned (before_of t) tab)
          u
      → Pins t tab u
  unfolding marked
  pin_tab-Pins u m = record {
    selected_eq = m.selected_eq ∙ target;
    faces_eq = faces_u;
    first = subst PinsFirst (sym faces_u) (rw (pin_end-faces t.tabs) bigger.1);
    grown = pin_end-faces u.tabs ∙ ap pinned_prefix faces_u ∙ rw (pin_end-faces t.tabs) bigger.0;
    own =
        ap (get_elem? u.tabs) (m.selected_eq ∙ target)
        ∙ ap (λ (l : List Tab). get_elem? l (pin_end t.tabs)) order
        ∙ get_elem?-insert_at_self (pin_end t.tabs) _ (delete_at t.selected (marked t).tabs) room
        ∙ own_mark;
  }
    where
      order :
          u.tabs
          ≡ insert_at
              (pin_end t.tabs)
              (as_pinned (before_of t) tab)
              (delete_at t.selected (marked t).tabs)
      order =
          m.order
          ∙ ap
              (λ (k : ℕ).
                insert_at k (as_pinned (before_of t) tab) (delete_at t.selected (marked t).tabs))
              target

      faces_u :
          faces u.tabs
          ≡ insert_at
              (pin_end t.tabs)
              (record (face tab) { pinned = true })
              (delete_at t.selected (faces t.tabs))
      faces_u =
          ap faces order
          ∙ faces-insert_at (pin_end t.tabs) _ (delete_at t.selected (marked t).tabs)
          ∙ ap (insert_at (pin_end t.tabs) _) (faces-delete_at t.selected (marked t).tabs)
          ∙ marked_faces

      bigger : Grown (faces t.tabs) t.selected (record (face tab) { pinned = true })
      bigger =
          insert_at-Grown (faces t.tabs) t.selected _ (rw (length-faces t.tabs) inside)
            (rw (← pin_end-faces t.tabs) end-le) first refl

      room : pin_end t.tabs ≤ length (delete_at t.selected (marked t).tabs)
      room = omega (
        arith,
        end-le,
        inside,
        length-marked,
        length-delete_at t.selected (marked t).tabs (rw length-marked inside),
      )

  pub pin_Pins : (u : Tabs) × (pin_tab t ≡ some u) × Pins t tab u
  pin_Pins =
      let (u, p, m) = move_tab_clamped (pos (pin_end t.tabs)) (marked t) _ marked_own in
      (u, pin_step t tab g n ∙ p, pin_tab-Pins u m)

pub back_to : (s e : ℕ) → e ≤ s → pos s -ℤ pos e +ℤ pos (suc e) -ℤ pos 1 ≡ pos s
back_to s e le = ground arith
