-- ===== src/Tabs/Unpinning.antt =====
-- lib/ui/tab.go: `UnpinTab` undoes `PinTab`.
use nyat.Common.{
  ℕ, ◌≤◌, ◌<◌, ◌≡◌, refl, ap, sym, ◌∙◌, Bool, true, false, some, arith, length, get_elem?,
  delete_at, insert_at, delete_at-insert_at, insert_at-delete_at, length-delete_at,
  length-insert_at, get_elem?-some-lt,
}
use nyat.Common.Int.{ℤ, pos, ◌-ℤ◌, ◌+ℤ◌}
use nyat.Tabs.{Tab, Tabs, move_tab, clamp_to}
use nyat.Tabs.Pins.{pin_end, raise_pins, pin_tab, unpin_tab}
use nyat.Tabs.Moving.{move_tab_clamped}
use nyat.Tabs.Faces.{
  face, faces, PinsFirst, faces-raise_pins, get_elem?-faces, faces-insert_at, faces-delete_at,
  delete_at-update_at, get_elem?-update_at, length-update_at, length-faces,
}
use nyat.Tabs.Pinning.{
  Pins, pin_Pins, unmarked, unpin_step, clamp_to_in, get_elem?-raise_pins, as_unpinned, back_to,
  end-le,
}

module _ (t : Tabs) (tab : Tab) (u : Tabs) (p : Pins t tab u)
    (g : get_elem? t.tabs t.selected ≡ some tab) (n : tab.pinned ≡ false)
    (le : pin_end t.tabs ≤ t.selected) where
  before : ℤ
  before = pos t.selected -ℤ pos (pin_end t.tabs)

  returned : Tabs
  returned = unmarked before u

  unpin_target : unpin_tab u ≡ move_tab (pos t.selected) returned
  unfolding returned before
  unpin_target =
      unpin_step u _ p.own refl
      ∙ ap (λ (k : ℤ). move_tab k (unmarked (pos t.selected -ℤ pos (pin_end t.tabs)) u))
          (ap (λ (k : ℕ). pos t.selected -ℤ pos (pin_end t.tabs) +ℤ pos k -ℤ pos 1) p.grown
            ∙ back_to t.selected (pin_end t.tabs) le)

  returned_own :
      get_elem? returned.tabs returned.selected
      ≡ some (record tab { pinned = false; index_before_pin = before })
  unfolding returned before unmarked
  returned_own =
      get_elem?-update_at u.selected as_unpinned
        (raise_pins u.selected (pos t.selected -ℤ pos (pin_end t.tabs)) 0 u.tabs) _
        (get_elem?-raise_pins u.selected _ 0 u.selected u.tabs (omega arith) ∙ p.own)

  inside_faces : t.selected < length (faces t.tabs)
  inside_faces =
      get_elem?-some-lt (faces t.tabs) t.selected _ (get_elem?-faces t.tabs t.selected tab g)

  returned_rest :
      delete_at returned.selected (faces returned.tabs) ≡ delete_at t.selected (faces t.tabs)
  unfolding returned unmarked
  returned_rest =
      sym (faces-delete_at u.selected _)
      ∙ ap faces (delete_at-update_at u.selected as_unpinned _)
      ∙ faces-delete_at u.selected _
      ∙ ap (delete_at u.selected) (faces-raise_pins u.selected before 0 u.tabs ∙ p.faces_eq)
      ∙ ap
          (λ (k : ℕ). delete_at k (
            insert_at (pin_end t.tabs) (record (face tab) { pinned = true })
              (delete_at t.selected (faces t.tabs))))
          p.selected_eq
      ∙ delete_at-insert_at (pin_end t.tabs) _ (delete_at t.selected (faces t.tabs)) room
    where
      room : pin_end t.tabs ≤ length (delete_at t.selected (faces t.tabs))
      room =
          omega (arith, le, inside_faces, length-delete_at t.selected (faces t.tabs) inside_faces)

  length-returned : t.selected < length returned.tabs
  unfolding returned unmarked
  length-returned = omega (
    arith,
    length-update_at u.selected as_unpinned (raise_pins u.selected before 0 u.tabs),
    length-faces (raise_pins u.selected before 0 u.tabs),
    ap length (faces-raise_pins u.selected before 0 u.tabs),
    ap length p.faces_eq,
    length-insert_at (pin_end t.tabs) (record (face tab) { pinned = true })
        (delete_at t.selected (faces t.tabs)),
    length-delete_at t.selected (faces t.tabs) inside_faces,
    length-faces t.tabs,
    inside_faces,
    le,
  )

  landing : clamp_to (pos t.selected) (length returned.tabs) ≡ t.selected
  landing = clamp_to_in t.selected (length returned.tabs) length-returned

  old_face : get_elem? (faces t.tabs) t.selected ≡ some (record (face tab) { pinned = false })
  old_face =
      get_elem?-faces t.tabs t.selected tab g
      ∙ ap (λ (b : Bool). some (record (face tab) { pinned = b })) n

  unpin_returns :
      (w : Tabs) × (unpin_tab u ≡ some w)
      × (faces w.tabs ≡ faces t.tabs)
      × (w.selected ≡ t.selected)
  unpin_returns =
      let (w, q, m) = move_tab_clamped (pos t.selected) returned _ returned_own in
      (
        w,
        unpin_target ∙ q,
        ap faces m.order
            ∙ faces-insert_at _ _ (delete_at returned.selected returned.tabs)
            ∙ ap (insert_at _ (record (face tab) { pinned = false }))
                (faces-delete_at returned.selected returned.tabs ∙ returned_rest)
            ∙ ap
                (λ (k : ℕ).
                  insert_at k (record (face tab) { pinned = false })
                    (delete_at t.selected (faces t.tabs)))
                landing
            ∙ insert_at-delete_at t.selected _ (faces t.tabs) old_face,
        m.selected_eq ∙ landing,
      )

-- With the pinned tabs before the others and an unpinned tab selected, `PinTab` succeeds: the
-- selected tab becomes the last of the pinned ones, which stay before the others, and stays selected.
-- `UnpinTab` then puts it back where it was: the tabs and their marks are as before, in the same
-- order, and the same one is selected.
pub unpin_tab-pin_tab :
    (t : Tabs) (tab : Tab)
    → get_elem? t.tabs t.selected ≡ some tab
    → tab.pinned ≡ false
    → PinsFirst (faces t.tabs)
    → (u : Tabs) × (w : Tabs) × (pin_tab t ≡ some u)
      × Pins t tab u
      × (unpin_tab u ≡ some w)
      × (faces w.tabs ≡ faces t.tabs)
      × (w.selected ≡ t.selected)
unpin_tab-pin_tab t tab g n first =
    let (u, e, p) = pin_Pins t tab g n first in
    let (w, f, same, sel) = unpin_returns t tab u p g n (end-le t tab g n first) in
    (u, w, e, p, f, same, sel)
