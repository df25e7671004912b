-- ===== src/Tabs/Pins.antt =====
-- lib/ui/tab.go: `PinTab` and `UnpinTab`.
use nyat.Common.{
  ℕ, zero, suc, true, false, not, ◌&&◌, List, [], ◌∷◌, Option, none, some, get_elem?, ◌==◌,
  if◌then◌else◌,
}
use nyat.Common.Int.{ℤ, pos, ◌+ℤ◌, ◌-ℤ◌, lt_ℤ}
use nyat.Tabs.{Tab, Tabs, move_tab}

-- The first tab that is not pinned, or the number of tabs.
unfoldable pub pin_end : List Tab → ℕ
pin_end [] = 0
pin_end (tab ∷ rest) = let later = pin_end rest in if tab.pinned then suc later else 0

unfoldable pub lower_pins : ℤ → List Tab → List Tab
lower_pins limit [] = []
lower_pins limit (tab ∷ rest) =
    (if tab.pinned && lt_ℤ limit tab.index_before_pin
      then record tab { index_before_pin = tab.index_before_pin -ℤ pos 1 }
      else tab)
    ∷ lower_pins limit rest

abbrev pub update_at : ℕ → (Tab → Tab) → List Tab → List Tab
update_at i f [] = []
update_at zero f (tab ∷ rest) = f tab ∷ rest
update_at (suc i) f (tab ∷ rest) = tab ∷ update_at i f rest

unfoldable pub pin_tab : Tabs → Option Tabs
unfolding pin_end lower_pins move_tab
pin_tab t = elim (get_elem? t.tabs t.selected) [
  | none ↦ none
  | some tab ↦
      if tab.pinned
      then some t
      else let end = pin_end t.tabs in
        let before = pos t.selected -ℤ pos end in
        move_tab (pos end) (record t {
          tabs =
              update_at t.selected
                (λ tab'. record tab' { pinned = true; index_before_pin = before })
                (lower_pins before t.tabs);
        })
]

-- The loop of `UnpinTab` from place `i`: the pins behind the selected one go up by one.
unfoldable pub raise_pins : ℕ → ℤ → ℕ → List Tab → List Tab
raise_pins sel before i [] = []
raise_pins sel before i (tab ∷ rest) =
    let later = raise_pins sel before (suc i) rest in
    if tab.pinned
    then (if not (i == sel) && lt_ℤ before tab.index_before_pin
        then record tab { index_before_pin = tab.index_before_pin +ℤ pos 1 }
        else tab)
      ∷ later
    else tab ∷ rest

unfoldable pub unpin_tab : Tabs → Option Tabs
unfolding pin_end raise_pins move_tab
unpin_tab t = elim (get_elem? t.tabs t.selected) [
  | none ↦ none
  | some tab ↦
      if not tab.pinned
      then some t
      else let end = pin_end t.tabs in
        move_tab (tab.index_before_pin +ℤ pos end -ℤ pos 1) (record t {
          tabs =
              update_at t.selected (λ tab'. record tab' { pinned = false })
                (raise_pins t.selected tab.index_before_pin 0 t.tabs);
        })
]
