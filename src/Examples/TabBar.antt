-- ===== src/Examples/TabBar.antt =====
-- lib/ui/tab.go with three tabs.
use nyat.Common.{ℕ, ◌≡◌, refl, arith, Bool, ◌⊎◌, true, false, [], ◌∷◌, some, codes}
use nyat.Common.Int.{pos, Nearest}
use nyat.Tabs.{Tab, Tabs, move_tab, remove}
use nyat.Tabs.Pins.{pin_tab, unpin_tab}
use nyat.Tabs.Moving.{Moved, move_tab-Moved}
use nyat.Tabs.Valid.{IsValid}
use nyat.Tabs.Removing.{Removes, Without, FirstWith, remove-Removes}
use nyat.Tabs.Faces.{faces, pinned_prefix}
use nyat.Tabs.Pinning.{Pins}
use nyat.Tabs.Unpinning.{unpin_tab-pin_tab}
use nyat.Tabs.Safety.{op_unpin, apply, apply-IsValid}
use nyat.Common.{ℕ, Text, Option}
use nyat.Tabs.Mouse.{Closes}

abbrev tab_of : ℕ → Bool → Tab
tab_of content pinned = record {
  content = content;
  name = codes "tab";
  pinned = pinned;
  index_before_pin = pos 0;
}

-- One pinned tab and two others; the last one is selected, and the first was before it.
abbrev three_tabs : Tabs
three_tabs = record {
  tabs = tab_of 1 true ∷ tab_of 2 false ∷ tab_of 3 false ∷ [];
  selected = 2;
  history = 1 ∷ 0 ∷ [];
}

three_tabs-IsValid : IsValid three_tabs
three_tabs-IsValid = record {
  selected_in = omega arith;
  history_in = (omega arith, (omega arith, tt));
}

move_tab-Moved_example :
    (k : ℕ) × (u : Tabs) × Nearest (pos 1) 3 k
    × (move_tab (pos 1) three_tabs ≡ some u)
    × Moved three_tabs k (tab_of 3 false) u
move_tab-Moved_example = move_tab-Moved (pos 1) three_tabs (tab_of 3 false) refl

remove-Removes_example :
    (Without 1 three_tabs.tabs × (remove 1 three_tabs ≡ some three_tabs))
    ⊎ ((i : ℕ) × (u : Tabs) × FirstWith 1 three_tabs.tabs i
        × (remove 1 three_tabs ≡ some u)
        × Removes three_tabs i u)
remove-Removes_example = remove-Removes 1 three_tabs three_tabs-IsValid

unpin_tab-pin_tab_example :
    (u : Tabs) × (w : Tabs) × (pin_tab three_tabs ≡ some u)
    × Pins three_tabs (tab_of 3 false) u
    × (unpin_tab u ≡ some w)
    × (faces w.tabs ≡ faces three_tabs.tabs)
    × (w.selected ≡ three_tabs.selected)
unfolding pinned_prefix
unpin_tab-pin_tab_example =
    unpin_tab-pin_tab three_tabs (tab_of 3 false) refl refl (refl, (refl, tt))

apply-IsValid_example : (u : Tabs) × (apply op_unpin three_tabs ≡ some u) × IsValid u
apply-IsValid_example = apply-IsValid op_unpin three_tabs three_tabs-IsValid

-- Every label has three bytes, and closing a tab is refused, with the history forgotten.
abbrev three_bytes : Text → ℕ
three_bytes name = 3

abbrev refuse : ℕ → Tabs → Option Tabs
refuse i t = some (record t { history = [] })

refuse-Closes : Closes three_bytes refuse
refuse-Closes i t v lt =
    (record t { history = [] }, refl, record { selected_in = v.selected_in; history_in = tt })
