-- ===== src/Tabs/Faces.antt =====
-- lib/ui/tab.go: tabs seen without the place that they had before they were pinned.
use nyat.Common.{
  ℕ, zero, suc, ◌≡◌, refl, ap, Bool, false, List, [], ◌∷◌, map, some, Text, arith, length,
  get_elem?, drop, if◌then◌else◌, All, delete_at, insert_at,
}
use nyat.Common.Int.{ℤ}
use nyat.Models.{Ref}
use nyat.Tabs.{Tab}
use nyat.Tabs.Pins.{pin_end, lower_pins, raise_pins, update_at}

-- What the user sees of a tab: all but the place that it had before it was pinned.
pub record Face : Type 0 where
  pub content : Ref
  pub name : Text
  pub pinned : Bool

abbrev pub face : Tab → Face
face tab = record { content = tab.content; name = tab.name; pinned = tab.pinned }

abbrev pub faces : List Tab → List Face
faces = map face

unfoldable pub pinned_prefix : List Face → ℕ
pinned_prefix [] = 0
pinned_prefix (f ∷ fs) = let rest = pinned_prefix fs in if f.pinned then suc rest else 0

-- No tab behind the first unpinned one is pinned.
abbrev pub PinsFirst : List Face → Type 0
PinsFirst fs = All (λ f. f.pinned ≡ false) (drop (pinned_prefix fs) fs)

pub pin_end-faces : (tabs : List Tab) → pin_end tabs ≡ pinned_prefix (faces tabs)
unfolding pin_end pinned_prefix
pin_end-faces [] = refl
pin_end-faces (tab ∷ rest) = ground (arith, pin_end-faces rest)

pub faces-lower_pins : (limit : ℤ) (tabs : List Tab) → faces (lower_pins limit tabs) ≡ faces tabs
unfolding lower_pins
faces-lower_pins limit [] = refl
faces-lower_pins limit (tab ∷ rest) = ground (arith, faces-lower_pins limit rest)

pub faces-raise_pins :
    (sel : ℕ) (before : ℤ) (i : ℕ) (tabs : List Tab)
    → faces (raise_pins sel before i tabs) ≡ faces tabs
unfolding raise_pins
faces-raise_pins sel before i [] = refl
faces-raise_pins sel before i (tab ∷ rest) =
    ground (arith, faces-raise_pins sel before (suc i) rest)

pub get_elem?-faces :
    (tabs : List Tab) (i : ℕ) (tab : Tab)
    → get_elem? tabs i ≡ some tab
    → get_elem? (faces tabs) i ≡ some (face tab)
get_elem?-faces [] i tab e = cc
get_elem?-faces (x ∷ xs) zero tab e = ground arith
get_elem?-faces (x ∷ xs) (suc i) tab e = get_elem?-faces xs i tab e

pub faces-insert_at :
    (i : ℕ) (tab : Tab) (tabs : List Tab)
    → faces (insert_at i tab tabs) ≡ insert_at i (face tab) (faces tabs)
faces-insert_at zero tab tabs = refl
faces-insert_at (suc i) tab [] = refl
faces-insert_at (suc i) tab (x ∷ xs) = ap (◌∷◌ (face x)) (faces-insert_at i tab xs)

pub faces-delete_at :
    (i : ℕ) (tabs : List Tab) → faces (delete_at i tabs) ≡ delete_at i (faces tabs)
faces-delete_at zero [] = refl
faces-delete_at zero (x ∷ xs) = refl
faces-delete_at (suc i) [] = refl
faces-delete_at (suc i) (x ∷ xs) = ap (◌∷◌ (face x)) (faces-delete_at i xs)

pub delete_at-update_at :
    (i : ℕ) (f : Tab → Tab) (tabs : List Tab) → delete_at i (update_at i f tabs) ≡ delete_at i tabs
delete_at-update_at zero f [] = refl
delete_at-update_at zero f (x ∷ xs) = refl
delete_at-update_at (suc i) f [] = refl
delete_at-update_at (suc i) f (x ∷ xs) = ap (◌∷◌ x) (delete_at-update_at i f xs)

pub get_elem?-update_at :
    (i : ℕ) (f : Tab → Tab) (tabs : List Tab) (tab : Tab)
    → get_elem? tabs i ≡ some tab
    → get_elem? (update_at i f tabs) i ≡ some (f tab)
get_elem?-update_at i f [] tab e = cc
get_elem?-update_at zero f (x ∷ xs) tab e = ground arith
get_elem?-update_at (suc i) f (x ∷ xs) tab e = get_elem?-update_at i f xs tab e

pub length-update_at :
    (i : ℕ) (f : Tab → Tab) (tabs : List Tab) → length (update_at i f tabs) ≡ length tabs
length-update_at i f [] = refl
length-update_at zero f (x ∷ xs) = refl
length-update_at (suc i) f (x ∷ xs) = ap suc (length-update_at i f xs)

pub length-faces : (tabs : List Tab) → length (faces tabs) ≡ length tabs
length-faces [] = refl
length-faces (x ∷ xs) = ap suc (length-faces xs)
