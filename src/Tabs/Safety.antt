-- ===== src/Tabs/Safety.antt =====
-- lib/ui/tab.go: no operation but `Remove` can leave the selection out of range.
use nyat.Common.{
  ℕ, zero, suc, ◌+◌, ◌-◌, ◌<◌, ◌≡◌, refl, ap, sym, ◌∙◌, ◌⊎◌, inl, inr, true, false, List, [], ◌∷◌,
  map, Option, none, some, Text, arith, length, get_elem?, set, leb, ◌==◌, if◌then◌else◌, subst,
  get_elem?-lt, get_elem?-some-lt, Bool-cases,
}
use nyat.Common.Int.{ℤ, pos, ◌-ℤ◌, ◌+ℤ◌}
use nyat.Models.{Ref}
use nyat.Tabs.{
  Tab, Tabs, new_tab, add, select, last?, but_last, find_content, replace, select_previous,
  move_tab, clamp_to, next_tab, prev_tab,
}
use nyat.Tabs.Pins.{pin_end, lower_pins, update_at, pin_tab, raise_pins, unpin_tab}
use nyat.Tabs.Moving.{Moved, move_tab_clamped}
use nyat.Tabs.Valid.{Below, IsValid, add-IsValid, select-Selects}
use nyat.Tabs.Removing.{but_last-Below}
use nyat.Tabs.Faces.{length-update_at}

-- The operations, `Remove` left out.
pub data Op : Type 0 where
  op_add : Ref → Text → Op
  op_select : ℕ → Op
  op_previous op_next op_prev op_pin op_unpin : Op
  op_move : ℤ → Op
  op_replace : Ref → Ref → Text → Op

unfoldable pub apply : Op → Tabs → Option Tabs
apply (op_add content name) t = some (add content name t)
apply (op_select i) t = select (pos i) t
apply op_previous t = elim (select_previous t) [ none ↦ none | some (found, u) ↦ some u ]
apply op_next t = next_tab t
apply op_prev t = prev_tab t
apply op_pin t = pin_tab t
apply op_unpin t = unpin_tab t
apply (op_move to) t = move_tab to t
apply (op_replace source target name) t = replace source target name t

abbrev Succeeds : Option Tabs → Type 0
Succeeds o = (u : Tabs) × (o ≡ some u) × IsValid u

-- Tabs of which only the tabs are others, as many.
relabelled :
    (t : Tabs) (tabs : List Tab)
    → length tabs ≡ length t.tabs
    → IsValid t
    → IsValid (record t { tabs = tabs })
relabelled t tabs e v = record {
  selected_in = omega (arith, e, v.selected_in);
  history_in = subst (λ n. Below n t.history) (sym e) v.history_in;
}

select-Succeeds : (i : ℕ) (t : Tabs) → IsValid t → Succeeds (select (pos i) t)
select-Succeeds i t v =
    let (u, e, s) = select-Selects i t (omega (arith, v.selected_in)) v.history_in in
    (u, e, s.valid)

Below-map :
    (f : ℕ → ℕ) (m n : ℕ) (xs : List ℕ)
    → ((h : ℕ) → h < m → f h < n)
    → Below m xs
    → Below n (map f xs)
Below-map f m n [] g b = tt
Below-map f m n (x ∷ xs) g b = (g x b.0, Below-map f m n xs g b.1)

Moved-IsValid : (t u : Tabs) (to : ℕ) (tab : Tab) → Moved t to tab u → IsValid t → IsValid u
Moved-IsValid t u to tab m v = record {
  selected_in =
      subst (λ k. k < length u.tabs) (m.own_place ∙ sym m.selected_eq)
        (inside t.selected v.selected_in);
  history_in =
      subst (Below (length u.tabs)) (sym m.history_eq)
        (Below-map m.new_place (length t.tabs) (length u.tabs) t.history inside v.history_in);
}
  where
    inside : (h : ℕ) → h < length t.tabs → m.new_place h < length u.tabs
    inside h lt =
        let (a, g) = get_elem?-lt t.tabs h lt in
        get_elem?-some-lt u.tabs (m.new_place h) a (m.followed h ∙ g)

move_tab-Succeeds : (to : ℤ) (t : Tabs) → IsValid t → Succeeds (move_tab to t)
move_tab-Succeeds to t v =
    let (tab, g) = get_elem?-lt t.tabs t.selected v.selected_in in
    let (u, e, m) = move_tab_clamped to t tab g in
    (u, e, Moved-IsValid t u (clamp_to to (length t.tabs)) tab m v)

length-lower_pins : (limit : ℤ) (tabs : List Tab) → length (lower_pins limit tabs) ≡ length tabs
unfolding lower_pins
length-lower_pins limit [] = refl
length-lower_pins limit (tab ∷ rest) = ap suc (length-lower_pins limit rest)

length-raise_pins :
    (sel : ℕ) (before : ℤ) (i : ℕ) (tabs : List Tab)
    → length (raise_pins sel before i tabs) ≡ length tabs
unfolding raise_pins
length-raise_pins sel before i [] = refl
length-raise_pins sel before i (tab ∷ rest) =
    ground (arith, length-raise_pins sel before (suc i) rest)

abbrev pinned_from : ℤ → Tabs → List Tab
pinned_from before t =
    update_at t.selected (λ tab. record tab { pinned = true; index_before_pin = before })
      (lower_pins before t.tabs)

abbrev unpinned_from : ℤ → Tabs → List Tab
unpinned_from before t =
    update_at t.selected (λ tab. record tab { pinned = false })
      (raise_pins t.selected before 0 t.tabs)

pin_tab-cases :
    (t : Tabs) (tab : Tab)
    → get_elem? t.tabs t.selected ≡ some tab
    → (pin_tab t ≡ some t)
      ⊎ (pin_tab t
          ≡ move_tab
              (pos (pin_end t.tabs))
              (record t { tabs = pinned_from (pos t.selected -ℤ pos (pin_end t.tabs)) t }))
unfolding pin_tab
pin_tab-cases t tab g = elim (Bool-cases tab.pinned) [
  | inl p ↦ inl (rw (g, pin_tab) (rw p refl))
  | inr p ↦ inr (rw (g, pin_tab) (rw p refl))
]

unpin_tab-cases :
    (t : Tabs) (tab : Tab)
    → get_elem? t.tabs t.selected ≡ some tab
    → (unpin_tab t ≡ some t)
      ⊎ (unpin_tab t
          ≡ move_tab
              (tab.index_before_pin +ℤ pos (pin_end t.tabs) -ℤ pos 1)
              (record t { tabs = unpinned_from tab.index_before_pin t }))
unfolding unpin_tab
unpin_tab-cases t tab g = elim (Bool-cases tab.pinned) [
  | inl p ↦ inr (rw (g, unpin_tab) (rw p refl))
  | inr p ↦ inl (rw (g, unpin_tab) (rw p refl))
]

pin_tab-Succeeds : (t : Tabs) → IsValid t → Succeeds (pin_tab t)
pin_tab-Succeeds t v =
    let (tab, g) = get_elem?-lt t.tabs t.selected v.selected_in in
    elim (pin_tab-cases t tab g) [
      | inl e ↦ (t, e, v)
      | inr e ↦ rw e (
          move_tab-Succeeds (pos (pin_end t.tabs)) _ (
            relabelled t (pinned_from (pos t.selected -ℤ pos (pin_end t.tabs)) t)
              (length-update_at t.selected _ (lower_pins _ t.tabs) ∙ length-lower_pins _ t.tabs) v))
    ]

unpin_tab-Succeeds : (t : Tabs) → IsValid t → Succeeds (unpin_tab t)
unpin_tab-Succeeds t v =
    let (tab, g) = get_elem?-lt t.tabs t.selected v.selected_in in
    elim (unpin_tab-cases t tab g) [
      | inl e ↦ (t, e, v)
      | inr e ↦ rw e (
          move_tab-Succeeds _ _ (
            relabelled t (unpinned_from tab.index_before_pin t)
              (length-update_at t.selected _ (raise_pins t.selected tab.index_before_pin 0 t.tabs)
                ∙ length-raise_pins t.selected tab.index_before_pin 0 t.tabs)
              v))
    ]

length-set : (xs : List Tab) (i : ℕ) (a : Tab) → length (set xs i a) ≡ length xs
length-set [] i a = refl
length-set (x ∷ xs) zero a = refl
length-set (x ∷ xs) (suc i) a = ap suc (length-set xs i a)

replaced :
    (source target : Ref) (name : Text) (t : Tabs) (o : Option ℕ)
    → find_content source t.tabs ≡ o
    → IsValid t
    → Succeeds (replace source target name t)
unfolding replace
replaced source target name t none e v = (t, rw (e, replace) refl, v)
replaced source target name t (some i) e v =
    rw (e, replace)
      (select-Succeeds i (record t { tabs = set t.tabs i (new_tab target name) })
        (relabelled t (set t.tabs i (new_tab target name))
          (length-set t.tabs i (new_tab target name)) v))

before_first : (len : ℕ) → 0 < len → pos len -ℤ pos 1 ≡ pos (len - 1)
before_first len h = ground (arith, h)

prev_tab-cases :
    (t : Tabs)
    → 0 < length t.tabs
    → (prev_tab t ≡ select (pos (length t.tabs - 1)) t)
      ⊎ (prev_tab t ≡ select (pos (t.selected - 1)) t)
unfolding prev_tab
prev_tab-cases t h = elim (Bool-cases (t.selected == 0)) [
  | inl e ↦ inl (rw (e, prev_tab) (ap (λ (i : ℤ). select i t) (before_first (length t.tabs) h)))
  | inr e ↦ inr (rw (e, prev_tab) refl)
]

prev_tab-Succeeds : (t : Tabs) → IsValid t → Succeeds (prev_tab t)
prev_tab-Succeeds t v = elim (prev_tab-cases t (omega (arith, v.selected_in))) [
  | inl e ↦ rw e (select-Succeeds (length t.tabs - 1) t v)
  | inr e ↦ rw e (select-Succeeds (t.selected - 1) t v)
]

next_tab-Succeeds : (t : Tabs) → IsValid t → Succeeds (next_tab t)
unfolding next_tab
next_tab-Succeeds t v =
    select-Succeeds (if leb (length t.tabs) (t.selected + 1) then 0 else t.selected + 1) t v

previous : Tabs → Option ℕ → Option Tabs
previous t none = some t
previous t (some i) = select (pos i) (record t { history = but_last t.history })

previous-eq : (t : Tabs) → apply op_previous t ≡ previous t (last? t.history)
unfolding apply select_previous previous
previous-eq t = ground arith

previous-Succeeds : (t : Tabs) (o : Option ℕ) → IsValid t → Succeeds (previous t o)
unfolding previous
previous-Succeeds t none v = (t, refl, v)
previous-Succeeds t (some i) v =
    select-Succeeds i (record t { history = but_last t.history })
      (record {
        selected_in = v.selected_in;
        history_in = but_last-Below (length t.tabs) t.history v.history_in;
      })

-- With the selection and the history in range, no operation on the tabs but `Remove` can panic, and
-- it leaves them so: `Add`, `Select` of an index that is not negative, `SelectPrevious`, `NextTab`,
-- `PrevTab`, `MoveTab` to any place, `PinTab`, `UnpinTab` and `Replace`.
pub apply-IsValid :
    (op : Op) (t : Tabs) → IsValid t → (u : Tabs) × (apply op t ≡ some u) × IsValid u
unfolding apply
apply-IsValid (op_add content name) t v =
    (add content name t, refl, add-IsValid content name t (inl v))
apply-IsValid (op_select i) t v = select-Succeeds i t v
apply-IsValid op_previous t v = rw (previous-eq t) (previous-Succeeds t (last? t.history) v)
apply-IsValid op_next t v = next_tab-Succeeds t v
apply-IsValid op_prev t v = prev_tab-Succeeds t v
apply-IsValid op_pin t v = pin_tab-Succeeds t v
apply-IsValid op_unpin t v = unpin_tab-Succeeds t v
apply-IsValid (op_move to) t v = move_tab-Succeeds to t v
apply-IsValid (op_replace source target name) t v =
    replaced source target name t (find_content source t.tabs) refl v
