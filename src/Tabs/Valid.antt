-- ===== src/Tabs/Valid.antt =====
-- lib/ui/tab.go: the selection and the history stay in range.
use nyat.Common.{
  ℕ, ◌-◌, ◌≤◌, ◌<◌, ◌≡◌, refl, ◌⊎◌, inl, inr, ◌≢◌, List, [], ◌∷◌, ◌++◌, some, Text, arith, length,
  ltb, if◌then◌else◌, All, All-append, length-append, lt→ltb, ltb-false,
}
use native.Mathlib.Decide.{dec_lt, ℕ_discrete}
use nyat.Common.Int.{pos}
use nyat.Models.{Ref}
use nyat.Tabs.{Tabs, new_tabs, add, select}

-- Every entry of the history is a tab.
abbrev pub Below : ℕ → List ℕ → Type 0
Below n = All (λ h. h < n)

pub record IsValid (t : Tabs) : Type 0 where
  pub selected_in : t.selected < length t.tabs
  pub history_in : Below (length t.tabs) t.history

pub Below-mono : (m n : ℕ) (xs : List ℕ) → m ≤ n → Below m xs → Below n xs
Below-mono m n [] h b = tt
Below-mono m n (x ∷ xs) h b = (omega arith, Below-mono m n xs h b.1)

-- A new tab leaves the selection and the history in range; the first tab makes them so.
pub add-IsValid :
    (content : Ref) (name : Text) (t : Tabs)
    → (IsValid t ⊎ (t ≡ new_tabs))
    → IsValid (add content name t)
unfolding add new_tabs
add-IsValid content name t (inl v) = record {
  selected_in = omega (arith, length-append t.tabs (_ ∷ []));
  history_in =
      Below-mono (length t.tabs) _ t.history (omega (arith, length-append t.tabs (_ ∷ [])))
        v.history_in;
}
add-IsValid content name t (inr e) = rw e (record { selected_in = omega arith; history_in = tt })

select_same : (i : ℕ) (t : Tabs) → i < length t.tabs → t.selected ≡ i → select (pos i) t ≡ some t
unfolding select
select_same i t lt e = ground arith

select_other :
    (i : ℕ) (t : Tabs)
    → i < length t.tabs
    → t.selected ≢ i
    → t.selected < length t.tabs
    → select (pos i) t ≡ some (record t { selected = i; history = t.history ++ t.selected ∷ [] })
unfolding select
select_other i t lt ne le = ground arith

-- From a selection out of range nothing is put on the history.
select_dangling :
    (i : ℕ) (t : Tabs)
    → i < length t.tabs
    → length t.tabs ≤ t.selected
    → select (pos i) t ≡ some (record t { selected = i })
unfolding select
select_dangling i t lt ge = ground arith

select_over :
    (i : ℕ) (t : Tabs)
    → 0 < length t.tabs
    → length t.tabs ≤ i
    → select (pos i) t ≡ select (pos (length t.tabs - 1)) t
unfolding select
select_over i t some_tab ge = ground arith

-- What a selection of a tab in range leaves.
pub record Selects (t : Tabs) (i : ℕ) (u : Tabs) : Type 0 where
  pub tabs_eq : u.tabs ≡ t.tabs
  pub selected_eq : u.selected ≡ i
  pub valid : IsValid u

pub select_in :
    (i : ℕ) (t : Tabs)
    → i < length t.tabs
    → Below (length t.tabs) t.history
    → (u : Tabs) × (select (pos i) t ≡ some u) × Selects t i u
select_in i t lt b = elim (ℕ_discrete t.selected i) [
  | yes e ↦ (
    t,
    select_same i t lt e,
    record {
      tabs_eq = refl;
      selected_eq = e;
      valid = record { selected_in = omega arith; history_in = b };
    },
  )
  | no ne ↦ elim (dec_lt t.selected (length t.tabs)) [
    | yes le ↦ (
      _,
      select_other i t lt ne le,
      record {
        tabs_eq = refl;
        selected_eq = refl;
        valid = record {
          selected_in = lt;
          history_in = All-append (λ h. h < length t.tabs) t.history (t.selected ∷ []) b (le, tt);
        };
      },
    )
    | no ge ↦ (
      _,
      select_dangling i t lt (omega arith),
      record {
        tabs_eq = refl;
        selected_eq = refl;
        valid = record { selected_in = lt; history_in = b };
      },
    )
  ]
]

-- The index that `Select` ends at.
abbrev pub clamp_index : ℕ → ℕ → ℕ
clamp_index i len = if ltb i len then i else len - 1

-- With at least one tab and a history in range, `Select` of any index that is not negative succeeds:
-- the index is brought below the number of tabs, and selection and history are in range.
pub select-Selects :
    (i : ℕ) (t : Tabs)
    → 0 < length t.tabs
    → Below (length t.tabs) t.history
    → (u : Tabs) × (select (pos i) t ≡ some u) × Selects t (clamp_index i (length t.tabs)) u
select-Selects i t some_tab b = elim (dec_lt i (length t.tabs)) [
  | yes lt ↦ rw (lt→ltb i (length t.tabs) lt) (select_in i t lt b)
  | no ge ↦
      rw (ltb-false i (length t.tabs) ge, select_over i t some_tab (omega arith))
        (select_in (length t.tabs - 1) t (omega arith) b)
]
