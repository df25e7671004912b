-- ===== src/Tabs/Removing.antt =====
-- lib/ui/tab.go: `Remove` and what it does to the history.
use mathlib.Core.List.{append_assoc}
use native.Mathlib.Decide.{dec_lt}
use nyat.Common.{
  ℕ, zero, suc, ◌-◌, ◌<◌, ◌≡◌, refl, ap, ◌∙◌, ◌⊎◌, inl, inr, ◌≢◌, not, List, [], ◌∷◌, ◌++◌, map,
  none, some, arith, length, get_elem?, ltb, ◌==◌, if◌then◌else◌, select_if, delete_at,
  length-delete_at, get_elem?-delete_at, Option-cases, ltb-false, some_inj, ==_iff, Option, All,
  Bool-cases, sym, true, false,
}
use nyat.Common.Int.{pos}
use nyat.Models.{Ref}
use nyat.Tabs.{Tab, Tabs, select, remove_history, find_content, remove, last?, but_last, is_last}
use nyat.Tabs.Valid.{Below, Below-mono, IsValid, select_in}

-- `removeHistory` read as three passes: the entries of the closed tab go, those behind it move up,
-- and of equal neighbours one stays.
pub lower : ℕ → ℕ → ℕ
lower index h = if ltb index h then h - 1 else h

abbrev pub without : ℕ → List ℕ → List ℕ
without index = select_if (λ h. not (h == index))

pub dedup : List ℕ → List ℕ
dedup [] = []
dedup (x ∷ []) = x ∷ []
dedup (x ∷ y ∷ r) = let rest = dedup (y ∷ r) in if x == y then rest else x ∷ rest

last?-append : (acc : List ℕ) (l : ℕ) → last? (acc ++ l ∷ []) ≡ some l
last?-append [] l = refl
last?-append (x ∷ []) l = refl
last?-append (x ∷ y ∷ r) l = last?-append (y ∷ r) l

is_last-append : (item : ℕ) (acc : List ℕ) (l : ℕ) → is_last item (acc ++ l ∷ []) ≡ (item == l)
is_last-append item acc l = ground (arith, last?-append acc l)

module _ (index : ℕ) where
  pub passes : List ℕ → List ℕ
  passes items = map (lower index) (without index items)

  remove_history_from :
      (items acc : List ℕ) (l : ℕ)
      → remove_history index items (acc ++ l ∷ []) ≡ acc ++ dedup (l ∷ passes items)
  unfolding remove_history dedup passes lower
  remove_history_from [] acc l = refl
  remove_history_from (item ∷ items) acc l = ground (
    arith,
    is_last-append (if ltb index item then item - 1 else item) acc l,
    remove_history_from items acc l,
    remove_history_from items (acc ++ l ∷ []) (if ltb index item then item - 1 else item),
    append_assoc acc (l ∷ []) (dedup ((if ltb index item then item - 1 else item) ∷ passes items)),
  )

  -- The loop of `removeHistory` makes these three passes.
  pub remove_history-eq : (items : List ℕ) → remove_history index items [] ≡ dedup (passes items)
  unfolding remove_history dedup passes lower
  remove_history-eq [] = refl
  remove_history-eq (item ∷ items) = ground (
    arith,
    remove_history-eq items,
    remove_history_from items [] (if ltb index item then item - 1 else item),
  )

  passes-Below : (n : ℕ) (items : List ℕ) → index < n → Below n items → Below (n - 1) (passes items)
  unfolding passes lower
  passes-Below n [] lt b = tt
  passes-Below n (item ∷ items) lt b = ground (arith, passes-Below n items lt b.1)

dedup-Below : (n : ℕ) (xs : List ℕ) → Below n xs → Below n (dedup xs)
unfolding dedup
dedup-Below n [] b = tt
dedup-Below n (x ∷ []) b = b
dedup-Below n (x ∷ y ∷ r) b = ground (arith, dedup-Below n (y ∷ r) b.1)

last?-Below : (n : ℕ) (xs : List ℕ) (l : ℕ) → Below n xs → last? xs ≡ some l → l < n
last?-Below n [] l b e = cc
last?-Below n (x ∷ []) l b e = ground arith
last?-Below n (x ∷ y ∷ r) l b e = last?-Below n (y ∷ r) l b.1 e

pub but_last-Below : (n : ℕ) (xs : List ℕ) → Below n xs → Below n (but_last xs)
but_last-Below n [] b = tt
but_last-Below n (x ∷ []) b = tt
but_last-Below n (x ∷ y ∷ r) b = (b.0, but_last-Below n (y ∷ r) b.1)

last?-none : (xs : List ℕ) → last? xs ≡ none → xs ≡ []
last?-none [] e = refl
last?-none (x ∷ []) e = cc
last?-none (x ∷ y ∷ r) e = absurd (cc (last?-none (y ∷ r) e))

dedup-nil : (xs : List ℕ) → dedup xs ≡ [] → xs ≡ []
unfolding dedup
dedup-nil [] e = refl
dedup-nil (x ∷ []) e = cc
dedup-nil (x ∷ y ∷ r) e = absurd (ground (arith, e, dedup-nil (y ∷ r)))

passes-nil : (index : ℕ) (items : List ℕ) → passes index items ≡ [] → All (λ h. h ≡ index) items
unfolding passes lower
passes-nil index [] e = tt
passes-nil index (item ∷ items) e = elim (Bool-cases (item == index)) [
  | inl t ↦ ((==_iff item index).0 t, passes-nil index items (ground (arith, e, t)))
  | inr f ↦ absurd (ground (arith, e, f))
]

-- If nothing of the history is left, it had entries of the closed tab only.
all_removed :
    (index : ℕ) (items : List ℕ) → remove_history index items [] ≡ [] → All (λ h. h ≡ index) items
all_removed index items e =
    passes-nil index items
      (dedup-nil (passes index items) (sym (remove_history-eq index items) ∙ e))

find_content-lt :
    (c : Ref) (tabs : List Tab) (i : ℕ) → find_content c tabs ≡ some i → i < length tabs
unfolding find_content
find_content-lt c [] i e = cc
find_content-lt c (tab ∷ rest) zero e = omega arith
find_content-lt c (tab ∷ rest) (suc i) e = ground (arith, find_content-lt c rest i)

-- What `Remove` leaves of `t` when it closes tab `i`.
pub record Removes (t : Tabs) (i : ℕ) (u : Tabs) : Type 0 where
  pub tabs_eq : u.tabs ≡ delete_at i t.tabs
  pub history_in : Below (length u.tabs) u.history
  pub same_tab : t.selected ≢ i → get_elem? u.tabs u.selected ≡ get_elem? t.tabs t.selected
  pub in_range :
      (u.selected < length u.tabs)
      ⊎ ((t.selected ≡ i) × (u.selected ≡ i) × All (λ h. h ≡ i) t.history)

module _ (t : Tabs) (i : ℕ) (lt : i < length t.tabs) (v : IsValid t) where
  rest_history : List ℕ
  rest_history = remove_history i t.history []

  shorter : suc (length (delete_at i t.tabs)) ≡ length t.tabs
  shorter = length-delete_at i t.tabs lt

  rest-Below : Below (length (delete_at i t.tabs)) rest_history
  unfolding rest_history
  rest-Below = rw (remove_history-eq i t.history) (
      Below-mono (length t.tabs - 1) _ (dedup (passes i t.history)) (omega (arith, shorter)) (
        dedup-Below (length t.tabs - 1) (passes i t.history)
          (passes-Below i (length t.tabs) t.history lt v.history_in)))

  remove_behind :
      (c : Ref)
      → find_content c t.tabs ≡ some i
      → t.selected < i
      → (u : Tabs) × (remove c t ≡ some u) × Removes t i u
  unfolding remove
  remove_behind c e s = (
    record t { tabs = delete_at i t.tabs; history = rest_history },
    rw (e, remove) (unfold rest_history in ground arith),
    record {
      tabs_eq = refl;
      history_in = rest-Below;
      same_tab = λ ne. ground (arith, get_elem?-delete_at i t.selected t.tabs);
      in_range = inl (omega (arith, shorter));
    },
  )

  remove_before :
      (c : Ref)
      → find_content c t.tabs ≡ some i
      → i < t.selected
      → (u : Tabs) × (remove c t ≡ some u) × Removes t i u
  unfolding remove
  remove_before c e s = (
    record { tabs = delete_at i t.tabs; history = rest_history; selected = t.selected - 1 },
    rw (e, remove) (unfold rest_history in ground arith),
    record {
      tabs_eq = refl;
      history_in = rest-Below;
      same_tab = λ ne.
          let k : suc (t.selected - 1) ≡ t.selected = omega arith in
          get_elem?-delete_at i (t.selected - 1) t.tabs
          ∙ rw (ltb-false (t.selected - 1) i (omega arith)) (ap (get_elem? t.tabs) k);
      in_range = inl (omega (arith, shorter, v.selected_in));
    },
  )

  closed : Tabs
  closed = record t { tabs = delete_at i t.tabs; history = rest_history }

  remove_selected_none :
      (c : Ref)
      → find_content c t.tabs ≡ some i
      → t.selected ≡ i
      → last? rest_history ≡ none
      → remove c t ≡ some closed
  unfolding remove closed
  remove_selected_none c e s h = rw (e, remove) (unfold rest_history in ground arith)

  remove_selected_some :
      (c : Ref) (index : ℕ)
      → find_content c t.tabs ≡ some i
      → t.selected ≡ i
      → last? rest_history ≡ some index
      → remove c t ≡ select (pos index) (record closed { history = but_last rest_history })
  unfolding remove closed
  remove_selected_some c index e s h = rw (e, remove) (unfold rest_history in ground arith)

  remove_selected :
      (c : Ref)
      → find_content c t.tabs ≡ some i
      → t.selected ≡ i
      → (u : Tabs) × (remove c t ≡ some u) × Removes t i u
  unfolding closed
  remove_selected c e s = elim (Option-cases (last? rest_history)) [
    | inl h ↦ (
      closed,
      remove_selected_none c e s h,
      record {
        tabs_eq = refl;
        history_in = rest-Below;
        same_tab = λ ne. absurd (ne s);
        in_range =
            inr (s, s, all_removed i t.history (unfold rest_history in last?-none rest_history h));
      },
    )
    | inr (index, h) ↦
        let (u, p, sel) =
          select_in index (record closed { history = but_last rest_history })
            (last?-Below _ rest_history index rest-Below h)
            (but_last-Below _ rest_history rest-Below) in
        (
          u,
          remove_selected_some c index e s h ∙ p,
          record {
            tabs_eq = sel.tabs_eq;
            history_in = sel.valid.history_in;
            same_tab = λ ne. absurd (ne s);
            in_range = inl sel.valid.selected_in;
          },
        )
  ]

  remove_found :
      (c : Ref)
      → find_content c t.tabs ≡ some i
      → (u : Tabs) × (remove c t ≡ some u) × Removes t i u
  remove_found c e = elim (dec_lt t.selected i) [
    | yes s ↦ remove_behind c e s
    | no ns ↦ elim (dec_lt i t.selected) [
      | yes s ↦ remove_before c e s
      | no ns' ↦ remove_selected c e (omega arith)
    ]
  ]

remove_missing : (c : Ref) (t : Tabs) → find_content c t.tabs ≡ none → remove c t ≡ some t
unfolding remove
remove_missing c t e = rw (e, remove) refl

-- No tab has a content.
abbrev pub Without : Ref → List Tab → Type 0
Without c tabs = (j : ℕ) (tab : Tab) → get_elem? tabs j ≡ some tab → tab.content ≢ c

-- A place is that of a tab with a content, and no tab before it has that content.
abbrev pub FirstWith : Ref → List Tab → ℕ → Type 0
FirstWith c tabs i =
    ((tab : Tab) × (get_elem? tabs i ≡ some tab) × (tab.content ≡ c))
    × ((j : ℕ) (tab : Tab) → j < i → get_elem? tabs j ≡ some tab → tab.content ≢ c)

-- A tab that is not the one looked for, at the front.
front_other :
    (c : Ref) (t tab : Tab)
    → (t.content == c) ≡ false
    → ◌≡◌ {A = Option Tab} (some t) (some tab)
    → tab.content ≢ c
front_other c t tab n g e =
    let same : t.content ≡ tab.content = ap (λ (u : Tab). u.content) (some_inj t tab g) in
    let b : (t.content == c) ≡ true = (==_iff t.content c).1 (same ∙ e) in cc

find_content-Without : (c : Ref) (tabs : List Tab) → find_content c tabs ≡ none → Without c tabs
unfolding find_content
find_content-Without c [] e j tab g = absurd (cc)
find_content-Without c (t ∷ ts) e zero tab g = front_other c t tab (ground (arith, e)) g
find_content-Without c (t ∷ ts) e (suc j) tab g =
    find_content-Without c ts (ground (arith, e)) j tab g

none_before :
    (c : Ref) (t : Tab) (ts : List Tab) (i : ℕ)
    → (t.content == c) ≡ false
    → ((j : ℕ) (tab : Tab) → j < i → get_elem? ts j ≡ some tab → tab.content ≢ c)
    → (j : ℕ) (tab : Tab) → j < suc i
    → get_elem? (t ∷ ts) j ≡ some tab
    → tab.content ≢ c
none_before c t ts i n h zero tab lt g = front_other c t tab n g
none_before c t ts i n h (suc j) tab lt g = h j tab (omega (arith, lt)) g

find_content-FirstWith :
    (c : Ref) (tabs : List Tab) (i : ℕ) → find_content c tabs ≡ some i → FirstWith c tabs i
unfolding find_content
find_content-FirstWith c [] i e = cc
find_content-FirstWith c (t ∷ ts) zero e =
    ((t, refl, (==_iff t.content c).0 (ground (arith, e))), λ j tab lt. absurd (omega (arith, lt)))
find_content-FirstWith c (t ∷ ts) (suc i) e =
    let (found, before) = find_content-FirstWith c ts i (ground (arith, e)) in
    (found, none_before c t ts i (ground (arith, e)) before)

-- `Remove` on a selection and a history in range never panics. Without a tab of the content nothing
-- changes. Otherwise the first such tab is taken out and the history stays in range; the selected
-- tab, if it is another one, stays selected; and the selection is in range afterwards unless the
-- selected tab was closed and no other tab is in the history, when it keeps its number.
pub remove-Removes :
    (c : Ref) (t : Tabs)
    → IsValid t
    → (Without c t.tabs × (remove c t ≡ some t))
      ⊎ ((i : ℕ) × (u : Tabs) × FirstWith c t.tabs i × (remove c t ≡ some u) × Removes t i u)
remove-Removes c t v = elim (Option-cases (find_content c t.tabs)) [
  | inl e ↦ inl (find_content-Without c t.tabs e, remove_missing c t e)
  | inr (i, e) ↦
      let (u, p, r) = remove_found t i (find_content-lt c t.tabs i e) v c e in
      inr (i, u, find_content-FirstWith c t.tabs i e, p, r)
]
