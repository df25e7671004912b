-- ===== src/MsgSort/Ranks.antt =====
-- lib/sort/sort.go: `SortBy` puts uids in the order of another list.
use nyat.Common.{
  ℕ, suc, ◌+◌, ◌≤◌, true, false, List, [], ◌∷◌, some, get_elem?, leb, leb→le, ◌==◌, ◌≡◌, refl,
  arith, ◌⊎◌, inl, inr, Bool-cases, All, mem, count, ap, ◌∙◌,
}
use nyat.Common.Dict.{nat_eq, Dict, lookup, insert, lookup-insert}
use nyat.MsgSort.SortBy.{index_uids, rank, insert_by, sort_by_key, sort_by}
use nyat.MsgSort.Sorted.{Ordered}

module _ (key : ℕ → ℕ) where
  abbrev pub Before : ℕ → ℕ → Type 0
  Before a b = key a ≤ key b

  All-insert_by :
      (P : ℕ → Type 0) (x : ℕ) (ys : List ℕ) → P x → All P ys → All P (insert_by key x ys)
  unfolding insert_by
  All-insert_by P x [] p h = (p, tt)
  All-insert_by P x (y ∷ ys) p h = elim (Bool-cases (leb (key x) (key y))) [
    | inl e ↦ rw e (p, h)
    | inr e ↦ rw e (h.0, All-insert_by P x ys p h.1)
  ]

  All-through : (x y : ℕ) (zs : List ℕ) → key x ≤ key y → All (Before y) zs → All (Before x) zs
  All-through x y [] e h = tt
  All-through x y (z ∷ zs) e h = (omega (arith, h.0), All-through x y zs e h.1)

  insert_by-Ordered :
      (x : ℕ) (ys : List ℕ) → Ordered Before ys → Ordered Before (insert_by key x ys)
  unfolding insert_by
  insert_by-Ordered x [] h = (tt, tt)
  insert_by-Ordered x (y ∷ ys) h = elim (Bool-cases (leb (key x) (key y))) [
    | inl e ↦
        rw e ((leb→le (key x) (key y) e, All-through x y ys (leb→le (key x) (key y) e) h.0), h)
    | inr e ↦ rw e (All-insert_by (Before y) x ys (ground arith) h.0, insert_by-Ordered x ys h.1)
  ]

  sort_by_key-Ordered : (xs : List ℕ) → Ordered Before (sort_by_key key xs)
  unfolding sort_by_key
  sort_by_key-Ordered [] = tt
  sort_by_key-Ordered (x ∷ xs) = insert_by-Ordered x (sort_by_key key xs) (sort_by_key-Ordered xs)

  count-insert_by : (a x : ℕ) (ys : List ℕ) → count a (insert_by key x ys) ≡ count a (x ∷ ys)
  unfolding insert_by
  count-insert_by a x [] = refl
  count-insert_by a x (y ∷ ys) = ground (arith, count-insert_by a x ys)

  count-sort_by_key : (a : ℕ) (xs : List ℕ) → count a (sort_by_key key xs) ≡ count a xs
  unfolding sort_by_key
  count-sort_by_key a [] = refl
  count-sort_by_key a (x ∷ xs) =
      ground (arith, count-insert_by a x (sort_by_key key xs), count-sort_by_key a xs)

-- The place of a uid that is listed, behind `i` others.
lookup-index_uids :
    (uid i : ℕ) (uids : List ℕ) (m : Dict ℕ ℕ)
    → ((mem uid uids ≡ false) × (lookup uid (index_uids i uids m) ≡ lookup uid m))
      ⊎ ((j : ℕ) × (lookup uid (index_uids i uids m) ≡ some (j + i))
          × (get_elem? uids j ≡ some uid))
unfolding index_uids
lookup-index_uids uid i [] m = inl (refl, refl)
lookup-index_uids uid i (x ∷ uids) m = elim (lookup-index_uids uid (suc i) uids (insert x i m)) [
  | inr (j, e, g) ↦ inr (suc j, e ∙ ap some (omega arith), g)
  | inl (n, e) ↦ elim (Bool-cases (x == uid)) [
    | inl q ↦
        inr (0, e ∙ lookup-insert x uid i m ∙ rw q (ap some (omega arith)), ap some (ground arith))
    | inr q ↦ inl (rw q n, e ∙ lookup-insert x uid i m ∙ rw q refl)
  ]
]

unfoldable pub place : List ℕ → ℕ → ℕ
unfolding rank index_uids
place order uid = rank (index_uids 0 order []) uid

place_eq :
    (order : List ℕ) (uid j : ℕ)
    → lookup uid (index_uids 0 order []) ≡ some (j + 0)
    → place order uid ≡ j
unfolding place rank
place_eq order uid j e = ground (arith, e)

place_none : (order : List ℕ) (uid : ℕ) → mem uid order ≡ true → ¬ (mem uid order ≡ false)
place_none order uid h n = cc

get_elem?-place :
    (order : List ℕ) (uid : ℕ) → mem uid order ≡ true → get_elem? order (place order uid) ≡ some uid
get_elem?-place order uid h = elim (lookup-index_uids uid 0 order []) [
  | inl (n, e) ↦ absurd (place_none order uid h n)
  | inr (j, e, g) ↦ ap (get_elem? order) (place_eq order uid j e) ∙ g
]

-- `SortBy` returns the same uids, in the order of their places in the other list: no uid stands
-- behind one with a later place. The place of a uid that the other list has is one where it stands
-- there.
pub sort_by-Ordered :
    (to_sort order : List ℕ)
    → Ordered (Before (place order)) (sort_by to_sort order)
      × ((uid : ℕ) → count uid (sort_by to_sort order) ≡ count uid to_sort)
      × ((uid : ℕ) → mem uid order ≡ true → get_elem? order (place order uid) ≡ some uid)
unfolding sort_by place
sort_by-Ordered to_sort order = (
  sort_by_key-Ordered (place order) to_sort,
  (λ uid. count-sort_by_key (place order) uid to_sort),
  get_elem?-place order,
)
