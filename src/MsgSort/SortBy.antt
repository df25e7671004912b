-- ===== src/MsgSort/SortBy.antt =====
-- lib/sort/sort.go, `SortBy`: uids put in the order of another list.
use nyat.Common.{ℕ, suc, List, [], ◌∷◌, none, some, leb, if◌then◌else◌}
use nyat.Common.Dict.{nat_eq, Dict, lookup, insert}

-- `for i, uid := range sortBy { uidMap[uid] = i }`: a repeated uid keeps its last position.
unfoldable pub index_uids : ℕ → List ℕ → Dict ℕ ℕ → Dict ℕ ℕ
index_uids i [] m = m
index_uids i (uid ∷ uids) m = index_uids (suc i) uids (insert uid i m)

-- `uidMap[uid]`: a missing key reads as 0.
unfoldable pub rank : Dict ℕ ℕ → ℕ → ℕ
rank m uid = elim (lookup uid m) [ none ↦ 0 | some i ↦ i ]

-- `sort.Slice` by rank. It leaves the order of uids of one rank open; here they stay as they stood.
unfoldable pub insert_by : (ℕ → ℕ) → ℕ → List ℕ → List ℕ
insert_by key x [] = x ∷ []
insert_by key x (y ∷ ys) =
    let rest = insert_by key x ys in if leb (key x) (key y) then x ∷ y ∷ ys else y ∷ rest

unfoldable pub sort_by_key : (ℕ → ℕ) → List ℕ → List ℕ
sort_by_key key [] = []
sort_by_key key (x ∷ xs) = insert_by key x (sort_by_key key xs)

unfoldable pub sort_by : List ℕ → List ℕ → List ℕ
unfolding index_uids rank insert_by sort_by_key
sort_by to_sort order = sort_by_key (rank (index_uids 0 order [])) to_sort
