-- ===== src/DirList/FolderOrder.antt =====
-- widgets/dirlist.go: the order of `sortDirsByFoldersSortConfig`, and that sorting by it has one
-- result only. So a sort that is not stable, like `sort.Slice`, returns what a stable one does.
use nyat.Common.{
  ℕ, suc, ◌≤◌, true, not, ◌&&◌, Bool, if◌then◌else◌, subst, false, List, [], ◌∷◌, Text, text_eq,
  text_eq_iff, ◌≡◌, refl, arith, ap, sym, ◌∙◌, Bool-cases, inl, inr,
}
use nyat.Common.Int.{ℤ, pos, negsuc, lt_ℤ, is_neg, pos_part}
use nyat.MsgSort.Criteria.{text_lt, sort_stable}
use nyat.MsgSort.Orders.{IsWeakOrder, text_lt-IsWeakOrder}
use nyat.DirList.{
  AccountConfig, DirectoryList, find_string, find_from, folder_lt, sort_by_config, sorted_in_place,
}
use nyat.DirList.Unique.{InOrder, times, times-sort_stable, sort_stable-InOrder, InOrder-unique}

-- Of two texts that differ one is less.
text_lt_total : (a b : Text) → text_lt a b ≡ false → text_lt b a ≡ false → a ≡ b
unfolding text_lt
text_lt_total [] [] h k = refl
text_lt_total [] (y ∷ ys) h k = cc
text_lt_total (x ∷ xs) [] h k = cc
text_lt_total (x ∷ xs) (y ∷ ys) h k = ground (arith, h, k, text_lt_total xs ys)

find_from-ge :
    (i : ℕ) (fs : List Text) (a : Text)
    → is_neg (find_from i fs a) ≡ false
    → i ≤ pos_part (find_from i fs a)
unfolding find_from
find_from-ge i [] a h = cc
find_from-ge i (f ∷ fs) a h = elim (Bool-cases (text_eq a f)) [
  | inl e ↦ rw e (omega arith)
  | inr e ↦ rw e (ground (arith, h, find_from-ge (suc i) fs a))
]

-- Where a text is found it is the text searched for.
find_from_inj :
    (i : ℕ) (fs : List Text) (a b : Text)
    → find_from i fs a ≡ find_from i fs b
    → is_neg (find_from i fs a) ≡ false
    → a ≡ b
unfolding find_from
find_from_inj i [] a b e h = cc
find_from_inj i (f ∷ fs) a b e h = ground (
  arith,
  e,
  h,
  text_eq_iff a f,
  text_eq_iff b f,
  find_from-ge (suc i) fs a,
  find_from-ge (suc i) fs b,
  find_from_inj (suc i) fs a b,
)

same_place :
    (i j : ℤ) → is_neg i ≡ false → is_neg j ≡ false → lt_ℤ i j ≡ false → lt_ℤ j i ≡ false → i ≡ j
same_place (pos i) (pos j) h k e f = ap pos (ground (arith, e, f))
same_place (negsuc i) j h k e f = cc
same_place (pos i) (negsuc j) h k e f = cc

folder_lt-IsWeakOrder : (fs : List Text) → IsWeakOrder (folder_lt fs)
unfolding folder_lt
folder_lt-IsWeakOrder fs = record {
  asym = λ a b h. ground (arith, h, text_lt-IsWeakOrder.asym a b);
  chain = λ a b c h k. ground (arith, h, k, text_lt-IsWeakOrder.chain a b c);
}

pub folder_lt_total :
    (fs : List Text) (a b : Text) → folder_lt fs a b ≡ false → folder_lt fs b a ≡ false → a ≡ b
unfolding folder_lt find_string
folder_lt_total fs a b h k = ground (
  arith,
  h,
  k,
  text_lt_total a b,
  find_from_inj 0 fs a b,
  same_place (find_from 0 fs a) (find_from 0 fs b),
)

-- The order of the configuration: its folders come first, each before those after it there and before
-- all others, and the others follow by name.
pub configured_before : List Text → Text → Text → Bool
configured_before [] a b = text_lt a b
configured_before (f ∷ fs) a b =
    let rest = configured_before fs a b in
    if text_eq b f then false else if text_eq a f then true else rest

-- `folder_lt` for two places.
abbrev placed_before : ℤ → ℤ → Text → Text → Bool
placed_before i j a b =
    if not (is_neg i) && not (is_neg j)
    then lt_ℤ i j
    else if not (is_neg i)
    then true
    else if not (is_neg j)
    then false
    else text_lt a b

placed-configured_before :
    (i : ℕ) (fs : List Text) (a b : Text)
    → placed_before (find_from i fs a) (find_from i fs b) a b ≡ configured_before fs a b
unfolding find_from configured_before
placed-configured_before i [] a b = refl
placed-configured_before i (f ∷ fs) a b = ground (
  arith,
  find_from-ge (suc i) fs a,
  find_from-ge (suc i) fs b,
  placed-configured_before (suc i) fs a b,
)

folder_lt-configured_before :
    (fs : List Text) (a b : Text) → folder_lt fs a b ≡ configured_before fs a b
unfolding folder_lt find_string
folder_lt-configured_before fs a b = placed-configured_before 0 fs a b

-- The sorted list is the only one in the order of the code.
pub sort_by_config_lem :
    (conf : AccountConfig) (l : DirectoryList)
    → InOrder (folder_lt conf.folders_sort) (sort_by_config conf l).dirs
      × ((d : Text) → times d (sort_by_config conf l).dirs ≡ times d l.dirs)
      × ((ys : List Text)
          → InOrder (folder_lt conf.folders_sort) ys
          → ((d : Text) → times d ys ≡ times d l.dirs)
          → ys ≡ (sort_by_config conf l).dirs)
unfolding sort_by_config sorted_in_place
sort_by_config_lem conf l =
    let less = folder_lt conf.folders_sort in
    let o = folder_lt-IsWeakOrder conf.folders_sort in
    (
      sort_stable-InOrder less o l.dirs,
      (λ d. times-sort_stable less d l.dirs),
      (λ ys h e.
          InOrder-unique less (folder_lt_total conf.folders_sort) ys (sort_stable less l.dirs) h
            (sort_stable-InOrder less o l.dirs) (λ d. e d ∙ sym (times-sort_stable less d l.dirs))),
    )

-- The sorted list is in the order of the configuration, in which the folders of `folders-sort` stand
-- first, each before those after it there, and the others follow by name; it has every directory as
-- often as before, and it is the only list of which this holds.
pub sort_by_config-InOrder :
    (conf : AccountConfig) (l : DirectoryList)
    → InOrder (configured_before conf.folders_sort) (sort_by_config conf l).dirs
      × ((d : Text) → times d (sort_by_config conf l).dirs ≡ times d l.dirs)
      × ((ys : List Text)
          → InOrder (configured_before conf.folders_sort) ys
          → ((d : Text) → times d ys ≡ times d l.dirs)
          → ys ≡ (sort_by_config conf l).dirs)
sort_by_config-InOrder conf l =
    let same : folder_lt conf.folders_sort ≡ configured_before conf.folders_sort =
      λ i a b. folder_lt-configured_before conf.folders_sort a b i in
    subst
      (λ less.
        InOrder less (sort_by_config conf l).dirs
        × ((d : Text) → times d (sort_by_config conf l).dirs ≡ times d l.dirs)
        × ((ys : List Text)
            → InOrder less ys
            → ((d : Text) → times d ys ≡ times d l.dirs)
            → ys ≡ (sort_by_config conf l).dirs))
      same (sort_by_config_lem conf l)
