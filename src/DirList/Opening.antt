-- ===== src/DirList/Opening.antt =====
-- widgets/dirlist.go: what the callbacks of `Select` and `UpdateList` make of the list.
use nyat.Common.{
  ℕ, ◌+◌, ltb, Bool, true, false, not, ◌&&◌, List, [], ◌∷◌, ◌++◌, Option, Text, text_eq,
  text_eq_iff, select_if, if◌then◌else◌, ◌≡◌, refl, arith, ap, subst, sym, ◌∙◌, Bool-cases, inl,
  inr,
}
use nyat.MsgSort.Criteria.{text_lt, sort_stable}
use nyat.DirList.{
  AccountConfig, DirectoryList, DirStore, done, error, has_dir, filter_dirs, filter_by_config,
  sort_by_config, sorted_in_place, folder_lt, add_selected, select, on_opened,
}
use nyat.DirList.Folders.{shown, filter_by_config-shown}
use nyat.DirList.Unique.{InOrder, times, times-sort_stable, InOrder-unique}
use nyat.DirList.FolderOrder.{folder_lt_total, sort_by_config_lem}

has_dir-times : (xs : List Text) (d : Text) → has_dir xs d ≡ ltb 0 (times d xs)
unfolding has_dir
has_dir-times [] d = refl
has_dir-times (x ∷ xs) d = ground (arith, has_dir-times xs d)

times-append : (d : Text) (xs ys : List Text) → times d (xs ++ ys) ≡ times d xs + times d ys
times-append d [] ys = omega arith
times-append d (x ∷ xs) ys = ground (arith, times-append d xs ys)

times-select_if :
    (p : Text → Bool) (d : Text) (xs : List Text)
    → times d (select_if p xs) ≡ (if p d then times d xs else 0)
times-select_if p d [] = ground arith
times-select_if p d (x ∷ xs) = elim (Bool-cases (text_eq x d)) [
  | inl e ↦ let q = (text_eq_iff x d).0 e in ground (arith, e, ap p q, times-select_if p d xs)
  | inr e ↦ ground (arith, e, times-select_if p d xs)
]

-- One more, if d is the directory that has been selected, which has a name and else occurs n times,
-- with n zero.
abbrev pub added : ℕ → Text → Text → ℕ
added n selected d =
    if ltb 0 n then 0 else if text_eq selected [] then 0 else if text_eq selected d then 1 else 0

times-add_selected :
    (d : Text) (l : DirectoryList)
    → times d (add_selected l).dirs ≡ times d l.dirs + added (times l.selected l.dirs) l.selected d
unfolding add_selected
times-add_selected d l =
    ground (arith, times-append d l.dirs (l.selected ∷ []), has_dir-times l.dirs l.selected)

-- Sorting in place keeps how often the store has a directory, if a shared list is the store's.
abbrev pub IsShared : DirectoryList → Type 0
IsShared l = l.shared ≡ true → l.store.dirs ≡ l.dirs

store_sorted :
    (b : Bool) (s : DirStore) (less : Text → Text → Bool) (dirs : List Text)
    → (b ≡ true → s.dirs ≡ dirs)
    → (b ≡ true
        → (if b then record s { dirs = sort_stable less dirs } else s).dirs ≡ sort_stable less dirs)
      × ((d : Text)
          → times d (if b then record s { dirs = sort_stable less dirs } else s).dirs
            ≡ times d s.dirs)
store_sorted true s less dirs h =
    ((λ _. refl), (λ d. times-sort_stable less d dirs ∙ ap (times d) (sym (h refl))))
store_sorted false s less dirs h = ((λ e. cc), (λ d. refl))

sorted_in_place-store :
    (less : Text → Text → Bool) (l : DirectoryList)
    → IsShared l
    → IsShared (sorted_in_place less l)
      × ((d : Text) → times d (sorted_in_place less l).store.dirs ≡ times d l.store.dirs)
unfolding sorted_in_place
sorted_in_place-store less l h = store_sorted l.shared l.store less l.dirs h

add_selected-store :
    (l : DirectoryList)
    → IsShared l
    → IsShared (add_selected l)
      × ((add_selected l).store ≡ l.store)
      × ((add_selected l).selected ≡ l.selected)
unfolding add_selected
add_selected-store l h =
    elim (Bool-cases (not (has_dir l.dirs l.selected) && not (text_eq l.selected []))) [
      | inl e ↦ rw e ((λ q. cc), refl, refl)
      | inr e ↦ rw e (h, refl, refl)
    ]

add_selected-selecting : (l : DirectoryList) → (add_selected l).selecting ≡ l.selecting
unfolding add_selected
add_selected-selecting l =
    elim (Bool-cases (not (has_dir l.dirs l.selected) && not (text_eq l.selected []))) [
      | inl e ↦ rw e refl
      | inr e ↦ rw e refl
    ]

module _ (regex_match : Text → Text → Option Bool) (conf : AccountConfig) where
  no_filter :
      (fs es xs : List Text)
      → (elim fs [ [] ↦ elim es [ [] ↦ true | _ ↦ false ] | _ ↦ false ]) ≡ true
      → xs ≡ filter_dirs regex_match (filter_dirs regex_match xs fs false) es true
  unfolding filter_dirs
  no_filter [] [] xs h = refl
  no_filter [] (e ∷ es) xs h = cc
  no_filter (f ∷ fs) es xs h = cc

  filter_by_config-IsShared : (l : DirectoryList) → IsShared (filter_by_config regex_match conf l)
  unfolding filter_by_config
  filter_by_config-IsShared l = no_filter conf.folders conf.folders_exclude l.store.dirs

  -- The directories that the configuration shows of a store, as often as they are there.
  abbrev pub shown_times : Text → List Text → ℕ
  shown_times d dirs = if shown regex_match conf d then times d dirs else 0

  pub filter_by_config-times :
      (d : Text) (l : DirectoryList)
      → times d (filter_by_config regex_match conf l).dirs ≡ shown_times d l.store.dirs
  filter_by_config-times d l =
      ap (times d) (filter_by_config-shown regex_match conf l)
      ∙ times-select_if (λ e. shown regex_match conf e) d l.store.dirs

  times-added :
      (d : Text) (f : DirectoryList) (selected : Text) (dirs : List Text)
      → f.selected ≡ selected
      → ((e : Text) → times e f.dirs ≡ shown_times e dirs)
      → times d (add_selected f).dirs
        ≡ shown_times d dirs + added (shown_times selected dirs) selected d
  times-added d f selected dirs q h =
      subst
        (λ z. times d (add_selected f).dirs ≡ shown_times d dirs + added (shown_times z dirs) z d) q
        (rw (times-add_selected d f, h d, h f.selected) refl)

  -- When a directory has been opened, the one being selected becomes the selected one. The list is
  -- then in the order of the configuration; it has each directory as often as the store, if the
  -- configuration shows it, and the selected one once more if it would else be missing and has a
  -- name. The store keeps its directories, though their order changes with the list's if the list
  -- is not filtered.
  pub on_opened-Lists :
      (l : DirectoryList)
      → ((on_opened regex_match conf done l).selected ≡ l.selecting)
        × InOrder (folder_lt conf.folders_sort) (on_opened regex_match conf done l).dirs
        × ((d : Text)
            → times d (on_opened regex_match conf done l).dirs
              ≡ shown_times d l.store.dirs
                + added (shown_times l.selecting l.store.dirs) l.selecting d)
        × ((d : Text)
            → times d (on_opened regex_match conf done l).store.dirs ≡ times d l.store.dirs)
  unfolding on_opened sort_by_config sorted_in_place filter_by_config
  on_opened-Lists l =
      let f = filter_by_config regex_match conf (record l { selected = l.selecting }) in
      let a = add_selected f in
      let s = sorted_in_place text_lt a in
      let (ha, ea, qa) =
        add_selected-store f (filter_by_config-IsShared (record l { selected = l.selecting })) in
      let (hs, ts) = sorted_in_place-store text_lt a ha in
      let (hr, tr) = sorted_in_place-store (folder_lt conf.folders_sort) s hs in
      let (o, t, u) = sort_by_config_lem conf s in
      (
        qa,
        o,
        (λ d.
            t d
            ∙ times-sort_stable text_lt d a.dirs
            ∙ times-added d f l.selecting l.store.dirs refl
                (λ e. filter_by_config-times e (record l { selected = l.selecting }))),
        (λ d. tr d ∙ ts d ∙ ap (λ z. times d z.dirs) ea),
      )

  on_opened-selecting :
      (l : DirectoryList) → (on_opened regex_match conf done l).selecting ≡ l.selecting
  unfolding on_opened sort_by_config sorted_in_place filter_by_config
  on_opened-selecting l =
      add_selected-selecting
        (filter_by_config regex_match conf (record l { selected = l.selecting }))

  -- Opening the selected directory again leaves the list as it is.
  pub on_opened-again :
      (l : DirectoryList)
      → (on_opened regex_match conf done (on_opened regex_match conf done l)).dirs
        ≡ (on_opened regex_match conf done l).dirs
  on_opened-again l =
      let m = on_opened regex_match conf done l in
      let (s, o, t, u) = on_opened-Lists l in
      let (s', o', t', u') = on_opened-Lists m in
      InOrder-unique (folder_lt conf.folders_sort) (folder_lt_total conf.folders_sort)
        (on_opened regex_match conf done m).dirs m.dirs o' o
        (λ d. rw (t d, t' d, u d, on_opened-selecting l, u l.selecting) refl)

  -- If the worker fails to open one directory while the next is already being opened, the answer of
  -- the next leaves no directory selected.
  pub on_opened_after_error :
      (a b : Text) (l : DirectoryList)
      → (on_opened regex_match conf done
          (on_opened regex_match conf error (select b (select a l)))).selected
        ≡ []
  unfolding on_opened
  on_opened_after_error a b l =
      (on_opened-Lists (on_opened regex_match conf error (select b (select a l)))).0
