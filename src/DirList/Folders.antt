-- ===== src/DirList/Folders.antt =====
-- widgets/dirlist.go: which directories `filterDirsByFoldersConfig` keeps.
use nyat.Common.{
  Bool, true, false, not, ◌&&◌, ◌||◌, List, [], ◌∷◌, Option, some, Text, text_eq, ◌==◌, select_if,
  if◌then◌else◌, ◌≡◌, refl, arith, ap, sym, Bool-cases, inl, inr,
}
use nyat.DirList.{
  AccountConfig, DirectoryList, folder_matches, includes, keep_included, filter_dirs,
  filter_by_config,
}

module _ (regex_match : Text → Text → Option Bool) where
  -- Whether the expression compiles and matches a folder.
  abbrev pub fits : Option Bool → Bool
  fits (some true) = true
  fits _ = false

  -- Whether a folder is what an entry names: behind a tilde is an expression, and else a folder's name.
  unfoldable pub entry_matches : Text → Text → Bool
  entry_matches folder [] = false
  entry_matches folder (c ∷ entry) =
      if c == 126 then fits (regex_match entry folder) else text_eq (c ∷ entry) folder

  folder_matches-entry_matches :
      (folder entry : Text) → folder_matches regex_match folder entry ≡ entry_matches folder entry
  unfolding folder_matches entry_matches
  folder_matches-entry_matches folder [] = refl
  folder_matches-entry_matches folder (c ∷ entry) = ground arith

  -- Whether a folder matches one of the entries.
  unfoldable pub matches_any : Text → List Text → Bool
  unfolding entry_matches
  matches_any folder [] = false
  matches_any folder (f ∷ filters) =
      let rest = matches_any folder filters in entry_matches folder f || rest

  unfoldable pub included : List Text → Text → Bool
  unfolding matches_any
  included [] folder = true
  included (f ∷ fs) folder = matches_any folder (f ∷ fs)

  -- A folder is shown if it matches an entry of `folders`, or there is none, and no entry of
  -- `folders-exclude`.
  unfoldable pub shown : AccountConfig → Text → Bool
  unfolding matches_any included
  shown conf folder = included conf.folders folder && not (matches_any folder conf.folders_exclude)

  includes-matches_any :
      (folder : Text) (fs : List Text) (exclude : Bool)
      → includes regex_match folder fs exclude
        ≡ (if matches_any folder fs then not exclude else exclude)
  unfolding includes matches_any
  includes-matches_any folder [] exclude = refl
  includes-matches_any folder (f ∷ fs) exclude =
      ground (arith, includes-matches_any folder fs exclude, folder_matches-entry_matches folder f)

  keep_included-select_if :
      (orig fs : List Text)
      → (keep_included regex_match orig fs false ≡ select_if (λ d. matches_any d fs) orig)
        × (keep_included regex_match orig fs true ≡ select_if (λ d. not (matches_any d fs)) orig)
  unfolding keep_included
  keep_included-select_if [] fs = (refl, refl)
  keep_included-select_if (d ∷ orig) fs =
      let (e, f) = keep_included-select_if orig fs in
      let i = includes-matches_any d fs false in
      let j = includes-matches_any d fs true in
      elim (Bool-cases (matches_any d fs)) [
        | inl h ↦ rw (i, j, h) (ap (◌∷◌ d) e, f)
        | inr h ↦ rw (i, j, h) (e, ap (◌∷◌ d) f)
      ]

select_if-select_if :
    {A : Type 0} (p q : A → Bool) (xs : List A)
    → select_if q (select_if p xs) ≡ select_if (λ d. p d && q d) xs
select_if-select_if p q [] = refl
select_if-select_if p q (x ∷ xs) = elim (Bool-cases (p x)) [
  | inl e ↦ rw e (elim (Bool-cases (q x)) [
    | inl f ↦ rw f (ap (◌∷◌ x) (select_if-select_if p q xs))
    | inr f ↦ rw f (select_if-select_if p q xs)
  ])
  | inr e ↦ rw e (select_if-select_if p q xs)
]

select_if_all : {A : Type 0} (xs : List A) → select_if (λ x. true) xs ≡ xs
select_if_all [] = refl
select_if_all (x ∷ xs) = ap (◌∷◌ x) (select_if_all xs)

module _ (regex_match : Text → Text → Option Bool) where
  filter_dirs_inclusion :
      (orig fs : List Text)
      → filter_dirs regex_match orig fs false ≡ select_if (λ d. included regex_match fs d) orig
  unfolding filter_dirs included
  filter_dirs_inclusion orig [] = sym (select_if_all orig)
  filter_dirs_inclusion orig (f ∷ fs) = (keep_included-select_if regex_match orig (f ∷ fs)).0

  filter_dirs_exclusion :
      (orig fs : List Text)
      → filter_dirs regex_match orig fs true
        ≡ select_if (λ d. not (matches_any regex_match d fs)) orig
  unfolding filter_dirs matches_any
  filter_dirs_exclusion orig [] = sym (select_if_all orig)
  filter_dirs_exclusion orig (f ∷ fs) = (keep_included-select_if regex_match orig (f ∷ fs)).1

  -- `filter_by_config` leaves, in their order, the directories of the store that match an entry of
  -- `folders`, or all if `folders` is empty, less those that match an entry of `folders-exclude`.
  -- An entry that begins with ~ matches by its expression, and never if that does not compile.
  pub filter_by_config-shown :
      (conf : AccountConfig) (l : DirectoryList)
      → (filter_by_config regex_match conf l).dirs
        ≡ select_if (λ d. shown regex_match conf d) l.store.dirs
  unfolding filter_by_config shown
  filter_by_config-shown conf l =
      rw
        (
          filter_dirs_inclusion l.store.dirs conf.folders,
          filter_dirs_exclusion (select_if (λ d. included regex_match conf.folders d) l.store.dirs)
              conf.folders_exclude,
        )
        (select_if-select_if (λ d. included regex_match conf.folders d)
          (λ d. not (matches_any regex_match d conf.folders_exclude)) l.store.dirs)
