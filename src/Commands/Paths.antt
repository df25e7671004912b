-- ===== src/Commands/Paths.antt =====
-- commands/util.go: `CompletePath`. The calls of the file system, and the libraries for home directories
-- and paths, are parameters.
use nyat.Common.{
  Bool, false, List, [], ◌∷◌, ◌++◌, Option, none, some, Text, codes, ◌==◌, if◌then◌else◌,
}
use nyat.MsgSort.Criteria.{text_lt, sort_stable}

-- `exists` is whether `os.Stat` does not say that there is nothing; `stat_dir` is whether a path is a
-- directory, or none on an error; `read_names` are all names in a directory, or none on an error.
pub record FileSystem : Type 0 where
  pub getwd : Option Text
  pub expand : Text → Option Text
  pub clean : Text → Text
  pub join : Text → Text → Text
  pub exists : Text → Bool
  pub stat_dir : Text → Option Bool
  pub glob : Text → Option (List Text)
  pub read_names : Text → Option (List Text)

module _ (fs : FileSystem) where
  unfoldable pub is_dir : Text → Bool
  is_dir path = elim (fs.stat_dir path) [ none ↦ false | some b ↦ b ]

  abbrev pub is_hidden : Text → Bool
  is_hidden [] = false
  is_hidden (c ∷ s) = c == 46

  unfoldable pub visible : List Text → List Text
  visible [] = []
  visible (g ∷ files) = let rest = visible files in if is_hidden g then rest else g ∷ rest

  unfoldable pub list_dir : Text → Bool → List Text
  unfolding visible
  list_dir path hidden = elim (fs.read_names path) [
    | none ↦ []
    | some files ↦ if hidden then files else visible files
  ]

  -- A directory is marked with a slash.
  unfoldable pub mark_dirs : List Text → List Text
  unfolding is_dir
  mark_dirs [] = []
  mark_dirs (m ∷ matches) =
      let rest = mark_dirs matches in (if is_dir m then m ++ codes "/" else m) ∷ rest

  unfoldable pub joined : Text → List Text → List Text
  joined path [] = []
  joined path (f ∷ files) = fs.join path f ∷ joined path files

  -- The completions of a path that is not empty.
  unfoldable pub complete_from : Text → Option (List Text)
  unfolding mark_dirs joined list_dir sort_stable text_lt
  complete_from path = elim (fs.expand path) [
    | none ↦ none
    | some expanded ↦
        let p = fs.clean expanded in
        if fs.exists p
        then some (sort_stable text_lt (mark_dirs (joined p (list_dir p false))))
        else (elim (fs.glob (p ++ codes "*")) [
          | none ↦ none
          | some matches ↦ some (sort_stable text_lt (mark_dirs matches))
        ])
  ]

  -- `CompletePath`
  unfoldable pub complete_path : Text → Option (List Text)
  unfolding complete_from
  complete_path [] = elim fs.getwd [ none ↦ none | some cwd ↦ complete_from cwd ]
  complete_path (c ∷ path) = complete_from (c ∷ path)
