-- ===== src/DirList.antt =====
-- widgets/dirlist.go and lib/dirstore.go: the list of directories of an account. Redraw requests and
-- the spinner's clock are left out. A regular expression of the configuration is tested by
-- `regex_match`, with `none` where `regexp.Compile` returns an error.
pub mod Folders
pub mod FolderOrder
pub mod Unique
pub mod Opening
pub mod Listed
pub mod Rows
pub mod Counts
pub mod Labels
pub mod Clicking
use nyat.Common.{
  ℕ, suc, ◌+◌, ◌-◌, Bool, true, false, not, ◌&&◌, List, [], ◌∷◌, ◌++◌, Option, none, some, Text,
  codes, length, get_elem?, leb, ltb, text_eq, if◌then◌else◌,
}
use nyat.Common.Int.{ℤ, pos, negsuc, ◌+ℤ◌, lt_ℤ, is_neg}
use nyat.Common.Dict.{Dict, lookup, insert, text_key_eq}
use nyat.Models.{Ref}
use nyat.MsgSort.Criteria.{text_lt, sort_stable}

-- `config.AccountConfig`, as far as the list reads it.
pub record AccountConfig : Type 0 where
  pub folders : List Text
  pub folders_exclude : List Text
  pub folders_sort : List Text

pub record DirStore : Type 0 where
  pub dirs : List Text
  pub msg_stores : Dict Text Ref

unfoldable pub new_dir_store : DirStore
new_dir_store = record { dirs = []; msg_stores = [] }

unfoldable pub update : List Text → DirStore → DirStore
update dirs s = record s { dirs = dirs }

unfoldable pub message_store : Text → DirStore → Option Ref
message_store dirname s = lookup dirname s.msg_stores

unfoldable pub set_message_store : Text → Ref → DirStore → DirStore
set_message_store name store s = record s { msg_stores = insert name store s.msg_stores }

-- `shared`: the slice `dirs` is the one that the store holds, so that sorting it in place sorts both.
pub record DirectoryList : Type 0 where
  pub store : DirStore
  pub dirs : List Text
  pub shared : Bool
  pub selecting : Text
  pub selected : Text
  pub scroll : ℕ
  pub spinning : Bool

unfoldable pub new_directory_list : DirectoryList
unfolding new_dir_store
new_directory_list = record {
  store = new_dir_store;
  dirs = [];
  shared = false;
  selecting = [];
  selected = [];
  scroll = 0;
  spinning = true;
}

unfoldable pub find_from : ℕ → List Text → Text → ℤ
find_from i [] str = negsuc 0
find_from i (s ∷ slice) str =
    let rest = find_from (suc i) slice str in if text_eq str s then pos i else rest

unfoldable pub find_string : List Text → Text → ℤ
unfolding find_from
find_string slice str = find_from 0 slice str

-- Whether a directory is one of a list, as the loop of `Select` tests it.
unfoldable pub has_dir : List Text → Text → Bool
has_dir [] name = false
has_dir (d ∷ dirs) name = let rest = has_dir dirs name in if text_eq d name then true else rest

module _ (regex_match : Text → Text → Option Bool) where
  unfoldable pub folder_matches : Text → Text → Bool
  folder_matches folder [] = false
  folder_matches folder (c ∷ pattern) =
      if text_eq (c ∷ []) (codes "~")
      then elim (regex_match pattern folder) [ none ↦ false | some b ↦ b ]
      else text_eq (c ∷ pattern) folder

  -- The inner loop of `filterDirs`.
  unfoldable pub includes : Text → List Text → Bool → Bool
  unfolding folder_matches
  includes folder [] exclude = exclude
  includes folder (f ∷ filters) exclude =
      let rest = includes folder filters exclude in
      if folder_matches folder f then not exclude else rest

  unfoldable pub keep_included : List Text → List Text → Bool → List Text
  unfolding includes
  keep_included [] filters exclude = []
  keep_included (folder ∷ orig) filters exclude =
      let rest = keep_included orig filters exclude in
      if includes folder filters exclude then folder ∷ rest else rest

  unfoldable pub filter_dirs : List Text → List Text → Bool → List Text
  unfolding keep_included
  filter_dirs orig [] exclude = orig
  filter_dirs orig (f ∷ filters) exclude = keep_included orig (f ∷ filters) exclude

  -- `filterDirsByFoldersConfig`: without filters the list takes the slice of the store itself.
  unfoldable pub filter_by_config : AccountConfig → DirectoryList → DirectoryList
  unfolding filter_dirs
  filter_by_config conf l = record l {
    dirs = filter_dirs (filter_dirs l.store.dirs conf.folders false) conf.folders_exclude true;
    shared = elim conf.folders [
      | [] ↦ elim conf.folders_exclude [ [] ↦ true | _ ↦ false ]
      | _ ↦ false
    ];
  }

-- The comparison of `sortDirsByFoldersSortConfig`.
unfoldable pub folder_lt : List Text → Text → Text → Bool
unfolding find_string text_lt
folder_lt folders_sort a b =
    let i = find_string folders_sort a in
    let j = find_string folders_sort b in
    if not (is_neg i) && not (is_neg j)
    then lt_ℤ i j
    else if not (is_neg i)
    then true
    else if not (is_neg j)
    then false
    else text_lt a b

-- A slice of the list that has been sorted in place.
unfoldable pub sorted_in_place : (Text → Text → Bool) → DirectoryList → DirectoryList
unfolding sort_stable
sorted_in_place less l =
    let dirs = sort_stable less l.dirs in
    record l { dirs = dirs; store = if l.shared then record l.store { dirs = dirs } else l.store }

unfoldable pub sort_by_config : AccountConfig → DirectoryList → DirectoryList
unfolding sorted_in_place folder_lt
sort_by_config conf l = sorted_in_place (folder_lt conf.folders_sort) l

-- The answers of the worker that the callbacks of the list tell apart.
pub data Answer : Type 0 where
  directory : Text → Answer
  done : Answer
  error : Answer

-- The variable `dirs` of a run of `UpdateList`, the list, and what `done` has been called with.
pub record Listing : Type 0 where
  pub found : List Text
  pub list : DirectoryList
  pub reported : Option (List Text)

-- `Select` posts OpenDirectory for the name; its callback is `on_opened`.
unfoldable pub select : Text → DirectoryList → DirectoryList
select name l = record l { selecting = name }

-- The selected directory at the end of the list, in a slice of its own.
unfoldable pub add_selected : DirectoryList → DirectoryList
unfolding has_dir
add_selected l =
    if not (has_dir l.dirs l.selected) && not (text_eq l.selected [])
    then record l { dirs = l.dirs ++ l.selected ∷ []; shared = false }
    else l

module _ (regex_match : Text → Text → Option Bool) (conf : AccountConfig) where
  unfoldable pub on_listed : Answer → Listing → Listing
  unfolding update filter_by_config sort_by_config
  on_listed (directory name) g = record g { found = g.found ++ name ∷ [] }
  on_listed done g =
      let l = record g.list { store = update g.found g.list.store; shared = false } in
      let l' = sort_by_config conf (filter_by_config regex_match conf l) in
      record g {
        list = record l' { store = update l'.dirs l'.store; shared = false; spinning = false };
        reported = some g.found;
      }
  on_listed error g = g

  -- `UpdateList`, with the answers in the order of their arrival.
  unfoldable pub update_list : List Answer → Listing → Listing
  unfolding on_listed
  update_list [] g = g
  update_list (a ∷ answers) g = update_list answers (on_listed a g)

  unfoldable pub on_opened : Answer → DirectoryList → DirectoryList
  unfolding filter_by_config add_selected sorted_in_place sort_by_config text_lt
  on_opened error l = record l { selecting = [] }
  on_opened done l =
      let f = filter_by_config regex_match conf (record l { selected = l.selecting }) in
      sort_by_config conf (sorted_in_place text_lt (add_selected f))
  on_opened (directory name) l = l

-- The place that `NextPrev` goes to, among n directories.
unfoldable pub wrap : ℕ → ℤ → ℕ
wrap n (negsuc k) = n - 1
wrap n (pos i) = if leb n i then 0 else i

-- `NextPrev`: the name that is then given to `Select`.
unfoldable pub next_prev : ℤ → DirectoryList → Option Text
unfolding wrap find_string
next_prev delta l = elim l.dirs [
  | [] ↦ none
  | _ ↦ get_elem? l.dirs (wrap (length l.dirs) (find_string l.dirs l.selected +ℤ delta))
]

abbrev pub at_most : ℕ → ℕ → ℕ
at_most bound n = if ltb bound n then bound else n

-- The scroll position of `ensureScroll`, with n directories, of which one is looked for at a place.
unfoldable pub scroll_for : ℕ → ℕ → ℕ → ℤ → ℕ
scroll_for h n scroll (negsuc k) = scroll
scroll_for h n scroll (pos i) = at_most (n - h) (
    if leb scroll i && ltb i (scroll + h)
    then scroll
    else if leb (scroll + h) i
    then suc i - h
    else i)

unfoldable pub ensure_scroll : ℕ → DirectoryList → DirectoryList
unfolding scroll_for find_string
ensure_scroll h l = record l {
  scroll = scroll_for h (length l.dirs) l.scroll (find_string l.dirs l.selecting);
}

-- `Clicked`
unfoldable pub clicked : ℕ → DirectoryList → Option Text
clicked y l = get_elem? l.dirs y
