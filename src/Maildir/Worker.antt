-- ===== src/Maildir/Worker.antt =====
-- worker/maildir/worker.go: the actions of the worker. What getopt and net/url make of a text, and what
-- is read of a message for a search, are arguments.
use nyat.Common.{
  ℕ, suc, ◌+◌, Bool, true, false, List, [], ◌∷◌, Option, none, some, Text, codes, length, text_eq,
  if◌then◌else◌, Result, ok, err,
}
use nyat.Models.{
  Ref, Flag, SortCriterion, MessageInfo, DirectoryInfo, directory, directory_info,
  directory_contents,
}
use nyat.MsgSort.Criteria.{sort}
use nyat.Uidstore.{new_store}
use nyat.Maildir.{Criteria, Message, contains_flag, flag_seen}
use nyat.Maildir.Steps.{
  Library, Mail, Step, ◌>>=◌, ◌>>◌, give, fail, from_result, call, post, try, explaining, not_nil,
  selected_dir, gets, set_container, set_selected, set_criteria,
}
use nyat.Maildir.Envelope.{explain}
use nyat.Maildir.Container.{
  Entries, list_folders, dir_of, open_maildir, uids_of, message, flags_of, read_info,
}

-- A URL, as far as it is read.
pub record Source : Type 0 where
  pub host : Text
  pub path : Text

-- The actions, with what is read of them.
pub data Action : Type 0 where
  unsupported_action : Action
  configure_action : Result Source → (home : Result Text) → Action
  connect_action : Action
  list_action : (name : Text) → Result Entries → Action
  open_action : Text → Action
  contents_action : List SortCriterion → Action
  create_action : Text → Action
  remove_action : Text → Action
  headers_action : List ℕ → Action
  part_action : ℕ → List ℕ → Action
  full_action : List ℕ → Action
  delete_action : List ℕ → Action
  flag_action : (enable : Bool) → Flag → List ℕ → Action
  answered_action : Bool → List ℕ → Action
  copy_action : Text → List ℕ → Action
  append_action : Text → List Flag → Ref → Action
  search_action : Result Criteria → (Mail → Message) → Action
  other_action : Action

abbrev pub no_info : Text → DirectoryInfo
no_info name = record {
  name = name;
  flags = [];
  read_only = false;
  exists = 0;
  recent = 0;
  unseen = 0;
  accurate_counts = true;
}

module _ {D : Type 0} (lib : Library D) where
  -- The loop of `getDirectoryInfo`: how many messages have been read and are not seen.
  unfoldable pub count_unseen : Text → List ℕ → Step D ℕ
  count_unseen dir [] = give 0
  count_unseen dir (uid ∷ uids) = do
    flags ← try (do m ← message lib dir uid; flags_of lib m)
    n ← count_unseen dir uids
    give (elim flags [ err e ↦ n | ok fs ↦ if contains_flag fs flag_seen false then n else suc n ])

  -- `getDirectoryInfo`. An error in counting is only logged.
  unfoldable pub get_directory_info : Text → Step D DirectoryInfo
  get_directory_info name = do
    dir ← dir_of lib name
    uids ← try (uids_of lib dir)
    elim uids [
      | err e ↦ give (no_info name)
      | ok us ↦ (do
        counted ← call (λ d. let (d', n) = lib.unseen_count dir d in (d', ok n))
        unseen ← count_unseen dir us
        give (record (no_info name) {
          exists = length us + counted.0;
          recent = counted.0;
          unseen = unseen + counted.0;
        }))
    ]

  unfoldable pub post_info : Text → Step D (Unit {0})
  post_info name = do info ← get_directory_info name; post (directory_info info)

  unfoldable pub post_selected_info : Step D (Unit {0})
  post_selected_info = do name ← gets (λ w. w.selected_name); post_info name

  -- The path of the source, below the home directory if its host is a tilde.
  unfoldable pub configured_dir : Result Text → Source → Result Text
  unfolding explain
  configured_dir home u =
      if text_eq u.host (codes "~")
      then (elim (explain (codes "could not resolve home directory: ") home) [
        | err e ↦ err e
        | ok h ↦ ok (lib.join h u.path)
      ])
      else ok u.path

  abbrev pub not_empty : Text → Result Text
  not_empty [] = err (codes "could not resolve maildir from URL")
  not_empty (c ∷ dir) = ok (c ∷ dir)

  -- `NewContainer`
  unfoldable pub new_container : Text → Step D (Unit {0})
  new_container dir = do
    answer ← gets (λ w. lib.is_dir dir w.disk)
    there ← from_result answer
    elim there [
      | true ↦ set_container (record { dir = dir; uids = new_store })
      | false ↦ fail (codes "Given maildir is not a directory")
    ]

  -- `handleConfigure`
  unfoldable pub handle_configure : Result Source → Result Text → Step D (Unit {0})
  handle_configure source home = do
    u ← from_result source
    path ← from_result (configured_dir home u)
    dir ← from_result (not_empty path)
    new_container dir

  unfoldable pub post_directories : ℕ → List Text → Step D (Unit {0})
  post_directories id [] = give tt
  post_directories id (name ∷ names) = do
    post (directory id name [])
    post_info name
    post_directories id names

  -- `handleListDirectories`: without a container there is an error.
  unfoldable pub handle_list_directories : ℕ → Text → Result Entries → Step D (Unit {0})
  handle_list_directories id name entries = do
    container ← gets (λ w. w.container)
    elim container [
      | none ↦ fail (codes "Incorrect maildir directory")
      | some c ↦ (do names ← from_result (list_folders name entries); post_directories id names)
    ]

  abbrev pub new_messages : Text → Text
  new_messages dir = lib.join dir (codes "new")

  unfoldable pub unwatch_previous : Option Text → Step D (Unit {0})
  unwatch_previous none = give tt
  unwatch_previous (some dir) =
      explaining (codes "could not unwatch previous directory: ")
        (call (lib.unwatch (new_messages dir)))

  -- `handleOpenDirectory`
  unfoldable pub handle_open_directory : Text → Step D (Unit {0})
  handle_open_directory name = do
    dir ← open_maildir lib name
    previous ← gets (λ w. w.selected)
    unwatch_previous previous
    set_selected dir name
    explaining (codes "could not add watch to directory: ") (call (lib.watch (new_messages dir)))
    explaining (codes "could not clean directory: ") (call (lib.clean dir))
    info ← get_directory_info name
    post (directory_info info)
    post (directory_info info)

module _ {D : Type 0} (lib : Library D) (lower : ℕ → ℕ) where
  -- The loop of `sort`: the messages that can be read.
  unfoldable pub infos_of : List ℕ → Step D (List MessageInfo)
  infos_of [] = give []
  infos_of (uid ∷ uids) = do
    r ← try (do dir ← selected_dir; m ← message lib dir uid; read_info lib m)
    infos ← infos_of uids
    give (elim r [ err e ↦ infos | ok info ↦ info ∷ infos ])

  -- `sort`
  unfoldable pub sort_uids : List ℕ → List SortCriterion → Step D (List ℕ)
  sort_uids uids [] = give uids
  sort_uids uids (c ∷ criteria) = do
    infos ← infos_of uids
    not_nil (sort lower infos (c ∷ criteria))

  -- `handleFetchDirectoryContents`
  unfoldable pub handle_fetch_directory_contents : ℕ → List SortCriterion → Step D (Unit {0})
  handle_fetch_directory_contents id criteria = do
    dir ← selected_dir
    uids ← uids_of lib dir
    sorted ← sort_uids uids criteria
    set_criteria criteria
    post (directory_contents (some id) sorted)

  -- The rest of `handleFSEvent` for a selected directory.
  unfoldable pub rescan : Text → Step D (Unit {0})
  rescan dir = do
    fresh ← call (lib.unseen dir)
    uids ← uids_of lib dir
    criteria ← gets (λ w. w.current_sort_criteria)
    sorted ← sort_uids uids criteria
    post (directory_contents none sorted)
    name ← gets (λ w. w.selected_name)
    info ← get_directory_info lib name
    post (directory_info (record info { recent = length fresh }))

  -- `handleFSEvent`, with whether a file was created; errors are only logged.
  unfoldable pub handle_fs_event : Bool → Step D (Unit {0})
  handle_fs_event false = give tt
  handle_fs_event true = do
    selected ← gets (λ w. w.selected)
    elim selected [ none ↦ give tt | some dir ↦ (do logged ← try (rescan dir); give tt) ]
