-- ===== src/Maildir/Container.antt =====
-- worker/maildir/container.go and worker/maildir/message.go: the directories of a maildir and the
-- messages in them. Numbers are left out of the texts of errors.
use nyat.Common.{
  ℕ, Bool, true, false, not, ◌||◌, List, [], ◌∷◌, ◌++◌, Option, none, some, Text, codes, ◌==◌,
  text_eq, select_if, if◌then◌else◌, Result, ok, err,
}
use nyat.Common.Dict.{nat_eq}
use nyat.Models.{
  Flag, seen_flag, recent_flag, answered_flag, deleted_flag, flagged_flag, MessageInfo,
}
use nyat.MsgSort.Criteria.{sort_stable, text_lt}
use nyat.Uidstore.{get_or_insert, get_key}
use nyat.Maildir.{flag_seen, flag_replied, flag_flagged}
use nyat.Maildir.Parse.{fetch_entity_part}
use nyat.Maildir.Envelope.{message_info_of}
use nyat.Maildir.Steps.{
  Library, Mail, Step, ◌>>=◌, ◌>>◌, give, from_result, call, try, explaining, container_of,
}

abbrev pub flag_trashed : ℕ
flag_trashed = 84

-- `translateMaildirFlags`: the flags that have a letter here are kept.
unfoldable pub translate_maildir_flags : List ℕ → List Flag
translate_maildir_flags [] = []
translate_maildir_flags (f ∷ flags) =
    let rest = translate_maildir_flags flags in
    if f == flag_replied
    then answered_flag ∷ rest
    else if f == flag_seen
    then seen_flag ∷ rest
    else if f == flag_trashed
    then deleted_flag ∷ rest
    else if f == flag_flagged
    then flagged_flag ∷ rest
    else rest

-- `flagToMaildir`
unfoldable pub flag_to_maildir : Flag → Option ℕ
flag_to_maildir answered_flag = some flag_replied
flag_to_maildir seen_flag = some flag_seen
flag_to_maildir deleted_flag = some flag_trashed
flag_to_maildir flagged_flag = some flag_flagged
flag_to_maildir recent_flag = none

-- `translateFlags`
unfoldable pub translate_flags : List Flag → List ℕ
unfolding flag_to_maildir
translate_flags [] = []
translate_flags (f ∷ flags) =
    let rest = translate_flags flags in
    elim (flag_to_maildir f) [ none ↦ rest | some letter ↦ letter ∷ rest ]

-- The entries of a directory, for `filepath.Walk`: a file, a directory, or one that cannot be read; that
-- entry alone stands in a directory whose entries cannot be listed.
mutual
  pub data Entry : Type 0 where
    file : Text → Entry
    folder : Text → Entries → Entry
    unreadable : (path_error : Text) → Entry

  pub data Entries : Type 0 where
    no_entry : Entries
    and_entry : Entry → Entries → Entries

-- Whether the walk skips a directory of this name.
unfoldable pub is_skipped : Text → Bool
is_skipped n = text_eq n (codes "new") || text_eq n (codes "tmp") || text_eq n (codes "cur")

-- The folders of an entry before those of the others.
unfoldable pub append_folders : Result (List Text) → Result (List Text) → Result (List Text)
append_folders (err e) rest = err e
append_folders (ok fs) (err e) = err e
append_folders (ok fs) (ok gs) = ok (fs ++ gs)

unfoldable mutual
  unfolding is_skipped append_folders

  -- `prefix` is the path of the directory, with a slash behind it if it is not the parent directory.
  pub walk : Text → Entry → Result (List Text)
  walk prefix (file n) = ok []
  walk prefix (unreadable e) = err e
  walk prefix (folder n entries) = elim (is_skipped n) [
    | true ↦ ok []
    | false ↦ append_folders (ok ((prefix ++ n) ∷ [])) (walk_all (prefix ++ n ++ codes "/") entries)
  ]

  pub walk_all : Text → Entries → Result (List Text)
  walk_all prefix no_entry = ok []
  walk_all prefix (and_entry e es) = append_folders (walk prefix e) (walk_all prefix es)

-- `ListFolders`, with the name of the parent directory and its entries.
unfoldable pub list_folders : Text → Result Entries → Result (List Text)
unfolding is_skipped walk_all
list_folders name (err e) = err e
list_folders name (ok entries) = if is_skipped name then ok [] else walk_all [] entries

module _ {D : Type 0} (lib : Library D) where
  -- `Dir`
  unfoldable pub dir_of : Text → Step D Text
  dir_of name = do c ← container_of; give (lib.join c.dir name)

  -- `GetOrInsert` on the container's store.
  unfoldable pub put_key : Text → Step D ℕ
  unfolding get_or_insert
  put_key key w = elim w.container [
    | none ↦ none
    | some c ↦
        let (uid, uids, counter) = get_or_insert key c.uids w.next_uid in
        some (ok uid, record w { container = some (record c { uids = uids }); next_uid = counter })
  ]

  unfoldable pub put_keys : List Text → Step D (List ℕ)
  put_keys [] = give []
  put_keys (key ∷ keys) = do uid ← put_key key; uids ← put_keys keys; give (uid ∷ uids)

  -- `OpenDirectory`
  unfoldable pub open_maildir : Text → Step D Text
  open_maildir name = do dir ← dir_of name; keys ← call (lib.unseen dir); put_keys keys; give dir

  -- `UIDs`
  unfoldable pub uids_of : Text → Step D (List ℕ)
  uids_of dir = do
    keys ← explaining (codes "could not get keys for " ++ dir ++ codes ": ") (call (lib.keys dir))
    put_keys (sort_stable text_lt keys)

  -- `Message`
  unfoldable pub message : Text → ℕ → Step D Mail
  message dir uid = do
    c ← container_of
    from_result (elim (get_key uid c.uids) [
      | none ↦ err (codes "could not find message")
      | some key ↦ ok (record { dir = dir; uid = uid; key = key })
    ])

  -- The methods of a message.
  unfoldable pub flags_of : Mail → Step D (List ℕ)
  flags_of m = call (lib.flags m.dir m.key)

  -- `SetOneFlag`
  unfoldable pub set_one_flag : ℕ → Bool → Mail → Step D (Unit {0})
  set_one_flag flag enable m = do
    flags ← explaining (codes "could not read previous flags: ") (flags_of m)
    call (
        lib.set_flags m.dir m.key
          (if enable then flags ++ flag ∷ [] else select_if (λ f. not (f == flag)) flags))

  -- `MessageInfo`, by lib.MessageInfo, which reads the flags last.
  unfoldable pub read_info : Mail → Step D MessageInfo
  read_info m = do
    text ← call (lib.open_file m.dir m.key)
    e ← explaining (codes "could not read message: ") (from_result (lib.read_message text))
    info ← from_result (message_info_of lib.find_date lib.time_of m.uid (ok []) e)
    flags ← flags_of m
    give (record info { flags = translate_maildir_flags flags })

  -- `NewBodyPartReader`
  unfoldable pub body_part : List ℕ → Mail → Step D Text
  body_part index m = do
    text ← call (lib.open_file m.dir m.key)
    e ← explaining (codes "could not read message: ") (from_result (lib.read_message text))
    from_result (fetch_entity_part e index)

  -- `DeleteAll`: the uids of the messages that were removed, and the first error.
  unfoldable pub delete_all : Text → List ℕ → Step D (List ℕ × Option Text)
  delete_all dir [] = give ([], none)
  delete_all dir (uid ∷ uids) = do
    removed ← try (do m ← message dir uid; call (lib.remove m.dir m.key))
    elim removed [
      | err e ↦ give ([], some e)
      | ok _ ↦ (do (success, failed) ← delete_all dir uids; give (uid ∷ success, failed))
    ]

  -- `CopyAll`
  unfoldable pub copy_all : (dest src : Text) → List ℕ → Step D (Unit {0})
  copy_all dest src [] = give tt
  copy_all dest src (uid ∷ uids) = do
    explaining (codes "could not copy message: ") (do
      c ← container_of
      key ← from_result (elim (get_key uid c.uids) [
        | none ↦ err (codes "could not find key")
        | some key ↦ ok key
      ])
      call (lib.copy dest src key))
    copy_all dest src uids
