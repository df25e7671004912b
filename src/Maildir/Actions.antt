-- ===== src/Maildir/Actions.antt =====
-- worker/maildir/worker.go: the actions on messages, and the dispatch of all actions. The reader of a
-- text that has been read is its address.
use nyat.Common.{ℕ, Bool, true, false, List, [], ◌∷◌, none, some, Text, codes, Result, ok, err}
use nyat.Models.{
  Ref, Flag, MessageInfo, Post, done, error, unsupported, message_info, message_body_part,
  full_message, messages_deleted, search_results,
}
use nyat.Uidstore.{get_key}
use nyat.Maildir.{Criteria, Message, flag_replied, search}
use nyat.Maildir.Steps.{
  Library, Mail, Step, ◌>>=◌, ◌>>◌, give, fail, from_result, call, post, try, selected_dir,
  container_of,
}
use nyat.Maildir.Container.{
  dir_of, uids_of, message, set_one_flag, read_info, body_part, delete_all, copy_all,
  flag_to_maildir, translate_flags,
}
use nyat.Maildir.Worker.{
  Action, unsupported_action, configure_action, connect_action, list_action, open_action,
  contents_action, create_action, remove_action, headers_action, part_action, full_action,
  delete_action, flag_action, answered_action, copy_action, append_action, search_action,
  other_action, post_info, post_selected_info, handle_configure, handle_list_directories,
  handle_open_directory, handle_fetch_directory_contents, handle_fs_event,
}

-- Steps of the worker: an action of the user interface, or an event of the file system.
pub data MaildirEvent : Type 0 where
  received : (id : ℕ) → Action → MaildirEvent
  fs_event : (created : Bool) → MaildirEvent

-- The answer to an action.
abbrev pub answer : ℕ → Result Bool → Post
answer id (err e) = error (some id) e
answer id (ok true) = done id
answer id (ok false) = unsupported id

module _ {D : Type 0} (lib : Library D) (is_upper : ℕ → Bool) (lower : ℕ → ℕ)
    (reader_of : Text → Ref) where
  -- The message of the selected directory with a uid.
  unfoldable pub selected_message : ℕ → Step D Mail
  selected_message uid = do dir ← selected_dir; message lib dir uid

  -- The information on a message is posted, or the error that came up.
  unfoldable pub post_result : ℕ → Result MessageInfo → Step D (Unit {0})
  post_result id (err e) = post (error (some id) e)
  post_result id (ok info) = post (message_info (some id) info)

  -- `handleFetchMessageHeaders`
  unfoldable pub fetch_headers : ℕ → List ℕ → Step D (Unit {0})
  fetch_headers id [] = give tt
  fetch_headers id (uid ∷ uids) = do
    r ← try (do m ← selected_message uid; read_info lib m)
    post_result id r
    fetch_headers id uids

  -- `handleFetchMessageBodyPart`
  unfoldable pub fetch_body_part : ℕ → ℕ → List ℕ → Step D (Unit {0})
  fetch_body_part id uid part = do
    m ← selected_message uid
    text ← body_part lib part m
    post (message_body_part id uid (reader_of text))

  -- `handleFetchFullMessages`
  unfoldable pub fetch_full_messages : ℕ → List ℕ → Step D (Unit {0})
  fetch_full_messages id [] = give tt
  fetch_full_messages id (uid ∷ uids) = do
    m ← selected_message uid
    text ← call (lib.open_file m.dir m.key)
    post (full_message id uid (reader_of text))
    fetch_full_messages id uids

  unfoldable pub post_deleted : ℕ → List ℕ → Step D (Unit {0})
  post_deleted id [] = give tt
  post_deleted id (uid ∷ uids) = post (messages_deleted (some id) (uid ∷ uids))

  -- `handleDeleteMessages`
  unfoldable pub delete_messages : ℕ → List ℕ → Step D (Unit {0})
  delete_messages id uids = do
    dir ← selected_dir
    (deleted, failed) ← delete_all lib dir uids
    post_deleted id deleted
    elim failed [ some e ↦ fail e | none ↦ post_selected_info lib ]

  -- A flag of a message is set or cleared, and the message read again.
  unfoldable pub flag_one : ℕ → Bool → ℕ → Step D MessageInfo
  flag_one flag enable uid = do
    m ← selected_message uid
    set_one_flag lib flag enable m
    read_info lib m

  -- `handleAnsweredMessages`: the directory is posted after each message that was marked.
  unfoldable pub answered_messages : ℕ → Bool → List ℕ → Step D (Unit {0})
  answered_messages id answered [] = give tt
  answered_messages id answered (uid ∷ uids) = do
    r ← try (flag_one flag_replied answered uid)
    post_result id r
    elim r [ err e ↦ give tt | ok info ↦ post_selected_info lib ]
    answered_messages id answered uids

  -- The loop of `handleFlagMessages`.
  unfoldable pub flag_loop : ℕ → ℕ → Bool → List ℕ → Step D (Unit {0})
  flag_loop id flag enable [] = give tt
  flag_loop id flag enable (uid ∷ uids) = do
    r ← try (flag_one flag enable uid)
    post_result id r
    flag_loop id flag enable uids

  -- `flagToMaildir[msg.Flag]`, which is zero for a flag that is not there.
  unfoldable pub letter_of : Flag → ℕ
  unfolding flag_to_maildir
  letter_of flag = elim (flag_to_maildir flag) [ none ↦ 0 | some letter ↦ letter ]

  -- `handleFlagMessages`
  unfoldable pub flag_messages : ℕ → Bool → Flag → List ℕ → Step D (Unit {0})
  flag_messages id enable flag uids = do
    flag_loop id (letter_of flag) enable uids
    post_selected_info lib

  -- `handleCopyMessages`
  unfoldable pub copy_messages : Text → List ℕ → Step D (Unit {0})
  copy_messages destination uids = do
    dest ← dir_of lib destination
    src ← selected_dir
    copy_all lib dest src uids
    post_selected_info lib
    post_info lib destination

  -- `handleAppendMessage`
  unfoldable pub append_message : Text → List Flag → Ref → Step D (Unit {0})
  append_message destination flags text = do
    dest ← dir_of lib destination
    call (lib.create dest (translate_flags flags) text)
    post_info lib destination

  -- `handleSearchDirectory`
  unfoldable pub search_directory : ℕ → Result Criteria → (Mail → Message) → Step D (Unit {0})
  search_directory id parsed read = do
    dir ← selected_dir
    criteria ← from_result parsed
    keys ← uids_of lib dir
    c ← container_of
    uids ← from_result (
        search is_upper lower
          (λ uid. elim (get_key uid c.uids) [
            | none ↦ err (codes "could not find message")
            | some key ↦ ok (read (record { dir = dir; uid = uid; key = key }))
          ])
          criteria (ok keys))
    post (search_results id uids)

  -- `handleMessage` for the action with an id, and whether the action is supported.
  unfoldable pub handle_message : ℕ → Action → Step D Bool
  handle_message id unsupported_action = give false
  handle_message id (configure_action source home) = handle_configure lib source home >> give true
  handle_message id connect_action = give true
  handle_message id (list_action name entries) =
      handle_list_directories lib id name entries >> give true
  handle_message id (open_action name) = handle_open_directory lib name >> give true
  handle_message id (contents_action criteria) =
      handle_fetch_directory_contents lib lower id criteria >> give true
  handle_message id (create_action name) =
      (do dir ← dir_of lib name; call (lib.init dir)) >> give true
  handle_message id (remove_action name) =
      (do dir ← dir_of lib name; call (lib.remove_all dir)) >> give true
  handle_message id (headers_action uids) = fetch_headers id uids >> give true
  handle_message id (part_action uid part) = fetch_body_part id uid part >> give true
  handle_message id (full_action uids) = fetch_full_messages id uids >> give true
  handle_message id (delete_action uids) = delete_messages id uids >> give true
  handle_message id (flag_action enable flag uids) = flag_messages id enable flag uids >> give true
  handle_message id (answered_action answered uids) =
      answered_messages id answered uids >> give true
  handle_message id (copy_action destination uids) = copy_messages destination uids >> give true
  handle_message id (append_action destination flags text) =
      append_message destination flags text >> give true
  handle_message id (search_action parsed read) = search_directory id parsed read >> give true
  handle_message id other_action = give false

  -- `handleAction`
  unfoldable pub handle_action : ℕ → Action → Step D (Unit {0})
  handle_action id action = do r ← try (handle_message id action); post (answer id r)

  -- `Run`, for what it has received.
  unfoldable pub run_event : MaildirEvent → Step D (Unit {0})
  run_event (received id a) = handle_action id a
  run_event (fs_event created) = handle_fs_event lib lower created
