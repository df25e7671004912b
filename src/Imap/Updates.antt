-- ===== src/Imap/Updates.antt =====
-- worker/imap/worker.go: the updates that the server sends by itself, and the dispatch of actions.
use nyat.Common.{
  Result, err, ok, ℕ, Bool, true, false, List, [], ◌∷◌, ◌++◌, Option, none, some, Text, get_elem?,
  text_eq, ◌==◌, if◌then◌else◌, ◌>>=◌,
}
use nyat.Models.{
  Post, error, unsupported, directory_info, message_info, messages_deleted, Ref, Flag,
  DirectoryInfo, SortCriterion,
}
use nyat.Imap.{ImapWorker, ImapMessage, MailboxStatus, seq_index, expunge}
use nyat.Imap.Fetching.{header_info, header_posts, part_posts, full_posts, fetch_messages}
use nyat.Imap.Handlers.{
  create_directory, remove_directory, copy_messages, append_message, list_directories, Mailbox,
  open_directory, fetch_directory_contents, search_directory, delete_messages, flag_messages,
  failed, refetch, answer,
}
use nyat.Imap.Connect.{Url, Answers, configure, connect}

pub data Update : Type 0 where
  mailbox_update : MailboxStatus → Update
  message_update : ImapMessage → Update
  expunge_update : ℕ → Update
  other_update : Update

unfoldable pub status_info : MailboxStatus → DirectoryInfo
status_info s = record {
  name = s.name;
  flags = s.flags;
  read_only = s.read_only;
  exists = s.messages;
  recent = s.recent;
  unseen = s.unseen;
  accurate_counts = false;
}

-- `handleImapUpdate`
unfoldable pub handle_update : (Flag → Text) → Update → ImapWorker → Option (ImapWorker × List Post)
unfolding status_info header_info seq_index expunge
handle_update flag_name (mailbox_update status) w = some (
  (if text_eq w.selected.name status.name then record w { selected = status } else w),
  directory_info (status_info status) ∷ [],
)
handle_update flag_name (message_update m) w = do
  uid ← if m.uid == 0 then get_elem? w.seq_map (seq_index m.seq_num) else some m.uid
  some (w, message_info none (header_info flag_name (record m { uid = uid }) none) ∷ [])
handle_update flag_name (expunge_update seq) w = do
  (uid, shorter) ← expunge seq w.seq_map
  some (record w { seq_map = shorter }, messages_deleted none (uid ∷ []) ∷ [])
handle_update flag_name other_update w = some (w, [])

-- The actions, each with what the calls of the library answer.
pub data Action : Type 0 where
  unsupported_action : Action
  configure_action : Result Url → (folders : List Text) → Action
  connect_action : Answers → Action
  list_action : List Mailbox → Option Text → Action
  open_action : Option Text → Action
  contents_action : List SortCriterion → Result Bool → Result (List ℕ) → Result (List ℕ) → Action
  create_action : (quiet : Bool) → Option Text → Action
  remove_action : (quiet : Bool) → Option Text → Action
  headers_action : List ImapMessage → (ImapMessage → Result Ref) → Option Text → Action
  part_action :
      List ImapMessage
      → (ImapMessage → Result Ref)
      → (ImapMessage → Result Ref)
      → Option Text
      → Action
  full_action : List ImapMessage → (ImapMessage → Option Ref) → Option Text → Action
  delete_action : Option Text → List ℕ → Option Text → Action
  flag_action : List ℕ → Option Text → Action
  answered_action : List ℕ → Option Text → Action
  copy_action : Option Text → Action
  append_action : Option Text → Action
  search_action : Option Text → Result (List ℕ) → Action
  other_action : Action

-- The state, the messages posted, and the uids whose headers are to be fetched again.
abbrev pub Handled : Type 0
Handled = ImapWorker × (List Post × List ℕ)

abbrev pub posting : Option (ImapWorker × List Post) → Option Handled
posting none = none
posting (some (w, posts)) = some (w, (posts, []))

abbrev pub flagged : ℕ → List ℕ → Option Text → ImapWorker → Option Handled
flagged id uids outcome w = elim (flag_messages id uids outcome) [
  | failed p ↦ some (w, (p ∷ [], []))
  | refetch us ↦ some (w, ([], us))
]

abbrev pub idle_posts : Bool → Option Text → List Post
idle_posts false idle_failed = []
idle_posts true none = []
idle_posts true (some e) = error none e ∷ []

module _ (flag_name : Flag → Text) (no_select : Text) where
  -- `handleMessage` for the action with the given id, less the pause of idling, and with what
  -- `Run` posts of the error that it returns; an action that is not known is answered so.
  unfoldable pub handle_action : ℕ → Action → ImapWorker → Option Handled
  unfolding configure connect create_directory remove_directory copy_messages append_message
      list_directories open_directory fetch_directory_contents search_directory delete_messages
      flag_messages header_posts part_posts full_posts fetch_messages
  handle_action id unsupported_action w = some (w, ([], []))
  handle_action id (configure_action (err e) folders) w = some (w, (error (some id) e ∷ [], []))
  handle_action id (configure_action (ok u) folders) w =
      some (record w { config = configure u folders w.config }, ([], []))
  handle_action id (connect_action answers) w =
      some (w, (answer id (connect answers w.config).1, []))
  handle_action id (list_action mailboxes r) w =
      some (w, (list_directories no_select id mailboxes r, []))
  handle_action id (open_action r) w = posting (some (open_directory id r w))
  handle_action id (contents_action criteria supported sorted searched) w =
      posting (some (fetch_directory_contents id criteria supported sorted searched w))
  handle_action id (create_action quiet r) w = some (w, (create_directory id quiet r, []))
  handle_action id (remove_action quiet r) w = some (w, (remove_directory id quiet r, []))
  handle_action id (headers_action messages read_header r) w =
      posting (fetch_messages id (λ m. header_posts flag_name id m (read_header m)) messages r w)
  handle_action id (part_action messages read_header new_part r) w =
      posting (
        fetch_messages id (λ m. part_posts flag_name id m (read_header m) (new_part m)) messages r
          w)
  handle_action id (full_action messages get_body r) w =
      posting (fetch_messages id (λ m. full_posts flag_name id m (get_body m)) messages r w)
  handle_action id (delete_action stored seqs expunged) w =
      posting (delete_messages id stored seqs expunged w)
  handle_action id (flag_action uids r) w = flagged id uids r w
  handle_action id (answered_action uids r) w = flagged id uids r w
  handle_action id (copy_action r) w = some (w, (copy_messages id r, []))
  handle_action id (append_action r) w = some (w, (append_message id r, []))
  handle_action id (search_action parsed found) w = some (w, (search_directory id parsed found, []))
  handle_action id other_action w = some (w, (unsupported id ∷ [], []))

  -- The whole of `handleMessage`: an error that ends the idling is posted first.
  unfoldable pub handle_message : ℕ → Option Text → Action → ImapWorker → Option Handled
  unfolding handle_action
  handle_message id idle_failed action w = do
    (w', (posts, uids)) ← handle_action id action w
    some (w', (idle_posts w.idle idle_failed ++ posts, uids))
