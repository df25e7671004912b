-- ===== src/Maildir/Acting.antt =====
-- worker/maildir: what the steps keep, the actions on messages keep, and so every action.
use nyat.Common.{ℕ, Bool, true, false, List, [], ◌∷◌, Option, none, some, Text, Result, ok, err}
use nyat.Models.{
  error, message_info, message_body_part, full_message, messages_deleted, search_results,
  MessageInfo, Ref, Flag,
}
use nyat.MsgSort.Sorted.{HasEnvelope}
use nyat.Maildir.{Criteria, Message, flag_replied}
use nyat.Maildir.Steps.{Library, Mail, MaildirWorker, Step, ◌>>=◌, ◌>>◌, try, give, fail}
use nyat.Maildir.Container.{read_info}
use nyat.Maildir.Worker.{
  Action, unsupported_action, configure_action, connect_action, list_action, open_action,
  contents_action, create_action, remove_action, headers_action, part_action, full_action,
  delete_action, flag_action, answered_action, copy_action, append_action, search_action,
  other_action, post_selected_info,
}
use nyat.Maildir.Actions.{
  selected_message, post_result, fetch_headers, fetch_body_part, fetch_full_messages, post_deleted,
  delete_messages, flag_one, answered_messages, flag_loop, flag_messages, copy_messages,
  append_message, search_directory, handle_message,
}
use nyat.Maildir.Kept.{
  IsKept, Leaves, panics, gives, fails, Keeps, Any, tried, gave, had, then-Keeps, fail-Keeps,
  call-Keeps, post-Keeps, container_of-Keeps, selected_dir-Keeps, dir_of-Keeps, uids_of-Keeps,
  message-Keeps,
}
use nyat.Maildir.Keeping.{
  post_info-Keeps, post_selected_info-Keeps, handle_configure-Keeps, handle_list_directories-Keeps,
  handle_open_directory-Keeps, set_one_flag-Keeps, body_part-Keeps, delete_all-Keeps,
  copy_all-Keeps,
}
use nyat.Maildir.Handling.{read_info-Keeps, fetch_contents-Keeps}

module _ {D : Type 0} {N : Type 0} {I : MaildirWorker D → Type 0} (k : IsKept N I) (lib : Library D)
    (is_upper : ℕ → Bool) (lower : ℕ → ℕ) (reader_of : Text → Ref) where
  selected_message-Keeps :
      (uid : ℕ) → Keeps N I Any (selected_message lib is_upper lower reader_of uid)
  unfolding selected_message
  selected_message-Keeps uid =
      then-Keeps (selected_dir-Keeps k) (λ dir. message-Keeps k lib dir uid)

  plain : (m : Step D MessageInfo) → Keeps N I HasEnvelope m → Keeps N I Any m
  plain m h = record { run = λ w i. forget (h.run w i) }
    where
      forget :
          {o : Option (Result MessageInfo × MaildirWorker D)}
          → Leaves N I HasEnvelope o
          → Leaves N I Any o
      forget (panics h) = panics h
      forget (fails i) = fails i
      forget (gives q i) = gives tt i

  post_result-Keeps :
      (id : ℕ) (r : Result MessageInfo)
      → Keeps N I Any (post_result lib is_upper lower reader_of id r)
  unfolding post_result
  post_result-Keeps id (err e) = post-Keeps k (error (some id) e) tt
  post_result-Keeps id (ok info) = post-Keeps k (message_info (some id) info) tt

  info_of : (m : Step D Mail) → Keeps N I Any m → Keeps N I Any (try (m >>= read_info lib))
  info_of m h = tried _ (then-Keeps h (λ mail. plain _ (read_info-Keeps k lib mail)))

  fetch_headers-Keeps :
      (id : ℕ) (uids : List ℕ) → Keeps N I Any (fetch_headers lib is_upper lower reader_of id uids)
  unfolding fetch_headers
  fetch_headers-Keeps id [] = gave tt
  fetch_headers-Keeps id (uid ∷ uids) =
      then-Keeps (info_of _ (selected_message-Keeps uid))
        (λ r. then-Keeps (post_result-Keeps id r) (λ _. fetch_headers-Keeps id uids))

  fetch_body_part-Keeps :
      (id uid : ℕ) (part : List ℕ)
      → Keeps N I Any (fetch_body_part lib is_upper lower reader_of id uid part)
  unfolding fetch_body_part
  fetch_body_part-Keeps id uid part = then-Keeps (selected_message-Keeps uid) (λ m.
      then-Keeps (body_part-Keeps k lib part m)
        (λ t. post-Keeps k (message_body_part id uid (reader_of t)) tt))

  fetch_full-Keeps :
      (id : ℕ) (uids : List ℕ)
      → Keeps N I Any (fetch_full_messages lib is_upper lower reader_of id uids)
  unfolding fetch_full_messages
  fetch_full-Keeps id [] = gave tt
  fetch_full-Keeps id (uid ∷ uids) = then-Keeps (selected_message-Keeps uid) (λ m.
      then-Keeps (call-Keeps k _) (λ t.
        then-Keeps (post-Keeps k (full_message id uid (reader_of t)) tt)
          (λ _. fetch_full-Keeps id uids)))

  post_deleted-Keeps :
      (id : ℕ) (uids : List ℕ) → Keeps N I Any (post_deleted lib is_upper lower reader_of id uids)
  unfolding post_deleted
  post_deleted-Keeps id [] = gave tt
  post_deleted-Keeps id (uid ∷ uids) = post-Keeps k (messages_deleted (some id) (uid ∷ uids)) tt

  after_deletion :
      (o : Option Text)
      → Keeps N I {A = Unit {0}} Any (elim o [ some e ↦ fail e | none ↦ post_selected_info lib ])
  after_deletion (some e) = fail-Keeps e
  after_deletion none = post_selected_info-Keeps k lib

  delete_messages-Keeps :
      (id : ℕ) (uids : List ℕ)
      → Keeps N I Any (delete_messages lib is_upper lower reader_of id uids)
  unfolding delete_messages
  delete_messages-Keeps id uids = then-Keeps (selected_dir-Keeps k) (λ dir.
      then-Keeps (delete_all-Keeps k lib dir uids)
        (λ p. then-Keeps (post_deleted-Keeps id p.0) (λ _. after_deletion p.1)))

  flag_one-Keeps :
      (flag : ℕ) (enable : Bool) (uid : ℕ)
      → Keeps N I Any (flag_one lib is_upper lower reader_of flag enable uid)
  unfolding flag_one
  flag_one-Keeps flag enable uid = then-Keeps (selected_message-Keeps uid) (λ m.
      then-Keeps (set_one_flag-Keeps k lib flag enable m) (λ _. plain _ (read_info-Keeps k lib m)))

  after_flag :
      (r : Result MessageInfo)
      → Keeps N I {A = Unit {0}} Any (elim r [ err e ↦ give tt | ok info ↦ post_selected_info lib ])
  after_flag (err e) = gave tt
  after_flag (ok info) = post_selected_info-Keeps k lib

  answered_messages-Keeps :
      (id : ℕ) (answered : Bool) (uids : List ℕ)
      → Keeps N I Any (answered_messages lib is_upper lower reader_of id answered uids)
  unfolding answered_messages
  answered_messages-Keeps id answered [] = gave tt
  answered_messages-Keeps id answered (uid ∷ uids) =
      then-Keeps (tried _ (flag_one-Keeps flag_replied answered uid)) (λ r.
        then-Keeps (post_result-Keeps id r)
          (λ _. then-Keeps (after_flag r) (λ _. answered_messages-Keeps id answered uids)))

  flag_loop-Keeps :
      (id flag : ℕ) (enable : Bool) (uids : List ℕ)
      → Keeps N I Any (flag_loop lib is_upper lower reader_of id flag enable uids)
  unfolding flag_loop
  flag_loop-Keeps id flag enable [] = gave tt
  flag_loop-Keeps id flag enable (uid ∷ uids) =
      then-Keeps (tried _ (flag_one-Keeps flag enable uid))
        (λ r. then-Keeps (post_result-Keeps id r) (λ _. flag_loop-Keeps id flag enable uids))

  flag_messages-Keeps :
      (id : ℕ) (enable : Bool) (flag : Flag) (uids : List ℕ)
      → Keeps N I Any (flag_messages lib is_upper lower reader_of id enable flag uids)
  unfolding flag_messages
  flag_messages-Keeps id enable flag uids =
      then-Keeps (flag_loop-Keeps id _ enable uids) (λ _. post_selected_info-Keeps k lib)

  copy_messages-Keeps :
      (destination : Text) (uids : List ℕ)
      → Keeps N I Any (copy_messages lib is_upper lower reader_of destination uids)
  unfolding copy_messages
  copy_messages-Keeps destination uids = then-Keeps (dir_of-Keeps k lib destination) (λ dest.
      then-Keeps (selected_dir-Keeps k) (λ src.
        then-Keeps (copy_all-Keeps k lib dest src uids) (λ _.
          then-Keeps (post_selected_info-Keeps k lib) (λ _. post_info-Keeps k lib destination))))

  append_message-Keeps :
      (destination : Text) (flags : List Flag) (text : Ref)
      → Keeps N I Any (append_message lib is_upper lower reader_of destination flags text)
  unfolding append_message
  append_message-Keeps destination flags text =
      then-Keeps (dir_of-Keeps k lib destination)
        (λ dest. then-Keeps (call-Keeps k _) (λ _. post_info-Keeps k lib destination))

  search_directory-Keeps :
      (id : ℕ) (c : Result Criteria) (read : Mail → Message)
      → Keeps N I Any (search_directory lib is_upper lower reader_of id c read)
  unfolding search_directory
  search_directory-Keeps id c read = then-Keeps (selected_dir-Keeps k) (λ dir.
      then-Keeps (had c) (λ criteria. then-Keeps (uids_of-Keeps k lib dir) (λ keys.
        then-Keeps (container_of-Keeps k)
          (λ container. then-Keeps (had _) (λ uids. post-Keeps k (search_results id uids) tt)))))

  and_supported : (m : Step D (Unit {0})) → Keeps N I Any m → Keeps N I Any (m >> give true)
  and_supported m h = then-Keeps h (λ _. gave true)

  -- Every action keeps what the steps keep.
  pub handle_message-Keeps :
      (id : ℕ) (a : Action) → Keeps N I Any (handle_message lib is_upper lower reader_of id a)
  unfolding handle_message
  handle_message-Keeps id unsupported_action = gave false
  handle_message-Keeps id (configure_action source home) =
      and_supported _ (handle_configure-Keeps k lib source home)
  handle_message-Keeps id connect_action = gave true
  handle_message-Keeps id (list_action name entries) =
      and_supported _ (handle_list_directories-Keeps k lib id name entries)
  handle_message-Keeps id (open_action name) =
      and_supported _ (handle_open_directory-Keeps k lib name)
  handle_message-Keeps id (contents_action cs) =
      and_supported _ (fetch_contents-Keeps k lib lower id cs)
  handle_message-Keeps id (create_action name) =
      and_supported _ (then-Keeps (dir_of-Keeps k lib name) (λ dir. call-Keeps k _))
  handle_message-Keeps id (remove_action name) =
      and_supported _ (then-Keeps (dir_of-Keeps k lib name) (λ dir. call-Keeps k _))
  handle_message-Keeps id (headers_action uids) = and_supported _ (fetch_headers-Keeps id uids)
  handle_message-Keeps id (part_action uid part) =
      and_supported _ (fetch_body_part-Keeps id uid part)
  handle_message-Keeps id (full_action uids) = and_supported _ (fetch_full-Keeps id uids)
  handle_message-Keeps id (delete_action uids) = and_supported _ (delete_messages-Keeps id uids)
  handle_message-Keeps id (flag_action enable flag uids) =
      and_supported _ (flag_messages-Keeps id enable flag uids)
  handle_message-Keeps id (answered_action answered uids) =
      and_supported _ (answered_messages-Keeps id answered uids)
  handle_message-Keeps id (copy_action destination uids) =
      and_supported _ (copy_messages-Keeps destination uids)
  handle_message-Keeps id (append_action destination flags text) =
      and_supported _ (append_message-Keeps destination flags text)
  handle_message-Keeps id (search_action c read) =
      and_supported _ (search_directory-Keeps id c read)
  handle_message-Keeps id other_action = gave false
