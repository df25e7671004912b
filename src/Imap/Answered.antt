-- ===== src/Imap/Answered.antt =====
-- worker/imap: each action is answered once, by whatever its handler posts.
use nyat.Common.{
  Result, err, ok, ℕ, true, false, List, [], ◌∷◌, Option, none, some, Text, ==_refl, ◌≡◌, refl,
  arith, subst, ◌>>=◌, Bool-cases, inl, inr,
}
use nyat.Models.{Post, done, error, messages_deleted, Ref, Flag}
use nyat.Imap.{ImapWorker, ImapMessage}
use nyat.Imap.Translate.{translate_sort_criterions}
use nyat.Imap.Fetching.{header_posts, part_posts, full_posts}
use nyat.Imap.Handlers.{
  create_directory, remove_directory, copy_messages, append_message, list_loop, list_directories,
  answer, Mailbox, can_open, open_directory, fetch_uids, with_uids, fetch_directory_contents,
  search_directory, expunge_loop, delete_messages, flag_messages,
}
use nyat.Imap.Updates.{
  Action, unsupported_action, configure_action, connect_action, list_action, open_action,
  contents_action, create_action, remove_action, headers_action, part_action, full_action,
  delete_action, flag_action, answered_action, copy_action, append_action, search_action,
  other_action, handle_action, posting,
}
use nyat.Imap.Connect.{connect}
use nyat.Imap.Answers.{finals, finals-append, expected, Quiet, Answers, fetch_messages-Answers}

header_posts-Quiet :
    (n : Flag → Text) (id : ℕ) (m : ImapMessage) (r : Result Ref) → Quiet id (header_posts n id m r)
unfolding header_posts
header_posts-Quiet n id m (err e) = tt
header_posts-Quiet n id m (ok h) = refl

part_posts-Quiet :
    (n : Flag → Text) (id : ℕ) (m : ImapMessage) (r s : Result Ref)
    → Quiet id (part_posts n id m r s)
unfolding part_posts
part_posts-Quiet n id m (err e) s = tt
part_posts-Quiet n id m (ok h) (err e) = tt
part_posts-Quiet n id m (ok h) (ok b) = refl

full_posts-Quiet :
    (n : Flag → Text) (id : ℕ) (m : ImapMessage) (o : Option Ref) → Quiet id (full_posts n id m o)
unfolding full_posts
full_posts-Quiet n id m none = tt
full_posts-Quiet n id m (some b) = refl

list_loop-finals :
    (no_select : Text) (id : ℕ) (ms : List Mailbox) → finals id (list_loop no_select id ms) ≡ 0
unfolding list_loop
list_loop-finals no_select id [] = refl
list_loop-finals no_select id ((name, attributes) ∷ ms) =
    elim (Bool-cases (can_open no_select attributes)) [
      | inl e ↦ rw e (list_loop-finals no_select id ms)
      | inr e ↦ rw e (list_loop-finals no_select id ms)
    ]

answer-finals : (id : ℕ) (r : Option Text) → finals id (answer id r) ≡ 1
answer-finals id none = ground (arith, ==_refl id)
answer-finals id (some e) = ground (arith, ==_refl id)

with_uids-Answers :
    (id : ℕ) (w : ImapWorker) (r : Result (List ℕ))
    → Answers id 1 (posting (some (with_uids id w r)))
unfolding with_uids
with_uids-Answers id w (err e) = answer-finals id (some e)
with_uids-Answers id w (ok uids) = answer-finals id none

open_directory-Answers :
    (id : ℕ) (r : Option Text) (w : ImapWorker)
    → Answers id 1 (posting (some (open_directory id r w)))
unfolding open_directory
open_directory-Answers id none w = answer-finals id none
open_directory-Answers id (some e) w = answer-finals id (some e)

deleted-Answers :
    (id : ℕ) (o : Option (List ℕ × List ℕ)) (r : Option Text) (w : ImapWorker)
    → Answers id 1 (
        posting (do
          (deleted, left) ← o
          some (
            record w { seq_map = left },
            (elim r [
              | some e ↦ error (some id) e ∷ []
              | none ↦ messages_deleted (some id) deleted ∷ done id ∷ []
            ]),
          )))
deleted-Answers id none r w = tt
deleted-Answers id (some (deleted, left)) none w = answer-finals id none
deleted-Answers id (some (deleted, left)) (some e) w = answer-finals id (some e)

delete_messages-Answers :
    (id : ℕ) (stored : Option Text) (seqs : List ℕ) (r : Option Text) (w : ImapWorker)
    → Answers id 1 (posting (delete_messages id stored seqs r w))
unfolding delete_messages
delete_messages-Answers id (some e) seqs r w = answer-finals id (some e)
delete_messages-Answers id none seqs r w = deleted-Answers id (expunge_loop seqs w.seq_map) r w

module _ (flag_name : Flag → Text) (no_select : Text) where
  handle_action-Answers :
      (id : ℕ) (action : Action) (w : ImapWorker)
      → Answers id (expected action) (handle_action flag_name no_select id action w)
  unfolding handle_action create_directory remove_directory copy_messages append_message
      list_directories fetch_directory_contents search_directory flag_messages
  handle_action-Answers id unsupported_action w = refl
  handle_action-Answers id (configure_action (err e) folders) w = answer-finals id (some e)
  handle_action-Answers id (configure_action (ok u) folders) w = refl
  handle_action-Answers id (connect_action a) w = answer-finals id (connect a w.config).1
  handle_action-Answers id (list_action ms r) w = omega (
    arith,
    finals-append id (list_loop no_select id ms) (answer id r),
    list_loop-finals no_select id ms,
    answer-finals id r,
  )
  handle_action-Answers id (open_action r) w = open_directory-Answers id r w
  handle_action-Answers id (contents_action cs sup sorted searched) w =
      with_uids-Answers id w (fetch_uids sup (translate_sort_criterions cs) sorted searched)
  handle_action-Answers id (create_action quiet none) w = answer-finals id none
  handle_action-Answers id (create_action true (some e)) w = refl
  handle_action-Answers id (create_action false (some e)) w = answer-finals id (some e)
  handle_action-Answers id (remove_action quiet none) w = answer-finals id none
  handle_action-Answers id (remove_action true (some e)) w = refl
  handle_action-Answers id (remove_action false (some e)) w = answer-finals id (some e)
  handle_action-Answers id (headers_action ms read r) w =
      fetch_messages-Answers id _ ms r w (λ m. header_posts-Quiet flag_name id m (read m))
  handle_action-Answers id (part_action ms read new r) w =
      fetch_messages-Answers id _ ms r w (λ m. part_posts-Quiet flag_name id m (read m) (new m))
  handle_action-Answers id (full_action ms get r) w =
      fetch_messages-Answers id _ ms r w (λ m. full_posts-Quiet flag_name id m (get m))
  handle_action-Answers id (delete_action stored seqs r) w =
      delete_messages-Answers id stored seqs r w
  handle_action-Answers id (flag_action uids none) w = refl
  handle_action-Answers id (flag_action uids (some e)) w = answer-finals id (some e)
  handle_action-Answers id (answered_action uids none) w = refl
  handle_action-Answers id (answered_action uids (some e)) w = answer-finals id (some e)
  handle_action-Answers id (copy_action r) w = answer-finals id r
  handle_action-Answers id (append_action r) w = answer-finals id r
  handle_action-Answers id (search_action (some e) found) w = answer-finals id (some e)
  handle_action-Answers id (search_action none (err e)) w = answer-finals id (some e)
  handle_action-Answers id (search_action none (ok uids)) w = refl
  handle_action-Answers id other_action w = ground (arith, ==_refl id)

  -- An action that is handled without a panic is answered by Done, Error or Unsupported exactly
  -- once, but for those that are not answered at all: a configuration whose source can be read, a
  -- directory that is quietly created or removed when that fails, a search that succeeds, and the
  -- Unsupported message; and for a change of flags that succeeds, where the headers are fetched again
  -- and the callback then answers.
  pub handle_action-finals :
      (id : ℕ) (action : Action) (w w' : ImapWorker) (posts : List Post) (uids : List ℕ)
      → handle_action flag_name no_select id action w ≡ some (w', (posts, uids))
      → finals id posts ≡ expected action
  handle_action-finals id action w w' posts uids e =
      subst (Answers id (expected action)) e (handle_action-Answers id action w)
