-- ===== src/Imap/Selected.antt =====
-- worker/imap: the field `selected`, which starts as a status without a name.
use nyat.Common.{
  Result, err, ok, ℕ, Bool, true, false, List, [], ◌++◌, Option, none, some, Text, text_eq,
  text_eq_iff, get_elem?, ◌==◌, if◌then◌else◌, ◌≡◌, ◌≢◌, refl, arith, sym, ◌∙◌, subst, ◌>>=◌,
}
use nyat.Models.{Post, Flag}
use nyat.Imap.{
  ImapWorker, ImapMessage, MailboxStatus, new_imap_worker, no_status, seq_index, expunge,
}
use nyat.Imap.Fetching.{Proc, fetch_messages, fetch_loop}
use nyat.Imap.Handlers.{
  fetch_directory_contents, fetch_uids, with_uids, delete_messages, expunge_loop, open_directory,
  flag_messages,
}
use nyat.Imap.Translate.{translate_sort_criterions}
use nyat.Imap.Updates.{
  mailbox_update, message_update, expunge_update, handle_update, Action, unsupported_action,
  configure_action, connect_action, list_action, open_action, contents_action, create_action,
  remove_action, headers_action, part_action, full_action, delete_action, flag_action,
  answered_action, copy_action, append_action, search_action, other_action, handle_message,
  handle_action, Handled, posting, flagged, idle_posts,
}

-- The states that the worker comes to by the updates of mailboxes with a name and by the actions.
pub data Reach (flag_name : Flag → Text) (no_select : Text) : ImapWorker → Type 0 where
  start : Reach flag_name no_select new_imap_worker
  status_step :
      {w w' : ImapWorker} {posts : List Post} (s : MailboxStatus)
      → s.name ≢ []
      → Reach flag_name no_select w
      → handle_update flag_name (mailbox_update s) w ≡ some (w', posts)
      → Reach flag_name no_select w'
  message_step :
      {w w' : ImapWorker} {posts : List Post} (m : ImapMessage)
      → Reach flag_name no_select w
      → handle_update flag_name (message_update m) w ≡ some (w', posts)
      → Reach flag_name no_select w'
  expunge_step :
      {w w' : ImapWorker} {posts : List Post} (seq : ℕ)
      → Reach flag_name no_select w
      → handle_update flag_name (expunge_update seq) w ≡ some (w', posts)
      → Reach flag_name no_select w'
  action_step :
      {w w' : ImapWorker} {posts : List Post} {uids : List ℕ} (id : ℕ) (idle_failed : Option Text)
      (action : Action)
      → Reach flag_name no_select w
      → handle_message flag_name no_select id idle_failed action w ≡ some (w', (posts, uids))
      → Reach flag_name no_select w'

-- An outcome that is a panic or leaves the status s selected.
abbrev Keeps : {A : Type 0} → MailboxStatus → Option (ImapWorker × A) → Type 0
Keeps s none = Unit
Keeps s (some (w, _)) = w.selected ≡ s

bind-Keeps :
    {A B : Type 0} (s : MailboxStatus) (o : Option A) (f : A → Option (ImapWorker × B))
    → ((a : A) → Keeps s (f a))
    → Keeps s (o >>= f)
bind-Keeps s none f h = tt
bind-Keeps s (some a) f h = h a

fetch_messages-Keeps :
    (id : ℕ) (proc : Proc) (ms : List ImapMessage) (r : Option Text) (w : ImapWorker)
    → Keeps w.selected (fetch_messages id proc ms r w)
unfolding fetch_messages
fetch_messages-Keeps id proc ms r w =
    bind-Keeps w.selected (fetch_loop proc ms w.seq_map) _ (λ a. refl)

delete_messages-Keeps :
    (id : ℕ) (stored : Option Text) (seqs : List ℕ) (r : Option Text) (w : ImapWorker)
    → Keeps w.selected (delete_messages id stored seqs r w)
unfolding delete_messages
delete_messages-Keeps id (some e) seqs r w = refl
delete_messages-Keeps id none seqs r w =
    bind-Keeps w.selected (expunge_loop seqs w.seq_map) _ (λ a. refl)

with_uids-selected :
    (id : ℕ) (w : ImapWorker) (r : Result (List ℕ)) → (with_uids id w r).0.selected ≡ w.selected
unfolding with_uids
with_uids-selected id w (err e) = refl
with_uids-selected id w (ok uids) = refl

posting-Keeps :
    (s : MailboxStatus) (o : Option (ImapWorker × List Post)) → Keeps s o → Keeps s (posting o)
posting-Keeps s none h = tt
posting-Keeps s (some (w, posts)) h = h

open_directory-selected :
    (id : ℕ) (r : Option Text) (w : ImapWorker) → (open_directory id r w).0.selected ≡ w.selected
unfolding open_directory
open_directory-selected id none w = refl
open_directory-selected id (some e) w = refl

flagged-Keeps :
    (id : ℕ) (uids : List ℕ) (r : Option Text) (w : ImapWorker)
    → Keeps w.selected (flagged id uids r w)
unfolding flag_messages
flagged-Keeps id uids none w = refl
flagged-Keeps id uids (some e) w = refl

module _ (flag_name : Flag → Text) (no_select : Text) where
  handle_action-Keeps :
      (id : ℕ) (action : Action) (w : ImapWorker)
      → Keeps w.selected (handle_action flag_name no_select id action w)
  unfolding handle_action fetch_directory_contents
  handle_action-Keeps id unsupported_action w = refl
  handle_action-Keeps id (configure_action (err e) folders) w = refl
  handle_action-Keeps id (configure_action (ok u) folders) w = refl
  handle_action-Keeps id (connect_action a) w = refl
  handle_action-Keeps id (list_action ms r) w = refl
  handle_action-Keeps id (open_action r) w = open_directory-selected id r w
  handle_action-Keeps id (contents_action cs sup sorted searched) w =
      with_uids-selected id w (fetch_uids sup (translate_sort_criterions cs) sorted searched)
  handle_action-Keeps id (create_action quiet r) w = refl
  handle_action-Keeps id (remove_action quiet r) w = refl
  handle_action-Keeps id (headers_action ms read r) w =
      posting-Keeps w.selected _ (fetch_messages-Keeps id _ ms r w)
  handle_action-Keeps id (part_action ms read new r) w =
      posting-Keeps w.selected _ (fetch_messages-Keeps id _ ms r w)
  handle_action-Keeps id (full_action ms get r) w =
      posting-Keeps w.selected _ (fetch_messages-Keeps id _ ms r w)
  handle_action-Keeps id (delete_action stored seqs r) w =
      posting-Keeps w.selected _ (delete_messages-Keeps id stored seqs r w)
  handle_action-Keeps id (flag_action uids r) w = flagged-Keeps id uids r w
  handle_action-Keeps id (answered_action uids r) w = flagged-Keeps id uids r w
  handle_action-Keeps id (copy_action r) w = refl
  handle_action-Keeps id (append_action r) w = refl
  handle_action-Keeps id (search_action parsed found) w = refl
  handle_action-Keeps id other_action w = refl

  idle_post-Keeps :
      (s : MailboxStatus) (o : Option Handled) (f : List Post × List ℕ → List Post × List ℕ)
      → Keeps s o
      → Keeps s (do (w, x) ← o; some (w, f x))
  idle_post-Keeps s none f h = tt
  idle_post-Keeps s (some (w, x)) f h = h

  handle_message-Keeps :
      (id : ℕ) (idle_failed : Option Text) (action : Action) (w : ImapWorker)
      → Keeps w.selected (handle_message flag_name no_select id idle_failed action w)
  unfolding handle_message
  handle_message-Keeps id idle_failed action w =
      idle_post-Keeps w.selected (handle_action flag_name no_select id action w)
        (λ x. (idle_posts w.idle idle_failed ++ x.0, x.1)) (handle_action-Keeps id action w)

  kept :
      {A : Type 0} (s : MailboxStatus) (o : Option (ImapWorker × A)) (w : ImapWorker) (a : A)
      → Keeps s o
      → o ≡ some (w, a)
      → w.selected ≡ s
  kept s o w a h e = subst (Keeps s) e h

  other_name : (s : MailboxStatus) → s.name ≢ [] → text_eq [] s.name ≡ false
  other_name s h = ground (arith, h, text_eq_iff [] s.name)

  unchanged :
      (b : Bool) (s : MailboxStatus) (w : ImapWorker)
      → b ≡ false
      → (if b then record w { selected = s } else w).selected ≡ w.selected
  unchanged true s w h = cc
  unchanged false s w h = refl

  status-Keeps :
      (s : MailboxStatus) (w : ImapWorker)
      → s.name ≢ []
      → w.selected ≡ no_status
      → Keeps w.selected (handle_update flag_name (mailbox_update s) w)
  unfolding handle_update
  status-Keeps s w h e =
      unchanged (text_eq w.selected.name s.name) s w
        (subst (λ z. text_eq z.name s.name ≡ false) (sym e) (other_name s h))

  message-Keeps :
      (m : ImapMessage) (w : ImapWorker)
      → Keeps w.selected (handle_update flag_name (message_update m) w)
  unfolding handle_update
  message-Keeps m w =
      bind-Keeps w.selected
        (if m.uid == 0 then get_elem? w.seq_map (seq_index m.seq_num) else some m.uid) _ (λ a. refl)

  expunge-Keeps :
      (seq : ℕ) (w : ImapWorker) → Keeps w.selected (handle_update flag_name (expunge_update seq) w)
  unfolding handle_update
  expunge-Keeps seq w = bind-Keeps w.selected (expunge seq w.seq_map) _ (λ a. refl)

  -- In every state of the worker `selected` is the empty status that it starts with: a directory
  -- that is opened does not set it, and since it has no name no update of a mailbox that has one
  -- does.
  pub Reach-selected : (w : ImapWorker) → Reach flag_name no_select w → w.selected ≡ no_status
  unfolding new_imap_worker
  Reach-selected w start = refl
  Reach-selected w (status_step {w = v} {posts = posts} s h r e) =
      let q = Reach-selected v r in kept v.selected _ w posts (status-Keeps s v h q) e ∙ q
  Reach-selected w (message_step {w = v} {posts = posts} m r e) =
      kept v.selected _ w posts (message-Keeps m v) e ∙ Reach-selected v r
  Reach-selected w (expunge_step {w = v} {posts = posts} seq r e) =
      kept v.selected _ w posts (expunge-Keeps seq v) e ∙ Reach-selected v r
  Reach-selected w (action_step {w = v} {posts = posts} {uids = uids} id idle_failed action r e) =
      kept v.selected _ w (posts, uids) (handle_message-Keeps id idle_failed action v) e
      ∙ Reach-selected v r
