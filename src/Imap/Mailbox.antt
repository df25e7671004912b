-- ===== src/Imap/Mailbox.antt =====
-- worker/imap: what the worker makes of the updates and messages of the server, in a session and
-- after another directory has been opened.
use nyat.Common.{
  Result, err, ok, ℕ, suc, ◌≤◌, ◌<◌, false, List, [], ◌∷◌, ◌++◌, Option, none, some, Text, length,
  All, get_elem?, ltb-false, delete_at, set, ◌≡◌, refl, arith, ap, sym, ◌∙◌, subst,
}
use nyat.Models.{Post, done, messages_deleted, directory_contents, Flag, SortCriterion}
use nyat.Imap.{ImapWorker, ImapMessage, put_uid, expunge, seq_index, take_at}
use nyat.Imap.Fetching.{Proc, Fetched, fetch_loop, proceed}
use nyat.Imap.Handlers.{fetch_directory_contents, grow_map, fetch_uids, with_uids}
use nyat.Imap.Updates.{expunge_update, handle_update}
use nyat.Imap.SeqMap.{Agrees, Known, expunge-Agrees, put_uid-Agrees}

-- A message that the server sends of a mailbox.
pub record IsOf (mailbox : List ℕ) (m : ImapMessage) : Type 0 where
  pub place : ℕ
  pub bound : place < 4294967296
  pub number : m.seq_num ≡ suc place
  pub uid_there : get_elem? mailbox place ≡ some m.uid

-- A loop that has not panicked and has left a map of the mailbox.
abbrev pub FetchedOf : List ℕ → Option Fetched → Type 0
FetchedOf mailbox o =
    (last : List ℕ) × (posts : List Post) × (failed : Option Text) × (o
      ≡ some (last, posts, failed))
    × Agrees mailbox last

-- The loop over messages that the server sends does not panic, whatever is made of them, and leaves
-- a map of the mailbox.
pub fetch_loop-Agrees :
    (mailbox : List ℕ) (proc : Proc) (messages : List ImapMessage) (seq_map : List ℕ)
    → All (IsOf mailbox) messages
    → Agrees mailbox seq_map
    → FetchedOf mailbox (fetch_loop proc messages seq_map)
unfolding fetch_loop proceed
fetch_loop-Agrees mailbox proc [] seq_map h a = (seq_map, [], none, refl, a)
fetch_loop-Agrees mailbox proc (m ∷ messages) seq_map h a =
    let i = (h.0).place in
    let (e, q) = put_uid-Agrees mailbox seq_map i m.uid a (h.0).bound (h.0).uid_there in
    let (last, posts, failed, f, r) =
      fetch_loop-Agrees mailbox proc messages (set seq_map i m.uid) h.1 q in
    let g : put_uid m.seq_num m.uid seq_map ≡ some (set seq_map i m.uid) =
      subst (λ z. put_uid z m.uid seq_map ≡ some (set seq_map i m.uid)) (sym (h.0).number) e in
    let c : fetch_loop proc (m ∷ messages) seq_map
        ≡ proceed (proc m) (set seq_map i m.uid) (some (last, posts, failed)) =
      rw (g, f) refl in
    elim (proc m)
        as (λ z.
          fetch_loop proc (m ∷ messages) seq_map
            ≡ proceed z (set seq_map i m.uid) (some (last, posts, failed))
          → FetchedOf mailbox (fetch_loop proc (m ∷ messages) seq_map)) [
            | err x ↦ λ k. (set seq_map i m.uid, [], some x, k, q)
            | ok ps ↦ λ k. (last, ps ++ posts, failed, k, r)
          ]
      c

kept_map :
    (n : ℕ) (seq_map other : List ℕ)
    → seq_map ≡ other
    → n ≤ length other
    → grow_map n seq_map ≡ other
unfolding grow_map
kept_map n seq_map other e h =
    subst (λ z. grow_map n z ≡ other) (sym e) (rw (ltb-false (length other) n (omega arith)) refl)

first_expunged : (u : ℕ) (us : List ℕ) → expunge 1 (u ∷ us) ≡ some (u, us)
unfolding expunge seq_index take_at
first_expunged u us = refl

module _ (flag_name : Flag → Text) where
  -- An update that the server sends when it expunges the message at a place of the mailbox makes
  -- the worker report the uid of the message, or 0 if it has never been told it, and leaves it
  -- a map of the new mailbox.
  pub handle_update-Agrees :
      (mailbox : List ℕ) (i u : ℕ) (w : ImapWorker)
      → Agrees mailbox w.seq_map
      → i < 4294967296
      → get_elem? mailbox i ≡ some u
      → (v : ℕ) × (handle_update flag_name (expunge_update (suc i)) w
          ≡ some
              (record w { seq_map = delete_at i w.seq_map }, messages_deleted none (v ∷ []) ∷ []))
        × Known u v
        × Agrees (delete_at i mailbox) (delete_at i w.seq_map)
  unfolding handle_update
  handle_update-Agrees mailbox i u w a b h =
      let (v, e, k, q) = expunge-Agrees mailbox w.seq_map i u a b h in (v, rw e refl, k, q)

  -- After a directory with as many or fewer messages has been opened and its contents have been
  -- fetched, the worker still has the map of the directory before: when the server then expunges
  -- the first message, the worker reports the first uid of the other directory.
  pub stale_seq_map :
      (id u : ℕ) (us uids : List ℕ) (criteria : List SortCriterion) (sorted : Result (List ℕ))
      (w : ImapWorker)
      → w.seq_map ≡ u ∷ us
      → length uids ≤ length (u ∷ us)
      → (w' : ImapWorker) × (fetch_directory_contents id criteria (ok false) sorted (ok uids) w
          ≡ (w', directory_contents (some id) uids ∷ done id ∷ []))
        × (handle_update flag_name (expunge_update 1) w'
            ≡ some (record w' { seq_map = us }, messages_deleted none (u ∷ []) ∷ []))
  unfolding fetch_directory_contents handle_update fetch_uids with_uids
  stale_seq_map id u us uids criteria sorted w e h =
      let q : expunge 1 (grow_map (length uids) w.seq_map) ≡ some (u, us) =
        ap (expunge 1) (kept_map (length uids) w.seq_map (u ∷ us) e h) ∙ first_expunged u us in
      (record w { seq_map = grow_map (length uids) w.seq_map }, refl, rw q refl)
