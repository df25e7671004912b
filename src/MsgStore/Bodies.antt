-- ===== src/MsgStore/Bodies.antt =====
-- lib/msgstore.go: full messages, moved messages and toggled marks.
use mathlib.Core.List.{append-nil}
use nyat.Common.{
  ℕ, Bool, true, false, not, ◌||◌, List, [], ◌∷◌, ◌++◌, Option, none, some, Text, mem, ◌==◌,
  if◌then◌else◌, ◌≡◌, refl, arith,
}
use nyat.Common.Dict.{nat_eq, Dict, lookup, remove, has, lookup-insert, lookup-remove}
use nyat.Models.{Ref}
use nyat.MsgStore.State.{
  MessageStore, WorkerMessage, full_message, done, error, copy_messages, delete_messages,
  then_delete, Effect, posted, notify,
}
use nyat.MsgStore.Actions.{move, resume, add_all}
use nyat.MsgStore.Select.{toggle_mark, is_marked}
use nyat.MsgStore.Update.{update, calls}
use nyat.MsgStore.Fetching.{waiting}
use nyat.MsgStore.Answers.{call_each}
use nyat.MsgStore.Deleting.{has-add_all}

calls-eq :
    (o : Option (List Ref)) (msg : WorkerMessage)
    → calls o msg ≡ call_each (elim o [ none ↦ [] | some list ↦ list ]) msg
calls-eq none msg = refl
calls-eq (some cbs) msg = refl

full_message_pending :
    (uid : ℕ) (reader : Ref) (s : MessageStore)
    → has uid s.pending_bodies ≡ true
    → update (full_message uid reader) s ≡ (
      record s {
        pending_bodies = remove uid s.pending_bodies;
        body_callbacks = remove uid s.body_callbacks;
      },
      call_each (waiting uid s.body_callbacks) (full_message uid reader),
    )
unfolding update
full_message_pending uid reader s h = ground (
  arith,
  h,
  append-nil (calls (lookup uid s.body_callbacks) (full_message uid reader)),
  calls-eq (lookup uid s.body_callbacks) (full_message uid reader),
)

full_message_unasked :
    (uid : ℕ) (reader : Ref) (s : MessageStore)
    → has uid s.pending_bodies ≡ false
    → update (full_message uid reader) s ≡ (s, [])
unfolding update
full_message_unasked uid reader s h = ground (arith, h)

pending_after : (uid : ℕ) (m : Dict ℕ (Unit {0})) → has uid (remove uid m) ≡ false
pending_after uid m = ground (arith, lookup-remove uid uid m)

waiting_after :
    (uid other : ℕ) (m : Dict ℕ (List Ref))
    → waiting other (remove uid m) ≡ (if uid == other then [] else waiting other m)
waiting_after uid other m = ground (arith, lookup-remove uid other m)

-- What the answer to a request for a full message leaves.
pub record Delivers (uid : ℕ) (msg : WorkerMessage) (s t : MessageStore) (effects : List Effect)
    : Type 0 where
  pub calls_made : effects ≡ call_each (waiting uid s.body_callbacks) msg
  pub settled : has uid t.pending_bodies ≡ false
  pub callbacks_left :
      (other : ℕ)
      → waiting other t.body_callbacks
        ≡ (if uid == other then [] else waiting other s.body_callbacks)
  pub rest_eq :
      t ≡ record s { pending_bodies = t.pending_bodies; body_callbacks = t.body_callbacks }
  pub again : update msg t ≡ (t, [])

-- A `FullMessage` that was asked for calls each callback that waits for its uid, once and in order,
-- and takes them off the list, with those of other uids left; the uid is no longer under way, and
-- nothing else of the store changes. The same message again calls nothing and changes nothing.
pub full_message-Delivers :
    (uid : ℕ) (reader : Ref) (s : MessageStore)
    → has uid s.pending_bodies ≡ true
    → let (t, effects) = update (full_message uid reader) s in
      Delivers uid (full_message uid reader) s t effects
full_message-Delivers uid reader s h = rw (full_message_pending uid reader s h) (record {
  calls_made = refl;
  settled = pending_after uid s.pending_bodies;
  callbacks_left = λ other. waiting_after uid other s.body_callbacks;
  rest_eq = refl;
  again = full_message_unasked uid reader _ (pending_after uid s.pending_bodies);
})

-- The uids that posted actions delete.
abbrev pub deletes : List Effect → List (List ℕ)
deletes [] = []
deletes (posted (delete_messages uids) k ∷ es) = uids ∷ deletes es
deletes (e ∷ es) = deletes es

abbrev pub is_done_msg : WorkerMessage → Bool
is_done_msg done = true
is_done_msg _ = false

deletes-notify : (s : MessageStore) → deletes (notify s) ≡ []
unfolding notify
deletes-notify s = ground arith

move_posts :
    (uids : List ℕ) (dest : Text) (create_dest : Bool) (cb : Option Ref) (s : MessageStore)
    → deletes (move uids dest create_dest cb s).1 ≡ []
unfolding move
move_posts uids dest true cb s = deletes-notify (record s { deleted = add_all uids s.deleted })
move_posts uids dest false cb s = deletes-notify (record s { deleted = add_all uids s.deleted })

resume_after_copy :
    (uids : List ℕ) (cb : Ref) (msg : WorkerMessage) (s : MessageStore)
    → (effects : List Effect) × (resume (then_delete uids (some cb)) msg s ≡ some (s, effects))
      × (deletes effects ≡ (if is_done_msg msg then uids ∷ [] else []))
unfolding resume
resume_after_copy uids cb done s = (_, refl, refl)
resume_after_copy uids cb (error e) s = (_, refl, refl)
resume_after_copy uids cb msg s = ([], refl, refl)

-- The copy that a move posts, and what it posts besides.
move_copies :
    (uids : List ℕ) (dest : Text) (create_dest : Bool) (cb : Option Ref) (s : MessageStore)
    → (before after : List Effect) × ((move uids dest create_dest cb s).1
        ≡ before ++ posted (copy_messages dest uids) (then_delete uids cb) ∷ after)
unfolding move
move_copies uids dest true cb s = (_ ∷ [], _, refl)
move_copies uids dest false cb s = ([], _, refl)

move_deleted :
    (uids : List ℕ) (dest : Text) (create_dest : Bool) (cb : Option Ref) (s : MessageStore)
    (uid : ℕ)
    → has uid (move uids dest create_dest cb s).0.deleted ≡ (mem uid uids || has uid s.deleted)
unfolding move
move_deleted uids dest create_dest cb s uid = has-add_all uids uid s.deleted

-- `Move` posts a copy and no deletion. With a callback, the answer to the copy posts the deletion of
-- the messages if it says that the copy is done, and any other answer, an error included, deletes
-- nothing. The messages count as deleted in the store as soon as `Move` is called.
pub resume-move :
    (uids : List ℕ) (dest : Text) (create_dest : Bool) (cb : Ref) (s : MessageStore)
    (msg : WorkerMessage)
    → let (t, effects) = move uids dest create_dest (some cb) s in
      ((before after : List Effect) × (effects
          ≡ before ++ posted (copy_messages dest uids) (then_delete uids (some cb)) ∷ after))
      × (deletes effects ≡ [])
      × ((later : List Effect) × (resume (then_delete uids (some cb)) msg t ≡ some (t, later))
          × (deletes later ≡ (if is_done_msg msg then uids ∷ [] else [])))
      × ((uid : ℕ) → has uid t.deleted ≡ (mem uid uids || has uid s.deleted))
resume-move uids dest create_dest cb s msg = (
  move_copies uids dest create_dest (some cb) s,
  move_posts uids dest create_dest (some cb) s,
  resume_after_copy uids cb msg _,
  move_deleted uids dest create_dest (some cb) s,
)

toggled :
    (uid other : ℕ) (s : MessageStore)
    → s.visual_mark_mode ≡ false
    → is_marked other (toggle_mark uid s)
      ≡ (if uid == other then not (is_marked uid s) else is_marked other s)
unfolding toggle_mark
toggled uid other s v =
    ground (arith, v, lookup-insert uid other tt s.marked, lookup-remove uid other s.marked)

toggle_mark_mode :
    (uid : ℕ) (s : MessageStore)
    → s.visual_mark_mode ≡ false
    → (toggle_mark uid s).visual_mark_mode ≡ false
unfolding toggle_mark
toggle_mark_mode uid s v = ground (arith, v)

-- Outside the visual mode `ToggleMark` changes the mark of its message and of no other, and a second
-- one undoes the first.
pub toggle_mark-toggle_mark :
    (uid other : ℕ) (s : MessageStore)
    → s.visual_mark_mode ≡ false
    → (is_marked other (toggle_mark uid s)
        ≡ (if uid == other then not (is_marked uid s) else is_marked other s))
      × (is_marked other (toggle_mark uid (toggle_mark uid s)) ≡ is_marked other s)
toggle_mark-toggle_mark uid other s v = (
  toggled uid other s v,
  ground (
    arith,
    toggled uid other s v,
    toggled uid uid s v,
    toggled uid other (toggle_mark uid s) (toggle_mark_mode uid s v),
  ),
)
