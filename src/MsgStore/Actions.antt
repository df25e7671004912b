-- ===== src/MsgStore/Actions.antt =====
-- lib/msgstore.go: the methods that post an action, and what the closures that they leave with the
-- worker do when an answer comes.
use nyat.Common.{ℕ, Bool, true, false, List, [], ◌∷◌, ◌++◌, Option, none, some, Text}
use nyat.Common.Dict.{nat_eq, Dict, insert, remove}
use nyat.Models.{Ref, Flag, SortCriterion}
use nyat.MsgSort.SortBy.{sort_by}
use nyat.MsgStore.State.{
  MessageStore, Outcome, Effect, Continuation, WorkerMessage, done, error, search_results,
  message_body_part, posted, called, called_plain, caller, drop_bodies, body_part, then_delete,
  sort_results, sorting_done, delete_messages, create_directory, copy_messages, flag_messages,
  answered_messages, search_directory, modify_labels, fetch_directory_contents, UidSet, notify,
}

-- `for _, uid := range uids { set[uid] = ... }`
unfoldable pub add_all : List ℕ → UidSet → UidSet
add_all [] m = m
add_all (uid ∷ uids) m = add_all uids (insert uid tt m)

unfoldable pub delete : List ℕ → Option Ref → MessageStore → Outcome
delete uids cb s =
    let t = record s { deleted = add_all uids s.deleted } in
    (t, posted (delete_messages uids) (caller cb) ∷ notify t)

unfoldable pub copy : List ℕ → Text → Bool → Option Ref → MessageStore → Outcome
copy uids dest create_dest cb s = (
  s,
  (elim create_dest [ true ↦ posted (create_directory dest true) (caller cb) ∷ [] | false ↦ [] ])
      ++ posted (copy_messages dest uids) (caller cb) ∷ [],
)

unfoldable pub move : List ℕ → Text → Bool → Option Ref → MessageStore → Outcome
move uids dest create_dest cb s =
    let t = record s { deleted = add_all uids s.deleted } in
    (
      t,
      (elim create_dest [
        | true ↦ posted (create_directory dest true) (caller none) ∷ []
        | false ↦ []
      ])
          ++ (posted (copy_messages dest uids) (then_delete uids cb) ∷ notify t),
    )

unfoldable pub set_flag : List ℕ → Flag → Bool → Option Ref → MessageStore → Outcome
set_flag uids flag enable cb s = (s, posted (flag_messages enable flag uids) (caller cb) ∷ [])

unfoldable pub answered : List ℕ → Bool → Option Ref → MessageStore → Outcome
answered uids is_answered cb s = (s, posted (answered_messages is_answered uids) (caller cb) ∷ [])

unfoldable pub change_labels : List ℕ → List Text → List Text → Option Ref → MessageStore → Outcome
change_labels uids add rem cb s = (s, posted (modify_labels uids add rem) (caller cb) ∷ [])

unfoldable pub search_messages : List Text → Ref → MessageStore → Outcome
search_messages args cb s = (s, posted (search_directory args) (sort_results cb) ∷ [])

unfoldable pub sort : List SortCriterion → Option Ref → MessageStore → Outcome
sort criteria cb s =
    (record s { sorting = true }, posted (fetch_directory_contents criteria) (sorting_done cb) ∷ [])

-- `for _, uid := range toFetch { delete(store.bodyCallbacks, uid) }`
unfoldable pub remove_all : List ℕ → Dict ℕ (List Ref) → Dict ℕ (List Ref)
remove_all [] m = m
remove_all (uid ∷ uids) m = remove_all uids (remove uid m)

-- A callback that is nil is not called.
abbrev call : Option Ref → WorkerMessage → List Effect
call none msg = []
call (some cb) msg = called cb msg ∷ []

-- What runs in the store when the worker answers `msg` to a posted action. `none` is a call of a
-- nil callback.
unfoldable pub resume : Continuation → WorkerMessage → MessageStore → Option Outcome
resume (caller cb) msg s = some (s, call cb msg)
resume (drop_bodies uids) (error e) s =
    some (record s { body_callbacks = remove_all uids s.body_callbacks }, [])
resume (drop_bodies uids) msg s = some (s, [])
resume (body_part cb) (message_body_part uid r) s =
    some (s, called cb (message_body_part uid r) ∷ [])
resume (body_part cb) msg s = some (s, [])
resume (then_delete uids none) (error e) s = none
resume (then_delete uids (some cb)) (error e) s = some (s, called cb (error e) ∷ [])
resume (then_delete uids cb) done s = some (s, posted (delete_messages uids) (caller cb) ∷ [])
resume (then_delete uids cb) msg s = some (s, [])
resume (sort_results cb) (search_results uids) s =
    some (s, called cb (search_results (sort_by uids s.uids)) ∷ [])
resume (sort_results cb) msg s = some (s, [])
resume (sorting_done none) msg s = some (record s { sorting = false }, [])
resume (sorting_done (some cb)) msg s = some (record s { sorting = false }, called_plain cb ∷ [])
