-- ===== src/Worker.antt =====
-- worker/types/worker.go: the two queues between the user interface and a backend, and the callbacks
-- that wait for answers. A message is its id, the id of what it answers, whether it is a `Done`, and
-- an address for the rest. The counter `lastId` is shared by all workers; logging is left out, and
-- a full channel, on which the sender waits, is a queue that grows.
pub mod Callbacks
pub mod Registry
use nyat.Common.{
  ℕ, suc, ◌+◌, ◌%◌, ◌^◌, Bool, true, false, List, [], ◌∷◌, ◌++◌, Option, none, some, if◌then◌else◌,
}
use nyat.Common.Dict.{Dict, lookup, insert, remove, nat_eq}
use nyat.Models.{Ref}

pub record Message : Type 0 where
  pub id : ℕ
  pub in_response_to : Option ℕ
  pub is_done : Bool
  pub content : Ref

pub record Worker : Type 0 where
  pub actions : List Message
  pub messages : List Message
  pub action_callbacks : Dict ℕ Ref
  pub message_callbacks : Dict ℕ Ref

unfoldable pub new_worker : Worker
new_worker = record { actions = []; messages = []; action_callbacks = []; message_callbacks = [] }

-- `atomic.AddInt64(&lastId, 1)`, as a bit pattern.
unfoldable pub next_id : ℕ → ℕ
next_id last_id = (last_id + 1) % 2 ^ 64

abbrev register : ℕ → Option Ref → Dict ℕ Ref → Dict ℕ Ref
register id none cbs = cbs
register id (some cb) cbs = insert id cb cbs

-- The worker and the counter afterwards.
unfoldable pub post_action : Message → Option Ref → Worker → ℕ → Worker × ℕ
unfolding next_id
post_action msg cb w last_id =
    let id = next_id last_id in
    (
      record w {
        actions = w.actions ++ record msg { id = id } ∷ [];
        action_callbacks = register id cb w.action_callbacks;
      },
      id,
    )

unfoldable pub post_message : Message → Option Ref → Worker → ℕ → Worker × ℕ
unfolding next_id
post_message msg cb w last_id =
    let id = next_id last_id in
    (
      record w {
        messages = w.messages ++ record msg { id = id } ∷ [];
        message_callbacks = register id cb w.message_callbacks;
      },
      id,
    )

-- What an answer does to the callbacks that wait: the calls made, and the callbacks left.
unfoldable pub deliver : Message → Dict ℕ Ref → List (Ref × Message) × Dict ℕ Ref
deliver msg cbs = elim msg.in_response_to [
  | none ↦ ([], cbs)
  | some id ↦ elim (lookup id cbs) [
    | none ↦ ([], cbs)
    | some cb ↦ ((cb, msg) ∷ [], if msg.is_done then remove id cbs else cbs)
  ]
]

unfoldable pub process_message : Message → Worker → List (Ref × Message) × Worker
unfolding deliver
process_message msg w =
    let (calls, cbs) = deliver msg w.action_callbacks in
    (calls, record w { action_callbacks = cbs })

unfoldable pub process_action : Message → Worker → List (Ref × Message) × Worker
unfolding deliver
process_action msg w =
    let (calls, cbs) = deliver msg w.message_callbacks in
    (calls, record w { message_callbacks = cbs })
