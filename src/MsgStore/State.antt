-- ===== src/MsgStore/State.antt =====
-- lib/msgstore.go: the fields of `MessageStore`, and what its methods do besides changing them.
-- Callbacks are known by their address; a call of one is an effect, and its own calls of the store
-- are later operations. A closure given to `PostAction` is a `Continuation`.
use nyat.Common.{ℕ, Bool, List, [], ◌∷◌, ◌++◌, Option, none, some, Text, true, false}
use nyat.Common.Int.{ℤ, pos}
use nyat.Common.Dict.{Dict}
use nyat.Models.{Ref, Flag, DirectoryInfo, MessageInfo, SortCriterion}

-- map[uint32]interface{} and map[uint32]struct{}
abbrev pub UidSet : Type 0
UidSet = Dict ℕ (Unit {0})

-- The answers of a worker that a store reads (worker/types/messages.go).
pub data WorkerMessage : Type 0 where
  done : WorkerMessage
  error : Text → WorkerMessage
  directory_info : DirectoryInfo → WorkerMessage
  directory_contents : List ℕ → WorkerMessage
  search_results : List ℕ → WorkerMessage
  message_info : MessageInfo → WorkerMessage
  full_message : ℕ → Ref → WorkerMessage
  message_body_part : ℕ → Ref → WorkerMessage
  messages_deleted : List ℕ → WorkerMessage
  unrelated : WorkerMessage

-- The actions that a store posts to its worker.
pub data Action : Type 0 where
  fetch_message_headers : List ℕ → Action
  fetch_full_messages : List ℕ → Action
  fetch_message_body_part : ℕ → List ℕ → Action
  delete_messages : List ℕ → Action
  create_directory : Text → Bool → Action
  copy_messages : Text → List ℕ → Action
  flag_messages : Bool → Flag → List ℕ → Action
  answered_messages : Bool → List ℕ → Action
  search_directory : List Text → Action
  modify_labels : List ℕ → List Text → List Text → Action
  fetch_directory_contents : List SortCriterion → Action

pub data Continuation : Type 0 where
  caller : Option Ref → Continuation
  drop_bodies : List ℕ → Continuation
  body_part : Ref → Continuation
  then_delete : List ℕ → Option Ref → Continuation
  sort_results : Ref → Continuation
  sorting_done : Option Ref → Continuation

pub data Effect : Type 0 where
  posted : Action → Continuation → Effect
  called : Ref → WorkerMessage → Effect
  called_plain : Ref → Effect
  new_email : MessageInfo → Effect
  updated : Ref → Effect
  updated_dirs : Ref → Effect
  directory_changed : Ref → Effect

pub record MessageStore : Type 0 where
  pub deleted : UidSet
  pub dir_info : DirectoryInfo
  pub messages : Dict ℕ (Option MessageInfo)
  pub sorting : Bool
  pub uids : List ℕ
  pub selected : ℤ
  pub body_callbacks : Dict ℕ (List Ref)
  pub header_callbacks : Dict ℕ (List Ref)
  pub marked : UidSet
  pub visual_start_uid : ℕ
  pub visual_mark_mode : Bool
  pub results : List ℕ
  pub result_index : ℤ
  pub filter : Bool
  pub default_sort_criteria : List SortCriterion
  pub on_update : Option Ref
  pub on_update_dirs : Option Ref
  pub pending_bodies : UidSet
  pub pending_headers : UidSet
  pub trigger_directory_change : Option Ref
  pub dir_info_update_delay : ℕ  -- in seconds

unfoldable pub new_message_store : DirectoryInfo → List SortCriterion → Option Ref → MessageStore
new_message_store info criteria trigger = record {
  deleted = [];
  dir_info = info;
  messages = [];
  sorting = false;
  uids = [];
  selected = pos 0;
  body_callbacks = [];
  header_callbacks = [];
  marked = [];
  visual_start_uid = 0;
  visual_mark_mode = false;
  results = [];
  result_index = pos 0;
  filter = false;
  default_sort_criteria = criteria;
  on_update = none;
  on_update_dirs = none;
  pending_bodies = [];
  pending_headers = [];
  trigger_directory_change = trigger;
  dir_info_update_delay = 5;
}

abbrev pub Outcome : Type 0
Outcome = MessageStore × List Effect

unfoldable pub set_on_update : Ref → MessageStore → MessageStore
set_on_update fn s = record s { on_update = some fn }

unfoldable pub set_on_update_dirs : Ref → MessageStore → MessageStore
set_on_update_dirs fn s = record s { on_update_dirs = some fn }

-- `update`: the handlers that are told of a change.
unfoldable pub notify : MessageStore → List Effect
notify s =
    (elim s.on_update [ none ↦ [] | some f ↦ updated f ∷ [] ])
    ++ (elim s.on_update_dirs [ none ↦ [] | some f ↦ updated_dirs f ∷ [] ])

-- `Uids`
unfoldable pub shown_uids : MessageStore → List ℕ
shown_uids s = elim s.filter [ true ↦ s.results | false ↦ s.uids ]
