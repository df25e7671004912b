-- ===== src/MsgStore/Update.antt =====
-- lib/msgstore.go: `Update`, the store's handler of the messages of its worker.
use nyat.Common.{
  ℕ, zero, suc, ◌-◌, Bool, true, false, not, ◌&&◌, List, [], ◌∷◌, ◌++◌, map, Option, none, some,
  length, ltb, ◌==◌, if◌then◌else◌,
}
use nyat.Common.Dict.{nat_eq, Dict, lookup, insert, remove, has}
use nyat.Models.{Ref, Flag, seen_flag, recent_flag, DirectoryInfo, MessageInfo}
use nyat.MsgStore.State.{
  MessageStore, Outcome, Effect, UidSet, WorkerMessage, directory_info, directory_contents,
  message_info, full_message, messages_deleted, called, new_email, directory_changed, notify,
}
use nyat.MsgStore.Actions.{sort, add_all}

abbrev or_else {ℓ} : {A : Type ℓ} → Option A → Option A → Option A
or_else (some a) old = some a
or_else none old = old

abbrev or_nonzero : ℕ → ℕ → ℕ
or_nonzero new old = if new == 0 then old else new

-- `merge(to, from)`
unfoldable pub merge : MessageInfo → MessageInfo → MessageInfo
merge to from = record to {
  body_structure = or_else from.body_structure to.body_structure;
  envelope = or_else from.envelope to.envelope;
  flags = from.flags;
  labels = from.labels;
  size = or_nonzero from.size to.size;
  internal_date = or_nonzero from.internal_date to.internal_date;
}

-- The new map of a `DirectoryContents`, and whether a uid is new.
unfoldable pub contents_loop :
    Dict ℕ (Option MessageInfo)
    → List ℕ
    → Dict ℕ (Option MessageInfo) × Bool
    → Dict ℕ (Option MessageInfo) × Bool
contents_loop old [] acc = acc
contents_loop old (uid ∷ uids) (m, change) = contents_loop old uids (elim (lookup uid old) [
  | some info ↦ (insert uid info m, change)
  | none ↦ (insert uid none m, true)
])

-- The outcome of a case: the new store, its effects, `update` and `directoryChange`.
pub record Change : Type 0 where
  pub store : MessageStore
  pub effects : List Effect
  pub update : Bool
  pub directory_change : Bool

unfoldable pub on_directory_contents : List ℕ → MessageStore → Change
unfolding contents_loop
on_directory_contents new_uids s =
    let (m, change) = contents_loop s.messages new_uids ([], false) in
    record {
      store = record s { messages = m; uids = new_uids };
      effects = [];
      update = true;
      directory_change = change;
    }

-- The loop over the flags: `recent` and `seen`.
unfoldable pub flag_loop : List Flag → Bool × Bool → Bool × Bool
flag_loop [] acc = acc
flag_loop (recent_flag ∷ flags) (recent, seen) = flag_loop flags (true, seen)
flag_loop (seen_flag ∷ flags) (recent, seen) = flag_loop flags (recent, true)
flag_loop (_ ∷ flags) acc = flag_loop flags acc

unfoldable pub store_info : MessageInfo → MessageStore → MessageStore
unfolding merge
store_info info s = elim (lookup info.uid s.messages) [
  | none ↦ record s { messages = insert info.uid (some info) s.messages }
  | some none ↦ record s { messages = insert info.uid (some info) s.messages }
  | some (some existing) ↦ record s {
    messages = insert info.uid (some (merge existing info)) s.messages;
  }
]

abbrev has_value {ℓ} : {A : Type ℓ} → Option A → Bool
has_value none = false
has_value (some a) = true

abbrev pub calls : Option (List Ref) → WorkerMessage → List Effect
calls none msg = []
calls (some cbs) msg = map (λ cb. called cb msg) cbs

unfoldable pub on_message_info : MessageInfo → MessageStore → Change
unfolding flag_loop store_info
on_message_info info s =
    let t = store_info info s in
    let (recent, seen) = flag_loop info.flags (false, false) in
    let email = if not seen && recent then new_email info ∷ [] else [] in
    if has_value info.envelope && has info.uid t.pending_headers
    then record {
      store = record t { pending_headers = remove info.uid t.pending_headers };
      effects = email ++ calls (lookup info.uid t.header_callbacks) (message_info info);
      update = true;
      directory_change = false;
    }
    else record { store = t; effects = email; update = true; directory_change = false }

unfoldable pub on_full_message : ℕ → Ref → MessageStore → Change
on_full_message uid reader s =
    if has uid s.pending_bodies
    then record {
      store = record s {
        pending_bodies = remove uid s.pending_bodies;
        body_callbacks = remove uid s.body_callbacks;
      };
      effects = calls (lookup uid s.body_callbacks) (full_message uid reader);
      update = false;
      directory_change = false;
    }
    else record { store = s; effects = []; update = false; directory_change = false }

-- `uids := make([]uint32, n)`, filled from the uids that are not deleted, up to `n` of them.
unfoldable pub fill_uids : ℕ → UidSet → List ℕ → List ℕ
fill_uids zero gone old = []
fill_uids (suc n) gone [] = 0 ∷ fill_uids n gone []
fill_uids (suc n) gone (uid ∷ old) =
    let skip = fill_uids (suc n) gone old in
    let keep = uid ∷ fill_uids n gone old in if has uid gone then skip else keep

unfoldable pub keep_results : UidSet → List ℕ → List ℕ
keep_results gone [] = []
keep_results gone (res ∷ results) =
    let rest = keep_results gone results in if has res gone then rest else res ∷ rest

unfoldable pub delete_keys : {V : Type 0} → List ℕ → Dict ℕ V → Dict ℕ V
delete_keys [] m = m
delete_keys (uid ∷ uids) m = delete_keys uids (remove uid m)

unfoldable pub on_messages_deleted : List ℕ → MessageStore → Change
unfolding fill_uids keep_results delete_keys
on_messages_deleted gone s =
    if ltb (length s.uids) (length gone)
    then record { store = s; effects = []; update = true; directory_change = false }
    else record {
      store = record s {
        messages = delete_keys gone s.messages;
        deleted = delete_keys gone s.deleted;
        marked = delete_keys gone s.marked;
        uids = fill_uids (length s.uids - length gone) (add_all gone []) s.uids;
        results = keep_results (add_all gone []) s.results;
      };
      effects = [];
      update = true;
      directory_change = false;
    }

unfoldable pub on_directory_info : DirectoryInfo → MessageStore → Change
on_directory_info info s =
    let (t, effects) = sort s.default_sort_criteria none (record s { dir_info = info }) in
    record { store = t; effects = effects; update = true; directory_change = false }

-- The `switch` of `Update`.
unfoldable pub handle : WorkerMessage → MessageStore → Change
unfolding on_directory_info on_directory_contents on_message_info on_full_message
    on_messages_deleted
handle (directory_info info) s = on_directory_info info s
handle (directory_contents uids) s = on_directory_contents uids s
handle (message_info info) s = on_message_info info s
handle (full_message uid reader) s = on_full_message uid reader s
handle (messages_deleted uids) s = on_messages_deleted uids s
handle _ s = record { store = s; effects = []; update = false; directory_change = false }

-- `Update`
unfoldable pub update : WorkerMessage → MessageStore → Outcome
unfolding handle
update msg s =
    let c = handle msg s in
    (
      c.store,
      c.effects
          ++ (if c.update then notify c.store else [])
          ++ (if c.directory_change
              then (elim c.store.trigger_directory_change [
                | none ↦ []
                | some f ↦ directory_changed f ∷ []
              ])
              else []),
    )
