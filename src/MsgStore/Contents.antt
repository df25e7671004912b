-- ===== src/MsgStore/Contents.antt =====
-- lib/msgstore.go: the case `DirectoryContents` of `Update`.
use nyat.Common.{
  ℕ, ◌≡◌, refl, ap, Bool, true, false, ◌||◌, List, [], ◌∷◌, ◌++◌, Option, none, some, arith, mem,
  ==_iff, inl, inr, Option-cases, if◌then◌else◌,
}
use nyat.Common.Dict.{Dict, lookup, insert, has, nat_eq, lookup-insert}
use nyat.Models.{MessageInfo}
use nyat.MsgStore.State.{MessageStore, Effect, directory_contents, directory_changed, notify}
use nyat.MsgStore.Update.{contents_loop, update}

abbrev pub Infos : Type 0
Infos = Dict ℕ (Option MessageInfo)

-- Whether a uid of the list has no entry.
abbrev pub any_new : List ℕ → Infos → Bool
any_new [] m = false
any_new (uid ∷ uids) m = let rest = any_new uids m in if has uid m then rest else true

-- The entry that a uid had, or an empty one.
abbrev pub kept_info : ℕ → Infos → Option MessageInfo
kept_info uid old = elim (lookup uid old) [ none ↦ none | some info ↦ info ]

lookup-contents_loop :
    (old : Infos) (uids : List ℕ) (acc : Infos × Bool) (uid : ℕ)
    → lookup uid (contents_loop old uids acc).0
      ≡ (if mem uid uids then some (kept_info uid old) else lookup uid acc.0)
unfolding contents_loop
lookup-contents_loop old [] acc uid = refl
lookup-contents_loop old (u ∷ uids) (m, change) uid = elim (Option-cases (lookup u old)) [
  | inl e ↦ ground (
    arith,
    e,
    lookup-contents_loop old uids (insert u none m, true) uid,
    lookup-insert u uid none m,
    ==_iff u uid,
  )
  | inr (info, e) ↦ ground (
    arith,
    e,
    lookup-contents_loop old uids (insert u info m, change) uid,
    lookup-insert u uid info m,
    ==_iff u uid,
  )
]

change-contents_loop :
    (old : Infos) (uids : List ℕ) (acc : Infos × Bool)
    → (contents_loop old uids acc).1 ≡ (any_new uids old || acc.1)
unfolding contents_loop
change-contents_loop old [] acc = refl
change-contents_loop old (u ∷ uids) (m, change) = elim (Option-cases (lookup u old)) [
  | inl e ↦ ground (arith, e, change-contents_loop old uids (insert u none m, true))
  | inr (info, e) ↦ ground (arith, e, change-contents_loop old uids (insert u info m, change))
]

-- The handler of directory changes, if there is one.
abbrev pub change_effect : Option ℕ → Bool → List Effect
change_effect none changed = []
change_effect (some f) changed = if changed then directory_changed f ∷ [] else []

change_effect-eq :
    (o : Option ℕ) (changed is_new : Bool)
    → changed ≡ (is_new || false)
    → (if changed then (elim o [ none ↦ [] | some f ↦ directory_changed f ∷ [] ]) else [])
      ≡ change_effect o is_new
change_effect-eq none changed is_new e = ground arith
change_effect-eq (some f) changed is_new e = ground arith

-- What a store is after a listing of its directory.
pub record Lists (listed : List ℕ) (s t : MessageStore) (effects : List Effect) : Type 0 where
  pub uids_eq : t.uids ≡ listed
  pub messages_eq :
      (uid : ℕ)
      → lookup uid t.messages ≡ (if mem uid listed then some (kept_info uid s.messages) else none)
  pub effects_eq :
      effects ≡ notify t ++ change_effect s.trigger_directory_change (any_new listed s.messages)

-- `DirectoryContents`: the store has the listed uids, in that order, and entries for just these. An
-- entry that was there is kept with what is known of the message, and a new one is empty. The update
-- handlers run, and then the handler of directory changes if and only if a listed uid is new.
pub directory_contents-Lists :
    (listed : List ℕ) (s : MessageStore)
    → let (t, effects) = update (directory_contents listed) s in Lists listed s t effects
unfolding update
directory_contents-Lists listed s = record {
  uids_eq = refl;
  messages_eq = λ uid. unfold lookup in lookup-contents_loop s.messages listed ([], false) uid;
  effects_eq = ap (◌++◌ (notify (update (directory_contents listed) s).0)) (
      change_effect-eq s.trigger_directory_change _ (any_new listed s.messages)
        (change-contents_loop s.messages listed ([], false)));
}
