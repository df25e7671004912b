-- ===== src/MsgStore/Deleting.antt =====
-- lib/msgstore.go: the case `MessagesDeleted` of `Update`.
use nyat.Common.{
  ℕ, zero, suc, ◌+◌, ◌-◌, ◌≤◌, ◌<◌, ◌≡◌, refl, ap, ◌∙◌, Bool, false, not, ◌||◌, List, [], ◌∷◌, none,
  arith, length, take, select_if, mem, count, All, ==_iff, if◌then◌else◌, ltb-false,
}
use nyat.Common.Dict.{Dict, lookup, insert, remove, has, nat_eq, lookup-insert, lookup-remove}
use nyat.MsgStore.State.{MessageStore, UidSet, messages_deleted}
use nyat.MsgStore.Actions.{add_all}
use nyat.MsgStore.Update.{fill_uids, keep_results, delete_keys, update}

-- The uids of a list that are not among the deleted ones, in order.
abbrev pub spare : List ℕ → List ℕ → List ℕ
spare gone = select_if (λ uid. not (mem uid gone))

abbrev pub Distinct : List ℕ → Type 0
Distinct [] = Unit {0}
Distinct (x ∷ xs) = (mem x xs ≡ false) × Distinct xs

pub has-add_all :
    (uids : List ℕ) (uid : ℕ) (m : UidSet) → has uid (add_all uids m) ≡ (mem uid uids || has uid m)
unfolding add_all
has-add_all [] uid m = refl
has-add_all (x ∷ xs) uid m =
    ground (arith, has-add_all xs uid (insert x tt m), lookup-insert x uid tt m)

lookup-delete_keys :
    {V : Type 0} (uids : List ℕ) (uid : ℕ) (m : Dict ℕ V)
    → lookup uid (delete_keys uids m) ≡ (if mem uid uids then none else lookup uid m)
unfolding delete_keys
lookup-delete_keys [] uid m = refl
lookup-delete_keys (x ∷ xs) uid m =
    ground (arith, lookup-delete_keys xs uid (remove x m), lookup-remove x uid m)

has-gone : (gone : List ℕ) (uid : ℕ) → has uid (add_all gone []) ≡ mem uid gone
unfolding lookup
has-gone gone uid = ground (arith, has-add_all gone uid [])

keep_results-spare :
    (gone results : List ℕ) → keep_results (add_all gone []) results ≡ spare gone results
unfolding keep_results
keep_results-spare gone [] = refl
keep_results-spare gone (x ∷ xs) = ground (arith, has-gone gone x, keep_results-spare gone xs)

-- The new list takes the spared uids from the front, as many as it has room for.
fill_uids-take :
    (n : ℕ) (gone old : List ℕ)
    → n ≤ length (spare gone old)
    → fill_uids n (add_all gone []) old ≡ take n (spare gone old)
unfolding fill_uids
fill_uids-take zero gone [] le = refl
fill_uids-take zero gone (x ∷ xs) le = refl
fill_uids-take (suc n) gone [] le = elim le [ ]
fill_uids-take (suc n) gone (x ∷ xs) le =
    ground (arith, has-gone gone x, fill_uids-take (suc n) gone xs, fill_uids-take n gone xs)

take-length : (xs : List ℕ) → take (length xs) xs ≡ xs
take-length [] = refl
take-length (x ∷ xs) = ap (◌∷◌ x) (take-length xs)

length-split :
    (p : ℕ → Bool) (xs : List ℕ)
    → length (select_if p xs) + length (select_if (λ x. not (p x)) xs) ≡ length xs
length-split p [] = omega arith
length-split p (x ∷ xs) = ground (arith, length-split p xs)

length-select-cons :
    (x : ℕ) (gone uids : List ℕ)
    → mem x gone ≡ false
    → length (select_if (λ uid. mem uid (x ∷ gone)) uids)
      ≡ count x uids + length (select_if (λ uid. mem uid gone) uids)
length-select-cons x gone [] h = omega arith
length-select-cons x gone (u ∷ us) h = ground (arith, ==_iff x u, length-select-cons x gone us h)

length-select-none : (uids : List ℕ) → length (select_if (λ uid. mem uid []) uids) ≡ 0
length-select-none [] = refl
length-select-none (u ∷ us) = length-select-none us

length-gone :
    (gone uids : List ℕ)
    → Distinct gone
    → All (λ x. count x uids ≡ 1) gone
    → length (select_if (λ uid. mem uid gone) uids) ≡ length gone
length-gone [] uids d h = length-select-none uids
length-gone (x ∷ gone) uids d h =
    omega (arith, length-select-cons x gone uids d.0, h.0, length-gone gone uids d.1 h.1)

-- The store after the message, where it does not hold more uids than it has.
abbrev after_deletion : List ℕ → MessageStore → MessageStore
after_deletion gone s = record s {
  messages = delete_keys gone s.messages;
  deleted = delete_keys gone s.deleted;
  marked = delete_keys gone s.marked;
  uids = fill_uids (length s.uids - length gone) (add_all gone []) s.uids;
  results = keep_results (add_all gone []) s.results;
}

update_deleted :
    (gone : List ℕ) (s : MessageStore)
    → length gone ≤ length s.uids
    → (update (messages_deleted gone) s).0 ≡ after_deletion gone s
unfolding update
update_deleted gone s le = rw (ltb-false (length s.uids) (length gone) (omega arith)) refl

-- What a store has lost: the deleted uids and all that is kept under them.
pub record Loses (gone : List ℕ) (s t : MessageStore) : Type 0 where
  pub uids_eq : t.uids ≡ spare gone s.uids
  pub results_eq : t.results ≡ spare gone s.results
  pub messages_eq :
      (uid : ℕ) → lookup uid t.messages ≡ (if mem uid gone then none else lookup uid s.messages)
  pub deleted_eq :
      (uid : ℕ) → lookup uid t.deleted ≡ (if mem uid gone then none else lookup uid s.deleted)
  pub marked_eq :
      (uid : ℕ) → lookup uid t.marked ≡ (if mem uid gone then none else lookup uid s.marked)

-- `MessagesDeleted` with distinct uids that each stand once in the store: the list of uids and the
-- search results lose just these, in order, and so do the messages, the marks and the set of deleted
-- ones.
pub messages_deleted-Loses :
    (gone : List ℕ) (s : MessageStore)
    → Distinct gone
    → All (λ x. count x s.uids ≡ 1) gone
    → Loses gone s (update (messages_deleted gone) s).0
messages_deleted-Loses gone s d h = rw (update_deleted gone s fits) (record {
  uids_eq =
      fill_uids-take (length s.uids - length gone) gone s.uids (omega (arith, room))
      ∙ ap (λ (n : ℕ). take n (spare gone s.uids)) (omega_room room)
      ∙ take-length (spare gone s.uids);
  results_eq = keep_results-spare gone s.results;
  messages_eq = λ uid. lookup-delete_keys gone uid s.messages;
  deleted_eq = λ uid. lookup-delete_keys gone uid s.deleted;
  marked_eq = λ uid. lookup-delete_keys gone uid s.marked;
})
  where
    room : length gone + length (spare gone s.uids) ≡ length s.uids
    room = omega (arith, length-split (λ uid. mem uid gone) s.uids, length-gone gone s.uids d h)

    fits : length gone ≤ length s.uids
    fits = omega (arith, room)

    omega_room :
        length gone + length (spare gone s.uids) ≡ length s.uids
        → length s.uids - length gone ≡ length (spare gone s.uids)
    omega_room r = omega (arith, r)

spare-unknown : (x : ℕ) (uids : List ℕ) → mem x uids ≡ false → spare (x ∷ []) uids ≡ uids
spare-unknown x [] h = refl
spare-unknown x (u ∷ us) h = ground (arith, ==_iff x u, spare-unknown x us)

-- `MessagesDeleted` with a uid that the store does not have drops the last message of the list,
-- which was not deleted.
pub messages_deleted_unknown :
    (x : ℕ) (s : MessageStore)
    → mem x s.uids ≡ false
    → 0 < length s.uids
    → (update (messages_deleted (x ∷ [])) s).0.uids ≡ take (length s.uids - 1) s.uids
messages_deleted_unknown x s h some_uid =
    ap (λ (t : MessageStore). t.uids) (update_deleted (x ∷ []) s some_uid)
    ∙ fill_uids-take (length s.uids - 1) (x ∷ []) s.uids (
        let e : length (spare (x ∷ []) s.uids) ≡ length s.uids =
          ap length (spare-unknown x s.uids h) in
        omega arith)
    ∙ ap (take (length s.uids - 1)) (spare-unknown x s.uids h)
