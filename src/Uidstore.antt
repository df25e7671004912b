-- ===== src/Uidstore.antt =====
-- lib/uidstore/uidstore.go: uids for the string keys of a mail backend. The counter `nextUID` is
-- shared by all stores, so it is an argument and a result of each call. The mutex makes each call
-- one step.
pub mod Invariant
pub mod Worlds
use nyat.Common.{ℕ, ◌+◌, ◌%◌, ◌^◌, List, [], Option, none, some, Text}
use nyat.Common.Dict.{Dict, lookup, insert, remove, nat_eq, text_key_eq}

pub record Store : Type 0 where
  pub key_by_uid : Dict ℕ Text
  pub uid_by_key : Dict Text ℕ

abbrev pub u32 : ℕ → ℕ
u32 n = n % 2 ^ 32

unfoldable pub new_store : Store
new_store = record { key_by_uid = []; uid_by_key = [] }

-- The uid of the key, the store and the counter.
unfoldable pub get_or_insert : Text → Store → ℕ → ℕ × Store × ℕ
get_or_insert key s next_uid = elim (lookup key s.uid_by_key) [
  | some uid ↦ (uid, s, next_uid)
  | none ↦ (
    u32 (next_uid + 1),
    record {
      key_by_uid = insert (u32 (next_uid + 1)) key s.key_by_uid;
      uid_by_key = insert key (u32 (next_uid + 1)) s.uid_by_key;
    },
    u32 (next_uid + 1),
  )
]

unfoldable pub get_key : ℕ → Store → Option Text
get_key uid s = lookup uid s.key_by_uid

unfoldable pub remove_uid : ℕ → Store → Store
remove_uid uid s = record {
  key_by_uid = remove uid s.key_by_uid;
  uid_by_key = elim (lookup uid s.key_by_uid) [
    | some key ↦ remove key s.uid_by_key
    | none ↦ s.uid_by_key
  ];
}
