-- ===== src/Uidstore/Invariant.antt =====
-- lib/uidstore/uidstore.go: the two maps of a store stay inverse to one another.
use nyat.Common.{
  ℕ, ap, ◌+◌, ◌^◌, ◌≤◌, ◌<◌, ◌≡◌, refl, ◌≢◌, inl, inr, none, some, arith, Text, text_eq_iff,
  Option-cases,
}
use nyat.Common.Dict.{lookup, insert, remove, lookup-insert, lookup-remove, nat_eq, text_key_eq}
use nyat.Uidstore.{Store, new_store, get_or_insert, get_key, remove_uid}

-- The maps are inverse, and no uid is above the counter.
pub record IsConsistent (s : Store) (next_uid : ℕ) : Type 0 where
  pub forth :
      (uid : ℕ) (key : Text)
      → lookup uid s.key_by_uid ≡ some key
      → lookup key s.uid_by_key ≡ some uid
  pub back :
      (uid : ℕ) (key : Text)
      → lookup key s.uid_by_key ≡ some uid
      → lookup uid s.key_by_uid ≡ some key
  pub issued : (uid : ℕ) (key : Text) → lookup uid s.key_by_uid ≡ some key → uid ≤ next_uid

pub new_store-IsConsistent : (n : ℕ) → IsConsistent new_store n
unfolding new_store lookup
new_store-IsConsistent n = record {
  forth = λ u k h. cc;
  back = λ u k h. cc;
  issued = λ u k h. absurd (cc);
}

-- A key that is there keeps its uid and changes nothing.
pub get_or_insert_known :
    (key : Text) (s : Store) (n uid : ℕ)
    → lookup key s.uid_by_key ≡ some uid
    → get_or_insert key s n ≡ (uid, s, n)
unfolding get_or_insert
get_or_insert_known key s n uid h = ground (arith, h)

pub get_or_insert_new :
    (key : Text) (s : Store) (n : ℕ)
    → n + 1 < 2 ^ 32
    → lookup key s.uid_by_key ≡ none
    → get_or_insert key s n ≡ (
      n + 1,
      record {
        key_by_uid = insert (n + 1) key s.key_by_uid;
        uid_by_key = insert key (n + 1) s.uid_by_key;
      },
      n + 1,
    )
unfolding get_or_insert
get_or_insert_new key s n b h = ground (arith, h)

pub insert-IsConsistent :
    (key : Text) (s : Store) (n : ℕ)
    → IsConsistent s n
    → lookup key s.uid_by_key ≡ none
    → IsConsistent
        (record {
          key_by_uid = insert (n + 1) key s.key_by_uid;
          uid_by_key = insert key (n + 1) s.uid_by_key;
        })
        (n + 1)
insert-IsConsistent key s n v h = record {
  forth = λ u k e. ground (
    arith,
    lookup-insert (n + 1) u key s.key_by_uid,
    lookup-insert key k (n + 1) s.uid_by_key,
    text_eq_iff key k,
    v.forth u k,
    v.issued u k,
  );
  back = λ u k e. ground (
    arith,
    lookup-insert (n + 1) u key s.key_by_uid,
    lookup-insert key k (n + 1) s.uid_by_key,
    text_eq_iff key k,
    v.back u k,
    v.issued u k,
  );
  issued = λ u k e. ground (arith, lookup-insert (n + 1) u key s.key_by_uid, v.issued u k);
}

-- `GetOrInsert` keeps the two maps inverse to one another, as long as the counter does not wrap.
pub get_or_insert-IsConsistent :
    (key : Text) (s : Store) (n : ℕ)
    → n + 1 < 2 ^ 32
    → IsConsistent s n
    → let (uid, t, m) = get_or_insert key s n in IsConsistent t m
get_or_insert-IsConsistent key s n b v = elim (Option-cases (lookup key s.uid_by_key)) [
  | inl e ↦ rw (get_or_insert_new key s n b e) (insert-IsConsistent key s n v e)
  | inr (uid, e) ↦ rw (get_or_insert_known key s n uid e) v
]

-- What a removal does to the two maps, with the key that it finds.
remove_uid_known :
    (uid : ℕ) (s : Store) (key : Text)
    → lookup uid s.key_by_uid ≡ some key
    → remove_uid uid s
      ≡ record { key_by_uid = remove uid s.key_by_uid; uid_by_key = remove key s.uid_by_key }
unfolding remove_uid
remove_uid_known uid s key h = ground (arith, h)

remove_uid_unknown :
    (uid : ℕ) (s : Store)
    → lookup uid s.key_by_uid ≡ none
    → remove_uid uid s ≡ record { key_by_uid = remove uid s.key_by_uid; uid_by_key = s.uid_by_key }
unfolding remove_uid
remove_uid_unknown uid s h = ground (arith, h)

module _ (uid : ℕ) (s : Store) (n : ℕ) (v : IsConsistent s n) where
  removed-IsConsistent :
      (key : Text)
      → lookup uid s.key_by_uid ≡ some key
      → IsConsistent
          (record { key_by_uid = remove uid s.key_by_uid; uid_by_key = remove key s.uid_by_key })
          n
  removed-IsConsistent key h = record {
    forth = λ u k e. ground (
      arith,
      lookup-remove uid u s.key_by_uid,
      lookup-remove key k s.uid_by_key,
      text_eq_iff key k,
      v.forth u k,
      v.forth uid key,
      v.back u k,
    );
    back = λ u k e. ground (
      arith,
      lookup-remove uid u s.key_by_uid,
      lookup-remove key k s.uid_by_key,
      text_eq_iff key k,
      v.back u k,
      v.back uid key,
      v.forth u k,
    );
    issued = λ u k e. ground (arith, lookup-remove uid u s.key_by_uid, v.issued u k);
  }

  untouched-IsConsistent :
      lookup uid s.key_by_uid ≡ none
      → IsConsistent (record { key_by_uid = remove uid s.key_by_uid; uid_by_key = s.uid_by_key }) n
  untouched-IsConsistent h = record {
    forth = λ u k e. ground (arith, lookup-remove uid u s.key_by_uid, v.forth u k);
    back = λ u k e. ground (arith, lookup-remove uid u s.key_by_uid, v.back u k);
    issued = λ u k e. ground (arith, lookup-remove uid u s.key_by_uid, v.issued u k);
  }

-- `RemoveUID` keeps the two maps inverse to one another.
pub remove_uid-IsConsistent :
    (uid : ℕ) (s : Store) (n : ℕ) → IsConsistent s n → IsConsistent (remove_uid uid s) n
remove_uid-IsConsistent uid s n v = elim (Option-cases (lookup uid s.key_by_uid)) [
  | inl e ↦ rw (remove_uid_unknown uid s e) (untouched-IsConsistent uid s n v e)
  | inr (key, e) ↦ rw (remove_uid_known uid s key e) (removed-IsConsistent uid s n v key e)
]

-- After `GetOrInsert` of a key, `GetKey` of its uid gives the key back, a second `GetOrInsert`
-- returns the same uid and changes neither the store nor the counter, and the keys of all other
-- uids are as before. The store is consistent and the counter is below its last value.
pub get_key-get_or_insert :
    (key : Text) (s : Store) (n : ℕ)
    → n + 1 < 2 ^ 32
    → IsConsistent s n
    → let (uid, t, m) = get_or_insert key s n in
      (get_key uid t ≡ some key)
      × (get_or_insert key t m ≡ (uid, t, m))
      × ((other : ℕ) → other ≢ uid → get_key other t ≡ get_key other s)
get_key-get_or_insert key s n b v = elim (Option-cases (lookup key s.uid_by_key)) [
  | inl e ↦ rw (get_or_insert_new key s n b e) (fresh e)
  | inr (uid, e) ↦
      rw (get_or_insert_known key s n uid e)
        (unfold get_key in v.back uid key e, get_or_insert_known key s n uid e, λ o ne. refl)
]
  where
    grown : Store
    grown = record {
      key_by_uid = insert (n + 1) key s.key_by_uid;
      uid_by_key = insert key (n + 1) s.uid_by_key;
    }

    fresh :
        lookup key s.uid_by_key ≡ none
        → (get_key (n + 1) grown ≡ some key)
          × (get_or_insert key grown (n + 1) ≡ (n + 1, grown, n + 1))
          × ((other : ℕ) → other ≢ n + 1 → get_key other grown ≡ get_key other s)
    fresh e = (
      unfold get_key in ground (arith, lookup-insert (n + 1) (n + 1) key s.key_by_uid),
      get_or_insert_known key grown (n + 1) (n + 1)
          (ground (arith, lookup-insert key key (n + 1) s.uid_by_key, text_eq_iff key key)),
      λ o ne. unfold get_key in ground (arith, lookup-insert (n + 1) o key s.key_by_uid),
    )

-- After `RemoveUID` the uid has no key, all other uids have the key that they had, and the removed
-- key, asked for again, gets a uid above every earlier one.
pub get_key-remove_uid :
    (uid : ℕ) (s : Store) (n : ℕ) (key : Text)
    → n + 1 < 2 ^ 32
    → IsConsistent s n
    → get_key uid s ≡ some key
    → let t = remove_uid uid s in
      (get_key uid t ≡ none)
      × ((other : ℕ) → other ≢ uid → get_key other t ≡ get_key other s)
      × ((get_or_insert key t n).0 ≡ n + 1)
unfolding get_key
get_key-remove_uid uid s n key b v h = rw (remove_uid_known uid s key h) (
  ground (arith, lookup-remove uid uid s.key_by_uid),
  λ o ne. ground (arith, lookup-remove uid o s.key_by_uid),
  ap (λ r. r.0)
      (get_or_insert_new key _ n b
        (ground (arith, lookup-remove key key s.uid_by_key, text_eq_iff key key))),
)
