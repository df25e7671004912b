-- ===== src/Uidstore/Worlds.antt =====
-- lib/uidstore/uidstore.go: several stores over one counter. Each call is one step, since a store
-- locks its mutex and the counter is incremented atomically.
use nyat.Common.{
  ℕ, ◌+◌, ◌^◌, ◌≤◌, ◌<◌, ◌≡◌, sym, ◌∙◌, ◌⊎◌, inl, inr, List, [], ◌∷◌, ◌++◌, some, Text, arith,
  get_elem?, set, get_elem?-set, get_elem?-append, Option-cases,
}
use native.Mathlib.Decide.{dec_lt}
use nyat.Common.Dict.{lookup, insert, lookup-insert, lookup-remove, nat_eq, text_key_eq}
use nyat.Uidstore.{Store, new_store, get_or_insert, get_key, remove_uid}
use nyat.Uidstore.Invariant.{
  IsConsistent, new_store-IsConsistent, get_or_insert-IsConsistent, get_or_insert_known,
  get_or_insert_new, remove_uid-IsConsistent,
}

pub record World : Type 0 where
  pub stores : List Store
  pub next_uid : ℕ

-- The program may make a store, or call one of a store's methods. The counter stays below 2^32.
pub data Step (w : World) : World → Type 0 where
  makes : Step w (record w { stores = w.stores ++ new_store ∷ [] })
  inserts :
      (i : ℕ) (s : Store) (key : Text)
      → get_elem? w.stores i ≡ some s
      → w.next_uid + 1 < 2 ^ 32
      → Step w (record {
        stores = set w.stores i (get_or_insert key s w.next_uid).1;
        next_uid = (get_or_insert key s w.next_uid).2;
      })
  removes :
      (i : ℕ) (s : Store) (uid : ℕ)
      → get_elem? w.stores i ≡ some s
      → Step w (record w { stores = set w.stores i (remove_uid uid s) })

pub data Reach : World → Type 0 where
  start : Reach (record { stores = []; next_uid = 1 })
  then : {v w : World} → Reach v → Step v w → Reach w

abbrev pub Holds : Store → ℕ → Type 0
Holds s uid = (key : Text) × (get_key uid s ≡ some key)

pub record IsSeparate (w : World) : Type 0 where
  pub consistent : (i : ℕ) (s : Store) → get_elem? w.stores i ≡ some s → IsConsistent s w.next_uid
  pub apart :
      (i j : ℕ) (s t : Store) (uid : ℕ)
      → get_elem? w.stores i ≡ some s
      → get_elem? w.stores j ≡ some t
      → Holds s uid
      → Holds t uid
      → i ≡ j

new_store_empty : (uid : ℕ) → ¬ Holds new_store uid
unfolding new_store get_key lookup
new_store_empty uid (key, e) = cc

IsConsistent-mono : (s : Store) (n m : ℕ) → n ≤ m → IsConsistent s n → IsConsistent s m
IsConsistent-mono s n m h v = record {
  forth = v.forth;
  back = v.back;
  issued = λ u k e. omega (arith, v.issued u k e);
}

makes-IsSeparate :
    (w : World) → IsSeparate w → IsSeparate (record w { stores = w.stores ++ new_store ∷ [] })
makes-IsSeparate w v = record {
  consistent = λ i s h. elim (get_elem?-append w.stores i new_store s h) [
    | inl (_, e) ↦ rw e (new_store-IsConsistent w.next_uid)
    | inr e ↦ v.consistent i s e
  ];
  apart = λ i j s t uid h k a b. elim (get_elem?-append w.stores i new_store s h) [
    | inl (_, e) ↦ absurd (new_store_empty uid (rw e at a))
    | inr e ↦ elim (get_elem?-append w.stores j new_store t k) [
      | inl (_, f) ↦ absurd (new_store_empty uid (rw f at b))
      | inr f ↦ v.apart i j s t uid e f a b
    ]
  ];
}

-- A store is replaced by one whose uids are old uids of it, or above the counter.
set-IsSeparate :
    (w : World) (i : ℕ) (s t : Store) (m : ℕ)
    → IsSeparate w
    → get_elem? w.stores i ≡ some s
    → w.next_uid ≤ m
    → IsConsistent t m
    → ((uid : ℕ) → Holds t uid → Holds s uid ⊎ (w.next_uid < uid))
    → IsSeparate (record { stores = set w.stores i t; next_uid = m })
set-IsSeparate w i s t m v hi le c old = record {
  consistent = λ j u h. elim (get_elem?-set w.stores i j t u h) [
    | inl (_, e) ↦ rw e c
    | inr e ↦ IsConsistent-mono u w.next_uid m le (v.consistent j u e)
  ];
  apart = λ j k u u' uid h h' a b. elim (get_elem?-set w.stores i j t u h) [
    | inl (p, e) ↦ elim (get_elem?-set w.stores i k t u' h') [
      | inl (q, f) ↦ p ∙ sym q
      | inr f ↦ p ∙ meet k u' uid f (rw e at a) b
    ]
    | inr e ↦ elim (get_elem?-set w.stores i k t u' h') [
      | inl (q, f) ↦ sym (q ∙ meet j u uid e (rw f at b) a)
      | inr f ↦ v.apart j k u u' uid e f a b
    ]
  ];
}
  where
    meet :
        (k : ℕ) (u : Store) (uid : ℕ)
        → get_elem? w.stores k ≡ some u
        → Holds t uid
        → Holds u uid
        → i ≡ k
    meet k u uid h a (key, b) = elim (old uid a) [
      | inl a' ↦ v.apart i k s u uid hi h a' (key, b)
      | inr above ↦
          absurd (omega (arith, (v.consistent k u h).issued uid key (unfold get_key in b)))
    ]

get_or_insert-grows :
    (key : Text) (s : Store) (n : ℕ) → n + 1 < 2 ^ 32 → n ≤ (get_or_insert key s n).2
get_or_insert-grows key s n b = elim (Option-cases (lookup key s.uid_by_key)) [
  | inl e ↦ rw (get_or_insert_new key s n b e) (omega arith)
  | inr (uid, e) ↦ rw (get_or_insert_known key s n uid e) (omega arith)
]

get_or_insert-Holds :
    (key : Text) (s : Store) (n : ℕ)
    → n + 1 < 2 ^ 32
    → (uid : ℕ) → Holds (get_or_insert key s n).1 uid
    → Holds s uid ⊎ (n < uid)
unfolding get_key
get_or_insert-Holds key s n b uid (k, h) = elim (Option-cases (lookup key s.uid_by_key)) [
  | inl e ↦ fresh (rw (get_or_insert_new key s n b e) at h)
  | inr (old, e) ↦ inl (k, rw (get_or_insert_known key s n old e) at h)
]
  where
    fresh : lookup uid (insert (n + 1) key s.key_by_uid) ≡ some k → Holds s uid ⊎ (n < uid)
    fresh g = elim (dec_lt n uid) [
      | yes lt ↦ inr lt
      | no le ↦ inl (k, ground (arith, lookup-insert (n + 1) uid key s.key_by_uid))
    ]

remove_uid-Holds : (uid other : ℕ) (s : Store) → Holds (remove_uid uid s) other → Holds s other
unfolding get_key remove_uid
remove_uid-Holds uid other s (k, h) = (k, ground (arith, lookup-remove uid other s.key_by_uid))

Step-IsSeparate : {v w : World} → Step v w → IsSeparate v → IsSeparate w
Step-IsSeparate {v} makes h = makes-IsSeparate v h
Step-IsSeparate {v} (inserts i s key e b) h =
    set-IsSeparate v i s _ _ h e (get_or_insert-grows key s v.next_uid b)
      (get_or_insert-IsConsistent key s v.next_uid b (h.consistent i s e))
      (get_or_insert-Holds key s v.next_uid b)
Step-IsSeparate {v} (removes i s uid e) h =
    set-IsSeparate v i s _ v.next_uid h e (omega arith)
      (remove_uid-IsConsistent uid s v.next_uid (h.consistent i s e))
      (λ other k. inl (remove_uid-Holds uid other s k))

-- In every world that the program can reach, whatever the order of the calls, each store maps its
-- keys and uids to one another both ways with no uid above the counter, and no uid belongs to two
-- stores.
pub Reach-IsSeparate : {w : World} → Reach w → IsSeparate w
Reach-IsSeparate start = record { consistent = λ i s h. absurd (cc); apart = λ i j s t uid h. cc }
Reach-IsSeparate (then r st) = Step-IsSeparate st (Reach-IsSeparate r)
