-- ===== src/Imap/SeqMap.antt =====
-- worker/imap: the map of sequence numbers against the mailbox of the server. A mailbox is the list
-- of its uids; sequence number i + 1 is place i. An entry 0 of the map is not known yet.
use nyat.Common.{
  ℕ, zero, suc, ◌<◌, List, [], ◌∷◌, some, length, get_elem?, get_elem?-lt, get_elem?-some-lt,
  get_elem?-set, get_elem?-delete_at, length-delete_at, lt→ltb, delete_at, set, ◌≡◌, refl, arith,
  ap, sym, ◌∙◌, subst, ◌⊎◌, inl, inr, some_inj,
}
use nyat.Imap.{seq_index, put_at, put_uid, take_at, expunge}
use nyat.Imap.Reversing.{length-set}
use nyat.Imap.Handlers.{expunge_loop, grow_map, zeros}

-- A map as long as the mailbox, of which each entry that is known is right.
pub record Agrees (mailbox seq_map : List ℕ) : Type 0 where
  pub long : length seq_map ≡ length mailbox
  pub right : (i u : ℕ) → get_elem? seq_map i ≡ some u → (u ≡ 0) ⊎ (get_elem? mailbox i ≡ some u)

seq_index-suc : (i : ℕ) → i < 4294967296 → seq_index (suc i) ≡ i
unfolding seq_index
seq_index-suc i h = omega arith

-- A known uid is the right one.
abbrev pub Known : ℕ → ℕ → Type 0
Known u v = (v ≡ 0) ⊎ (v ≡ u)

take_at-some :
    (xs : List ℕ) (i u : ℕ) → get_elem? xs i ≡ some u → take_at i xs ≡ some (u, delete_at i xs)
unfolding take_at
take_at-some xs i u h = rw (take_at, h) refl

put_at-some :
    (xs : List ℕ) (i u v : ℕ) → get_elem? xs i ≡ some v → put_at i u xs ≡ some (set xs i u)
unfolding put_at
put_at-some xs i u v h = rw (put_at, h) refl

expunge-at :
    (xs : List ℕ) (i u : ℕ)
    → i < 4294967296
    → get_elem? xs i ≡ some u
    → expunge (suc i) xs ≡ some (u, delete_at i xs)
unfolding expunge
expunge-at xs i u b h = ap (λ k. take_at k xs) (seq_index-suc i b) ∙ take_at-some xs i u h

Agrees-delete_at :
    (mailbox seq_map : List ℕ) (i : ℕ)
    → Agrees mailbox seq_map
    → i < length mailbox
    → Agrees (delete_at i mailbox) (delete_at i seq_map)
Agrees-delete_at mailbox seq_map i a b = record {
  long = omega (
    arith,
    a.long,
    length-delete_at i mailbox b,
    length-delete_at i seq_map (omega (arith, a.long)),
  );
  right = λ j u h. ground (
    arith,
    h,
    get_elem?-delete_at i j seq_map,
    get_elem?-delete_at i j mailbox,
    a.right j u,
    a.right (suc j) u,
  );
}

Agrees-set :
    (mailbox seq_map : List ℕ) (i u : ℕ)
    → Agrees mailbox seq_map
    → get_elem? mailbox i ≡ some u
    → Agrees mailbox (set seq_map i u)
Agrees-set mailbox seq_map i u a e = record {
  long = length-set seq_map i u ∙ a.long;
  right = λ j v h. elim (get_elem?-set seq_map i j u v h) [
    | inl (p, q) ↦ inr (subst (λ z. get_elem? mailbox z ≡ some v) (sym p) (e ∙ ap some (sym q)))
    | inr k ↦ a.right j v k
  ];
}

-- What the worker finds at a place that the mailbox has.
entry :
    (mailbox seq_map : List ℕ) (i u : ℕ)
    → Agrees mailbox seq_map
    → get_elem? mailbox i ≡ some u
    → (v : ℕ) × (get_elem? seq_map i ≡ some v) × Known u v
entry mailbox seq_map i u a h =
    let b = get_elem?-some-lt mailbox i u h in
    let (v, e) = get_elem?-lt seq_map i (omega (arith, a.long)) in
    (v, e, (elim (a.right i v e) [ inl z ↦ inl z | inr q ↦ inr (some_inj v u (sym q ∙ h)) ]))

-- When the server expunges the message at a place, the worker does not panic, takes the uid of it
-- or 0, and goes on with a map of what is left.
pub expunge-Agrees :
    (mailbox seq_map : List ℕ) (i u : ℕ)
    → Agrees mailbox seq_map
    → i < 4294967296
    → get_elem? mailbox i ≡ some u
    → (v : ℕ) × (expunge (suc i) seq_map ≡ some (v, delete_at i seq_map))
      × Known u v
      × Agrees (delete_at i mailbox) (delete_at i seq_map)
expunge-Agrees mailbox seq_map i u a b h =
    let (v, e, k) = entry mailbox seq_map i u a h in
    (
      v,
      expunge-at seq_map i v b e,
      k,
      Agrees-delete_at mailbox seq_map i a (get_elem?-some-lt mailbox i u h),
    )

-- When the server sends the message at a place, the worker does not panic and knows its uid then.
pub put_uid-Agrees :
    (mailbox seq_map : List ℕ) (i u : ℕ)
    → Agrees mailbox seq_map
    → i < 4294967296
    → get_elem? mailbox i ≡ some u
    → (put_uid (suc i) u seq_map ≡ some (set seq_map i u)) × Agrees mailbox (set seq_map i u)
unfolding put_uid
put_uid-Agrees mailbox seq_map i u a b h =
    let (v, e, k) = entry mailbox seq_map i u a h in
    (
      ap (λ z. put_at z u seq_map) (seq_index-suc i b) ∙ put_at-some seq_map i u v e,
      Agrees-set mailbox seq_map i u a h,
    )

length-zeros : (n : ℕ) → length (zeros n) ≡ n
unfolding zeros
length-zeros zero = refl
length-zeros (suc n) = omega (arith, length-zeros n)

zeros-get : (n i u : ℕ) → get_elem? (zeros n) i ≡ some u → u ≡ 0
unfolding zeros
zeros-get zero i u h = cc
zeros-get (suc n) zero u h = cc
zeros-get (suc n) (suc i) u h = zeros-get n i u h

-- A map that was too short for the mailbox is one of it after the contents have been fetched.
pub grow_map-Agrees :
    (mailbox seq_map : List ℕ)
    → length seq_map < length mailbox
    → Agrees mailbox (grow_map (length mailbox) seq_map)
unfolding grow_map
grow_map-Agrees mailbox seq_map h = rw (lt→ltb (length seq_map) (length mailbox) h) (record {
  long = length-zeros (length mailbox);
  right = λ i u e. inl (zeros-get (length mailbox) i u e);
})

-- The uids that the worker reports, against those of the server.
abbrev pub AllKnown : List ℕ → List ℕ → Type 0
AllKnown [] [] = Unit
AllKnown (u ∷ us) (v ∷ vs) = Known u v × AllKnown us vs
AllKnown _ _ = ⊥

-- The places of a mailbox that are expunged one after the other, with what is left in the end.
pub data Expunged : List ℕ → List ℕ → List ℕ → List ℕ → Type 0 where
  none_left : {mailbox : List ℕ} → Expunged mailbox [] [] mailbox
  one_more :
      {mailbox seqs us left : List ℕ} (i u : ℕ)
      → i < 4294967296
      → get_elem? mailbox i ≡ some u
      → Expunged (delete_at i mailbox) seqs us left
      → Expunged mailbox (suc i ∷ seqs) (u ∷ us) left

-- When the server expunges messages one after the other, the loop of the worker does not panic; it
-- reports as many uids, each that of the message expunged or 0, and its map is one of what is left.
pub expunge_loop-Agrees :
    (mailbox seqs us left seq_map : List ℕ)
    → Expunged mailbox seqs us left
    → Agrees mailbox seq_map
    → (vs : List ℕ) × (final : List ℕ) × (expunge_loop seqs seq_map ≡ some (vs, final))
      × AllKnown us vs
      × Agrees left final
unfolding expunge_loop
expunge_loop-Agrees mailbox [] [] left seq_map none_left a = ([], seq_map, refl, tt, a)
expunge_loop-Agrees mailbox [] (_ ∷ us) left seq_map h a = elim h [ ]
expunge_loop-Agrees mailbox (_ ∷ seqs) [] left seq_map h a = elim h [ ]
expunge_loop-Agrees mailbox (_ ∷ seqs) (_ ∷ us) left seq_map (one_more i u b h e) a =
    let (v, f, k, q) = expunge-Agrees mailbox seq_map i u a b h in
    let (vs, final, g, ks, r) =
      expunge_loop-Agrees (delete_at i mailbox) seqs us left (delete_at i seq_map) e q in
    (v ∷ vs, final, rw (f, g) refl, (k, ks), r)
