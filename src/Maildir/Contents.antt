-- ===== src/Maildir/Contents.antt =====
-- worker/maildir: the uids that a directory is listed with stand for its messages.
use nyat.Common.{
  ℕ, suc, ◌+◌, ◌^◌, ◌≤◌, ◌<◌, Bool, List, [], ◌∷◌, ◌++◌, map, none, some, Text, ok, ◌≡◌, refl, ap,
  ◌∙◌, arith, length, Option-cases, inl, inr,
}
use nyat.Common.Dict.{lookup, text_key_eq, nat_eq}
use nyat.Models.{directory_contents}
use nyat.MsgSort.Criteria.{sort_stable, insert_stable, text_lt}
use nyat.Uidstore.{Store, get_or_insert, get_key}
use nyat.Uidstore.Invariant.{
  IsConsistent, get_or_insert_known, get_or_insert_new, get_or_insert-IsConsistent,
  get_key-get_or_insert,
}
use nyat.Maildir.Steps.{
  Library, Container, MaildirWorker, ◌>>=◌, next, call, post, give, explaining, explained,
  selected_dir, not_nil, set_criteria,
}
use nyat.Maildir.Envelope.{explain}
use nyat.Maildir.Container.{put_key, put_keys, uids_of}
use nyat.Maildir.Worker.{sort_uids, handle_fetch_directory_contents}

-- The uids of keys, with the store and the counter after they have been put.
abbrev all_of_keys : List Text → Store → ℕ → List ℕ × Store × ℕ
all_of_keys [] s n = ([], s, n)
all_of_keys (k ∷ ks) s n =
    let r = get_or_insert k s n in let rs = all_of_keys ks r.1 r.2 in (r.0 ∷ rs.0, rs.1, rs.2)

-- What one key does: its uid stands for it, and every uid stands for what it did.
one_key :
    (k : Text) (s : Store) (n : ℕ)
    → n + 1 < 2 ^ 32
    → IsConsistent s n
    → let r = get_or_insert k s n in
      (get_key r.0 r.1 ≡ some k)
      × IsConsistent r.1 r.2
      × ((u : ℕ) (key : Text) → get_key u s ≡ some key → get_key u r.1 ≡ some key)
      × (r.2 ≤ n + 1)
one_key k s n b v = elim (Option-cases (lookup k s.uid_by_key)) [
  | inr (uid, e) ↦
      rw (get_or_insert_known k s n uid e)
        (unfold get_key in v.back uid k e, v, λ u key h. h, omega arith)
  | inl e ↦ (
    (get_key-get_or_insert k s n b v).0,
    get_or_insert-IsConsistent k s n b v,
    λ u key h. fresh e u key h,
    rw (get_or_insert_new k s n b e) (omega arith),
  )
]
  where
    fresh :
        lookup k s.uid_by_key ≡ none
        → (u : ℕ) (key : Text) → get_key u s ≡ some key
        → get_key u (get_or_insert k s n).1 ≡ some key
    fresh e u key h =
        let low = v.issued u key (unfold get_key in h) in
        let other = (get_key-get_or_insert k s n b v).2 u in
        let q : (get_or_insert k s n).0 ≡ n + 1 = ap (λ r. r.0) (get_or_insert_new k s n b e) in
        other (λ z. let far : u ≡ n + 1 = z ∙ q in absurd (omega arith)) ∙ h

-- What a list of keys does, with uids, a store and a counter that it leads to.
record Stands (ks : List Text) (s : Store) (n : ℕ) (us : List ℕ) (t : Store) (m : ℕ) : Type 0 where
  found : map (λ u. get_key u t) us ≡ map some ks
  consistent : IsConsistent t m
  kept : (u : ℕ) (key : Text) → get_key u s ≡ some key → get_key u t ≡ some key

all_of_keys-Stands :
    (ks : List Text) (s : Store) (n : ℕ)
    → n + length ks < 2 ^ 32
    → IsConsistent s n
    → let r = all_of_keys ks s n in Stands ks s n r.0 r.1 r.2
all_of_keys-Stands [] s n b v = record { found = refl; consistent = v; kept = λ u k h. h }
all_of_keys-Stands (k ∷ ks) s n b v =
    let (f, c, kept, low) = one_key k s n (omega arith) v in
    let r = get_or_insert k s n in
    let ih = all_of_keys-Stands ks r.1 r.2 (omega arith) c in
    record {
      found = λ i. ih.kept r.0 k f i ∷ ih.found i;
      consistent = ih.consistent;
      kept = λ u key h. ih.kept u key (kept u key h);
    }

length-insert_stable :
    {A : Type 0} (less : A → A → Bool) (x : A) (ys : List A)
    → length (insert_stable less x ys) ≡ suc (length ys)
unfolding insert_stable
length-insert_stable less x [] = refl
length-insert_stable less x (y ∷ ys) = ground (arith, length-insert_stable less x ys)

length-sort_stable :
    {A : Type 0} (less : A → A → Bool) (xs : List A) → length (sort_stable less xs) ≡ length xs
unfolding sort_stable
length-sort_stable less [] = refl
length-sort_stable less (x ∷ xs) =
    length-insert_stable less x (sort_stable less xs) ∙ ap suc (length-sort_stable less xs)

module _ {D : Type 0} (lib : Library D) where
  -- A worker with a container and a counter.
  abbrev with_store : MaildirWorker D → Text → Store → ℕ → MaildirWorker D
  with_store w dir s n = record w {
    container = some (record { dir = dir; uids = s });
    next_uid = n;
  }

  put_keys-all_of_keys :
      (ks : List Text) (w : MaildirWorker D) (dir : Text) (s : Store) (n : ℕ)
      → put_keys lib ks (with_store w dir s n)
        ≡ (let r = all_of_keys ks s n in some (ok r.0, with_store w dir r.1 r.2))
  unfolding put_keys put_key ◌>>=◌ next give
  put_keys-all_of_keys [] w dir s n = refl
  put_keys-all_of_keys (k ∷ ks) w dir s n =
      let r = get_or_insert k s n in rw (put_keys-all_of_keys ks w dir r.1 r.2) refl

  uids_of-keys :
      (w : MaildirWorker D) (dir : Text) (d : D) (ks : List Text)
      → lib.keys dir w.disk ≡ (d, ok ks)
      → uids_of lib dir w ≡ put_keys lib (sort_stable text_lt ks) (record w { disk = d })
  unfolding uids_of ◌>>=◌ next explaining explained explain call
  uids_of-keys w dir d ks h = rw h refl

  -- The uids that the messages of a directory get.
  uids_of-all_of_keys :
      (w : MaildirWorker D) (c : Container) (dir : Text) (d : D) (ks : List Text)
      → w.container ≡ some c
      → lib.keys dir w.disk ≡ (d, ok ks)
      → uids_of lib dir w ≡ (
          let r = all_of_keys (sort_stable text_lt ks) c.uids w.next_uid in
          some (ok r.0, with_store (record w { disk = d }) c.dir r.1 r.2))
  uids_of-all_of_keys w c dir d ks e h =
      uids_of-keys w dir d ks h
      ∙ (λ i. put_keys lib (sort_stable text_lt ks) (record w { disk = d; container = e i }))
      ∙ put_keys-all_of_keys (sort_stable text_lt ks) (record w { disk = d }) c.dir c.uids
          w.next_uid

  module _ (lower : ℕ → ℕ) where
    listing :
        (id : ℕ) (w : MaildirWorker D) (dir : Text) (us : List ℕ) (w' : MaildirWorker D)
        → w.selected ≡ some dir
        → uids_of lib dir w ≡ some (ok us, w')
        → handle_fetch_directory_contents lib lower id [] w
          ≡ some (
            ok tt,
            record w' {
              current_sort_criteria = [];
              posts = w'.posts ++ directory_contents (some id) us ∷ [];
            },
          )
    unfolding handle_fetch_directory_contents sort_uids ◌>>=◌ next selected_dir not_nil set_criteria
        post give
    listing id w dir us w' s h = simp (s, h)

    -- Without criteria to sort by, `FetchDirectoryContents` lists a uid for each message of the
    -- selected directory, in the order of their keys: in the container's store the uids then stand
    -- for these keys, and each uid that stood for a key still does. The store stays consistent. The
    -- container must be there and consistent, its keys be read, and the counter must not wrap.
    pub fetch_contents-get_key :
        (id : ℕ) (w : MaildirWorker D) (c : Container) (dir : Text) (d : D) (ks : List Text)
        → w.container ≡ some c
        → w.selected ≡ some dir
        → lib.keys dir w.disk ≡ (d, ok ks)
        → IsConsistent c.uids w.next_uid
        → w.next_uid + length ks < 2 ^ 32
        → (us : List ℕ) × (w' : MaildirWorker D) × (c' : Container)
          × (handle_fetch_directory_contents lib lower id [] w ≡ some (ok tt, w'))
          × (w'.posts ≡ w.posts ++ directory_contents (some id) us ∷ [])
          × (w'.container ≡ some c')
          × (map (λ u. get_key u c'.uids) us ≡ map some (sort_stable text_lt ks))
          × ((u : ℕ) (key : Text) → get_key u c.uids ≡ some key → get_key u c'.uids ≡ some key)
          × IsConsistent c'.uids w'.next_uid
    fetch_contents-get_key id w c dir d ks e s h v b =
        let sorted = sort_stable text_lt ks in
        let n = length-sort_stable text_lt ks in
        let st = all_of_keys-Stands sorted c.uids w.next_uid (omega arith) v in
        (
          _,
          _,
          _,
          listing id w dir _ _ s (uids_of-all_of_keys w c dir d ks e h),
          refl,
          refl,
          st.found,
          st.kept,
          st.consistent,
        )
