-- ===== src/Maildir/Kept.antt =====
-- worker/maildir: what every action keeps, shown once for any invariant that the steps keep.
use nyat.Common.{
  ℕ, List, [], ◌∷◌, ◌++◌, Option, none, some, Text, Result, ok, err, ◌≡◌, refl, Option-cases, inl,
  inr,
}
use nyat.Models.{SortCriterion, Post, done, unsupported}
use nyat.Maildir.Steps.{
  Library, Container, MaildirWorker, Step, ◌>>=◌, next, caught, explained, call, post, try,
  explaining, not_nil, selected_dir, container_of, from_result, give, fail, gets, set_container,
  set_selected, set_criteria,
}
use nyat.Maildir.Envelope.{explain}
use nyat.Maildir.Container.{dir_of, put_key, put_keys, open_maildir, uids_of, message}

-- What may be posted before the answer of an action.
abbrev pub IsPartial : Post → Type 0
IsPartial (done id) = ⊥
IsPartial (unsupported id) = ⊥
IsPartial _ = Unit

-- An invariant of the worker that the steps keep; N is what a panic comes to.
pub record IsKept {D : Type 0} (N : Type 0) (I : MaildirWorker D → Type 0) : Type 0 where
  pub disk : (w : MaildirWorker D) (d : D) → I w → I (record w { disk = d })
  pub stored :
      (w : MaildirWorker D) (c : Container) (n : ℕ)
      → I w
      → I (record w { container = some c; next_uid = n })
  pub chosen :
      (w : MaildirWorker D) (dir name : Text)
      → I w
      → I (record w { selected = some dir; selected_name = name })
  pub criteria :
      (w : MaildirWorker D) (cs : List SortCriterion)
      → I w
      → I (record w { current_sort_criteria = cs })
  pub posted :
      (w : MaildirWorker D) (p : Post)
      → IsPartial p
      → I w
      → I (record w { posts = w.posts ++ p ∷ [] })
  pub no_container : (w : MaildirWorker D) → I w → w.container ≡ none → N
  pub no_selected : (w : MaildirWorker D) → I w → w.selected ≡ none → N

-- An outcome that is a panic, an error, or a value of which Q holds, where the invariant holds.
pub data Leaves {D : Type 0} (N : Type 0) (I : MaildirWorker D → Type 0) {A : Type 0}
    (Q : A → Type 0) : Option (Result A × MaildirWorker D) → Type 0 where
  panics : N → Leaves N I Q none
  fails : {e : Text} {w : MaildirWorker D} → I w → Leaves N I Q (some (err e, w))
  gives : {a : A} {w : MaildirWorker D} → Q a → I w → Leaves N I Q (some (ok a, w))

-- A step that keeps the invariant and gives a value of which Q holds.
pub record Keeps {D : Type 0} (N : Type 0) (I : MaildirWorker D → Type 0) {A : Type 0}
    (Q : A → Type 0) (m : Step D A) : Type 0 where
  pub run : (w : MaildirWorker D) → I w → Leaves N I Q (m w)

abbrev pub Any : {A : Type 0} → A → Type 0
Any a = Unit

module _ {D : Type 0} {N : Type 0} {I : MaildirWorker D → Type 0} where
  next-Leaves :
      {A B : Type 0} {Q : A → Type 0} {R : B → Type 0} {f : A → Step D B}
      {o : Option (Result A × MaildirWorker D)}
      → Leaves N I Q o
      → ((a : A) → Q a → Keeps N I R (f a))
      → Leaves N I R (next f o)
  unfolding next
  next-Leaves (panics h) k = panics h
  next-Leaves (fails i) k = fails i
  next-Leaves (gives {a} {w} q i) k = (k a q).run w i

  pub bind-Keeps :
      {A B : Type 0} {Q : A → Type 0} {R : B → Type 0} {m : Step D A} {f : A → Step D B}
      → Keeps N I Q m
      → ((a : A) → Q a → Keeps N I R (f a))
      → Keeps N I R (m >>= f)
  unfolding ◌>>=◌
  bind-Keeps h k = record { run = λ w i. next-Leaves (h.run w i) k }

  -- The rule for a step of which only the invariant matters.
  pub then-Keeps :
      {A B : Type 0} {R : B → Type 0} {m : Step D A} {f : A → Step D B}
      → Keeps N I Any m
      → ((a : A) → Keeps N I R (f a))
      → Keeps N I R (m >>= f)
  then-Keeps h k = bind-Keeps h (λ a _. k a)

  caught-Leaves :
      {A : Type 0} {Q : A → Type 0} {R : Result A → Type 0}
      {o : Option (Result A × MaildirWorker D)}
      → ((a : A) → Q a → R (ok a))
      → ((e : Text) → R (err e))
      → Leaves N I Q o
      → Leaves N I R (caught o)
  unfolding caught
  caught-Leaves g b (panics h) = panics h
  caught-Leaves g b (fails {e} i) = gives (b e) i
  caught-Leaves g b (gives {a} q i) = gives (g a q) i

  pub try-Keeps :
      {A : Type 0} {Q : A → Type 0} {R : Result A → Type 0} (m : Step D A)
      → ((a : A) → Q a → R (ok a))
      → ((e : Text) → R (err e))
      → Keeps N I Q m
      → Keeps N I R (try m)
  unfolding try
  try-Keeps m g b h = record { run = λ w i. caught-Leaves g b (h.run w i) }

  explained-Leaves :
      {A : Type 0} {Q : A → Type 0} (prefix : Text) {o : Option (Result A × MaildirWorker D)}
      → Leaves N I Q o
      → Leaves N I Q (explained prefix o)
  unfolding explained explain
  explained-Leaves prefix (panics h) = panics h
  explained-Leaves prefix (fails i) = fails i
  explained-Leaves prefix (gives q i) = gives q i

  pub explaining-Keeps :
      {A : Type 0} {Q : A → Type 0} (prefix : Text) (m : Step D A)
      → Keeps N I Q m
      → Keeps N I Q (explaining prefix m)
  unfolding explaining
  explaining-Keeps prefix m h = record { run = λ w i. explained-Leaves prefix (h.run w i) }

  pub give-Keeps : {A : Type 0} {Q : A → Type 0} (a : A) → Q a → Keeps N I Q (give a)
  unfolding give
  give-Keeps a q = record { run = λ w i. gives q i }

  pub fail-Keeps : {A : Type 0} {Q : A → Type 0} (e : Text) → Keeps N I Q (fail {A = A} e)
  unfolding fail
  fail-Keeps e = record { run = λ w i. fails i }

  pub gets-Keeps : {A : Type 0} (f : MaildirWorker D → A) → Keeps N I Any (gets f)
  unfolding gets
  gets-Keeps f = record { run = λ w i. gives tt i }

  from_result-Leaves :
      {A : Type 0} {Q : A → Type 0} {w : MaildirWorker D} (r : Result A)
      → ((a : A) → r ≡ ok a → Q a)
      → I w
      → Leaves N I Q (some (r, w))
  from_result-Leaves (err e) h i = fails i
  from_result-Leaves (ok a) h i = gives (h a refl) i

  pub from_result-Keeps :
      {A : Type 0} {Q : A → Type 0} (r : Result A)
      → ((a : A) → r ≡ ok a → Q a)
      → Keeps N I Q (from_result r)
  unfolding from_result
  from_result-Keeps r h = record { run = λ w i. from_result-Leaves r h i }

  pub tried : {A : Type 0} (m : Step D A) → Keeps N I Any m → Keeps N I Any (try m)
  tried m h = try-Keeps m (λ a q. tt) (λ e. tt) h

  pub gave : {A : Type 0} (a : A) → Keeps N I Any (give a)
  gave a = give-Keeps a tt

  pub had : {A : Type 0} (r : Result A) → Keeps N I Any (from_result r)
  had r = from_result-Keeps r (λ a e. tt)

  module _ (k : IsKept N I) where
    called :
        {A : Type 0} {w : MaildirWorker D} (p : D × Result A)
        → I w
        → Leaves N I Any (let (d, r) = p in some (r, record w { disk = d }))
    called {w = w} (d, err e) i = fails (k.disk w d i)
    called {w = w} (d, ok a) i = gives tt (k.disk w d i)

    pub call-Keeps : {A : Type 0} (f : D → D × Result A) → Keeps N I Any (call f)
    unfolding call
    call-Keeps f = record { run = λ w i. called (f w.disk) i }

    pub post-Keeps : (p : Post) → IsPartial p → Keeps N I Any (post p)
    unfolding post
    post-Keeps p h = record { run = λ w i. gives tt (k.posted w p h i) }

    contained :
        (w : MaildirWorker D) (o : Option Container)
        → w.container ≡ o
        → I w
        → Leaves N I Any (not_nil o w)
    unfolding not_nil
    contained w none e i = panics (k.no_container w i e)
    contained w (some c) e i = gives tt i

    pub container_of-Keeps : Keeps N I Any container_of
    unfolding container_of
    container_of-Keeps = record { run = λ w i. contained w w.container refl i }

    selecting :
        (w : MaildirWorker D) (o : Option Text)
        → w.selected ≡ o
        → I w
        → Leaves N I Any (not_nil o w)
    unfolding not_nil
    selecting w none e i = panics (k.no_selected w i e)
    selecting w (some c) e i = gives tt i

    pub selected_dir-Keeps : Keeps N I Any selected_dir
    unfolding selected_dir
    selected_dir-Keeps = record { run = λ w i. selecting w w.selected refl i }

    pub set_container-Keeps : (c : Container) → Keeps N I Any (set_container c)
    unfolding set_container
    set_container-Keeps c = record { run = λ w i. gives tt (k.stored w c w.next_uid i) }

    pub set_selected-Keeps : (dir name : Text) → Keeps N I Any (set_selected dir name)
    unfolding set_selected
    set_selected-Keeps dir name = record { run = λ w i. gives tt (k.chosen w dir name i) }

    pub set_criteria-Keeps : (cs : List SortCriterion) → Keeps N I Any (set_criteria cs)
    unfolding set_criteria
    set_criteria-Keeps cs = record { run = λ w i. gives tt (k.criteria w cs i) }

    module _ (lib : Library D) where
      putting : (w : MaildirWorker D) (key : Text) → I w → Leaves N I Any (put_key lib key w)
      unfolding put_key
      putting w key i = elim (Option-cases w.container) [
        | inl e ↦ rw e (panics (k.no_container w i e))
        | inr (c, e) ↦ rw e (gives tt (k.stored w _ _ i))
      ]

      pub put_key-Keeps : (key : Text) → Keeps N I Any (put_key lib key)
      put_key-Keeps key = record { run = λ w i. putting w key i }

      pub put_keys-Keeps : (keys : List Text) → Keeps N I Any (put_keys lib keys)
      unfolding put_keys
      put_keys-Keeps [] = give-Keeps _ tt
      put_keys-Keeps (key ∷ keys) =
          bind-Keeps (put_key-Keeps key)
            (λ uid _. bind-Keeps (put_keys-Keeps keys) (λ uids _. give-Keeps _ tt))

      pub dir_of-Keeps : (name : Text) → Keeps N I Any (dir_of lib name)
      unfolding dir_of
      dir_of-Keeps name = bind-Keeps container_of-Keeps (λ c _. give-Keeps _ tt)

      pub open_maildir-Keeps : (name : Text) → Keeps N I Any (open_maildir lib name)
      unfolding open_maildir
      open_maildir-Keeps name =
          search (then-Keeps, dir_of-Keeps, give-Keeps, call-Keeps, put_keys-Keeps)

      pub uids_of-Keeps : (dir : Text) → Keeps N I Any (uids_of lib dir)
      unfolding uids_of
      uids_of-Keeps dir = search (then-Keeps, explaining-Keeps, call-Keeps, put_keys-Keeps)

      pub message-Keeps : (dir : Text) (uid : ℕ) → Keeps N I Any (message lib dir uid)
      unfolding message
      message-Keeps dir uid = bind-Keeps container_of-Keeps (λ c _. from_result-Keeps _ (λ a e. tt))
