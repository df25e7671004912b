-- ===== src/Maildir/Deleting.antt =====
-- worker/maildir/container.go: which messages `DeleteAll` removes.
use nyat.Common.{
  ℕ, Bool, true, false, ◌&&◌, ◌||◌, List, [], ◌∷◌, ◌++◌, Option, none, some, Text, Result, ok, err,
  codes, text_eq, if◌then◌else◌, ◌≡◌, refl, ap, ◌∙◌, arith,
}
use nyat.Uidstore.{Store, get_key}
use nyat.Maildir.Steps.{
  Library, Container, Mail, MaildirWorker, Step, ◌>>=◌, next, caught, call, try, give, from_result,
  container_of, not_nil,
}
use nyat.Maildir.Container.{message, delete_all}

-- Whether a key is that of a uid, and of one of a list.
abbrev pub has_uid : Store → Text → List ℕ → Bool
has_uid s key [] = false
has_uid s key (u ∷ us) =
    let rest = has_uid s key us in
    elim (get_key u s) [ none ↦ rest | some k ↦ text_eq k key || rest ]

abbrev pub is_ok : Result (Unit {0}) → Bool
is_ok (ok _) = true
is_ok (err e) = false

-- `Remove` of go-maildir takes the message of the key out of the directory, or fails, and leaves all
-- other messages. `holds` says which messages there are.
abbrev pub Removes : {D : Type 0} → Library D → (Text → Text → D → Bool) → Type 0
Removes {D} lib holds =
    (dir key : Text) (d : D) (dir' key' : Text)
    → holds dir' key' (lib.remove dir key d).0 ≡ (
        if is_ok (lib.remove dir key d).1 && (text_eq dir dir' && text_eq key key')
        then false
        else holds dir' key' d)

-- What a deletion comes to: the uids of the removed messages, the first error, and the disk.
abbrev Outcome : Type 0 → Type 0
Outcome D = (List ℕ × Option Text) × D

abbrev after_one : {D : Type 0} → ℕ → D × Result (Unit {0}) → (D → Outcome D) → Outcome D
after_one u (d, err e) rest = (([], some e), d)
after_one u (d, ok _) rest = let r = rest d in ((u ∷ r.0.0, r.0.1), r.1)

module _ {D : Type 0} (lib : Library D) (dir : Text) (s : Store) where
  -- What is done with the key of a uid, if it has one, with what the rest would do.
  abbrev of_key : ℕ → D → (D → Outcome D) → Option Text → Outcome D
  of_key u d rest none = (([], some (codes "could not find message")), d)
  of_key u d rest (some key) = after_one u (lib.remove dir key d) rest

  removal : List ℕ → D → Outcome D
  removal [] d = (([], none), d)
  removal (u ∷ us) d = of_key u d (removal us) (get_key u s)

  module _ (w : MaildirWorker D) (root : Text) where
    abbrev on_disk : D → MaildirWorker D
    on_disk d = record w { container = some (record { dir = root; uids = s }); disk = d }

    abbrev go_on : ℕ → List ℕ → Result (Unit {0}) → Step D (List ℕ × Option Text)
    go_on u us r = elim r [
      | err e ↦ give ([], some e)
      | ok _ ↦ (do (success, failed) ← delete_all lib dir us; give (u ∷ success, failed))
    ]

    attempt :
        (u : ℕ) (us : List ℕ) (d : D) (p : D × Result (Unit {0}))
        → ((d' : D)
            → delete_all lib dir us (on_disk d')
              ≡ some (ok (removal us d').0, on_disk (removal us d').1))
        → next (go_on u us) (caught (some (p.1, on_disk p.0)))
          ≡ (let r = after_one u p (removal us) in some (ok r.0, on_disk r.1))
    unfolding ◌>>=◌ next caught give
    attempt u us d (d', err e) ih = refl
    attempt u us d (d', ok _) ih = rw (ih d') refl

    with_key :
        (u : ℕ) (us : List ℕ) (d : D) (o : Option Text)
        → ((d' : D)
            → delete_all lib dir us (on_disk d')
              ≡ some (ok (removal us d').0, on_disk (removal us d').1))
        → next (go_on u us) (
            caught (
              next {A = Mail}
                (λ m. call (lib.remove m.dir m.key))
                (some (
                  elim o [
                    | none ↦ err (codes "could not find message")
                    | some key ↦ ok (record { dir = dir; uid = u; key = key })
                  ],
                  on_disk d,
                ))))
          ≡ (let r = of_key u d (removal us) o in some (ok r.0, on_disk r.1))
    unfolding next caught call give
    with_key u us d none ih = refl
    with_key u us d (some key) ih = attempt u us d (lib.remove dir key d) ih

    delete_all-removal :
        (us : List ℕ) (d : D)
        → delete_all lib dir us (on_disk d) ≡ some (ok (removal us d).0, on_disk (removal us d).1)
    unfolding delete_all removal message ◌>>=◌ next try give from_result container_of not_nil
    delete_all-removal [] d = refl
    delete_all-removal (u ∷ us) d = with_key u us d (get_key u s) (delete_all-removal us)

  module _ (holds : Text → Text → D → Bool) (law : Removes lib holds) where
    -- What the disk holds after the messages of uids have been removed from the directory.
    abbrev Holds : List ℕ → D → D → Type 0
    Holds us d d' =
        (dir' key' : Text)
        → holds dir' key' d'
          ≡ (if text_eq dir dir' && has_uid s key' us then false else holds dir' key' d)

    abbrev Prefix : List ℕ → Outcome D → Type 0
    Prefix us r = (rest : List ℕ) × (us ≡ r.0.0 ++ rest) × (r.0.1 ≡ none → rest ≡ [])

    removed_one :
        (u : ℕ) (us : List ℕ) (d : D) (key : Text) (p : D × Result (Unit {0}))
        → get_key u s ≡ some key
        → ((dir' key' : Text)
            → holds dir' key' p.0 ≡ (
                if is_ok p.1 && (text_eq dir dir' && text_eq key key')
                then false
                else holds dir' key' d))
        → ((d' : D) → Prefix us (removal us d') × Holds (removal us d').0.0 d' (removal us d').1)
        → let r = after_one u p (removal us) in Prefix (u ∷ us) r × Holds r.0.0 d r.1
    removed_one u us d key (d', err e) g l ih =
        ((u ∷ us, refl, λ h. cc), λ dir' key'. l dir' key' ∙ ground arith)
    removed_one u us d key (d', ok _) g l ih = (
      ((ih d').0.0, ap (λ z. u ∷ z) (ih d').0.1, (ih d').0.2),
      λ dir' key'. ground (arith, g, l dir' key', (ih d').1 dir' key'),
    )

    keyed :
        (u : ℕ) (us : List ℕ) (d : D) (o : Option Text)
        → get_key u s ≡ o
        → ((d' : D) → Prefix us (removal us d') × Holds (removal us d').0.0 d' (removal us d').1)
        → let r = of_key u d (removal us) o in Prefix (u ∷ us) r × Holds r.0.0 d r.1
    keyed u us d none g ih = ((u ∷ us, refl, λ h. cc), λ dir' key'. ground arith)
    keyed u us d (some key) g ih =
        removed_one u us d key (lib.remove dir key d) g (law dir key d) ih

    removal-Holds :
        (us : List ℕ) (d : D)
        → Prefix us (removal us d) × Holds (removal us d).0.0 d (removal us d).1
    unfolding removal
    removal-Holds [] d = (([], refl, λ h. refl), λ dir' key'. ground arith)
    removal-Holds (u ∷ us) d = keyed u us d (get_key u s) refl (removal-Holds us)

-- `DeleteAll` returns the uids of the messages that it has removed. These are the first of the uids
-- that it was given, and all of them if there was no error; the messages of their keys are gone from
-- the directory, and every other message, in this directory and in others, is there as before.
pub delete_all-has_uid :
    {D : Type 0} (lib : Library D) (holds : Text → Text → D → Bool)
    → Removes lib holds
    → (w : MaildirWorker D) (c : Container) (dir : Text) (us : List ℕ) → w.container ≡ some c
    → (success rest : List ℕ) × (failed : Option Text) × (w' : MaildirWorker D) × (delete_all lib
          dir us w
        ≡ some (ok (success, failed), w'))
      × (us ≡ success ++ rest)
      × (failed ≡ none → rest ≡ [])
      × ((dir' key' : Text)
          → holds dir' key' w'.disk ≡ (
              if text_eq dir dir' && has_uid c.uids key' success
              then false
              else holds dir' key' w.disk))
delete_all-has_uid lib holds law w c dir us e =
    let (p, h) = removal-Holds lib dir c.uids holds law us w.disk in
    let r = removal lib dir c.uids us w.disk in
    (
      r.0.0,
      p.0,
      r.0.1,
      _,
      (λ i. delete_all lib dir us (record w { container = e i }))
          ∙ delete_all-removal lib dir c.uids w c.dir us w.disk,
      p.1,
      p.2,
      h,
    )
