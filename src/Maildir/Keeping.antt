-- ===== src/Maildir/Keeping.antt =====
-- worker/maildir: what the steps keep, the handlers of directories keep, and those that messages are
-- handled with.
use nyat.Common.{
  codes, length, ◌+◌, ℕ, Bool, true, false, List, [], ◌∷◌, Option, none, some, Text, Result, ok,
  err,
}
use nyat.Models.{DirectoryInfo, directory, directory_info}
use nyat.Uidstore.{new_store}
use nyat.Maildir.Container.{Entries, list_folders}
use nyat.Maildir.Worker.{Source, no_info}
use nyat.Maildir.Steps.{
  set_container, Library, Container, Mail, MaildirWorker, ◌>>=◌, call, give, fail, from_result,
}
use nyat.Maildir.Container.{flags_of, set_one_flag, body_part, delete_all, copy_all}
use nyat.Maildir.Worker.{
  count_unseen, get_directory_info, post_info, post_selected_info, new_container, handle_configure,
  post_directories, handle_list_directories, unwatch_previous, handle_open_directory,
}
use nyat.Maildir.Kept.{
  IsKept, Keeps, Any, tried, gave, had, then-Keeps, explaining-Keeps, fail-Keeps, gets-Keeps,
  call-Keeps, post-Keeps, container_of-Keeps, set_container-Keeps, set_selected-Keeps, dir_of-Keeps,
  open_maildir-Keeps, uids_of-Keeps, message-Keeps,
}

module _ {D : Type 0} {N : Type 0} {I : MaildirWorker D → Type 0} (k : IsKept N I)
    (lib : Library D) where
  pub flags_of-Keeps : (m : Mail) → Keeps N I Any (flags_of lib m)
  unfolding flags_of
  flags_of-Keeps m = call-Keeps k _

  count_unseen-Keeps : (dir : Text) (uids : List ℕ) → Keeps N I Any (count_unseen lib dir uids)
  unfolding count_unseen
  count_unseen-Keeps dir [] = gave 0
  count_unseen-Keeps dir (uid ∷ uids) =
      then-Keeps (tried _ (search (then-Keeps, message-Keeps k lib, flags_of-Keeps)))
        (λ r. then-Keeps (count_unseen-Keeps dir uids) (λ n. gave _))

  counted :
      (name dir : Text) (r : Result (List ℕ))
      → Keeps N I {A = DirectoryInfo} Any (elim r [
        | err e ↦ give (no_info name)
        | ok us ↦ (do
          counts ← call (λ d. let (d', n) = lib.unseen_count dir d in (d', ok n))
          unseen ← count_unseen lib dir us
          give (record (no_info name) {
            exists = length us + counts.0;
            recent = counts.0;
            unseen = unseen + counts.0;
          }))
      ])
  counted name dir (err e) = gave _
  counted name dir (ok us) =
      then-Keeps (call-Keeps k _) (λ c. then-Keeps (count_unseen-Keeps dir us) (λ n. gave _))

  pub get_directory_info-Keeps : (name : Text) → Keeps N I Any (get_directory_info lib name)
  unfolding get_directory_info
  get_directory_info-Keeps name =
      then-Keeps (dir_of-Keeps k lib name)
        (λ dir. then-Keeps (tried _ (uids_of-Keeps k lib dir)) (λ r. counted name dir r))

  pub post_info-Keeps : (name : Text) → Keeps N I Any (post_info lib name)
  unfolding post_info
  post_info-Keeps name =
      then-Keeps (get_directory_info-Keeps name) (λ info. post-Keeps k (directory_info info) tt)

  pub post_selected_info-Keeps : Keeps N I Any (post_selected_info lib)
  unfolding post_selected_info
  post_selected_info-Keeps = search (then-Keeps, gets-Keeps, post_info-Keeps)

  contained :
      (dir : Text) (b : Bool)
      → Keeps N I {A = Unit {0}} Any (elim b [
        | true ↦ set_container (record { dir = dir; uids = new_store })
        | false ↦ fail (codes "Given maildir is not a directory")
      ])
  contained dir true = set_container-Keeps k _
  contained dir false = fail-Keeps _

  pub handle_configure-Keeps :
      (source : Result Source) (home : Result Text)
      → Keeps N I Any (handle_configure lib source home)
  unfolding handle_configure new_container
  handle_configure-Keeps source home = then-Keeps (had source) (λ u. then-Keeps (had _) (λ p.
      then-Keeps (had _) (λ dir.
        then-Keeps (gets-Keeps _) (λ a. then-Keeps (had a) (λ there. contained dir there)))))

  post_directories-Keeps :
      (id : ℕ) (names : List Text) → Keeps N I Any (post_directories lib id names)
  unfolding post_directories
  post_directories-Keeps id [] = gave tt
  post_directories-Keeps id (name ∷ names) =
      then-Keeps (post-Keeps k (directory id name []) tt)
        (λ _. then-Keeps (post_info-Keeps name) (λ _. post_directories-Keeps id names))

  listed :
      (id : ℕ) (name : Text) (entries : Result Entries) (o : Option Container)
      → Keeps N I {A = Unit {0}} Any (elim o [
        | none ↦ fail (codes "Incorrect maildir directory")
        | some c ↦ (do
          names ← from_result (list_folders name entries)
          post_directories lib id names)
      ])
  listed id name entries none = fail-Keeps _
  listed id name entries (some c) = then-Keeps (had _) (λ names. post_directories-Keeps id names)

  pub handle_list_directories-Keeps :
      (id : ℕ) (name : Text) (entries : Result Entries)
      → Keeps N I Any (handle_list_directories lib id name entries)
  unfolding handle_list_directories
  handle_list_directories-Keeps id name entries =
      then-Keeps (gets-Keeps _) (λ o. listed id name entries o)

  unwatch_previous-Keeps : (o : Option Text) → Keeps N I Any (unwatch_previous lib o)
  unfolding unwatch_previous
  unwatch_previous-Keeps none = gave tt
  unwatch_previous-Keeps (some dir) = explaining-Keeps _ _ (call-Keeps k _)

  pub handle_open_directory-Keeps : (name : Text) → Keeps N I Any (handle_open_directory lib name)
  unfolding handle_open_directory
  handle_open_directory-Keeps name = then-Keeps (open_maildir-Keeps k lib name) (λ dir.
      then-Keeps (gets-Keeps _) (λ previous. then-Keeps (unwatch_previous-Keeps previous) (λ _.
        then-Keeps (set_selected-Keeps k dir name) (λ _.
          then-Keeps (explaining-Keeps _ _ (call-Keeps k _)) (λ _.
            then-Keeps (explaining-Keeps _ _ (call-Keeps k _)) (λ _.
              then-Keeps (get_directory_info-Keeps name) (λ info.
                then-Keeps (post-Keeps k (directory_info info) tt)
                  (λ _. post-Keeps k (directory_info info) tt))))))))

  pub set_one_flag-Keeps :
      (flag : ℕ) (enable : Bool) (m : Mail) → Keeps N I Any (set_one_flag lib flag enable m)
  unfolding set_one_flag
  set_one_flag-Keeps flag enable m =
      then-Keeps (explaining-Keeps _ _ (flags_of-Keeps m)) (λ flags. call-Keeps k _)

  pub body_part-Keeps : (index : List ℕ) (m : Mail) → Keeps N I Any (body_part lib index m)
  unfolding body_part
  body_part-Keeps index m =
      then-Keeps (call-Keeps k _) (λ t. then-Keeps (explaining-Keeps _ _ (had _)) (λ e. had _))

  after_removal :
      (dir : Text) (uid : ℕ) (uids : List ℕ) (r : Result (Unit {0}))
      → Keeps N I Any (delete_all lib dir uids)
      → Keeps N I {A = List ℕ × Option Text} Any (elim r [
        | err e ↦ give ([], some e)
        | ok _ ↦ (do (success, failed) ← delete_all lib dir uids; give (uid ∷ success, failed))
      ])
  after_removal dir uid uids (err e) h = gave _
  after_removal dir uid uids (ok _) h = then-Keeps h (λ p. gave _)

  pub delete_all-Keeps : (dir : Text) (uids : List ℕ) → Keeps N I Any (delete_all lib dir uids)
  unfolding delete_all
  delete_all-Keeps dir [] = gave _
  delete_all-Keeps dir (uid ∷ uids) =
      then-Keeps (tried _ (then-Keeps (message-Keeps k lib dir uid) (λ m. call-Keeps k _)))
        (λ r. after_removal dir uid uids r (delete_all-Keeps dir uids))

  pub copy_all-Keeps :
      (dest src : Text) (uids : List ℕ) → Keeps N I Any (copy_all lib dest src uids)
  unfolding copy_all
  copy_all-Keeps dest src [] = gave _
  copy_all-Keeps dest src (uid ∷ uids) =
      then-Keeps
        (explaining-Keeps _ _
          (then-Keeps (container_of-Keeps k) (λ c. then-Keeps (had _) (λ key. call-Keeps k _))))
        (λ _. copy_all-Keeps dest src uids)
