-- ===== src/Maildir/Steps.antt =====
-- worker/maildir: the state of the worker and the steps that its methods are made of. What go-maildir,
-- the file system and the file watcher do is a parameter: each call takes the state of the disk and
-- gives the state after it. Log lines are left out.
use nyat.Common.{ℕ, Bool, List, [], ◌∷◌, ◌++◌, Option, none, some, Text, Result, ok, err}
use nyat.Common.Dict.{nat_eq}
use nyat.Models.{Ref, Post, SortCriterion}
use nyat.Uidstore.{Store}
use nyat.Maildir.Parse.{Entity}
use nyat.Maildir.Envelope.{explain}

-- The calls of go-maildir, with a directory and a key, and of the other libraries.
pub record Library (Disk : Type 0) : Type 0 where
  pub join : Text → Text → Text
  pub is_dir : Text → Disk → Result Bool
  pub keys : Text → Disk → Disk × Result (List Text)
  pub unseen : Text → Disk → Disk × Result (List Text)
  pub unseen_count : Text → Disk → Disk × (ℕ × Option Text)
  pub flags : Text → Text → Disk → Disk × Result (List ℕ)
  pub set_flags : Text → Text → List ℕ → Disk → Disk × Result (Unit {0})
  pub remove : Text → Text → Disk → Disk × Result (Unit {0})
  pub copy : (dest src key : Text) → Disk → Disk × Result (Unit {0})
  pub clean : Text → Disk → Disk × Result (Unit {0})
  pub init : Text → Disk → Disk × Result (Unit {0})
  pub remove_all : Text → Disk → Disk × Result (Unit {0})
  pub create : Text → List ℕ → Ref → Disk → Disk × Result (Unit {0})
  pub watch : Text → Disk → Disk × Result (Unit {0})
  pub unwatch : Text → Disk → Disk × Result (Unit {0})
  pub open_file : Text → Text → Disk → Disk × Result Text
  pub read_message : Text → Result Entity
  pub find_date : Text → Text
  pub time_of : Text → Text → Result ℕ

pub record Container : Type 0 where
  pub dir : Text
  pub uids : Store

-- A `Message` of the container: its directory, its uid and its key.
pub record Mail : Type 0 where
  pub dir : Text
  pub uid : ℕ
  pub key : Text

-- The worker, with the counter of all uid stores, the disk and the messages that it has posted.
pub record MaildirWorker (Disk : Type 0) : Type 0 where
  pub container : Option Container
  pub selected : Option Text
  pub selected_name : Text
  pub current_sort_criteria : List SortCriterion
  pub next_uid : ℕ
  pub disk : Disk
  pub posts : List Post

-- A step of the worker: a panic, or a result or an error and the worker after it.
abbrev pub Step : Type 0 → Type 0 → Type 0
Step Disk A = MaildirWorker Disk → Option (Result A × MaildirWorker Disk)

unfoldable pub next :
    {D A B : Type 0}
    → (A → Step D B)
    → Option (Result A × MaildirWorker D)
    → Option (Result B × MaildirWorker D)
next f none = none
next f (some (err e, w)) = some (err e, w)
next f (some (ok a, w)) = f a w

-- A step and, without an error, the next.
infixl 5 ◌>>=◌ ◌>>◌
unfoldable pub ◌>>=◌ : {D A B : Type 0} → Step D A → (A → Step D B) → Step D B
unfolding next
◌>>=◌ m f w = next f (m w)

abbrev pub ◌>>◌ : {D A B : Type 0} → Step D A → Step D B → Step D B
m >> k = m >>= λ _. k

unfoldable pub give : {D A : Type 0} → A → Step D A
give a w = some (ok a, w)

unfoldable pub fail : {D A : Type 0} → Text → Step D A
fail e w = some (err e, w)

unfoldable pub panic : {D A : Type 0} → Step D A
panic w = none

unfoldable pub from_result : {D A : Type 0} → Result A → Step D A
from_result r w = some (r, w)

-- A call of a library.
unfoldable pub call : {D A : Type 0} → (D → D × Result A) → Step D A
call f w = let (d, r) = f w.disk in some (r, record w { disk = d })

-- `PostMessage`
unfoldable pub post : {D : Type 0} → Post → Step D (Unit {0})
post p w = some (ok tt, record w { posts = w.posts ++ p ∷ [] })

-- A step with its error as a value, where the caller goes on.
unfoldable pub caught :
    {D A : Type 0}
    → Option (Result A × MaildirWorker D)
    → Option (Result (Result A) × MaildirWorker D)
caught none = none
caught (some (r, w)) = some (ok r, w)

unfoldable pub try : {D A : Type 0} → Step D A → Step D (Result A)
unfolding caught
try m w = caught (m w)

-- An error with a text before it.
unfoldable pub explained :
    {D A : Type 0}
    → Text
    → Option (Result A × MaildirWorker D)
    → Option (Result A × MaildirWorker D)
unfolding explain
explained prefix none = none
explained prefix (some (r, w)) = some (explain prefix r, w)

unfoldable pub explaining : {D A : Type 0} → Text → Step D A → Step D A
unfolding explained
explaining prefix m w = explained prefix (m w)

-- A field that is a pointer, which may be nil.
unfoldable pub not_nil : {D A : Type 0} → Option A → Step D A
not_nil none w = none
not_nil (some a) w = some (ok a, w)

unfoldable pub selected_dir : {D : Type 0} → Step D Text
unfolding not_nil
selected_dir w = not_nil w.selected w

unfoldable pub container_of : {D : Type 0} → Step D Container
unfolding not_nil
container_of w = not_nil w.container w

-- What is read of the worker.
unfoldable pub gets : {D A : Type 0} → (MaildirWorker D → A) → Step D A
gets f w = some (ok (f w), w)

unfoldable pub set_container : {D : Type 0} → Container → Step D (Unit {0})
set_container c w = some (ok tt, record w { container = some c })

unfoldable pub set_selected : {D : Type 0} → (dir name : Text) → Step D (Unit {0})
set_selected dir name w = some (ok tt, record w { selected = some dir; selected_name = name })

unfoldable pub set_criteria : {D : Type 0} → List SortCriterion → Step D (Unit {0})
set_criteria criteria w = some (ok tt, record w { current_sort_criteria = criteria })
