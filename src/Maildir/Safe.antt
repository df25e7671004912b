-- ===== src/Maildir/Safe.antt =====
-- worker/maildir: with a container and a selected directory, the worker does not panic.
use nyat.Common.{ℕ, Bool, true, Option, none, some, Text, Result, ◌≡◌, refl, is_some, arith}
use nyat.Models.{Ref}
use nyat.Maildir.Steps.{Library, MaildirWorker, ◌>>=◌, next, caught, try, post}
use nyat.Maildir.Actions.{answer, handle_action, MaildirEvent, received, fs_event, run_event}
use nyat.Maildir.Kept.{IsKept, Leaves, panics, fails, gives, Any}
use nyat.Maildir.Handling.{handle_fs_event-Keeps}
use nyat.Maildir.Acting.{handle_message-Keeps}

-- The worker has been configured, and a directory has been opened.
pub record IsReady {D : Type 0} (w : MaildirWorker D) : Type 0 where
  pub configured : is_some w.container ≡ true
  pub opened : is_some w.selected ≡ true

pub IsReady-IsKept : {D : Type 0} → IsKept {D = D} ⊥ IsReady
IsReady-IsKept = record {
  disk = λ w d i. record { configured = i.configured; opened = i.opened };
  stored = λ w c n i. record { configured = refl; opened = i.opened };
  chosen = λ w dir name i. record { configured = i.configured; opened = refl };
  criteria = λ w cs i. record { configured = i.configured; opened = i.opened };
  posted = λ w p h i. record { configured = i.configured; opened = i.opened };
  no_container = λ w i e. ground (arith, i.configured, e);
  no_selected = λ w i e. ground (arith, i.opened, e);
}

-- No panic, and the worker is ready again.
abbrev pub StaysReady : {D : Type 0} → Option (Result (Unit {0}) × MaildirWorker D) → Type 0
StaysReady none = ⊥
StaysReady (some (r, w)) = IsReady w

acted :
    {D : Type 0} (id : ℕ) {o : Option (Result Bool × MaildirWorker D)}
    → Leaves ⊥ IsReady Any o
    → StaysReady (next (λ r. post (answer id r)) (caught o))
unfolding next caught post
acted id (panics h) = absurd h
acted id (fails i) = record { configured = i.configured; opened = i.opened }
acted id (gives q i) = record { configured = i.configured; opened = i.opened }

left :
    {D : Type 0} {o : Option (Result (Unit {0}) × MaildirWorker D)}
    → Leaves ⊥ IsReady Any o
    → StaysReady o
left (panics h) = absurd h
left (fails i) = i
left (gives q i) = i

module _ {D : Type 0} (lib : Library D) (is_upper : ℕ → Bool) (lower : ℕ → ℕ)
    (reader_of : Text → Ref) where
  -- Once the worker has been configured and a directory opened, no action and no event of the file
  -- system panics, whatever go-maildir and the file system answer, and this stays so.
  pub run_event-IsReady :
      (e : MaildirEvent) (w : MaildirWorker D)
      → IsReady w
      → StaysReady (run_event lib is_upper lower reader_of e w)
  unfolding run_event handle_action ◌>>=◌ try
  run_event-IsReady (received id a) w i =
      acted id ((handle_message-Keeps IsReady-IsKept lib is_upper lower reader_of id a).run w i)
  run_event-IsReady (fs_event b) w i =
      left ((handle_fs_event-Keeps IsReady-IsKept lib lower b).run w i)
