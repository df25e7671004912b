-- ===== src/Maildir/Answering.antt =====
-- worker/maildir: what an action posts.
use mathlib.Core.List.{append_assoc, append-nil}
use nyat.Common.{
  ℕ, Bool, true, false, List, [], ◌∷◌, ◌++◌, Option, none, some, Text, Result, ok, err, All,
  All-append, ◌≡◌, refl, sym, ap, ◌∙◌,
}
use nyat.Models.{Post, done, error, unsupported, Ref}
use nyat.Maildir.Steps.{Library, MaildirWorker, ◌>>=◌, next, caught, try, post}
use nyat.Maildir.Worker.{Action}
use nyat.Maildir.Actions.{answer, handle_action}
use nyat.Maildir.Kept.{IsPartial, IsKept, Leaves, panics, fails, gives, Any}
use nyat.Maildir.Acting.{handle_message-Keeps}
use nyat.Maildir.Safe.{IsReady, IsReady-IsKept}

-- An answer that ends an action.
abbrev pub IsAnswer : ℕ → Post → Type 0
IsAnswer id (done k) = k ≡ id
IsAnswer id (unsupported k) = k ≡ id
IsAnswer id (error (some k) e) = k ≡ id
IsAnswer id _ = ⊥

-- Messages behind earlier ones, none of which is Done or Unsupported; a worker that was ready still is.
record Behind {D : Type 0} (before w : MaildirWorker D) : Type 0 where
  middle : List Post
  posted : w.posts ≡ before.posts ++ middle
  partial : All IsPartial middle
  ready : IsReady before → IsReady w

-- A step that posts nothing.
silent :
    {D : Type 0} {before w w' : MaildirWorker D}
    → w'.posts ≡ w.posts
    → (IsReady w → IsReady w')
    → Behind before w
    → Behind before w'
silent e f i = record {
  middle = i.middle;
  posted = e ∙ i.posted;
  partial = i.partial;
  ready = λ r. f (i.ready r);
}

-- An invariant of what an action does, which panics only for a worker that was not ready.
Behind-IsKept : {D : Type 0} (before : MaildirWorker D) → IsKept (¬ IsReady before) (Behind before)
Behind-IsKept before = record {
  disk = λ w d i. silent refl (IsReady-IsKept.disk w d) i;
  stored = λ w c n i. silent refl (IsReady-IsKept.stored w c n) i;
  chosen = λ w dir name i. silent refl (IsReady-IsKept.chosen w dir name) i;
  criteria = λ w cs i. silent refl (IsReady-IsKept.criteria w cs) i;
  posted = λ w p h i. record {
    middle = i.middle ++ p ∷ [];
    posted = ap (λ l. l ++ p ∷ []) i.posted ∙ append_assoc before.posts i.middle (p ∷ []);
    partial = All-append IsPartial i.middle (p ∷ []) i.partial (h, tt);
    ready = λ r. IsReady-IsKept.posted w p h (i.ready r);
  };
  no_container = λ w i e r. IsReady-IsKept.no_container w (i.ready r) e;
  no_selected = λ w i e r. IsReady-IsKept.no_selected w (i.ready r) e;
}

answer-IsAnswer : (id : ℕ) (r : Result Bool) → IsAnswer id (answer id r)
answer-IsAnswer id (err e) = refl
answer-IsAnswer id (ok true) = refl
answer-IsAnswer id (ok false) = refl

-- What is posted of an action: messages behind the earlier ones, and last the answer.
abbrev pub Answered :
    {D : Type 0} → ℕ → MaildirWorker D → Option (Result (Unit {0}) × MaildirWorker D) → Type 0
Answered id before none = ¬ IsReady before
Answered id before (some (r, w)) =
    (middle : List Post) × (last : Post) × (w.posts ≡ before.posts ++ (middle ++ last ∷ []))
    × All IsPartial middle
    × IsAnswer id last

with_answer :
    {D : Type 0} (before w : MaildirWorker D) (id : ℕ) (r : Result Bool)
    → Behind before w
    → Answered id before (post (answer id r) w)
unfolding post
with_answer before w id r i = (
  i.middle,
  answer id r,
  ap (λ l. l ++ answer id r ∷ []) i.posted ∙ append_assoc before.posts i.middle _,
  i.partial,
  answer-IsAnswer id r,
)

finished :
    {D : Type 0} (id : ℕ) (before : MaildirWorker D) {o : Option (Result Bool × MaildirWorker D)}
    → Leaves (¬ IsReady before) (Behind before) Any o
    → Answered id before (next (λ r. post (answer id r)) (caught o))
unfolding next caught
finished id before (panics h) = h
finished id before (fails {e} i) = with_answer before _ id (err e) i
finished id before (gives {a} r i) = with_answer before _ id (ok a) i

module _ {D : Type 0} (lib : Library D) (is_upper : ℕ → Bool) (lower : ℕ → ℕ)
    (reader_of : Text → Ref) where
  -- Whatever go-maildir and the file system answer, the messages that an action posts stand behind
  -- those posted before it; the last of them is its answer, Done, Unsupported or an error, and none
  -- before that is Done or Unsupported. An action panics at most if the worker has no container or
  -- no selected directory.
  pub handle_action-Answered :
      (id : ℕ) (a : Action) (w : MaildirWorker D)
      → Answered id w (handle_action lib is_upper lower reader_of id a w)
  unfolding handle_action ◌>>=◌ try
  handle_action-Answered id a w = finished id w (
      (handle_message-Keeps (Behind-IsKept w) lib is_upper lower reader_of id a).run w
        (record { middle = []; posted = sym (append-nil w.posts); partial = tt; ready = λ r. r }))
