-- ===== src/Imap/Answers.antt =====
-- worker/imap: the final answers to an action, which end the wait of the one who posted it.
use nyat.Common.{
  Result, err, ok, ℕ, suc, ◌+◌, Bool, false, List, [], ◌∷◌, ◌++◌, Option, none, some, Text, ◌==◌,
  if◌then◌else◌, ◌≡◌, refl, arith, ◌>>=◌,
}
use nyat.Models.{Post, done, error, unsupported}
use nyat.Imap.{ImapWorker, ImapMessage, put_uid}
use nyat.Imap.Fetching.{Proc, Fetched, proceed, fetch_loop, fetch_messages}
use nyat.Imap.Updates.{
  Action, unsupported_action, configure_action, create_action, remove_action, flag_action,
  answered_action, search_action, Handled, posting,
}

abbrev pub is_final : ℕ → Post → Bool
is_final id (done k) = k == id
is_final id (error (some k) e) = k == id
is_final id (unsupported k) = k == id
is_final id _ = false

-- How many final answers to an action are among messages.
abbrev pub finals : ℕ → List Post → ℕ
finals id [] = 0
finals id (p ∷ posts) = let rest = finals id posts in if is_final id p then suc rest else rest

-- How many there should be: none for a message that is no action, for a configuration, for a quiet failure, for the results
-- of a search, and where headers are to be fetched first.
abbrev pub expected : Action → ℕ
expected unsupported_action = 0
expected (configure_action (ok u) folders) = 0
expected (create_action quiet (some e)) = if quiet then 0 else 1
expected (remove_action quiet (some e)) = if quiet then 0 else 1
expected (search_action none (ok uids)) = 0
expected (flag_action uids none) = 0
expected (answered_action uids none) = 0
expected _ = 1

pub finals-append :
    (id : ℕ) (ps qs : List Post) → finals id (ps ++ qs) ≡ finals id ps + finals id qs
finals-append id [] qs = omega arith
finals-append id (p ∷ ps) qs = ground (arith, finals-append id ps qs)

-- A result without final answers.
abbrev pub Quiet : ℕ → Result (List Post) → Type 0
Quiet id (err e) = Unit
Quiet id (ok posts) = finals id posts ≡ 0

abbrev QuietLoop : ℕ → Option Fetched → Type 0
QuietLoop id none = Unit
QuietLoop id (some (last, posts, failed)) = finals id posts ≡ 0

proceed-Quiet :
    (id : ℕ) (r : Result (List Post)) (m : List ℕ) (rest : Option Fetched)
    → Quiet id r
    → QuietLoop id rest
    → QuietLoop id (proceed r m rest)
unfolding proceed
proceed-Quiet id (err e) m rest h k = refl
proceed-Quiet id (ok posts) m none h k = tt
proceed-Quiet id (ok posts) m (some (last, more, failed)) h k =
    omega (arith, finals-append id posts more, h, k)

bind-Quiet :
    (id : ℕ) (o : Option (List ℕ)) (f : List ℕ → Option Fetched)
    → ((m : List ℕ) → QuietLoop id (f m))
    → QuietLoop id (o >>= f)
bind-Quiet id none f h = tt
bind-Quiet id (some m) f h = h m

fetch_loop-Quiet :
    (id : ℕ) (proc : Proc) (messages : List ImapMessage) (seq_map : List ℕ)
    → ((m : ImapMessage) → Quiet id (proc m))
    → QuietLoop id (fetch_loop proc messages seq_map)
unfolding fetch_loop
fetch_loop-Quiet id proc [] seq_map h = refl
fetch_loop-Quiet id proc (m ∷ messages) seq_map h =
    bind-Quiet id (put_uid m.seq_num m.uid seq_map) _ (λ updated.
      proceed-Quiet id (proc m) updated (fetch_loop proc messages updated) (h m)
        (fetch_loop-Quiet id proc messages updated h))

-- An outcome that is a panic or has n final answers.
abbrev pub Answers : ℕ → ℕ → Option Handled → Type 0
Answers id n none = Unit
Answers id n (some (w, (posts, uids))) = finals id posts ≡ n

fetched-Answers :
    (id : ℕ) (o : Option Fetched) (failed : Option Text) (w : ImapWorker)
    → QuietLoop id o
    → Answers id 1 (
        posting (do
          (seq_map, posts, bad) ← o
          some (
            record w { seq_map = seq_map },
            posts ++ (elim failed [
              | some e ↦ error (some id) e ∷ []
              | none ↦ elim bad [ some e ↦ error (some id) e ∷ [] | none ↦ done id ∷ [] ]
            ]),
          )))
fetched-Answers id none failed w h = tt
fetched-Answers id (some (m, posts, bad)) (some e) w h =
    ground (arith, finals-append id posts (error (some id) e ∷ []), h)
fetched-Answers id (some (m, posts, some e)) none w h =
    ground (arith, finals-append id posts (error (some id) e ∷ []), h)
fetched-Answers id (some (m, posts, none)) none w h =
    ground (arith, finals-append id posts (done id ∷ []), h)

pub fetch_messages-Answers :
    (id : ℕ) (proc : Proc) (ms : List ImapMessage) (failed : Option Text) (w : ImapWorker)
    → ((m : ImapMessage) → Quiet id (proc m))
    → Answers id 1 (posting (fetch_messages id proc ms failed w))
unfolding fetch_messages
fetch_messages-Answers id proc ms failed w h =
    fetched-Answers id (fetch_loop proc ms w.seq_map) failed w
      (fetch_loop-Quiet id proc ms w.seq_map h)
