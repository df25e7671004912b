-- ===== src/Worker/Callbacks.antt =====
-- The callbacks of worker/types/worker.go: which answers they are called with.
use nyat.Common.{
  ℕ, Bool, true, false, List, [], ◌∷◌, ◌++◌, map, Option, none, some, if◌then◌else◌, ◌==◌, ◌≡◌,
  refl, arith, inl, inr, Bool-cases, ◌∙◌, ap,
}
use nyat.Common.Dict.{Dict, lookup, remove, lookup-insert, lookup-remove, nat_eq}
use nyat.Models.{Ref}
use nyat.Worker.{Message, Worker, next_id, post_action, deliver, process_message}

-- A list of answers, one after another: the calls made.
unfoldable pub process_all : List Message → Worker → List (Ref × Message)
unfolding process_message
process_all [] w = []
process_all (m ∷ ms) w = let (calls, w') = process_message m w in calls ++ process_all ms w'

abbrev pub answers : ℕ → Message → Bool
answers id m = elim m.in_response_to [ none ↦ false | some i ↦ i == id ]

-- The calls that answer a given action.
abbrev pub calls_for : ℕ → List (Ref × Message) → List (Ref × Message)
calls_for id [] = []
calls_for id (c ∷ cs) = let rest = calls_for id cs in if answers id c.1 then c ∷ rest else rest

-- The answers to an action, up to the one that ends it.
abbrev pub until_done : ℕ → List Message → List Message
until_done id [] = []
until_done id (m ∷ ms) =
    let rest = until_done id ms in
    if answers id m then if m.is_done then m ∷ [] else m ∷ rest else rest

calls_for-append :
    (id : ℕ) (xs ys : List (Ref × Message))
    → calls_for id (xs ++ ys) ≡ calls_for id xs ++ calls_for id ys
calls_for-append id [] ys = refl
calls_for-append id (x ∷ xs) ys = ground (arith, calls_for-append id xs ys)

-- An answer to an action whose callback is there, and one to something else.
deliver_own :
    (m : Message) (id : ℕ) (cbs : Dict ℕ Ref) (cb : Ref)
    → lookup id cbs ≡ some cb
    → answers id m ≡ true
    → deliver m cbs ≡ ((cb, m) ∷ [], if m.is_done then remove id cbs else cbs)
unfolding deliver
deliver_own m id cbs cb h e = ground (arith, h, e)

deliver_other_calls :
    (m : Message) (id : ℕ) (cbs : Dict ℕ Ref)
    → answers id m ≡ false
    → calls_for id (deliver m cbs).0 ≡ []
unfolding deliver
deliver_other_calls m id cbs e = ground (arith, e)

lookup-deliver_other :
    (m : Message) (id : ℕ) (cbs : Dict ℕ Ref) (o : Option ℕ)
    → m.in_response_to ≡ o
    → answers id m ≡ false
    → lookup id (deliver m cbs).1 ≡ lookup id cbs
unfolding deliver
lookup-deliver_other m id cbs none q e = ground (arith, q)
lookup-deliver_other m id cbs (some i) q e = ground (arith, q, e, lookup-remove i id cbs)

deliver_missing :
    (m : Message) (id : ℕ) (cbs : Dict ℕ Ref)
    → lookup id cbs ≡ none
    → answers id m ≡ true
    → deliver m cbs ≡ ([], cbs)
unfolding deliver
deliver_missing m id cbs h e = ground (arith, h, e)

-- A worker after one answer.
abbrev after_one : Message → Worker → Worker
after_one m w = record w { action_callbacks = (deliver m w.action_callbacks).1 }

process_all_cons :
    (m : Message) (ms : List Message) (w : Worker) (id : ℕ)
    → calls_for id (process_all (m ∷ ms) w)
      ≡ calls_for id (deliver m w.action_callbacks).0
        ++ calls_for id (process_all ms (after_one m w))
unfolding process_all process_message
process_all_cons m ms w id = calls_for-append id (deliver m w.action_callbacks).0 _

-- Without a callback an answer calls nothing, and brings none.
missing_one :
    (m : Message) (id : ℕ) (cbs : Dict ℕ Ref)
    → lookup id cbs ≡ none
    → (calls_for id (deliver m cbs).0 ≡ []) × (lookup id (deliver m cbs).1 ≡ none)
missing_one m id cbs h = elim (Bool-cases (answers id m)) [
  | inl e ↦ rw (deliver_missing m id cbs h e) (refl, h)
  | inr e ↦
      (deliver_other_calls m id cbs e, lookup-deliver_other m id cbs m.in_response_to refl e ∙ h)
]

calls_for-none :
    (ms : List Message) (w : Worker) (id : ℕ)
    → lookup id w.action_callbacks ≡ none
    → calls_for id (process_all ms w) ≡ []
unfolding process_all
calls_for-none [] w id h = refl
calls_for-none (m ∷ ms) w id h =
    let (q, r) = missing_one m id w.action_callbacks h in
    process_all_cons m ms w id
    ∙ ap (λ (l : List (Ref × Message)). l ++ calls_for id (process_all ms (after_one m w))) q
    ∙ calls_for-none ms (after_one m w) id r

abbrev pub call : Ref → Message → Ref × Message
call cb m = (cb, m)

-- With one an answer calls it, and the last one removes it.
own_one :
    (m : Message) (id : ℕ) (cbs : Dict ℕ Ref) (cb : Ref)
    → lookup id cbs ≡ some cb
    → answers id m ≡ true
    → (calls_for id (deliver m cbs).0 ≡ call cb m ∷ [])
      × (lookup id (deliver m cbs).1 ≡ (if m.is_done then none else some cb))
own_one m id cbs cb h e =
    rw (deliver_own m id cbs cb h e) (rw e refl, ground (arith, h, lookup-remove id id cbs))

until_done_last :
    (m : Message) (id : ℕ) (ms : List Message)
    → answers id m ≡ true
    → m.is_done ≡ true
    → until_done id (m ∷ ms) ≡ m ∷ []
until_done_last m id ms e d = ground (arith, e, d)

until_done_more :
    (m : Message) (id : ℕ) (ms : List Message)
    → answers id m ≡ true
    → m.is_done ≡ false
    → until_done id (m ∷ ms) ≡ m ∷ until_done id ms
until_done_more m id ms e d = ground (arith, e, d)

own_last :
    (m : Message) (o : Option Ref) (cb : Ref)
    → m.is_done ≡ true
    → o ≡ (if m.is_done then none else some cb)
    → o ≡ none
own_last m o cb d r = ground (arith, d, r)

own_more :
    (m : Message) (o : Option Ref) (cb : Ref)
    → m.is_done ≡ false
    → o ≡ (if m.is_done then none else some cb)
    → o ≡ some cb
own_more m o cb d r = ground (arith, d, r)

calls_for-some :
    (ms : List Message) (w : Worker) (id : ℕ) (cb : Ref)
    → lookup id w.action_callbacks ≡ some cb
    → calls_for id (process_all ms w) ≡ map (call cb) (until_done id ms)
unfolding process_all
calls_for-some [] w id cb h = refl
calls_for-some (m ∷ ms) w id cb h = elim (Bool-cases (answers id m)) [
  | inl e ↦
      let (q, r) = own_one m id w.action_callbacks cb h e in
      elim (Bool-cases m.is_done) [
        | inl d ↦
            process_all_cons m ms w id
            ∙ rw q (
                rw (until_done_last m id ms e d) (
                  ap (◌∷◌ (call cb m))
                    (calls_for-none ms (after_one m w) id (own_last m _ cb d r))))
        | inr d ↦
            process_all_cons m ms w id
            ∙ rw q (
                rw (until_done_more m id ms e d) (
                  ap (◌∷◌ (call cb m))
                    (calls_for-some ms (after_one m w) id cb (own_more m _ cb d r))))
      ]
  | inr e ↦
      process_all_cons m ms w id
      ∙ rw (deliver_other_calls m id w.action_callbacks e) (
          rw e (
            calls_for-some ms (after_one m w) id cb
              (lookup-deliver_other m id w.action_callbacks m.in_response_to refl e ∙ h)))
]

-- After `post_action` with a callback, whatever answers come, the callback is called with each
-- answer to this action, in order, up to the one that says it is done and with none after it.
pub post_action-calls :
    (msg : Message) (cb : Ref) (w : Worker) (last_id : ℕ) (ms : List Message)
    → let (w', id) = post_action msg (some cb) w last_id in
      calls_for id (process_all ms w') ≡ map (call cb) (until_done id ms)
unfolding post_action
post_action-calls msg cb w last_id ms =
    calls_for-some ms _ (next_id last_id) cb
      (lookup-insert (next_id last_id) (next_id last_id) cb w.action_callbacks ∙ ground arith)
