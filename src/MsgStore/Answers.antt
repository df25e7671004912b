-- ===== src/MsgStore/Answers.antt =====
-- lib/msgstore.go: the answers to requests for headers.
use mathlib.Core.List.{append-nil}
use nyat.Common.{
  ℕ, ◌≡◌, refl, ap, ◌∙◌, true, false, not, ◌&&◌, List, [], ◌∷◌, ◌++◌, map, none, some, arith,
  ==_refl, inl, inr, Bool-cases, if◌then◌else◌,
}
use nyat.Common.Dict.{remove, has, nat_eq, lookup-remove}
use nyat.Models.{Ref, MessageInfo, Envelope}
use nyat.MsgStore.State.{
  MessageStore, Effect, posted, called, called_plain, new_email, updated, updated_dirs,
  directory_changed, WorkerMessage, message_info, notify, Outcome,
}
use nyat.MsgStore.Fetch.{fetch_headers}
use nyat.MsgStore.Update.{store_info, flag_loop, on_message_info, update}
use nyat.MsgStore.Fetching.{waiting, fetch_headers-Requests}

-- The calls of callbacks among the effects.
abbrev pub calls_of : List Effect → List Effect
calls_of [] = []
calls_of (called cb msg ∷ es) = called cb msg ∷ calls_of es
calls_of (posted a k ∷ es) = calls_of es
calls_of (called_plain cb ∷ es) = calls_of es
calls_of (new_email m ∷ es) = calls_of es
calls_of (updated f ∷ es) = calls_of es
calls_of (updated_dirs f ∷ es) = calls_of es
calls_of (directory_changed f ∷ es) = calls_of es

calls_of-append : (xs ys : List Effect) → calls_of (xs ++ ys) ≡ calls_of xs ++ calls_of ys
calls_of-append [] ys = refl
calls_of-append (called cb msg ∷ es) ys = ap (◌∷◌ (called cb msg)) (calls_of-append es ys)
calls_of-append (posted a k ∷ es) ys = calls_of-append es ys
calls_of-append (called_plain cb ∷ es) ys = calls_of-append es ys
calls_of-append (new_email m ∷ es) ys = calls_of-append es ys
calls_of-append (updated f ∷ es) ys = calls_of-append es ys
calls_of-append (updated_dirs f ∷ es) ys = calls_of-append es ys
calls_of-append (directory_changed f ∷ es) ys = calls_of-append es ys

abbrev pub call_each : List Ref → WorkerMessage → List Effect
call_each cbs msg = map (λ cb. called cb msg) cbs

calls_of-call_each :
    (cbs : List Ref) (msg : WorkerMessage) → calls_of (call_each cbs msg) ≡ call_each cbs msg
calls_of-call_each [] msg = refl
calls_of-call_each (cb ∷ cbs) msg = ap (◌∷◌ (called cb msg)) (calls_of-call_each cbs msg)

calls_of-notify : (s : MessageStore) → calls_of (notify s) ≡ []
unfolding notify
calls_of-notify s = ground arith

store_info_rest :
    (info : MessageInfo) (s : MessageStore)
    → ((store_info info s).pending_headers ≡ s.pending_headers)
      × ((store_info info s).header_callbacks ≡ s.header_callbacks)
unfolding store_info
store_info_rest info s = ground arith

-- The message of a new mail, if the flags say so, calls no callback.
email_part : MessageInfo → List Effect
email_part info =
    let (recent, seen) = flag_loop info.flags (false, false) in
    if not seen && recent then new_email info ∷ [] else []

calls_of-email_part : (info : MessageInfo) → calls_of (email_part info) ≡ []
unfolding email_part
calls_of-email_part info = ground arith

module _ (info : MessageInfo) (s : MessageStore) where
  on_answer :
      (e : Envelope)
      → info.envelope ≡ some e
      → has info.uid s.pending_headers ≡ true
      → on_message_info info s ≡ record {
        store = record (store_info info s) { pending_headers = remove info.uid s.pending_headers };
        effects =
            email_part info ++ call_each (waiting info.uid s.header_callbacks) (message_info info);
        update = true;
        directory_change = false;
      }
  unfolding on_message_info email_part store_info
  on_answer e h p = ground arith

  on_other :
      has info.uid s.pending_headers ≡ false
      → on_message_info info s ≡ record {
        store = store_info info s;
        effects = email_part info;
        update = true;
        directory_change = false;
      }
  unfolding on_message_info email_part store_info
  on_other p = ground arith

  calls_of_update :
      (xs : List Effect) → (t : MessageStore) → calls_of ((xs ++ notify t) ++ []) ≡ calls_of xs
  calls_of_update xs t =
      ap calls_of (append-nil (xs ++ notify t))
      ∙ calls_of-append xs (notify t)
      ∙ ap (λ (l : List Effect). calls_of xs ++ l) (calls_of-notify t)
      ∙ append-nil (calls_of xs)

  abbrev pub asked : List Effect
  asked = call_each (waiting info.uid s.header_callbacks) (message_info info)

  abbrev settled : MessageStore
  settled = record (store_info info s) { pending_headers = remove info.uid s.pending_headers }

  -- What an answer does, with the calls that it makes.
  abbrev pub Answers : List Effect → Outcome → Type 0
  Answers calls (t, effects) =
      (calls_of effects ≡ calls)
      × (has info.uid t.pending_headers ≡ false)
      × (t.header_callbacks ≡ s.header_callbacks)

  answer_pending :
      (e : Envelope)
      → info.envelope ≡ some e
      → has info.uid s.pending_headers ≡ true
      → Answers asked (update (message_info info) s)
  unfolding update
  answer_pending e h p = rw (on_answer e h p) (
    calls_of_update (email_part info ++ asked) settled
        ∙ calls_of-append (email_part info) asked
        ∙ ap (λ (l : List Effect). l ++ calls_of asked) (calls_of-email_part info)
        ∙ calls_of-call_each (waiting info.uid s.header_callbacks) (message_info info),
    ground (arith, lookup-remove info.uid info.uid s.pending_headers),
    (store_info_rest info s).1,
  )

  answer_unasked :
      has info.uid s.pending_headers ≡ false → Answers [] (update (message_info info) s)
  unfolding update
  answer_unasked p = rw (on_other p) (
    calls_of_update (email_part info) (store_info info s) ∙ calls_of-email_part info,
    ground (arith, (store_info_rest info s).0),
    (store_info_rest info s).1,
  )

  -- A `MessageInfo` with an envelope, for a uid whose headers are asked for, calls each callback that
  -- waits for the uid, once and in order; for any other uid it calls none. Afterwards the uid is
  -- not under way. The list of callbacks stays as it was.
  pub update-message_info :
      (e : Envelope)
      → info.envelope ≡ some e
      → Answers
          (if has info.uid s.pending_headers then asked else [])
          (update (message_info info) s)
  update-message_info e h = elim (Bool-cases (has info.uid s.pending_headers)) [
    | inl p ↦ rw p (answer_pending e h p)
    | inr p ↦ rw p (answer_unasked p)
  ]

waiting_same :
    (uid : ℕ) (s t : MessageStore)
    → t.header_callbacks ≡ s.header_callbacks
    → waiting uid t.header_callbacks ≡ waiting uid s.header_callbacks
waiting_same uid s t e = ap (waiting uid) e

-- The headers of a message are asked for and come, twice over.
abbrev pub first_answer : MessageInfo → Ref → MessageStore → MessageStore
first_answer info a s = (update (message_info info) (fetch_headers (info.uid ∷ []) (some a) s).0).0

abbrev pub second_answer : MessageInfo → Ref → Ref → MessageStore → List Effect
second_answer info a b s =
    (update (message_info info)
      (fetch_headers (info.uid ∷ []) (some b) (first_answer info a s)).0).1

asked_for :
    (uid : ℕ) (cb : Ref) (s : MessageStore)
    → has uid s.pending_headers ≡ false
    → let t = (fetch_headers (uid ∷ []) (some cb) s).0 in
      (has uid t.pending_headers ≡ true)
      × (waiting uid t.header_callbacks ≡ waiting uid s.header_callbacks ++ cb ∷ [])
asked_for uid cb s p =
    let r = (fetch_headers-Requests (uid ∷ []) (some cb) none s).0 in
    (ground (arith, r.pending uid, ==_refl uid), ground (arith, r.callbacks uid, ==_refl uid, p))

-- The callbacks of headers are never taken off the list: when the headers of a message are asked for
-- a second time, by `b` after `a`, and come a second time, `a` is called again before `b`.
pub header_callbacks_pile_up :
    (info : MessageInfo) (a b : Ref) (s : MessageStore) (e : Envelope)
    → info.envelope ≡ some e
    → has info.uid s.pending_headers ≡ false
    → waiting info.uid s.header_callbacks ≡ []
    → calls_of (second_answer info a b s)
      ≡ called a (message_info info) ∷ called b (message_info info) ∷ []
header_callbacks_pile_up info a b s e h p w =
    let s1 : MessageStore = (fetch_headers (info.uid ∷ []) (some a) s).0 in
    let s2 : MessageStore = first_answer info a s in
    let s3 : MessageStore = (fetch_headers (info.uid ∷ []) (some b) s2).0 in
    let (q1, w1) = asked_for info.uid a s p in
    let (_, q2, w2) = update-message_info info s1 e h in
    let (q3, w3) = asked_for info.uid b s2 q2 in
    let (calls, _, _) = update-message_info info s3 e h in
    calls
    ∙ rw q3 (
        ap (λ (l : List Ref). call_each l (message_info info))
          (w3
            ∙ ap (λ (l : List Ref). l ++ b ∷ [])
                (waiting_same info.uid s1 s2 w2 ∙ w1 ∙ ap (λ (l : List Ref). l ++ a ∷ []) w)))
