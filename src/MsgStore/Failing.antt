-- ===== src/MsgStore/Failing.antt =====
-- lib/msgstore.go: a request for full messages that fails.
use nyat.Common.{ℕ, true, false, List, [], ◌∷◌, Option, none, some, Text, ◌≡◌, refl, arith}
use nyat.Common.Dict.{nat_eq, Dict, lookup, insert, remove, has, lookup-insert, lookup-remove}
use nyat.Models.{Ref}
use nyat.MsgStore.State.{MessageStore, error, drop_bodies, posted, fetch_full_messages}
use nyat.MsgStore.Fetch.{fetch_full, bodies_loop, request_body, add_callback}
use nyat.MsgStore.Actions.{resume, remove_all}

fetch_full_pending :
    (uid : ℕ) (cb : Option Ref) (s : MessageStore)
    → has uid s.pending_bodies ≡ true
    → fetch_full (uid ∷ []) cb s ≡ (s, [])
unfolding fetch_full bodies_loop request_body
fetch_full_pending uid cb s h = ground (arith, h)

fetch_full_new :
    (uid : ℕ) (cb : Option Ref) (s : MessageStore)
    → has uid s.pending_bodies ≡ false
    → fetch_full (uid ∷ []) cb s ≡ (
      record s {
        pending_bodies = insert uid tt s.pending_bodies;
        body_callbacks = add_callback cb uid s.body_callbacks;
      },
      posted (fetch_full_messages (uid ∷ [])) (drop_bodies (uid ∷ [])) ∷ [],
    )
unfolding fetch_full bodies_loop request_body
fetch_full_new uid cb s h = ground (arith, h)

has-insert : (uid : ℕ) (m : Dict ℕ (Unit {0})) → has uid (insert uid tt m) ≡ true
has-insert uid m = ground (arith, lookup-insert uid uid tt m)

removed : (uid : ℕ) (m : Dict ℕ (List Ref)) → lookup uid (remove uid m) ≡ none
removed uid m = ground (arith, lookup-remove uid uid m)

-- A request for a full message that the worker answers with an error is never made again: the
-- callbacks that wait are dropped, but the uid stays under way, so that each later `FetchFull` of it
-- posts nothing and drops its callback.
pub fetch_full-resume :
    (uid : ℕ) (cb later : Option Ref) (e : Text) (s : MessageStore)
    → has uid s.pending_bodies ≡ false
    → let (t, effects) = fetch_full (uid ∷ []) cb s in
      (u : MessageStore) × (effects
        ≡ posted (fetch_full_messages (uid ∷ [])) (drop_bodies (uid ∷ [])) ∷ [])
      × (resume (drop_bodies (uid ∷ [])) (error e) t ≡ some (u, []))
      × (lookup uid u.body_callbacks ≡ none)
      × (fetch_full (uid ∷ []) later u ≡ (u, []))
unfolding resume remove_all
fetch_full-resume uid cb later e s h = rw (fetch_full_new uid cb s h) (
  _,
  refl,
  refl,
  removed uid (add_callback cb uid s.body_callbacks),
  fetch_full_pending uid later _ (has-insert uid s.pending_bodies),
)
