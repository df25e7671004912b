-- ===== src/MsgStore/Fetch.antt =====
-- lib/msgstore.go: `FetchHeaders`, `FetchFull` and `FetchBodyPart`. A uid with a request under way
-- is not asked for again.
use nyat.Common.{ℕ, List, [], ◌∷◌, ◌++◌, Option, none, some, length, ltb, if◌then◌else◌}
use nyat.Common.Dict.{nat_eq, Dict, lookup, insert, has}
use nyat.Models.{Ref}
use nyat.MsgStore.State.{
  MessageStore, Outcome, posted, fetch_message_headers, fetch_full_messages,
  fetch_message_body_part, caller, drop_bodies, body_part,
}

-- The callback joins those that wait for the same uid.
unfoldable pub add_callback : Option Ref → ℕ → Dict ℕ (List Ref) → Dict ℕ (List Ref)
add_callback none uid cbs = cbs
add_callback (some cb) uid cbs = elim (lookup uid cbs) [
  | some list ↦ insert uid (list ++ cb ∷ []) cbs
  | none ↦ insert uid (cb ∷ []) cbs
]

-- One round of the loop of `FetchHeaders`, on the store.
unfoldable pub request_header : Option Ref → ℕ → MessageStore → MessageStore
request_header cb uid s = if has uid s.pending_headers then s else record s {
  pending_headers = insert uid tt s.pending_headers;
  header_callbacks = add_callback cb uid s.header_callbacks;
}

unfoldable pub headers_loop : Option Ref → List ℕ → MessageStore → List ℕ × MessageStore
headers_loop cb [] s = ([], s)
headers_loop cb (uid ∷ uids) s =
    let (to_fetch, t) = headers_loop cb uids (request_header cb uid s) in
    (if has uid s.pending_headers then to_fetch else uid ∷ to_fetch, t)

unfoldable pub fetch_headers : List ℕ → Option Ref → MessageStore → Outcome
fetch_headers uids cb s =
    let (to_fetch, t) = headers_loop cb uids s in
    (
      t,
      if ltb 0 (length to_fetch)
          then posted (fetch_message_headers to_fetch) (caller none) ∷ []
          else [],
    )

unfoldable pub request_body : Option Ref → ℕ → MessageStore → MessageStore
request_body cb uid s = if has uid s.pending_bodies then s else record s {
  pending_bodies = insert uid tt s.pending_bodies;
  body_callbacks = add_callback cb uid s.body_callbacks;
}

unfoldable pub bodies_loop : Option Ref → List ℕ → MessageStore → List ℕ × MessageStore
bodies_loop cb [] s = ([], s)
bodies_loop cb (uid ∷ uids) s =
    let (to_fetch, t) = bodies_loop cb uids (request_body cb uid s) in
    (if has uid s.pending_bodies then to_fetch else uid ∷ to_fetch, t)

unfoldable pub fetch_full : List ℕ → Option Ref → MessageStore → Outcome
fetch_full uids cb s =
    let (to_fetch, t) = bodies_loop cb uids s in
    (
      t,
      if ltb 0 (length to_fetch)
          then posted (fetch_full_messages to_fetch) (drop_bodies to_fetch) ∷ []
          else [],
    )

unfoldable pub fetch_body_part : ℕ → List ℕ → Ref → MessageStore → Outcome
fetch_body_part uid part cb s = (s, posted (fetch_message_body_part uid part) (body_part cb) ∷ [])
