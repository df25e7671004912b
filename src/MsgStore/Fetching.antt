-- ===== src/MsgStore/Fetching.antt =====
-- lib/msgstore.go: what `FetchHeaders` asks for, and who is called when the answer comes.
use mathlib.Core.List.{append-nil}
use nyat.Common.{
  ℕ, ◌≡◌, refl, ap, ◌∙◌, Bool, true, not, ◌&&◌, ◌||◌, List, [], ◌∷◌, ◌++◌, Option, none, some,
  arith, length, ltb, ◌==◌, if◌then◌else◌, mem, count,
}
use nyat.Common.Dict.{Dict, lookup, has, nat_eq, lookup-insert}
use nyat.Models.{Ref}
use nyat.MsgStore.State.{MessageStore, Effect, posted, fetch_message_headers, caller}
use nyat.MsgStore.Fetch.{add_callback, request_header, headers_loop, fetch_headers}

-- The callbacks that wait for a uid.
abbrev pub waiting : ℕ → Dict ℕ (List Ref) → List Ref
waiting uid cbs = elim (lookup uid cbs) [ none ↦ [] | some list ↦ list ]

abbrev pub one : Option Ref → List Ref
one none = []
one (some cb) = cb ∷ []

-- Whether a uid is asked for: it is in the list and no request for it is under way.
abbrev pub wanted : ℕ → List ℕ → MessageStore → Bool
wanted uid uids s = mem uid uids && not (has uid s.pending_headers)

waiting-add_callback :
    (cb : Option Ref) (uid other : ℕ) (cbs : Dict ℕ (List Ref))
    → waiting other (add_callback cb uid cbs)
      ≡ (if uid == other then waiting other cbs ++ one cb else waiting other cbs)
unfolding add_callback
waiting-add_callback none uid other cbs = ground (arith, append-nil (waiting other cbs))
waiting-add_callback (some cb) uid other cbs = ground (
  arith,
  lookup-insert uid other (waiting uid cbs ++ cb ∷ []) cbs,
  lookup-insert uid other (cb ∷ []) cbs,
)

-- What one round leaves pending, and who waits.
has-request_header :
    (cb : Option Ref) (uid other : ℕ) (s : MessageStore)
    → has other (request_header cb uid s).pending_headers
      ≡ (if uid == other then true else has other s.pending_headers)
unfolding request_header
has-request_header cb uid other s = ground (arith, lookup-insert uid other tt s.pending_headers)

waiting-request_header :
    (cb : Option Ref) (uid other : ℕ) (s : MessageStore)
    → waiting other (request_header cb uid s).header_callbacks ≡ (
        if (uid == other) && not (has uid s.pending_headers)
        then waiting other s.header_callbacks ++ one cb
        else waiting other s.header_callbacks)
unfolding request_header
waiting-request_header cb uid other s =
    ground (arith, waiting-add_callback cb uid other s.header_callbacks)

module _ (cb : Option Ref) where
  has-headers_loop :
      (uids : List ℕ) (uid : ℕ) (s : MessageStore)
      → has uid (headers_loop cb uids s).1.pending_headers
        ≡ (mem uid uids || has uid s.pending_headers)
  unfolding headers_loop
  has-headers_loop [] uid s = refl
  has-headers_loop (u ∷ uids) uid s =
      ground
        (arith, has-headers_loop uids uid (request_header cb u s), has-request_header cb u uid s)

  count-headers_loop :
      (uids : List ℕ) (uid : ℕ) (s : MessageStore)
      → count uid (headers_loop cb uids s).0 ≡ (if wanted uid uids s then 1 else 0)
  unfolding headers_loop
  count-headers_loop [] uid s = refl
  count-headers_loop (u ∷ uids) uid s =
      ground
        (arith, count-headers_loop uids uid (request_header cb u s), has-request_header cb u uid s)

  waiting-headers_loop :
      (uids : List ℕ) (uid : ℕ) (s : MessageStore)
      → waiting uid (headers_loop cb uids s).1.header_callbacks ≡ (
          if wanted uid uids s
          then waiting uid s.header_callbacks ++ one cb
          else waiting uid s.header_callbacks)
  unfolding headers_loop
  waiting-headers_loop [] uid s = refl
  waiting-headers_loop (u ∷ uids) uid s = ground (
    arith,
    waiting-headers_loop uids uid (request_header cb u s),
    has-request_header cb u uid s,
    waiting-request_header cb u uid s,
  )

-- The action that `FetchHeaders` posts for a list of uids.
abbrev pub requests : List ℕ → List Effect
requests [] = []
requests (u ∷ us) = posted (fetch_message_headers (u ∷ us)) (caller none) ∷ []

-- What a call of `FetchHeaders` does to a store.
pub record Requests (uids : List ℕ) (cb : Option Ref) (s t : MessageStore) (effects : List Effect)
    : Type 0 where
  pub to_fetch : List ℕ
  pub effects_eq : effects ≡ requests to_fetch
  pub once : (uid : ℕ) → count uid to_fetch ≡ (if wanted uid uids s then 1 else 0)
  pub pending : (uid : ℕ) → has uid t.pending_headers ≡ (mem uid uids || has uid s.pending_headers)
  pub callbacks :
      (uid : ℕ)
      → waiting uid t.header_callbacks ≡ (
          if wanted uid uids s
          then waiting uid s.header_callbacks ++ one cb
          else waiting uid s.header_callbacks)

requests-eq :
    (l : List ℕ)
    → (if ltb 0 (length l) then posted (fetch_message_headers l) (caller none) ∷ [] else [])
      ≡ requests l
requests-eq [] = refl
requests-eq (u ∷ us) = ground arith

headers_loop_idle :
    (cb : Option Ref) (uids : List ℕ) (s : MessageStore)
    → ((uid : ℕ) → mem uid uids ≡ true → has uid s.pending_headers ≡ true)
    → headers_loop cb uids s ≡ ([], s)
unfolding headers_loop
headers_loop_idle cb [] s h = refl
headers_loop_idle cb (u ∷ uids) s h =
    ground
      (arith, step, headers_loop_idle cb uids s (λ v m. h v (ground arith)), h u (ground arith))
  where
    step : request_header cb u s ≡ s
    step = unfold request_header in ground (arith, h u (ground arith))

-- `FetchHeaders` posts one request for the uids of the list that are not under way, each once however
-- often it is listed, and none if there are none. Afterwards the listed uids are under way, and the
-- others as before; the callback waits behind the earlier ones, for the requested uids only. The same
-- call made again posts nothing and changes nothing.
pub fetch_headers-Requests :
    (uids : List ℕ) (cb other : Option Ref) (s : MessageStore)
    → let (t, effects) = fetch_headers uids cb s in
      Requests uids cb s t effects × (fetch_headers uids other t ≡ (t, []))
unfolding fetch_headers
fetch_headers-Requests uids cb other s = (
  record {
    to_fetch = (headers_loop cb uids s).0;
    effects_eq = requests-eq (headers_loop cb uids s).0;
    once = λ uid. count-headers_loop cb uids uid s;
    pending = λ uid. has-headers_loop cb uids uid s;
    callbacks = λ uid. waiting-headers_loop cb uids uid s;
  },
  ap
      (λ (r : List ℕ × MessageStore). (
        r.1,
        if ltb 0 (length r.0) then posted (fetch_message_headers r.0) (caller none) ∷ [] else [],
      ))
      (headers_loop_idle other uids (headers_loop cb uids s).1
        (λ uid m. has-headers_loop cb uids uid s ∙ rw m refl)),
)
