-- ===== src/Imap/Handlers.antt =====
-- worker/imap: the handlers of actions on directories and flags, and the deletion of messages.
use nyat.Common.{
  Result, err, ok, ℕ, suc, ◌+◌, ◌-◌, Bool, true, false, List, [], ◌∷◌, ◌++◌, Option, none, some,
  Text, length, get_elem?, set, ltb, text_eq, if◌then◌else◌, ◌>>=◌,
}
use nyat.Models.{
  Post, done, error, directory, directory_contents, messages_deleted, search_results, SortCriterion,
}
use nyat.Imap.{ImapWorker, expunge}
use nyat.Imap.Translate.{ServerField, translate_sort_criterions}

-- The answer to a call that succeeds or fails.
abbrev pub answer : ℕ → Option Text → List Post
answer id none = done id ∷ []
answer id (some e) = error (some id) e ∷ []

unfoldable pub create_directory : ℕ → Bool → Option Text → List Post
create_directory id quiet none = done id ∷ []
create_directory id quiet (some e) = if quiet then [] else error (some id) e ∷ []

unfoldable pub remove_directory : ℕ → Bool → Option Text → List Post
remove_directory id quiet none = done id ∷ []
remove_directory id quiet (some e) = if quiet then [] else error (some id) e ∷ []

unfoldable pub copy_messages : ℕ → Option Text → List Post
copy_messages id failed = answer id failed

unfoldable pub append_message : ℕ → Option Text → List Post
append_message id failed = answer id failed

-- A mailbox of a list: its name and attributes.
abbrev pub Mailbox : Type 0
Mailbox = Text × List Text

-- `no_select` is go-imap's `NoSelectAttr`.
unfoldable pub can_open : Text → List Text → Bool
can_open no_select [] = true
can_open no_select (attr ∷ attributes) =
    let rest = can_open no_select attributes in if text_eq attr no_select then false else rest

unfoldable pub list_loop : Text → ℕ → List Mailbox → List Post
unfolding can_open
list_loop no_select id [] = []
list_loop no_select id ((name, attributes) ∷ mailboxes) =
    let rest = list_loop no_select id mailboxes in
    if can_open no_select attributes then directory id name attributes ∷ rest else rest

unfoldable pub list_directories : Text → ℕ → List Mailbox → Option Text → List Post
unfolding list_loop
list_directories no_select id mailboxes failed =
    list_loop no_select id mailboxes ++ answer id failed

unfoldable pub open_directory : ℕ → Option Text → ImapWorker → ImapWorker × List Post
open_directory id none w = (record w { idle = true }, done id ∷ [])
open_directory id (some e) w = (w, error (some id) e ∷ [])

-- The loop that swaps the ends of a slice, i from the front and j from the back, until they meet.
unfoldable pub swap_ends : ℕ → ℕ → ℕ → List ℕ → List ℕ
swap_ends ℕ.zero i j uids = uids
swap_ends (suc fuel) i j uids =
    let swapped : List ℕ = elim (get_elem? uids i) [
      | none ↦ uids
      | some a ↦ elim (get_elem? uids j) [ none ↦ uids | some b ↦ set (set uids i b) j a ]
    ] in
    let rest = swap_ends fuel (i + 1) (j - 1) swapped in if ltb i j then rest else uids

unfoldable pub reverse_in_place : List ℕ → List ℕ
unfolding swap_ends
reverse_in_place uids = swap_ends (length uids) 0 (length uids - 1) uids

-- What the uids come from: the server's sorting, where it is supported and asked for, or a search.
unfoldable pub fetch_uids :
    Result Bool → List (ServerField × Bool) → Result (List ℕ) → Result (List ℕ) → Result (List ℕ)
unfolding reverse_in_place
fetch_uids (ok true) (c ∷ cs) (ok uids) searched = ok (reverse_in_place uids)
fetch_uids (ok true) (c ∷ cs) (err e) searched = err e
fetch_uids (ok true) [] sorted searched = searched
fetch_uids (ok false) cs sorted searched = searched
fetch_uids (err e) cs sorted searched = searched

unfoldable pub zeros : ℕ → List ℕ
zeros ℕ.zero = []
zeros (suc n) = 0 ∷ zeros n

-- The map of sequence numbers is made anew when it is too short.
unfoldable pub grow_map : ℕ → List ℕ → List ℕ
unfolding zeros
grow_map n seq_map = if ltb (length seq_map) n then zeros n else seq_map

-- What is done with the uids, or with the error.
unfoldable pub with_uids : ℕ → ImapWorker → Result (List ℕ) → ImapWorker × List Post
unfolding grow_map
with_uids id w (err e) = (w, error (some id) e ∷ [])
with_uids id w (ok uids) = (
  record w { seq_map = grow_map (length uids) w.seq_map },
  directory_contents (some id) uids ∷ done id ∷ [],
)

-- `handleFetchDirectoryContents`: whether the server sorts, and the results of sorting and searching.
unfoldable pub fetch_directory_contents :
    ℕ
    → List SortCriterion
    → Result Bool
    → Result (List ℕ)
    → Result (List ℕ)
    → ImapWorker
    → ImapWorker × List Post
unfolding fetch_uids with_uids translate_sort_criterions
fetch_directory_contents id criteria supported sorted searched w =
    with_uids id w (fetch_uids supported (translate_sort_criterions criteria) sorted searched)

-- `handleSearchDirectory`: the results of parsing the arguments and of the search.
unfoldable pub search_directory : ℕ → Option Text → Result (List ℕ) → List Post
search_directory id (some e) found = error (some id) e ∷ []
search_directory id none (err e) = error (some id) e ∷ []
search_directory id none (ok uids) = search_results id uids ∷ []

-- The loop over the sequence numbers that the server expunges.
unfoldable pub expunge_loop : List ℕ → List ℕ → Option (List ℕ × List ℕ)
unfolding expunge
expunge_loop [] seq_map = some ([], seq_map)
expunge_loop (seq ∷ seqs) seq_map = do
  (uid, shorter) ← expunge seq seq_map
  (deleted, left) ← expunge_loop seqs shorter
  some (uid ∷ deleted, left)

-- `handleDeleteMessages`: the result of marking the messages, the numbers expunged, and the result of
-- that.
unfoldable pub delete_messages :
    ℕ → Option Text → List ℕ → Option Text → ImapWorker → Option (ImapWorker × List Post)
unfolding expunge_loop
delete_messages id (some e) seqs expunged w = some (w, error (some id) e ∷ [])
delete_messages id none seqs expunged w = do
  (deleted, left) ← expunge_loop seqs w.seq_map
  some (
    record w { seq_map = left },
    (elim expunged [
      | some e ↦ error (some id) e ∷ []
      | none ↦ messages_deleted (some id) deleted ∷ done id ∷ []
    ]),
  )

-- What a change of flags leaves to be done: the headers of messages to be fetched again, with a
-- callback that answers the action.
pub data Flagged : Type 0 where
  failed : Post → Flagged
  refetch : List ℕ → Flagged

-- `handleFlagMessages` and `handleAnsweredMessages`
unfoldable pub flag_messages : ℕ → List ℕ → Option Text → Flagged
flag_messages id uids (some e) = failed (error (some id) e)
flag_messages id uids none = refetch uids

-- The answers to the fetching of headers.
pub data Refetched : Type 0 where
  refetch_error : Text → Refetched
  refetch_done : Refetched
  refetch_other : Refetched

-- The callback, with the handler's name before the error.
unfoldable pub on_refetched : ℕ → Text → Refetched → List Post
on_refetched id prefix (refetch_error e) = error (some id) (prefix ++ e) ∷ []
on_refetched id prefix refetch_done = done id ∷ []
on_refetched id prefix refetch_other = []
