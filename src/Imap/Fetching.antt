-- ===== src/Imap/Fetching.antt =====
-- worker/imap/fetch.go: the fetching of headers, parts and messages. What go-message reads from a
-- section of a message is a parameter. `none` is the panic on an index out of range.
use nyat.Common.{Result, err, ok, ℕ, List, [], ◌∷◌, ◌++◌, Option, none, some, Text, codes, ◌>>=◌}
use nyat.Models.{
  Post, done, error, message_info, message_body_part, full_message, Ref, Flag, MessageInfo,
}
use nyat.Imap.{ImapMessage, ImapWorker, put_uid}
use nyat.Imap.Translate.{translate_body_structure, translate_envelope, translate_imap_flags}

-- The messages posted for one message of the server, or the error of `procFunc`.
abbrev pub Proc : Type 0
Proc = ImapMessage → Result (List Post)

-- The map of numbers, the messages posted, and the first error.
abbrev pub Fetched : Type 0
Fetched = List ℕ × List Post × Option Text

-- What a message comes to, with what the rest of the loop would: after an error the other messages
-- are dropped.
unfoldable pub proceed : Result (List Post) → List ℕ → Option Fetched → Option Fetched
proceed (err e) updated rest = some (updated, [], some e)
proceed (ok posts) updated none = none
proceed (ok posts) updated (some (last, more, failed)) = some (last, posts ++ more, failed)

-- The loop over the messages.
unfoldable pub fetch_loop : Proc → List ImapMessage → List ℕ → Option Fetched
unfolding put_uid proceed
fetch_loop proc [] seq_map = some (seq_map, [], none)
fetch_loop proc (m ∷ messages) seq_map = do
  updated ← put_uid m.seq_num m.uid seq_map
  proceed (proc m) updated (fetch_loop proc messages updated)

-- `handleFetchMessages`: the messages that the server sends and the result of the call.
unfoldable pub fetch_messages :
    ℕ → Proc → List ImapMessage → Option Text → ImapWorker → Option (ImapWorker × List Post)
unfolding fetch_loop
fetch_messages id proc messages failed w = do
  (seq_map, posts, bad) ← fetch_loop proc messages w.seq_map
  some (
    record w { seq_map = seq_map },
    posts ++ (elim failed [
      | some e ↦ error (some id) e ∷ []
      | none ↦ elim bad [ some e ↦ error (some id) e ∷ [] | none ↦ done id ∷ [] ]
    ]),
  )

module _ (flag_name : Flag → Text) where
  -- The flags alone, to mark a message as read.
  unfoldable pub flags_info : ImapMessage → MessageInfo
  unfolding translate_imap_flags
  flags_info m = record {
    body_structure = none;
    envelope = none;
    flags = translate_imap_flags flag_name m.flags;
    labels = [];
    internal_date = 0;
    rfc822_headers = none;
    size = 0;
    uid = m.uid;
    error = none;
  }

  unfoldable pub header_info : ImapMessage → Option Ref → MessageInfo
  unfolding translate_imap_flags translate_envelope translate_body_structure
  header_info m header = record {
    body_structure = elim m.structure [ none ↦ none | some b ↦ some (translate_body_structure b) ];
    envelope = elim m.envelope [ none ↦ none | some e ↦ some (translate_envelope e) ];
    flags = translate_imap_flags flag_name m.flags;
    labels = [];
    internal_date = m.internal_date;
    rfc822_headers = header;
    size = 0;
    uid = m.uid;
    error = none;
  }

  -- `procFunc` of `handleFetchMessageHeaders`, with the result of reading the header.
  unfoldable pub header_posts : ℕ → ImapMessage → Result Ref → Result (List Post)
  unfolding header_info
  header_posts id m (err e) = err (codes "could not read header: " ++ e)
  header_posts id m (ok header) = ok (message_info (some id) (header_info m (some header)) ∷ [])

  -- `procFunc` of `handleFetchMessageBodyPart`, with the results of reading the part's header and
  -- of making a reader for its body.
  unfoldable pub part_posts : ℕ → ImapMessage → Result Ref → Result Ref → Result (List Post)
  unfolding flags_info
  part_posts id m (err e) reader = err (codes "failed to read part header: " ++ e)
  part_posts id m (ok header) (err e) = err (codes "failed to create message reader: " ++ e)
  part_posts id m (ok header) (ok reader) =
      ok (message_body_part id m.uid reader ∷ message_info (some id) (flags_info m) ∷ [])

  -- `procFunc` of `handleFetchFullMessages`, with the section's reader if there is one.
  unfoldable pub full_posts : ℕ → ImapMessage → Option Ref → Result (List Post)
  unfolding flags_info
  full_posts id m none = err (codes "could not get section")
  full_posts id m (some reader) =
      ok (full_message id m.uid reader ∷ message_info (some id) (flags_info m) ∷ [])
