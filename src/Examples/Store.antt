-- ===== src/Examples/Store.antt =====
-- lib/msgstore.go: a store of three messages, and what happens to it.
use nyat.Common.{
  ℕ, suc, ◌-◌, ◌≡◌, refl, ◌⊎◌, true, false, [], ◌∷◌, none, some, length, if◌then◌else◌,
}
use nyat.Common.Int.{Nearest, pos, negsuc, ◌+ℤ◌}
use nyat.Common.Dict.{nat_eq, has}
use nyat.Models.{DirectoryInfo, MessageInfo, Envelope, recent_flag}
use nyat.MsgStore.State.{
  MessageStore, new_message_store, message_info, messages_deleted, directory_contents, shown_uids,
}
use nyat.MsgStore.Fetch.{fetch_headers}
use nyat.MsgStore.Select.{next_prev}
use nyat.MsgStore.Update.{update}
use nyat.MsgStore.Fetching.{Requests, fetch_headers-Requests}
use nyat.MsgStore.Contents.{Lists, directory_contents-Lists}
use nyat.MsgStore.Deleting.{Loses, messages_deleted-Loses}
use nyat.MsgStore.Answers.{Answers, asked, update-message_info}
use nyat.MsgStore.Visual.{Marks}
use nyat.MsgStore.Selecting.{at_index, SameButResult, next_prev-Marks}

abbrev inbox : DirectoryInfo
inbox = record {
  name = [];
  flags = [];
  read_only = false;
  exists = 3;
  recent = 1;
  unseen = 2;
  accurate_counts = true;
}

abbrev letter : Envelope
letter = record {
  date = 7;
  subject = [];
  from = [];
  reply_to = [];
  to = [];
  cc = [];
  bcc = [];
  message_id = [];
}

abbrev header_of_20 : MessageInfo
header_of_20 = record {
  body_structure = none;
  envelope = some letter;
  flags = recent_flag ∷ [];
  labels = [];
  internal_date = 9;
  rfc822_headers = none;
  size = 4;
  uid = 20;
  error = none;
}

-- Three messages; the headers of 20 are asked for, by two callers.
abbrev three : MessageStore
unfolding new_message_store
three = record (new_message_store inbox [] (some 5)) {
  uids = 10 ∷ 20 ∷ 30 ∷ [];
  messages = (10, some header_of_20) ∷ (20, none) ∷ (30, none) ∷ [];
  selected = pos 1;
  results = 30 ∷ 10 ∷ [];
  pending_headers = (20, tt) ∷ [];
  header_callbacks = (20, 71 ∷ 72 ∷ []) ∷ [];
  marked = (30, tt) ∷ [];
  on_update = some 6;
}

-- The second message of the store is gone, and a new one is there.
directory_contents-Lists_example :
    let (t, effects) = update (directory_contents (10 ∷ 30 ∷ 40 ∷ [])) three in
    Lists (10 ∷ 30 ∷ 40 ∷ []) three t effects
directory_contents-Lists_example = directory_contents-Lists (10 ∷ 30 ∷ 40 ∷ []) three

-- The headers of 20 are under way; those of 30 are asked for once.
fetch_headers-Requests_example :
    let (t, effects) = fetch_headers (20 ∷ 30 ∷ 30 ∷ []) (some 73) three in
    Requests (20 ∷ 30 ∷ 30 ∷ []) (some 73) three t effects
    × (fetch_headers (20 ∷ 30 ∷ 30 ∷ []) none t ≡ (t, []))
fetch_headers-Requests_example = fetch_headers-Requests (20 ∷ 30 ∷ 30 ∷ []) (some 73) none three

messages_deleted-Loses_example :
    Loses (30 ∷ 10 ∷ []) three (update (messages_deleted (30 ∷ 10 ∷ [])) three).0
unfolding three
messages_deleted-Loses_example =
    messages_deleted-Loses (30 ∷ 10 ∷ []) three (refl, (refl, tt)) (refl, (refl, tt))

update-message_info_example :
    Answers header_of_20 three
      (if has 20 three.pending_headers then asked header_of_20 three else [])
      (update (message_info header_of_20) three)
update-message_info_example = update-message_info header_of_20 three letter refl

next_prev-Marks_example :
    ((length (shown_uids three) ≡ 0) × (next_prev (negsuc 4) three ≡ some three))
    ⊎ ((k : ℕ) × (u : MessageStore) × (t : MessageStore) × (next_prev (negsuc 4) three ≡ some t)
        × Nearest (three.selected +ℤ negsuc 4) (length (shown_uids three)) k
        × Marks (at_index three (pos k)) (length (shown_uids three) - suc k) u
        × SameButResult u t)
next_prev-Marks_example = next_prev-Marks (negsuc 4) three

-- Two callers wait for the body of 10, and one for that of 30.
abbrev asked_bodies : MessageStore
asked_bodies = record three {
  pending_bodies = (10, tt) ∷ (30, tt) ∷ [];
  body_callbacks = (10, 91 ∷ 92 ∷ []) ∷ (30, 93 ∷ []) ∷ [];
}
