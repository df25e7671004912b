-- ===== src/Examples/Server.antt =====
-- worker/imap at small inputs.
use nyat.Common.{
  err, ok, ℕ, zero, suc, ◌≡◌, refl, arith, true, false, List, [], ◌∷◌, none, some, Text, codes,
  get_elem?, ◌⊎◌, inl, inr, sym, some_inj,
}
use nyat.Models.{done, Flag, seen_flag, recent_flag, answered_flag, deleted_flag, flagged_flag}
use nyat.Imap.{ImapWorker, ImapMessage, new_imap_worker, no_status}
use nyat.Imap.Handlers.{open_directory, copy_messages, expunge_loop}
use nyat.Imap.Fetching.{Proc, fetch_loop}
use nyat.Imap.Updates.{copy_action, open_action, handle_action, handle_message}
use nyat.Imap.SeqMap.{Agrees, AllKnown, Expunged, none_left, one_more, expunge_loop-Agrees}
use nyat.Imap.Mailbox.{IsOf, FetchedOf, fetch_loop-Agrees}
use nyat.Imap.Selected.{Reach, start, action_step, Reach-selected}
use nyat.Imap.Answers.{finals, expected}
use nyat.Imap.Answered.{handle_action-finals}
use nyat.Imap.Search.{Opt, FlagNames, parse_search}
use nyat.Imap.Gathering.{criteria_of, parse_search-criteria_of}
use nyat.Imap.Connect.{Url, Config, no_config, connect, Answers, Secure, connect-Secure}

-- Three messages, of which the worker does not know the second.
abbrev box : List ℕ
box = 11 ∷ 12 ∷ 13 ∷ []

abbrev seen_so_far : List ℕ
seen_so_far = 11 ∷ 0 ∷ 13 ∷ []

seen_right : (i u : ℕ) → get_elem? seen_so_far i ≡ some u → (u ≡ 0) ⊎ (get_elem? box i ≡ some u)
seen_right zero u h = inr h
seen_right (suc zero) u h = inl (sym (some_inj 0 u h))
seen_right (suc (suc zero)) u h = inr h
seen_right (suc (suc (suc i))) u h = cc

box-Agrees : Agrees box seen_so_far
box-Agrees = record { long = refl; right = seen_right }

-- The server expunges the second message, and then what has become the first.
box-Expunged : Expunged box (2 ∷ 1 ∷ []) (12 ∷ 11 ∷ []) (13 ∷ [])
box-Expunged = one_more 1 12 (omega arith) refl (one_more 0 11 (omega arith) refl none_left)

expunge_loop-Agrees_example :
    (vs : List ℕ) × (final : List ℕ) × (expunge_loop (2 ∷ 1 ∷ []) seen_so_far ≡ some (vs, final))
    × AllKnown (12 ∷ 11 ∷ []) vs
    × Agrees (13 ∷ []) final
expunge_loop-Agrees_example =
    expunge_loop-Agrees box (2 ∷ 1 ∷ []) (12 ∷ 11 ∷ []) (13 ∷ []) seen_so_far box-Expunged
      box-Agrees

abbrev second : ImapMessage
second = record {
  seq_num = 2;
  uid = 12;
  flags = [];
  structure = none;
  envelope = none;
  internal_date = 0;
}

second-IsOf : IsOf box second
second-IsOf = record { place = 1; bound = omega arith; number = refl; uid_there = refl }

abbrev drops : Proc
drops m = err (codes "unread")

fetch_loop-Agrees_example : FetchedOf box (fetch_loop drops (second ∷ []) seen_so_far)
fetch_loop-Agrees_example =
    fetch_loop-Agrees box drops (second ∷ []) seen_so_far (second-IsOf, tt) box-Agrees

-- The names of the flags in IMAP.
abbrev flag_name : Flag → Text
flag_name seen_flag = codes "\\Seen"
flag_name recent_flag = codes "\\Recent"
flag_name answered_flag = codes "\\Answered"
flag_name deleted_flag = codes "\\Deleted"
flag_name flagged_flag = codes "\\Flagged"

abbrev no_select : Text
no_select = codes "\\Noselect"

abbrev mapped : ImapWorker
mapped = record { config = no_config; idle = false; selected = no_status; seq_map = 11 ∷ 12 ∷ [] }

opened : Reach flag_name no_select (record new_imap_worker { idle = true })
unfolding handle_message handle_action open_directory
opened = action_step 1 none (open_action none) start refl

Reach-selected_example : (record new_imap_worker { idle = true }).selected ≡ no_status
Reach-selected_example =
    Reach-selected flag_name no_select (record new_imap_worker { idle = true }) opened

copied :
    handle_action flag_name no_select 3 (copy_action none) new_imap_worker
    ≡ some (new_imap_worker, (done 3 ∷ [], []))
unfolding handle_action copy_messages
copied = refl

handle_action-finals_example : finals 3 (done 3 ∷ []) ≡ expected (copy_action none)
handle_action-finals_example =
    handle_action-finals flag_name no_select 3 (copy_action none) new_imap_worker new_imap_worker
      (done 3 ∷ []) [] copied

abbrev same : ℕ → ℕ
same c = c

abbrev flags : FlagNames
flags = record {
  seen = flag_name seen_flag;
  flagged = flag_name flagged_flag;
  answered = flag_name answered_flag;
}

-- The arguments -u -f jo -b hello.
abbrev unread_from_jo : List Opt
unread_from_jo =
    record { option = 117; value = [] }
    ∷ record { option = 102; value = codes "jo" }
    ∷ record { option = 98; value = [] }
    ∷ []

parse_search-criteria_of_example :
    parse_search same flags (ok (unread_from_jo, codes "hello" ∷ []))
    ≡ ok (criteria_of same flags unread_from_jo (codes "hello" ∷ []))
parse_search-criteria_of_example =
    parse_search-criteria_of same flags unread_from_jo (codes "hello" ∷ [])

abbrev all_well : Answers
all_well = record {
  dialled = none;
  started_tls = none;
  dialled_tls = none;
  supports_auth = true;
  token = ok (codes "token");
  authenticated = none;
  logged_in = none;
  inbox_selected = none;
}

abbrev url : Text → Url
url scheme = record {
  scheme = scheme;
  host = codes "mail.example";
  user = some (codes "jo", codes "secret");
  token_endpoint = [];
  client_id = [];
  client_secret = [];
  scope = [];
}

abbrev plain_config : Config
plain_config = record no_config {
  scheme = codes "imap";
  addr = codes "mail.example:imap";
  user = some (codes "jo", codes "secret");
}

connect-Secure_example : Secure all_well (connect all_well plain_config).0
connect-Secure_example = connect-Secure all_well plain_config refl
