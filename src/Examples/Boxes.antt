-- ===== src/Examples/Boxes.antt =====
-- The theorems about the maildir worker at concrete values.
use nyat.Common.{
  ℕ, Bool, true, false, ◌&&◌, List, [], ◌∷◌, ◌++◌, map, Option, none, some, Text, codes, Result, ok,
  err, text_eq, is_some, mem, select_if, if◌then◌else◌, ◌≡◌, refl, arith,
}
use nyat.Common.Dict.{lookup, nat_eq, text_key_eq}
use nyat.Models.{Ref, directory_contents, BodyStructure, body, nil}
use nyat.MsgSort.Criteria.{sort_stable, text_lt}
use nyat.Uidstore.{Store, new_store, get_or_insert, get_key}
use nyat.Uidstore.Invariant.{IsConsistent, new_store-IsConsistent, get_or_insert-IsConsistent}
use nyat.Maildir.{flag_seen}
use nyat.Maildir.Parse.{
  Header, Entity, entity, no_reader, reader, eof, next_part, Parsed, parsed, unparsed,
}
use nyat.Maildir.Steps.{Library, Container, MaildirWorker}
use nyat.Maildir.Container.{delete_all, set_one_flag}
use nyat.Maildir.Worker.{delete_action, handle_fetch_directory_contents}
use nyat.Maildir.Actions.{handle_action, received, run_event}
use nyat.Maildir.Answering.{Answered, handle_action-Answered}
use nyat.Maildir.Safe.{StaysReady, run_event-IsReady}
use nyat.Maildir.Contents.{fetch_contents-get_key}
use nyat.Maildir.Deleting.{has_uid, is_ok, Removes, delete_all-has_uid}
use nyat.Maildir.Flagging.{KeepsFlags, Outcome, set_one_flag-SetsFlag}

-- A disk: the letters of each message, by directory and key.
abbrev Boxes : Type 0
Boxes = Text → Text → Option (List ℕ)

abbrev at_box : Text → Text → Option (List ℕ) → Boxes → Boxes
at_box dir key o d dir' key' = if text_eq dir dir' && text_eq key key' then o else d dir' key'

-- A change of a message that is there.
abbrev changed : Option (List ℕ) → Text → Text → Option (List ℕ) → Boxes → Boxes × Result (Unit {0})
changed none dir key o d = (d, err (codes "not there"))
changed (some fs) dir key o d = (at_box dir key o d, ok tt)

abbrev letters : Option (List ℕ) → Result (List ℕ)
letters none = err (codes "not there")
letters (some fs) = ok fs

abbrev boxes : Library Boxes
boxes = record {
  join = λ a b. a ++ codes "/" ++ b;
  is_dir = λ dir d. ok true;
  keys = λ dir d. (d, ok (select_if (λ key. is_some (d dir key)) (codes "b" ∷ codes "a" ∷ [])));
  unseen = λ dir d. (d, ok []);
  unseen_count = λ dir d. (d, (0, none));
  flags = λ dir key d. (d, letters (d dir key));
  set_flags = λ dir key fs d. changed (d dir key) dir key (some fs) d;
  remove = λ dir key d. changed (d dir key) dir key none d;
  copy = λ dest src key d. (at_box dest key (d src key) d, ok tt);
  clean = λ dir d. (d, ok tt);
  init = λ dir d. (d, ok tt);
  remove_all = λ dir d. (d, ok tt);
  create = λ dir fs text d. (at_box dir (codes "c") (some fs) d, ok tt);
  watch = λ dir d. (d, ok tt);
  unwatch = λ dir d. (d, ok tt);
  open_file = λ dir key d. (d, ok (codes "text"));
  read_message = λ text. err (codes "no message");
  find_date = λ text. text;
  time_of = λ layout text. err (codes "no date");
}

abbrev in_box : Text → Text → Boxes → Bool
in_box dir key d = is_some (d dir key)

abbrev has_letter : Text → Text → Boxes → ℕ → Bool
has_letter dir key d f = elim (d dir key) [ none ↦ false | some fs ↦ mem f fs ]

removes :
    (o : Option (List ℕ)) (dir key : Text) (d : Boxes) (dir' key' : Text)
    → let p = changed o dir key none d in
      in_box dir' key' p.0
      ≡ (if is_ok p.1 && (text_eq dir dir' && text_eq key key') then false else in_box dir' key' d)
removes none dir key d dir' key' = refl
removes (some fs) dir key d dir' key' = ground arith

boxes-Removes : Removes boxes in_box
boxes-Removes dir key d dir' key' = removes (d dir key) dir key d dir' key'

reads :
    (o : Option (List ℕ)) (fs : List ℕ) (f : ℕ)
    → letters o ≡ ok fs
    → mem f fs ≡ elim o [ none ↦ false | some gs ↦ mem f gs ]
reads none fs f h = cc
reads (some gs) fs f h = let e : gs ≡ fs = cc in cc

boxed :
    (b : Bool) (fs : List ℕ) (o : Option (List ℕ)) (f : ℕ)
    → (elim (if b then some fs else o) [ none ↦ false | some hs ↦ mem f hs ])
      ≡ (if b then mem f fs else elim o [ none ↦ false | some hs ↦ mem f hs ])
boxed true fs o f = refl
boxed false fs o f = refl

writes :
    (o : Option (List ℕ)) (dir key : Text) (fs : List ℕ) (d : Boxes) (dir' key' : Text) (f : ℕ)
    → let p = changed o dir key (some fs) d in
      has_letter dir' key' p.0 f ≡ (
        if is_ok p.1 && (text_eq dir dir' && text_eq key key')
        then mem f fs
        else has_letter dir' key' d f)
writes none dir key fs d dir' key' f = refl
writes (some gs) dir key fs d dir' key' f =
    boxed (text_eq dir dir' && text_eq key key') fs (d dir' key') f

boxes-KeepsFlags : KeepsFlags boxes has_letter
boxes-KeepsFlags = record {
  read = λ dir key d fs f h. reads (d dir key) fs f h;
  unchanged = λ dir key d dir' key' f. refl;
  written = λ dir key fs d dir' key' f. writes (d dir key) dir key fs d dir' key' f;
}

-- Two messages, of which the first has been seen, and a store that knows the first.
abbrev two_messages : Boxes
two_messages =
    at_box (codes "m/in") (codes "a") (some (flag_seen ∷ []))
      (at_box (codes "m/in") (codes "b") (some []) (λ dir key. none))

abbrev known : Store
known = (get_or_insert (codes "a") new_store 0).1

known-IsConsistent : IsConsistent known 1
unfolding get_or_insert new_store lookup
known-IsConsistent =
    get_or_insert-IsConsistent (codes "a") new_store 0 (omega arith) (new_store-IsConsistent 0)

abbrev mail_root : Container
mail_root = record { dir = codes "m"; uids = known }

abbrev inbox_open : MaildirWorker Boxes
inbox_open = record {
  container = some mail_root;
  selected = some (codes "m/in");
  selected_name = codes "in";
  current_sort_criteria = [];
  next_uid = 1;
  disk = two_messages;
  posts = [];
}

abbrev capital : ℕ → Bool
capital c = false

abbrev unchanged_letter : ℕ → ℕ
unchanged_letter c = c

abbrev first_reader : Text → Ref
first_reader t = 1

handle_action-Answered_example : Answered 7 inbox_open (
    handle_action boxes capital unchanged_letter first_reader 7 (delete_action (1 ∷ [])) inbox_open)
handle_action-Answered_example =
    handle_action-Answered boxes capital unchanged_letter first_reader 7 (delete_action (1 ∷ []))
      inbox_open

run_event-IsReady_example : StaysReady (
    run_event boxes capital unchanged_letter first_reader
      (received 7 (delete_action (1 ∷ [])))
      inbox_open)
run_event-IsReady_example =
    run_event-IsReady boxes capital unchanged_letter first_reader
      (received 7 (delete_action (1 ∷ []))) inbox_open (record { configured = refl; opened = refl })

fetch_contents-get_key_example :
    (us : List ℕ) × (w' : MaildirWorker Boxes) × (c' : Container) × (handle_fetch_directory_contents
        boxes unchanged_letter 7 [] inbox_open
      ≡ some (ok tt, w'))
    × (w'.posts ≡ [] ++ directory_contents (some 7) us ∷ [])
    × (w'.container ≡ some c')
    × (map (λ u. get_key u c'.uids) us
        ≡ map some (sort_stable text_lt (codes "b" ∷ codes "a" ∷ [])))
    × ((u : ℕ) (key : Text) → get_key u known ≡ some key → get_key u c'.uids ≡ some key)
    × IsConsistent c'.uids w'.next_uid
fetch_contents-get_key_example =
    fetch_contents-get_key boxes unchanged_letter 7 inbox_open mail_root (codes "m/in") two_messages
      (codes "b" ∷ codes "a" ∷ []) refl refl refl known-IsConsistent (omega arith)

delete_all-has_uid_example :
    (success rest : List ℕ) × (failed : Option Text) × (w' : MaildirWorker Boxes) × (delete_all
        boxes
        (codes "m/in")
        (1 ∷ 5 ∷ [])
        inbox_open
      ≡ some (ok (success, failed), w'))
    × (1 ∷ 5 ∷ [] ≡ success ++ rest)
    × (failed ≡ none → rest ≡ [])
    × ((dir' key' : Text)
        → in_box dir' key' w'.disk ≡ (
            if text_eq (codes "m/in") dir' && has_uid known key' success
            then false
            else in_box dir' key' two_messages))
delete_all-has_uid_example =
    delete_all-has_uid boxes in_box boxes-Removes inbox_open mail_root (codes "m/in") (1 ∷ 5 ∷ [])
      refl

set_one_flag-SetsFlag_example :
    Outcome boxes has_letter boxes-KeepsFlags flag_seen false
      (record { dir = codes "m/in"; uid = 1; key = codes "a" })
      inbox_open
      (set_one_flag boxes flag_seen false
        (record { dir = codes "m/in"; uid = 1; key = codes "a" })
        inbox_open)
set_one_flag-SetsFlag_example =
    set_one_flag-SetsFlag boxes has_letter boxes-KeepsFlags flag_seen false
      (record { dir = codes "m/in"; uid = 1; key = codes "a" }) inbox_open

-- The header of a part of a type.
abbrev header_of : Text → Header
header_of kind = record {
  block = 0;
  content_type = ok (kind, []);
  content_disposition = err (codes "none");
  description = [];
  encoding = [];
  disposition = [];
  address_list = λ name. err (codes "none");
  text = λ name. ([], none);
  subject = ok [];
  message_id = ok [];
  date = ok 0;
}

abbrev plain_part : Entity
plain_part = entity (header_of (codes "text/plain")) (codes "hello") no_reader

abbrev html_part : Entity
html_part = entity (header_of (codes "text/html")) (codes "<p>hello</p>") no_reader

abbrev two_parts : Entity
two_parts =
    entity (header_of (codes "multipart/mixed")) (codes "all")
      (reader (next_part plain_part (next_part html_part eof)))

abbrev structure_of : Parsed BodyStructure → BodyStructure
structure_of (parsed b) = b
structure_of (unparsed e u) =
    body
      (record {
        mime_type = [];
        mime_sub_type = [];
        params = [];
        description = [];
        encoding = [];
        disposition = [];
        disposition_params = [];
      })
      nil
