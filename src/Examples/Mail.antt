-- ===== src/Examples/Mail.antt =====
-- lib/structure_helpers.go, worker/lib/sort.go, lib/uidstore/uidstore.go and worker/types/worker.go
-- at small inputs.
use nyat.Common.{
  ℕ, ◌≡◌, refl, arith, ◌⊎◌, Bool, true, false, List, [], ◌∷◌, Option, none, some, Text, codes, map,
  reverse,
}
use nyat.Common.Dict.{nat_eq, text_key_eq}
use nyat.Models.{
  BodyStructure, body, Parts, nil, cons, MessageInfo, Envelope, SortCriterion, sort_date, sort_size,
}
use nyat.Structure.{children, find_plaintext, part_at_index, part}
use nyat.Structure.Plaintext.{IsPlain, PlainIn, find_plaintext-part_at_index}
use nyat.MsgSort.Criteria.{sort}
use nyat.MsgSort.Sorted.{Ordered, Lexicographic, occurrences, sort-Lexicographic}
use nyat.Uidstore.{Store, new_store, get_or_insert}
use nyat.Uidstore.Invariant.{IsConsistent, new_store-IsConsistent, get_or_insert-IsConsistent}
use nyat.Uidstore.Worlds.{World, Reach, start, then, makes, inserts, IsSeparate, Reach-IsSeparate}
use nyat.Worker.{Message, new_worker, post_action}
use nyat.Worker.Callbacks.{calls_for, process_all, call, until_done, post_action-calls}

-- Texts in lower case.
abbrev same : ℕ → ℕ
same c = c

abbrev typed_part : Text → Text → Parts → BodyStructure
typed_part kind sub parts =
    body
      (record {
        mime_type = kind;
        mime_sub_type = sub;
        params = [];
        description = [];
        encoding = [];
        disposition = [];
        disposition_params = [];
      })
      parts

-- An image, then a multipart of HTML and plain text.
abbrev mixed : BodyStructure
mixed = typed_part (codes "multipart") (codes "mixed") (
    cons
      (typed_part (codes "multipart") (codes "alternative") (
        cons (typed_part (codes "text") (codes "html") nil)
          (cons (typed_part (codes "text") (codes "plain") nil) nil)))
      nil)

find_plaintext-part_at_index_example :
    ((found : List ℕ) × (goal : BodyStructure) × (find_plaintext same mixed [] ≡ some found)
      × (part_at_index mixed found ≡ part goal)
      × IsPlain same goal)
    ⊎ ((find_plaintext same mixed [] ≡ none) × ¬ PlainIn same (children mixed))
find_plaintext-part_at_index_example = find_plaintext-part_at_index same mixed

abbrev letter_of : ℕ → Envelope
letter_of date = record {
  date = date;
  subject = [];
  from = [];
  reply_to = [];
  to = [];
  cc = [];
  bcc = [];
  message_id = [];
}

abbrev message_of : ℕ → ℕ → ℕ → MessageInfo
message_of uid size date = record {
  body_structure = none;
  envelope = some (letter_of date);
  flags = [];
  labels = [];
  internal_date = 0;
  rfc822_headers = none;
  size = size;
  uid = uid;
  error = none;
}

abbrev by_size_then_date : List SortCriterion
by_size_then_date =
    record { field = sort_size; reverse = true }
    ∷ record { field = sort_date; reverse = false }
    ∷ []

abbrev three_messages : List MessageInfo
three_messages = message_of 1 5 30 ∷ message_of 2 9 20 ∷ message_of 3 5 10 ∷ []

sort-Lexicographic_example :
    (out : List MessageInfo) × (sort same three_messages by_size_then_date
      ≡ some (map (λ m. m.uid) (reverse out)))
    × Ordered (Lexicographic same by_size_then_date) out
    × ((uid : ℕ) → occurrences uid out ≡ occurrences uid three_messages)
sort-Lexicographic_example =
    sort-Lexicographic same three_messages by_size_then_date (refl, (refl, (refl, tt)))

-- A program makes two stores and gives the first a key.
abbrev store_made : World
store_made = record { stores = new_store ∷ []; next_uid = 1 }

abbrev both_made : World
both_made = record { stores = new_store ∷ new_store ∷ []; next_uid = 1 }

both_made-Reach : Reach both_made
both_made-Reach = then (then start makes) makes

abbrev after_insert : World
after_insert = record {
  stores = (get_or_insert (codes "a") new_store 1).1 ∷ new_store ∷ [];
  next_uid = (get_or_insert (codes "a") new_store 1).2;
}

after_insert-Reach : Reach after_insert
after_insert-Reach = then both_made-Reach (inserts 0 new_store (codes "a") refl (omega arith))

Reach-IsSeparate_example : IsSeparate after_insert
Reach-IsSeparate_example = Reach-IsSeparate after_insert-Reach

abbrev holding : Store
holding = (get_or_insert (codes "a") new_store 1).1

holding-IsConsistent : IsConsistent holding (get_or_insert (codes "a") new_store 1).2
holding-IsConsistent =
    get_or_insert-IsConsistent (codes "a") new_store 1 (omega arith) (new_store-IsConsistent 1)

-- Answers to the action with id 8, and to another one.
abbrev answer : Option ℕ → Bool → ℕ → Message
answer in_response_to is_done content = record {
  id = 0;
  in_response_to = in_response_to;
  is_done = is_done;
  content = content;
}

abbrev answers_to_8 : List Message
answers_to_8 =
    answer (some 8) false 1
    ∷ answer (some 9) true 2
    ∷ answer none false 3
    ∷ answer (some 8) true 4
    ∷ answer (some 8) false 5
    ∷ []

post_action-calls_example :
    let (w, id) = post_action (answer none false 0) (some 70) new_worker 7 in
    calls_for id (process_all answers_to_8 w) ≡ map (call 70) (until_done id answers_to_8)
post_action-calls_example = post_action-calls (answer none false 0) 70 new_worker 7 answers_to_8
