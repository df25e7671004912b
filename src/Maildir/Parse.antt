-- ===== src/Maildir/Parse.antt =====
-- worker/lib/parse.go: what is read of a message. What go-message makes of a message, and what package
-- time makes of a text, are parameters; a text that is copied is that text.
use nyat.Common.{
  ℕ, ◌+◌, Bool, true, false, List, [], ◌∷◌, ◌++◌, Option, Text, codes, ◌==◌, if◌then◌else◌, Result,
  ok, err,
}
use nyat.Common.Dict.{Dict}
use nyat.Models.{Ref, Address, PartHeader, BodyStructure, body, Parts, nil, cons}

-- What go-message reads from a header: the values of its methods.
pub record Header : Type 0 where
  pub block : Ref
  pub content_type : Result (Text × Dict Text Text)
  pub content_disposition : Result (Text × Dict Text Text)
  pub description : Text
  pub encoding : Text
  pub disposition : Text
  pub address_list : Text → Result (List Address)
  pub text : Text → Text × Option Text  -- decoded as far as it can be, and the error
  pub subject : Result Text
  pub message_id : Result Text
  pub date : Result ℕ

-- A message or a part, with its text, and what its multipart reader gives: parts up to the end, or up to
-- an error, of which it is known whether it is an unknown encoding.
mutual
  pub data Entity : Type 0 where
    entity : Header → Text → PartReader → Entity

  pub data PartReader : Type 0 where
    no_reader : PartReader
    reader : NextPart → PartReader

  pub data NextPart : Type 0 where
    eof : NextPart
    broken : (error : Text) (unknown_encoding : Bool) → NextPart
    next_part : Entity → NextPart → NextPart

-- A structure, or an error that may be an unknown encoding.
pub data Parsed {ℓ} (A : Type ℓ) : Type ℓ where
  parsed : A → Parsed A
  unparsed : (error : Text) (unknown_encoding : Bool) → Parsed A

-- `splitMIME`: the parts between slashes, of which there are to be two.
unfoldable pub split_at : ℕ → Text → List Text
split_at sep [] = [] ∷ []
split_at sep (c ∷ s) =
    let rest = split_at sep s in
    if c == sep then [] ∷ rest else elim rest [ [] ↦ (c ∷ []) ∷ [] | p ∷ ps ↦ (c ∷ p) ∷ ps ]

unfoldable pub split_mime : Text → Text × Text
unfolding split_at
split_mime m = elim (split_at 47 m) [
  | [] ↦ ([], [])
  | p ∷ ps ↦ elim ps [ [] ↦ (p, []) | q ∷ qs ↦ elim qs [ [] ↦ (p, q) | _ ↦ (p, []) ] ]
]

-- The fields of a structure but for its parts.
unfoldable pub part_header : Header → Text × Dict Text Text → Text × Dict Text Text → PartHeader
unfolding split_mime
part_header h (content_type, params) (disposition, disposition_params) = record {
  mime_type = (split_mime content_type).0;
  mime_sub_type = (split_mime content_type).1;
  params = params;
  description = h.description;
  encoding = h.encoding;
  disposition = disposition;
  disposition_params = disposition_params;
}

-- The disposition is read only if it is there.
unfoldable pub read_disposition : Header → Result (Text × Dict Text Text)
read_disposition h = elim h.disposition [ [] ↦ ok ([], []) | _ ↦ h.content_disposition ]

unfoldable pub parse_header : Header → Result PartHeader
unfolding part_header read_disposition
parse_header h = elim h.content_type [
  | err e ↦ err (codes "could not parse content type: " ++ e)
  | ok t ↦ elim (read_disposition h) [
    | err e ↦ err (codes "could not parse content disposition: " ++ e)
    | ok d ↦ ok (part_header h t d)
  ]
]

-- The parts that have been read, in the structure of a part whose header has been read.
unfoldable pub with_parts : Result PartHeader → Parsed Parts → Parsed BodyStructure
with_parts (err e) parts = unparsed e false
with_parts (ok h) (unparsed e u) = unparsed e u
with_parts (ok h) (parsed ps) = parsed (body h ps)

-- A part before those after it.
unfoldable pub add_part : Parsed BodyStructure → Parsed Parts → Parsed Parts
add_part (unparsed e u) rest = unparsed (codes "could not parse child entity structure: " ++ e) u
add_part (parsed b) (unparsed e u) = unparsed e u
add_part (parsed b) (parsed bs) = parsed (cons b bs)

unfoldable mutual
  unfolding parse_header with_parts add_part

  -- `ParseEntityStructure`
  pub parse_entity_structure : Entity → Parsed BodyStructure
  parse_entity_structure (entity h text r) = with_parts (parse_header h) (parse_parts r)

  pub parse_parts : PartReader → Parsed Parts
  parse_parts no_reader = parsed nil
  parse_parts (reader next) = parse_next next

  pub parse_next : NextPart → Parsed Parts
  parse_next eof = parsed nil
  parse_next (broken e u) = unparsed e u
  parse_next (next_part e next) = add_part (parse_entity_structure e) (parse_next next)

unfoldable mutual
  -- `FetchEntityPartReader`: the text of the part at a path.
  pub fetch_entity_part : Entity → List ℕ → Result Text
  fetch_entity_part (entity h text r) [] = ok text
  fetch_entity_part (entity h text r) (i ∷ index) = fetch_reader_part r i index

  pub fetch_reader_part : PartReader → ℕ → List ℕ → Result Text
  fetch_reader_part no_reader i index = err (codes "FetchEntityPartReader: unexpected code reached")
  fetch_reader_part (reader next) i index = fetch_next_part next 1 i index

  -- The loop over the parts, which are counted from 1.
  pub fetch_next_part : NextPart → ℕ → ℕ → List ℕ → Result Text
  fetch_next_part eof idx i index = err (codes "EOF")
  fetch_next_part (broken e u) idx i index = err e
  fetch_next_part (next_part e next) idx i index = elim (idx == i) [
    | true ↦ fetch_entity_part e index
    | false ↦ fetch_next_part next (idx + 1) i index
  ]
