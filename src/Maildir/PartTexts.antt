-- ===== src/Maildir/PartTexts.antt =====
-- worker/lib/parse.go and models/models.go: the part whose text is read for a path, and the part that
-- the structure has there.
use nyat.Common.{
  ℕ, zero, suc, List, [], ◌∷◌, ◌++◌, Option, none, some, Text, Result, ok, err, ◌≡◌, ◌⊎◌,
}
use nyat.Models.{BodyStructure, nil}
use nyat.Structure.{Found, part, invalid, no_such_child, children, part_at_index}
use nyat.Maildir.Parse.{
  Header, Entity, entity, PartReader, no_reader, reader, NextPart, next_part, parsed,
  parse_entity_structure, fetch_entity_part,
}

abbrev pub text_of : Entity → Text
text_of (entity h text r) = text

-- The part of a number among those that a reader gives before an error, counted from 0.
abbrev pub nth_part : NextPart → ℕ → Option Entity
nth_part (next_part e next) zero = some e
nth_part (next_part e next) (suc k) = nth_part next k
nth_part _ k = none

abbrev pub nth_in : PartReader → ℕ → Option Entity
nth_in no_reader k = none
nth_in (reader next) k = nth_part next k

-- A message has a part at a path, whose numbers count from 1.
pub data HasPart : Entity → List ℕ → Entity → Type 0 where
  itself : (e : Entity) → HasPart e [] e
  below_part :
      (h : Header) (text : Text) (r : PartReader) (i : ℕ) (path : List ℕ) (e q : Entity)
      → nth_in r i ≡ some e
      → HasPart e path q
      → HasPart (entity h text r) (suc i ∷ path) q

abbrev pub IsRefused : Result Text → Type 0
IsRefused (err e) = Unit
IsRefused (ok t) = ⊥

-- A part that has been parsed and found, or none, which is refused.
abbrev Chosen : Option Entity → Option BodyStructure → Result Text → List ℕ → Type 0
Chosen o none r path = IsRefused r
Chosen o (some p) r path =
    (q : Entity) × (o ≡ some q)
    × (parse_entity_structure q ≡ parsed p)
    × (r ≡ fetch_entity_part q path)

-- What a structure has at a path, for what is read there: the text of the part of the message, which has
-- that structure, or nothing, where there is none or where the path ends in the 1 that stands for a part without children.
abbrev pub Reads : Entity → BodyStructure → List ℕ → Result Text → Found → Type 0
Reads e b path r (invalid _) = IsRefused r
Reads e b path r (part p) =
    ((q : Entity) × HasPart e path q × (parse_entity_structure q ≡ parsed p) × (r ≡ ok (text_of q)))
    ⊎ ((front : List ℕ) × (path ≡ front ++ 1 ∷ [])
        × (part_at_index b front ≡ part p)
        × (children p ≡ nil)
        × IsRefused r)

-- What is at a path below a child.
abbrev descend : Option BodyStructure → List ℕ → Found
descend none path = invalid no_such_child
descend (some q) path = part_at_index q path
