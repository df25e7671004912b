-- ===== src/Structure.antt =====
-- models/models.go, `PartAtIndex`, and lib/structure_helpers.go: parts of a message by their path.
-- `lower` is Go's unicode.ToLower on one code point, a table of its standard library.
pub mod Paths
pub mod NonMultipart
pub mod Plaintext
use nyat.Common.{
  ℕ, zero, suc, ◌+◌, Bool, true, false, ◌&&◌, not, List, [], ◌∷◌, ◌++◌, map, Option, none, some,
  Text, text_eq, codes, ◌==◌, ltb, if◌then◌else◌,
}
use nyat.Models.{BodyStructure, body, Parts, nil, cons, PartHeader}
use Prim.Native.String.{String}

-- The ways in which `PartAtIndex` fails.
pub data PathError : Type 0 where
  not_one_based too_deep not_multipart no_such_child : PathError

pub data Found : Type 0 where
  part : BodyStructure → Found
  invalid : PathError → Found

abbrev pub header : BodyStructure → PartHeader
header (body h parts) = h

abbrev pub children : BodyStructure → Parts
children (body h parts) = parts

abbrev pub count_parts : Parts → ℕ
count_parts nil = 0
count_parts (cons p rest) = suc (count_parts rest)

abbrev pub get_part : Parts → ℕ → Option BodyStructure
get_part nil i = none
get_part (cons p rest) zero = some p
get_part (cons p rest) (suc i) = get_part rest i

-- A part with no children stands for its own first child.
unfoldable pub leaf_at_index : BodyStructure → ℕ → List ℕ → Found
leaf_at_index bs cur (n ∷ rest) = invalid too_deep
leaf_at_index bs cur [] = if cur == 1 then part bs else invalid not_multipart

unfoldable pub part_at_index : BodyStructure → List ℕ → Found
unfolding leaf_at_index
part_at_index bs [] = part bs
part_at_index bs (zero ∷ rest) = invalid not_one_based
part_at_index (body h nil) (suc i ∷ rest) = leaf_at_index (body h nil) (suc i) rest
part_at_index (body h (cons p parts)) (suc i ∷ rest) = elim (get_part (cons p parts) i) [
  | none ↦ invalid no_such_child
  | some q ↦ part_at_index q rest
]

-- A nil slice stays nil: `none`.
abbrev pub returned : List ℕ → Option (List ℕ)
returned [] = none
returned (n ∷ path) = some (n ∷ path)

module _ (lower : ℕ → ℕ) where
  -- `strings.ToLower(s) == word`
  unfoldable pub equals_lower : Text → String → Bool
  equals_lower s word = text_eq (map lower s) (codes word)

  unfoldable pub is_plaintext : BodyStructure → Bool
  unfolding equals_lower
  is_plaintext bs =
      equals_lower (header bs).mime_type "text" && equals_lower (header bs).mime_sub_type "plain"

  unfoldable pub is_multipart : BodyStructure → Bool
  unfolding equals_lower
  is_multipart bs = equals_lower (header bs).mime_type "multipart"

  unfoldable mutual
    unfolding is_plaintext is_multipart

    -- `FindPlaintext`; `none` is its nil.
    pub find_plaintext : BodyStructure → List ℕ → Option (List ℕ)
    find_plaintext (body h parts) path = plaintext_in parts 0 path

    -- The loop over the parts, from place `i`.
    pub plaintext_in : Parts → ℕ → List ℕ → Option (List ℕ)
    plaintext_in nil i path = none
    plaintext_in (cons p rest) i path =
        let later = plaintext_in rest (suc i) path in
        let inner = find_plaintext p (path ++ suc i ∷ []) in
        if is_plaintext p
        then some (path ++ suc i ∷ [])
        else if is_multipart p
        then (elim inner [ none ↦ later | some found ↦ some found ])
        else later

  unfoldable mutual
    unfolding is_multipart

    -- `FindFirstNonMultipart`
    pub find_first_non_multipart : BodyStructure → List ℕ → Option (List ℕ)
    find_first_non_multipart (body h parts) path = non_multipart_in parts 0 path

    pub non_multipart_in : Parts → ℕ → List ℕ → Option (List ℕ)
    non_multipart_in nil i path = none
    non_multipart_in (cons p rest) i path =
        let later = non_multipart_in rest (suc i) path in
        let inner = find_first_non_multipart p (path ++ suc i ∷ []) in
        if not (is_multipart p)
        then returned path
        else (elim inner [ none ↦ later | some found ↦ some found ])
