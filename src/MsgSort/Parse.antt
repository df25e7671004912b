-- ===== src/MsgSort/Parse.antt =====
-- lib/sort/sort.go: sort criteria from the arguments of a command. `lower` is Go's unicode.ToLower.
use nyat.Common.{
  ℕ, Bool, true, false, List, [], ◌∷◌, map, Option, none, some, Text, codes, text_eq, if◌then◌else◌,
}
use nyat.Models.{
  SortField, SortCriterion, sort_arrival, sort_cc, sort_date, sort_from, sort_read, sort_size,
  sort_subject, sort_to,
}
use Prim.Native.String.{String}

pub data Criteria : Type 0 where
  criteria : List SortCriterion → Criteria
  not_valid : Text → Criteria
  expected_argument : Criteria

module _ (lower : ℕ → ℕ) where
  abbrev reads : Text → String → Bool
  reads arg word = text_eq (map lower arg) (codes word)

  -- `parseSortField`; `none` is its error.
  unfoldable pub parse_sort_field : Text → Option SortField
  parse_sort_field arg =
      if reads arg "arrival"
      then some sort_arrival
      else if reads arg "cc"
      then some sort_cc
      else if reads arg "date"
      then some sort_date
      else if reads arg "from"
      then some sort_from
      else if reads arg "read"
      then some sort_read
      else if reads arg "size"
      then some sort_size
      else if reads arg "subject"
      then some sort_subject
      else if reads arg "to"
      then some sort_to
      else none

  abbrev pub prepend : SortCriterion → Criteria → Criteria
  prepend c (criteria cs) = criteria (c ∷ cs)
  prepend c err = err

  -- The loop of `GetSortCriteria`, with `reverse`.
  unfoldable pub criteria_from : List Text → Bool → Criteria
  unfolding parse_sort_field
  criteria_from [] true = expected_argument
  criteria_from [] false = criteria []
  criteria_from (arg ∷ args) reverse =
      let flagged = criteria_from args true in
      let rest = criteria_from args false in
      if text_eq arg (codes "-r") then flagged else (elim (parse_sort_field arg) [
        | none ↦ not_valid arg
        | some field ↦ prepend (record { field = field; reverse = reverse }) rest
      ])

  unfoldable pub get_sort_criteria : List Text → Criteria
  unfolding criteria_from
  get_sort_criteria args = criteria_from args false
