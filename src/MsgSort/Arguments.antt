-- ===== src/MsgSort/Arguments.antt =====
-- lib/sort/sort.go: the arguments that `GetSortCriteria` accepts.
use nyat.Common.{
  ℕ, Bool, true, false, List, [], ◌∷◌, none, some, Text, codes, text_eq, ◌≡◌, refl, ◌↔◌, inl, inr,
  Bool-cases, Option-cases, ap, sym, ◌∙◌, subst,
}
use nyat.Models.{SortField, SortCriterion}
use nyat.MsgSort.Parse.{
  Criteria, criteria, not_valid, expected_argument, parse_sort_field, prepend, criteria_from,
  get_sort_criteria,
}

module _ (lower : ℕ → ℕ) where
  -- A list of arguments, with whether the next field is reversed, gives a list of criteria: `-r`
  -- reverses the next field, and every other argument names a field.
  pub data Gives : List Text → Bool → List SortCriterion → Type 0 where
    gives_end : Gives [] false []
    gives_reverse :
        (arg : Text) (args : List Text) (reverse : Bool) (cs : List SortCriterion)
        → text_eq arg (codes "-r") ≡ true
        → Gives args true cs
        → Gives (arg ∷ args) reverse cs
    gives_field :
        (arg : Text) (args : List Text) (reverse : Bool) (field : SortField)
        (cs : List SortCriterion)
        → text_eq arg (codes "-r") ≡ false
        → parse_sort_field lower arg ≡ some field
        → Gives args false cs
        → Gives (arg ∷ args) reverse (record { field = field; reverse = reverse } ∷ cs)

  -- One argument of each kind.
  at_reverse :
      (arg : Text) (args : List Text) (reverse : Bool)
      → text_eq arg (codes "-r") ≡ true
      → criteria_from lower (arg ∷ args) reverse ≡ criteria_from lower args true
  unfolding criteria_from
  at_reverse arg args reverse e = rw e refl

  at_unknown :
      (arg : Text) (args : List Text) (reverse : Bool)
      → text_eq arg (codes "-r") ≡ false
      → parse_sort_field lower arg ≡ none
      → criteria_from lower (arg ∷ args) reverse ≡ not_valid arg
  unfolding criteria_from
  at_unknown arg args reverse e f = rw e (rw f refl)

  at_field :
      (arg : Text) (args : List Text) (reverse : Bool) (field : SortField)
      → text_eq arg (codes "-r") ≡ false
      → parse_sort_field lower arg ≡ some field
      → criteria_from lower (arg ∷ args) reverse
        ≡ prepend lower
            (record { field = field; reverse = reverse })
            (criteria_from lower args false)
  unfolding criteria_from
  at_field arg args reverse field e f = rw e (rw f refl)

  Gives-criteria :
      (args : List Text) (reverse : Bool) (cs : List SortCriterion)
      → Gives args reverse cs
      → criteria_from lower args reverse ≡ criteria cs
  unfolding criteria_from
  Gives-criteria _ _ _ gives_end = refl
  Gives-criteria _ _ _ (gives_reverse arg args reverse cs e g) =
      at_reverse arg args reverse e ∙ Gives-criteria args true cs g
  Gives-criteria _ _ _ (gives_field arg args reverse field cs e f g) =
      at_field arg args reverse field e f ∙ ap (prepend lower _) (Gives-criteria args false cs g)

  prepended :
      (c : SortCriterion) (r : Criteria) (cs : List SortCriterion)
      → prepend lower c r ≡ criteria cs
      → (more : List SortCriterion) × (r ≡ criteria more) × (cs ≡ c ∷ more)
  prepended c (criteria more) cs e = (more, refl, cc)
  prepended c (not_valid arg) cs e = cc
  prepended c expected_argument cs e = cc

  criteria-Gives :
      (args : List Text) (reverse : Bool) (cs : List SortCriterion)
      → criteria_from lower args reverse ≡ criteria cs
      → Gives args reverse cs
  unfolding criteria_from
  criteria-Gives [] true cs e = cc
  criteria-Gives [] false cs e = subst (Gives [] false) (cc) gives_end
  criteria-Gives (arg ∷ args) reverse cs e = elim (Bool-cases (text_eq arg (codes "-r"))) [
    | inl r ↦
        gives_reverse arg args reverse cs r
          (criteria-Gives args true cs (sym (at_reverse arg args reverse r) ∙ e))
    | inr r ↦ elim (Option-cases (parse_sort_field lower arg)) [
      | inl n ↦ cc (at_unknown arg args reverse r n, e)
      | inr (field, f) ↦
          let (more, m, q) =
            prepended _ (criteria_from lower args false) cs
              (sym (at_field arg args reverse field r f) ∙ e) in
          rw q (gives_field arg args reverse field more r f (criteria-Gives args false more m))
    ]
  ]

  -- `GetSortCriteria` accepts just the lists in which every argument is `-r` or names a field and
  -- the last is not `-r`, and returns a criterion for each field, reversed if `-r` stands before it.
  pub get_sort_criteria-Gives :
      (args : List Text) (cs : List SortCriterion)
      → (get_sort_criteria lower args ≡ criteria cs) ↔ Gives args false cs
  unfolding get_sort_criteria
  get_sort_criteria-Gives args cs = (criteria-Gives args false cs, Gives-criteria args false cs)
