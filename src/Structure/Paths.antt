-- ===== src/Structure/Paths.antt =====
-- models/models.go and lib/structure_helpers.go: the paths that the searches return, as `PartAtIndex`
-- reads them.
use nyat.Common.{ℕ, suc, ◌+◌, ◌≡◌, refl, ap, ◌∙◌, List, [], ◌∷◌, some, arith}
use nyat.Models.{BodyStructure, body, Parts, nil, cons}
use nyat.Structure.{part, children, get_part, part_at_index}

-- A path below some parts: the number of one of them, counted from `i`, and a path below that one.
pub record Leads (parts : Parts) (i : ℕ) (rest : List ℕ) (goal : BodyStructure) : Type 0 where
  pub place : ℕ
  pub below : List ℕ
  pub child : BodyStructure
  pub rest_eq : rest ≡ suc (i + place) ∷ below
  pub child_eq : get_part parts place ≡ some child
  pub goal_eq : part_at_index child below ≡ part goal

pub part_at_index_self : (bs : BodyStructure) → part_at_index bs [] ≡ part bs
unfolding part_at_index
part_at_index_self (body h parts) = refl

pub first_child :
    (p : BodyStructure) (rest : Parts) (i : ℕ) (below : List ℕ) (goal : BodyStructure)
    → part_at_index p below ≡ part goal
    → Leads (cons p rest) i (suc i ∷ below) goal
first_child p rest i below goal e = record {
  place = 0;
  below = below;
  child = p;
  rest_eq = ap (λ (n : ℕ). suc n ∷ below) (let z : i ≡ i + 0 = omega arith in z);
  child_eq = refl;
  goal_eq = e;
}

pub later_child :
    (p : BodyStructure) (rest : Parts) (i : ℕ) (path : List ℕ) (goal : BodyStructure)
    → Leads rest (suc i) path goal
    → Leads (cons p rest) i path goal
later_child p rest i path goal l = record {
  place = suc l.place;
  below = l.below;
  child = l.child;
  rest_eq =
      l.rest_eq
      ∙ ap (λ (n : ℕ). suc n ∷ l.below)
          (let z : suc i + l.place ≡ i + suc l.place = omega arith in z);
  child_eq = l.child_eq;
  goal_eq = l.goal_eq;
}

-- From a part to the path that `PartAtIndex` takes.
pub Leads-part_at_index :
    (bs : BodyStructure) (rest : List ℕ) (goal : BodyStructure)
    → Leads (children bs) 0 rest goal
    → part_at_index bs rest ≡ part goal
unfolding part_at_index
Leads-part_at_index (body h nil) rest goal l = cc (l.child_eq)
Leads-part_at_index (body h (cons p parts)) rest goal l =
    ap (part_at_index (body h (cons p parts))) (
      l.rest_eq
      ∙ ap (λ (n : ℕ). suc n ∷ l.below) (let z : 0 + l.place ≡ l.place = omega arith in z))
    ∙ rw (l.child_eq, part_at_index) l.goal_eq
