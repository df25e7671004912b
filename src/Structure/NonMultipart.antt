-- ===== src/Structure/NonMultipart.antt =====
-- lib/structure_helpers.go: what `FindFirstNonMultipart` returns.
use mathlib.Core.List.{append_assoc}
use nyat.Common.{
  ℕ, suc, ◌≡◌, refl, ap, sym, ◌∙◌, ◌≢◌, ◌⊎◌, inl, inr, true, false, List, [], ◌∷◌, ◌++◌, none, some,
  some_inj, arith, Bool-cases, Option-cases, subst,
}
use nyat.Models.{BodyStructure, body, Parts, nil, cons}
use nyat.Structure.{
  part, part_at_index, is_multipart, find_first_non_multipart, non_multipart_in, children, returned,
}
use nyat.Structure.Paths.{Leads, part_at_index_self, first_child, later_child, Leads-part_at_index}

module _ (lower : ℕ → ℕ) where
  -- What a search below some parts returns: the path that it was given, or one that goes on to a
  -- multipart.
  abbrev Ends : Parts → ℕ → List ℕ → List ℕ → Type 0
  Ends parts i path found =
      ((found ≡ path) × (path ≢ []))
      ⊎ ((rest : List ℕ) × (goal : BodyStructure) × (found ≡ path ++ rest)
          × Leads parts i rest goal
          × (is_multipart lower goal ≡ true))

  loop_single :
      (p : BodyStructure) (rest : Parts) (i : ℕ) (path : List ℕ)
      → is_multipart lower p ≡ false
      → non_multipart_in lower (cons p rest) i path ≡ returned path
  unfolding find_first_non_multipart
  loop_single p rest i path e = ground (arith, e)

  loop_inner :
      (p : BodyStructure) (rest : Parts) (i : ℕ) (path found : List ℕ)
      → is_multipart lower p ≡ true
      → find_first_non_multipart lower p (path ++ suc i ∷ []) ≡ some found
      → non_multipart_in lower (cons p rest) i path ≡ some found
  unfolding find_first_non_multipart
  loop_inner p rest i path found m e = ground (arith, m, e)

  loop_on :
      (p : BodyStructure) (rest : Parts) (i : ℕ) (path : List ℕ)
      → is_multipart lower p ≡ true
      → find_first_non_multipart lower p (path ++ suc i ∷ []) ≡ none
      → non_multipart_in lower (cons p rest) i path ≡ non_multipart_in lower rest (suc i) path
  unfolding find_first_non_multipart
  loop_on p rest i path m e = ground (arith, m, e)

  find-eq :
      (p : BodyStructure) (path : List ℕ)
      → find_first_non_multipart lower p path ≡ non_multipart_in lower (children p) 0 path
  unfolding find_first_non_multipart
  find-eq (body h parts) path = refl

  returned-eq : (path found : List ℕ) → returned path ≡ some found → (found ≡ path) × (path ≢ [])
  returned-eq [] found e = absurd (cc)
  returned-eq (n ∷ path) found e = (sym (some_inj _ _ e), λ z. cc)

  through :
      (p : BodyStructure) (rest : Parts) (i : ℕ) (path found : List ℕ)
      → is_multipart lower p ≡ true
      → Ends (children p) 0 (path ++ suc i ∷ []) found
      → Ends (cons p rest) i path found
  through p rest i path found m (inl e) =
      inr (suc i ∷ [], p, e.0, first_child p rest i [] p (part_at_index_self p), m)
  through p rest i path found m (inr (below, goal, e, l, g)) = inr (
    suc i ∷ below,
    goal,
    e ∙ append_assoc path (suc i ∷ []) below,
    first_child p rest i below goal (Leads-part_at_index p below goal l),
    g,
  )

  past :
      (p : BodyStructure) (rest : Parts) (i : ℕ) (path found : List ℕ)
      → Ends rest (suc i) path found
      → Ends (cons p rest) i path found
  past p rest i path found (inl e) = inl e
  past p rest i path found (inr (below, goal, e, l, g)) =
      inr (below, goal, e, later_child p rest i below goal l, g)

  step-Ends :
      (p : BodyStructure) (rest : Parts) (i : ℕ) (path found : List ℕ)
      → ((f : List ℕ)
          → find_first_non_multipart lower p (path ++ suc i ∷ []) ≡ some f
          → Ends (children p) 0 (path ++ suc i ∷ []) f)
      → (non_multipart_in lower rest (suc i) path ≡ some found → Ends rest (suc i) path found)
      → non_multipart_in lower (cons p rest) i path ≡ some found
      → Ends (cons p rest) i path found
  step-Ends p rest i path found inner next e = elim (Bool-cases (is_multipart lower p)) [
    | inr m ↦ inl (returned-eq path found (sym (loop_single p rest i path m) ∙ e))
    | inl m ↦ elim (Option-cases (find_first_non_multipart lower p (path ++ suc i ∷ []))) [
      | inl o ↦ past p rest i path found (next (sym (loop_on p rest i path m o) ∙ e))
      | inr (f, o) ↦ through p rest i path found m (
          subst (Ends (children p) 0 (path ++ suc i ∷ []))
            (some_inj f found (sym (loop_inner p rest i path f m o) ∙ e)) (inner f o))
    ]
  ]

  nothing_found :
      (i : ℕ) (path found : List ℕ)
      → non_multipart_in lower nil i path ≡ some found
      → Ends nil i path found
  unfolding find_first_non_multipart
  nothing_found i path found e = absurd (cc)

  mutual
    part_Ends :
        (p : BodyStructure) (path found : List ℕ)
        → find_first_non_multipart lower p path ≡ some found
        → Ends (children p) 0 path found
    part_Ends (body h parts) path found e =
        parts_Ends parts 0 path found (sym (find-eq (body h parts) path) ∙ e)

    parts_Ends :
        (parts : Parts) (i : ℕ) (path found : List ℕ)
        → non_multipart_in lower parts i path ≡ some found
        → Ends parts i path found
    parts_Ends nil i path found e = nothing_found i path found e
    parts_Ends (cons p rest) i path found e =
        step-Ends p rest i path found (part_Ends p (path ++ suc i ∷ []))
          (parts_Ends rest (suc i) path found) e

  below_top :
      (bs : BodyStructure) (found : List ℕ)
      → Ends (children bs) 0 [] found
      → (goal : BodyStructure) × (part_at_index bs found ≡ part goal)
        × (is_multipart lower goal ≡ true)
  below_top bs found (inl (e, ne)) = absurd (ne refl)
  below_top bs found (inr (rest, goal, e, l, g)) =
      (goal, ap (part_at_index bs) e ∙ Leads-part_at_index bs rest goal l, g)

-- A path that `FindFirstNonMultipart` returns, as it is called, from the top of a message, always
-- leads to a multipart.
pub find_first_non_multipart-is_multipart :
    (lower : ℕ → ℕ) (bs : BodyStructure) (found : List ℕ)
    → find_first_non_multipart lower bs [] ≡ some found
    → (goal : BodyStructure) × (part_at_index bs found ≡ part goal)
      × (is_multipart lower goal ≡ true)
find_first_non_multipart-is_multipart lower bs found e =
    below_top lower bs found (part_Ends lower bs [] found e)
