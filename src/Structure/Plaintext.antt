-- ===== src/Structure/Plaintext.antt =====
-- lib/structure_helpers.go: `FindPlaintext` finds a text/plain part, if there is one to find.
use mathlib.Core.List.{append_assoc}
use nyat.Common.{
  ℕ, suc, ◌≡◌, refl, ap, sym, ◌∙◌, ◌≢◌, ◌⊎◌, inl, inr, true, false, Bool, ◌&&◌, map, codes, text_eq,
  text_eq_iff, List, [], ◌∷◌, ◌++◌, none, some, arith, Bool-cases, Option-cases, subst, some_inj,
}
use nyat.Models.{BodyStructure, body, Parts, nil, cons}
use nyat.Structure.{
  part, part_at_index, is_plaintext, is_multipart, find_plaintext, plaintext_in, children, header,
  equals_lower,
}
use nyat.Structure.Paths.{Leads, part_at_index_self, first_child, later_child, Leads-part_at_index}

module _ (lower : ℕ → ℕ) where
  -- What a successful search below some parts returns.
  pub record Finds (parts : Parts) (i : ℕ) (path found : List ℕ) : Type 0 where
    pub rest : List ℕ
    pub goal : BodyStructure
    pub found_eq : found ≡ path ++ rest
    pub leads : Leads parts i rest goal
    pub is_plain : is_plaintext lower goal ≡ true

  -- A text/plain part among the parts, or in a multipart among them, and so on down.
  data MarkedIn : Parts → Type 0 where
    here : (p : BodyStructure) (rest : Parts) → is_plaintext lower p ≡ true → MarkedIn (cons p rest)
    inside :
        (p : BodyStructure) (rest : Parts)
        → is_multipart lower p ≡ true
        → MarkedIn (children p)
        → MarkedIn (cons p rest)
    later : (p : BodyStructure) (rest : Parts) → MarkedIn rest → MarkedIn (cons p rest)

  -- What the loop does with one part.
  loop_plain :
      (p : BodyStructure) (rest : Parts) (i : ℕ) (path : List ℕ)
      → is_plaintext lower p ≡ true
      → plaintext_in lower (cons p rest) i path ≡ some (path ++ suc i ∷ [])
  unfolding find_plaintext
  loop_plain p rest i path e = ground (arith, e)

  loop_inner :
      (p : BodyStructure) (rest : Parts) (i : ℕ) (path found : List ℕ)
      → is_plaintext lower p ≡ false
      → is_multipart lower p ≡ true
      → find_plaintext lower p (path ++ suc i ∷ []) ≡ some found
      → plaintext_in lower (cons p rest) i path ≡ some found
  unfolding find_plaintext
  loop_inner p rest i path found n m e = ground (arith, n, m, e)

  loop_on :
      (p : BodyStructure) (rest : Parts) (i : ℕ) (path : List ℕ)
      → is_plaintext lower p ≡ false
      → (is_multipart lower p ≡ false) ⊎ (find_plaintext lower p (path ++ suc i ∷ []) ≡ none)
      → plaintext_in lower (cons p rest) i path ≡ plaintext_in lower rest (suc i) path
  unfolding find_plaintext
  loop_on p rest i path n (inl m) = ground (arith, n, m)
  loop_on p rest i path n (inr e) = ground (arith, n, e)

  find-eq :
      (p : BodyStructure) (path : List ℕ)
      → find_plaintext lower p path ≡ plaintext_in lower (children p) 0 path
  unfolding find_plaintext
  find-eq (body h parts) path = refl

  -- A path below the child is a path below the parts.
  through :
      (p : BodyStructure) (rest : Parts) (i : ℕ) (path found : List ℕ)
      → Finds (children p) 0 (path ++ suc i ∷ []) found
      → Finds (cons p rest) i path found
  through p rest i path found f = record {
    rest = suc i ∷ f.rest;
    goal = f.goal;
    found_eq = f.found_eq ∙ append_assoc path (suc i ∷ []) f.rest;
    leads = first_child p rest i f.rest f.goal (Leads-part_at_index p f.rest f.goal f.leads);
    is_plain = f.is_plain;
  }

  past :
      (p : BodyStructure) (rest : Parts) (i : ℕ) (path found : List ℕ)
      → Finds rest (suc i) path found
      → Finds (cons p rest) i path found
  past p rest i path found f = record {
    rest = f.rest;
    goal = f.goal;
    found_eq = f.found_eq;
    leads = later_child p rest i f.rest f.goal f.leads;
    is_plain = f.is_plain;
  }

  itself :
      (p : BodyStructure) (rest : Parts) (i : ℕ) (path : List ℕ)
      → is_plaintext lower p ≡ true
      → Finds (cons p rest) i path (path ++ suc i ∷ [])
  itself p rest i path e = record {
    rest = suc i ∷ [];
    goal = p;
    found_eq = refl;
    leads = first_child p rest i [] p (part_at_index_self p);
    is_plain = e;
  }

  step-Finds :
      (p : BodyStructure) (rest : Parts) (i : ℕ) (path found : List ℕ)
      → ((f : List ℕ)
          → find_plaintext lower p (path ++ suc i ∷ []) ≡ some f
          → Finds (children p) 0 (path ++ suc i ∷ []) f)
      → (plaintext_in lower rest (suc i) path ≡ some found → Finds rest (suc i) path found)
      → plaintext_in lower (cons p rest) i path ≡ some found
      → Finds (cons p rest) i path found
  step-Finds p rest i path found inner next e = elim (Bool-cases (is_plaintext lower p)) [
    | inl t ↦
        subst (Finds (cons p rest) i path) (some_inj _ _ (sym (loop_plain p rest i path t) ∙ e))
          (itself p rest i path t)
    | inr n ↦ elim (Bool-cases (is_multipart lower p)) [
      | inr m ↦ past p rest i path found (next (sym (loop_on p rest i path n (inl m)) ∙ e))
      | inl m ↦ elim (Option-cases (find_plaintext lower p (path ++ suc i ∷ []))) [
        | inl o ↦ past p rest i path found (next (sym (loop_on p rest i path n (inr o)) ∙ e))
        | inr (f, o) ↦ through p rest i path found (
            subst (Finds (children p) 0 (path ++ suc i ∷ []))
              (some_inj _ _ (sym (loop_inner p rest i path f n m o) ∙ e)) (inner f o))
      ]
    ]
  ]

  nothing_found :
      (i : ℕ) (path found : List ℕ)
      → plaintext_in lower nil i path ≡ some found
      → Finds nil i path found
  unfolding find_plaintext
  nothing_found i path found e = absurd (cc)

  mutual
    part_Finds :
        (p : BodyStructure) (path found : List ℕ)
        → find_plaintext lower p path ≡ some found
        → Finds (children p) 0 path found
    part_Finds (body h parts) path found e =
        parts_Finds parts 0 path found (sym (find-eq (body h parts) path) ∙ e)

    parts_Finds :
        (parts : Parts) (i : ℕ) (path found : List ℕ)
        → plaintext_in lower parts i path ≡ some found
        → Finds parts i path found
    parts_Finds nil i path found e = nothing_found i path found e
    parts_Finds (cons p rest) i path found e =
        step-Finds p rest i path found (part_Finds p (path ++ suc i ∷ []))
          (parts_Finds rest (suc i) path found) e

  finds_here :
      (p : BodyStructure) (rest : Parts) (i : ℕ) (path : List ℕ)
      → (is_plaintext lower p ≡ true)
        ⊎ ((is_multipart lower p ≡ true) × (find_plaintext lower p (path ++ suc i ∷ []) ≢ none))
      → plaintext_in lower (cons p rest) i path ≢ none
  unfolding find_plaintext
  finds_here p rest i path (inl t) e = ground (arith, t, e)
  finds_here p rest i path (inr (m, ne)) e = ground (arith, m, e, ne)

  finds_later :
      (p : BodyStructure) (rest : Parts) (i : ℕ) (path : List ℕ)
      → plaintext_in lower rest (suc i) path ≢ none
      → plaintext_in lower (cons p rest) i path ≢ none
  unfolding find_plaintext
  finds_later p rest i path ne e = ground (arith, e, ne)

  MarkedIn-ne-none :
      {parts : Parts} (i : ℕ) (path : List ℕ)
      → MarkedIn parts
      → plaintext_in lower parts i path ≢ none
  MarkedIn-ne-none i path (here p rest t) = finds_here p rest i path (inl t)
  MarkedIn-ne-none i path (inside p rest m d) =
      finds_here p rest i path
        (inr (m, λ e. MarkedIn-ne-none 0 (path ++ suc i ∷ []) d (sym (find-eq p _) ∙ e)))
  MarkedIn-ne-none i path (later p rest d) =
      finds_later p rest i path (MarkedIn-ne-none (suc i) path d)

module _ (lower : ℕ → ℕ) where
  -- A part of type text/plain, and one of a multipart type, in letters of either case.
  abbrev pub IsPlain : BodyStructure → Type 0
  IsPlain p =
      (map lower (header p).mime_type ≡ codes "text")
      × (map lower (header p).mime_sub_type ≡ codes "plain")

  abbrev pub IsMultipart : BodyStructure → Type 0
  IsMultipart p = map lower (header p).mime_type ≡ codes "multipart"

  -- A text/plain part among the parts, or in a multipart among them, and so on down.
  pub data PlainIn : Parts → Type 0 where
    plain_here : (p : BodyStructure) (rest : Parts) → IsPlain p → PlainIn (cons p rest)
    plain_inside :
        (p : BodyStructure) (rest : Parts)
        → IsMultipart p
        → PlainIn (children p)
        → PlainIn (cons p rest)
    plain_later : (p : BodyStructure) (rest : Parts) → PlainIn rest → PlainIn (cons p rest)

  both : (a b : Bool) → (a && b) ≡ true → (a ≡ true) × (b ≡ true)
  both true true h = (refl, refl)
  both true false h = cc
  both false b h = cc

  is_plaintext-IsPlain : (p : BodyStructure) → is_plaintext lower p ≡ true → IsPlain p
  unfolding is_plaintext equals_lower
  is_plaintext-IsPlain p e =
      let (t, u) =
        both (text_eq (map lower (header p).mime_type) (codes "text"))
          (text_eq (map lower (header p).mime_sub_type) (codes "plain")) e in
      ((text_eq_iff _ _).0 t, (text_eq_iff _ _).0 u)

  IsPlain-is_plaintext : (p : BodyStructure) → IsPlain p → is_plaintext lower p ≡ true
  unfolding is_plaintext equals_lower
  IsPlain-is_plaintext p (t, u) = rw ((text_eq_iff _ _).1 t, (text_eq_iff _ _).1 u) refl

  IsMultipart-is_multipart : (p : BodyStructure) → IsMultipart p → is_multipart lower p ≡ true
  unfolding is_multipart equals_lower
  IsMultipart-is_multipart p t = (text_eq_iff _ _).1 t

  PlainIn-MarkedIn : {parts : Parts} → PlainIn parts → MarkedIn lower parts
  PlainIn-MarkedIn (plain_here p rest h) = here p rest (IsPlain-is_plaintext p h)
  PlainIn-MarkedIn (plain_inside p rest m d) =
      inside p rest (IsMultipart-is_multipart p m) (PlainIn-MarkedIn d)
  PlainIn-MarkedIn (plain_later p rest d) = later p rest (PlainIn-MarkedIn d)

-- A path that `FindPlaintext` returns, `PartAtIndex` takes to a text/plain part. It returns none only
-- if none of the parts below the message itself is text/plain, those in multiparts at any depth
-- included.
pub find_plaintext-part_at_index :
    (lower : ℕ → ℕ) (bs : BodyStructure)
    → ((found : List ℕ) × (goal : BodyStructure) × (find_plaintext lower bs [] ≡ some found)
        × (part_at_index bs found ≡ part goal)
        × IsPlain lower goal)
      ⊎ ((find_plaintext lower bs [] ≡ none) × ¬ PlainIn lower (children bs))
find_plaintext-part_at_index lower bs = elim (Option-cases (find_plaintext lower bs [])) [
  | inl e ↦ inr (
    e,
    λ d. MarkedIn-ne-none lower 0 [] (PlainIn-MarkedIn lower d) (sym (find-eq lower bs []) ∙ e),
  )
  | inr (found, e) ↦
      let f = part_Finds lower bs [] found e in
      inl (
        found,
        f.goal,
        e,
        ap (part_at_index bs) f.found_eq ∙ Leads-part_at_index bs f.rest f.goal f.leads,
        is_plaintext-IsPlain lower f.goal f.is_plain,
      )
]
