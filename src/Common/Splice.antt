-- ===== src/Common/Splice.antt =====
-- Elements put into a list and taken out of it, and what stands at each place afterwards.
use Prim.Native.Nat.{ℕ, zero, suc, ◌≤◌, ◌<◌}
use mathlib.Core.Path.{◌≡◌, refl, ap}
use mathlib.Core.Option.{some}
use mathlib.Core.List.{List, [], ◌∷◌, ◌++◌}
use native.Mathlib.Omega.{arith}
use nyat.Common.Tests.{ltb, if◌then◌else◌}
use nyat.Common.Lists.{length, get_elem?, take, drop, length-append, length-take, length-drop}

module _ {ℓ} {A : Type ℓ} where
  -- `append(xs[:i], xs[i+1:]...)`
  abbrev pub delete_at : ℕ → List A → List A
  delete_at i xs = take i xs ++ drop (suc i) xs

  -- An element before place `i`.
  abbrev pub insert_at : ℕ → A → List A → List A
  insert_at i a xs = take i xs ++ a ∷ drop i xs

  pub get_elem?-delete_at :
      (i j : ℕ) (xs : List A)
      → get_elem? (delete_at i xs) j ≡ (if ltb j i then get_elem? xs j else get_elem? xs (suc j))
  get_elem?-delete_at zero j [] = ground arith
  get_elem?-delete_at zero j (x ∷ xs) = ground arith
  get_elem?-delete_at (suc i) j [] = ground arith
  get_elem?-delete_at (suc i) zero (x ∷ xs) = ground arith
  get_elem?-delete_at (suc i) (suc j) (x ∷ xs) = ground (arith, get_elem?-delete_at i j xs)

  pub length-delete_at :
      (i : ℕ) (xs : List A) → i < length xs → suc (length (delete_at i xs)) ≡ length xs
  length-delete_at i xs h =
      omega (
        arith,
        length-append (take i xs) (drop (suc i) xs),
        length-take i xs,
        length-drop (suc i) xs,
      )

  pub length-insert_at :
      (i : ℕ) (a : A) (xs : List A) → i ≤ length xs → length (insert_at i a xs) ≡ suc (length xs)
  length-insert_at i a xs h =
      omega (arith, length-append (take i xs) (a ∷ drop i xs), length-take i xs, length-drop i xs)

  pub get_elem?-insert_at_lt :
      (i j : ℕ) (a : A) (xs : List A)
      → i ≤ length xs
      → j < i
      → get_elem? (insert_at i a xs) j ≡ get_elem? xs j
  get_elem?-insert_at_lt zero j a xs h k = elim k [ ]
  get_elem?-insert_at_lt (suc i) j a [] h k = elim h [ ]
  get_elem?-insert_at_lt (suc i) zero a (x ∷ xs) h k = refl
  get_elem?-insert_at_lt (suc i) (suc j) a (x ∷ xs) h k =
      get_elem?-insert_at_lt i j a xs (omega arith) (omega arith)

  pub get_elem?-insert_at_self :
      (i : ℕ) (a : A) (xs : List A) → i ≤ length xs → get_elem? (insert_at i a xs) i ≡ some a
  get_elem?-insert_at_self zero a xs h = refl
  get_elem?-insert_at_self (suc i) a [] h = elim h [ ]
  get_elem?-insert_at_self (suc i) a (x ∷ xs) h = get_elem?-insert_at_self i a xs (omega arith)

  pub get_elem?-insert_at_gt :
      (i j : ℕ) (a : A) (xs : List A)
      → i ≤ length xs
      → i ≤ j
      → get_elem? (insert_at i a xs) (suc j) ≡ get_elem? xs j
  get_elem?-insert_at_gt zero j a xs h k = refl
  get_elem?-insert_at_gt (suc i) j a [] h k = elim h [ ]
  get_elem?-insert_at_gt (suc i) zero a (x ∷ xs) h k = elim k [ ]
  get_elem?-insert_at_gt (suc i) (suc j) a (x ∷ xs) h k =
      get_elem?-insert_at_gt i j a xs (omega arith) (omega arith)

  -- What was put in at a place is what is taken out there.
  pub delete_at-insert_at :
      (i : ℕ) (a : A) (xs : List A) → i ≤ length xs → delete_at i (insert_at i a xs) ≡ xs
  delete_at-insert_at zero a xs h = refl
  delete_at-insert_at (suc i) a [] h = elim h [ ]
  delete_at-insert_at (suc i) a (x ∷ xs) h = ap (◌∷◌ x) (delete_at-insert_at i a xs (omega arith))

  pub insert_at-delete_at :
      (i : ℕ) (a : A) (xs : List A) → get_elem? xs i ≡ some a → insert_at i a (delete_at i xs) ≡ xs
  insert_at-delete_at zero a [] h = cc
  insert_at-delete_at zero a (x ∷ xs) h = cc
  insert_at-delete_at (suc i) a [] h = cc
  insert_at-delete_at (suc i) a (x ∷ xs) h = ap (◌∷◌ x) (insert_at-delete_at i a xs h)
