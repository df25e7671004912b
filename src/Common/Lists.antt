-- ===== src/Common/Lists.antt =====
-- Lists measured and indexed by native numbers, under the library's names.
use Prim.Native.Nat.{ℕ, zero, suc, ◌+◌, ◌-◌, ◌≤◌, ◌<◌, min}
use mathlib.Core.Path.{◌≡◌, refl, ap}
use mathlib.Core.Logic.{◌⊎◌, inl, inr}
use mathlib.Core.Bool.{Bool, true, false}
use mathlib.Core.List.{List, [], ◌∷◌, ◌++◌}
use mathlib.Core.Option.{Option, none, some}
use native.Mathlib.Omega.{arith}
use nyat.Common.Tests.{if◌then◌else◌, ◌==◌}

module _ {ℓ} {A : Type ℓ} where
  abbrev pub length : List A → ℕ
  length [] = 0
  length (x ∷ xs) = suc (length xs)

  abbrev pub get_elem? : List A → ℕ → Option A
  get_elem? [] i = none
  get_elem? (x ∷ xs) zero = some x
  get_elem? (x ∷ xs) (suc i) = get_elem? xs i

  abbrev pub set : List A → ℕ → A → List A
  set [] i v = []
  set (x ∷ xs) zero v = v ∷ xs
  set (x ∷ xs) (suc i) v = x ∷ set xs i v

  abbrev pub take : ℕ → List A → List A
  take zero xs = []
  take (suc n) [] = []
  take (suc n) (x ∷ xs) = x ∷ take n xs

  abbrev pub drop : ℕ → List A → List A
  drop zero xs = xs
  drop (suc n) [] = []
  drop (suc n) (x ∷ xs) = drop n xs

  -- The elements that pass a Boolean test, in order.
  abbrev pub select_if : (A → Bool) → List A → List A
  select_if p [] = []
  select_if p (x ∷ xs) = let rest = select_if p xs in if p x then x ∷ rest else rest

  pub length-append : (xs ys : List A) → length (xs ++ ys) ≡ length xs + length ys
  length-append [] ys = omega arith
  length-append (x ∷ xs) ys = omega (arith, length-append xs ys)

  pub take-append-drop : (n : ℕ) (xs : List A) → take n xs ++ drop n xs ≡ xs
  take-append-drop zero xs = refl
  take-append-drop (suc n) [] = refl
  take-append-drop (suc n) (x ∷ xs) = ap (◌∷◌ x) (take-append-drop n xs)

  pub length-take : (n : ℕ) (xs : List A) → length (take n xs) ≡ min n (length xs)
  length-take zero xs = omega arith
  length-take (suc n) [] = omega arith
  length-take (suc n) (x ∷ xs) = omega (arith, length-take n xs)

  pub length-drop : (n : ℕ) (xs : List A) → length (drop n xs) ≡ length xs - n
  length-drop zero xs = omega arith
  length-drop (suc n) [] = omega arith
  length-drop (suc n) (x ∷ xs) = omega (arith, length-drop n xs)

  pub length-select_if-le : (p : A → Bool) (xs : List A) → length (select_if p xs) ≤ length xs
  length-select_if-le p [] = omega arith
  length-select_if-le p (x ∷ xs) = ground (arith, length-select_if-le p xs)

  pub get_elem?-lt : (xs : List A) (i : ℕ) → i < length xs → (a : A) × (get_elem? xs i ≡ some a)
  get_elem?-lt [] i h = elim h [ ]
  get_elem?-lt (x ∷ xs) zero h = (x, refl)
  get_elem?-lt (x ∷ xs) (suc i) h = get_elem?-lt xs i (omega arith)

  pub get_elem?-some-lt : (xs : List A) (i : ℕ) (a : A) → get_elem? xs i ≡ some a → i < length xs
  get_elem?-some-lt [] i a h = cc
  get_elem?-some-lt (x ∷ xs) zero a h = omega arith
  get_elem?-some-lt (x ∷ xs) (suc i) a h = omega (arith, get_elem?-some-lt xs i a h)

module _ {ℓ} {A : Type ℓ} where
  -- An element of an updated list is the new one, at its place, or an old one.
  pub get_elem?-set :
      (xs : List A) (i j : ℕ) (v a : A)
      → get_elem? (set xs i v) j ≡ some a
      → ((j ≡ i) × (a ≡ v)) ⊎ (get_elem? xs j ≡ some a)
  get_elem?-set [] i j v a h = inr h
  get_elem?-set (x ∷ xs) zero zero v a h = inl (refl, cc)
  get_elem?-set (x ∷ xs) zero (suc j) v a h = inr h
  get_elem?-set (x ∷ xs) (suc i) zero v a h = inr h
  get_elem?-set (x ∷ xs) (suc i) (suc j) v a h = elim (get_elem?-set xs i j v a h) [
    | inl (e, f) ↦ inl (ap suc e, f)
    | inr e ↦ inr e
  ]

  pub get_elem?-append :
      (xs : List A) (j : ℕ) (v a : A)
      → get_elem? (xs ++ v ∷ []) j ≡ some a
      → ((j ≡ length xs) × (a ≡ v)) ⊎ (get_elem? xs j ≡ some a)
  get_elem?-append [] zero v a h = inl (refl, cc)
  get_elem?-append [] (suc j) v a h = cc
  get_elem?-append (x ∷ xs) zero v a h = inr h
  get_elem?-append (x ∷ xs) (suc j) v a h = elim (get_elem?-append xs j v a h) [
    | inl (e, f) ↦ inl (ap suc e, f)
    | inr e ↦ inr e
  ]

-- Whether a number occurs in a list.
abbrev pub mem : ℕ → List ℕ → Bool
mem a [] = false
mem a (x ∷ xs) = let rest = mem a xs in if x == a then true else rest

-- How often a number occurs in a list.
abbrev pub count : ℕ → List ℕ → ℕ
count a [] = 0
count a (x ∷ xs) = let rest = count a xs in if x == a then suc rest else rest

-- The conjunction of a predicate over a list.
abbrev pub All {ℓ κ} : {A : Type ℓ} → (A → Type κ) → List A → Type κ
All P [] = Unit
All P (x ∷ xs) = P x × All P xs

module _ {ℓ κ} {A : Type ℓ} (P : A → Type κ) where
  pub All-append : (xs ys : List A) → All P xs → All P ys → All P (xs ++ ys)
  All-append [] ys hx hy = hy
  All-append (x ∷ xs) ys hx hy = (hx.0, All-append xs ys hx.1 hy)

  pub All-take : (n : ℕ) (xs : List A) → All P xs → All P (take n xs)
  All-take zero xs h = tt
  All-take (suc n) [] h = tt
  All-take (suc n) (x ∷ xs) h = (h.0, All-take n xs h.1)
