-- ===== src/Imap/Reversing.antt =====
-- worker/imap/open.go: the loop of `handleFetchDirectoryContents` that turns the uids around.
use native.Mathlib.Decide.{dec_lt, ℕ_discrete}
use nyat.Common.{
  ℕ, zero, suc, ◌+◌, ◌-◌, ◌<◌, ◌&&◌, List, [], ◌∷◌, Option, none, some, length, get_elem?,
  get_elem?-lt, set, leb, ◌==◌, if◌then◌else◌, ◌≡◌, refl, arith, ap, ◌∙◌, ltb-false, lt→ltb,
}
use nyat.Imap.Handlers.{swap_ends, reverse_in_place}

pub length-set : (xs : List ℕ) (i v : ℕ) → length (set xs i v) ≡ length xs
length-set [] i v = refl
length-set (x ∷ xs) zero v = refl
length-set (x ∷ xs) (suc i) v = omega (arith, length-set xs i v)

get_elem?-set_lem :
    (xs : List ℕ) (i k v : ℕ)
    → i < length xs
    → get_elem? (set xs i v) k ≡ (if k == i then some v else get_elem? xs k)
get_elem?-set_lem [] i k v h = absurd (omega arith)
get_elem?-set_lem (x ∷ xs) zero zero v h = ground arith
get_elem?-set_lem (x ∷ xs) zero (suc k) v h = ground arith
get_elem?-set_lem (x ∷ xs) (suc i) zero v h = ground arith
get_elem?-set_lem (x ∷ xs) (suc i) (suc k) v h =
    ground (arith, get_elem?-set_lem xs i k v (omega arith))

abbrev swapped : List ℕ → ℕ → ℕ → List ℕ
swapped uids i j = elim (get_elem? uids i) [
  | none ↦ uids
  | some a ↦ elim (get_elem? uids j) [ none ↦ uids | some b ↦ set (set uids i b) j a ]
]

-- Two entries that are swapped.
swapped-get :
    (xs : List ℕ) (i j k : ℕ)
    → i < j
    → j < length xs
    → get_elem? (swapped xs i j) k
      ≡ (if k == i then get_elem? xs j else if k == j then get_elem? xs i else get_elem? xs k)
swapped-get xs i j k h b =
    let (x, hx) = get_elem?-lt xs i (omega arith) in
    let (y, hy) = get_elem?-lt xs j b in
    rw (hx, hy)
      (ground (
        arith,
        get_elem?-set_lem (set xs i y) j k x (omega (arith, length-set xs i y)),
        get_elem?-set_lem xs i k y (omega arith),
      ))

length-swapped : (xs : List ℕ) (i j : ℕ) → length (swapped xs i j) ≡ length xs
length-swapped xs i j =
    elim (get_elem? xs i)
      as (λ o.
        length (elim o [
          | none ↦ xs
          | some a ↦ elim (get_elem? xs j) [ none ↦ xs | some b ↦ set (set xs i b) j a ]
        ])
        ≡ length xs) [
          | none ↦ refl
          | some a ↦
              elim (get_elem? xs j)
                as (λ o.
                  length (elim o [ none ↦ xs | some b ↦ set (set xs i b) j a ]) ≡ length xs) [
                    | none ↦ refl
                    | some b ↦ length-set (set xs i b) j a ∙ length-set xs i b
                  ]
        ]

-- One round, for what stands at place k, in terms of what the list has at any place.
round :
    (g : ℕ → Option ℕ) (n i j k : ℕ) (inner outer : Option ℕ)
    → i < j
    → i + j + 1 ≡ n
    → inner ≡ (if n - 1 - k == i then g j else if n - 1 - k == j then g i else g (n - 1 - k))
    → outer ≡ (if k == i then g j else if k == j then g i else g k)
    → (if leb (i + 1) k && leb k (j - 1) then inner else outer)
      ≡ (if leb i k && leb k j then g (n - 1 - k) else g k)
round g n i j k inner outer h e p q = elim (ℕ_discrete k i) [
  | yes a ↦ let m : n - 1 - k ≡ j = omega (arith, a, e) in ground (arith, h, e, a, q, ap g m)
  | no a ↦ elim (ℕ_discrete k j) [
    | yes b ↦ let m : n - 1 - k ≡ i = omega (arith, b, e) in ground (arith, h, e, a, b, q, ap g m)
    | no b ↦ ground (arith, h, e, a, b, p, q)
  ]
]

-- At the middle nothing is left to do.
middle :
    (g : ℕ → Option ℕ) (n i j k : ℕ)
    → ¬ (i < j)
    → i + j + 1 ≡ n
    → g k ≡ (if leb i k && leb k j then g (n - 1 - k) else g k)
middle g n i j k h e = elim (ℕ_discrete (n - 1 - k) k) [
  | yes m ↦ ground (arith, ap g m)
  | no m ↦ ground (arith, h, e, m)
]

swap_ends-get :
    (fuel i j k : ℕ) (xs : List ℕ)
    → i + j + 1 ≡ length xs
    → j < i + fuel
    → get_elem? (swap_ends fuel i j xs) k
      ≡ (if leb i k && leb k j then get_elem? xs (length xs - 1 - k) else get_elem? xs k)
unfolding swap_ends
swap_ends-get zero i j k xs e f = ground (arith, f)
swap_ends-get (suc fuel) i j k xs e f = elim (dec_lt i j) [
  | yes h ↦
      let ih =
        swap_ends-get fuel (i + 1) (j - 1) k (swapped xs i j) (omega (arith, length-swapped xs i j))
          (omega arith) in
      rw (lt→ltb i j h) (
        ih
        ∙ round (get_elem? xs) (length xs) i j k
            (get_elem? (swapped xs i j) (length (swapped xs i j) - 1 - k))
            (get_elem? (swapped xs i j) k) h e
            (rw (length-swapped xs i j)
              (swapped-get xs i j (length xs - 1 - k) h (omega (arith, e))))
            (swapped-get xs i j k h (omega (arith, e))))
  | no h ↦ rw (ltb-false i j h) (middle (get_elem? xs) (length xs) i j k h e)
]

-- Turned around, a list of n uids has at place k what it had at place n - 1 - k.
pub reverse_in_place-get :
    (uids : List ℕ) (k : ℕ)
    → k < length uids
    → get_elem? (reverse_in_place uids) k ≡ get_elem? uids (length uids - 1 - k)
unfolding reverse_in_place
reverse_in_place-get uids k h =
    swap_ends-get (length uids) 0 (length uids - 1) k uids (omega arith) (omega arith)
    ∙ ground (arith, h)
