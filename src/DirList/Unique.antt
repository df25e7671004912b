-- ===== src/DirList/Unique.antt =====
-- A list that is in a total order is known by how often each text occurs in it.
use nyat.Common.{
  ℕ, suc, ◌<◌, Bool, true, false, List, [], ◌∷◌, Text, text_eq, text_eq_iff, if◌then◌else◌, ◌≡◌,
  refl, arith, subst, Bool-cases, inl, inr, ◌⊎◌, All,
}
use nyat.MsgSort.Criteria.{sort_stable, insert_stable}
use nyat.MsgSort.Orders.{IsWeakOrder}
use nyat.MsgSort.Sorted.{Ordered, sort_stable-Ordered}

abbrev pub times : Text → List Text → ℕ
times d [] = 0
times d (x ∷ xs) = let rest = times d xs in if text_eq x d then suc rest else rest

-- No text stands before one that is less.
abbrev pub InOrder : (Text → Text → Bool) → List Text → Type 0
InOrder less xs = Ordered (λ a b. less b a ≡ false) xs

All-times : (P : Text → Type 0) (d : Text) (xs : List Text) → All P xs → 0 < times d xs → P d
All-times P d [] h k = absurd (omega arith)
All-times P d (x ∷ xs) h k = elim (Bool-cases (text_eq x d)) [
  | inl e ↦ subst P ((text_eq_iff x d).0 e) h.0
  | inr e ↦ All-times P d xs h.1 (ground (arith, e, k))
]

tails :
    (d x y : Text) (xs ys : List Text)
    → x ≡ y
    → times d (x ∷ xs) ≡ times d (y ∷ ys)
    → times d xs ≡ times d ys
tails d x y xs ys q e = elim (Bool-cases (text_eq x d)) [
  | inl h ↦ ground (arith, e, h, subst (λ z. text_eq z d ≡ true) q h)
  | inr h ↦ ground (arith, e, h, subst (λ z. text_eq z d ≡ false) q h)
]

module _ (less : Text → Text → Bool) where
  times-insert_stable :
      (d x : Text) (ys : List Text) → times d (insert_stable less x ys) ≡ times d (x ∷ ys)
  unfolding insert_stable
  times-insert_stable d x [] = refl
  times-insert_stable d x (y ∷ ys) = ground (arith, times-insert_stable d x ys)

  pub times-sort_stable : (d : Text) (xs : List Text) → times d (sort_stable less xs) ≡ times d xs
  unfolding sort_stable
  times-sort_stable d [] = refl
  times-sort_stable d (x ∷ xs) =
      ground (arith, times-insert_stable d x (sort_stable less xs), times-sort_stable d xs)

  module _ (o : IsWeakOrder less) where
    unrelated : (x : Text) (ys : List Text) → All (λ y. Unit {0}) ys
    unrelated x [] = tt
    unrelated x (y ∷ ys) = (tt, unrelated x ys)

    unordered : (xs : List Text) → Ordered (λ a b. Unit {0}) xs
    unordered [] = tt
    unordered (x ∷ xs) = (unrelated x xs, unordered xs)

    weaker :
        (x : Text) (ys : List Text)
        → All (λ y. (less y x ≡ false) × ((less x y ≡ true) ⊎ Unit {0})) ys
        → All (λ y. less y x ≡ false) ys
    weaker x [] h = tt
    weaker x (y ∷ ys) h = ((h.0).0, weaker x ys h.1)

    all_weaker :
        (xs : List Text)
        → Ordered (λ a b. (less b a ≡ false) × ((less a b ≡ true) ⊎ Unit {0})) xs
        → InOrder less xs
    all_weaker [] h = tt
    all_weaker (x ∷ xs) h = (weaker x xs h.0, all_weaker xs h.1)

    pub sort_stable-InOrder : (xs : List Text) → InOrder less (sort_stable less xs)
    sort_stable-InOrder xs =
        all_weaker (sort_stable less xs)
          (sort_stable-Ordered less o (λ a b. Unit {0}) xs (unordered xs))

  module _ (total : (a b : Text) → less a b ≡ false → less b a ≡ false → a ≡ b) where
    heads :
        (x y : Text) (xs ys : List Text)
        → InOrder less (x ∷ xs)
        → InOrder less (y ∷ ys)
        → ((d : Text) → times d (x ∷ xs) ≡ times d (y ∷ ys))
        → x ≡ y
    heads x y xs ys h k e = elim (Bool-cases (text_eq x y)) [
      | inl q ↦ (text_eq_iff x y).0 q
      | inr q ↦
          total x y
            (All-times (λ b. less b y ≡ false) x ys k.0
              (ground (arith, q, e x, text_eq_iff x x, text_eq_iff x y, text_eq_iff y x)))
            (All-times (λ b. less b x ≡ false) y xs h.0
              (ground (arith, q, e y, text_eq_iff y y, text_eq_iff x y, text_eq_iff y x)))
    ]

    pub InOrder-unique :
        (xs ys : List Text)
        → InOrder less xs
        → InOrder less ys
        → ((d : Text) → times d xs ≡ times d ys)
        → xs ≡ ys
    InOrder-unique [] [] h k e = refl
    InOrder-unique [] (y ∷ ys) h k e = absurd (ground (arith, e y, text_eq_iff y y))
    InOrder-unique (x ∷ xs) [] h k e = absurd (ground (arith, e x, text_eq_iff x x))
    InOrder-unique (x ∷ xs) (y ∷ ys) h k e =
        let q = heads x y xs ys h k e in
        let r = InOrder-unique xs ys h.1 k.1 (λ d. tails d x y xs ys q (e d)) in cc
