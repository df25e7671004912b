-- ===== src/MsgSort/Sorted.antt =====
-- What `Sort` of worker/lib/sort.go returns: all messages, in the order of the criteria.
use nyat.Common.{
  ℕ, suc, Bool, true, false, List, [], ◌∷◌, map, reverse, some, ◌==◌, if◌then◌else◌, ◌≡◌, refl,
  arith, ◌⊎◌, inl, inr, Bool-cases, All, ◌∙◌,
}
use nyat.Models.{MessageInfo, SortField, SortCriterion}
use nyat.MsgSort.Criteria.{
  insert_stable, sort_stable, less_for, has_no_envelope, any_info, reads_nil, sort_step, sort_infos,
  sort,
}
use nyat.MsgSort.Orders.{IsWeakOrder, less_for-IsWeakOrder}

module _ {A : Type 0} where
  -- Every element stands before those behind it.
  abbrev pub Ordered : (A → A → Type 0) → List A → Type 0
  Ordered R [] = Unit
  Ordered R (x ∷ xs) = All (R x) xs × Ordered R xs

  -- The order by `less`, and by R where `less` decides nothing.
  abbrev pub Then : (A → A → Bool) → (A → A → Type 0) → A → A → Type 0
  Then less R a b = (less b a ≡ false) × ((less a b ≡ true) ⊎ R a b)

module _ {A : Type 0} (less : A → A → Bool) where
  All-insert_stable :
      (P : A → Type 0) (x : A) (ys : List A) → P x → All P ys → All P (insert_stable less x ys)
  unfolding insert_stable
  All-insert_stable P x [] p h = (p, tt)
  All-insert_stable P x (y ∷ ys) p h = elim (Bool-cases (less y x)) [
    | inl e ↦ rw e (h.0, All-insert_stable P x ys p h.1)
    | inr e ↦ rw e (p, h)
  ]

  All-sort_stable : (P : A → Type 0) (xs : List A) → All P xs → All P (sort_stable less xs)
  unfolding sort_stable
  All-sort_stable P [] h = tt
  All-sort_stable P (x ∷ xs) h =
      All-insert_stable P x (sort_stable less xs) h.0 (All-sort_stable P xs h.1)

  module _ (o : IsWeakOrder less) (R : A → A → Type 0) where
    -- What stands before y stands before all that y does.
    through :
        (x y : A) (zs : List A)
        → less y x ≡ false
        → All (Then less R y) zs
        → All (R x) zs
        → All (Then less R x) zs
    through x y [] e h r = tt
    through x y (z ∷ zs) e h r = ((o.chain z y x (h.0).0 e, inr r.0), through x y zs e h.1 r.1)

    insert_stable-Ordered :
        (x : A) (ys : List A)
        → All (R x) ys
        → Ordered (Then less R) ys
        → Ordered (Then less R) (insert_stable less x ys)
    unfolding insert_stable
    insert_stable-Ordered x [] r h = (tt, tt)
    insert_stable-Ordered x (y ∷ ys) r h = elim (Bool-cases (less y x)) [
      | inl e ↦ rw e (
        All-insert_stable (Then less R y) x ys (o.asym y x e, inl e) h.0,
        insert_stable-Ordered x ys r.1 h.1,
      )
      | inr e ↦ rw e (((e, inr r.0), through x y ys e h.0 r.1), h)
    ]

    pub sort_stable-Ordered :
        (xs : List A) → Ordered R xs → Ordered (Then less R) (sort_stable less xs)
    unfolding sort_stable
    sort_stable-Ordered [] h = tt
    sort_stable-Ordered (x ∷ xs) h =
        insert_stable-Ordered x (sort_stable less xs) (All-sort_stable (R x) xs h.0)
          (sort_stable-Ordered xs h.1)

-- How often a uid occurs among messages.
abbrev pub occurrences : ℕ → List MessageInfo → ℕ
occurrences uid [] = 0
occurrences uid (m ∷ ms) = let rest = occurrences uid ms in if m.uid == uid then suc rest else rest

module _ (less : MessageInfo → MessageInfo → Bool) where
  occurrences-insert_stable :
      (uid : ℕ) (x : MessageInfo) (ys : List MessageInfo)
      → occurrences uid (insert_stable less x ys) ≡ occurrences uid (x ∷ ys)
  unfolding insert_stable
  occurrences-insert_stable uid x [] = refl
  occurrences-insert_stable uid x (y ∷ ys) = ground (arith, occurrences-insert_stable uid x ys)

  occurrences-sort_stable :
      (uid : ℕ) (xs : List MessageInfo) → occurrences uid (sort_stable less xs) ≡ occurrences uid xs
  unfolding sort_stable
  occurrences-sort_stable uid [] = refl
  occurrences-sort_stable uid (x ∷ xs) =
      ground (
        arith,
        occurrences-insert_stable uid x (sort_stable less xs),
        occurrences-sort_stable uid xs,
      )

abbrev pub HasEnvelope : MessageInfo → Type 0
HasEnvelope m = has_no_envelope m ≡ false

any_info_no : (ms : List MessageInfo) → All HasEnvelope ms → any_info has_no_envelope ms ≡ false
any_info_no [] h = refl
any_info_no (m ∷ ms) h = rw h.0 (any_info_no ms h.1)

module _ (lower : ℕ → ℕ) where
  reads_nil_no :
      (f : SortField) (ms : List MessageInfo) → All HasEnvelope ms → reads_nil lower f ms ≡ false
  unfolding reads_nil
  reads_nil_no f ms h = ground (arith, any_info_no ms h)

  -- The order of a list of criteria, the first one first.
  abbrev pub Lexicographic : List SortCriterion → MessageInfo → MessageInfo → Type 0
  Lexicographic [] a b = Unit
  Lexicographic (c ∷ cs) a b = Then (less_for lower c) (Lexicographic cs) a b

  abbrev Sorted : List SortCriterion → List MessageInfo → List MessageInfo → Type 0
  Sorted cs ms out =
      Ordered (Lexicographic cs) out
      × ((uid : ℕ) → occurrences uid out ≡ occurrences uid ms)
      × All HasEnvelope out

  unrelated : (a : MessageInfo) (ms : List MessageInfo) → All (Lexicographic [] a) ms
  unrelated a [] = tt
  unrelated a (m ∷ ms) = (tt, unrelated a ms)

  unordered : (ms : List MessageInfo) → Ordered (Lexicographic []) ms
  unordered [] = tt
  unordered (m ∷ ms) = (unrelated m ms, unordered ms)

  sort_step-Sorted :
      (c : SortCriterion) (cs : List SortCriterion) (ms s : List MessageInfo)
      → Sorted cs ms s
      → (sort_step lower c s ≡ some (sort_stable (less_for lower c) s))
        × Sorted (c ∷ cs) ms (sort_stable (less_for lower c) s)
  unfolding sort_step
  sort_step-Sorted c cs ms s (o, n, e) = (
    rw (reads_nil_no c.field s e) refl,
    (
      sort_stable-Ordered (less_for lower c) (less_for-IsWeakOrder lower c) (Lexicographic cs) s o,
      (λ uid. occurrences-sort_stable (less_for lower c) uid s ∙ n uid),
      All-sort_stable (less_for lower c) HasEnvelope s e,
    ),
  )

  sort_infos-Sorted :
      (cs : List SortCriterion) (ms : List MessageInfo)
      → All HasEnvelope ms
      → (out : List MessageInfo) × (sort_infos lower cs ms ≡ some out) × Sorted cs ms out
  unfolding sort_infos
  sort_infos-Sorted [] ms h = (ms, refl, (unordered ms, (λ uid. refl), h))
  sort_infos-Sorted (c ∷ cs) ms h =
      let (s, e, r) = sort_infos-Sorted cs ms h in
      let (f, q) = sort_step-Sorted c cs ms s r in (sort_stable (less_for lower c) s, rw e f, q)

  -- If every message has an envelope, `sort` does not panic, and what it returns are the uids, in
  -- reverse, of a list that has each uid as often as the messages do and is in the order of the
  -- criteria: of two messages the one that stands first is not greater by the first criterion,
  -- and where that one does not decide, the same holds of the criteria after it.
  pub sort-Lexicographic :
      (ms : List MessageInfo) (cs : List SortCriterion)
      → All HasEnvelope ms
      → (out : List MessageInfo) × (sort lower ms cs ≡ some (map (λ m. m.uid) (reverse out)))
        × Ordered (Lexicographic cs) out
        × ((uid : ℕ) → occurrences uid out ≡ occurrences uid ms)
  unfolding sort
  sort-Lexicographic ms cs h =
      let (out, e, (o, n, f)) = sort_infos-Sorted cs ms h in (out, rw e refl, o, n)
