-- ===== src/Tabs/PinOrder.antt =====
-- lib/ui/tab.go: pinned tabs stand before the others.
use nyat.Common.{
  ℕ, zero, suc, ◌≤◌, ◌<◌, ◌≡◌, refl, ap, inl, inr, true, false, List, [], ◌∷◌, some, arith, length,
  get_elem?, All, delete_at, insert_at, Bool-cases,
}
use nyat.Tabs.Faces.{Face, pinned_prefix, PinsFirst}

pub prefix-le :
    (fs : List Face) (i : ℕ) (f : Face)
    → get_elem? fs i ≡ some f
    → f.pinned ≡ false
    → pinned_prefix fs ≤ i
unfolding pinned_prefix
prefix-le [] i f e n = cc
prefix-le (x ∷ xs) zero f e n = ground arith
prefix-le (x ∷ xs) (suc i) f e n = ground (arith, prefix-le xs i f e n)

step_pinned :
    (x : Face) (xs : List Face) → x.pinned ≡ true → pinned_prefix (x ∷ xs) ≡ suc (pinned_prefix xs)
unfolding pinned_prefix
step_pinned x xs h = ground arith

step_unpinned : (x : Face) (xs : List Face) → x.pinned ≡ false → pinned_prefix (x ∷ xs) ≡ 0
unfolding pinned_prefix
step_unpinned x xs h = ground arith

abbrev pub Unpinned : List Face → Type 0
Unpinned = All (λ f. f.pinned ≡ false)

prefix-Unpinned : (fs : List Face) → Unpinned fs → pinned_prefix fs ≡ 0
unfolding pinned_prefix
prefix-Unpinned [] h = refl
prefix-Unpinned (x ∷ xs) h = step_unpinned x xs h.0

delete_at-Unpinned : (i : ℕ) (fs : List Face) → Unpinned fs → Unpinned (delete_at i fs)
delete_at-Unpinned zero [] h = tt
delete_at-Unpinned zero (x ∷ xs) h = h.1
delete_at-Unpinned (suc i) [] h = tt
delete_at-Unpinned (suc i) (x ∷ xs) h = (h.0, delete_at-Unpinned i xs h.1)

-- What is put behind the pinned tabs: one more of them, with none pinned behind it.
abbrev pub Grown : List Face → ℕ → Face → Type 0
Grown fs i f =
    let gs = insert_at (pinned_prefix fs) f (delete_at i fs) in
    (pinned_prefix gs ≡ suc (pinned_prefix fs)) × PinsFirst gs

Grown-Unpinned :
    (xs : List Face) (f : Face)
    → f.pinned ≡ true
    → Unpinned xs
    → (pinned_prefix (f ∷ xs) ≡ 1) × PinsFirst (f ∷ xs)
Grown-Unpinned xs f e u = rw (step_pinned f xs e, prefix-Unpinned xs u) (refl, u)

-- A tab from behind the pinned ones, pinned and put behind them, makes one more of them.
pub insert_at-Grown :
    (fs : List Face) (i : ℕ) (f : Face)
    → i < length fs
    → pinned_prefix fs ≤ i
    → PinsFirst fs
    → f.pinned ≡ true
    → Grown fs i f
insert_at-Grown [] i f lt le p e = elim lt [ ]
insert_at-Grown (x ∷ xs) zero f lt le p e = elim (Bool-cases x.pinned) [
  | inl h ↦ absurd (omega (arith, step_pinned x xs h))
  | inr h ↦ rw (step_unpinned x xs h) (Grown-Unpinned xs f e ((rw (step_unpinned x xs h) at p).1))
]
insert_at-Grown (x ∷ xs) (suc i) f lt le p e = elim (Bool-cases x.pinned) [
  | inl h ↦
      let ih =
        insert_at-Grown xs i f (omega arith) (omega (arith, step_pinned x xs h))
          (rw (step_pinned x xs h) at p) e in
      rw (step_pinned x xs h)
        (rw (step_pinned x (insert_at (pinned_prefix xs) f (delete_at i xs)) h) (ap suc ih.0, ih.1))
  | inr h ↦ rw (step_unpinned x xs h) (
      Grown-Unpinned (delete_at (suc i) (x ∷ xs)) f e
        (delete_at-Unpinned (suc i) (x ∷ xs) (rw (step_unpinned x xs h) at p)))
]
