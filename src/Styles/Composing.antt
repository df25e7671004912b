-- ===== src/Styles/Composing.antt =====
-- config/style.go: what `composeWith` takes from each style.
use nyat.Common.{
  true, false, Option, none, some, Bool, List, [], ◌∷◌, map, ◌==◌, if◌then◌else◌, ◌≡◌, refl, ap,
  ◌∙◌,
}
use nyat.Styles.{Style, bool_eq, compose_step, compose_loop, compose_with}

-- The last of some values that is not the base, or else the value so far.
-- The last element that differs from the base.
abbrev pub last_other {ℓ} : {A : Type ℓ} → (A → A → Bool) → A → List A → Option A
last_other eq base [] = none
last_other eq base (x ∷ xs) =
    let rest = last_other eq base xs in
    elim rest [ some y ↦ some y | none ↦ if eq x base then none else some x ]

-- An element if it is there, or else another one.
abbrev pub or_else {ℓ} : {A : Type ℓ} → A → Option A → A
or_else a none = a
or_else a (some b) = b

or_else-step :
    {A : Type 0} (b : Bool) (rest : Option A) (x a : A)
    → or_else (if b then a else x) rest
      ≡ or_else a (elim rest [ some y ↦ some y | none ↦ if b then none else some x ])
or_else-step true none x a = refl
or_else-step false none x a = refl
or_else-step b (some y) x a = refl

compose_loop-last_other :
    {A : Type 0} (p : Style → A) (eq : A → A → Bool) (s : Style)
    → ((st new : Style) → p (compose_step s st new) ≡ (if eq (p st) (p s) then p new else p st))
    → (styles : List Style) (new : Style)
    → p (compose_loop s styles new) ≡ or_else (p new) (last_other eq (p s) (map p styles))
unfolding compose_loop
compose_loop-last_other p eq s h [] new = refl
compose_loop-last_other p eq s h (st ∷ styles) new =
    compose_loop-last_other p eq s h styles (compose_step s st new)
    ∙ ap (λ a. or_else a (last_other eq (p s) (map p styles))) (h st new)
    ∙ or_else-step (eq (p st) (p s)) (last_other eq (p s) (map p styles)) (p st) (p new)

-- Each attribute of a composed style is that of the last style that differs in it from the base, or
-- the base's own if none does.
pub compose_with-last_other :
    (s : Style) (styles : List Style)
    → ((compose_with s styles).fg ≡ or_else s.fg (last_other ◌==◌ s.fg (map (λ t. t.fg) styles)))
      × ((compose_with s styles).bg ≡ or_else s.bg (last_other ◌==◌ s.bg (map (λ t. t.bg) styles)))
      × ((compose_with s styles).bold
          ≡ or_else s.bold (last_other bool_eq s.bold (map (λ t. t.bold) styles)))
      × ((compose_with s styles).blink
          ≡ or_else s.blink (last_other bool_eq s.blink (map (λ t. t.blink) styles)))
      × ((compose_with s styles).underline
          ≡ or_else s.underline (last_other bool_eq s.underline (map (λ t. t.underline) styles)))
      × ((compose_with s styles).reverse
          ≡ or_else s.reverse (last_other bool_eq s.reverse (map (λ t. t.reverse) styles)))
unfolding compose_with compose_step
compose_with-last_other s styles = (
  compose_loop-last_other (λ t. t.fg) ◌==◌ s (λ st new. refl) styles s,
  compose_loop-last_other (λ t. t.bg) ◌==◌ s (λ st new. refl) styles s,
  compose_loop-last_other (λ t. t.bold) bool_eq s (λ st new. refl) styles s,
  compose_loop-last_other (λ t. t.blink) bool_eq s (λ st new. refl) styles s,
  compose_loop-last_other (λ t. t.underline) bool_eq s (λ st new. refl) styles s,
  compose_loop-last_other (λ t. t.reverse) bool_eq s (λ st new. refl) styles s,
)
