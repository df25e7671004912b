-- ===== src/Bindings/Meaning.antt =====
-- What the answers of `GetBinding` in config/bindings.go mean.
use nyat.Common.{
  ℕ, ◌≤◌, ◌<◌, Bool, true, false, List, [], ◌∷◌, ◌++◌, length, ◌≡◌, refl, arith, ◌⊎◌, inl, inr,
  Bool-cases, All, ap,
}
use native.Mathlib.Decide.{dec_lt}
use nyat.Bindings.Names.{KeyStroke, TcellKey, key_rune}
use nyat.Bindings.Parse.{Binding}
use nyat.Bindings.Lookup.{
  KeyBindings, Search, binding_found, binding_incomplete, binding_not_found, same_stroke,
  strokes_match, search_from, get_binding,
}

module _ (code : TcellKey → ℕ) where
  -- A pressed key is the bound one; for a plain character the characters are compared too.
  abbrev pub Agrees : KeyStroke → KeyStroke → Type 0
  Agrees pressed bound =
      (pressed.key ≡ bound.key) × (pressed.key ≡ code key_rune → pressed.rune ≡ bound.rune)

  -- A bound sequence starts with what was pressed.
  pub data Starts : List KeyStroke → List KeyStroke → Type 0 where
    starts_any : (bound : List KeyStroke) → Starts bound []
    starts_next :
        (b k : KeyStroke) (bs ks : List KeyStroke)
        → Agrees k b
        → Starts bs ks
        → Starts (b ∷ bs) (k ∷ ks)

  abbrev pub IsExact : List KeyStroke → Binding → Type 0
  IsExact input b = Starts b.input input × (length b.input ≡ length input)

  abbrev pub IsLonger : List KeyStroke → Binding → Type 0
  IsLonger input b = Starts b.input input × (length input < length b.input)

  abbrev pub AnyLonger : List KeyStroke → List Binding → Type 0
  AnyLonger input bs =
      (before after : List Binding) × (b : Binding) × (bs ≡ before ++ b ∷ after) × IsLonger input b

  abbrev pub Meaning : List KeyStroke → List Binding → Bool → Search → Type 0
  Meaning input bs earlier (binding_found out) =
      (before after : List Binding) × (b : Binding) × (bs ≡ before ++ b ∷ after)
      × All (λ a. ¬ IsExact input a) before
      × IsExact input b
      × (b.output ≡ out)
  Meaning input bs earlier binding_incomplete =
      All (λ a. ¬ IsExact input a) bs × ((earlier ≡ true) ⊎ AnyLonger input bs)
  Meaning input bs earlier binding_not_found =
      All (λ a. ¬ Starts a.input input) bs × (earlier ≡ false)

  same_stroke-Agrees : (k b : KeyStroke) → same_stroke code k b ≡ true → Agrees k b
  unfolding same_stroke
  same_stroke-Agrees k b h = ground arith

  Agrees-same_stroke : (k b : KeyStroke) → Agrees k b → same_stroke code k b ≡ true
  unfolding same_stroke
  Agrees-same_stroke k b h = ground (arith, h.0, h.1)

  strokes_match-Starts :
      (bound input : List KeyStroke)
      → length input ≤ length bound
      → strokes_match code input bound ≡ true
      → Starts bound input
  unfolding strokes_match
  strokes_match-Starts bound [] l h = starts_any bound
  strokes_match-Starts [] (k ∷ ks) l h = elim l [ ]
  strokes_match-Starts (b ∷ bs) (k ∷ ks) l h =
      starts_next b k bs ks (same_stroke-Agrees k b (ground arith))
        (strokes_match-Starts bs ks (omega arith) (ground arith))

  Starts-strokes_match :
      (bound input : List KeyStroke)
      → Starts bound input
      → (strokes_match code input bound ≡ true) × (length input ≤ length bound)
  unfolding strokes_match
  Starts-strokes_match _ _ (starts_any bound) = (refl, omega arith)
  Starts-strokes_match _ _ (starts_next b k bs ks a s) =
      let r = Starts-strokes_match bs ks s in
      (ground (arith, r.0, Agrees-same_stroke k b a), omega (arith, r.1))

  -- The three ways in which the loop passes a binding.
  short_step :
      (b : Binding) (bs : List Binding) (input : List KeyStroke) (earlier : Bool)
      → length b.input < length input
      → search_from code (b ∷ bs) input earlier ≡ search_from code bs input earlier
  unfolding search_from
  short_step b bs input earlier h = ground (arith, h)

  unlike_step :
      (b : Binding) (bs : List Binding) (input : List KeyStroke) (earlier : Bool)
      → strokes_match code input b.input ≡ false
      → search_from code (b ∷ bs) input earlier ≡ search_from code bs input earlier
  unfolding search_from
  unlike_step b bs input earlier h = ground (arith, h)

  longer_step :
      (b : Binding) (bs : List Binding) (input : List KeyStroke) (earlier : Bool)
      → strokes_match code input b.input ≡ true
      → length input < length b.input
      → search_from code (b ∷ bs) input earlier ≡ search_from code bs input true
  unfolding search_from
  longer_step b bs input earlier h l = ground (arith, h, l)

  exact_step :
      (b : Binding) (bs : List Binding) (input : List KeyStroke) (earlier : Bool)
      → strokes_match code input b.input ≡ true
      → length b.input ≡ length input
      → search_from code (b ∷ bs) input earlier ≡ binding_found b.output
  unfolding search_from
  exact_step b bs input earlier h l = ground (arith, h, l)

  abbrev Step : Binding → List Binding → List KeyStroke → Bool → Type 0
  Step b bs input earlier =
      (¬ Starts b.input input
        × (search_from code (b ∷ bs) input earlier ≡ search_from code bs input earlier))
      ⊎ (IsLonger input b
          × (search_from code (b ∷ bs) input earlier ≡ search_from code bs input true))
      ⊎ (IsExact input b × (search_from code (b ∷ bs) input earlier ≡ binding_found b.output))

  matched :
      (b : Binding) (bs : List Binding) (input : List KeyStroke) (earlier : Bool)
      → strokes_match code input b.input ≡ true
      → length input ≤ length b.input
      → Step b bs input earlier
  matched b bs input earlier h l = elim (dec_lt (length input) (length b.input)) [
    | yes g ↦
        inr (inl ((strokes_match-Starts b.input input l h, g), longer_step b bs input earlier h g))
    | no g ↦ inr (
        inr (
          (strokes_match-Starts b.input input l h, omega arith),
          exact_step b bs input earlier h (omega arith),
        ))
  ]

  step :
      (b : Binding) (bs : List Binding) (input : List KeyStroke) (earlier : Bool)
      → Step b bs input earlier
  step b bs input earlier = elim (dec_lt (length b.input) (length input)) [
    | yes g ↦ inl (
      (λ s. omega (arith, (Starts-strokes_match b.input input s).1)),
      short_step b bs input earlier g,
    )
    | no g ↦ elim (Bool-cases (strokes_match code input b.input)) [
      | inl h ↦ matched b bs input earlier h (omega arith)
      | inr h ↦ inl (
        (λ s. cc (h, (Starts-strokes_match b.input input s).0)),
        unlike_step b bs input earlier h,
      )
    ]
  ]

  -- What is found behind a binding that is passed.
  passed :
      (b : Binding) (bs : List Binding) (input : List KeyStroke) (earlier : Bool) (r : Search)
      → ¬ Starts b.input input
      → Meaning input bs earlier r
      → Meaning input (b ∷ bs) earlier r
  passed b bs input earlier (binding_found out) n (before, after, c, e, a, x, o) =
      (b ∷ before, after, c, ap (◌∷◌ b) e, ((λ y. n y.0), a), x, o)
  passed b bs input earlier binding_incomplete n (a, inl e) = (((λ y. n y.0), a), inl e)
  passed b bs input earlier binding_incomplete n (a, inr (before, after, c, e, x)) =
      (((λ y. n y.0), a), inr (b ∷ before, after, c, ap (◌∷◌ b) e, x))
  passed b bs input earlier binding_not_found n (a, e) = ((n, a), e)

  passed_longer :
      (b : Binding) (bs : List Binding) (input : List KeyStroke) (earlier : Bool) (r : Search)
      → IsLonger input b
      → Meaning input bs true r
      → Meaning input (b ∷ bs) earlier r
  passed_longer b bs input earlier (binding_found out) n (before, after, c, e, a, x, o) =
      (b ∷ before, after, c, ap (◌∷◌ b) e, ((λ y. omega (arith, y.1, n.1)), a), x, o)
  passed_longer b bs input earlier binding_incomplete n (a, _) =
      (((λ y. omega (arith, y.1, n.1)), a), inr ([], bs, b, refl, n))
  passed_longer b bs input earlier binding_not_found n (a, e) = cc

  search_from-Meaning :
      (bs : List Binding) (input : List KeyStroke) (earlier : Bool)
      → Meaning input bs earlier (search_from code bs input earlier)
  unfolding search_from
  search_from-Meaning [] input true = (tt, inl refl)
  search_from-Meaning [] input false = (tt, refl)
  search_from-Meaning (b ∷ bs) input earlier = elim (step b bs input earlier) [
    | inl (n, e) ↦ rw e (
        passed b bs input earlier (search_from code bs input earlier) n
          (search_from-Meaning bs input earlier))
    | inr (inl (n, e)) ↦ rw e (
        passed_longer b bs input earlier (search_from code bs input true) n
          (search_from-Meaning bs input true))
    | inr (inr (x, e)) ↦ rw e ([], bs, b, refl, tt, x, refl)
  ]

  -- The answer of `get_binding` says how the bindings stand to the pressed keys. If it finds a
  -- binding, that is the first one whose whole sequence was pressed; if it is incomplete, no
  -- binding's whole sequence was pressed and one begins with the keys and goes on; and if it
  -- finds nothing, no binding begins with the keys.
  pub get_binding-Meaning :
      (bs : KeyBindings) (input : List KeyStroke)
      → Meaning input bs.bindings false (get_binding code bs input)
  unfolding get_binding
  get_binding-Meaning bs input = search_from-Meaning bs.bindings input false
