-- ===== src/TextInput/Stems.antt =====
-- lib/ui/textinput.go: `findStem` finds the longest common beginning.
use nyat.Common.{
  ℕ, zero, suc, true, List, [], ◌∷◌, some, Text, get_elem?, ◌≡◌, refl, arith, inl, inr, Bool-cases,
  All, drop, some_inj, ap, sym, ◌∙◌,
}
use nyat.TextInput.Popover.{agrees, stem_from, find_stem}

-- The text begins with the other one.
abbrev pub Begins : Text → Text → Type 0
Begins [] text = Unit
Begins (c ∷ stem) [] = ⊥
Begins (c ∷ stem) (d ∷ text) = (c ≡ d) × Begins stem text

Begins-refl : (s : Text) → Begins s s
Begins-refl [] = tt
Begins-refl (c ∷ s) = (refl, Begins-refl s)

Begins-drop :
    (place : ℕ) (c : ℕ) (s w : Text)
    → get_elem? w place ≡ some c
    → Begins s (drop (suc place) w)
    → Begins (c ∷ s) (drop place w)
Begins-drop zero c s [] g h = cc
Begins-drop zero c s (d ∷ w) g h = (some_inj c d (sym g), h)
Begins-drop (suc place) c s [] g h = cc
Begins-drop (suc place) c s (d ∷ w) g h = Begins-drop place c s w g h

-- The same backwards.
Begins-first :
    (place : ℕ) (c : ℕ) (s w : Text)
    → Begins (c ∷ s) (drop place w)
    → (get_elem? w place ≡ some c) × Begins s (drop (suc place) w)
Begins-first zero c s [] h = absurd h
Begins-first zero c s (d ∷ w) h = (ap some (sym h.0), h.1)
Begins-first (suc place) c s [] h = absurd h
Begins-first (suc place) c s (d ∷ w) h = Begins-first place c s w h

abbrev AllBegin : ℕ → Text → List Text → Type 0
AllBegin place s words = All (λ w. Begins s (drop place w)) words

agrees-AllBegin :
    (place r : ℕ) (s : Text) (words : List Text)
    → agrees place r words ≡ true
    → AllBegin (suc place) s words
    → AllBegin place (r ∷ s) words
unfolding agrees
agrees-AllBegin place r s [] e h = tt
agrees-AllBegin place r s (w ∷ words) e h = (
  Begins-drop place r s w (ground (arith, e)) h.0,
  agrees-AllBegin place r s words (ground (arith, e)) h.1,
)

AllBegin-agrees :
    (place r : ℕ) (s : Text) (words : List Text)
    → AllBegin place (r ∷ s) words
    → (agrees place r words ≡ true) × AllBegin (suc place) s words
unfolding agrees
AllBegin-agrees place r s [] h = (refl, tt)
AllBegin-agrees place r s (w ∷ words) h =
    let (g, b) = Begins-first place r s w h.0 in
    let (e, a) = AllBegin-agrees place r s words h.1 in (ground (arith, g, e), (b, a))

AllBegin-nil : (place : ℕ) (words : List Text) → AllBegin place [] words
AllBegin-nil place [] = tt
AllBegin-nil place (w ∷ words) = (tt, AllBegin-nil place words)

stem_from-Begins :
    (place : ℕ) (first : Text) (words : List Text)
    → Begins (stem_from place first words) first
      × AllBegin place (stem_from place first words) words
unfolding stem_from
stem_from-Begins place [] words = (tt, AllBegin-nil place words)
stem_from-Begins place (r ∷ first) words = elim (Bool-cases (agrees place r words)) [
  | inl e ↦
      let (b, a) = stem_from-Begins (suc place) first words in
      rw e ((refl, b), agrees-AllBegin place r (stem_from (suc place) first words) words e a)
  | inr e ↦ rw e (tt, AllBegin-nil place words)
]

stem_from_longest :
    (place : ℕ) (first : Text) (words : List Text) (s : Text)
    → Begins s first
    → AllBegin place s words
    → Begins s (stem_from place first words)
unfolding stem_from
stem_from_longest place first words [] b a = tt
stem_from_longest place [] words (c ∷ s) b a = absurd b
stem_from_longest place (r ∷ first) words (c ∷ s) (q, b) a =
    let (e, a') = AllBegin-agrees place c s words a in
    rw (ap (λ (x : ℕ). agrees place x words) (sym q) ∙ e)
      (q, stem_from_longest (suc place) first words s b a')

-- `findStem` returns a text that every word begins with, and every other such text is a beginning
-- of it; of one word it is the word.
pub find_stem-Begins :
    (word : Text) (words : List Text)
    → All (Begins (find_stem (word ∷ words))) (word ∷ words)
      × ((s : Text) → All (Begins s) (word ∷ words) → Begins s (find_stem (word ∷ words)))
unfolding find_stem
find_stem-Begins word [] = ((Begins-refl word, tt), λ s h. h.0)
find_stem-Begins word (other ∷ words) = (
  stem_from-Begins 0 word (other ∷ words),
  λ s h. stem_from_longest 0 word (other ∷ words) s h.0 h.1,
)
