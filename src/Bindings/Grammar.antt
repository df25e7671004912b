-- ===== src/Bindings/Grammar.antt =====
-- The notation of key strokes that `ParseKeyStrokes` in config/bindings.go reads.
use mathlib.Core.List.{append_assoc, append-nil}
use nyat.Common.{
  ℕ, true, false, map, Option, some, none, List, [], ◌∷◌, ◌++◌, Text, ◌==◌, ◌≡◌, ◌≢◌, refl, arith,
  inl, inr, Bool-cases, All, ap, sym, ◌∙◌, ◌↔◌, subst,
}
use nyat.Bindings.Names.{KeyStroke, TcellKey, key_rune, key_names}
use nyat.Common.Dict.{lookup, text_key_eq}
use nyat.Bindings.Parse.{
  Parsed, ok, fail, unknown_key, found_gt_without_lt, ◌>>=◌, Mode, plain, named, find_key,
  parse_from, parse_key_strokes,
}

abbrev pub lt_sign : ℕ
lt_sign = b'<'

abbrev pub gt_sign : ℕ
gt_sign = b'>'

ok_inj {ℓ} : {A : Type ℓ} (a b : A) → ok a ≡ ok b → a ≡ b
ok_inj a b e = cc

bind_ok {ℓ κ} :
    {A : Type ℓ} {B : Type κ} (p : Parsed A) (f : A → Parsed B) (b : B)
    → (p >>= f) ≡ ok b
    → (a : A) × (p ≡ ok a) × (f a ≡ ok b)
bind_ok (ok a) f b e = (a, refl, e)
bind_ok (fail x) f b e = cc

module _ (lower : ℕ → ℕ) (code : TcellKey → ℕ) where
  -- A text spells a sequence of key strokes: a character stands for itself, and a name that is
  -- known stands in angle brackets.
  pub data Spells : Text → List KeyStroke → Type 0 where
    spells_end : Spells [] []
    spells_rune :
        (c : ℕ) (rest : Text) (keys : List KeyStroke)
        → c ≢ lt_sign
        → c ≢ gt_sign
        → Spells rest keys
        → Spells (c ∷ rest) (record { key = code key_rune; rune = c } ∷ keys)
    spells_name :
        (name rest : Text) (key : KeyStroke) (keys : List KeyStroke)
        → All (λ c. c ≢ gt_sign) name
        → name ≢ []
        → lookup (map lower name) (key_names code) ≡ some key
        → Spells rest keys
        → Spells (lt_sign ∷ (name ++ gt_sign ∷ rest)) (key ∷ keys)

  find_key-known :
      (name : Text) (key : KeyStroke)
      → name ≢ []
      → lookup (map lower name) (key_names code) ≡ some key
      → find_key lower code name ≡ ok key
  unfolding find_key
  find_key-known [] key n e = absurd (n refl)
  find_key-known (c ∷ name) key n e = rw (e, find_key) refl

  known :
      (name : Text) (key : KeyStroke) (o : Option KeyStroke)
      → (elim o [ some k ↦ ok k | none ↦ fail (unknown_key name) ]) ≡ ok key
      → o ≡ some key
  known name key none e = cc
  known name key (some k) e = cc

  find_key-inv :
      (name : Text) (key : KeyStroke)
      → find_key lower code name ≡ ok key
      → (name ≢ []) × (lookup (map lower name) (key_names code) ≡ some key)
  unfolding find_key
  find_key-inv [] key e = cc
  find_key-inv (c ∷ name) key e =
      (λ z. cc, known (c ∷ name) key (lookup (map lower (c ∷ name)) (key_names code)) e)

  -- A name that has been read, and what comes behind it.
  abbrev behind_name : Text → Text → Parsed (List KeyStroke)
  behind_name name rest = do
    key ← find_key lower code name
    keys ← parse_from lower code plain rest
    ok (key ∷ keys)

  parse_from-named :
      (acc name rest : Text)
      → All (λ c. c ≢ gt_sign) name
      → parse_from lower code (named acc) (name ++ gt_sign ∷ rest) ≡ behind_name (acc ++ name) rest
  unfolding parse_from
  parse_from-named acc [] rest h = rw (append-nil acc) refl
  parse_from-named acc (c ∷ name) rest h =
      ground
        (arith, h, parse_from-named (acc ++ c ∷ []) name rest h.1, append_assoc acc (c ∷ []) name)

  parse-Spells :
      (text : Text) (keys : List KeyStroke)
      → Spells text keys
      → parse_from lower code plain text ≡ ok keys
  unfolding parse_from
  parse-Spells _ _ spells_end = refl
  parse-Spells _ _ (spells_rune c rest keys n m s) = ground (arith, n, m, parse-Spells rest keys s)
  parse-Spells _ _ (spells_name name rest key keys h n e s) =
      parse_from-named [] name rest h
      ∙ rw (find_key-known name key n e) (rw (parse-Spells rest keys s) refl)

  abbrev Read : Mode → Text → List KeyStroke → Type 0
  Read plain text keys = Spells text keys
  Read (named acc) text keys =
      (name rest : Text) × (key : KeyStroke) × (more : List KeyStroke) × (text
        ≡ name ++ gt_sign ∷ rest)
      × All (λ c. c ≢ gt_sign) name
      × (find_key lower code (acc ++ name) ≡ ok key)
      × Spells rest more
      × (keys ≡ key ∷ more)

  -- A reader outside brackets at each kind of character, and one inside.
  at_lt :
      (c : ℕ) (text : Text)
      → (c == lt_sign) ≡ true
      → parse_from lower code plain (c ∷ text) ≡ parse_from lower code (named []) text
  unfolding parse_from
  at_lt c text e = ground (arith, e)

  at_gt :
      (c : ℕ) (text : Text)
      → (c == lt_sign) ≡ false
      → (c == gt_sign) ≡ true
      → parse_from lower code plain (c ∷ text) ≡ fail found_gt_without_lt
  unfolding parse_from
  at_gt c text e f = ground (arith, e, f)

  at_rune :
      (c : ℕ) (text : Text)
      → (c == lt_sign) ≡ false
      → (c == gt_sign) ≡ false
      → parse_from lower code plain (c ∷ text) ≡ (do
        keys ← parse_from lower code plain text
        ok (record { key = code key_rune; rune = c } ∷ keys))
  unfolding parse_from
  at_rune c text e f = ground (arith, e, f)

  at_name_end :
      (acc : Text) (c : ℕ) (text : Text)
      → (c == gt_sign) ≡ true
      → parse_from lower code (named acc) (c ∷ text) ≡ behind_name acc text
  unfolding parse_from
  at_name_end acc c text e = ground (arith, e)

  at_name_char :
      (acc : Text) (c : ℕ) (text : Text)
      → (c == gt_sign) ≡ false
      → parse_from lower code (named acc) (c ∷ text)
        ≡ parse_from lower code (named (acc ++ c ∷ [])) text
  unfolding parse_from
  at_name_char acc c text e = ground (arith, e)

  apart : (c d : ℕ) → (c == d) ≡ false → c ≢ d
  apart c d e = ground (arith, e)

  same : (c d : ℕ) → (c == d) ≡ true → c ≡ d
  same c d e = ground (arith, e)

  -- A name in brackets, from what the reader inside has found.
  Spells-named :
      (c : ℕ) (text : Text) (keys : List KeyStroke)
      → c ≡ lt_sign
      → Read (named []) text keys
      → Spells (c ∷ text) keys
  Spells-named c text keys ce (name, rest, key, more, te, nh, fe, s, ke) = rw ce (
      rw te
        (rw ke (let (n, l) = find_key-inv name key fe in spells_name name rest key more nh n l s)))

  parse_from-Read :
      (mode : Mode) (text : Text) (keys : List KeyStroke)
      → parse_from lower code mode text ≡ ok keys
      → Read mode text keys
  unfolding parse_from
  parse_from-Read plain [] keys e = subst (Spells []) (ok_inj [] keys e) spells_end
  parse_from-Read (named acc) [] keys e = cc
  parse_from-Read plain (c ∷ text) keys e = elim (Bool-cases (c == lt_sign)) [
    | inl l ↦
        Spells-named c text keys (same c lt_sign l)
          (parse_from-Read (named []) text keys (sym (at_lt c text l) ∙ e))
    | inr l ↦ elim (Bool-cases (c == gt_sign)) [
      | inl g ↦ cc (at_gt c text l g, e)
      | inr g ↦
          let (more, p, q) =
            bind_ok (parse_from lower code plain text) _ keys (sym (at_rune c text l g) ∙ e) in
          subst (Spells (c ∷ text)) (ok_inj _ keys q) (
            spells_rune c text more (apart c lt_sign l) (apart c gt_sign g)
              (parse_from-Read plain text more p))
    ]
  ]
  parse_from-Read (named acc) (c ∷ text) keys e = elim (Bool-cases (c == gt_sign)) [
    | inl g ↦
        let (key, p, q) =
          bind_ok (find_key lower code acc) _ keys (sym (at_name_end acc c text g) ∙ e) in
        let (more, p', q') = bind_ok (parse_from lower code plain text) _ keys q in
        (
          [],
          text,
          key,
          more,
          ap (λ (x : ℕ). x ∷ text) (same c gt_sign g),
          tt,
          ap (find_key lower code) (append-nil acc) ∙ p,
          parse_from-Read plain text more p',
          sym (ok_inj _ keys q'),
        )
    | inr g ↦
        let (name, rest, key, more, te, nh, fe, s, ke) =
          parse_from-Read (named (acc ++ c ∷ [])) text keys (sym (at_name_char acc c text g) ∙ e) in
        (
          c ∷ name,
          rest,
          key,
          more,
          ap (◌∷◌ c) te,
          (apart c gt_sign g, nh),
          ap (find_key lower code) (sym (append_assoc acc (c ∷ []) name)) ∙ fe,
          s,
          ke,
        )
  ]

  -- `ParseKeyStrokes` accepts the texts that spell key strokes, and no others, and returns the
  -- strokes: a character other than `<` and `>` stands for itself, and `<name>` for the key of the
  -- name, which is not empty and is looked up in lower case.
  pub parse_key_strokes-Spells :
      (text : Text) (keys : List KeyStroke)
      → (parse_key_strokes lower code text ≡ ok keys) ↔ Spells text keys
  unfolding parse_key_strokes
  parse_key_strokes-Spells text keys = (parse_from-Read plain text keys, parse-Spells text keys)
