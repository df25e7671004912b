-- ===== src/Bindings/Parse.antt =====
-- config/bindings.go: `ParseKeyStrokes` and `ParseBinding`. The text is given by its code points;
-- bytes that are no UTF-8 are left out. `lower` is Go's unicode.ToLower.
use nyat.Common.{ℕ, List, [], ◌∷◌, ◌++◌, map, none, some, Text, ◌==◌, if◌then◌else◌}
use nyat.Common.Dict.{lookup, text_key_eq}
use nyat.Bindings.Names.{KeyStroke, TcellKey, key_rune, key_names}

pub data ParseError : Type 0 where
  expecting_gt expected_a_key_name found_gt_without_lt : ParseError
  unknown_key : Text → ParseError

pub data Parsed {ℓ} (A : Type ℓ) : Type ℓ where
  ok : A → Parsed A
  fail : ParseError → Parsed A

infixl 5 ◌>>=◌
abbrev pub ◌>>=◌ {ℓ κ} : {A : Type ℓ} {B : Type κ} → Parsed A → (A → Parsed B) → Parsed B
ok a >>= f = f a
fail e >>= f = fail e

pub record Binding : Type 0 where
  pub output : List KeyStroke
  pub input : List KeyStroke

-- Where the reader stands: outside brackets, or after `<` with the name read so far.
pub data Mode : Type 0 where
  plain : Mode
  named : Text → Mode

module _ (lower : ℕ → ℕ) (code : TcellKey → ℕ) where
  -- A name in brackets, read up to its `>`.
  unfoldable pub find_key : Text → Parsed KeyStroke
  find_key [] = fail expected_a_key_name
  find_key (c ∷ name) = elim (lookup (map lower (c ∷ name)) (key_names code)) [
    | some key ↦ ok key
    | none ↦ fail (unknown_key (c ∷ name))
  ]

  -- `ReadRune` and `ReadString('>')`, one code point at a time.
  unfoldable pub parse_from : Mode → Text → Parsed (List KeyStroke)
  unfolding find_key
  parse_from plain [] = ok []
  parse_from (named name) [] = fail expecting_gt
  parse_from (named name) (c ∷ rest) =
      let more = parse_from (named (name ++ c ∷ [])) rest in
      let after = parse_from plain rest in
      if c == b'>' then (do key ← find_key name; keys ← after; ok (key ∷ keys)) else more
  parse_from plain (c ∷ rest) =
      let name = parse_from (named []) rest in
      let after = parse_from plain rest in
      if c == b'<'
      then name
      else if c == b'>'
      then fail found_gt_without_lt
      else (do keys ← after; ok (record { key = code key_rune; rune = c } ∷ keys))

  unfoldable pub parse_key_strokes : Text → Parsed (List KeyStroke)
  unfolding parse_from
  parse_key_strokes = parse_from plain

  unfoldable pub parse_binding : Text → Text → Parsed Binding
  unfolding parse_key_strokes
  parse_binding input output = do
    keys ← parse_key_strokes input
    out ← parse_key_strokes output
    ok (record { output = out; input = keys })
