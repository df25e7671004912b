-- ===== src/Bindings/Lookup.antt =====
-- config/bindings.go: `GetBinding`, `Add` and `MergeBindings`.
use nyat.Common.{
  ℕ, Bool, true, false, ◌&&◌, not, List, [], ◌∷◌, ◌++◌, length, ◌==◌, ltb, if◌then◌else◌,
}
use nyat.Bindings.Names.{KeyStroke, TcellKey, key_rune}
use nyat.Bindings.Parse.{Binding}

pub record KeyBindings : Type 0 where
  pub bindings : List Binding
  pub globals : Bool
  pub ex_key : KeyStroke

pub data Search : Type 0 where
  binding_found : List KeyStroke → Search
  binding_incomplete binding_not_found : Search

module _ (code : TcellKey → ℕ) where
  unfoldable pub new_key_bindings : KeyBindings
  new_key_bindings = record {
    bindings = [];
    globals = true;
    ex_key = record { key = code key_rune; rune = b':' };
  }

  -- `MergeBindings(first, rest...)`
  unfoldable pub all_bindings : List KeyBindings → List Binding
  all_bindings [] = []
  all_bindings (b ∷ bs) = b.bindings ++ all_bindings bs

  unfoldable pub merge_bindings : KeyBindings → List KeyBindings → KeyBindings
  unfolding all_bindings new_key_bindings
  merge_bindings first rest = record new_key_bindings {
    bindings = all_bindings (first ∷ rest);
    ex_key = first.ex_key;
    globals = first.globals;
  }

  unfoldable pub add_binding : Binding → KeyBindings → KeyBindings
  add_binding b bs = record bs { bindings = bs.bindings ++ b ∷ [] }

  -- Whether the key that was pressed is the bound one: the rune counts for plain characters only.
  unfoldable pub same_stroke : KeyStroke → KeyStroke → Bool
  same_stroke pressed bound =
      pressed.key == bound.key
      && (if pressed.key == code key_rune then pressed.rune == bound.rune else true)

  -- The loop over the strokes; the caller has tested that the bound input is long enough.
  unfoldable pub strokes_match : List KeyStroke → List KeyStroke → Bool
  unfolding same_stroke
  strokes_match [] bound = true
  strokes_match (k ∷ ks) [] = false
  strokes_match (k ∷ ks) (b ∷ bs) = let rest = strokes_match ks bs in same_stroke k b && rest

  -- The loop over the bindings, with `incomplete`.
  unfoldable pub search_from : List Binding → List KeyStroke → Bool → Search
  unfolding strokes_match
  search_from [] input incomplete = if incomplete then binding_incomplete else binding_not_found
  search_from (b ∷ bs) input incomplete =
      let skipped = search_from bs input incomplete in
      let longer = search_from bs input true in
      if ltb (length b.input) (length input)
      then skipped
      else if not (strokes_match input b.input)
      then skipped
      else if not (length b.input == length input)
      then longer
      else binding_found b.output

  unfoldable pub get_binding : KeyBindings → List KeyStroke → Search
  unfolding search_from
  get_binding bs input = search_from bs.bindings input false
