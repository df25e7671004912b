-- ===== src/Styles/Selected.antt =====
-- config/style.go: the keys of a style set that begin with `selected`.
use nyat.Common.{
  Result, err, ok, ℕ, Bool, false, [], ◌∷◌, ◌++◌, none, Text, codes, ◌≡◌, refl, sym, subst,
}
use nyat.Common.Dict.{Dict, lookup, text_key_eq}
use nyat.Styles.Sets.{
  StyleSet, then_set, first_key, first_loop, set_named, is_pattern, split_points, parse_style_set,
  selected_loop, last_loop, new_style_set, style_names, set_both,
}

-- A result that is an error.
abbrev pub IsError : Result StyleSet → Type 0
IsError (err e) = Unit
IsError (ok ss) = ⊥

then_set-IsError :
    (r : Result StyleSet) (f : StyleSet → Result StyleSet)
    → ((ss : StyleSet) → IsError (f ss))
    → IsError (then_set r f)
then_set-IsError (err e) f h = tt
then_set-IsError (ok ss) f h = h ss

first_IsError :
    (r : Result StyleSet) (f : StyleSet → Result StyleSet) → IsError r → IsError (then_set r f)
first_IsError (err e) f h = tt
first_IsError (ok ss) f h = absurd h

no_pattern : is_pattern (codes "selected") ≡ false
unfolding is_pattern
no_pattern = refl

no_object : lookup (codes "selected") style_names ≡ none
unfolding lookup
no_object = refl

module _ (get_color : Text → ℕ) (regex_match : Text → Text → Result Bool) where
  named_selected :
      (f : ℕ → StyleSet → Result StyleSet) (ss : StyleSet)
      → IsError (set_named get_color regex_match f (codes "selected") ss)
  unfolding set_named is_pattern lookup
  named_selected f ss = tt

  selected_key-IsError :
      (key attr val : Text) (ss : StyleSet)
      → split_points key ≡ codes "selected" ∷ attr ∷ []
      → IsError (first_key get_color regex_match (split_points key) key val ss)
  unfolding first_key
  selected_key-IsError key attr val ss e =
      subst (λ t. IsError (first_key get_color regex_match t key val ss)) (sym e)
        (named_selected (λ so. set_both get_color regex_match so attr val) ss)

  first_loop-IsError :
      (before after : Dict Text Text) (key attr val : Text) (ss : StyleSet)
      → split_points key ≡ codes "selected" ∷ attr ∷ []
      → IsError (first_loop get_color regex_match (before ++ (key, val) ∷ after) ss)
  unfolding first_loop
  first_loop-IsError [] after key attr val ss e =
      first_IsError (first_key get_color regex_match (split_points key) key val ss)
        (first_loop get_color regex_match after) (selected_key-IsError key attr val ss e)
  first_loop-IsError ((k, v) ∷ before) after key attr val ss e =
      then_set-IsError (first_key get_color regex_match (split_points k) k v ss)
        (first_loop get_color regex_match (before ++ (key, val) ∷ after))
        (λ t. first_loop-IsError before after key attr val t e)

  -- A style set that has a key of two parts of which the first is `selected` is always refused, though
  -- the last loop is there for these keys.
  pub parse_style_set-IsError :
      (before after : Dict Text Text) (key attr val : Text)
      → split_points key ≡ codes "selected" ∷ attr ∷ []
      → IsError (parse_style_set get_color regex_match (before ++ (key, val) ∷ after))
  unfolding parse_style_set
  parse_style_set-IsError before after key attr val e =
      first_IsError (first_loop get_color regex_match (before ++ (key, val) ∷ after) new_style_set)
        (λ ss.
          then_set (selected_loop get_color regex_match (before ++ (key, val) ∷ after) ss)
            (last_loop get_color regex_match (before ++ (key, val) ∷ after)))
        (first_loop-IsError before after key attr val new_style_set e)
