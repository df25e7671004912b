-- ===== src/Styles/Sets.antt =====
-- config/style.go: style sets, and how they are read from the keys of a file.
use nyat.Common.{
  Result, err, ok, ℕ, Bool, true, false, List, [], ◌∷◌, ◌++◌, Option, none, some, Text, codes, ◌==◌,
  ◌||◌, text_eq, if◌then◌else◌,
}
use nyat.Common.Dict.{Dict, lookup, insert, nat_eq, text_key_eq}
use nyat.Styles.{Style, blank_style, set_attr, compose_with}

-- The names of the objects, with the objects' numbers; Go leaves the order of the map open.
abbrev pub style_names : Dict Text ℕ
style_names =
    (codes "default", 0)
    ∷ (codes "error", 1)
    ∷ (codes "warning", 2)
    ∷ (codes "success", 3)
    ∷ (codes "title", 4)
    ∷ (codes "header", 5)
    ∷ (codes "statusline_default", 6)
    ∷ (codes "statusline_error", 7)
    ∷ (codes "statusline_success", 8)
    ∷ (codes "msglist_default", 9)
    ∷ (codes "msglist_unread", 10)
    ∷ (codes "msglist_read", 11)
    ∷ (codes "msglist_flagged", 12)
    ∷ (codes "msglist_deleted", 13)
    ∷ (codes "msglist_marked", 14)
    ∷ (codes "dirlist_default", 15)
    ∷ (codes "completion_default", 16)
    ∷ (codes "completion_gutter", 17)
    ∷ (codes "completion_pill", 18)
    ∷ (codes "tab", 19)
    ∷ (codes "stack", 20)
    ∷ (codes "spinner", 21)
    ∷ (codes "border", 22)
    ∷ (codes "selector_default", 23)
    ∷ (codes "selector_focused", 24)
    ∷ (codes "selector_chooser", 25)
    ∷ []

-- The styles of the objects, by their numbers.
pub record StyleSet : Type 0 where
  pub objects : Dict ℕ Style
  pub selected : Dict ℕ Style

unfoldable pub blank_styles : Dict Text ℕ → Dict ℕ Style
blank_styles [] = []
blank_styles ((name, so) ∷ names) = insert so blank_style (blank_styles names)

-- `NewStyleSet`, and what `reset` makes of any style set.
unfoldable pub new_style_set : StyleSet
unfolding blank_styles
new_style_set = record { objects = blank_styles style_names; selected = blank_styles style_names }

-- `ss.objects[so]`, of which every number of a name is a key.
unfoldable pub style_at : ℕ → Dict ℕ Style → Style
style_at so styles = elim (lookup so styles) [ none ↦ blank_style | some s ↦ s ]

unfoldable pub styles_at : List ℕ → Dict ℕ Style → List Style
unfolding style_at
styles_at [] styles = []
styles_at (so ∷ sos) styles = style_at so styles ∷ styles_at sos styles

unfoldable pub compose : ℕ → List ℕ → StyleSet → Style
unfolding style_at styles_at compose_with
compose so sos ss = compose_with (style_at so ss.objects) (styles_at sos ss.objects)

unfoldable pub compose_selected : ℕ → List ℕ → StyleSet → Style
unfolding style_at styles_at compose_with
compose_selected so sos ss = compose_with (style_at so ss.selected) (styles_at sos ss.selected)

-- The parts of a text between the points.
unfoldable pub split_points : Text → List Text
split_points [] = [] ∷ []
split_points (c ∷ s) =
    let rest = split_points s in
    if c == 46 then [] ∷ rest else (elim rest [ [] ↦ (c ∷ []) ∷ [] | t ∷ ts ↦ (c ∷ t) ∷ ts ])

unfoldable pub fnmatch_to_regex : Text → Text
fnmatch_to_regex [] = []
fnmatch_to_regex (c ∷ pattern) =
    (if c == 42 then codes ".*" else if c == 63 then codes "." else c ∷ [])
    ++ fnmatch_to_regex pattern

-- `strings.ContainsAny(styleName, "*?")`
unfoldable pub is_pattern : Text → Bool
is_pattern [] = false
is_pattern (c ∷ s) = let rest = is_pattern s in if (c == 42) || (c == 63) then true else rest

abbrev pub then_set : Result StyleSet → (StyleSet → Result StyleSet) → Result StyleSet
then_set (err e) f = err e
then_set (ok ss) f = f ss

module _ (get_color : Text → ℕ) (regex_match : Text → Text → Result Bool) where
  abbrev pub set_in : Result Style → (Style → StyleSet) → Result StyleSet
  set_in (err e) f = err e
  set_in (ok s) f = ok (f s)

  unfoldable pub set_object : ℕ → Text → Text → StyleSet → Result StyleSet
  unfolding set_attr style_at
  set_object so attr val ss =
      set_in (set_attr get_color attr val (style_at so ss.objects))
        (λ s. record ss { objects = insert so s ss.objects })

  unfoldable pub set_selected : ℕ → Text → Text → StyleSet → Result StyleSet
  unfolding set_attr style_at
  set_selected so attr val ss =
      set_in (set_attr get_color attr val (style_at so ss.selected))
        (λ s. record ss { selected = insert so s ss.selected })

  unfoldable pub set_both : ℕ → Text → Text → StyleSet → Result StyleSet
  unfolding set_object set_selected
  set_both so attr val ss = then_set (set_object so attr val ss) (set_selected so attr val)

  -- What is done with an object whose name a pattern is tested on.
  abbrev pub on_match : Result Bool → (StyleSet → Result StyleSet) → StyleSet → Result StyleSet
  on_match (err e) f ss = err e
  on_match (ok true) f ss = f ss
  on_match (ok false) f ss = ok ss

  -- The loop over the names that a pattern matches.
  unfoldable pub set_matching :
      (ℕ → StyleSet → Result StyleSet) → Text → Dict Text ℕ → StyleSet → Result StyleSet
  set_matching f regex [] ss = ok ss
  set_matching f regex ((name, so) ∷ names) ss =
      then_set (on_match (regex_match regex name) (f so) ss) (set_matching f regex names)

  abbrev pub on_name :
      Option ℕ → Text → (ℕ → StyleSet → Result StyleSet) → StyleSet → Result StyleSet
  on_name none name f ss = err (codes "Unknown style object: " ++ name)
  on_name (some so) name f ss = f so ss

  -- A key's attribute is set for the object of a name, or for those that a pattern matches.
  unfoldable pub set_named : (ℕ → StyleSet → Result StyleSet) → Text → StyleSet → Result StyleSet
  unfolding is_pattern fnmatch_to_regex set_matching
  set_named f name ss =
      if is_pattern name
      then set_matching f (fnmatch_to_regex name) style_names ss
      else on_name (lookup name style_names) name f ss

  -- The first loop: the keys of two parts are set, those of three are kept for the second loop.
  unfoldable pub first_key : List Text → Text → Text → StyleSet → Result StyleSet
  unfolding set_named set_both
  first_key (name ∷ attr ∷ []) key val ss = set_named (λ so. set_both so attr val) name ss
  first_key (name ∷ modifier ∷ attr ∷ []) key val ss =
      if text_eq modifier (codes "selected")
      then ok ss
      else err (codes "Unknown modifier: " ++ modifier)
  first_key tokens key val ss = err (codes "Style parsing error: " ++ key)

  unfoldable pub first_loop : Dict Text Text → StyleSet → Result StyleSet
  unfolding first_key split_points
  first_loop [] ss = ok ss
  first_loop ((key, val) ∷ keys) ss =
      then_set (first_key (split_points key) key val ss) (first_loop keys)

  -- The second loop, over the keys of three parts.
  unfoldable pub selected_key : List Text → Text → StyleSet → Result StyleSet
  unfolding set_named set_selected
  selected_key (name ∷ modifier ∷ attr ∷ []) val ss =
      set_named (λ so. set_selected so attr val) name ss
  selected_key tokens val ss = ok ss

  unfoldable pub selected_loop : Dict Text Text → StyleSet → Result StyleSet
  unfolding selected_key split_points
  selected_loop [] ss = ok ss
  selected_loop ((key, val) ∷ keys) ss =
      then_set (selected_key (split_points key) val ss) (selected_loop keys)

  unfoldable pub set_all_selected : Dict Text ℕ → Text → Text → StyleSet → Result StyleSet
  unfolding set_selected
  set_all_selected [] attr val ss = ok ss
  set_all_selected ((name, so) ∷ names) attr val ss =
      then_set (set_selected so attr val ss) (set_all_selected names attr val)

  -- The third loop, over the keys whose first part is `selected`.
  unfoldable pub last_key : List Text → Text → StyleSet → Result StyleSet
  unfolding set_all_selected
  last_key (name ∷ attr ∷ tokens) val ss =
      if text_eq name (codes "selected") then set_all_selected style_names attr val ss else ok ss
  last_key tokens val ss = ok ss

  unfoldable pub last_loop : Dict Text Text → StyleSet → Result StyleSet
  unfolding last_key split_points
  last_loop [] ss = ok ss
  last_loop ((key, val) ∷ keys) ss = then_set (last_key (split_points key) val ss) (last_loop keys)

  -- `ParseStyleSet`, with the keys of the default section in their order, each key once.
  unfoldable pub parse_style_set : Dict Text Text → Result StyleSet
  unfolding first_loop selected_loop last_loop new_style_set
  parse_style_set keys =
      then_set (first_loop keys new_style_set)
        (λ ss. then_set (selected_loop keys ss) (last_loop keys))

-- `findStyleSet`, with what expanding the path in each directory gives, and whether a file is there.
-- Its error has no list of the directories here.
unfoldable pub find_style_set :
    (Text → Text → Result Text) → (Text → Bool) → Text → List Text → Result Text
find_style_set expand exists name [] = err (codes "Can't find styleset " ++ name)
find_style_set expand exists name (dir ∷ dirs) =
    let rest = find_style_set expand exists name dirs in
    elim (expand dir name) [ err e ↦ err e | ok path ↦ if exists path then ok path else rest ]

-- `LoadStyleSet`, with the keys that the ini library reads from a file.
unfoldable pub load_style_set :
    (Text → ℕ)
    → (Text → Text → Result Bool)
    → (Text → Text → Result Text)
    → (Text → Bool)
    → (Text → Result (Dict Text Text))
    → Text
    → List Text
    → Result StyleSet
unfolding find_style_set parse_style_set
load_style_set get_color regex_match expand exists load name dirs =
    elim (find_style_set expand exists name dirs) [
      | err e ↦ err e
      | ok path ↦ elim (load path) [
        | err e ↦ err e
        | ok keys ↦ parse_style_set get_color regex_match keys
      ]
    ]
