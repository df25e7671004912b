-- ===== src/Bindings/Layers.antt =====
-- Looking a key sequence up in config/bindings.go: what `GetBinding` finds, and what it finds in
-- bindings that `MergeBindings` has put together.
use nyat.Common.{ℕ, Bool, true, false, List, [], ◌∷◌, ◌++◌, ◌≡◌, refl, arith, ◌∙◌, ap}
use nyat.Bindings.Names.{KeyStroke, TcellKey}
use nyat.Bindings.Parse.{Binding}
use nyat.Bindings.Lookup.{
  KeyBindings, Search, binding_found, binding_incomplete, binding_not_found, all_bindings,
  merge_bindings, search_from, get_binding,
}

-- Two sets of bindings, the first before the second.
abbrev pub or_else : Search → Search → Search
or_else (binding_found out) s = binding_found out
or_else binding_incomplete (binding_found out) = binding_found out
or_else binding_incomplete s = binding_incomplete
or_else binding_not_found s = s

abbrev pub over_layers : (KeyBindings → Search) → List KeyBindings → Search
over_layers look [] = binding_not_found
over_layers look (b ∷ bs) = or_else (look b) (over_layers look bs)

module _ (code : TcellKey → ℕ) where
  search_incomplete :
      (bs : List Binding) (input : List KeyStroke)
      → search_from code bs input true
        ≡ or_else binding_incomplete (search_from code bs input false)
  unfolding search_from
  search_incomplete [] input = refl
  search_incomplete (b ∷ bs) input = ground (arith, search_incomplete bs input)

  search-append :
      (as' bs : List Binding) (input : List KeyStroke) (incomplete : Bool)
      → search_from code (as' ++ bs) input incomplete
        ≡ or_else (search_from code as' input incomplete) (search_from code bs input false)
  unfolding search_from
  search-append [] bs input true = search_incomplete bs input
  search-append [] bs input false = refl
  search-append (a ∷ as') bs input incomplete =
      ground (arith, search-append as' bs input incomplete, search-append as' bs input true)

  search-all :
      (bs : List KeyBindings) (input : List KeyStroke)
      → search_from code (all_bindings code bs) input false
        ≡ over_layers (λ b. get_binding code b input) bs
  unfolding all_bindings get_binding search_from
  search-all [] input = refl
  search-all (b ∷ bs) input =
      search-append b.bindings (all_bindings code bs) input false
      ∙ ap (or_else (get_binding code b input)) (search-all bs input)

  -- A key sequence is looked up in merged bindings as in each set, in order: the first set that
  -- binds it exactly decides, even behind a set in which it only begins a longer sequence; where
  -- no set binds it, it is incomplete if it is so in any set, and otherwise not found.
  pub get_binding-merge_bindings :
      (first : KeyBindings) (rest : List KeyBindings) (input : List KeyStroke)
      → get_binding code (merge_bindings code first rest) input
        ≡ over_layers (λ b. get_binding code b input) (first ∷ rest)
  unfolding merge_bindings get_binding
  get_binding-merge_bindings first rest input = search-all (first ∷ rest) input
