-- ===== src/DirList/Listed.antt =====
-- widgets/dirlist.go: a run of `UpdateList` from its first answer to the last.
use mathlib.Core.List.{append_assoc, append-nil}
use nyat.Common.{
  Option, none, some, Bool, false, List, [], ◌∷◌, ◌++◌, map, Text, ◌≡◌, refl, ap, sym, subst, ◌∙◌,
}
use nyat.DirList.{
  AccountConfig, DirectoryList, directory, done, Answer, Listing, filter_by_config, sort_by_config,
  sorted_in_place, folder_lt, on_listed, update_list, update,
}
use nyat.DirList.Unique.{InOrder, times}
use nyat.DirList.FolderOrder.{sort_by_config_lem}
use nyat.DirList.Opening.{shown_times, filter_by_config-times}

-- A run that has begun, with nothing found so far.
abbrev pub begun : DirectoryList → Listing
begun l = record { found = []; list = l; reported = none }

module _ (regex_match : Text → Text → Option Bool) (conf : AccountConfig) where
  update_list-directories :
      (ns : List Text) (rest : List Answer) (g : Listing)
      → update_list regex_match conf (map directory ns ++ rest) g
        ≡ update_list regex_match conf rest (record g { found = g.found ++ ns })
  unfolding update_list on_listed
  update_list-directories [] rest g =
      ap (λ z. update_list regex_match conf rest (record g { found = z }))
        (sym (append-nil g.found))
  update_list-directories (n ∷ ns) rest g =
      update_list-directories ns rest (record g { found = g.found ++ n ∷ [] })
      ∙ ap (λ z. update_list regex_match conf rest (record g { found = z }))
          (append_assoc g.found (n ∷ []) ns)

  -- The caller has been given the names ns. The list and the store hold those of them that the
  -- configuration shows, each as often as it came, in the order of the configuration.
  pub record IsListed (ns : List Text) (g : Listing) : Type 0 where
    pub reported : g.reported ≡ some ns
    pub order : InOrder (folder_lt conf.folders_sort) g.list.dirs
    pub shown : (d : Text) → times d g.list.dirs ≡ shown_times regex_match conf d ns
    pub stored : g.list.store.dirs ≡ g.list.dirs

  on_listed-IsListed : (g : Listing) → IsListed g.found (on_listed regex_match conf done g)
  unfolding on_listed update filter_by_config sort_by_config sorted_in_place
  on_listed-IsListed g =
      let l = record g.list { store = update g.found g.list.store; shared = false } in
      let (o, t, u) = sort_by_config_lem conf (filter_by_config regex_match conf l) in
      record {
        reported = refl;
        order = o;
        shown = λ d. t d ∙ filter_by_config-times regex_match conf d l;
        stored = refl;
      }

  -- When the worker has listed directories and is done, the names are handed to the caller as they
  -- came, and the list and the store hold those of them that the configuration shows, each as often
  -- as it came, in the order of the configuration. Before the worker is done, the list is as it was.
  pub update_list-IsListed :
      (ns : List Text) (l : DirectoryList)
      → IsListed ns (update_list regex_match conf (map directory ns ++ done ∷ []) (begun l))
        × ((update_list regex_match conf (map directory ns) (begun l)).list ≡ l)
  unfolding update_list
  update_list-IsListed ns l = (
    subst (IsListed ns) (sym (update_list-directories ns (done ∷ []) (begun l)))
        (on_listed-IsListed (record (begun l) { found = ns })),
    subst (λ z. (update_list regex_match conf z (begun l)).list ≡ l) (append-nil (map directory ns))
        (ap (λ g. g.list) (update_list-directories ns [] (begun l))),
  )
