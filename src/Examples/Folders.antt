-- ===== src/Examples/Folders.antt =====
-- widgets/dirlist.go at small inputs.
use nyat.Common.{
  zero, suc, ◌+◌, ◌≡◌, refl, arith, Bool, true, false, List, [], ◌∷◌, ◌++◌, take, subst, Option,
  some, Text, codes, map, text_eq, some_inj, select_if,
}
use nyat.Common.Int.{ℤ, pos, pos_part}
use nyat.DirList.{
  AccountConfig, DirectoryList, directory, done, find_string, find_from, filter_by_config,
  sort_by_config, folder_lt, on_opened, update_list, ensure_scroll, scroll_for, clicked,
}
use nyat.DirList.Folders.{shown, filter_by_config-shown}
use nyat.DirList.Unique.{InOrder, times}
use nyat.DirList.FolderOrder.{configured_before, sort_by_config-InOrder}
use nyat.DirList.Opening.{shown_times, added, on_opened-Lists}
use nyat.DirList.Listed.{begun, IsListed, update_list-IsListed}
use nyat.DirList.Rows.{IsDistinct, IsDrawn, Covers, Row, draw-IsDrawn, rows_from}
use nyat.DirList.Labels.{
  get_dir_string, Piece, letter, a_name, a_right_recent, spell, char_case, other_char,
}

-- An expression that matches the folder that it spells.
abbrev spelled_out : Text → Text → Option Bool
spelled_out pattern folder = some (text_eq pattern folder)

abbrev conf : AccountConfig
conf = record {
  folders = [];
  folders_exclude = codes "~spam" ∷ [];
  folders_sort = codes "inbox" ∷ [];
}

abbrev names : List Text
names = codes "drafts" ∷ codes "inbox" ∷ codes "spam" ∷ []

abbrev folders : DirectoryList
folders = record {
  store = record { dirs = names; msg_stores = [] };
  dirs = names;
  shared = false;
  selecting = codes "inbox";
  selected = codes "inbox";
  scroll = 0;
  spinning = false;
}

filter_by_config-shown_example :
    (filter_by_config spelled_out conf folders).dirs
    ≡ select_if (λ d. shown spelled_out conf d) names
filter_by_config-shown_example = filter_by_config-shown spelled_out conf folders

sort_by_config-InOrder_example :
    InOrder (configured_before conf.folders_sort) (sort_by_config conf folders).dirs
    × ((d : Text) → times d (sort_by_config conf folders).dirs ≡ times d names)
    × ((ys : List Text)
        → InOrder (configured_before conf.folders_sort) ys
        → ((d : Text) → times d ys ≡ times d names)
        → ys ≡ (sort_by_config conf folders).dirs)
sort_by_config-InOrder_example = sort_by_config-InOrder conf folders

on_opened-Lists_example :
    ((on_opened spelled_out conf done folders).selected ≡ codes "inbox")
    × InOrder (folder_lt conf.folders_sort) (on_opened spelled_out conf done folders).dirs
    × ((d : Text)
        → times d (on_opened spelled_out conf done folders).dirs
          ≡ shown_times spelled_out conf d names
            + added (shown_times spelled_out conf (codes "inbox") names) (codes "inbox") d)
    × ((d : Text) → times d (on_opened spelled_out conf done folders).store.dirs ≡ times d names)
on_opened-Lists_example = on_opened-Lists spelled_out conf folders

update_list-IsListed_example :
    IsListed spelled_out conf names
      (update_list spelled_out conf (map directory names ++ done ∷ []) (begun folders))
    × ((update_list spelled_out conf (map directory names) (begun folders)).list ≡ folders)
update_list-IsListed_example = update_list-IsListed spelled_out conf names folders

at_one : find_string names (codes "inbox") ≡ pos 1
unfolding find_string find_from
at_one = refl

draw-IsDrawn_example :
    Covers 2 1 (ensure_scroll 2 folders)
    × IsDrawn 20 2 folders (rows_from 0 (ensure_scroll 2 folders).scroll 2 (codes "inbox") names)
draw-IsDrawn_example = draw-IsDrawn 20 2 1 folders (omega arith) refl at_one

names-IsDistinct : IsDistinct names
unfolding find_string find_from
names-IsDistinct zero name h =
    subst (λ z. find_string names z ≡ pos 0) (some_inj (codes "drafts") name h) refl
names-IsDistinct (suc zero) name h =
    subst (λ z. find_string names z ≡ pos 1) (some_inj (codes "inbox") name h) refl
names-IsDistinct (suc (suc zero)) name h =
    subst (λ z. find_string names z ≡ pos 2) (some_inj (codes "spam") name h) refl
names-IsDistinct (suc (suc (suc j))) name h = cc

-- What `draw` prints on two lines.
abbrev two_rows : List Row
two_rows =
    record { place = 0; name = codes "drafts"; is_selected = false }
    ∷ record { place = 1; name = codes "inbox"; is_selected = true }
    ∷ []

two_rows-IsDrawn : IsDrawn 20 2 folders two_rows
unfolding rows_from ensure_scroll scroll_for find_string find_from
two_rows-IsDrawn = (draw-IsDrawn 20 2 1 folders (omega arith) refl at_one).1

shows_inbox : clicked 1 (ensure_scroll 2 folders) ≡ some (codes "inbox")
unfolding clicked ensure_scroll
shows_inbox = refl

-- The functions of go-runewidth, for a label that fits.
abbrev fill : Text → ℤ → Text
fill s n = s ++ codes "  "

abbrev cut : Text → ℤ → Text → Text
cut s n tail = take (pos_part n) s

is_colon : char_case 58 ≡ other_char
unfolding char_case
is_colon = refl

abbrev pieces : List Piece
pieces = letter 58 is_colon ∷ a_name ∷ a_right_recent ∷ []

-- The label is the name behind a colon, and the count at the right end.
label :
    get_dir_string fill cut (spell pieces) (codes "inbox") (pos 9) (codes "3") ≡ codes ":inbox  3"
unfolding get_dir_string
label = refl
