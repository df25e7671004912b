-- ===== src/CmdHistory/Buffer.antt =====
-- commands/history.go: the buffer keeps the last commands.
use nyat.Common.{
  ℕ, zero, suc, ◌+◌, ◌-◌, ◌≤◌, ◌<◌, ◌≡◌, refl, ap, sym, ◌∙◌, List, [], ◌∷◌, ◌++◌, Text, arith,
  length, drop, length-append, length-drop,
}
use mathlib.Core.List.{append-nil, append_assoc}
use native.Mathlib.Decide.{dec_le}
use nyat.Common.Int.{pos}
use nyat.CmdHistory.{CmdHistory, add}

-- A list of commands, added one after the other.
pub add_each : List Text → CmdHistory → CmdHistory
add_each [] h = h
add_each (cmd ∷ cmds) h = add_each cmds (add cmd h)

drop_more : (n : ℕ) (xs ys : List Text) → n ≤ length xs → drop n (xs ++ ys) ≡ drop n xs ++ ys
drop_more zero xs ys h = refl
drop_more (suc n) [] ys h = elim h [ ]
drop_more (suc n) (x ∷ xs) ys h = drop_more n xs ys (omega arith)

drop_one : (n : ℕ) (xs : List Text) → drop 1 (drop n xs) ≡ drop (suc n) xs
drop_one zero xs = refl
drop_one (suc n) [] = refl
drop_one (suc n) (x ∷ xs) = drop_one n xs

add_full :
    (cmd : Text) (h : CmdHistory)
    → 1000 ≤ length h.cmd_list
    → (add cmd h).cmd_list ≡ drop 1 h.cmd_list ++ cmd ∷ []
unfolding add
add_full cmd h full = ground arith

add_room :
    (cmd : Text) (h : CmdHistory)
    → length h.cmd_list < 1000
    → (add cmd h).cmd_list ≡ h.cmd_list ++ cmd ∷ []
unfolding add
add_room cmd h room = ground arith

-- The buffer after one more command, where it held the last ones of `all`.
add_suffix :
    (all : List Text) (cmd : Text) (h : CmdHistory)
    → h.cmd_list ≡ drop (length all - 1000) all
    → (add cmd h).cmd_list ≡ drop (length (all ++ cmd ∷ []) - 1000) (all ++ cmd ∷ [])
add_suffix all cmd h e = elim (dec_le 1000 (length all)) [
  | yes full ↦
      add_full cmd h (omega (arith, held))
      ∙ ap (λ (l : List Text). drop 1 l ++ cmd ∷ []) e
      ∙ ap (λ (l : List Text). l ++ cmd ∷ []) (drop_one (length all - 1000) all)
      ∙ sym (drop_more (suc (length all - 1000)) all (cmd ∷ []) (omega arith))
      ∙ ap (λ (n : ℕ). drop n (all ++ cmd ∷ [])) (shift full)
  | no room ↦
      add_room cmd h (omega (arith, held))
      ∙ ap (λ (l : List Text). l ++ cmd ∷ []) e
      ∙ ap (λ (n : ℕ). drop n all ++ cmd ∷ []) (none_left room)
      ∙ ap (λ (n : ℕ). drop n (all ++ cmd ∷ [])) (none_yet room)
]
  where
    held : length h.cmd_list ≡ length all - (length all - 1000)
    held = ap length e ∙ length-drop (length all - 1000) all

    longer : length (all ++ cmd ∷ []) ≡ length all + 1
    longer = length-append all (cmd ∷ [])

    shift : 1000 ≤ length all → suc (length all - 1000) ≡ length (all ++ cmd ∷ []) - 1000
    shift full = omega (arith, longer)

    none_left : ¬ (1000 ≤ length all) → length all - 1000 ≡ 0
    none_left room = omega arith

    none_yet : ¬ (1000 ≤ length all) → 0 ≡ length (all ++ cmd ∷ []) - 1000
    none_yet room = omega (arith, longer)

add_each_from :
    (cmds all : List Text) (h : CmdHistory)
    → h.cmd_list ≡ drop (length all - 1000) all
    → (add_each cmds h).cmd_list ≡ drop (length (all ++ cmds) - 1000) (all ++ cmds)
unfolding add_each
add_each_from [] all h e = rw (append-nil all) e
add_each_from (cmd ∷ cmds) all h e =
    rw (← append_assoc all (cmd ∷ []) cmds)
      (add_each_from cmds (all ++ cmd ∷ []) (add cmd h) (add_suffix all cmd h e))

abbrev pub empty_history : CmdHistory
empty_history = record { cmd_list = []; current = pos 0 }

-- After any number of commands the buffer holds the last 1000 of them, in order, or all of them.
pub cmd_list-add_each :
    (cmds : List Text) → (add_each cmds empty_history).cmd_list ≡ drop (length cmds - 1000) cmds
cmd_list-add_each cmds = add_each_from cmds [] empty_history refl
