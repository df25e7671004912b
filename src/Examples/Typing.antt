-- ===== src/Examples/Typing.antt =====
-- lib/ui/textinput.go, commands/history.go and config/bindings.go at small inputs.
use nyat.Common.{ℕ, ◌≡◌, refl, arith, inr, true, false, List, [], ◌∷◌, some, codes}
use nyat.Common.Int.{pos}
use nyat.TextInput.{TextInput, new_text_input}
use nyat.TextInput.Events.{ctrl_w, on_key}
use nyat.TextInput.Zipper.{zip, edit, Shows}
use nyat.TextInput.Keys.{on_key-edit}
use nyat.CmdHistory.{CmdHistory}
use nyat.CmdHistory.Placement.{IsValid}
use nyat.Bindings.Names.{TcellKey, KeyStroke}
use nyat.Bindings.Parse.{Binding}
use nyat.Bindings.Lookup.{KeyBindings, get_binding, merge_bindings}
use nyat.Bindings.Meaning.{Meaning, get_binding-Meaning}
use nyat.Bindings.Layers.{over_layers, get_binding-merge_bindings}
use nyat.Common.{◌↔◌, Bool}
use nyat.TextInput.Popover.{tab, drawn, on_popover_key}
use nyat.TextInput.Completing.{IsSafe, drawn-IsCurrent, on_popover_key-IsSafe}
use nyat.Bindings.Parse.{parse_key_strokes, ok}
use nyat.Bindings.Grammar.{Spells, parse_key_strokes-Spells}

-- `one two`, with the cursor behind `two`.
abbrev typed : TextInput
typed = record (new_text_input (codes "one two")) { width = some 4 }

on_key-edit_example : Shows (edit ctrl_w (zip (codes "owt eno") [])) (on_key ctrl_w typed).0
unfolding new_text_input
on_key-edit_example = on_key-edit ctrl_w typed (zip (codes "owt eno") []) (refl, refl)

-- Two commands, neither of them shown.
abbrev two_commands : CmdHistory
two_commands = record { cmd_list = codes "quit" ∷ codes "next" ∷ []; current = pos 2 }

two_commands-IsValid : IsValid two_commands
two_commands-IsValid = record { bounded = omega arith; placed = omega arith; above = inr refl }

-- tcell's number of a rune; the other keys are not pressed here.
abbrev code : TcellKey → ℕ
code k = 256

abbrev press : ℕ → KeyStroke
press rune = record { key = 256; rune = rune }

abbrev binding : List KeyStroke → List KeyStroke → Binding
binding input output = record { input = input; output = output }

-- `gg` and `ga` in one set, `g` in another.
abbrev longer_keys : KeyBindings
longer_keys = record {
  bindings =
      binding (press 103 ∷ press 103 ∷ []) (press 1 ∷ [])
      ∷ binding (press 103 ∷ press 97 ∷ []) (press 2 ∷ [])
      ∷ [];
  globals = true;
  ex_key = press 58;
}

abbrev shorter_keys : KeyBindings
shorter_keys = record longer_keys { bindings = binding (press 103 ∷ []) (press 3 ∷ []) ∷ [] }

get_binding-Meaning_example :
    Meaning code
      (press 103 ∷ [])
      longer_keys.bindings
      false
      (get_binding code longer_keys (press 103 ∷ []))
get_binding-Meaning_example = get_binding-Meaning code longer_keys (press 103 ∷ [])

get_binding-merge_bindings_example :
    get_binding code (merge_bindings code longer_keys (shorter_keys ∷ [])) (press 103 ∷ [])
    ≡ over_layers (λ b. get_binding code b (press 103 ∷ [])) (longer_keys ∷ shorter_keys ∷ [])
get_binding-merge_bindings_example =
    get_binding-merge_bindings code longer_keys (shorter_keys ∷ []) (press 103 ∷ [])

-- Three completions, the last one chosen.
abbrev completing : TextInput
completing = record typed {
  completions = some (codes "move" ∷ codes "mark" ∷ codes "modify" ∷ []);
  complete_index = pos 2;
}

on_popover_key-IsSafe_example :
    (t : TextInput) × (used : Bool) × (on_popover_key tab (drawn completing) completing
      ≡ some (t, used))
    × IsSafe t
on_popover_key-IsSafe_example =
    on_popover_key-IsSafe tab (drawn completing) completing (inr (inr (refl, omega arith)))
      (drawn-IsCurrent completing (inr (inr (refl, omega arith))))

abbrev same_case : ℕ → ℕ
same_case c = c

parse_key_strokes-Spells_example :
    (parse_key_strokes same_case code (codes "g<space>") ≡ ok (press 103 ∷ press 32 ∷ []))
    ↔ Spells same_case code (codes "g<space>") (press 103 ∷ press 32 ∷ [])
parse_key_strokes-Spells_example =
    parse_key_strokes-Spells same_case code (codes "g<space>") (press 103 ∷ press 32 ∷ [])

-- `one two` in a context of four cells, focused: it is scrolled by four.
abbrev focused : TextInput
focused = record typed { focus = true }
