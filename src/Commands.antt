-- ===== src/Commands.antt =====
-- commands/commands.go and commands/util.go: the table of commands, completion, and the messages that
-- a command is about. What shlex makes of a line, the file system and the commands themselves are
-- parameters. A nil slice is `none`, and so is a panic, of what may panic.
pub mod Register
pub mod Completion
pub mod Paths
use nyat.Common.{
  Result, err, ok, ℕ, suc, ◌-◌, Bool, true, false, not, ◌&&◌, ◌||◌, List, [], ◌∷◌, ◌++◌, map,
  Option, none, some, Text, codes, length, get_elem?, ltb, ◌==◌, text_eq, select_if, if◌then◌else◌,
  ◌>>=◌,
}
use nyat.Common.Dict.{Dict, insert, lookup, text_key_eq, nat_eq}
use nyat.Models.{MessageInfo}
use nyat.MsgSort.Criteria.{text_lt, sort_stable}

-- A command: its names, what running it with arguments returns, an error or none, and what it completes
-- arguments to.
pub record Command : Type 0 where
  pub aliases : List Text
  pub execute : List Text → Option Text
  pub complete : List Text → Option (List Text)

abbrev pub Commands : Type 0
Commands = Dict Text Command

-- `Names`, in the order of the table.
unfoldable pub command_names : Commands → List Text
command_names [] = []
command_names ((name, cmd) ∷ cmds) = name ∷ command_names cmds

unfoldable pub add_aliases : List Text → Command → Commands → Commands
add_aliases [] cmd cmds = cmds
add_aliases (alias ∷ aliases) cmd cmds = add_aliases aliases cmd (insert alias cmd cmds)

unfoldable pub register : Command → Commands → Commands
unfolding add_aliases
register cmd cmds = add_aliases cmd.aliases cmd cmds

-- What is done with the command that stands under a name, if there is one.
unfoldable pub run_found : Option Command → Text → List Text → Option Text
run_found (some cmd) name args = cmd.execute (name ∷ args)
run_found none name args = some (codes "Unknown command " ++ name)

-- `ExecuteCommand`: the error, if there is one.
unfoldable pub execute_command : Commands → List Text → Option Text
unfolding run_found
execute_command cmds [] = some (codes "Expected a command.")
execute_command cmds (name ∷ args) = run_found (lookup name cmds) name args

-- `strings.HasPrefix(s, prefix)`
unfoldable pub has_prefix : Text → Text → Bool
has_prefix s [] = true
has_prefix [] (c ∷ p) = false
has_prefix (d ∷ s) (c ∷ p) = let rest = has_prefix s p in if c == d then rest else false

-- `args[0]+" "+option` for each option
unfoldable pub with_name : Text → List Text → List Text
with_name name [] = []
with_name name (option ∷ options) = (name ++ codes " " ++ option) ∷ with_name name options

-- The completions of a command's arguments: none stays an empty list, an empty list becomes nil.
unfoldable pub options_of : Text → Option (List Text) → Option (List Text)
unfolding with_name
options_of name none = some []
options_of name (some []) = none
options_of name (some (c ∷ cs)) = some (with_name name (c ∷ cs))

unfoldable pub names_with : Text → List Text → List Text
unfolding has_prefix
names_with prefix [] = []
names_with prefix (name ∷ names) =
    let rest = names_with prefix names in if has_prefix name prefix then name ∷ rest else rest

unfoldable pub nil_if_empty : List Text → Option (List Text)
nil_if_empty [] = none
nil_if_empty (o ∷ options) = some (o ∷ options)

-- Whether a line ends in a space; `none` is the panic on an empty line.
unfoldable pub ends_in_space : Text → Option Bool
ends_in_space [] = none
ends_in_space (c ∷ []) = some (c == 32)
ends_in_space (c ∷ d ∷ s) = ends_in_space (d ∷ s)

-- What follows a first word, which is either the command's arguments or the rest of its name.
unfoldable pub complete_words : Commands → Text → List Text → Bool → Option (List Text)
unfolding options_of names_with nil_if_empty
complete_words cmds name args true = elim (lookup name cmds) [
  | none ↦ none
  | some cmd ↦ options_of name (cmd.complete args)
]
complete_words cmds name args false = nil_if_empty (names_with name (command_names cmds))

-- `GetCompletions`: the words of the line, or an error, are what shlex makes of it.
unfoldable pub get_completions : Commands → Text → Option (List Text) → Option (Option (List Text))
unfolding complete_words sort_stable text_lt command_names ends_in_space
get_completions cmds cmd none = some none
get_completions cmds cmd (some []) = some (some (sort_stable text_lt (command_names cmds)))
get_completions cmds cmd (some (name ∷ a ∷ args)) = some (complete_words cmds name (a ∷ args) true)
get_completions cmds cmd (some (name ∷ [])) = do
  spaced ← ends_in_space cmd
  some (complete_words cmds name [] spaced)

-- `strings.Join(words, " ")`
unfoldable pub join_words : List Text → Text
join_words [] = []
join_words (w ∷ []) = w
join_words (w ∷ v ∷ ws) = w ++ codes " " ++ join_words (v ∷ ws)

-- The last word and those before it.
unfoldable pub split_last : Text → List Text → List Text × Text
split_last w [] = ([], w)
split_last w (v ∷ ws) = let (others, last) = split_last v ws in (w ∷ others, last)

-- `strings.TrimLeft(last, "+-")`
unfoldable pub trim_signs : Text → Text
trim_signs [] = []
trim_signs (c ∷ s) = let rest = trim_signs s in if (c == 43) || (c == 45) then rest else c ∷ s

unfoldable pub label_options : List Text → Text → Text → List Text
label_options [] others prefix = []
label_options (l ∷ labels) others prefix =
    ((if ltb 0 (length others) then others ++ codes " " else []) ++ prefix ++ l)
    ∷ label_options labels others prefix

module _ (is_upper : ℕ → Bool) (lower : ℕ → ℕ) where
  unfoldable pub has_upper : Text → Bool
  has_upper [] = false
  has_upper (c ∷ s) = let rest = has_upper s in if is_upper c then true else rest

  unfoldable pub has_case_smart_prefix : Text → Text → Bool
  unfolding has_upper has_prefix
  has_case_smart_prefix s prefix =
      if has_upper prefix then has_prefix s prefix else has_prefix (map lower s) (map lower prefix)

  unfoldable pub matching : List Text → Text → List Text
  unfolding has_case_smart_prefix
  matching [] prefix = []
  matching (v ∷ valid) prefix =
      let rest = matching valid prefix in if has_case_smart_prefix v prefix then v ∷ rest else rest

  -- `GetFolders`, with the directories of the account.
  unfoldable pub get_folders : List Text → List Text → List Text
  unfolding matching
  get_folders dirs [] = dirs
  get_folders dirs (arg ∷ args) = matching dirs arg

  -- `CompletionFromList`
  unfoldable pub completion_from_list : List Text → List Text → List Text
  unfolding matching
  completion_from_list valid [] = valid
  completion_from_list valid (arg ∷ args) = matching valid arg

  -- `GetLabels`, with the labels of the account. An empty last word panics.
  unfoldable pub get_labels : List Text → List Text → Option (List Text)
  unfolding split_last join_words trim_signs matching label_options
  get_labels labels [] = some labels
  get_labels labels (w ∷ ws) =
      let (others, last) = split_last w ws in
      elim last [
        | [] ↦ none
        | c ∷ s ↦ some (
            label_options (matching labels (trim_signs (c ∷ s))) (join_words others)
              (if c == 43 then codes "+" else if c == 45 then codes "-" else []))
      ]

unfoldable pub marked_or_selected : Result (List ℕ) → Result MessageInfo → Result (List ℕ)
marked_or_selected (err e) selected = err e
marked_or_selected (ok (u ∷ uids)) selected = ok (u ∷ uids)
marked_or_selected (ok []) (err e) = err e
marked_or_selected (ok []) (ok msg) = ok (msg.uid ∷ [])

-- `UidsFromMessageInfos`; `none` is the panic on a nil message.
unfoldable pub uids_from_message_infos : List (Option MessageInfo) → Option (List ℕ)
uids_from_message_infos [] = some []
uids_from_message_infos (none ∷ msgs) = none
uids_from_message_infos (some msg ∷ msgs) = do
  uids ← uids_from_message_infos msgs
  some (msg.uid ∷ uids)

-- `MsgInfoFromUids`: an entry of the store may be a nil message.
unfoldable pub msg_info_from_uids :
    Dict ℕ (Option MessageInfo) → List ℕ → Result (List (Option MessageInfo))
msg_info_from_uids messages [] = ok []
msg_info_from_uids messages (uid ∷ uids) =
    let rest = msg_info_from_uids messages uids in
    elim (lookup uid messages) [
      | none ↦ err (codes "uid not found")
      | some info ↦ elim rest [ err e ↦ err e | ok infos ↦ ok (info ∷ infos) ]
    ]
