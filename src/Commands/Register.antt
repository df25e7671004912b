-- ===== src/Commands/Register.antt =====
-- commands/commands.go and commands/util.go: what is found of the commands that are registered and of
-- the messages of a store.
use nyat.Common.{
  Result, err, ok, ℕ, Bool, true, false, List, [], ◌∷◌, Option, none, some, Text, text_eq,
  if◌then◌else◌, ◌≡◌, refl, arith, ap, sym, ◌∙◌, subst, codes,
}
use nyat.Common.Dict.{Dict, insert, lookup, lookup-insert, text_key_eq, nat_eq}
use nyat.Models.{MessageInfo}
use nyat.Commands.{
  Command, Commands, add_aliases, register, run_found, execute_command, uids_from_message_infos,
  msg_info_from_uids,
}

-- Whether a name is one of a list.
abbrev pub has_name : Text → List Text → Bool
has_name name [] = false
has_name name (a ∷ aliases) =
    let rest = has_name name aliases in if text_eq a name then true else rest

lookup-add_aliases :
    (aliases : List Text) (cmd : Command) (cmds : Commands) (name : Text)
    → lookup name (add_aliases aliases cmd cmds)
      ≡ (if has_name name aliases then some cmd else lookup name cmds)
unfolding add_aliases
lookup-add_aliases [] cmd cmds name = refl
lookup-add_aliases (a ∷ aliases) cmd cmds name =
    ground (
      arith,
      lookup-add_aliases aliases cmd (insert a cmd cmds) name,
      lookup-insert a name cmd cmds,
    )

chosen :
    (b : Bool) (cmd : Command) (o : Option Command) (name : Text) (args : List Text)
    → run_found (if b then some cmd else o) name args
      ≡ (if b then cmd.execute (name ∷ args) else run_found o name args)
unfolding run_found
chosen true cmd o name args = refl
chosen false cmd o name args = refl

-- Each alias of a command that has been registered runs it, also one that stood for another command
-- before, and every other name runs what it did.
pub execute_command-register :
    (cmd : Command) (cmds : Commands) (name : Text) (args : List Text)
    → execute_command (register cmd cmds) (name ∷ args) ≡ (
        if has_name name cmd.aliases
        then cmd.execute (name ∷ args)
        else execute_command cmds (name ∷ args))
unfolding execute_command register run_found
execute_command-register cmd cmds name args =
    ap (λ o. run_found o name args) (lookup-add_aliases cmd.aliases cmd cmds name)
    ∙ chosen (has_name name cmd.aliases) cmd (lookup name cmds) name args

-- A table of messages that are there, each under its uid.
abbrev pub IsFilled : Dict ℕ (Option MessageInfo) → Type 0
IsFilled messages =
    (uid : ℕ) (o : Option MessageInfo)
    → lookup uid messages ≡ some o
    → (info : MessageInfo) × (o ≡ some info) × (info.uid ≡ uid)

-- A result that is an error, or messages that have the uids.
abbrev Has : List ℕ → Result (List (Option MessageInfo)) → Type 0
Has uids (err e) = Unit
Has uids (ok infos) = uids_from_message_infos infos ≡ some uids

there :
    (info : MessageInfo) (uid : ℕ) (uids : List ℕ) (infos : List (Option MessageInfo))
    → info.uid ≡ uid
    → uids_from_message_infos infos ≡ some uids
    → uids_from_message_infos (some info ∷ infos) ≡ some (uid ∷ uids)
unfolding uids_from_message_infos
there info uid uids infos u h = rw h (ap (λ z. some (z ∷ uids)) u)

found :
    (messages : Dict ℕ (Option MessageInfo)) (uid : ℕ) (uids : List ℕ)
    (o : Option (Option MessageInfo)) (rest : Result (List (Option MessageInfo)))
    → IsFilled messages
    → lookup uid messages ≡ o
    → Has uids rest
    → Has (uid ∷ uids) (elim o [
      | none ↦ err (codes "uid not found")
      | some info ↦ elim rest [ err e ↦ err e | ok infos ↦ ok (info ∷ infos) ]
    ])
unfolding uids_from_message_infos
found messages uid uids none rest f e h = tt
found messages uid uids (some o) (err x) f e h = tt
found messages uid uids (some o) (ok infos) f e h =
    let (info, q, u) = f uid o e in
    subst (λ z. uids_from_message_infos (z ∷ infos) ≡ some (uid ∷ uids)) (sym q)
      (there info uid uids infos u h)

msg_info_from_uids-Has :
    (messages : Dict ℕ (Option MessageInfo)) (uids : List ℕ)
    → IsFilled messages
    → Has uids (msg_info_from_uids messages uids)
unfolding msg_info_from_uids uids_from_message_infos
msg_info_from_uids-Has messages [] f = refl
msg_info_from_uids-Has messages (uid ∷ uids) f =
    found messages uid uids (lookup uid messages) (msg_info_from_uids messages uids) f refl
      (msg_info_from_uids-Has messages uids f)

-- The messages that are found for uids have these uids, in their order, if the store has its messages
-- under their uids.
pub uids_from_message_infos-msg_info_from_uids :
    (messages : Dict ℕ (Option MessageInfo)) (uids : List ℕ) (infos : List (Option MessageInfo))
    → IsFilled messages
    → msg_info_from_uids messages uids ≡ ok infos
    → uids_from_message_infos infos ≡ some uids
uids_from_message_infos-msg_info_from_uids messages uids infos f e =
    subst (Has uids) e (msg_info_from_uids-Has messages uids f)
