-- ===== src/CmdHistory.antt =====
-- commands/history.go: the rolling buffer of executed commands.
pub mod Buffer
pub mod Placement
use nyat.Common.{
  ℕ, suc, ◌&&◌, ◌||◌, not, List, [], ◌∷◌, ◌++◌, Option, none, some, Text, length, drop, leb, ltb,
  ◌==◌, if◌then◌else◌,
}
use nyat.Common.Int.{ℤ, pos, negsuc, ◌+ℤ◌, ◌-ℤ◌, lt_ℤ, at}

pub record CmdHistory : Type 0 where
  pub cmd_list : List Text
  pub current : ℤ

abbrev pub cmd_limit : ℕ
cmd_limit = 1000

-- What `Prev` and `Next` return: a command, or one of the two notices.
pub data Shown : Type 0 where
  command : Text → Shown
  already_at_beginning already_at_end : Shown

unfoldable pub reset : CmdHistory → CmdHistory
reset h = record h { current = pos (length h.cmd_list) }

unfoldable pub add : Text → CmdHistory → CmdHistory
unfolding reset
add cmd h =
    let kept = if leb cmd_limit (length h.cmd_list) then drop 1 h.cmd_list else h.cmd_list in
    reset (record h { cmd_list = kept ++ cmd ∷ [] })

-- `h.cmdList[h.current]`, after the move; `none` is a panic.
unfoldable pub show_current : CmdHistory → Option (Shown × CmdHistory)
show_current h = elim (at h.cmd_list h.current) [ none ↦ none | some c ↦ some (command c, h) ]

unfoldable pub prev : CmdHistory → Option (Shown × CmdHistory)
unfolding show_current
prev h =
    if not (lt_ℤ (pos 0) h.current) || length h.cmd_list == 0
    then some (already_at_beginning, record h { current = negsuc 0 })
    else show_current (record h { current = h.current -ℤ pos 1 })

unfoldable pub next : CmdHistory → Option (Shown × CmdHistory)
unfolding show_current
next h =
    if not (lt_ℤ h.current (pos (length h.cmd_list) -ℤ pos 1)) || length h.cmd_list == 0
    then some (already_at_end, record h { current = pos (length h.cmd_list) })
    else show_current (record h { current = h.current +ℤ pos 1 })
