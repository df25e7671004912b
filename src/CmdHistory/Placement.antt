-- ===== src/CmdHistory/Placement.antt =====
-- commands/history.go: the placement stays in the buffer.
use nyat.Common.{
  ℕ, zero, suc, ◌-◌, ◌≤◌, ◌<◌, ◌≡◌, refl, ap, [], ◌∷◌, Option, none, some, Text, arith, length,
  drop, get_elem?, length-append, length-drop, get_elem?-lt, get_elem?-some-lt, ◌⊎◌, inl, inr,
  ◌>>=◌,
}
use native.Mathlib.Decide.{dec_le, dec_lt}
use nyat.Common.Int.{pos, negsuc, pos_part}
use nyat.CmdHistory.{
  CmdHistory, Shown, command, already_at_beginning, already_at_end, reset, add, prev, next,
}

-- At most `cmd_limit` commands, and a placement between -1 and their number.
pub record IsValid (h : CmdHistory) : Type 0 where
  pub bounded : length h.cmd_list ≤ 1000
  pub placed : pos_part h.current ≤ length h.cmd_list
  pub above : (h.current ≡ negsuc 0) ⊎ (h.current ≡ pos (pos_part h.current))

add-IsValid : (cmd : Text) (h : CmdHistory) → IsValid h → IsValid (add cmd h)
unfolding add
add-IsValid cmd h v = elim (dec_le 1000 (length h.cmd_list)) [
  | yes full ↦ record {
    bounded =
        ground (arith, length-append (drop 1 h.cmd_list) (cmd ∷ []), length-drop 1 h.cmd_list);
    placed = ground arith;
    above = inr refl;
  }
  | no room ↦ record {
    bounded = ground (arith, length-append h.cmd_list (cmd ∷ []));
    placed = ground arith;
    above = inr refl;
  }
]

-- What an operation leaves: no panic, and a valid history.
abbrev pub Ends : Option (Shown × CmdHistory) → Type 0
Ends none = ⊥
Ends (some (shown, h)) = IsValid h

-- A command or the notice, at the place next to the last one.
prev_back :
    (h : CmdHistory) (i : ℕ) (c : Text)
    → h.current ≡ pos (suc i)
    → get_elem? h.cmd_list i ≡ some c
    → prev h ≡ some (command c, record h { current = pos i })
unfolding prev
prev_back h i c e g = ground (arith, get_elem?-some-lt h.cmd_list i c g)

next_forth :
    (h : CmdHistory) (i : ℕ) (c : Text)
    → h.current ≡ pos i
    → get_elem? h.cmd_list (suc i) ≡ some c
    → next h ≡ some (command c, record h { current = pos (suc i) })
unfolding next
next_forth h i c e g = ground (arith, get_elem?-some-lt h.cmd_list (suc i) c g)

prev_stop :
    (h : CmdHistory)
    → (h.current ≡ negsuc 0) ⊎ (h.current ≡ pos 0)
    → prev h ≡ some (already_at_beginning, record h { current = negsuc 0 })
unfolding prev
prev_stop h (inl e) = ground arith
prev_stop h (inr e) = ground arith

next_stop :
    (h : CmdHistory) (i : ℕ)
    → h.current ≡ pos i
    → length h.cmd_list ≤ suc i
    → next h ≡ some (already_at_end, record h { current = pos (length h.cmd_list) })
unfolding next
next_stop h i e le = ground arith

-- From before the first command `Next` shows the first one.
next_first :
    (h : CmdHistory) (c : Text)
    → h.current ≡ negsuc 0
    → get_elem? h.cmd_list 0 ≡ some c
    → next h ≡ some (command c, record h { current = pos 0 })
unfolding next
next_first h c e g = ground (arith, get_elem?-some-lt h.cmd_list 0 c g)

next_none :
    (h : CmdHistory)
    → h.current ≡ negsuc 0
    → length h.cmd_list ≡ 0
    → next h ≡ some (already_at_end, record h { current = pos (length h.cmd_list) })
unfolding next
next_none h e z = ground arith

module _ (h : CmdHistory) (v : IsValid h) where
  prev-Ends : (n : ℕ) → h.current ≡ pos n → n ≤ length h.cmd_list → Ends (prev h)
  prev-Ends zero e le =
      rw (prev_stop h (inr e))
        (record { bounded = v.bounded; placed = omega arith; above = inl refl })
  prev-Ends (suc i) e le =
      let (c, g) = get_elem?-lt h.cmd_list i le in
      rw (prev_back h i c e g)
        (record { bounded = v.bounded; placed = omega arith; above = inr refl })

  next-Ends : (n : ℕ) → h.current ≡ pos n → Ends (next h)
  next-Ends n e = elim (dec_lt (suc n) (length h.cmd_list)) [
    | yes lt ↦
        let (c, g) = get_elem?-lt h.cmd_list (suc n) lt in
        rw (next_forth h n c e g)
          (record { bounded = v.bounded; placed = omega arith; above = inr refl })
    | no ge ↦
        rw (next_stop h n e (omega arith))
          (record { bounded = v.bounded; placed = omega arith; above = inr refl })
  ]

  next-Ends_below : h.current ≡ negsuc 0 → Ends (next h)
  next-Ends_below e = elim (dec_lt 0 (length h.cmd_list)) [
    | yes lt ↦
        let (c, g) = get_elem?-lt h.cmd_list 0 lt in
        rw (next_first h c e g)
          (record { bounded = v.bounded; placed = omega arith; above = inr refl })
    | no ge ↦
        rw (next_none h e (omega arith))
          (record { bounded = v.bounded; placed = omega arith; above = inr refl })
  ]

-- In a history of at most 1000 commands whose placement is between -1 and their number, no
-- operation panics: `Add`, `Prev`, `Next` and `Reset` all leave such a history.
pub CmdHistory-closed :
    (h : CmdHistory) (cmd : Text)
    → IsValid h
    → IsValid (add cmd h) × IsValid (reset h) × Ends (prev h) × Ends (next h)
unfolding reset
CmdHistory-closed h cmd v = (
  add-IsValid cmd h v,
  record { bounded = v.bounded; placed = omega arith; above = inr refl },
  elim v.above [
    | inl e ↦
        rw (prev_stop h (inl e))
          (record { bounded = v.bounded; placed = omega arith; above = inl refl })
    | inr e ↦ prev-Ends h v (pos_part h.current) e v.placed
  ],
  elim v.above [ inl e ↦ next-Ends_below h v e | inr e ↦ next-Ends h v (pos_part h.current) e ],
)

-- `Prev` pressed k + 1 times; the last thing shown.
pub prev_times : ℕ → CmdHistory → Option (Shown × CmdHistory)
prev_times zero h = prev h
prev_times (suc k) h = prev_times k h >>= λ r. prev r.1

-- After a reset, as after each `Add`, pressing `Prev` k + 1 times shows the command k places before
-- the last one and stands there.
pub prev_times-reset :
    (k : ℕ) (h : CmdHistory) (c : Text)
    → k < length h.cmd_list
    → get_elem? h.cmd_list (length h.cmd_list - suc k) ≡ some c
    → prev_times k (reset h)
      ≡ some (command c, record h { current = pos (length h.cmd_list - suc k) })
unfolding prev_times reset
prev_times-reset zero h c lt g =
    prev_back (record h { current = pos (length h.cmd_list) }) (length h.cmd_list - 1) c
      (ap pos (omega arith)) g
prev_times-reset (suc k) h c lt g =
    let (d, f) = get_elem?-lt h.cmd_list (length h.cmd_list - suc k) (omega arith) in
    rw (prev_times-reset k h d (omega arith) f) (
      prev_back (record h { current = pos (length h.cmd_list - suc k) })
        (length h.cmd_list - suc (suc k)) c (ap pos (omega arith)) g)
