-- ===== src/Bindings/Names.antt =====
-- config/bindings.go: the names of keys. The codes of the keys are constants of tcell, and a
-- parameter here; some constants share a code, so keys are compared by it.
use nyat.Common.{ℕ, [], ◌∷◌, Text, codes}
use nyat.Common.Dict.{Dict, text_key_eq}

-- The constants of tcell that the table names.
pub data TcellKey : Type 0 where
  key_rune key_enter key_up key_down key_right key_left key_up_left key_up_right key_down_left :
      TcellKey
  key_down_right key_center key_pg_up key_pg_dn key_home key_end key_insert key_delete key_help :
      TcellKey
  key_exit key_clear key_cancel key_print key_pause key_backtab key_f1 key_f2 key_f3 key_f4 key_f5 :
      TcellKey
  key_f6 key_f7 key_f8 key_f9 key_f10 key_f11 key_f12 key_f13 key_f14 key_f15 key_f16 key_f17 :
      TcellKey
  key_f18 key_f19 key_f20 key_f21 key_f22 key_f23 key_f24 key_f25 key_f26 key_f27 key_f28 key_f29 :
      TcellKey
  key_f30 key_f31 key_f32 key_f33 key_f34 key_f35 key_f36 key_f37 key_f38 key_f39 key_f40 key_f41 :
      TcellKey
  key_f42 key_f43 key_f44 key_f45 key_f46 key_f47 key_f48 key_f49 key_f50 key_f51 key_f52 key_f53 :
      TcellKey
  key_f54 key_f55 key_f56 key_f57 key_f58 key_f59 key_f60 key_f61 key_f62 key_f63 key_f64 : TcellKey
  key_ctrl_space key_ctrl_a key_ctrl_b key_ctrl_c key_ctrl_d key_ctrl_e key_ctrl_f key_ctrl_g :
      TcellKey
  key_ctrl_h key_ctrl_i key_ctrl_j key_ctrl_k key_ctrl_l key_ctrl_m key_ctrl_n key_ctrl_o : TcellKey
  key_ctrl_p key_ctrl_q key_ctrl_r key_ctrl_s key_ctrl_t key_ctrl_u key_ctrl_v key_ctrl_w : TcellKey
  key_ctrl_x key_ctrl_y key_ctrl_z key_ctrl_left_sq key_ctrl_backslash key_ctrl_right_sq : TcellKey
  key_ctrl_carat key_ctrl_underscore key_nul key_soh key_stx key_etx key_eot key_enq key_ack :
      TcellKey
  key_bel key_bs key_tab key_lf key_vt key_ff key_cr key_so key_si key_dle key_dc1 key_dc2 key_dc3 :
      TcellKey
  key_dc4 key_nak key_syn key_etb key_can key_em key_sub key_esc key_fs key_gs key_rs key_us :
      TcellKey
  key_del : TcellKey

pub record KeyStroke : Type 0 where
  pub key : ℕ
  pub rune : ℕ

module _ (code : TcellKey → ℕ) where
  stroke : TcellKey → ℕ → KeyStroke
  stroke k r = record { key = code k; rune = r }

  -- `keyNames`
  unfoldable pub key_names : Dict Text KeyStroke
  unfolding stroke
  key_names =
      (codes "space", stroke key_rune b' ')
      ∷ (codes "semicolon", stroke key_rune b';')
      ∷ (codes "enter", stroke key_enter 0)
      ∷ (codes "up", stroke key_up 0)
      ∷ (codes "down", stroke key_down 0)
      ∷ (codes "right", stroke key_right 0)
      ∷ (codes "left", stroke key_left 0)
      ∷ (codes "upleft", stroke key_up_left 0)
      ∷ (codes "upright", stroke key_up_right 0)
      ∷ (codes "downleft", stroke key_down_left 0)
      ∷ (codes "downright", stroke key_down_right 0)
      ∷ (codes "center", stroke key_center 0)
      ∷ (codes "pgup", stroke key_pg_up 0)
      ∷ (codes "pgdn", stroke key_pg_dn 0)
      ∷ (codes "home", stroke key_home 0)
      ∷ (codes "end", stroke key_end 0)
      ∷ (codes "insert", stroke key_insert 0)
      ∷ (codes "delete", stroke key_delete 0)
      ∷ (codes "help", stroke key_help 0)
      ∷ (codes "exit", stroke key_exit 0)
      ∷ (codes "clear", stroke key_clear 0)
      ∷ (codes "cancel", stroke key_cancel 0)
      ∷ (codes "print", stroke key_print 0)
      ∷ (codes "pause", stroke key_pause 0)
      ∷ (codes "backtab", stroke key_backtab 0)
      ∷ (codes "f1", stroke key_f1 0)
      ∷ (codes "f2", stroke key_f2 0)
      ∷ (codes "f3", stroke key_f3 0)
      ∷ (codes "f4", stroke key_f4 0)
      ∷ (codes "f5", stroke key_f5 0)
      ∷ (codes "f6", stroke key_f6 0)
      ∷ (codes "f7", stroke key_f7 0)
      ∷ (codes "f8", stroke key_f8 0)
      ∷ (codes "f9", stroke key_f9 0)
      ∷ (codes "f10", stroke key_f10 0)
      ∷ (codes "f11", stroke key_f11 0)
      ∷ (codes "f12", stroke key_f12 0)
      ∷ (codes "f13", stroke key_f13 0)
      ∷ (codes "f14", stroke key_f14 0)
      ∷ (codes "f15", stroke key_f15 0)
      ∷ (codes "f16", stroke key_f16 0)
      ∷ (codes "f17", stroke key_f17 0)
      ∷ (codes "f18", stroke key_f18 0)
      ∷ (codes "f19", stroke key_f19 0)
      ∷ (codes "f20", stroke key_f20 0)
      ∷ (codes "f21", stroke key_f21 0)
      ∷ (codes "f22", stroke key_f22 0)
      ∷ (codes "f23", stroke key_f23 0)
      ∷ (codes "f24", stroke key_f24 0)
      ∷ (codes "f25", stroke key_f25 0)
      ∷ (codes "f26", stroke key_f26 0)
      ∷ (codes "f27", stroke key_f27 0)
      ∷ (codes "f28", stroke key_f28 0)
      ∷ (codes "f29", stroke key_f29 0)
      ∷ (codes "f30", stroke key_f30 0)
      ∷ (codes "f31", stroke key_f31 0)
      ∷ (codes "f32", stroke key_f32 0)
      ∷ (codes "f33", stroke key_f33 0)
      ∷ (codes "f34", stroke key_f34 0)
      ∷ (codes "f35", stroke key_f35 0)
      ∷ (codes "f36", stroke key_f36 0)
      ∷ (codes "f37", stroke key_f37 0)
      ∷ (codes "f38", stroke key_f38 0)
      ∷ (codes "f39", stroke key_f39 0)
      ∷ (codes "f40", stroke key_f40 0)
      ∷ (codes "f41", stroke key_f41 0)
      ∷ (codes "f42", stroke key_f42 0)
      ∷ (codes "f43", stroke key_f43 0)
      ∷ (codes "f44", stroke key_f44 0)
      ∷ (codes "f45", stroke key_f45 0)
      ∷ (codes "f46", stroke key_f46 0)
      ∷ (codes "f47", stroke key_f47 0)
      ∷ (codes "f48", stroke key_f48 0)
      ∷ (codes "f49", stroke key_f49 0)
      ∷ (codes "f50", stroke key_f50 0)
      ∷ (codes "f51", stroke key_f51 0)
      ∷ (codes "f52", stroke key_f52 0)
      ∷ (codes "f53", stroke key_f53 0)
      ∷ (codes "f54", stroke key_f54 0)
      ∷ (codes "f55", stroke key_f55 0)
      ∷ (codes "f56", stroke key_f56 0)
      ∷ (codes "f57", stroke key_f57 0)
      ∷ (codes "f58", stroke key_f58 0)
      ∷ (codes "f59", stroke key_f59 0)
      ∷ (codes "f60", stroke key_f60 0)
      ∷ (codes "f61", stroke key_f61 0)
      ∷ (codes "f62", stroke key_f62 0)
      ∷ (codes "f63", stroke key_f63 0)
      ∷ (codes "f64", stroke key_f64 0)
      ∷ (codes "c-space", stroke key_ctrl_space 0)
      ∷ (codes "c-a", stroke key_ctrl_a 0)
      ∷ (codes "c-b", stroke key_ctrl_b 0)
      ∷ (codes "c-c", stroke key_ctrl_c 0)
      ∷ (codes "c-d", stroke key_ctrl_d 0)
      ∷ (codes "c-e", stroke key_ctrl_e 0)
      ∷ (codes "c-f", stroke key_ctrl_f 0)
      ∷ (codes "c-g", stroke key_ctrl_g 0)
      ∷ (codes "c-h", stroke key_ctrl_h 0)
      ∷ (codes "c-i", stroke key_ctrl_i 0)
      ∷ (codes "c-j", stroke key_ctrl_j 0)
      ∷ (codes "c-k", stroke key_ctrl_k 0)
      ∷ (codes "c-l", stroke key_ctrl_l 0)
      ∷ (codes "c-m", stroke key_ctrl_m 0)
      ∷ (codes "c-n", stroke key_ctrl_n 0)
      ∷ (codes "c-o", stroke key_ctrl_o 0)
      ∷ (codes "c-p", stroke key_ctrl_p 0)
      ∷ (codes "c-q", stroke key_ctrl_q 0)
      ∷ (codes "c-r", stroke key_ctrl_r 0)
      ∷ (codes "c-s", stroke key_ctrl_s 0)
      ∷ (codes "c-t", stroke key_ctrl_t 0)
      ∷ (codes "c-u", stroke key_ctrl_u 0)
      ∷ (codes "c-v", stroke key_ctrl_v 0)
      ∷ (codes "c-w", stroke key_ctrl_w 0)
      ∷ (codes "c-x", stroke key_ctrl_x (code key_can))
      ∷ (codes "c-y", stroke key_ctrl_y 0)
      ∷ (codes "c-z", stroke key_ctrl_z 0)
      ∷ (codes "c-]", stroke key_ctrl_left_sq 0)
      ∷ (codes "c-\\", stroke key_ctrl_backslash 0)
      ∷ (codes "c-[", stroke key_ctrl_right_sq 0)
      ∷ (codes "c-^", stroke key_ctrl_carat 0)
      ∷ (codes "c-_", stroke key_ctrl_underscore 0)
      ∷ (codes "nul", stroke key_nul 0)
      ∷ (codes "soh", stroke key_soh 0)
      ∷ (codes "stx", stroke key_stx 0)
      ∷ (codes "etx", stroke key_etx 0)
      ∷ (codes "eot", stroke key_eot 0)
      ∷ (codes "enq", stroke key_enq 0)
      ∷ (codes "ack", stroke key_ack 0)
      ∷ (codes "bel", stroke key_bel 0)
      ∷ (codes "bs", stroke key_bs 0)
      ∷ (codes "tab", stroke key_tab 0)
      ∷ (codes "lf", stroke key_lf 0)
      ∷ (codes "vt", stroke key_vt 0)
      ∷ (codes "ff", stroke key_ff 0)
      ∷ (codes "cr", stroke key_cr 0)
      ∷ (codes "so", stroke key_so 0)
      ∷ (codes "si", stroke key_si 0)
      ∷ (codes "dle", stroke key_dle 0)
      ∷ (codes "dc1", stroke key_dc1 0)
      ∷ (codes "dc2", stroke key_dc2 0)
      ∷ (codes "dc3", stroke key_dc3 0)
      ∷ (codes "dc4", stroke key_dc4 0)
      ∷ (codes "nak", stroke key_nak 0)
      ∷ (codes "syn", stroke key_syn 0)
      ∷ (codes "etb", stroke key_etb 0)
      ∷ (codes "can", stroke key_can 0)
      ∷ (codes "em", stroke key_em 0)
      ∷ (codes "sub", stroke key_sub 0)
      ∷ (codes "esc", stroke key_esc 0)
      ∷ (codes "fs", stroke key_fs 0)
      ∷ (codes "gs", stroke key_gs 0)
      ∷ (codes "rs", stroke key_rs 0)
      ∷ (codes "us", stroke key_us 0)
      ∷ (codes "del", stroke key_del 0)
      ∷ []
