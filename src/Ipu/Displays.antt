-- ===== src/Ipu/Displays.antt =====
-- The initialisation of the two displays in src/drivers/framebuffer/imx53/ipu.h. Flags that are
-- combined by a bitwise or are summed up: they are disjoint.
use genode_imx.Base.{ℕ, ◌+◌, ◌^◌, List, [], ◌∷◌}
use genode_imx.Ipu.Registers.{
  Access, write, store, enable, disp_gen, dc_rl_ch_5, dc_wr_ch_conf_5, dc_wr_ch_addr_5, dc_gen,
  di0_general, di0_bs_clkgen0, di0_bs_clkgen1, di0_dw_gen, di0_dw_set3, di0_sync_wave_gen0,
  di0_sync_wave_gen1, di0_step_repeat, di0_scr_conf, dc_template, di0_sync_as_gen, di0_polarity,
  dc_disp_conf2_0, dmfc_general_1, conf, ch_db_mode_sel0, cur_buf_0, dp_com_conf, dp_m_srm,
  di1_general, di1_bs_clkgen0, di1_bs_clkgen1, pm, di1_dw_gen, di1_dw_set3, di1_sync_wave_gen0,
  di1_sync_wave_gen1, di1_step_repeat, di1_scr_conf, di1_sync_as_gen, di1_polarity, dc_disp_conf2_1,
  idmac_wm_en, chan_dp_primary_main, chan_dp_primary_auxi,
}

-- `_init_di0`, for the descriptor of both channels.
unfoldable pub init_di0 : List ℕ → List Access
init_di0 cp =
    write disp_gen 0x1600000
    ∷ write (dc_rl_ch_5 0) 0x5030000
    ∷ write (dc_rl_ch_5 2) 0x602
    ∷ write (dc_rl_ch_5 4) 0x701
    ∷ write (dc_rl_ch_5 0) 0x5030000
    ∷ write (dc_rl_ch_5 1) 0x0
    ∷ write (dc_rl_ch_5 1) 0x0
    ∷ write (dc_rl_ch_5 2) 0x602
    ∷ write (dc_rl_ch_5 3) 0x0
    ∷ write (dc_rl_ch_5 3) 0x0
    ∷ write dc_wr_ch_conf_5 0x2
    ∷ write dc_wr_ch_addr_5 0x0
    ∷ write dc_gen 0x84
    ∷ write di0_general 0x200000
    ∷ write di0_bs_clkgen0 0x38
    ∷ write di0_bs_clkgen1 0x30000
    ∷ write (di0_dw_gen 0) 0x2020300
    ∷ write (di0_dw_set3 0) 0x60000
    ∷ write (di0_sync_wave_gen0 0) 0x21310000
    ∷ write (di0_sync_wave_gen1 0) 0x10000000
    ∷ write (di0_sync_wave_gen0 1) 0x21310001
    ∷ write (di0_sync_wave_gen1 1) 0x30141000
    ∷ write (di0_step_repeat 0) 0x0
    ∷ write (di0_sync_wave_gen0 2) 0x10520000
    ∷ write (di0_sync_wave_gen1 2) 0x30142000
    ∷ write di0_scr_conf 0x20a
    ∷ write (di0_sync_wave_gen0 3) 0x3010b
    ∷ write (di0_sync_wave_gen1 3) 0x8000000
    ∷ write (di0_step_repeat 1) 0x1e00000
    ∷ write (di0_sync_wave_gen0 4) 0x10319
    ∷ write (di0_sync_wave_gen1 4) 0xa000000
    ∷ write (di0_sync_wave_gen0 5) 0x0
    ∷ write (di0_sync_wave_gen1 5) 0x0
    ∷ write (di0_sync_wave_gen0 6) 0x0
    ∷ write (di0_sync_wave_gen1 6) 0x0
    ∷ write (di0_sync_wave_gen0 7) 0x0
    ∷ write (di0_sync_wave_gen1 7) 0x0
    ∷ write (di0_sync_wave_gen0 8) 0x0
    ∷ write (di0_sync_wave_gen1 8) 0x0
    ∷ write (di0_step_repeat 2) 0x320
    ∷ write (di0_step_repeat 3) 0x0
    ∷ write (di0_step_repeat 4) 0x0
    ∷ write (dc_template 10) 0x8885
    ∷ write (dc_template 11) 0x380
    ∷ write (dc_template 12) 0x8845
    ∷ write (dc_template 13) 0x380
    ∷ write (dc_template 14) 0x8805
    ∷ write (dc_template 15) 0x380
    ∷ write di0_general 0x220000
    ∷ write di0_sync_as_gen 0x2002
    ∷ write di0_general 0x200000
    ∷ write di0_sync_as_gen 0x4002
    ∷ write di0_polarity 0x10
    ∷ write dc_disp_conf2_0 0x320
    ∷ store chan_dp_primary_main cp
    ∷ store chan_dp_primary_auxi cp
    ∷ write dmfc_general_1 0x3
    ∷ write conf 0x660
    ∷ write ch_db_mode_sel0 (2 ^ chan_dp_primary_main + 2 ^ chan_dp_primary_auxi)
    ∷ write cur_buf_0 (2 ^ chan_dp_primary_main)
    ∷ write dc_wr_ch_conf_5 0x82
    ∷ enable chan_dp_primary_main 1
    ∷ enable chan_dp_primary_auxi 1
    ∷ []

-- `_init_di1`, for the descriptor of both channels.
unfoldable pub init_di1 : List ℕ → List Access
init_di1 cp =
    write disp_gen 0x600000
    ∷ write dp_com_conf 0
    ∷ write dp_m_srm 1
    ∷ write (dc_rl_ch_5 0) 0x2030000
    ∷ write (dc_rl_ch_5 1) 0
    ∷ write (dc_rl_ch_5 2) 0x302
    ∷ write (dc_rl_ch_5 3) 0
    ∷ write (dc_rl_ch_5 4) 0x401
    ∷ write dc_wr_ch_conf_5 0xe
    ∷ write dc_wr_ch_addr_5 0x0
    ∷ write dc_gen 0x84
    ∷ write conf 0
    ∷ write di1_general 0x200000
    ∷ write di1_general 0x300000
    ∷ write di1_bs_clkgen0 0x10
    ∷ write di1_bs_clkgen1 0x10000
    ∷ write pm 0x10101010
    ∷ write (di1_dw_gen 0) 0x300
    ∷ write (di1_dw_set3 0) 0x20000
    ∷ write (di1_sync_wave_gen0 0) 0x29f90000
    ∷ write (di1_sync_wave_gen1 0) 0x10000000
    ∷ write (di1_step_repeat 0) 0x0
    ∷ write (di1_sync_wave_gen0 1) 0x29f90001
    ∷ write (di1_sync_wave_gen1 1) 0x30781000
    ∷ write (di1_step_repeat 0) 0x0
    ∷ write (di1_sync_wave_gen0 2) 0x192a0000
    ∷ write (di1_sync_wave_gen1 2) 0x30142000
    ∷ write (di1_step_repeat 1) 0x3000000
    ∷ write di1_scr_conf 0x325
    ∷ write (di1_sync_wave_gen0 3) 0x300fb
    ∷ write (di1_sync_wave_gen1 3) 0x8000000
    ∷ write (di1_step_repeat 1) 0x3000000
    ∷ write (di1_sync_wave_gen0 4) 0x108c1
    ∷ write (di1_sync_wave_gen1 4) 0xa000000
    ∷ write (di1_step_repeat 2) 0x400
    ∷ write (di1_sync_wave_gen0 6) 0x29f90091
    ∷ write (di1_sync_wave_gen1 6) 0x30781000
    ∷ write (di1_step_repeat 3) 0x0
    ∷ write (di1_sync_wave_gen0 7) 0x192a000a
    ∷ write (di1_sync_wave_gen1 7) 0x30142000
    ∷ write (di1_step_repeat 3) 0x0
    ∷ write (di1_sync_wave_gen0 5) 0x0
    ∷ write (di1_sync_wave_gen1 5) 0x0
    ∷ write (di1_sync_wave_gen0 8) 0x0
    ∷ write (di1_sync_wave_gen1 8) 0x0
    ∷ write (di1_step_repeat 4) 0x0
    ∷ write (di1_step_repeat 2) 0x400
    ∷ write (di1_sync_wave_gen0 5) 0x90011
    ∷ write (di1_sync_wave_gen1 5) 0x4000000
    ∷ write (di1_step_repeat 2) 0x28a0400
    ∷ write (dc_template 4) 0x10885
    ∷ write (dc_template 5) 0x380
    ∷ write (dc_template 6) 0x845
    ∷ write (dc_template 7) 0x280
    ∷ write (dc_template 8) 0x10805
    ∷ write (dc_template 9) 0x380
    ∷ write di1_general 0x6300000
    ∷ write di1_sync_as_gen 0x4000
    ∷ write di1_polarity 0x10
    ∷ write dc_disp_conf2_1 0x400
    ∷ store chan_dp_primary_main cp
    ∷ store chan_dp_primary_auxi cp
    ∷ write ch_db_mode_sel0 (2 ^ chan_dp_primary_main + 2 ^ chan_dp_primary_auxi)
    ∷ write cur_buf_0 (2 ^ chan_dp_primary_main)
    ∷ write conf 0x6a0
    ∷ enable chan_dp_primary_main 1
    ∷ enable chan_dp_primary_auxi 1
    ∷ write idmac_wm_en (2 ^ chan_dp_primary_main + 2 ^ chan_dp_primary_auxi)
    ∷ write dc_wr_ch_conf_5 0x8e
    ∷ write disp_gen 0x2600000
    ∷ []
