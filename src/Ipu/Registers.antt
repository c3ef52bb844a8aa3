-- ===== src/Ipu/Registers.antt =====
-- The registers of src/drivers/framebuffer/imx53/ipu.h that are written, and the accesses.
use genode_imx.Base.{ℕ, Bool, List}

-- The registers that are written, those of a family with their number
pub data Register : Type 0 where
  disp_gen : Register
  dc_rl_ch_5 : ℕ → Register
  dc_wr_ch_conf_5 : Register
  dc_wr_ch_addr_5 : Register
  dc_gen : Register
  di0_general : Register
  di0_bs_clkgen0 : Register
  di0_bs_clkgen1 : Register
  di0_dw_gen : ℕ → Register
  di0_dw_set3 : ℕ → Register
  di0_sync_wave_gen0 : ℕ → Register
  di0_sync_wave_gen1 : ℕ → Register
  di0_step_repeat : ℕ → Register
  di0_scr_conf : Register
  dc_template : ℕ → Register
  di0_sync_as_gen : Register
  di0_polarity : Register
  dc_disp_conf2_0 : Register
  dmfc_general_1 : Register
  conf : Register
  ch_db_mode_sel0 : Register
  cur_buf_0 : Register
  dp_com_conf : Register
  dp_m_srm : Register
  di1_general : Register
  di1_bs_clkgen0 : Register
  di1_bs_clkgen1 : Register
  pm : Register
  di1_dw_gen : ℕ → Register
  di1_dw_set3 : ℕ → Register
  di1_sync_wave_gen0 : ℕ → Register
  di1_sync_wave_gen1 : ℕ → Register
  di1_step_repeat : ℕ → Register
  di1_scr_conf : Register
  di1_sync_as_gen : Register
  di1_polarity : Register
  dc_disp_conf2_1 : Register
  idmac_wm_en : Register
  mem_rst : Register
  dc_map_conf : ℕ → Register
  int_ctrl : ℕ → Register
  dmfc_ic_ctrl : Register
  dmfc_wr_chan : Register
  dmfc_wr_chan_def : Register
  dmfc_dp_chan : Register
  dmfc_dp_chan_def : Register
  idmac_ch_pri_1 : Register
  idmac_ch_lock_en_1 : Register
  dp_fg_pos_sync : Register
  gr_wnd_ctl_sync : Register

-- `store` copies the descriptor of a DMA channel, `enable` writes the bit of a channel in
-- `Idmac_ch_en`, and `read_mem_rst` says if the reset of the memory goes on.
pub data Access : Type 0 where
  write : Register → ℕ → Access
  store : ℕ → List ℕ → Access
  enable : ℕ → ℕ → Access
  read_mem_rst : Bool → Access

-- `Idmac_channels`
abbrev pub chan_dp_primary_main : ℕ
chan_dp_primary_main = 23

abbrev pub chan_dp_primary_auxi : ℕ
chan_dp_primary_auxi = 27

abbrev pub chan_dc_sync_flow : ℕ
chan_dc_sync_flow = 28
