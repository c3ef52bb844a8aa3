-- ===== src/Ipu/Init.antt =====
-- `init` of src/drivers/framebuffer/imx53/ipu.h, as the accesses that it makes in their order. Flags
-- that are combined by a bitwise or are summed up: they are disjoint.
use genode_imx.Base.{ℕ, ◌+◌, ◌^◌, Bool, if◌then◌else◌, Option, none, some, List, [], ◌∷◌, ◌++◌}
use genode_imx.Ipu.Registers.{
  Access, write, read_mem_rst, di0_general, dmfc_general_1, dp_com_conf, dp_m_srm, di1_general,
  mem_rst, dc_map_conf, int_ctrl, dmfc_ic_ctrl, dmfc_wr_chan, dmfc_wr_chan_def, dmfc_dp_chan,
  dmfc_dp_chan_def, idmac_ch_pri_1, idmac_ch_lock_en_1, dp_fg_pos_sync, gr_wnd_ctl_sync,
  chan_dp_primary_main, chan_dp_primary_auxi, chan_dc_sync_flow,
}
use genode_imx.Base.{not}
use genode_imx.Base.Poll.{poll}
use genode_imx.Ipu.Descriptor.{descriptor, init_dma_channel}
use genode_imx.Ipu.Displays.{init_di0, init_di1}

-- The loop that waits for the end of the reset: `busy` is the highest bit of `Mem_rst` at each
-- read, and `none` says that it is still set at the last of `fuel` reads.
unfoldable pub wait_mem_rst : (fuel : ℕ) → (busy : ℕ → Bool) → Option (List Access)
wait_mem_rst fuel busy = poll (λ over. read_mem_rst (not over)) (λ n. not (busy n)) fuel 0

-- `init` up to the loop.
unfoldable pub stop_and_reset : List Access
stop_and_reset = write di0_general 0 ∷ write di1_general 0 ∷ write mem_rst 0x807fffff ∷ []

-- `init` from the loop to the display.
unfoldable pub init_common : List Access
init_common =
    write (dc_map_conf 0) 0x14830820
    ∷ write (dc_map_conf 1) 0x2d4920e6
    ∷ write (dc_map_conf 2) 0x39ac
    ∷ write (dc_map_conf 15) 0xfff07ff
    ∷ write (dc_map_conf 16) 0x5fc17ff
    ∷ write (dc_map_conf 17) 0x11fc0bfc
    ∷ write (dc_map_conf 18) 0x17ff0fff
    ∷ write (dc_map_conf 19) 0x4f807ff
    ∷ write (dc_map_conf 20) 0xff80afc
    ∷ write (dc_map_conf 21) 0xdfc05fc
    ∷ write (dc_map_conf 22) 0x15fc
    ∷ write (int_ctrl 4) 0
    ∷ write (int_ctrl 5) 0
    ∷ write (int_ctrl 8) 0
    ∷ write (int_ctrl 9) 0
    ∷ write dmfc_ic_ctrl 0x2
    ∷ write dmfc_wr_chan 0x90
    ∷ write dmfc_wr_chan_def 0x202020f6
    ∷ write dmfc_dp_chan 0x968a
    ∷ write dmfc_dp_chan_def 0x2020f6f6
    ∷ write dmfc_general_1 0x3
    ∷ write idmac_ch_pri_1
        (2 ^ chan_dp_primary_main + 2 ^ chan_dp_primary_auxi + 2 ^ chan_dc_sync_flow)
    ∷ write idmac_ch_lock_en_1 0x3f0000
    ∷ []

-- The settings for the overlay at the end of `init`.
unfoldable pub init_overlay : List Access
init_overlay =
    write dp_com_conf (2 ^ 0)
    ∷ write dp_m_srm 1
    ∷ write dp_fg_pos_sync 16
    ∷ write dp_m_srm 1
    ∷ write dp_com_conf (2 ^ 0 + 2 ^ 2)
    ∷ write dp_m_srm 1
    ∷ write gr_wnd_ctl_sync 0xff000000
    ∷ write dp_m_srm 1
    ∷ []

-- `init`
unfoldable pub init :
    (fuel : ℕ) (busy : ℕ → Bool) (width height stride phys_base : ℕ) (di0 : Bool)
    → Option (List Access)
init fuel busy width height stride phys_base di0 =
    let cp = descriptor (init_dma_channel width height stride phys_base) in
    elim (wait_mem_rst fuel busy) [
      | none ↦ none
      | some reads ↦ some (
          stop_and_reset
          ++ (reads
              ++ (init_common ++ ((if di0 then init_di0 cp else init_di1 cp) ++ init_overlay))))
    ]
