-- ===== src/Platform/Tree/RootsA.antt =====
-- The clocks that src/drivers/platform/imx8mq/ccm.h declares: the first third of the root clocks, in their order.
use genode_imx.Base.{List, [], ◌∷◌}
use genode_imx.Platform.Tree.Clocks.{Clock, root}

-- from "arm_a53_clk_root" to "dc_pixel_clk_root"
unfoldable pub roots_a : List Clock
roots_a =
    root "arm_a53_clk_root" 0 (
      "25m_ref_clk" ∷ "arm_pll_clk" ∷ "system_pll2_div2" ∷ "system_pll2_clk" ∷ "system_pll1_clk"
      ∷ "system_pll1_div2" ∷ "audio_pll1_clk" ∷ "system_pll3_clk" ∷ [])
    ∷ root "arm_m4_clk_root" 1 (
        "25m_ref_clk" ∷ "system_pll2_div5" ∷ "system_pll2_div4" ∷ "system_pll1_div3"
        ∷ "system_pll1_clk" ∷ "audio_pll1_clk" ∷ "video_pll1_clk" ∷ "system_pll3_clk" ∷ [])
    ∷ root "vpu_a53_clk_root" 2 (
        "25m_ref_clk" ∷ "arm_pll_clk" ∷ "system_pll2_div2" ∷ "system_pll2_clk" ∷ "system_pll1_clk"
        ∷ "system_pll1_div2" ∷ "audio_pll1_clk" ∷ "vpu_pll_clk" ∷ [])
    ∷ root "gpu_core_clk_root" 3 (
        "25m_ref_clk" ∷ "gpu_pll_clk" ∷ "system_pll1_clk" ∷ "system_pll3_clk" ∷ "system_pll2_clk"
        ∷ "audio_pll1_clk" ∷ "video_pll1_clk" ∷ "audio_pll2_clk" ∷ [])
    ∷ root "gpu_shader_clk" 4 (
        "25m_ref_clk" ∷ "gpu_pll_clk" ∷ "system_pll1_clk" ∷ "system_pll3_clk" ∷ "system_pll2_clk"
        ∷ "audio_pll1_clk" ∷ "video_pll1_clk" ∷ "audio_pll2_clk" ∷ [])
    ∷ root "main_axi_clk_root" 16 (
        "25m_ref_clk" ∷ "system_pll2_div3" ∷ "system_pll1_clk" ∷ "system_pll2_div4"
        ∷ "system_pll2_clk" ∷ "audio_pll1_clk" ∷ "video_pll1_clk" ∷ "system_pll1_div8" ∷ [])
    ∷ root "enet_axi_clk_root" 17 (
        "25m_ref_clk" ∷ "system_pll1_div3" ∷ "system_pll1_clk" ∷ "system_pll2_div4"
        ∷ "system_pll2_div5" ∷ "audio_pll1_clk" ∷ "video_pll1_clk" ∷ "system_pll3_clk" ∷ [])
    ∷ root "nand_usdhc_bus_clk_root" 18 (
        "25m_ref_clk" ∷ "system_pll1_div3" ∷ "system_pll1_clk" ∷ "system_pll2_div5"
        ∷ "system_pll1_div6" ∷ "system_pll3_clk" ∷ "system_pll2_div4" ∷ "audio_pll1_clk" ∷ [])
    ∷ root "vpu_bus_clk_root" 19 (
        "25m_ref_clk" ∷ "system_pll1_clk" ∷ "vpu_pll_clk" ∷ "audio_pll2_clk" ∷ "system_pll3_clk"
        ∷ "system_pll2_clk" ∷ "system_pll2_div5" ∷ "system_pll1_div8" ∷ [])
    ∷ root "display_axi_clk_root" 20 (
        "25m_ref_clk" ∷ "system_pll2_div8" ∷ "system_pll1_clk" ∷ "system_pll3_clk"
        ∷ "system_pll1_div20" ∷ "audio_pll2_clk" ∷ "ext_clk_1" ∷ "ext_clk_4" ∷ [])
    ∷ root "display_apb_clk_root" 21 (
        "25m_ref_clk" ∷ "system_pll2_div8" ∷ "system_pll1_clk" ∷ "system_pll3_clk"
        ∷ "system_pll1_div20" ∷ "audio_pll2_clk" ∷ "ext_clk_1" ∷ "ext_clk_3" ∷ [])
    ∷ root "display_rtrm_clk_root" 22 (
        "25m_ref_clk" ∷ "system_pll1_clk" ∷ "system_pll2_div5" ∷ "system_pll1_div2"
        ∷ "audio_pll1_clk" ∷ "video_pll1_clk" ∷ "ext_clk_2" ∷ "ext_clk_3" ∷ [])
    ∷ root "usb_bus_clk_root" 23 (
        "25m_ref_clk" ∷ "system_pll2_div2" ∷ "system_pll1_clk" ∷ "system_pll2_div10"
        ∷ "system_pll2_div5" ∷ "ext_clk_2" ∷ "ext_clk_4" ∷ "audio_pll2_clk" ∷ [])
    ∷ root "gpu_axi_clk_root" 24 (
        "25m_ref_clk" ∷ "system_pll1_clk" ∷ "gpu_pll_clk" ∷ "system_pll3_clk" ∷ "system_pll2_clk"
        ∷ "audio_pll1_clk" ∷ "video_pll1_clk" ∷ "audio_pll2_clk" ∷ [])
    ∷ root "gpu_ahb_clk_root" 25 (
        "25m_ref_clk" ∷ "system_pll1_clk" ∷ "gpu_pll_clk" ∷ "system_pll3_clk" ∷ "system_pll2_clk"
        ∷ "audio_pll1_clk" ∷ "video_pll1_clk" ∷ "audio_pll2_clk" ∷ [])
    ∷ root "noc_clk_root" 26 (
        "25m_ref_clk" ∷ "system_pll1_clk" ∷ "system_pll3_clk" ∷ "system_pll2_clk"
        ∷ "system_pll2_div2" ∷ "audio_pll1_clk" ∷ "video_pll1_clk" ∷ "audio_pll2_clk" ∷ [])
    ∷ root "noc_apb_clk_root" 27 (
        "25m_ref_clk" ∷ "system_pll1_div2" ∷ "system_pll3_clk" ∷ "system_pll2_div3"
        ∷ "system_pll2_div5" ∷ "system_pll1_clk" ∷ "audio_pll1_clk" ∷ "video_pll1_clk" ∷ [])
    ∷ root "ahb_clk_root" 32 (
        "25m_ref_clk" ∷ "system_pll1_div6" ∷ "system_pll1_clk" ∷ "system_pll1_div2"
        ∷ "system_pll2_div8" ∷ "system_pll3_clk" ∷ "audio_pll1_clk" ∷ "video_pll1_clk" ∷ [])
    ∷ root "audio_ahb_clk_root" 34 (
        "25m_ref_clk" ∷ "system_pll2_div2" ∷ "system_pll1_clk" ∷ "system_pll2_clk"
        ∷ "system_pll2_div6" ∷ "system_pll3_clk" ∷ "audio_pll1_clk" ∷ "video_pll1_clk" ∷ [])
    ∷ root "mipi_dsi_esc_rx_clk_root" 36 (
        "25m_ref_clk" ∷ "system_pll2_div10" ∷ "system_pll1_div10" ∷ "system_pll1_clk"
        ∷ "system_pll2_clk" ∷ "system_pll3_clk" ∷ "ext_clk_3" ∷ "audio_pll2_clk" ∷ [])
    ∷ root "dram_alt_clk_root" 64 (
        "25m_ref_clk" ∷ "system_pll1_clk" ∷ "system_pll1_div8" ∷ "system_pll2_div2"
        ∷ "system_pll2_div4" ∷ "system_pll1_div2" ∷ "audio_pll1_clk" ∷ "system_pll1_div3" ∷ [])
    ∷ root "dram_apb_clk_root" 65 (
        "25m_ref_clk" ∷ "system_pll2_div5" ∷ "system_pll1_div20" ∷ "system_pll1_div5"
        ∷ "system_pll1_clk" ∷ "system_pll3_clk" ∷ "system_pll2_div4" ∷ "audio_pll2_clk" ∷ [])
    ∷ root "vpu_g1_clk_root" 66 (
        "25m_ref_clk" ∷ "vpu_pll_clk" ∷ "system_pll1_clk" ∷ "system_pll2_clk" ∷ "system_pll1_div8"
        ∷ "system_pll2_div8" ∷ "system_pll3_clk" ∷ "audio_pll1_clk" ∷ [])
    ∷ root "vpu_g2_clk_root" 67 (
        "25m_ref_clk" ∷ "vpu_pll_clk" ∷ "system_pll1_clk" ∷ "system_pll2_clk" ∷ "system_pll1_div8"
        ∷ "system_pll2_div8" ∷ "system_pll3_clk" ∷ "audio_pll1_clk" ∷ [])
    ∷ root "display_dtrc_clk_root" 68 (
        "25m_ref_clk" ∷ "video_pll2_clk" ∷ "system_pll1_clk" ∷ "system_pll2_clk"
        ∷ "system_pll1_div5" ∷ "video_pll1_clk" ∷ "system_pll3_clk" ∷ "audio_pll2_clk" ∷ [])
    ∷ root "display_dc8000_clk_root" 69 (
        "25m_ref_clk" ∷ "video_pll2_clk" ∷ "system_pll1_clk" ∷ "system_pll2_clk"
        ∷ "system_pll1_div5" ∷ "video_pll1_clk" ∷ "system_pll3_clk" ∷ "audio_pll2_clk" ∷ [])
    ∷ root "pcie1_ctrl_clk_root" 70 (
        "25m_ref_clk" ∷ "system_pll2_div4" ∷ "system_pll2_div5" ∷ "system_pll1_div3"
        ∷ "system_pll1_clk" ∷ "system_pll2_div2" ∷ "system_pll2_div3" ∷ "system_pll3_clk" ∷ [])
    ∷ root "pcie1_phy_clk_root" 71 (
        "25m_ref_clk" ∷ "system_pll2_div10" ∷ "system_pll2_div2" ∷ "ext_clk_1" ∷ "ext_clk_2"
        ∷ "ext_clk_3" ∷ "ext_clk_4" ∷ "system_pll1_div2" ∷ [])
    ∷ root "pcie1_aux_clk_root" 72 (
        "25m_ref_clk" ∷ "system_pll2_div5" ∷ "system_pll2_div20" ∷ "system_pll3_clk"
        ∷ "system_pll2_div10" ∷ "system_pll1_div10" ∷ "system_pll1_div5" ∷ "system_pll1_div4" ∷ [])
    ∷ root "dc_pixel_clk_root" 73 (
        "25m_ref_clk" ∷ "video_pll1_clk" ∷ "audio_pll2_clk" ∷ "audio_pll1_clk" ∷ "system_pll1_clk"
        ∷ "system_pll2_clk" ∷ "system_pll3_clk" ∷ "ext_clk_4" ∷ [])
    ∷ []
