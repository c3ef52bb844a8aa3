-- ===== src/Platform/Tree/RootsC.antt =====
-- The clocks that src/drivers/platform/imx8mq/ccm.h declares: the last third of the root clocks, in their order.
use genode_imx.Base.{List, [], ◌∷◌}
use genode_imx.Platform.Tree.Clocks.{Clock, root}

-- from "pwm2_clk_root" to "display_hdmi_clk_root"
unfoldable pub roots_c : List Clock
roots_c =
    root "pwm2_clk_root" 104 (
      "25m_ref_clk" ∷ "system_pll2_div10" ∷ "system_pll1_div5" ∷ "system_pll1_div20"
      ∷ "system_pll3_clk" ∷ "ext_clk_1" ∷ "system_pll1_div10" ∷ "video_pll1_clk" ∷ [])
    ∷ root "pwm3_clk_root" 105 (
        "25m_ref_clk" ∷ "system_pll2_div10" ∷ "system_pll1_div5" ∷ "system_pll1_div20"
        ∷ "system_pll3_clk" ∷ "ext_clk_2" ∷ "system_pll1_div10" ∷ "video_pll1_clk" ∷ [])
    ∷ root "pwm4_clk_root" 106 (
        "25m_ref_clk" ∷ "system_pll2_div10" ∷ "system_pll1_div5" ∷ "system_pll1_div20"
        ∷ "system_pll3_clk" ∷ "ext_clk_2" ∷ "system_pll1_div10" ∷ "video_pll1_clk" ∷ [])
    ∷ root "gpt1_clk_root" 107 (
        "25m_ref_clk" ∷ "system_pll2_div10" ∷ "system_pll1_div2" ∷ "system_pll1_div20"
        ∷ "video_pll1_clk" ∷ "system_pll1_div10" ∷ "audio_pll1_clk" ∷ "ext_clk_1" ∷ [])
    ∷ root "gpt2_clk_root" 108 (
        "25m_ref_clk" ∷ "system_pll2_div10" ∷ "system_pll1_div2" ∷ "system_pll1_div20"
        ∷ "video_pll1_clk" ∷ "system_pll1_div10" ∷ "audio_pll1_clk" ∷ "ext_clk_2" ∷ [])
    ∷ root "gpt3_clk_root" 109 (
        "25m_ref_clk" ∷ "system_pll2_div10" ∷ "system_pll1_div2" ∷ "system_pll1_div20"
        ∷ "video_pll1_clk" ∷ "system_pll1_div10" ∷ "audio_pll1_clk" ∷ "ext_clk_3" ∷ [])
    ∷ root "gpt4_clk_root" 110 (
        "25m_ref_clk" ∷ "system_pll2_div10" ∷ "system_pll1_div2" ∷ "system_pll1_div20"
        ∷ "video_pll1_clk" ∷ "system_pll1_div10" ∷ "audio_pll1_clk" ∷ "ext_clk_1" ∷ [])
    ∷ root "gpt5_clk_root" 111 (
        "25m_ref_clk" ∷ "system_pll2_div10" ∷ "system_pll1_div2" ∷ "system_pll1_div20"
        ∷ "video_pll1_clk" ∷ "system_pll1_div10" ∷ "audio_pll1_clk" ∷ "ext_clk_2" ∷ [])
    ∷ root "gpt6_clk_root" 112 (
        "25m_ref_clk" ∷ "system_pll2_div10" ∷ "system_pll1_div2" ∷ "system_pll1_div20"
        ∷ "video_pll1_clk" ∷ "system_pll1_div10" ∷ "audio_pll1_clk" ∷ "ext_clk_3" ∷ [])
    ∷ root "trace_clk_root" 113 (
        "25m_ref_clk" ∷ "system_pll1_div6" ∷ "system_pll1_div5" ∷ "vpu_pll_clk" ∷ "system_pll2_div8"
        ∷ "system_pll3_clk" ∷ "ext_clk_1" ∷ "ext_clk_3" ∷ [])
    ∷ root "wdog_clk_root" 114 (
        "25m_ref_clk" ∷ "system_pll1_div6" ∷ "system_pll1_div5" ∷ "vpu_pll_clk" ∷ "system_pll2_div8"
        ∷ "system_pll3_clk" ∷ "system_pll1_div10" ∷ "system_pll2_div6" ∷ [])
    ∷ root "wrclk_clk_root" 115 (
        "25m_ref_clk" ∷ "system_pll1_div20" ∷ "vpu_pll_clk" ∷ "system_pll3_clk" ∷ "system_pll2_div5"
        ∷ "system_pll1_div3" ∷ "system_pll2_div2" ∷ "system_pll1_div8" ∷ [])
    ∷ root "ipp_do_clko1_clk_root" 116 (
        "25m_ref_clk" ∷ "system_pll1_clk" ∷ "27m_ref_clk" ∷ "system_pll1_div4" ∷ "audio_pll2_clk"
        ∷ "system_pll2_div2" ∷ "vpu_pll_clk" ∷ "system_pll1_div10" ∷ [])
    ∷ root "ipp_do_clko2_clk_root" 117 (
        "25m_ref_clk" ∷ "system_pll2_div5" ∷ "system_pll1_div2" ∷ "system_pll2_div6"
        ∷ "system_pll3_clk" ∷ "audio_pll1_clk" ∷ "video_pll1_clk" ∷ "32k_ref_clk" ∷ [])
    ∷ root "mipi_dsi_core_clk_root" 118 (
        "25m_ref_clk" ∷ "system_pll1_div3" ∷ "system_pll2_div4" ∷ "system_pll1_clk"
        ∷ "system_pll2_clk" ∷ "system_pll3_clk" ∷ "audio_pll2_clk" ∷ "video_pll1_clk" ∷ [])
    ∷ root "mipi_dsi_phy_ref_clk_root" 119 (
        "25m_ref_clk" ∷ "system_pll2_div8" ∷ "system_pll2_div10" ∷ "system_pll1_clk"
        ∷ "system_pll2_clk" ∷ "ext_clk_2" ∷ "audio_pll2_clk" ∷ "video_pll1_clk" ∷ [])
    ∷ root "mipi_dsi_dbi_clk_root" 120 (
        "25m_ref_clk" ∷ "system_pll1_div3" ∷ "system_pll2_div10" ∷ "system_pll1_clk"
        ∷ "system_pll2_clk" ∷ "system_pll3_clk" ∷ "audio_pll2_clk" ∷ "video_pll1_clk" ∷ [])
    ∷ root "old_mipi_dsi_esc_clk_root" 121 (
        "25m_ref_clk" ∷ "system_pll2_div10" ∷ "system_pll1_div10" ∷ "system_pll1_clk"
        ∷ "system_pll2_clk" ∷ "system_pll3_clk" ∷ "ext_clk_3" ∷ "audio_pll2_clk" ∷ [])
    ∷ root "mipi_csi1_core_clk_root" 122 (
        "25m_ref_clk" ∷ "system_pll1_div3" ∷ "system_pll2_div4" ∷ "system_pll1_clk"
        ∷ "system_pll2_clk" ∷ "system_pll3_clk" ∷ "audio_pll2_clk" ∷ "video_pll1_clk" ∷ [])
    ∷ root "mipi_csi1_phy_ref_clk_root" 123 (
        "25m_ref_clk" ∷ "system_pll2_div3" ∷ "system_pll2_div10" ∷ "system_pll1_clk"
        ∷ "system_pll2_clk" ∷ "ext_clk_2" ∷ "audio_pll2_clk" ∷ "video_pll1_clk" ∷ [])
    ∷ root "mipi_csi1_esc_clk_root" 124 (
        "25m_ref_clk" ∷ "system_pll2_div10" ∷ "system_pll1_div10" ∷ "system_pll1_clk"
        ∷ "system_pll2_clk" ∷ "system_pll3_clk" ∷ "ext_clk_3" ∷ "audio_pll2_clk" ∷ [])
    ∷ root "mipi_csi2_core_clk_root" 125 (
        "25m_ref_clk" ∷ "system_pll1_div3" ∷ "system_pll2_div4" ∷ "system_pll1_clk"
        ∷ "system_pll2_clk" ∷ "system_pll3_clk" ∷ "audio_pll2_clk" ∷ "video_pll1_clk" ∷ [])
    ∷ root "mipi_csi2_phy_ref_clk_root" 126 (
        "25m_ref_clk" ∷ "system_pll2_div3" ∷ "system_pll2_div10" ∷ "system_pll1_clk"
        ∷ "system_pll2_clk" ∷ "ext_clk_2" ∷ "audio_pll2_clk" ∷ "video_pll1_clk" ∷ [])
    ∷ root "mipi_csi2_esc_clk_root" 127 (
        "25m_ref_clk" ∷ "system_pll2_div10" ∷ "system_pll1_div10" ∷ "system_pll1_clk"
        ∷ "system_pll2_clk" ∷ "system_pll3_clk" ∷ "ext_clk_3" ∷ "audio_pll2_clk" ∷ [])
    ∷ root "pcie2_ctrl_clk_root" 128 (
        "25m_ref_clk" ∷ "system_pll2_div4" ∷ "system_pll2_div5" ∷ "system_pll1_div3"
        ∷ "system_pll1_clk" ∷ "system_pll2_div2" ∷ "system_pll2_div3" ∷ "system_pll3_clk" ∷ [])
    ∷ root "pcie2_phy_clk_root" 129 (
        "25m_ref_clk" ∷ "system_pll2_div10" ∷ "system_pll2_div2" ∷ "ext_clk_1" ∷ "ext_clk_2"
        ∷ "ext_clk_3" ∷ "ext_clk_4" ∷ "system_pll1_div2" ∷ [])
    ∷ root "pcie2_aux_clk_root" 130 (
        "25m_ref_clk" ∷ "system_pll2_div5" ∷ "system_pll2_div20" ∷ "system_pll3_clk"
        ∷ "system_pll2_div10" ∷ "system_pll1_div10" ∷ "system_pll1_div5" ∷ "system_pll1_div4" ∷ [])
    ∷ root "ecspi3_clk_root" 131 (
        "25m_ref_clk" ∷ "system_pll2_div5" ∷ "system_pll1_div20" ∷ "system_pll1_div5"
        ∷ "system_pll1_clk" ∷ "system_pll3_clk" ∷ "system_pll2_div4" ∷ "audio_pll2_clk" ∷ [])
    ∷ root "old_mipi_dsi_esc_rx_clk_root" 132 (
        "25m_ref_clk" ∷ "system_pll2_div10" ∷ "system_pll1_div10" ∷ "system_pll1_clk"
        ∷ "system_pll2_clk" ∷ "system_pll3_clk" ∷ "ext_clk_3" ∷ "audio_pll2_clk" ∷ [])
    ∷ root "display_hdmi_clk_root" 133 (
        "25m_ref_clk" ∷ "system_pll1_div4" ∷ "system_pll2_div5" ∷ "vpu_pll_clk" ∷ "system_pll1_clk"
        ∷ "system_pll2_clk" ∷ "system_pll3_clk" ∷ "ext_clk_4" ∷ [])
    ∷ []
