-- ===== src/Platform/Tree/RootsB.antt =====
-- The clocks that src/drivers/platform/imx8mq/ccm.h declares: the second third of the root clocks, in their order.
use genode_imx.Base.{List, [], ◌∷◌}
use genode_imx.Platform.Tree.Clocks.{Clock, root}

-- from "lcdif_pixel_clk_root" to "pwm1_clk_root"
unfoldable pub roots_b : List Clock
roots_b =
    root "lcdif_pixel_clk_root" 74 (
      "25m_ref_clk" ∷ "video_pll1_clk" ∷ "audio_pll2_clk" ∷ "audio_pll1_clk" ∷ "system_pll1_clk"
      ∷ "system_pll2_clk" ∷ "system_pll3_clk" ∷ "ext_clk_4" ∷ [])
    ∷ root "sai1_clk_root" 75 (
        "25m_ref_clk" ∷ "audio_pll1_clk" ∷ "audio_pll2_clk" ∷ "video_pll1_clk" ∷ "system_pll1_div6"
        ∷ "27m_ref_clk" ∷ "ext_clk_1" ∷ "ext_clk_2" ∷ [])
    ∷ root "sai2_clk_root" 76 (
        "25m_ref_clk" ∷ "audio_pll1_clk" ∷ "audio_pll2_clk" ∷ "video_pll1_clk" ∷ "system_pll1_div6"
        ∷ "27m_ref_clk" ∷ "ext_clk_2" ∷ "ext_clk_3" ∷ [])
    ∷ root "sai3_clk_root" 77 (
        "25m_ref_clk" ∷ "audio_pll1_clk" ∷ "audio_pll2_clk" ∷ "video_pll1_clk" ∷ "system_pll1_div6"
        ∷ "27m_ref_clk" ∷ "ext_clk_3" ∷ "ext_clk_4" ∷ [])
    ∷ root "sai4_clk_root" 78 (
        "25m_ref_clk" ∷ "audio_pll1_clk" ∷ "audio_pll2_clk" ∷ "video_pll1_clk" ∷ "system_pll1_div6"
        ∷ "27m_ref_clk" ∷ "ext_clk_1" ∷ "ext_clk_2" ∷ [])
    ∷ root "sai5_clk_root" 79 (
        "25m_ref_clk" ∷ "audio_pll1_clk" ∷ "audio_pll2_clk" ∷ "video_pll1_clk" ∷ "system_pll1_div6"
        ∷ "27m_ref_clk" ∷ "ext_clk_2" ∷ "ext_clk_3" ∷ [])
    ∷ root "sai6_clk_root" 80 (
        "25m_ref_clk" ∷ "audio_pll1_clk" ∷ "audio_pll2_clk" ∷ "video_pll1_clk" ∷ "system_pll1_div6"
        ∷ "27m_ref_clk" ∷ "ext_clk_3" ∷ "ext_clk_4" ∷ [])
    ∷ root "spdif1_clk_root" 81 (
        "25m_ref_clk" ∷ "audio_pll1_clk" ∷ "audio_pll2_clk" ∷ "video_pll1_clk" ∷ "system_pll1_div6"
        ∷ "27m_ref_clk" ∷ "ext_clk_2" ∷ "ext_clk_3" ∷ [])
    ∷ root "spdif2_clk_root" 82 (
        "25m_ref_clk" ∷ "audio_pll1_clk" ∷ "audio_pll2_clk" ∷ "video_pll1_clk" ∷ "system_pll1_div6"
        ∷ "27m_ref_clk" ∷ "ext_clk_3" ∷ "ext_clk_4" ∷ [])
    ∷ root "enet_ref_clk_root" 83 (
        "25m_ref_clk" ∷ "system_pll2_div8" ∷ "system_pll2_div20" ∷ "system_pll2_div10"
        ∷ "system_pll1_div5" ∷ "audio_pll1_clk" ∷ "video_pll1_clk" ∷ "ext_clk_4" ∷ [])
    ∷ root "enet_timer_clk_root" 84 (
        "25m_ref_clk" ∷ "system_pll2_div10" ∷ "audio_pll1_clk" ∷ "ext_clk_1" ∷ "ext_clk_2"
        ∷ "ext_clk_3" ∷ "ext_clk_4" ∷ "video_pll1_clk" ∷ [])
    ∷ root "enet_phy_ref_clk_root" 85 (
        "25m_ref_clk" ∷ "system_pll2_div20" ∷ "system_pll2_div8" ∷ "system_pll2_div5"
        ∷ "system_pll2_div2" ∷ "audio_pll1_clk" ∷ "video_pll1_clk" ∷ "audio_pll2_clk" ∷ [])
    ∷ root "nand_clk_root" 86 (
        "25m_ref_clk" ∷ "system_pll2_div2" ∷ "audio_pll1_clk" ∷ "system_pll1_div2"
        ∷ "audio_pll2_clk" ∷ "system_pll3_clk" ∷ "system_pll2_div4" ∷ "video_pll1_clk" ∷ [])
    ∷ root "qspi_clk_root" 87 (
        "25m_ref_clk" ∷ "system_pll1_div2" ∷ "system_pll1_clk" ∷ "system_pll2_div2"
        ∷ "audio_pll2_clk" ∷ "system_pll1_div3" ∷ "system_pll3_clk" ∷ "system_pll1_div8" ∷ [])
    ∷ root "usdhc1_clk_root" 88 (
        "25m_ref_clk" ∷ "system_pll1_div2" ∷ "system_pll1_clk" ∷ "system_pll2_div2"
        ∷ "system_pll3_clk" ∷ "system_pll1_div3" ∷ "audio_pll2_clk" ∷ "system_pll1_div8" ∷ [])
    ∷ root "usdhc2_clk_root" 89 (
        "25m_ref_clk" ∷ "system_pll1_div2" ∷ "system_pll1_clk" ∷ "system_pll2_div2"
        ∷ "system_pll3_clk" ∷ "system_pll1_div3" ∷ "audio_pll2_clk" ∷ "system_pll1_div8" ∷ [])
    ∷ root "i2c1_clk_root" 90 (
        "25m_ref_clk" ∷ "system_pll1_div5" ∷ "system_pll2_div20" ∷ "system_pll3_clk"
        ∷ "audio_pll1_clk" ∷ "video_pll1_clk" ∷ "audio_pll2_clk" ∷ "system_pll1_div6" ∷ [])
    ∷ root "i2c2_clk_root" 91 (
        "25m_ref_clk" ∷ "system_pll1_div5" ∷ "system_pll2_div20" ∷ "system_pll3_clk"
        ∷ "audio_pll1_clk" ∷ "video_pll1_clk" ∷ "audio_pll2_clk" ∷ "system_pll1_div6" ∷ [])
    ∷ root "i2c3_clk_root" 92 (
        "25m_ref_clk" ∷ "system_pll1_div5" ∷ "system_pll2_div20" ∷ "system_pll3_clk"
        ∷ "audio_pll1_clk" ∷ "video_pll1_clk" ∷ "audio_pll2_clk" ∷ "system_pll1_div6" ∷ [])
    ∷ root "i2c4_clk_root" 93 (
        "25m_ref_clk" ∷ "system_pll1_div5" ∷ "system_pll2_div20" ∷ "system_pll3_clk"
        ∷ "audio_pll1_clk" ∷ "video_pll1_clk" ∷ "audio_pll2_clk" ∷ "system_pll1_div6" ∷ [])
    ∷ root "uart1_clk_root" 94 (
        "25m_ref_clk" ∷ "system_pll1_div10" ∷ "system_pll2_div5" ∷ "system_pll2_div10"
        ∷ "system_pll3_clk" ∷ "ext_clk_2" ∷ "ext_clk_4" ∷ "audio_pll2_clk" ∷ [])
    ∷ root "uart2_clk_root" 95 (
        "25m_ref_clk" ∷ "system_pll1_div10" ∷ "system_pll2_div5" ∷ "system_pll2_div10"
        ∷ "system_pll3_clk" ∷ "ext_clk_2" ∷ "ext_clk_3" ∷ "audio_pll2_clk" ∷ [])
    ∷ root "uart3_clk_root" 96 (
        "25m_ref_clk" ∷ "system_pll1_div10" ∷ "system_pll2_div5" ∷ "system_pll2_div10"
        ∷ "system_pll3_clk" ∷ "ext_clk_2" ∷ "ext_clk_4" ∷ "audio_pll2_clk" ∷ [])
    ∷ root "uart4_clk_root" 97 (
        "25m_ref_clk" ∷ "system_pll1_div10" ∷ "system_pll2_div5" ∷ "system_pll2_div10"
        ∷ "system_pll3_clk" ∷ "ext_clk_2" ∷ "ext_clk_3" ∷ "audio_pll2_clk" ∷ [])
    ∷ root "usb_core_ref_clk_root" 98 (
        "25m_ref_clk" ∷ "system_pll1_div8" ∷ "system_pll1_div20" ∷ "system_pll2_div10"
        ∷ "system_pll2_div5" ∷ "ext_clk_2" ∷ "ext_clk_3" ∷ "audio_pll2_clk" ∷ [])
    ∷ root "usb_phy_ref_clk_root" 99 (
        "25m_ref_clk" ∷ "system_pll1_div8" ∷ "system_pll1_div20" ∷ "system_pll2_div10"
        ∷ "system_pll2_div5" ∷ "ext_clk_2" ∷ "ext_clk_3" ∷ "audio_pll2_clk" ∷ [])
    ∷ root "gic_clk_root" 100 (
        "25m_ref_clk" ∷ "system_pll2_div5" ∷ "system_pll1_div20" ∷ "system_pll2_div10"
        ∷ "system_pll1_clk" ∷ "ext_clk_2" ∷ "ext_clk_4" ∷ "audio_pll2_clk" ∷ [])
    ∷ root "ecspi1_clk_root" 101 (
        "25m_ref_clk" ∷ "system_pll2_div5" ∷ "system_pll1_div20" ∷ "system_pll1_div5"
        ∷ "system_pll1_clk" ∷ "system_pll3_clk" ∷ "system_pll2_div4" ∷ "audio_pll2_clk" ∷ [])
    ∷ root "ecspi2_clk_root" 102 (
        "25m_ref_clk" ∷ "system_pll2_div5" ∷ "system_pll1_div20" ∷ "system_pll1_div5"
        ∷ "system_pll1_clk" ∷ "system_pll3_clk" ∷ "system_pll2_div4" ∷ "audio_pll2_clk" ∷ [])
    ∷ root "pwm1_clk_root" 103 (
        "25m_ref_clk" ∷ "system_pll2_div10" ∷ "system_pll1_div5" ∷ "system_pll1_div20"
        ∷ "system_pll3_clk" ∷ "ext_clk_1" ∷ "system_pll1_div10" ∷ "video_pll1_clk" ∷ [])
    ∷ []
