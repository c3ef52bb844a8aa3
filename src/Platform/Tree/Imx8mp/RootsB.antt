-- ===== src/Platform/Tree/Imx8mp/RootsB.antt =====
-- The clocks that src/drivers/platform/imx8mp/ccm.h declares: the second third of the root clocks, in their order.
use genode_imx.Base.{List, [], ◌∷◌}
use genode_imx.Platform.Tree.Clocks.{Clock, root}

-- from "can1_clk_root" to "gic_clk_root"
unfoldable pub imx8mp_roots_b : List Clock
imx8mp_roots_b =
    root "can1_clk_root" 68 (
      "24m_ref_clk" ∷ "system_pll2_div5" ∷ "system_pll1_div20" ∷ "system_pll1_div5"
      ∷ "system_pll1_clk" ∷ "system_pll3_clk" ∷ "system_pll2_div4" ∷ "audio_pll2_clk" ∷ [])
    ∷ root "can2_clk_root" 69 (
        "24m_ref_clk" ∷ "system_pll2_div5" ∷ "system_pll1_div20" ∷ "system_pll1_div5"
        ∷ "system_pll1_clk" ∷ "system_pll3_clk" ∷ "system_pll2_div4" ∷ "audio_pll2_clk" ∷ [])
    ∷ root "memrepair_clk_root" 70 (
        "24m_ref_clk" ∷ "system_pll1_div5" ∷ "system_pll2_div20" ∷ "system_pll3_clk"
        ∷ "audio_pll1_clk" ∷ "video_pll1_clk" ∷ "audio_pll2_clk" ∷ "system_pll1_div6" ∷ [])
    ∷ root "pcie_phy_clk_root" 71 (
        "24m_ref_clk" ∷ "system_pll2_div10" ∷ "system_pll2_div2" ∷ "ext_clk_1" ∷ "ext_clk_2"
        ∷ "ext_clk_3" ∷ "ext_clk_4" ∷ "system_pll1_div2" ∷ [])
    ∷ root "pcie_aux_clk_root" 72 (
        "24m_ref_clk" ∷ "system_pll2_div5" ∷ "system_pll2_div20" ∷ "system_pll3_clk"
        ∷ "system_pll2_div10" ∷ "system_pll1_div10" ∷ "system_pll1_div5" ∷ "system_pll1_div4" ∷ [])
    ∷ root "i2c5_clk_root" 73 (
        "24m_ref_clk" ∷ "system_pll1_div5" ∷ "system_pll2_div20" ∷ "system_pll3_clk"
        ∷ "audio_pll1_clk" ∷ "video_pll1_clk" ∷ "audio_pll2_clk" ∷ "system_pll1_div6" ∷ [])
    ∷ root "i2c6_clk_root" 74 (
        "24m_ref_clk" ∷ "system_pll1_div5" ∷ "system_pll2_div20" ∷ "system_pll3_clk"
        ∷ "audio_pll1_clk" ∷ "video_pll1_clk" ∷ "audio_pll2_clk" ∷ "system_pll1_div6" ∷ [])
    ∷ root "sai1_clk_root" 75 (
        "24m_ref_clk" ∷ "audio_pll1_clk" ∷ "audio_pll2_clk" ∷ "video_pll1_clk" ∷ "system_pll1_div6"
        ∷ "no_clk" ∷ "ext_clk_1" ∷ "ext_clk_2" ∷ [])
    ∷ root "sai2_clk_root" 76 (
        "24m_ref_clk" ∷ "audio_pll1_clk" ∷ "audio_pll2_clk" ∷ "video_pll1_clk" ∷ "system_pll1_div6"
        ∷ "no_clk" ∷ "ext_clk_2" ∷ "ext_clk_3" ∷ [])
    ∷ root "sai3_clk_root" 77 (
        "24m_ref_clk" ∷ "audio_pll1_clk" ∷ "audio_pll2_clk" ∷ "video_pll1_clk" ∷ "system_pll1_div6"
        ∷ "no_clk" ∷ "ext_clk_3" ∷ "ext_clk_4" ∷ [])
    ∷ root "sai5_clk_root" 79 (
        "24m_ref_clk" ∷ "audio_pll1_clk" ∷ "audio_pll2_clk" ∷ "video_pll1_clk" ∷ "system_pll1_div6"
        ∷ "no_clk" ∷ "ext_clk_2" ∷ "ext_clk_3" ∷ [])
    ∷ root "sai6_clk_root" 80 (
        "24m_ref_clk" ∷ "audio_pll1_clk" ∷ "audio_pll2_clk" ∷ "video_pll1_clk" ∷ "system_pll1_div6"
        ∷ "no_clk" ∷ "ext_clk_3" ∷ "ext_clk_4" ∷ [])
    ∷ root "enet_qos_clk_root" 81 (
        "24m_ref_clk" ∷ "system_pll2_div8" ∷ "system_pll2_div20" ∷ "system_pll2_div10"
        ∷ "system_pll1_div5" ∷ "audio_pll1_clk" ∷ "video_pll1_clk" ∷ "ext_clk_4" ∷ [])
    ∷ root "enet_qos_timer_clk_root" 82 (
        "24m_ref_clk" ∷ "system_pll2_div10" ∷ "audio_pll1_clk" ∷ "ext_clk_1" ∷ "ext_clk_2"
        ∷ "ext_clk_3" ∷ "ext_clk_4" ∷ "video_pll1_clk" ∷ [])
    ∷ root "enet_ref_clk_root" 83 (
        "24m_ref_clk" ∷ "system_pll2_div8" ∷ "system_pll2_div20" ∷ "system_pll2_div10"
        ∷ "system_pll1_div5" ∷ "audio_pll1_clk" ∷ "video_pll1_clk" ∷ "ext_clk_4" ∷ [])
    ∷ root "enet_timer_clk_root" 84 (
        "24m_ref_clk" ∷ "system_pll2_div10" ∷ "audio_pll1_clk" ∷ "ext_clk_1" ∷ "ext_clk_2"
        ∷ "ext_clk_3" ∷ "ext_clk_4" ∷ "video_pll1_clk" ∷ [])
    ∷ root "enet_phy_ref_clk_root" 85 (
        "24m_ref_clk" ∷ "system_pll2_div20" ∷ "system_pll2_div8" ∷ "system_pll2_div5"
        ∷ "system_pll2_div2" ∷ "audio_pll1_clk" ∷ "video_pll1_clk" ∷ "audio_pll2_clk" ∷ [])
    ∷ root "nand_clk_root" 86 (
        "24m_ref_clk" ∷ "system_pll2_div2" ∷ "audio_pll1_clk" ∷ "system_pll1_div2"
        ∷ "audio_pll2_clk" ∷ "system_pll3_clk" ∷ "system_pll2_div4" ∷ "video_pll1_clk" ∷ [])
    ∷ root "qspi_clk_root" 87 (
        "24m_ref_clk" ∷ "system_pll1_div2" ∷ "system_pll2_div3" ∷ "system_pll2_div2"
        ∷ "audio_pll2_clk" ∷ "system_pll1_div3" ∷ "system_pll3_clk" ∷ "system_pll1_div8" ∷ [])
    ∷ root "usdhc1_clk_root" 88 (
        "24m_ref_clk" ∷ "system_pll1_div2" ∷ "system_pll1_clk" ∷ "system_pll2_div2"
        ∷ "system_pll3_clk" ∷ "system_pll1_div3" ∷ "audio_pll2_clk" ∷ "system_pll1_div8" ∷ [])
    ∷ root "usdhc2_clk_root" 89 (
        "24m_ref_clk" ∷ "system_pll1_div2" ∷ "system_pll1_clk" ∷ "system_pll2_div2"
        ∷ "system_pll3_clk" ∷ "system_pll1_div3" ∷ "audio_pll2_clk" ∷ "system_pll1_div8" ∷ [])
    ∷ root "i2c1_clk_root" 90 (
        "24m_ref_clk" ∷ "system_pll1_div5" ∷ "system_pll2_div20" ∷ "system_pll3_clk"
        ∷ "audio_pll1_clk" ∷ "video_pll1_clk" ∷ "audio_pll2_clk" ∷ "system_pll1_div6" ∷ [])
    ∷ root "i2c2_clk_root" 91 (
        "24m_ref_clk" ∷ "system_pll1_div5" ∷ "system_pll2_div20" ∷ "system_pll3_clk"
        ∷ "audio_pll1_clk" ∷ "video_pll1_clk" ∷ "audio_pll2_clk" ∷ "system_pll1_div6" ∷ [])
    ∷ root "i2c3_clk_root" 92 (
        "24m_ref_clk" ∷ "system_pll1_div5" ∷ "system_pll2_div20" ∷ "system_pll3_clk"
        ∷ "audio_pll1_clk" ∷ "video_pll1_clk" ∷ "audio_pll2_clk" ∷ "system_pll1_div6" ∷ [])
    ∷ root "i2c4_clk_root" 93 (
        "24m_ref_clk" ∷ "system_pll1_div5" ∷ "system_pll2_div20" ∷ "system_pll3_clk"
        ∷ "audio_pll1_clk" ∷ "video_pll1_clk" ∷ "audio_pll2_clk" ∷ "system_pll1_div6" ∷ [])
    ∷ root "uart1_clk_root" 94 (
        "24m_ref_clk" ∷ "system_pll1_div10" ∷ "system_pll2_div5" ∷ "system_pll2_div10"
        ∷ "system_pll3_clk" ∷ "ext_clk_2" ∷ "ext_clk_4" ∷ "audio_pll2_clk" ∷ [])
    ∷ root "uart2_clk_root" 95 (
        "24m_ref_clk" ∷ "system_pll1_div10" ∷ "system_pll2_div5" ∷ "system_pll2_div10"
        ∷ "system_pll3_clk" ∷ "ext_clk_2" ∷ "ext_clk_3" ∷ "audio_pll2_clk" ∷ [])
    ∷ root "uart3_clk_root" 96 (
        "24m_ref_clk" ∷ "system_pll1_div10" ∷ "system_pll2_div5" ∷ "system_pll2_div10"
        ∷ "system_pll3_clk" ∷ "ext_clk_2" ∷ "ext_clk_4" ∷ "audio_pll2_clk" ∷ [])
    ∷ root "uart4_clk_root" 97 (
        "24m_ref_clk" ∷ "system_pll1_div10" ∷ "system_pll2_div5" ∷ "system_pll2_div10"
        ∷ "system_pll3_clk" ∷ "ext_clk_2" ∷ "ext_clk_3" ∷ "audio_pll2_clk" ∷ [])
    ∷ root "gic_clk_root" 100 (
        "24m_ref_clk" ∷ "system_pll2_div5" ∷ "system_pll1_div20" ∷ "system_pll2_div10"
        ∷ "system_pll1_clk" ∷ "system_pll2_div2" ∷ "ext_clk_4" ∷ "audio_pll2_clk" ∷ [])
    ∷ []
