-- ===== src/Platform/Tree/Sources.antt =====
-- The clocks that src/drivers/platform/imx8mq/ccm.h declares: fixed ones, PLLs and dividers, and gates, in their order.
use genode_imx.Base.{List, [], ◌∷◌}
use genode_imx.Platform.Tree.Clocks.{Clock, fixed, frac_pll, sccg_pll, divider, root_divider, gate}

-- the fixed clocks, the PLLs and the fixed dividers
unfoldable pub sources : List Clock
sources =
    fixed "no_clk" 0
    ∷ fixed "32k_ref_clk" 32000
    ∷ fixed "25m_ref_clk" 25000000
    ∷ fixed "27m_ref_clk" 27000000
    ∷ fixed "hdmi_phy_27m_clk" 27000000
    ∷ fixed "ext_clk_1" 133000000
    ∷ fixed "ext_clk_2" 133000000
    ∷ fixed "ext_clk_3" 133000000
    ∷ fixed "ext_clk_4" 133000000
    ∷ frac_pll "audio_pll1_clk" 0
    ∷ frac_pll "audio_pll2_clk" 1
    ∷ frac_pll "video_pll1_clk" 2
    ∷ frac_pll "gpu_pll_clk" 3
    ∷ frac_pll "vpu_pll_clk" 4
    ∷ frac_pll "arm_pll_clk" 5
    ∷ sccg_pll "system_pll1_clk" 0
    ∷ sccg_pll "system_pll2_clk" 1
    ∷ sccg_pll "system_pll3_clk" 2
    ∷ sccg_pll "video_pll2_clk" 3
    ∷ sccg_pll "dram_pll_clk" 4
    ∷ divider "system_pll1_div20" "system_pll1_clk" 20
    ∷ divider "system_pll1_div10" "system_pll1_clk" 10
    ∷ divider "system_pll1_div8" "system_pll1_clk" 8
    ∷ divider "system_pll1_div6" "system_pll1_clk" 6
    ∷ divider "system_pll1_div5" "system_pll1_clk" 5
    ∷ divider "system_pll1_div4" "system_pll1_clk" 4
    ∷ divider "system_pll1_div3" "system_pll1_clk" 3
    ∷ divider "system_pll1_div2" "system_pll1_clk" 2
    ∷ divider "system_pll2_div20" "system_pll2_clk" 20
    ∷ divider "system_pll2_div10" "system_pll2_clk" 10
    ∷ divider "system_pll2_div8" "system_pll2_clk" 8
    ∷ divider "system_pll2_div6" "system_pll2_clk" 6
    ∷ divider "system_pll2_div5" "system_pll2_clk" 5
    ∷ divider "system_pll2_div4" "system_pll2_clk" 4
    ∷ divider "system_pll2_div3" "system_pll2_clk" 3
    ∷ divider "system_pll2_div2" "system_pll2_clk" 2
    ∷ []

-- the dividers behind root clocks, and the gates
unfoldable pub gates : List Clock
gates =
    root_divider "ipg_clk_root" 33 "ahb_clk_root"
    ∷ root_divider "ipg_audio_clk_root" 35 "audio_ahb_clk_root"
    ∷ root_divider "mipi_dsi_esc_clk_root" 37 "mipi_dsi_esc_rx_clk_root"
    ∷ gate "ecspi1_gate" 7 "ecspi1_clk_root"
    ∷ gate "ecspi2_gate" 8 "ecspi2_clk_root"
    ∷ gate "ecspi3_gate" 9 "ecspi3_clk_root"
    ∷ gate "enet1_gate" 10 "enet_axi_clk_root"
    ∷ gate "gpt1_gate" 16 "gpt1_clk_root"
    ∷ gate "i2c1_gate" 23 "i2c1_clk_root"
    ∷ gate "i2c2_gate" 24 "i2c2_clk_root"
    ∷ gate "i2c3_gate" 25 "i2c3_clk_root"
    ∷ gate "i2c4_gate" 26 "i2c4_clk_root"
    ∷ gate "mu_gate" 33 "ipg_clk_root"
    ∷ gate "ocotp_gate" 34 "ipg_clk_root"
    ∷ gate "pcie_gate" 37 "pcie1_ctrl_clk_root"
    ∷ gate "pwm1_gate" 40 "pwm1_clk_root"
    ∷ gate "pwm2_gate" 41 "pwm2_clk_root"
    ∷ gate "pwm3_gate" 42 "pwm3_clk_root"
    ∷ gate "pwm4_gate" 43 "pwm4_clk_root"
    ∷ gate "qspi_gate" 47 "qspi_clk_root"
    ∷ gate "nand_gate" 48 "nand_clk_root"
    ∷ gate "sai1_gate" 51 "sai1_clk_root"
    ∷ gate "sai2_gate" 52 "sai2_clk_root"
    ∷ gate "sai3_gate" 53 "sai3_clk_root"
    ∷ gate "sai4_gate" 54 "sai4_clk_root"
    ∷ gate "sai5_gate" 55 "sai5_clk_root"
    ∷ gate "sai6_gate" 56 "sai6_clk_root"
    ∷ gate "sdma1_gate" 58 "ipg_clk_root"
    ∷ gate "sdma2_gate" 59 "ipg_audio_clk_root"
    ∷ gate "uart1_gate" 73 "uart1_clk_root"
    ∷ gate "uart2_gate" 74 "uart2_clk_root"
    ∷ gate "uart3_gate" 75 "uart3_clk_root"
    ∷ gate "uart4_gate" 76 "uart4_clk_root"
    ∷ gate "usb_ctrl1_gate" 77 "usb_core_ref_clk_root"
    ∷ gate "usb_ctrl2_gate" 78 "usb_core_ref_clk_root"
    ∷ gate "usb_phy1_gate" 79 "usb_phy_ref_clk_root"
    ∷ gate "usb_phy2_gate" 80 "usb_phy_ref_clk_root"
    ∷ gate "usdhc1_gate" 81 "usdhc1_clk_root"
    ∷ gate "usdhc2_gate" 82 "usdhc2_clk_root"
    ∷ gate "wdog1_gate" 83 "wdog_clk_root"
    ∷ gate "wdog2_gate" 84 "wdog_clk_root"
    ∷ gate "wdog3_gate" 85 "wdog_clk_root"
    ∷ gate "va53_gate" 86 "vpu_g1_clk_root"
    ∷ gate "gpu_gate" 87 "gpu_core_clk_root"
    ∷ gate "vp9_gate" 90 "vpu_g2_clk_root"
    ∷ gate "display_gate" 93 "display_dc8000_clk_root"
    ∷ gate "tempsensor_gate" 98 "ipg_clk_root"
    ∷ gate "vpu_dec_gate" 99 "vpu_bus_clk_root"
    ∷ gate "pcie2_gate" 100 "pcie2_ctrl_clk_root"
    ∷ gate "mipi_csi1_gate" 101 "mipi_csi1_core_clk_root"
    ∷ gate "mipi_csi2_gate" 102 "mipi_csi2_core_clk_root"
    ∷ []
