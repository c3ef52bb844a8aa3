-- ===== src/Platform/Tree/Imx8mp/Sources.antt =====
-- The clocks that src/drivers/platform/imx8mp/ccm.h declares: fixed ones, PLLs and dividers, and gates, in their order.
use genode_imx.Base.{List, [], ◌∷◌}
use genode_imx.Platform.Tree.Clocks.{
  Clock, fixed, frac_pll1443, frac_pll1416, divider, root_divider, gate,
}

-- the fixed clocks, the PLLs and the fixed dividers
unfoldable pub imx8mp_sources : List Clock
imx8mp_sources =
    fixed "no_clk" 0
    ∷ fixed "32k_ref_clk" 32000
    ∷ fixed "24m_ref_clk" 24000000
    ∷ fixed "ext_clk_1" 133000000
    ∷ fixed "ext_clk_2" 133000000
    ∷ fixed "ext_clk_3" 133000000
    ∷ fixed "ext_clk_4" 133000000
    ∷ frac_pll1443 "audio_pll1_clk" 0x00
    ∷ frac_pll1443 "audio_pll2_clk" 0x14
    ∷ frac_pll1443 "video_pll1_clk" 0x28
    ∷ frac_pll1443 "dram_pll_clk" 0x50
    ∷ frac_pll1416 "gpu_pll_clk" 0x64
    ∷ frac_pll1416 "vpu_pll_clk" 0x74
    ∷ frac_pll1416 "arm_pll_clk" 0x84
    ∷ frac_pll1416 "system_pll1_clk" 0x94
    ∷ frac_pll1416 "system_pll2_clk" 0x104
    ∷ frac_pll1416 "system_pll3_clk" 0x114
    ∷ divider "system_pll1_div20" "system_pll1_clk" 20
    ∷ divider "system_pll1_div10" "system_pll1_clk" 10
    ∷ divider "system_pll1_div8" "system_pll1_clk" 8
    ∷ divider "system_pll1_div6" "system_pll1_clk" 6
    ∷ divider "system_pll1_div5" "system_pll1_clk" 5
    ∷ divider "system_pll1_div4" "system_pll1_clk" 4
    ∷ divider "system_pll1_div3" "system_pll1_clk" 3
    ∷ divider "system_pll1_div2" "system_pll1_clk" 2
    ∷ divider "system_pll2_div20" "system_pll2_clk" 20
    ∷ divider "system_pll2_div10" "system_pll2_clk" 10
    ∷ divider "system_pll2_div8" "system_pll2_clk" 8
    ∷ divider "system_pll2_div6" "system_pll2_clk" 6
    ∷ divider "system_pll2_div5" "system_pll2_clk" 5
    ∷ divider "system_pll2_div4" "system_pll2_clk" 4
    ∷ divider "system_pll2_div3" "system_pll2_clk" 3
    ∷ divider "system_pll2_div2" "system_pll2_clk" 2
    ∷ []

-- the divider behind a root clock, and the gates
unfoldable pub imx8mp_gates : List Clock
imx8mp_gates =
    root_divider "ipg_clk_root" 33 "ahb_clk_root"
    ∷ gate "debug_gate" 4 "ahb_clk_root"
    ∷ gate "dram1_gate" 5 "dram_alt_clk_root"
    ∷ gate "ecspi1_gate" 7 "ecspi1_clk_root"
    ∷ gate "ecspi2_gate" 8 "ecspi2_clk_root"
    ∷ gate "ecspi3_gate" 9 "ecspi3_clk_root"
    ∷ gate "enet1_gate" 10 "enet_ref_clk_root"
    ∷ gate "gpio1_gate" 11 "ipg_clk_root"
    ∷ gate "gpio2_gate" 12 "ipg_clk_root"
    ∷ gate "gpio3_gate" 13 "ipg_clk_root"
    ∷ gate "gpio4_gate" 14 "ipg_clk_root"
    ∷ gate "gpio5_gate" 15 "ipg_clk_root"
    ∷ gate "gpt1_gate" 16 "gpt1_clk_root"
    ∷ gate "gpt2_gate" 17 "gpt2_clk_root"
    ∷ gate "gpt3_gate" 18 "gpt3_clk_root"
    ∷ gate "gpt4_gate" 19 "gpt4_clk_root"
    ∷ gate "gpt5_gate" 20 "gpt5_clk_root"
    ∷ gate "gpt6_gate" 21 "gpt6_clk_root"
    ∷ gate "i2c1_gate" 23 "i2c1_clk_root"
    ∷ gate "i2c2_gate" 24 "i2c2_clk_root"
    ∷ gate "i2c3_gate" 25 "i2c3_clk_root"
    ∷ gate "i2c4_gate" 26 "i2c4_clk_root"
    ∷ gate "iomux_gate" 27 "ipg_clk_root"
    ∷ gate "ipmux1_gate" 28 "ahb_clk_root"
    ∷ gate "ipmux2_gate" 29 "ahb_clk_root"
    ∷ gate "ipmux3_gate" 30 "ahb_clk_root"
    ∷ gate "mu_gate" 33 "ipg_clk_root"
    ∷ gate "ocotp_gate" 34 "ipg_clk_root"
    ∷ gate "ocram_gate" 35 "main_axi_clk_root"
    ∷ gate "ocram_s_gate" 36 "ahb_clk_root"
    ∷ gate "pcie_gate" 37 "pcie_aux_clk_root"
    ∷ gate "pwm1_gate" 40 "pwm1_clk_root"
    ∷ gate "pwm2_gate" 41 "pwm2_clk_root"
    ∷ gate "pwm3_gate" 42 "pwm3_clk_root"
    ∷ gate "pwm4_gate" 43 "pwm4_clk_root"
    ∷ gate "qos_enet_gate" 46 "enet_qos_clk_root"
    ∷ gate "flexspi_gate" 47 "ahb_clk_root"
    ∷ gate "rawnand_gate" 48 "nand_clk_root"
    ∷ gate "rdc_gate" 49 "ipg_clk_root"
    ∷ gate "i2c5_gate" 51 "i2c5_clk_root"
    ∷ gate "i2c6_gate" 52 "i2c6_clk_root"
    ∷ gate "can1_gate" 53 "can1_clk_root"
    ∷ gate "can2_gate" 54 "can2_clk_root"
    ∷ gate "sctr_gate" 57 "ipg_clk_root"
    ∷ gate "sdma1_gate" 58 "ipg_clk_root"
    ∷ gate "enet_qos_gate" 59 "enet_axi_clk_root"
    ∷ gate "sema1_gate" 61 "ipg_clk_root"
    ∷ gate "sema2_gate" 62 "ipg_clk_root"
    ∷ gate "irq_steer_gate" 63 "ipg_clk_root"
    ∷ gate "gpu2d_gate" 69 "gpu2d_clk_root"
    ∷ gate "gpu3d_gate" 70 "gpu_axi_clk_root"
    ∷ gate "snvs_gate" 71 "ipg_clk_root"
    ∷ gate "trace_gate" 72 "trace_clk_root"
    ∷ gate "uart1_gate" 73 "uart1_clk_root"
    ∷ gate "uart2_gate" 74 "uart2_clk_root"
    ∷ gate "uart3_gate" 75 "uart3_clk_root"
    ∷ gate "uart4_gate" 76 "uart4_clk_root"
    ∷ gate "usdhc1_gate" 81 "usdhc1_clk_root"
    ∷ gate "usdhc2_gate" 82 "usdhc2_clk_root"
    ∷ gate "wdog1_gate" 83 "wdog_clk_root"
    ∷ gate "wdog2_gate" 84 "wdog_clk_root"
    ∷ gate "wdog3_gate" 85 "wdog_clk_root"
    ∷ gate "vpu_g1_gate" 86 "vpu_g1_clk_root"
    ∷ gate "gpu_gate" 87 "gpu_ahb_clk_root"
    ∷ gate "vpu_vc8ke_gate" 89 "vpu_vc8000e_clk_root"
    ∷ gate "vpu_g2_gate" 90 "vpu_g2_clk_root"
    ∷ gate "npu_gate" 91 "ml_ahb_clk_root"
    ∷ gate "hsio_gate" 92 "hsio_axi_clk_root"
    ∷ gate "media_gate" 93 "media_mipi_phy1_ref_clk_root"
    ∷ gate "usdhc3_gate" 94 "usdhc3_clk_root"
    ∷ gate "hdmi_gate" 95 "hdmi_apb_clk_root"
    ∷ gate "vpu_gate" 99 "vpu_bus_clk_root"
    ∷ gate "mrpr_gate" 100 "ipg_clk_root"
    ∷ gate "audio_gate" 101 "audio_ahb_clk_root"
    ∷ []
