-- ===== src/Platform/Tree/Imx8mp/RootsC.antt =====
-- The clocks that src/drivers/platform/imx8mp/ccm.h declares: the last third of the root clocks, in their order.
use genode_imx.Base.{List, [], ◌∷◌}
use genode_imx.Platform.Tree.Clocks.{Clock, root}

-- from "ecspi1_clk_root" to "sai7_clk_root"
unfoldable pub imx8mp_roots_c : List Clock
imx8mp_roots_c =
    root "ecspi1_clk_root" 101 (
      "24m_ref_clk" ∷ "system_pll2_div5" ∷ "system_pll1_div20" ∷ "system_pll1_div5"
      ∷ "system_pll1_clk" ∷ "system_pll3_clk" ∷ "system_pll2_div4" ∷ "audio_pll2_clk" ∷ [])
    ∷ root "ecspi2_clk_root" 102 (
        "24m_ref_clk" ∷ "system_pll2_div5" ∷ "system_pll1_div20" ∷ "system_pll1_div5"
        ∷ "system_pll1_clk" ∷ "system_pll3_clk" ∷ "system_pll2_div4" ∷ "audio_pll2_clk" ∷ [])
    ∷ root "pwm1_clk_root" 103 (
        "24m_ref_clk" ∷ "system_pll2_div10" ∷ "system_pll1_div5" ∷ "system_pll1_div20"
        ∷ "system_pll3_clk" ∷ "ext_clk_1" ∷ "system_pll1_div10" ∷ "video_pll1_clk" ∷ [])
    ∷ root "pwm2_clk_root" 104 (
        "24m_ref_clk" ∷ "system_pll2_div10" ∷ "system_pll1_div5" ∷ "system_pll1_div20"
        ∷ "system_pll3_clk" ∷ "ext_clk_1" ∷ "system_pll1_div10" ∷ "video_pll1_clk" ∷ [])
    ∷ root "pwm3_clk_root" 105 (
        "24m_ref_clk" ∷ "system_pll2_div10" ∷ "system_pll1_div5" ∷ "system_pll1_div20"
        ∷ "system_pll3_clk" ∷ "ext_clk_2" ∷ "system_pll1_div10" ∷ "video_pll1_clk" ∷ [])
    ∷ root "pwm4_clk_root" 106 (
        "24m_ref_clk" ∷ "system_pll2_div10" ∷ "system_pll1_div5" ∷ "system_pll1_div20"
        ∷ "system_pll3_clk" ∷ "ext_clk_2" ∷ "system_pll1_div10" ∷ "video_pll1_clk" ∷ [])
    ∷ root "gpt1_clk_root" 107 (
        "24m_ref_clk" ∷ "system_pll2_div10" ∷ "system_pll1_div2" ∷ "system_pll1_div20"
        ∷ "video_pll1_clk" ∷ "system_pll1_div10" ∷ "audio_pll1_clk" ∷ "ext_clk_1" ∷ [])
    ∷ root "gpt2_clk_root" 108 (
        "24m_ref_clk" ∷ "system_pll2_div10" ∷ "system_pll1_div2" ∷ "system_pll1_div20"
        ∷ "video_pll1_clk" ∷ "system_pll1_div10" ∷ "audio_pll1_clk" ∷ "ext_clk_2" ∷ [])
    ∷ root "gpt3_clk_root" 109 (
        "24m_ref_clk" ∷ "system_pll2_div10" ∷ "system_pll1_div2" ∷ "system_pll1_div20"
        ∷ "video_pll1_clk" ∷ "system_pll1_div10" ∷ "audio_pll1_clk" ∷ "ext_clk_3" ∷ [])
    ∷ root "gpt4_clk_root" 110 (
        "24m_ref_clk" ∷ "system_pll2_div10" ∷ "system_pll1_div2" ∷ "system_pll1_div20"
        ∷ "video_pll1_clk" ∷ "system_pll1_div10" ∷ "audio_pll1_clk" ∷ "ext_clk_1" ∷ [])
    ∷ root "gpt5_clk_root" 111 (
        "24m_ref_clk" ∷ "system_pll2_div10" ∷ "system_pll1_div2" ∷ "system_pll1_div20"
        ∷ "video_pll1_clk" ∷ "system_pll1_div10" ∷ "audio_pll1_clk" ∷ "ext_clk_2" ∷ [])
    ∷ root "gpt6_clk_root" 112 (
        "24m_ref_clk" ∷ "system_pll2_div10" ∷ "system_pll1_div2" ∷ "system_pll1_div20"
        ∷ "video_pll1_clk" ∷ "system_pll1_div10" ∷ "audio_pll1_clk" ∷ "ext_clk_3" ∷ [])
    ∷ root "trace_clk_root" 113 (
        "24m_ref_clk" ∷ "system_pll1_div6" ∷ "system_pll1_div5" ∷ "vpu_pll_clk" ∷ "system_pll2_div8"
        ∷ "system_pll3_clk" ∷ "ext_clk_1" ∷ "ext_clk_3" ∷ [])
    ∷ root "wdog_clk_root" 114 (
        "24m_ref_clk" ∷ "system_pll1_div6" ∷ "system_pll1_div5" ∷ "vpu_pll_clk" ∷ "system_pll2_div8"
        ∷ "system_pll3_clk" ∷ "system_pll1_div10" ∷ "system_pll2_div6" ∷ [])
    ∷ root "wrclk_clk_root" 115 (
        "24m_ref_clk" ∷ "system_pll1_div20" ∷ "vpu_pll_clk" ∷ "system_pll3_clk" ∷ "system_pll2_div5"
        ∷ "system_pll1_div3" ∷ "system_pll2_div2" ∷ "system_pll1_div8" ∷ [])
    ∷ root "ipp_do_clko1" 116 (
        "24m_ref_clk" ∷ "system_pll1_clk" ∷ "system_pll1_div6" ∷ "system_pll1_div4"
        ∷ "audio_pll2_clk" ∷ "system_pll2_div2" ∷ "vpu_pll_clk" ∷ "system_pll1_div10" ∷ [])
    ∷ root "ipp_do_clko2" 117 (
        "24m_ref_clk" ∷ "system_pll2_div5" ∷ "system_pll1_div2" ∷ "system_pll2_div6"
        ∷ "system_pll3_clk" ∷ "audio_pll1_clk" ∷ "video_pll1_clk" ∷ "32k_ref_clk" ∷ [])
    ∷ root "hdmi_fdcc_tst_clk_root" 118 (
        "24m_ref_clk" ∷ "system_pll1_div3" ∷ "system_pll2_div4" ∷ "system_pll1_clk"
        ∷ "system_pll2_clk" ∷ "system_pll3_clk" ∷ "audio_pll2_clk" ∷ "video_pll1_clk" ∷ [])
    ∷ root "hdmi_ref_266m_clk_root" 120 (
        "24m_ref_clk" ∷ "system_pll1_div2" ∷ "system_pll3_clk" ∷ "system_pll2_div3"
        ∷ "system_pll1_div3" ∷ "system_pll2_div5" ∷ "audio_pll1_clk" ∷ "video_pll1_clk" ∷ [])
    ∷ root "usdhc3_clk_root" 121 (
        "24m_ref_clk" ∷ "system_pll1_div2" ∷ "system_pll1_clk" ∷ "system_pll2_div2"
        ∷ "system_pll3_clk" ∷ "system_pll1_div3" ∷ "audio_pll2_clk" ∷ "system_pll1_div8" ∷ [])
    ∷ root "media_cam1_pix_clk_root" 122 (
        "24m_ref_clk" ∷ "system_pll1_div3" ∷ "system_pll2_div4" ∷ "system_pll1_clk"
        ∷ "system_pll2_clk" ∷ "system_pll3_clk" ∷ "audio_pll2_clk" ∷ "video_pll1_clk" ∷ [])
    ∷ root "media_mipi_phy1_ref_clk_root" 123 (
        "24m_ref_clk" ∷ "system_pll2_div3" ∷ "system_pll2_div10" ∷ "system_pll1_clk"
        ∷ "system_pll2_clk" ∷ "ext_clk_2" ∷ "audio_pll2_clk" ∷ "video_pll1_clk" ∷ [])
    ∷ root "media_disp1_pix_clk_root" 124 (
        "24m_ref_clk" ∷ "video_pll1_clk" ∷ "audio_pll2_clk" ∷ "audio_pll1_clk" ∷ "system_pll1_clk"
        ∷ "system_pll2_clk" ∷ "system_pll3_clk" ∷ "ext_clk_4" ∷ [])
    ∷ root "media_cam2_pix_clk_root" 125 (
        "24m_ref_clk" ∷ "system_pll1_div3" ∷ "system_pll2_div4" ∷ "system_pll1_clk"
        ∷ "system_pll2_clk" ∷ "system_pll3_clk" ∷ "audio_pll2_clk" ∷ "video_pll1_clk" ∷ [])
    ∷ root "media_ldb_clk_root" 126 (
        "24m_ref_clk" ∷ "system_pll2_div3" ∷ "system_pll2_div10" ∷ "system_pll1_clk"
        ∷ "system_pll2_clk" ∷ "ext_clk_2" ∷ "audio_pll2_clk" ∷ "video_pll1_clk" ∷ [])
    ∷ root "media_mipi_test_byte_clk" 130 (
        "24m_ref_clk" ∷ "system_pll2_div5" ∷ "system_pll2_div20" ∷ "system_pll3_clk"
        ∷ "system_pll2_div10" ∷ "system_pll1_div10" ∷ "system_pll1_div5" ∷ "system_pll1_div4" ∷ [])
    ∷ root "ecspi3_clk_root" 131 (
        "24m_ref_clk" ∷ "system_pll2_div5" ∷ "system_pll1_div20" ∷ "system_pll1_div5"
        ∷ "system_pll1_clk" ∷ "system_pll3_clk" ∷ "system_pll2_div4" ∷ "audio_pll2_clk" ∷ [])
    ∷ root "pdm_clk_root" 132 (
        "24m_ref_clk" ∷ "system_pll2_div10" ∷ "audio_pll1_clk" ∷ "system_pll1_clk"
        ∷ "system_pll2_clk" ∷ "system_pll3_clk" ∷ "ext_clk_3" ∷ "audio_pll2_clk" ∷ [])
    ∷ root "vpu_vc8000e_clk_root" 133 (
        "24m_ref_clk" ∷ "vpu_pll_clk" ∷ "system_pll1_clk" ∷ "system_pll2_clk" ∷ "audio_pll2_clk"
        ∷ "system_pll2_div8" ∷ "system_pll3_clk" ∷ "audio_pll1_clk" ∷ [])
    ∷ root "sai7_clk_root" 134 (
        "24m_ref_clk" ∷ "audio_pll1_clk" ∷ "audio_pll2_clk" ∷ "video_pll1_clk" ∷ "system_pll1_div6"
        ∷ "no_clk" ∷ "ext_clk_3" ∷ "ext_clk_4" ∷ [])
    ∷ []
