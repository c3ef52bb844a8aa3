-- ===== src/Platform/Tree/Imx8mp/RootsA.antt =====
-- The clocks that src/drivers/platform/imx8mp/ccm.h declares: the first third of the root clocks, in their order.
use genode_imx.Base.{List, [], ◌∷◌}
use genode_imx.Platform.Tree.Clocks.{Clock, root}

-- from "arm_a53_clk_root" to "vpu_g2_clk_root"
unfoldable pub imx8mp_roots_a : List Clock
imx8mp_roots_a =
    root "arm_a53_clk_root" 0 (
      "24m_ref_clk" ∷ "arm_pll_clk" ∷ "system_pll2_div2" ∷ "system_pll2_clk" ∷ "system_pll1_clk"
      ∷ "system_pll1_div2" ∷ "audio_pll1_clk" ∷ "system_pll3_clk" ∷ [])
    ∷ root "arm_m7_clk_root" 1 (
        "24m_ref_clk" ∷ "system_pll2_div5" ∷ "system_pll2_div4" ∷ "vpu_pll_clk" ∷ "system_pll1_clk"
        ∷ "audio_pll1_clk" ∷ "video_pll1_clk" ∷ "system_pll3_clk" ∷ [])
    ∷ root "ml_clk_root" 2 (
        "24m_ref_clk" ∷ "gpu_pll_clk" ∷ "system_pll1_clk" ∷ "system_pll3_clk" ∷ "system_pll2_clk"
        ∷ "audio_pll1_clk" ∷ "video_pll1_clk" ∷ "audio_pll2_clk" ∷ [])
    ∷ root "gpu3d_core_clk_root" 3 (
        "24m_ref_clk" ∷ "gpu_pll_clk" ∷ "system_pll1_clk" ∷ "system_pll3_clk" ∷ "system_pll2_clk"
        ∷ "audio_pll1_clk" ∷ "video_pll1_clk" ∷ "audio_pll2_clk" ∷ [])
    ∷ root "gpu3d_shader_clk_root" 4 (
        "24m_ref_clk" ∷ "gpu_pll_clk" ∷ "system_pll1_clk" ∷ "system_pll3_clk" ∷ "system_pll2_clk"
        ∷ "audio_pll1_clk" ∷ "video_pll1_clk" ∷ "audio_pll2_clk" ∷ [])
    ∷ root "gpu2d_clk_root" 5 (
        "24m_ref_clk" ∷ "gpu_pll_clk" ∷ "system_pll1_clk" ∷ "system_pll3_clk" ∷ "system_pll2_clk"
        ∷ "audio_pll1_clk" ∷ "video_pll1_clk" ∷ "audio_pll2_clk" ∷ [])
    ∷ root "audio_axi_clk_root" 6 (
        "24m_ref_clk" ∷ "gpu_pll_clk" ∷ "system_pll1_clk" ∷ "system_pll3_clk" ∷ "system_pll2_clk"
        ∷ "audio_pll1_clk" ∷ "video_pll1_clk" ∷ "audio_pll2_clk" ∷ [])
    ∷ root "hsio_axi_clk_root" 7 (
        "24m_ref_clk" ∷ "system_pll2_div2" ∷ "system_pll1_clk" ∷ "system_pll2_div10"
        ∷ "system_pll2_div5" ∷ "ext_clk_2" ∷ "ext_clk_4" ∷ "audio_pll2_clk" ∷ [])
    ∷ root "media_isp_clk_root" 8 (
        "24m_ref_clk" ∷ "system_pll2_clk" ∷ "system_pll1_clk" ∷ "system_pll3_clk"
        ∷ "system_pll1_div20" ∷ "audio_pll2_clk" ∷ "ext_clk_1" ∷ "system_pll2_div2" ∷ [])
    ∷ root "main_axi_clk_root" 16 (
        "24m_ref_clk" ∷ "system_pll2_div3" ∷ "system_pll1_clk" ∷ "system_pll2_div4"
        ∷ "system_pll2_clk" ∷ "audio_pll1_clk" ∷ "video_pll1_clk" ∷ "system_pll1_div8" ∷ [])
    ∷ root "enet_axi_clk_root" 17 (
        "24m_ref_clk" ∷ "system_pll1_div3" ∷ "system_pll1_clk" ∷ "system_pll2_div4"
        ∷ "system_pll2_div5" ∷ "audio_pll1_clk" ∷ "video_pll1_clk" ∷ "system_pll3_clk" ∷ [])
    ∷ root "nand_usdhc_bus_clk_root" 18 (
        "24m_ref_clk" ∷ "system_pll1_div3" ∷ "system_pll1_clk" ∷ "system_pll2_div5"
        ∷ "system_pll1_div6" ∷ "system_pll3_clk" ∷ "system_pll2_div4" ∷ "audio_pll1_clk" ∷ [])
    ∷ root "vpu_bus_clk_root" 19 (
        "24m_ref_clk" ∷ "system_pll1_clk" ∷ "vpu_pll_clk" ∷ "audio_pll2_clk" ∷ "system_pll3_clk"
        ∷ "system_pll2_clk" ∷ "system_pll2_div5" ∷ "system_pll1_div8" ∷ [])
    ∷ root "media_axi_clk_root" 20 (
        "24m_ref_clk" ∷ "system_pll2_clk" ∷ "system_pll1_clk" ∷ "system_pll3_clk"
        ∷ "system_pll1_div20" ∷ "audio_pll2_clk" ∷ "ext_clk_1" ∷ "system_pll2_div2" ∷ [])
    ∷ root "media_apb_clk_root" 21 (
        "24m_ref_clk" ∷ "system_pll2_div8" ∷ "system_pll1_clk" ∷ "system_pll3_clk"
        ∷ "system_pll1_div20" ∷ "audio_pll2_clk" ∷ "ext_clk_1" ∷ "system_pll1_div6" ∷ [])
    ∷ root "hdmi_apb_clk_root" 22 (
        "24m_ref_clk" ∷ "system_pll2_div8" ∷ "system_pll1_clk" ∷ "system_pll3_clk"
        ∷ "system_pll1_div20" ∷ "audio_pll2_clk" ∷ "ext_clk_1" ∷ "system_pll1_div6" ∷ [])
    ∷ root "hdmi_axi_clk_root" 23 (
        "24m_ref_clk" ∷ "system_pll2_clk" ∷ "system_pll1_clk" ∷ "system_pll3_clk"
        ∷ "system_pll1_div20" ∷ "audio_pll2_clk" ∷ "ext_clk_1" ∷ "system_pll2_div2" ∷ [])
    ∷ root "gpu_axi_clk_root" 24 (
        "24m_ref_clk" ∷ "system_pll1_clk" ∷ "gpu_pll_clk" ∷ "system_pll3_clk" ∷ "system_pll2_clk"
        ∷ "audio_pll1_clk" ∷ "video_pll1_clk" ∷ "audio_pll2_clk" ∷ [])
    ∷ root "gpu_ahb_clk_root" 25 (
        "24m_ref_clk" ∷ "system_pll1_clk" ∷ "gpu_pll_clk" ∷ "system_pll3_clk" ∷ "system_pll2_clk"
        ∷ "audio_pll1_clk" ∷ "video_pll1_clk" ∷ "audio_pll2_clk" ∷ [])
    ∷ root "noc_clk_root" 26 (
        "24m_ref_clk" ∷ "system_pll1_clk" ∷ "system_pll3_clk" ∷ "system_pll2_clk"
        ∷ "system_pll2_div2" ∷ "audio_pll1_clk" ∷ "video_pll1_clk" ∷ "audio_pll2_clk" ∷ [])
    ∷ root "noc_io_clk_root" 27 (
        "24m_ref_clk" ∷ "system_pll1_clk" ∷ "system_pll3_clk" ∷ "system_pll2_clk"
        ∷ "system_pll2_div2" ∷ "audio_pll1_clk" ∷ "video_pll1_clk" ∷ "audio_pll2_clk" ∷ [])
    ∷ root "ml_axi_clk_root" 28 (
        "24m_ref_clk" ∷ "system_pll1_clk" ∷ "gpu_pll_clk" ∷ "system_pll3_clk" ∷ "system_pll2_clk"
        ∷ "audio_pll1_clk" ∷ "video_pll1_clk" ∷ "audio_pll2_clk" ∷ [])
    ∷ root "ml_ahb_clk_root" 29 (
        "24m_ref_clk" ∷ "system_pll1_clk" ∷ "gpu_pll_clk" ∷ "system_pll3_clk" ∷ "system_pll2_clk"
        ∷ "audio_pll1_clk" ∷ "video_pll1_clk" ∷ "audio_pll2_clk" ∷ [])
    ∷ root "ahb_clk_root" 32 (
        "24m_ref_clk" ∷ "system_pll1_div6" ∷ "system_pll1_clk" ∷ "system_pll1_div2"
        ∷ "system_pll2_div8" ∷ "system_pll3_clk" ∷ "audio_pll1_clk" ∷ "video_pll1_clk" ∷ [])
    ∷ root "audio_ahb_clk_root" 34 (
        "24m_ref_clk" ∷ "system_pll2_div2" ∷ "system_pll1_clk" ∷ "system_pll2_clk"
        ∷ "system_pll2_div6" ∷ "system_pll3_clk" ∷ "audio_pll1_clk" ∷ "video_pll1_clk" ∷ [])
    ∷ root "media_disp2_clk_root" 38 (
        "24m_ref_clk" ∷ "video_pll1_clk" ∷ "audio_pll2_clk" ∷ "audio_pll1_clk" ∷ "system_pll1_clk"
        ∷ "system_pll2_clk" ∷ "system_pll3_clk" ∷ "ext_clk_4" ∷ [])
    ∷ root "dram_alt_clk_root" 64 (
        "24m_ref_clk" ∷ "system_pll1_clk" ∷ "system_pll1_div8" ∷ "system_pll2_div2"
        ∷ "system_pll2_clk" ∷ "system_pll3_clk" ∷ "audio_pll1_clk" ∷ "system_pll1_div3" ∷ [])
    ∷ root "dram_apb_clk_root" 65 (
        "24m_ref_clk" ∷ "system_pll2_div5" ∷ "system_pll1_div20" ∷ "system_pll1_div5"
        ∷ "system_pll1_clk" ∷ "system_pll3_clk" ∷ "system_pll2_div4" ∷ "audio_pll2_clk" ∷ [])
    ∷ root "vpu_g1_clk_root" 66 (
        "24m_ref_clk" ∷ "vpu_pll_clk" ∷ "system_pll1_clk" ∷ "system_pll2_clk" ∷ "system_pll1_div8"
        ∷ "system_pll2_div8" ∷ "system_pll3_clk" ∷ "audio_pll1_clk" ∷ [])
    ∷ root "vpu_g2_clk_root" 67 (
        "24m_ref_clk" ∷ "vpu_pll_clk" ∷ "system_pll1_clk" ∷ "system_pll2_clk" ∷ "system_pll1_div8"
        ∷ "system_pll2_div8" ∷ "system_pll3_clk" ∷ "audio_pll1_clk" ∷ [])
    ∷ []
