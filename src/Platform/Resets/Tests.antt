-- ===== src/Platform/Resets/Tests.antt =====
-- The first PCIe port and the display.
use genode_imx.Base.{◌≡◌, Bool, true, false, List, [], ◌∷◌}
use genode_imx.Platform.Resets.{Bits, Line, pcie_1_phy, mipi_dsi_dpi, pcie_1_core, run}
use genode_imx.Platform.Resets.Lines.{asserted, run_view, asserted-run}

abbrev calls : List (Line × Bool)
calls = (pcie_1_phy, true) ∷ (mipi_dsi_dpi, false) ∷ (pcie_1_phy, false) ∷ (pcie_1_core, true) ∷ []

abbrev cleared : Bits
cleared b = 0

asserted-run_example : asserted (run calls cleared) ≡ run_view calls (asserted cleared)
asserted-run_example = asserted-run calls cleared
