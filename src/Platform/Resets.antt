-- ===== src/Platform/Resets.antt =====
-- src/drivers/platform/imx8mq/src.h: the resets of the system reset controller.
mod Lines
mod Tests
use genode_imx.Base.{ℕ, ◌+◌, ◌*◌, Bool, true, false, update, List, [], ◌∷◌}

-- The bits of the registers, by the offset of the register and the number of the bit: those
-- that belong to a reset have one bit each.
abbrev pub Bits : Type 0
Bits = ℕ → ℕ

abbrev pub bit : (offset number : ℕ) → ℕ
bit offset number = offset * 32 + number

-- The resets that `Src` declares
pub data Line : Type 0 where
  mipi_dsi_byte : Line
  mipi_dsi_dpi : Line
  mipi_dsi_esc : Line
  mipi_dsi_pclk : Line
  pcie_1_core : Line
  pcie_1_phy : Line
  pcie_2_core : Line
  pcie_2_phy : Line

-- `Reset_switch::_deassert` and `_assert`: the bit is written with `on` or `off`.
unfoldable pub switch_deassert : (field on : ℕ) → Bits → Bits
switch_deassert field on s = update s field on

unfoldable pub switch_assert : (field off : ℕ) → Bits → Bits
switch_assert field off s = update s field off

-- `Pcie_phy_switch::_deassert` and `_assert`, for the register at an offset.
unfoldable pub phy_deassert : (offset : ℕ) → Bits → Bits
phy_deassert offset s = update (update s (bit offset 2) 0) (bit offset 1) 0

unfoldable pub phy_assert : (offset : ℕ) → Bits → Bits
phy_assert offset s = update (update s (bit offset 2) 1) (bit offset 1) 1

-- Deasserting a reset, with the bits and values of its declaration.
unfoldable pub deassert_reset : Line → Bits → Bits
unfolding switch_deassert phy_deassert
deassert_reset mipi_dsi_byte = switch_deassert (bit 0x28 1) 1
deassert_reset mipi_dsi_dpi = switch_deassert (bit 0x28 3) 1
deassert_reset mipi_dsi_esc = switch_deassert (bit 0x28 4) 1
deassert_reset mipi_dsi_pclk = switch_deassert (bit 0x28 5) 1
deassert_reset pcie_1_core = switch_deassert (bit 0x2c 6) 1
deassert_reset pcie_1_phy = phy_deassert 0x2c
deassert_reset pcie_2_core = switch_deassert (bit 0x48 6) 1
deassert_reset pcie_2_phy = phy_deassert 0x48

unfoldable pub assert_reset : Line → Bits → Bits
unfolding switch_assert phy_assert
assert_reset mipi_dsi_byte = switch_assert (bit 0x28 1) 0
assert_reset mipi_dsi_dpi = switch_assert (bit 0x28 3) 0
assert_reset mipi_dsi_esc = switch_assert (bit 0x28 4) 0
assert_reset mipi_dsi_pclk = switch_assert (bit 0x28 5) 0
assert_reset pcie_1_core = switch_assert (bit 0x2c 6) 0
assert_reset pcie_1_phy = phy_assert 0x2c
assert_reset pcie_2_core = switch_assert (bit 0x48 6) 0
assert_reset pcie_2_phy = phy_assert 0x48

-- A call for a reset: `true` asserts it.
unfoldable pub step : Line × Bool → Bits → Bits
unfolding deassert_reset assert_reset
step (line, true) s = assert_reset line s
step (line, false) s = deassert_reset line s

unfoldable pub run : List (Line × Bool) → Bits → Bits
run [] s = s
run (call ∷ calls) s = run calls (step call s)
