-- ===== src/Platform/Resets/Lines.antt =====
-- What the bits say of the resets after any calls.
use genode_imx.Base.{
  ℕ, ◌≡◌, Bool, ◌==◌, ◌&&◌, if◌then◌else◌, List, [], ◌∷◌, refl, arith, ◌∙◌, ap, fun_ext,
}
use genode_imx.Platform.Resets.{
  Bits, bit, Line, mipi_dsi_byte, mipi_dsi_dpi, mipi_dsi_esc, mipi_dsi_pclk, pcie_1_core,
  pcie_1_phy, pcie_2_core, pcie_2_phy, step, run,
}

-- A reset is asserted, by its bits.
abbrev pub asserted : Bits → Line → Bool
asserted s mipi_dsi_byte = s (bit 0x28 1) == 0
asserted s mipi_dsi_dpi = s (bit 0x28 3) == 0
asserted s mipi_dsi_esc = s (bit 0x28 4) == 0
asserted s mipi_dsi_pclk = s (bit 0x28 5) == 0
asserted s pcie_1_core = s (bit 0x2c 6) == 0
asserted s pcie_1_phy = s (bit 0x2c 1) == 1 && s (bit 0x2c 2) == 1
asserted s pcie_2_core = s (bit 0x48 6) == 0
asserted s pcie_2_phy = s (bit 0x48 1) == 1 && s (bit 0x48 2) == 1

abbrev number : Line → ℕ
number mipi_dsi_byte = 0
number mipi_dsi_dpi = 1
number mipi_dsi_esc = 2
number mipi_dsi_pclk = 3
number pcie_1_core = 4
number pcie_1_phy = 5
number pcie_2_core = 6
number pcie_2_phy = 7

-- The abstract view: whether each reset is asserted, and a call changes that of its own reset.
abbrev pub View : Type 0
View = Line → Bool

abbrev pub call_view : Line × Bool → View → View
call_view (line, b) v other = if number other == number line then b else v other

abbrev pub run_view : List (Line × Bool) → View → View
run_view [] v = v
run_view (call ∷ calls) v = run_view calls (call_view call v)

step_lem :
    (line : Line) (b : Bool) (s : Bits) (other : Line)
    → asserted (step (line, b) s) other ≡ call_view (line, b) (asserted s) other
unfolding step
step_lem line b s other = ground arith

-- After any calls for the eight resets, the registers say of each what the last call for it asked:
-- the resets behave as independent switches, though they share registers.
pub asserted-run :
    (calls : List (Line × Bool)) (s : Bits) → asserted (run calls s) ≡ run_view calls (asserted s)
unfolding run
asserted-run [] s = refl
asserted-run ((line, b) ∷ calls) s =
    asserted-run calls (step (line, b) s) ∙ ap (run_view calls) (fun_ext (step_lem line b s))
