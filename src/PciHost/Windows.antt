-- ===== src/PciHost/Windows.antt =====
-- The outbound windows of a PCIe controller.
use Prim.Native.String.{String}
use text.Mathlib.Text.{◌==◌ as str_eq}
use genode_imx.Base.{
  ℕ, ◌+◌, ◌-◌, ◌*◌, ◌^◌, ◌≡◌, ◌≤◌, ◌==◌, ◌&&◌, if◌then◌else◌, List, [], ◌∷◌, ◌++◌, arith,
}
use genode_imx.PciHost.Registers.{
  Write, host, atu, bridge, device, bridge_call, device_call, configure_outbound, disable_outbound,
}
use genode_imx.PciHost.Controller.{set_up, speed_up, open_config}

-- The value of a register of window `i` after some writes, if it was `old` before.
pub value_after : (i : ℕ) → (reg : String) → List Write → (old : ℕ) → ℕ
value_after i reg [] old = old
value_after i reg (atu j r v ∷ ws) old =
    let kept = value_after i reg ws old in
    let new = value_after i reg ws v in if (i == j) && str_eq reg r then new else kept
value_after i reg (host r v ∷ ws) old = value_after i reg ws old
value_after i reg (bridge r v ∷ ws) old = value_after i reg ws old
value_after i reg (device r v ∷ ws) old = value_after i reg ws old
value_after i reg (bridge_call r ∷ ws) old = value_after i reg ws old
value_after i reg (device_call r ∷ ws) old = value_after i reg ws old

-- The first and the last address of a window, and where it leads to.
abbrev pub window : ℕ → List Write → ℕ × ℕ × ℕ
window i ws =
    let at = λ (reg : String). value_after i reg ws 0 in
    (
      at "lower_base_addr" + 2 ^ 32 * at "upper_base_addr",
      at "limit_addr",
      at "lower_target_addr" + 2 ^ 32 * at "upper_target_addr",
    )

abbrev pub all_writes : (bus io_base : ℕ) → List Write
all_writes bus io_base = set_up bus io_base ++ speed_up ++ open_config io_base

-- A controller whose region lies below 4 GB has three windows that follow each other without gap
-- or overlap: that of the memory, which leads to the same addresses, that of the configuration
-- space, and that of the ports.
pub window-all_writes :
    (bus io_base : ℕ)
    → io_base + 0x7f90000 ≤ 2 ^ 32
    → (window 1 (all_writes bus io_base) ≡ (io_base, io_base + 0x7f00000 - 1, io_base))
      × (window 0 (all_writes bus io_base) ≡ (io_base + 0x7f00000, io_base + 0x7f80000 - 1, 2 ^ 24))
      × (window 2 (all_writes bus io_base) ≡ (io_base + 0x7f80000, io_base + 0x7f90000 - 1, 0))
unfolding set_up configure_outbound disable_outbound value_after
window-all_writes bus io_base low = (ground arith, ground arith, ground arith)
