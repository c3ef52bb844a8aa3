-- ===== src/PciHost/Tests.antt =====
-- A controller whose link comes up after three pauses, and one without a device.
use genode_imx.Base.{
  ℕ, ◌+◌, ◌-◌, ◌*◌, ◌%◌, ◌^◌, ◌≡◌, ◌≢◌, ◌↔◌, true, false, ltb, List, [], ◌∷◌, get_or, map, refl,
  arith, length, ◌<◌,
}
use genode_imx.PciHost.Registers.{
  Hardware, Machine, do_writes, poll_link, wait_for_link, poll_atu, wait_for_atu,
}
use genode_imx.PciHost.Controller.{done, atu_is_not_ready, set_up, construct_controller}
use genode_imx.PciHost.Scanner.{Node, Report, scan, scan_all, generate_report}
use genode_imx.PciHost.Waits.{UpWithin, started, restarted, construct_controller_lem}
use genode_imx.PciHost.Windows.{window, all_writes, window-all_writes}
use genode_imx.PciHost.Buses.{generate_report_lem}

-- The world counts the pauses; the configuration window never says that it is up.
abbrev hardware : Hardware ℕ
hardware = record {
  link_up = λ w. ltb 2 w;
  atu_up = λ w. false;
  msleep = λ ms w. w + 1;
  write = λ x w. w;
  read = λ reg w. 7;
}

abbrev controller : Machine ℕ
controller = record { world = 0; writes = [] }

abbrev region : ℕ
region = 0x18000000

construct_controller_lem_example :
    let ending = (construct_controller hardware 0 region controller).0 in
    ((ending ≡ done) ↔ (
      UpWithin hardware 10 (started hardware 0 region controller).world
      × UpWithin hardware 10 (restarted hardware 0 region controller).world))
    × (ending ≢ atu_is_not_ready)
construct_controller_lem_example = construct_controller_lem hardware 0 region controller

it_starts : (construct_controller hardware 0 region controller).0 ≡ done
unfolding construct_controller wait_for_link poll_link wait_for_atu poll_atu do_writes set_up
it_starts = refl

window-all_writes_example :
    (window 1 (all_writes 0 region) ≡ (region, region + 0x7f00000 - 1, region))
    × (window 0 (all_writes 0 region) ≡ (region + 0x7f00000, region + 0x7f80000 - 1, 2 ^ 24))
    × (window 2 (all_writes 0 region) ≡ (region + 0x7f80000, region + 0x7f90000 - 1, 0))
window-all_writes_example = window-all_writes 0 region (omega arith)

-- The first node's memory lies above 4 GB.
abbrev platform : List (Node × Machine ℕ)
platform =
    (
      record { is_available = true; phys_addrs = 0 ∷ 2 ^ 32 ∷ []; irq_numbers = 154 ∷ [] },
      controller,
    )
    ∷ (
      record { is_available = true; phys_addrs = 0 ∷ region ∷ []; irq_numbers = 154 ∷ [] },
      controller,
    )
    ∷ (
      record { is_available = true; phys_addrs = 0 ∷ region ∷ []; irq_numbers = 106 ∷ [] },
      controller,
    )
    ∷ []

two_devices : length (generate_report hardware platform) ≡ 2
unfolding generate_report scan_all scan construct_controller wait_for_link poll_link wait_for_atu
    poll_atu do_writes set_up
two_devices = refl

second_bus : 1 < length (generate_report hardware platform)
second_bus = rw two_devices (omega arith)

generate_report_lem_example :
    get_or (map (λ (r : Report). r.bus) (generate_report hardware platform)) 1 0 ≡ (16 * 1) % 256
generate_report_lem_example = generate_report_lem hardware platform 1 second_bus
