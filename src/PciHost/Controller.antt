-- ===== src/PciHost/Controller.antt =====
-- `Pcie_controller` of src/drivers/pci_host/imx8mq/main.cc.
use genode_imx.Base.{ℕ, ◌+◌, ◌%◌, ◌^◌, not, if◌then◌else◌, List, [], ◌∷◌, ◌++◌}
use genode_imx.PciHost.Registers.{
  Write, host, bridge, bridge_call, Hardware, Machine, memory_base, memory_size, config_base,
  config_size, pci_io_base, io_size, bus_count_per_controller, memory_request, io_request,
  config_type_0_request, configure_outbound, disable_outbound, do_writes, wait_for_link,
  wait_for_atu,
}

-- How a constructor ends: it is done, or an exception says why not.
pub data Ending : Type 0 where
  done : Ending
  device_not_available io_64bit_bus_address_not_supported invalid_interrupt : Ending
  link_is_not_ready atu_is_not_ready : Ending

-- The constructor up to the first wait for the link. The fields of the bus register are written
-- at once, as those of the command register.
unfoldable pub set_up : (bus io_base : ℕ) → List Write
unfolding configure_outbound disable_outbound
set_up bus io_base =
    bridge_call "scan"
      ∷ host "Misc_control1::Dbi_ro_wr_enable" 1
      ∷ bridge "Link_control_2::Link_speed" 2
      ∷ bridge "Link_capabilities::Max_link_speed" 2
      ∷ host "Port_link_control::Fast_link_mode" 0
      ∷ host "Port_link_control::Dll_link_enable" 1
      ∷ host "Port_link_control::Link_capable" 1
      ∷ host "Link_width_speed_control::Num_of_lanes" 1
      ∷ bridge "bar0" 4
      ∷ bridge "bar1" 0
      ∷ bridge "Irq_line::UNKNOWN" 1
      ∷ bridge "Irq_pin::INTA" 1
      ∷ bridge "Primary_bus" (bus % 2 ^ 8)
      ∷ bridge "Secondary_bus" ((bus + 1) % 2 ^ 8)
      ∷ bridge "Sub_bus" ((bus + bus_count_per_controller) % 2 ^ 8)
      ∷ bridge "Command::Io_space_enable" 1
      ∷ bridge "Command::Memory_space_enable" 1
      ∷ bridge "Command::Bus_master_enable" 1
      ∷ bridge "Command::Serror_enable" 1
      ∷ disable_outbound 0
    ++ disable_outbound 1
    ++ disable_outbound 2
    ++ disable_outbound 3
    ++ configure_outbound 1 memory_request (io_base + memory_base) memory_size
        (io_base + memory_base)
    ++ configure_outbound 2 io_request (io_base + pci_io_base) io_size 0
    ++ bridge "bar0" 0
      ∷ bridge "Sub_class_code" 4
      ∷ bridge "Base_class_code::BRIDGE" 1
      ∷ host "Link_width_speed_control::Direct_speed_change" 1
      ∷ host "Misc_control1::Dbi_ro_wr_enable" 0
      ∷ bridge "Link_capabilities::Max_link_speed" 1
      ∷ []

-- Between the two waits for the link.
abbrev pub speed_up : List Write
speed_up =
    bridge "Link_capabilities::Max_link_speed" 2
    ∷ host "Link_width_speed_control::Direct_speed_change" 1
    ∷ []

-- The window to the configuration space, after the link is up.
abbrev pub open_config : (io_base : ℕ) → List Write
open_config io_base =
    configure_outbound 0 config_type_0_request (io_base + config_base) config_size (2 ^ 24)

-- The rest of the constructor
abbrev pub finish : List Write
finish =
    bridge "bar1" 0
    ∷ bridge "Expansion_rom_base_addr" 0
    ∷ bridge "Io_base_limit" 0
    ∷ bridge "Prefetchable_memory_base" 0
    ∷ bridge "Bridge_control::Serror" 1
    ∷ bridge "Control_status::Pme_status" 1
    ∷ bridge_call "clear_errors"
    ∷ []

module _ {W : Type 0} (hw : Hardware W) where
  -- The constructor of `Pcie_controller`
  unfoldable pub construct_controller : (bus io_base : ℕ) → Machine W → Ending × Machine W
  construct_controller bus io_base m =
      let (trained, m1) = wait_for_link hw (do_writes hw (set_up bus io_base) m) in
      if not trained
      then (link_is_not_ready, m1)
      else let (faster, m2) = wait_for_link hw (do_writes hw speed_up m1) in
        if not faster
        then (link_is_not_ready, m2)
        else let (ready, m3) = wait_for_atu hw (do_writes hw (open_config io_base) m2) in
          if not ready then (atu_is_not_ready, m3) else (done, do_writes hw finish m3)
