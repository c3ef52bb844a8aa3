-- ===== src/PciHost/Scanner.antt =====
-- `Scanner` and `Main` of src/drivers/pci_host/imx8mq/main.cc: the device behind a controller, and
-- the report of all devices.
use genode_imx.Base.{
  ℕ, ◌+◌, ◌-◌, ◌/◌, ◌%◌, ◌^◌, Bool, not, ltb, if◌then◌else◌, ◌==◌, Option, none, some, List, [],
  ◌∷◌, get_or,
}
use genode_imx.PciHost.Registers.{
  Write, bridge, device, device_call, Hardware, Machine, memory_per_device, config_base,
  bus_count_per_controller, do_writes,
}
use genode_imx.PciHost.Controller.{
  Ending, done, device_not_available, io_64bit_bus_address_not_supported, invalid_interrupt,
  construct_controller,
}

-- A device node of the platform: whether the device can be acquired, and of its memory and
-- interrupt nodes the addresses and numbers, with the default for a missing attribute.
pub record Node : Type 0 where
  pub is_available : Bool
  pub phys_addrs : List ℕ
  pub irq_numbers : List ℕ

-- `_io_base`: the second memory node's address; none is the exception.
abbrev pub io_base_of : Node → Option ℕ
io_base_of d =
    let addr = get_or d.phys_addrs 1 (2 ^ 64 - 1) in if ltb 0xffffffff addr then none else some addr

-- `_irq`: the first interrupt's number; none is the exception.
abbrev pub irq_of : Node → Option ℕ
irq_of d = let irq = get_or d.irq_numbers 0 0 in if ltb irq 32 then none else some irq

-- The generated node of a device.
pub record Report : Type 0 where
  pub bus : ℕ
  pub address : ℕ
  pub vendor_id : ℕ
  pub device_id : ℕ
  pub class : ℕ
  pub revision : ℕ
  pub sub_vendor_id : ℕ
  pub sub_device_id : ℕ
  pub mem_address : ℕ
  pub mem_size : ℕ
  pub irq : ℕ

-- The writes of the constructor of `Scanner`
abbrev pub scan_writes : (io_base irq : ℕ) → List Write
scan_writes io_base irq =
    let dev_io_mem = (io_base + memory_per_device) % 2 ^ 32 in
    device_call "scan"
    ∷ device "Command" 0
    ∷ device "bar0" 4
    ∷ device "bar1" 0
    ∷ device "bar2" 0
    ∷ device "bar3" 0
    ∷ device "bar4" 0
    ∷ device "bar5" 0
    ∷ device "Expansion_rom_base_addr" 0
    ∷ device_call "clear_errors"
    ∷ bridge "bar0" io_base
    ∷ device "bar0" (if (dev_io_mem / 4) % 2 == 0 then dev_io_mem + 4 else dev_io_mem)
    ∷ bridge "Io_base_limit_upper" 0xffff
    ∷ bridge "Io_base_limit" 0xf0
    ∷ bridge "Io_base_limit_upper" 0
    ∷ bridge "Memory_base" ((dev_io_mem / 2 ^ 16) % 2 ^ 16)
    ∷ bridge "Memory_limit" ((dev_io_mem / 2 ^ 16) % 2 ^ 16)
    ∷ bridge "Prefetchable_memory_limit_upper" 0
    ∷ bridge "Prefetchable_memory_base" 0xfff0
    ∷ bridge "Prefetchable_memory_base_upper" 0
    ∷ bridge "Prefetchable_memory_limit_upper" 0
    ∷ bridge "Irq_line" ((irq - 32) % 2 ^ 8)
    ∷ bridge "Root_control" 0
    ∷ bridge "Root_status" 0x10000
    ∷ bridge "Root_control" 0x8
    ∷ bridge "Link_status" 0x4000
    ∷ bridge "Link_control" 0x400
    ∷ device "Command" 0x2
    ∷ device "Command" 0x6
    ∷ device "Slot_control" 0x201f
    ∷ []

module _ {W : Type 0} (hw : Hardware W) where
  -- The node that is generated for the device as it reads.
  abbrev pub report_of : (bus io_base irq : ℕ) → Machine W → Report
  report_of bus io_base irq m = record {
    bus = bus;
    address = (io_base + config_base) % 2 ^ 32;
    vendor_id = hw.read "Vendor" m.world;
    device_id = hw.read "Device" m.world;
    class = hw.read "Class_code" m.world;
    revision = hw.read "Revision" m.world;
    sub_vendor_id = hw.read "Subsystem_vendor" m.world;
    sub_device_id = hw.read "Subsystem_device" m.world;
    mem_address = (io_base + memory_per_device) % 2 ^ 32;
    mem_size = memory_per_device;
    irq = irq;
  }

  -- The constructor of `Scanner`: how it ends, and the node that it generates, if it is done.
  unfoldable pub scan : (bus : ℕ) → Node → Machine W → Ending × Option Report × Machine W
  scan bus d m =
      if not d.is_available then (device_not_available, none, m) else elim (io_base_of d) [
        | none ↦ (io_64bit_bus_address_not_supported, none, m)
        | some io_base ↦ elim (irq_of d) [
          | none ↦ (invalid_interrupt, none, m)
          | some irq ↦
              let (ending, m1) = construct_controller hw bus io_base m in
              elim ending [
                | done ↦
                    let m2 = do_writes hw (scan_writes io_base irq) m1 in
                    (done, some (report_of bus io_base irq m2), m2)
                | e ↦ (e, none, m1)
              ]
        ]
      ]

  -- The loop of `Main` over the device nodes, each of which is a machine of its own: the report.
  unfoldable pub scan_all : List (Node × Machine W) → (bus : ℕ) → List Report
  scan_all [] bus = []
  scan_all ((d, m) ∷ ds) bus =
      let next = scan_all ds ((bus + bus_count_per_controller) % 2 ^ 8) in
      let same = scan_all ds bus in elim (scan bus d m).1 [ none ↦ same | some r ↦ r ∷ next ]

  -- `Main`
  unfoldable pub generate_report : List (Node × Machine W) → List Report
  generate_report ds = scan_all ds 0
