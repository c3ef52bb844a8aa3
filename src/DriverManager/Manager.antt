-- ===== src/DriverManager/Manager.antt =====
-- The manager, `Driver_manager::Main` of src/app/driver_manager/imx8mq/main.cc: its state, the
-- configurations that it generates, and what it does when a report has changed.
use Prim.Native.String.{String}
use genode_imx.Base.{
  ℕ, ◌/◌, ◌%◌, ◌^◌, ◌==◌, Bool, true, false, not, ◌&&◌, ◌||◌, if◌then◌else◌, Option, none, some,
  List, [], ◌∷◌, ◌++◌, map,
}
use genode_imx.DriverManager.Xml.{
  Value, text, num, flag, Xml, node, raw, nil, nodes, UsbDevice, SdCard, NvmeNs, PciDevices,
  Services,
}
use genode_imx.DriverManager.Drivers.{
  sd_start_node, sd_forwarding_policy, nvme_start_node, nvme_forwarding_policy,
}

-- The reports as the manager's ROM sessions have them.
pub record Roms : Type 0 where
  pub usb_devices : List UsbDevice
  pub usb_policy : String
  pub pci_devices : PciDevices
  pub nvme_ns : NvmeNs
  pub sd_cards : List SdCard

-- `Main`: the reports as it saw them last, whether the NVMe driver was constructed, and the last
-- content of each of its own reports.
pub record Manager : Type 0 where
  pub roms : Roms
  pub nvme : Bool
  pub init_config : Xml
  pub usb_drv_config : Xml
  pub block_devices : Xml

abbrev leaf : String → List (String × Value) → Xml
leaf tag attrs = node tag attrs nil

-- `_gen_parent_service_xml`
abbrev pub gen_parent_service : String → Xml
gen_parent_service name = leaf "service" (("name", text name) ∷ [])

-- `USB_CLASS_MASS_STORAGE` or `USB_CLASS_VENDOR_SPECIFIC`
abbrev pub expose_as_usb_raw : UsbDevice → Bool
expose_as_usb_raw d = (d.class_code == 8) || (d.class_code == 0xff)

-- The policy for an exposed device.
abbrev pub usb_policy_node : UsbDevice → Xml
usb_policy_node d = leaf "policy" (
    ("label_suffix", text d.label)
    ∷ ("vendor_id", text d.vendor_id)
    ∷ ("product_id", text d.product_id)
    ∷ (if d.class_code == 8 then ("class", text "storage") ∷ [] else []))

-- The loop over the devices.
unfoldable pub usb_policies : List UsbDevice → List Xml
usb_policies [] = []
usb_policies (d ∷ ds) =
    let rest = usb_policies ds in
    if not (expose_as_usb_raw d) then rest else usb_policy_node d ∷ rest

-- `_generate_usb_drv_config`
unfoldable pub generate_usb_drv_config : Roms → Xml
unfolding usb_policies
generate_usb_drv_config r = node "config" [] (
    nodes (
      leaf "report" (("devices", flag true) ∷ [])
      ∷ raw r.usb_policy
      ∷ leaf "policy" (("label_prefix", text "usb_hid_drv") ∷ ("class", text "0x3") ∷ [])
      ∷ usb_policies r.usb_devices))

-- `has_sub_node("namespace")`
abbrev pub has_namespace : NvmeNs → Bool
has_namespace n = elim n.namespaces [ [] ↦ false | d ∷ ds ↦ true ]

-- `_generate_init_config`
unfoldable pub generate_init_config : Services → Roms → (nvme : Bool) → Xml
generate_init_config g r nvme =
    let forwards = nvme && has_namespace r.nvme_ns in
    node "config" (("verbose", flag false) ∷ ("prio_levels", num 2) ∷ []) (
      nodes (
        leaf "report" (("child_ram", flag true) ∷ ("delay_ms", num 2500) ∷ [])
          ∷ leaf "heartbeat" (("rate_ms", num 2500) ∷ [])
          ∷ node "parent-provides" [] (
              nodes (
                map gen_parent_service
                  (g.rom ∷ g.cpu ∷ g.pd ∷ g.rm ∷ g.log ∷ g.timer ∷ g.platform ∷ g.report ∷ [])))
          ∷ sd_start_node g r.sd_cards
          ∷ (if nvme then nvme_start_node g ∷ [] else [])
        ++ node "service" (("name", text g.block) ∷ []) (
            nodes (
              sd_forwarding_policy r.sd_cards ++ (if forwards then nvme_forwarding_policy else [])))
          ∷ []))

-- The device node of a card.
abbrev pub sd_device : SdCard → Xml
sd_device c = leaf "device" (
    ("label", text c.label)
    ∷ ("block_count", num c.block_count)
    ∷ ("block_size", num c.block_size)
    ∷ [])

-- The device node of the first name space, if there is one.
abbrev pub nvme_device : NvmeNs → List Xml
nvme_device n = elim n.namespaces [
  | [] ↦ []
  | d ∷ ds ↦
      leaf "device" (
        ("label", text "nvme-0")
        ∷ ("block_count", num d.block_count)
        ∷ ("block_size", num d.block_size)
        ∷ ("model", text n.model)
        ∷ ("serial", text n.serial)
        ∷ [])
      ∷ []
]

-- `_generate_block_devices`
unfoldable pub generate_block_devices : Roms → Xml
generate_block_devices r =
    node "block_devices" [] (nodes (map sd_device r.sd_cards ++ nvme_device r.nvme_ns))

-- A PCI device with the class code of NVMe, in the upper two of its three bytes.
abbrev pub is_nvme : Option ℕ → Bool
is_nvme none = false
is_nvme (some class) = (class / 2 ^ 8) % 2 ^ 16 == 0x108

-- The loop over the PCI devices.
unfoldable pub has_nvme : List (Option ℕ) → Bool
has_nvme [] = false
has_nvme (d ∷ ds) = is_nvme d || has_nvme ds

module _ (g : Services) where
  -- `_handle_nvme_ns_update`; the first argument is what the ROM sessions hold now.
  unfoldable pub handle_nvme_ns_update : Roms → Manager → Manager
  handle_nvme_ns_update now s =
      let r = record s.roms { nvme_ns = now.nvme_ns } in
      record s {
        roms = r;
        init_config = generate_init_config g r s.nvme;
        block_devices = generate_block_devices r;
      }

  -- `_handle_sd_cards_update`
  unfoldable pub handle_sd_cards_update : Roms → Manager → Manager
  handle_sd_cards_update now s =
      let r = record s.roms { sd_cards = now.sd_cards } in
      record s {
        roms = r;
        init_config = generate_init_config g r s.nvme;
        block_devices = generate_block_devices r;
      }

  -- `_handle_usb_devices_update`
  unfoldable pub handle_usb_devices_update : Roms → Manager → Manager
  handle_usb_devices_update now s =
      let r = record s.roms { usb_devices = now.usb_devices; usb_policy = now.usb_policy } in
      record s { roms = r; usb_drv_config = generate_usb_drv_config r }

  -- `_handle_pci_devices_update`
  unfoldable pub handle_pci_devices_update : Roms → Manager → Manager
  unfolding has_nvme
  handle_pci_devices_update now s =
      let r = record s.roms { pci_devices = now.pci_devices } in
      let t = record s { roms = r } in
      if not r.pci_devices.is_valid
      then t
      else if not s.nvme && has_nvme r.pci_devices.classes
      then record t { nvme = true; init_config = generate_init_config g r true }
      else t

  -- The constructor; the state that it is given has the reports as they were when the ROM
  -- sessions were opened, and `now` is what these hold when it updates them.
  unfoldable pub construct_manager : Roms → Manager → Manager
  unfolding handle_nvme_ns_update handle_sd_cards_update handle_usb_devices_update
      handle_pci_devices_update
  construct_manager now s =
      let t = record s { init_config = generate_init_config g s.roms s.nvme } in
      handle_sd_cards_update now (
        handle_nvme_ns_update now (handle_pci_devices_update now (handle_usb_devices_update now t)))
