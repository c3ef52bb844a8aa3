-- ===== src/DriverManager/Tests.antt =====
-- A board with one card, one USB stick and one keyboard, to which an NVMe disk comes later.
use mathlib.Core.List.{Memᴰ}
use mathlib.Core.List.Memᴰ.{head, tail}
use genode_imx.Base.{◌≡◌, true, false, none, some, List, [], ◌∷◌, refl}
use genode_imx.DriverManager.Xml.{raw, UsbDevice, Services}
use genode_imx.DriverManager.Manager.{
  Roms, Manager, has_namespace, generate_block_devices, usb_policies, usb_policy_node,
  handle_nvme_ns_update, handle_sd_cards_update, handle_usb_devices_update,
  handle_pci_devices_update, construct_manager,
}
use genode_imx.DriverManager.Current.{Update, pci, nvme, after, IsCurrent, after-construct_manager}
use genode_imx.DriverManager.Routes.{
  announced, started, routes, children, texts, Served, announced-Served,
}

abbrev genode : Services
genode = record {
  block = "Block";
  rom = "ROM";
  cpu = "CPU";
  pd = "PD";
  rm = "RM";
  log = "LOG";
  timer = "Timer";
  platform = "Platform";
  report = "Report";
}

abbrev stick : UsbDevice
stick = record { label = "usb-1-2"; vendor_id = "0x951"; product_id = "0x1666"; class_code = 8 }

abbrev keyboard : UsbDevice
keyboard = record { label = "usb-1-3"; vendor_id = "0x46d"; product_id = "0xc31c"; class_code = 3 }

abbrev board : Roms
board = record {
  usb_devices = keyboard ∷ stick ∷ [];
  usb_policy = "";
  pci_devices = record { is_valid = true; classes = none ∷ [] };
  nvme_ns = record { model = ""; serial = ""; namespaces = [] };
  sd_cards = record { label = "mmcblk0"; block_count = 1000; block_size = 512 } ∷ [];
}

abbrev with_disk : Roms
with_disk = record board {
  pci_devices = record { is_valid = true; classes = none ∷ some 0x010802 ∷ [] };
  nvme_ns = record {
    model = "disk";
    serial = "7";
    namespaces = record { block_count = 2000; block_size = 4096 } ∷ [];
  };
}

abbrev unplugged : Manager
unplugged = record {
  roms = record {
    usb_devices = [];
    usb_policy = "";
    pci_devices = record { is_valid = false; classes = [] };
    nvme_ns = record { model = ""; serial = ""; namespaces = [] };
    sd_cards = [];
  };
  nvme = false;
  init_config = raw "";
  usb_drv_config = raw "";
  block_devices = raw "";
}

-- The disk is found, reports its name space, and vanishes from the bus.
abbrev updates : List (Update × Roms)
updates = (pci, board) ∷ (nvme, with_disk) ∷ (pci, with_disk) ∷ []

only_stick : usb_policies board.usb_devices ≡ usb_policy_node stick ∷ []
unfolding usb_policies
only_stick = refl

after-construct_manager_example :
    IsCurrent genode (after genode updates (construct_manager genode board unplugged))
after-construct_manager_example = after-construct_manager genode updates board unplugged

stays : (after genode updates unplugged).nvme ≡ true
unfolding after handle_pci_devices_update handle_nvme_ns_update
stays = refl

disk_announced :
    Memᴰ "nvme-0"
      (announced (after genode updates (construct_manager genode board unplugged)).block_devices)
unfolding after construct_manager generate_block_devices texts handle_nvme_ns_update
    handle_sd_cards_update handle_usb_devices_update handle_pci_devices_update
disk_announced = tail (head refl)

disk_runs :
    has_namespace (after genode updates (construct_manager genode board unplugged)).roms.nvme_ns
      ≡ true
    → (after genode updates (construct_manager genode board unplugged)).nvme ≡ true
unfolding after construct_manager handle_nvme_ns_update handle_sd_cards_update
    handle_usb_devices_update handle_pci_devices_update
disk_runs h = refl

announced-Served_example :
    let u = after genode updates (construct_manager genode board unplugged) in
    Served "nvme-0" (routes (children u.init_config)) (started u.init_config)
announced-Served_example =
    announced-Served genode updates board unplugged "nvme-0" disk_runs disk_announced
