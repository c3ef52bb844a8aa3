-- ===== src/DriverManager/Current.antt =====
-- The driver manager over any sequence of updates.
use genode_imx.Base.{
  ◌≡◌, Bool, true, false, not, ◌&&◌, ◌||◌, if◌then◌else◌, List, [], ◌∷◌, refl, arith,
}
use genode_imx.DriverManager.Xml.{Services}
use genode_imx.DriverManager.Manager.{
  Roms, Manager, generate_init_config, generate_usb_drv_config, generate_block_devices, has_nvme,
  handle_nvme_ns_update, handle_sd_cards_update, handle_usb_devices_update,
  handle_pci_devices_update, construct_manager,
}

-- A signal that a report has changed.
pub data Update : Type 0 where
  usb pci nvme sd : Update

if_cases : {A : Type 0} (P : A → Type 0) (b : Bool) {x y : A} → P x → P y → P (if b then x else y)
if_cases P true p q = p
if_cases P false p q = q

module _ (g : Services) where
  -- The handler of a signal, where the ROM sessions hold `now`.
  unfoldable pub handle : Update → Roms → Manager → Manager
  handle usb now s = handle_usb_devices_update g now s
  handle pci now s = handle_pci_devices_update g now s
  handle nvme now s = handle_nvme_ns_update g now s
  handle sd now s = handle_sd_cards_update g now s

  -- The manager after some updates, the latest first, each with what the ROM sessions held.
  unfoldable pub after : List (Update × Roms) → Manager → Manager
  unfolding handle
  after [] s = s
  after ((u, now) ∷ us) s = handle u now (after us s)

  -- The manager's reports are those of the state that it is in.
  pub record IsCurrent (s : Manager) : Type 0 where
    pub init : s.init_config ≡ generate_init_config g s.roms s.nvme
    pub usb_config : s.usb_drv_config ≡ generate_usb_drv_config s.roms
    pub blocks : s.block_devices ≡ generate_block_devices s.roms

  -- What holds after a PCI report that changes nothing else, and after one that starts the NVMe
  -- driver, holds after any.
  pci_cases :
      (P : Manager → Type 0) (now : Roms) (s : Manager)
      → let r = record s.roms { pci_devices = now.pci_devices } in
        P (record s { roms = r })
        → P (record s { roms = r; nvme = true; init_config = generate_init_config g r true })
        → P (handle_pci_devices_update g now s)
  unfolding handle_pci_devices_update
  pci_cases P now s same new =
      if_cases P (not now.pci_devices.is_valid) same
        (if_cases P (not s.nvme && has_nvme now.pci_devices.classes) new same)

  handle-IsCurrent :
      (u : Update) (now : Roms) (s : Manager) → IsCurrent s → IsCurrent (handle u now s)
  unfolding handle handle_nvme_ns_update handle_sd_cards_update handle_usb_devices_update
      generate_init_config generate_usb_drv_config generate_block_devices
  handle-IsCurrent usb now s h = record { init = h.init; usb_config = refl; blocks = h.blocks }
  handle-IsCurrent nvme now s h = record { init = refl; usb_config = h.usb_config; blocks = refl }
  handle-IsCurrent sd now s h = record { init = refl; usb_config = h.usb_config; blocks = refl }
  handle-IsCurrent pci now s h =
      pci_cases IsCurrent now s
        (record { init = h.init; usb_config = h.usb_config; blocks = h.blocks })
        (record { init = refl; usb_config = h.usb_config; blocks = h.blocks })

  construct_manager-IsCurrent : (now : Roms) (s : Manager) → IsCurrent (construct_manager g now s)
  unfolding construct_manager handle_nvme_ns_update handle_sd_cards_update handle_usb_devices_update
      generate_usb_drv_config
  construct_manager-IsCurrent now s =
      let t =
        handle_usb_devices_update g now
          (record s { init_config = generate_init_config g s.roms s.nvme }) in
      record {
        init = refl;
        usb_config =
            pci_cases (λ (u : Manager). u.usb_drv_config ≡ generate_usb_drv_config u.roms) now t
              refl refl;
        blocks = refl;
      }

  after-IsCurrent : (us : List (Update × Roms)) (s : Manager) → IsCurrent s → IsCurrent (after us s)
  unfolding after
  after-IsCurrent [] s h = h
  after-IsCurrent ((u, now) ∷ us) s h = handle-IsCurrent u now (after us s) (after-IsCurrent us s h)

  -- From its start on, whatever updates come and in whatever order, each of the three
  -- configurations that the manager has reported last is the one that belongs to what it has read
  -- last from every report it follows, and to the drivers that it has started.
  pub after-construct_manager :
      (us : List (Update × Roms)) (now : Roms) (s : Manager)
      → IsCurrent (after us (construct_manager g now s))
  after-construct_manager us now s =
      after-IsCurrent us (construct_manager g now s) (construct_manager-IsCurrent now s)

  -- Whether an update showed a PCI device with the class code of NVMe.
  pub shows_nvme : Update → Roms → Bool
  shows_nvme pci now = now.pci_devices.is_valid && has_nvme now.pci_devices.classes
  shows_nvme u now = false

  pub saw_nvme : List (Update × Roms) → Bool
  saw_nvme [] = false
  saw_nvme ((u, now) ∷ us) = shows_nvme u now || saw_nvme us

  -- The NVMe driver is started exactly if it ran before or one of the PCI reports seen so far was
  -- valid and had a device with its class code; it stays when later reports have no such device.
  pub after-saw_nvme :
      (us : List (Update × Roms)) (s : Manager) → (after us s).nvme ≡ (saw_nvme us || s.nvme)
  unfolding after saw_nvme shows_nvme handle handle_nvme_ns_update handle_sd_cards_update
      handle_usb_devices_update handle_pci_devices_update
  after-saw_nvme [] s = refl
  after-saw_nvme ((usb, now) ∷ us) s = after-saw_nvme us s
  after-saw_nvme ((nvme, now) ∷ us) s = after-saw_nvme us s
  after-saw_nvme ((sd, now) ∷ us) s = after-saw_nvme us s
  after-saw_nvme ((pci, now) ∷ us) s = ground (arith, after-saw_nvme us s)
