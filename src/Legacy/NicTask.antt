-- ===== src/Legacy/NicTask.antt =====
-- src/drivers/nic/fec_legacy/lx_user.c. Its functions have the text of those of the same names in
-- src/drivers/nic/fec/lx_user.c; only `rtmsg_ifinfo` is its own.
use genode_imx.Base.{
  ℕ, ◌≡◌, ◌≢◌, Option, ◌==◌, ==_of_ne, if◌then◌else◌, Ptr, null, List, [], ◌∷◌, ◌++◌,
}
use genode_imx.Nic.Api.{NetDevice, SkBuff, RxResult, NetApi, Net}
use genode_imx.Nic.Uplink

module _ {W : Type 0} (api : NetApi W) where
  -- `uplink_tx_packet_content`
  abbrev pub uplink_tx_packet_content : SkBuff → List ℕ → ℕ × List ℕ
  uplink_tx_packet_content = Uplink.uplink_tx_packet_content api

  -- `handle_rx`
  abbrev pub handle_rx : SkBuff → Net W → Net W
  handle_rx = Uplink.handle_rx api

  -- `handle_create_uplink`
  abbrev pub handle_create_uplink : (Ptr → NetDevice) → Ptr → Net W → Net W
  handle_create_uplink = Uplink.handle_create_uplink api

  -- `handle_destroy_uplink`
  abbrev pub handle_destroy_uplink : Ptr → Net W → Net W
  handle_destroy_uplink = Uplink.handle_destroy_uplink api

  -- `uplink_rx_one_packet`
  abbrev pub uplink_rx_one_packet : Ptr → List ℕ → W → RxResult × W
  uplink_rx_one_packet = Uplink.uplink_rx_one_packet api

  -- One turn of the loop of `user_task_function`.
  abbrev pub user_task_turn : ℕ → (Ptr → NetDevice) → List Ptr → Net W → Option (Net W)
  user_task_turn = Uplink.user_task_turn api

-- `rtmsg_ifinfo`, over the static `user_task_struct_ptr` and the tasks that were woken so far.
pub rtmsg_ifinfo : Ptr → List Ptr → List Ptr
rtmsg_ifinfo task woken = if task == null then woken else woken ++ task ∷ []

-- A change of a link wakes the task that follows the link, once the task exists.
pub rtmsg_ifinfo-wakes :
    (task : Ptr) (woken : List Ptr) → task ≢ null → rtmsg_ifinfo task woken ≡ woken ++ task ∷ []
unfolding rtmsg_ifinfo
rtmsg_ifinfo-wakes task woken live = rw (==_of_ne task null live)
