-- ===== src/Nic/Uplink.antt =====
-- src/drivers/nic/fec/lx_user.c: packets between the network stack and the Genode uplink session,
-- and the session's life by the state of the link.
pub mod Packets
pub mod Link
pub mod Sessions
mod Tests
use genode_imx.Base.{
  ℕ, zero, suc, ℤ, Bool, true, false, not, Option, none, some, ◌==◌, ltb, if◌then◌else◌, is_neg,
  Ptr, null, List, [], ◌∷◌, length, take, replicate,
}
use genode_imx.Base.Memory.{memcpy, memset_from}
use genode_imx.Nic.Api.{
  Args, NetDevice, SkBuff, RxResult, retry, rejected, accepted, Event, rtnl_lock, rtnl_unlock,
  dev_open, rx_handler_register, uplink_created, uplink_destroyed, kfree_skb, task_schedule,
  print_create, print_addr_len, print_saturated, print_alloc_failed, print_xmit_failed, NetApi, Net,
  emit,
}

-- `ETH_HLEN`
abbrev pub eth_hlen : ℕ
eth_hlen = 14

-- `sizeof(args.mac_address)`
abbrev pub mac_len : ℕ
mac_len = 6

module _ {W : Type 0} (api : NetApi W) where
  -- `uplink_tx_packet_content`: the length that it returns, and the buffer it leaves
  pub uplink_tx_packet_content : SkBuff → List ℕ → ℕ × List ℕ
  uplink_tx_packet_content skb dst =
      let bytes = (api.skb_push eth_hlen skb).bytes in
      if ltb (length dst) (length bytes)
      then (0, memset_from 0 dst)
      else (length bytes, memset_from (length bytes) (memcpy dst bytes))

  -- `handle_rx`, which always consumes the packet
  pub handle_rx : SkBuff → Net W → Net W
  unfolding uplink_tx_packet_content
  handle_rx skb s =
      let (progress, w) =
        api.tx_packet (s.ifalias skb.dev) (uplink_tx_packet_content skb) s.world in
      let sent = record s { world = w } in
      emit api (kfree_skb skb) (if progress then sent else emit api print_saturated sent)

  -- The arguments that `handle_create_uplink` fills.
  pub uplink_args : NetDevice → Args
  uplink_args d = record {
    mac_address = memcpy (replicate mac_len 0) (take d.addr_len d.dev_addr);
    label = d.name;
  }

  abbrev pub set_ifalias : Ptr → Ptr → Net W → Net W
  set_ifalias dev uplink s = record s { ifalias = λ p. if dev == p then uplink else s.ifalias p }

  abbrev pub create_uplink : Ptr → Args → Net W → Net W
  create_uplink dev args s =
      let (uplink, w) = api.uplink_create args s.world in
      set_ifalias dev uplink (emit api (uplink_created args uplink) (record s { world = w }))

  -- `handle_create_uplink`
  pub handle_create_uplink : (Ptr → NetDevice) → Ptr → Net W → Net W
  unfolding uplink_args
  handle_create_uplink devices dev s =
      if not (s.ifalias dev == null)
      then s
      else if not (api.carrier_ok dev s.world)
      then s
      else let s' = emit api (print_create (devices dev).name) s in
        if not ((devices dev).addr_len == mac_len)
        then emit api (print_addr_len (devices dev).addr_len) s'
        else create_uplink dev (uplink_args (devices dev)) s'

  -- `handle_destroy_uplink`
  pub handle_destroy_uplink : Ptr → Net W → Net W
  handle_destroy_uplink dev s =
      if s.ifalias dev == null
      then s
      else if api.carrier_ok dev s.world
      then s
      else set_ifalias dev null (emit api (uplink_destroyed (s.ifalias dev)) s)

  -- `uplink_rx_one_packet` for a packet of the given bytes, with the message that it prints
  pub uplink_rx_one_packet : Ptr → List ℕ → W → RxResult × W
  uplink_rx_one_packet dev bytes w =
      let (got, w') = api.alloc_skb (length bytes) w in
      if not got
      then (retry, api.perform print_alloc_failed w')
      else let (r, w'') = api.queue_xmit (record { bytes = bytes; dev = dev }) w' in
        if is_neg r then (rejected, api.perform print_xmit_failed w'') else (accepted, w'')

  -- `while (genode_uplink_rx(...));` for as many rounds as the first argument says
  pub rx_loop : ℕ → Ptr → Net W → Option (Net W)
  rx_loop zero dev s = none
  rx_loop (suc n) dev s =
      let (progress, w) = api.uplink_rx (s.ifalias dev) (uplink_rx_one_packet dev) s.world in
      elim progress [
        | true ↦ rx_loop n dev (record s { world = w })
        | false ↦ some (record s { world = w })
      ]

  -- The part of the task's loop before the packets: open the device, install the handler once,
  -- and respond to the cable.
  pub prepare_device : (Ptr → NetDevice) → Ptr → Net W → Net W
  unfolding handle_create_uplink handle_destroy_uplink
  prepare_device devices dev s =
      let opened = emit api (dev_open dev) (emit api rtnl_lock s) in
      let registered =
        if not (api.rx_handler_busy dev opened.world)
        then emit api (rx_handler_register dev) opened
        else opened in
      handle_destroy_uplink dev (handle_create_uplink devices dev registered)

  -- The body of `for_each_netdev` in `user_task_function`
  pub handle_device : ℕ → (Ptr → NetDevice) → Ptr → Net W → Option (Net W)
  unfolding prepare_device rx_loop
  handle_device n devices dev s =
      let s' = prepare_device devices dev s in
      elim (if api.carrier_ok dev s'.world then rx_loop n dev s' else some s') [
        | none ↦ none
        | some t ↦ some (emit api rtnl_unlock t)
      ]

  -- One turn of the endless loop of `user_task_function` over the devices, and its sleep.
  pub user_task_turn : ℕ → (Ptr → NetDevice) → List Ptr → Net W → Option (Net W)
  unfolding handle_device
  user_task_turn n devices [] s = some (emit api task_schedule s)
  user_task_turn n devices (dev ∷ devs) s = elim (handle_device n devices dev s) [
    | none ↦ none
    | some t ↦ user_task_turn n devices devs t
  ]
