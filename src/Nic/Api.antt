-- ===== src/Nic/Api.antt =====
-- What the network drivers exchange with the Linux network stack and the Genode uplink API.
use genode_imx.Base.{ℕ, ℤ, Bool, Ptr, Name, List, [], ◌∷◌, ◌++◌}

-- `struct genode_uplink_args`
pub record Args : Type 0 where
  pub mac_address : List ℕ
  pub label : Name

-- The fields of `struct net_device` that the driver reads and never writes.
pub record NetDevice : Type 0 where
  pub name : Name
  pub addr_len : ℕ
  pub dev_addr : List ℕ

-- `struct sk_buff`, by the bytes from `skb->data` on (`skb->len` many) and its device.
pub record SkBuff : Type 0 where
  pub bytes : List ℕ
  pub dev : Ptr

-- `genode_uplink_rx_result_t`
pub data RxResult : Type 0 where
  retry rejected accepted : RxResult

pub data Event : Type 0 where
  rtnl_lock rtnl_unlock : Event
  dev_open : Ptr → Event
  rx_handler_register : Ptr → Event
  uplink_created : Args → Ptr → Event
  uplink_destroyed : Ptr → Event
  kfree_skb : SkBuff → Event
  task_schedule : Event
  print_create : Name → Event
  print_addr_len : ℕ → Event
  print_saturated : Event
  print_alloc_failed : Event
  print_xmit_failed : Event

-- The network stack and the uplink API over a world of their own: whether a device has a carrier
-- and a receive handler, the calls that return a value, and what an event does to the world.
-- `uplink_rx` is handed the function that takes one packet.
pub record NetApi (W : Type 0) : Type 0 where
  pub carrier_ok : Ptr → W → Bool
  pub rx_handler_busy : Ptr → W → Bool
  pub uplink_create : Args → W → Ptr × W
  pub tx_packet : Ptr → (List ℕ → ℕ × List ℕ) → W → Bool × W
  pub uplink_rx : Ptr → (List ℕ → W → RxResult × W) → W → Bool × W
  pub alloc_skb : ℕ → W → Bool × W
  pub queue_xmit : SkBuff → W → ℤ × W
  pub skb_push : ℕ → SkBuff → SkBuff
  pub perform : Event → W → W

-- The world, the uplink that `dev->ifalias` points to, and the events so far, oldest first.
pub record Net (W : Type 0) : Type 0 where
  pub world : W
  pub ifalias : Ptr → Ptr
  pub events : List Event

module _ {W : Type 0} where
  abbrev pub emit : NetApi W → Event → Net W → Net W
  emit api e s = record s { world = api.perform e s.world; events = s.events ++ e ∷ [] }
