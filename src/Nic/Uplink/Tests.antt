-- ===== src/Nic/Uplink/Tests.antt =====
-- One network device at the address 1, with a carrier that the world holds.
use genode_imx.Base.{
  ℕ, zero, suc, pos, ◌≡◌, ◌≢◌, ◌<◌, ◌==◌, if◌then◌else◌, Bool, true, false, refl, Ptr, null, List,
  [], ◌∷◌, ◌++◌, arith, replicate,
}
use genode_imx.Base.Memory.{memcpy, memset_from}
use genode_imx.Nic.Api.{
  NetDevice, RxResult, print_create, print_addr_len, uplink_destroyed, NetApi, Net, emit,
}
use genode_imx.Nic.Uplink.{eth_hlen, mac_len, uplink_tx_packet_content}
use genode_imx.Nic.Uplink.Link.{IsSteady, Created, follow_link, follow_link_lem}
use genode_imx.Nic.Uplink.Sessions.{
  occurs, elsewhere, turn, Reach, start, next, Balanced, Reach-Balanced,
}

-- Whether the cable is plugged, and how many packets wait at the session.
abbrev World : Type 0
World = Bool × ℕ

abbrev rx_one : ℕ → (List ℕ → World → RxResult × World) → Bool → Bool × World
rx_one zero f b = (false, (b, 0))
rx_one (suc n) f b = (true, (b, n))

abbrev header : List ℕ
header = replicate eth_hlen 0xff

abbrev api : NetApi World
api = record {
  carrier_ok = λ d w. w.0;
  rx_handler_busy = λ d w. false;
  uplink_create = λ a w. (9, w);
  tx_packet = λ u f w. (true, w);
  uplink_rx = λ u f w. rx_one w.1 f w.0;
  alloc_skb = λ n w. (true, w);
  queue_xmit = λ s w. (pos 0, w);
  skb_push = λ n s. record s { bytes = header ++ s.bytes };
  perform = λ e w. w;
}

abbrev device : Ptr → NetDevice
device p = record { name = []; addr_len = 6; dev_addr = 2 ∷ 0 ∷ 0 ∷ 0 ∷ 0 ∷ 1 ∷ [] }

abbrev plugged : Net World
plugged = record { world = (true, 2); ifalias = λ p. null; events = [] }

short_packet :
    uplink_tx_packet_content api (record { bytes = 7 ∷ 8 ∷ []; dev = 1 }) (replicate 18 5)
    ≡ (16, header ++ 7 ∷ 8 ∷ 0 ∷ 0 ∷ [])
unfolding uplink_tx_packet_content memcpy memset_from
short_packet = refl

falls_one :
    (f : List ℕ → World → RxResult × World) (n : ℕ) (b : Bool)
    → (rx_one n f b).0 ≡ true
    → (rx_one n f b).1.1 < n
falls_one f zero b h = absurd (ground arith)
falls_one f (suc n) b h = omega arith

api-IsSteady : IsSteady api
api-IsSteady = record {
  performed = λ e d w. refl;
  created = λ a d w. refl;
  live = λ a w. omega arith;
}

follow_link_lem_example :
    let t = follow_link api device 1 plugged in
    ((true ≡ false)
      → (t.ifalias 1 ≡ null)
        × (t.events
            ≡ []
              ++ (if plugged.ifalias 1 == null
                  then []
                  else uplink_destroyed (plugged.ifalias 1) ∷ [])))
    × ((true ≡ true) → (plugged.ifalias 1 ≢ null) → t ≡ plugged)
    × ((true ≡ true)
        → (plugged.ifalias 1 ≡ null)
        → ((device 1).addr_len ≡ mac_len)
        → Created api device 1 plugged t)
    × ((true ≡ true)
        → (plugged.ifalias 1 ≡ null)
        → ((device 1).addr_len ≢ mac_len)
        → t ≡ emit api (print_addr_len 6) (emit api (print_create []) plugged))
follow_link_lem_example = follow_link_lem api device 1 plugged api-IsSteady refl

-- The cable is plugged, looked after, pulled, and looked after again.
abbrev connected : Net World
connected = follow_link api device 1 plugged

abbrev pulled : Net World
pulled = record connected { world = (false, 0) }

replugged-Reach : Reach api device (1 ∷ []) (true, 2) (follow_link api device 1 pulled)
unfolding occurs
replugged-Reach =
    next (next (next start (turn 1 plugged refl)) (elsewhere connected (false, 0)))
      (turn 1 pulled refl)

Reach-Balanced_example : Balanced api device (1 ∷ []) (follow_link api device 1 pulled)
Reach-Balanced_example = Reach-Balanced api device (1 ∷ []) api-IsSteady replugged-Reach
