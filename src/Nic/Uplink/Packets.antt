-- ===== src/Nic/Uplink/Packets.antt =====
-- What a packet looks like on its way out, and that taking packets in comes to an end.
use genode_imx.Base.{
  ℕ, zero, suc, ◌+◌, ◌-◌, ◌≡◌, ◌<◌, ◌≤◌, true, false, some, inl, inr, Bool-cases, Ptr, List, ◌++◌,
  arith, length, length-append, replicate,
}
use genode_imx.Base.Memory.{memset-zero, memset-memcpy}
use genode_imx.Nic.Api.{SkBuff, NetApi, Net}
use genode_imx.Nic.Uplink.{eth_hlen, uplink_tx_packet_content, uplink_rx_one_packet, rx_loop}

module _ {W : Type 0} (api : NetApi W) where
  -- If `skb_push` puts a header of as many bytes as it is asked for in front of the packet, the
  -- whole frame is sent when it fits the buffer: its length is returned, and the buffer holds the
  -- frame and zeros behind it. Otherwise 0 is returned and the buffer is all zeros, so that no
  -- byte of an earlier packet goes out in either case.
  pub uplink_tx_packet_content_lem :
      (skb : SkBuff) (dst header : List ℕ)
      → (api.skb_push eth_hlen skb).bytes ≡ header ++ skb.bytes
      → length header ≡ eth_hlen
      → let (n, out) = uplink_tx_packet_content api skb dst in
        let frame = header ++ skb.bytes in
        ((eth_hlen + length skb.bytes ≤ length dst)
          → (n ≡ eth_hlen + length skb.bytes) × (out ≡ frame ++ replicate (length dst - n) 0))
        × ((length dst < eth_hlen + length skb.bytes) → (n ≡ 0) × (out ≡ replicate (length dst) 0))
  unfolding uplink_tx_packet_content
  uplink_tx_packet_content_lem skb dst header pushed len =
      let size : length (header ++ skb.bytes) ≡ eth_hlen + length skb.bytes =
        omega (arith, length-append header skb.bytes) in
      rw pushed (
        λ fits. ground (arith, size, memset-memcpy dst (header ++ skb.bytes)),
        λ large. ground (arith, size, memset-zero dst),
      )

  -- The loop over the session's packets ends once the API reports no progress, and it reports
  -- none at the latest when the packets that wait, as many as `pending` says, are used up: then
  -- the loop has changed neither the devices' sessions nor the calls made so far.
  pub rx_loop-returns :
      (pending : W → ℕ) (n : ℕ) (dev : Ptr) (s : Net W)
      → ((uplink : Ptr) (w : W)
          → (api.uplink_rx uplink (uplink_rx_one_packet api dev) w).0 ≡ true
          → pending (api.uplink_rx uplink (uplink_rx_one_packet api dev) w).1 < pending w)
      → pending s.world < n
      → (w : W) × (rx_loop api n dev s ≡ some (record s { world = w }))
        × ((last : W) × (api.uplink_rx (s.ifalias dev) (uplink_rx_one_packet api dev) last
              ≡ (false, w)))
  unfolding rx_loop
  rx_loop-returns pending zero dev s falls h = absurd (omega arith)
  rx_loop-returns pending (suc n) dev s falls h =
      let rx = api.uplink_rx (s.ifalias dev) (uplink_rx_one_packet api dev) in
      elim (Bool-cases (rx s.world).0) [
        | inl more ↦
            let (w, run, last) =
              rx_loop-returns pending n dev (record s { world = (rx s.world).1 }) falls
                (omega (arith, falls (s.ifalias dev) s.world more)) in
            (w, rw (more, rx_loop) run, last)
        | inr over ↦ ((rx s.world).1, rw (over, rx_loop), (s.world, λ i. (over i, (rx s.world).1)))
      ]
