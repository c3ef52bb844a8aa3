-- ===== src/Nic/Uplink/Link.antt =====
-- The uplink session follows the carrier.
use genode_imx.Base.{
  ◌≡◌, ◌≢◌, true, false, sym, subst, ◌∙◌, ap, ==_of_ne, ◌==◌, if◌then◌else◌, Ptr, null, length,
  take, replicate, take-length, append_assoc, refl, [], ◌∷◌, ◌++◌, append-nil, arith,
}
use genode_imx.Base.Memory.{memcpy_full}
use genode_imx.Nic.Api.{
  Args, NetDevice, Event, print_create, print_addr_len, uplink_created, uplink_destroyed, NetApi,
  Net, emit,
}
use genode_imx.Nic.Uplink.{
  mac_len, uplink_args, create_uplink, handle_create_uplink, handle_destroy_uplink,
}

-- No call of the driver changes a carrier, and a session that is created has an address.
pub record IsSteady {W : Type 0} (api : NetApi W) : Type 0 where
  pub performed :
      (e : Event) (dev : Ptr) (w : W) → api.carrier_ok dev (api.perform e w) ≡ api.carrier_ok dev w
  pub created :
      (a : Args) (dev : Ptr) (w : W)
      → api.carrier_ok dev (api.uplink_create a w).1 ≡ api.carrier_ok dev w
  pub live : (a : Args) (w : W) → (api.uplink_create a w).0 ≢ null

module _ {W : Type 0} (api : NetApi W) (devices : Ptr → NetDevice) where
  -- The two handlers, in the order in which the task calls them.
  pub follow_link : Ptr → Net W → Net W
  follow_link dev s = handle_destroy_uplink api dev (handle_create_uplink api devices dev s)

  -- Without a carrier the device has no session afterwards, and the session that it had is
  -- destroyed, once.
  pub follow_link-down :
      (dev : Ptr) (s : Net W)
      → api.carrier_ok dev s.world ≡ false
      → ((follow_link dev s).ifalias dev ≡ null)
        × ((follow_link dev s).events
            ≡ s.events
              ++ (if s.ifalias dev == null then [] else uplink_destroyed (s.ifalias dev) ∷ []))
  unfolding follow_link handle_create_uplink handle_destroy_uplink
  follow_link-down dev s down = ground (arith, append-nil s.events)

  -- With a carrier a session that exists stays as it is.
  pub follow_link-stays :
      (dev : Ptr) (s : Net W)
      → api.carrier_ok dev s.world ≡ true
      → s.ifalias dev ≢ null
      → follow_link dev s ≡ s
  unfolding follow_link handle_create_uplink handle_destroy_uplink
  follow_link-stays dev s up has = ground arith

  keeps_session :
      (dev : Ptr) (s : Net W)
      → api.carrier_ok dev s.world ≡ true
      → handle_destroy_uplink api dev s ≡ s
  unfolding handle_destroy_uplink
  keeps_session dev s up = ground arith

  -- A session's label is the device's name, and its address the device's, if that has six bytes.
  uplink_args_lem :
      (d : NetDevice)
      → d.addr_len ≡ mac_len
      → length d.dev_addr ≡ d.addr_len
      → uplink_args api d ≡ record { mac_address = d.dev_addr; label = d.name }
  unfolding uplink_args
  uplink_args_lem d len size =
      let whole : take d.addr_len d.dev_addr ≡ d.dev_addr =
        ap (λ n. take n d.dev_addr) (sym size) ∙ take-length d.dev_addr in
      rw (whole, memcpy_full (replicate mac_len 0) d.dev_addr (size ∙ len))

  -- What creating a session leaves: the device's `ifalias` names it, and the two calls were made.
  abbrev pub Created : Ptr → Net W → Net W → Type 0
  Created dev s t =
      let args : Args = record {
        mac_address = (devices dev).dev_addr;
        label = (devices dev).name;
      } in
      let (uplink, w) =
        api.uplink_create args (api.perform (print_create (devices dev).name) s.world) in
      (t.ifalias dev ≡ uplink)
      × (uplink ≢ null)
      × (t.world ≡ api.perform (uplink_created args uplink) w)
      × (t.events ≡ s.events ++ print_create (devices dev).name ∷ uplink_created args uplink ∷ [])

  -- With a carrier and no session one is created, if the hardware address has the length of a
  -- MAC address.
  pub follow_link-creates :
      (dev : Ptr) (s : Net W)
      → IsSteady api
      → api.carrier_ok dev s.world ≡ true
      → s.ifalias dev ≡ null
      → (devices dev).addr_len ≡ mac_len
      → follow_link dev s
        ≡ create_uplink api dev
            (uplink_args api (devices dev))
            (emit api (print_create (devices dev).name) s)
  unfolding follow_link
  follow_link-creates dev s steady up none_yet fits =
      let printed = emit api (print_create (devices dev).name) s in
      let args = uplink_args api (devices dev) in
      let still : api.carrier_ok dev (create_uplink api dev args printed).world ≡ true =
        steady.performed _ dev _
        ∙ steady.created args dev printed.world
        ∙ steady.performed _ dev s.world
        ∙ up in
      let made : handle_create_uplink api devices dev s ≡ create_uplink api dev args printed =
        unfold handle_create_uplink in rw (none_yet, up, fits) in
      rw made (keeps_session dev (create_uplink api dev args printed) still)

  follow_link-Created :
      (dev : Ptr) (s : Net W)
      → IsSteady api
      → api.carrier_ok dev s.world ≡ true
      → s.ifalias dev ≡ null
      → (devices dev).addr_len ≡ mac_len
      → length (devices dev).dev_addr ≡ (devices dev).addr_len
      → Created dev s (follow_link dev s)
  follow_link-Created dev s steady up none_yet fits size =
      let printed = emit api (print_create (devices dev).name) s in
      let args : Args = record {
        mac_address = (devices dev).dev_addr;
        label = (devices dev).name;
      } in
      let made : follow_link dev s ≡ create_uplink api dev args printed =
        follow_link-creates dev s steady up none_yet fits
        ∙ ap (λ a. create_uplink api dev a printed) (uplink_args_lem (devices dev) fits size) in
      subst (Created dev s) (sym made) (
        ground arith,
        steady.live args printed.world,
        refl,
        append_assoc s.events (print_create (devices dev).name ∷ [])
            (uplink_created args (api.uplink_create args printed.world).0 ∷ []),
      )

  pub follow_link-refuses :
      (dev : Ptr) (s : Net W)
      → api.carrier_ok dev s.world ≡ true
      → s.ifalias dev ≡ null
      → (devices dev).addr_len ≢ mac_len
      → follow_link dev s
        ≡ emit api
            (print_addr_len (devices dev).addr_len)
            (emit api (print_create (devices dev).name) s)
  unfolding follow_link handle_create_uplink handle_destroy_uplink
  follow_link-refuses dev s up none_yet differs =
      rw (none_yet, up, ==_of_ne _ _ differs) (rw none_yet)

  -- Each turn of the task makes a device's session follow its carrier. Without a carrier the
  -- device has no session afterwards, and one that it had is destroyed, once. With a carrier a
  -- session that exists stays, and nothing is called; else a session with the device's address and
  -- name is created after one message, and the device's `ifalias` names it, if the address has the
  -- length of a MAC address; and if it has not, nothing but two messages comes of it. The address
  -- of the device has as many bytes as it says, and no call changes a carrier.
  pub follow_link_lem :
      (dev : Ptr) (s : Net W)
      → IsSteady api
      → length (devices dev).dev_addr ≡ (devices dev).addr_len
      → let t = follow_link dev s in
        ((api.carrier_ok dev s.world ≡ false)
          → (t.ifalias dev ≡ null)
            × (t.events
                ≡ s.events
                  ++ (if s.ifalias dev == null then [] else uplink_destroyed (s.ifalias dev) ∷ [])))
        × ((api.carrier_ok dev s.world ≡ true) → (s.ifalias dev ≢ null) → t ≡ s)
        × ((api.carrier_ok dev s.world ≡ true)
            → (s.ifalias dev ≡ null)
            → ((devices dev).addr_len ≡ mac_len)
            → Created dev s t)
        × ((api.carrier_ok dev s.world ≡ true)
            → (s.ifalias dev ≡ null)
            → ((devices dev).addr_len ≢ mac_len)
            → t
              ≡ emit api
                  (print_addr_len (devices dev).addr_len)
                  (emit api (print_create (devices dev).name) s))
  follow_link_lem dev s steady size = (
    follow_link-down dev s,
    follow_link-stays dev s,
    λ up none_yet fits. follow_link-Created dev s steady up none_yet fits size,
    follow_link-refuses dev s,
  )

  -- The other devices keep their sessions.
  pub follow_link-others :
      (dev : Ptr) (s : Net W) → (p : Ptr) → p ≢ dev → (follow_link dev s).ifalias p ≡ s.ifalias p
  unfolding follow_link handle_create_uplink handle_destroy_uplink
  follow_link-others dev s p apart = ground arith
