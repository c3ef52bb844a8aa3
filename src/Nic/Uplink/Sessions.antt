-- ===== src/Nic/Uplink/Sessions.antt =====
-- Sessions do not leak, however the cables are plugged.
use genode_imx.Base.{
  ℕ, suc, ◌+◌, ◌≡◌, ◌≢◌, refl, ◌∙◌, ap, inl, inr, Bool-cases, ◌==◌, if◌then◌else◌, Ptr, null, List,
  [], ◌∷◌, ◌++◌, append_assoc, arith,
}
use genode_imx.Nic.Api.{
  NetDevice, Event, print_create, print_addr_len, uplink_created, uplink_destroyed, NetApi, Net,
  emit,
}
use genode_imx.Nic.Uplink.{mac_len, uplink_args}
use genode_imx.Nic.Uplink.Link.{
  IsSteady, follow_link, follow_link-down, follow_link-stays, follow_link-creates,
  follow_link-refuses, follow_link-others,
}

-- How many sessions the calls have created, and how many destroyed.
pub created : List Event → ℕ
created [] = 0
created (uplink_created a p ∷ es) = suc (created es)
created (_ ∷ es) = created es

pub destroyed : List Event → ℕ
destroyed [] = 0
destroyed (uplink_destroyed p ∷ es) = suc (destroyed es)
destroyed (_ ∷ es) = destroyed es

-- How many of the devices have a session.
pub with_session : (Ptr → Ptr) → List Ptr → ℕ
with_session f [] = 0
with_session f (d ∷ ds) = (if f d == null then 0 else 1) + with_session f ds

-- How often a device stands in the list.
unfoldable pub occurs : Ptr → List Ptr → ℕ
occurs p [] = 0
occurs p (d ∷ ds) = (if d == p then 1 else 0) + occurs p ds

created-append : (es fs : List Event) → created (es ++ fs) ≡ created es + created fs
unfolding created
created-append [] fs = omega arith
created-append (uplink_created a p ∷ es) fs = omega (arith, created-append es fs)
created-append (_ ∷ es) fs = created-append es fs

destroyed-append : (es fs : List Event) → destroyed (es ++ fs) ≡ destroyed es + destroyed fs
unfolding destroyed
destroyed-append [] fs = omega arith
destroyed-append (uplink_destroyed p ∷ es) fs = omega (arith, destroyed-append es fs)
destroyed-append (_ ∷ es) fs = destroyed-append es fs

with_session-change_none :
    (f g : Ptr → Ptr) (dev : Ptr) (ds : List Ptr)
    → ((p : Ptr) → p ≢ dev → g p ≡ f p)
    → occurs dev ds ≡ 0
    → with_session g ds ≡ with_session f ds
unfolding with_session occurs
with_session-change_none f g dev [] same h = refl
with_session-change_none f g dev (d ∷ ds) same h =
    ground (arith, same d, with_session-change_none f g dev ds same)

-- A change at a device that stands in the list once.
with_session-change :
    (f g : Ptr → Ptr) (dev : Ptr) (ds : List Ptr)
    → ((p : Ptr) → p ≢ dev → g p ≡ f p)
    → occurs dev ds ≡ 1
    → with_session g ds + (if f dev == null then 0 else 1)
      ≡ with_session f ds + (if g dev == null then 0 else 1)
unfolding with_session occurs
with_session-change f g dev [] same h = absurd (ground arith)
with_session-change f g dev (d ∷ ds) same h = elim (Bool-cases (d == dev)) [
  | inl here ↦
      let e : d ≡ dev = ground arith in
      rw e (ground (arith, with_session-change_none f g dev ds same))
  | inr there ↦ ground (arith, same d, with_session-change f g dev ds same)
]

module _ {W : Type 0} (api : NetApi W) (devices : Ptr → NetDevice) (devs : List Ptr) where
  -- The world moves on by itself, cables included, or the task looks after one device.
  pub data Step : Net W → Net W → Type 0 where
    elsewhere : (s : Net W) (w : W) → Step s (record s { world = w })
    turn : (dev : Ptr) (s : Net W) → occurs dev devs ≡ 1 → Step s (follow_link api devices dev s)

  pub data Reach (w : W) : Net W → Type 0 where
    start : Reach w (record { world = w; ifalias = λ p. null; events = [] })
    next : {s t : Net W} → Reach w s → Step s t → Reach w t

  abbrev pub Balanced : Net W → Type 0
  Balanced s = created s.events ≡ destroyed s.events + with_session s.ifalias devs

  Balanced-by :
      (dev : Ptr) (es : List Event) (s t : Net W)
      → occurs dev devs ≡ 1
      → ((p : Ptr) → p ≢ dev → t.ifalias p ≡ s.ifalias p)
      → t.events ≡ s.events ++ es
      → created es + (if s.ifalias dev == null then 0 else 1)
        ≡ destroyed es + (if t.ifalias dev == null then 0 else 1)
      → Balanced s
      → Balanced t
  Balanced-by dev es s t once same more delta before = rw more (
      omega (
        arith,
        created-append s.events es,
        destroyed-append s.events es,
        with_session-change s.ifalias t.ifalias dev devs same once,
      ))

  Step-Balanced : {s t : Net W} → IsSteady api → Step s t → Balanced s → Balanced t
  unfolding created destroyed
  Step-Balanced steady (elsewhere s w) before = before
  Step-Balanced steady (turn dev s once) before =
      let t = follow_link api devices dev s in
      let same = follow_link-others api devices dev s in
      elim (Bool-cases (api.carrier_ok dev s.world)) [
        | inr off ↦
            let (gone, more) = follow_link-down api devices dev s off in
            Balanced-by dev _ s t once same more (ground arith) before
        | inl on ↦ elim (Bool-cases (s.ifalias dev == null)) [
          | inr has ↦ rw (follow_link-stays api devices dev s on (ground arith)) before
          | inl lacks ↦ elim (Bool-cases ((devices dev).addr_len == mac_len)) [
            | inl fits ↦
                let args = uplink_args api (devices dev) in
                let printed = emit api (print_create (devices dev).name) s in
                let made =
                  follow_link-creates api devices dev s steady on (ground arith) (ground arith) in
                Balanced-by dev
                  (print_create (devices dev).name
                    ∷ uplink_created args (api.uplink_create args printed.world).0
                    ∷ [])
                  s t once same (ap (λ (n : Net W). n.events) made ∙ append_assoc s.events _ _)
                  (rw made (ground (arith, steady.live args printed.world))) before
            | inr odd ↦
                let made = follow_link-refuses api devices dev s on (ground arith) (ground arith) in
                Balanced-by dev
                  (print_create (devices dev).name ∷ print_addr_len (devices dev).addr_len ∷ []) s t
                  once same (ap (λ (n : Net W). n.events) made ∙ append_assoc s.events _ _)
                  (rw made (ground arith)) before
          ]
        ]
      ]

  start_with_none : (ds : List Ptr) → with_session (λ p. null) ds ≡ 0
  unfolding with_session
  start_with_none [] = refl
  start_with_none (d ∷ ds) = omega (arith, start_with_none ds)

  -- From the start of the driver on, whatever the cables do and in whatever order the task looks
  -- after the devices of its list, each of which stands there once, as many sessions have been
  -- created as have been destroyed and are open together.
  pub Reach-Balanced : {w : W} {s : Net W} → IsSteady api → Reach w s → Balanced s
  unfolding created destroyed
  Reach-Balanced steady start = omega (arith, start_with_none devs)
  Reach-Balanced steady (next r step) = Step-Balanced steady step (Reach-Balanced steady r)
