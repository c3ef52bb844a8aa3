-- ===== src/DriverManager/Usb.antt =====
-- Which USB devices the driver manager lets clients use.
use mathlib.Core.List.{Memᴰ}
use mathlib.Core.List.Memᴰ.{head, tail}
use genode_imx.Base.{
  ◌≡◌, Bool, true, false, not, if◌then◌else◌, List, [], ◌∷◌, refl, Bool-cases, inl, inr, subst, sym,
}
use genode_imx.DriverManager.Xml.{Xml, UsbDevice}
use genode_imx.DriverManager.Manager.{expose_as_usb_raw, usb_policy_node, usb_policies}

-- A device of the list whose class is exposed, and whose policy this is.
abbrev pub Exposed : List UsbDevice → Xml → Type 0
Exposed ds x = (d : UsbDevice) × Memᴰ d ds × (expose_as_usb_raw d ≡ true) × (x ≡ usb_policy_node d)

later : {d : UsbDevice} {ds : List UsbDevice} {x : Xml} → Exposed ds x → Exposed (d ∷ ds) x
later (d, m, shown, same) = (d, tail m, shown, same)

policy-Exposed : (ds : List UsbDevice) (x : Xml) → Memᴰ x (usb_policies ds) → Exposed ds x
unfolding usb_policies
policy-Exposed [] x m = elim m [ ]
policy-Exposed (d ∷ ds) x m = go (policy-Exposed ds x) (expose_as_usb_raw d) refl m
  where
    go :
        (Memᴰ x (usb_policies ds) → Exposed ds x)
        → (b : Bool) → expose_as_usb_raw d ≡ b
        → Memᴰ x (if not b then usb_policies ds else usb_policy_node d ∷ usb_policies ds)
        → Exposed (d ∷ ds) x
    go again true shown (head same) = (d, head refl, shown, same)
    go again true shown (tail rest) = later (again rest)
    go again false hidden rest = later (again rest)

Exposed-policy :
    (ds : List UsbDevice) (d : UsbDevice)
    → Memᴰ d ds
    → expose_as_usb_raw d ≡ true
    → Memᴰ (usb_policy_node d) (usb_policies ds)
unfolding usb_policies
Exposed-policy [] d m shown = elim m [ ]
Exposed-policy (c ∷ ds) d (head same) shown =
    subst (λ e. Memᴰ (usb_policy_node d) (usb_policies (e ∷ ds))) same (rw shown (head refl))
Exposed-policy (c ∷ ds) d (tail m) shown = elim (Bool-cases (expose_as_usb_raw c)) [
  | inl too ↦ rw too (tail (Exposed-policy ds d m shown))
  | inr hidden ↦ rw hidden (Exposed-policy ds d m shown)
]

-- The policies for USB devices are those of the devices of the report that are mass storage or
-- vendor specific: each of them has its policy, and there is no policy for another device.
pub usb_policies_lem :
    (ds : List UsbDevice) (x : Xml)
    → (Memᴰ x (usb_policies ds) → Exposed ds x) × (Exposed ds x → Memᴰ x (usb_policies ds))
usb_policies_lem ds x = (
  policy-Exposed ds x,
  λ e. subst (λ y. Memᴰ y (usb_policies ds)) (sym e.3) (Exposed-policy ds e.0 e.1 e.2),
)
