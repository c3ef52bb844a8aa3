-- ===== src/DriverManager/Routes.antt =====
-- Which block devices the driver manager announces, and where it routes their sessions.
use Prim.Native.String.{String}
use package.text.Mathlib.Text.{◌==◌}
use mathlib.Core.List.{Memᴰ}
use mathlib.Core.List.Memᴰ.{head, tail}
use genode_imx.Base.{
  ◌≡◌, Bool, true, false, ◌&&◌, if◌then◌else◌, Option, none, some, List, [], ◌∷◌, ◌++◌, refl, sym,
  ap, ◌∙◌, map, append-nil, subst,
}
use genode_imx.DriverManager.Xml.{
  text, Attrs, Xml, node, raw, Nodes, nil, cons, nodes, SdCard, Namespace, NvmeNs, Services,
}
use genode_imx.DriverManager.Drivers.{sd_forwarding_policy, nvme_forwarding_policy}
use genode_imx.DriverManager.Manager.{
  Roms, generate_init_config, generate_block_devices, sd_device, nvme_device, has_namespace,
  Manager, construct_manager,
}
use genode_imx.DriverManager.Current.{Update, after, after-construct_manager}

-- A reader of configurations: the content of a node, and an attribute with a text.
abbrev pub content : Nodes → List Xml
content nil = []
content (cons x xs) = x ∷ content xs

abbrev pub children : Xml → List Xml
children (node tag attrs xs) = content xs
children (raw s) = []

abbrev pub attribute : String → Attrs → Option String
attribute key [] = none
attribute key ((k, text v) ∷ more) = if key == k then some v else attribute key more
attribute key ((k, v) ∷ more) = attribute key more

-- The texts that an attribute has in the nodes with a tag, in order.
abbrev pub named : Option String → List String → List String
named none rest = rest
named (some v) rest = v ∷ rest

unfoldable pub texts : (tag key : String) → List Xml → List String
texts tag key [] = []
texts tag key (node t attrs xs ∷ ns) =
    let rest = texts tag key ns in if tag == t then named (attribute key attrs) rest else rest
texts tag key (raw s ∷ ns) = texts tag key ns

-- The labels that a report of block devices announces, and the drivers that a configuration starts.
abbrev pub announced : Xml → List String
announced x = texts "device" "label" (children x)

abbrev pub started : Xml → List String
started x = texts "start" "name" (children x)

-- The label and the child of each policy.
abbrev pub policy : Xml → List (String × String)
policy (node tag attrs xs) =
    if tag == "policy"
    then elim (attribute "label_suffix" attrs) [
      | none ↦ []
      | some l ↦ map (λ c. (l, c)) (texts "child" "name" (content xs))
    ]
    else []
policy (raw s) = []

pub policies : List Xml → List (String × String)
policies [] = []
policies (x ∷ xs) = policy x ++ policies xs

-- The policies of a configuration's services.
pub routes : List Xml → List (String × String)
routes [] = []
routes (node tag attrs xs ∷ ns) =
    let rest = routes ns in if tag == "service" then policies (content xs) ++ rest else rest
routes (raw s ∷ ns) = routes ns

content-nodes : (xs : List Xml) → content (nodes xs) ≡ xs
content-nodes [] = refl
content-nodes (x ∷ xs) = ap (λ l. x ∷ l) (content-nodes xs)

texts-sd_device :
    (cards : List SdCard) (ns : List Xml)
    → texts "device" "label" (map sd_device cards ++ ns)
      ≡ map (λ (c : SdCard). c.label) cards ++ texts "device" "label" ns
unfolding texts
texts-sd_device [] ns = refl
texts-sd_device (c ∷ cards) ns = ap (λ l. c.label ∷ l) (texts-sd_device cards ns)

policies-sd_forwarding_policy :
    (cards : List SdCard) (ns : List Xml)
    → policies (sd_forwarding_policy cards ++ ns)
      ≡ map (λ (c : SdCard). (c.label, "sd_card_drv")) cards ++ policies ns
unfolding policies texts
policies-sd_forwarding_policy [] ns = refl
policies-sd_forwarding_policy (c ∷ cards) ns =
    ap (λ l. (c.label, "sd_card_drv") ∷ l) (policies-sd_forwarding_policy cards ns)

texts-nvme_device :
    (model serial : String) (ds : List Namespace)
    → let n : NvmeNs = record { model = model; serial = serial; namespaces = ds } in
      texts "device" "label" (nvme_device n) ≡ (if has_namespace n then "nvme-0" ∷ [] else [])
unfolding texts
texts-nvme_device model serial [] = refl
texts-nvme_device model serial (d ∷ ds) = refl

-- The report of block devices announces each card by its label, and the first name space.
pub announced_lem :
    (r : Roms)
    → announced (generate_block_devices r)
      ≡ map (λ (c : SdCard). c.label) r.sd_cards
        ++ (if has_namespace r.nvme_ns then "nvme-0" ∷ [] else [])
unfolding generate_block_devices
announced_lem r =
    ap (texts "device" "label") (content-nodes (map sd_device r.sd_cards ++ nvme_device r.nvme_ns))
    ∙ texts-sd_device r.sd_cards (nvme_device r.nvme_ns)
    ∙ ap (λ l. map (λ (c : SdCard). c.label) r.sd_cards ++ l)
        (texts-nvme_device r.nvme_ns.model r.nvme_ns.serial r.nvme_ns.namespaces)

policies-forwarding :
    (cards : List SdCard) (b : Bool)
    → policies (
          content
            (nodes (sd_forwarding_policy cards ++ (if b then nvme_forwarding_policy else []))))
        ++ []
      ≡ map (λ (c : SdCard). (c.label, "sd_card_drv")) cards
        ++ (if b then ("nvme-0", "nvme_drv") ∷ [] else [])
unfolding policies texts
policies-forwarding cards b =
    append-nil _
    ∙ ap policies
        (content-nodes (sd_forwarding_policy cards ++ (if b then nvme_forwarding_policy else [])))
    ∙ policies-sd_forwarding_policy cards (if b then nvme_forwarding_policy else [])
    ∙ ap (λ l. map (λ (c : SdCard). (c.label, "sd_card_drv")) cards ++ l) (last b)
  where
    last :
        (b : Bool)
        → policies (if b then nvme_forwarding_policy else [])
          ≡ (if b then ("nvme-0", "nvme_drv") ∷ [] else [])
    last true = refl
    last false = refl

-- The configuration routes each card to the SD card driver, and the name space to the NVMe driver
-- if this runs.
pub routes_lem :
    (g : Services) (r : Roms) (nvme : Bool)
    → routes (children (generate_init_config g r nvme))
      ≡ map (λ (c : SdCard). (c.label, "sd_card_drv")) r.sd_cards
        ++ (if nvme && has_namespace r.nvme_ns then ("nvme-0", "nvme_drv") ∷ [] else [])
unfolding generate_init_config routes
routes_lem g r true = policies-forwarding r.sd_cards (has_namespace r.nvme_ns)
routes_lem g r false = policies-forwarding r.sd_cards false

pub started_lem :
    (g : Services) (r : Roms) (nvme : Bool)
    → started (generate_init_config g r nvme)
      ≡ "sd_card_drv" ∷ (if nvme then "nvme_drv" ∷ [] else [])
unfolding generate_init_config texts
started_lem g r true = refl
started_lem g r false = refl

-- A driver that a list of routes has for a label, and that is started.
abbrev pub Served : String → List (String × String) → List String → Type 0
Served l routed up = (d : String) × Memᴰ (l, d) routed × Memᴰ d up

Served-cards :
    (cards : List SdCard) (labels : List String) (routed : List (String × String))
    (up : List String) (l : String)
    → Memᴰ "sd_card_drv" up
    → (Memᴰ l labels → Served l routed up)
    → Memᴰ l (map (λ (c : SdCard). c.label) cards ++ labels)
    → Served l (map (λ (c : SdCard). (c.label, "sd_card_drv")) cards ++ routed) up
Served-cards [] labels routed up l runs rest m = rest m
Served-cards (c ∷ cards) labels routed up l runs rest (head e) =
    ("sd_card_drv", head (ap (λ k. (k, "sd_card_drv")) e), runs)
Served-cards (c ∷ cards) labels routed up l runs rest (tail m) =
    let (d, route, on) = Served-cards cards labels routed up l runs rest m in (d, tail route, on)

Served-nvme :
    (nvme namespace : Bool) (l : String)
    → (namespace ≡ true → nvme ≡ true)
    → Memᴰ l (if namespace then "nvme-0" ∷ [] else [])
    → Served l
        (if nvme && namespace then ("nvme-0", "nvme_drv") ∷ [] else [])
        ("sd_card_drv" ∷ (if nvme then "nvme_drv" ∷ [] else []))
Served-nvme true true l h (head e) =
    ("nvme_drv", head (ap (λ k. (k, "nvme_drv")) e), tail (head refl))
Served-nvme true true l h (tail m) = elim m [ ]
Served-nvme true false l h m = elim m [ ]
Served-nvme false false l h m = elim m [ ]
Served-nvme false true l h m = let bad : false ≡ true = h refl in absurd cc

generated-Served :
    (g : Services) (r : Roms) (nvme : Bool) (l : String)
    → (has_namespace r.nvme_ns ≡ true → nvme ≡ true)
    → Memᴰ l (announced (generate_block_devices r))
    → let config = generate_init_config g r nvme in
      Served l (routes (children config)) (started config)
generated-Served g r nvme l h m =
    let config = generate_init_config g r nvme in
    let up = "sd_card_drv" ∷ (if nvme then "nvme_drv" ∷ [] else []) in
    let labels = if has_namespace r.nvme_ns then "nvme-0" ∷ [] else [] in
    let routed : List (String × String) =
      if nvme && has_namespace r.nvme_ns then ("nvme-0", "nvme_drv") ∷ [] else [] in
    let all =
      Served-cards r.sd_cards labels routed up l (head refl)
        (Served-nvme nvme (has_namespace r.nvme_ns) l h) (subst (Memᴰ l) (announced_lem r) m) in
    subst (λ rs. Served l rs (started config)) (sym (routes_lem g r nvme))
      (subst (Served l _) (sym (started_lem g r nvme)) all)

-- At any time after its start, whatever updates have come, each block device that the manager
-- announces is routed by the configuration that it has reported to a driver which this
-- configuration starts; provided that, if the report of the NVMe driver has a name space, this
-- driver was started.
pub announced-Served :
    (g : Services) (us : List (Update × Roms)) (now : Roms) (s : Manager) (l : String)
    → let u = after g us (construct_manager g now s) in
      (has_namespace u.roms.nvme_ns ≡ true → u.nvme ≡ true)
      → Memᴰ l (announced u.block_devices)
      → Served l (routes (children u.init_config)) (started u.init_config)
announced-Served g us now s l h m =
    let current = after-construct_manager g us now s in
    let u = after g us (construct_manager g now s) in
    subst (λ i. Served l (routes (children i)) (started i)) (sym current.init)
      (generated-Served g u.roms u.nvme l h (subst (λ b. Memᴰ l (announced b)) current.blocks m))
