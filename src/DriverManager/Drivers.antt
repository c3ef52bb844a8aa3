-- ===== src/DriverManager/Drivers.antt =====
-- The drivers that src/app/driver_manager/imx8mq/main.cc starts: `Device_driver`,
-- `Sd_card_driver` and `Nvme_driver`.
use Prim.Native.String.{String}
use genode_imx.Base.{ℕ, ◌*◌, ℤ, pos, negsuc, List, [], ◌∷◌, ◌++◌, map}
use genode_imx.DriverManager.Xml.{
  Value, text, num, int, quota, Xml, node, nil, nodes, SdCard, Services,
}

abbrev leaf : String → List (String × Value) → Xml
leaf tag attrs = node tag attrs nil

-- `_gen_common_start_node_content`: the attributes and the first two nodes of a start node.
abbrev pub common_attrs : (name : String) → (caps : ℕ) → (priority : ℤ) → List (String × Value)
common_attrs name caps priority =
    ("name", text name) ∷ ("caps", num caps) ∷ ("priority", int priority) ∷ ("version", num 0) ∷ []

abbrev pub common_nodes : (binary : String) → (ram : ℕ) → List Xml
common_nodes binary ram =
    leaf "binary" (("name", text binary) ∷ [])
    ∷ leaf "resource" (("name", text "RAM") ∷ ("quantum", quota ram) ∷ [])
    ∷ []

-- `_gen_provides_node`
abbrev pub gen_provides_node : String → Xml
gen_provides_node service =
    node "provides" [] (nodes (leaf "service" (("name", text service) ∷ []) ∷ []))

-- `_gen_default_parent_route`
abbrev pub gen_default_parent_route : Xml
gen_default_parent_route = node "any-service" [] (nodes (leaf "parent" [] ∷ []))

-- The route of both drivers: their reports go to the parent.
abbrev route : (label : String) → Xml
route label = node "route" [] (
    nodes (
      node "service" (("name", text "Report") ∷ [])
        (nodes (leaf "parent" (("label", text label) ∷ []) ∷ []))
      ∷ gen_default_parent_route
      ∷ []))

-- The policy of `Sd_card_driver::generate_start_node` for a card.
abbrev sd_policy : SdCard → Xml
sd_policy c = leaf "policy" (("label_suffix", text c.label) ∷ ("device", text c.label) ∷ [])

-- `Sd_card_driver::generate_start_node`
abbrev pub sd_start_node : Services → List SdCard → Xml
sd_start_node g cards = node "start" (common_attrs "sd_card_drv" 300 (pos 0)) (
    nodes (
      common_nodes "imx8mq_sd_card_drv_legacy" (16 * 1024 * 1024)
      ++ gen_provides_node g.block
        ∷ node "config" (("report", text "yes") ∷ []) (nodes (map sd_policy cards))
        ∷ route "sd_cards"
        ∷ []))

-- A policy that hands a label to a child.
abbrev pub forwarding : (label child : String) → Xml
forwarding label child =
    node "policy" (("label_suffix", text label) ∷ [])
      (nodes (leaf "child" (("name", text child) ∷ []) ∷ []))

-- `Sd_card_driver::gen_service_forwarding_policy`
abbrev pub sd_forwarding_policy : List SdCard → List Xml
sd_forwarding_policy cards = map (λ (c : SdCard). forwarding c.label "sd_card_drv") cards

-- `Nvme_driver::generate_start_node`
abbrev pub nvme_start_node : Services → Xml
nvme_start_node g = node "start" (common_attrs "nvme_drv" 100 (negsuc 0)) (
    nodes (
      common_nodes "nvme_drv" (8 * 1024 * 1024)
      ++ gen_provides_node g.block
        ∷ node "config" [] (
            nodes (
              leaf "report" (("namespaces", text "yes") ∷ [])
              ∷ leaf "policy" (
                  ("label_suffix", text "nvme-0")
                  ∷ ("namespace", num 1)
                  ∷ ("writeable", text "yes")
                  ∷ [])
              ∷ []))
        ∷ route "nvme_ns"
        ∷ []))

-- `Nvme_driver::gen_service_forwarding_policy`
abbrev pub nvme_forwarding_policy : List Xml
nvme_forwarding_policy = forwarding "nvme-0" "nvme_drv" ∷ []
