-- ===== src/DriverManager/Xml.antt =====
-- The configurations that src/app/driver_manager/imx8mq/main.cc generates, and the reports that
-- it reads.
use Prim.Native.String.{String}
use genode_imx.Base.{ℕ, ℤ, Bool, List, [], ◌∷◌, Option}

-- What is passed to `Xml_generator::attribute`; `quota` is a number of bytes.
pub data Value : Type 0 where
  text : String → Value
  num : ℕ → Value
  int : ℤ → Value
  flag : Bool → Value
  quota : ℕ → Value

abbrev pub Attrs : Type 0
Attrs = List (String × Value)

-- A generated node; `raw` is content that is passed on as it is.
mutual
  pub data Xml : Type 0 where
    node : (tag : String) → Attrs → Nodes → Xml
    raw : String → Xml

  pub data Nodes : Type 0 where
    nil : Nodes
    cons : Xml → Nodes → Nodes

-- A node with the content that its function generates.
abbrev pub nodes : List Xml → Nodes
nodes [] = nil
nodes (x ∷ xs) = cons x (nodes xs)

-- What `attribute_value` gives for the attributes that are read of a USB device.
pub record UsbDevice : Type 0 where
  pub label : String
  pub vendor_id : String
  pub product_id : String
  pub class_code : ℕ

-- The same of an SD card, and of an NVMe name space.
pub record SdCard : Type 0 where
  pub label : String
  pub block_count : ℕ
  pub block_size : ℕ

pub record Namespace : Type 0 where
  pub block_count : ℕ
  pub block_size : ℕ

-- The report of the NVMe driver.
pub record NvmeNs : Type 0 where
  pub model : String
  pub serial : String
  pub namespaces : List Namespace

-- The report of PCI devices: whether there is one yet, and of each device the class code of its
-- configuration, if it has this sub node.
pub record PciDevices : Type 0 where
  pub is_valid : Bool
  pub classes : List (Option ℕ)

-- The names of Genode's services.
pub record Services : Type 0 where
  pub block : String
  pub rom : String
  pub cpu : String
  pub pd : String
  pub rm : String
  pub log : String
  pub timer : String
  pub platform : String
  pub report : String
