-- ===== src/Network.antt =====
-- The network definitions of include/graphx/network.hpp and the lookups by id of src/network.cpp. A string is a list of byte values; `double` is a
-- parameter.
pub mod Lookup
pub mod Names
use graphx_docker.Base.{ℕ, Bool, true, Option, List, [], ◌∷◌, Bytes, Result, ok, err, if◌then◌else◌}
use graphx_docker.Attributes.{bytes_equal}

pub data NetworkProfile : Type 0 where
  ethernet : NetworkProfile
  macvlan : NetworkProfile
  ipvlan_l2 : NetworkProfile
  ipvlan_l3 : NetworkProfile
  ipvlan_l3s : NetworkProfile

pub data AttachmentKind : Type 0 where
  container_veth : AttachmentKind
  namespace_veth : AttachmentKind
  qemu_tap : AttachmentKind
  external : AttachmentKind
  mirror : AttachmentKind

pub data SwitchKind : Type 0 where
  openvswitch : SwitchKind

pub data RouterKind : Type 0 where
  linux_namespace : RouterKind
  container : RouterKind

pub record NetworkProfileSemantics : Type 0 where
  pub mac_identity : Bytes
  pub learning : Bytes
  pub filtering : Bytes
  pub arp : Bytes
  pub broadcast : Bytes
  pub multicast : Bytes
  pub routing : Bytes
  pub isolation : Bytes
  pub management : Bytes

pub record VlanMetadata : Type 0 where
  pub access_tag : Option ℕ
  pub trunks : List ℕ

pub record NetworkDefinition : Type 0 where
  pub id : Bytes
  pub profile : Option NetworkProfile
  pub subnets : List Bytes
  pub gateway : Bytes
  pub uplink : Bytes
  pub is_external : Bool

pub record RouteDefinition : Type 0 where
  pub destination : Bytes
  pub via : Bytes
  pub device : Bytes
  pub install_on_create : Bool

pub record AttachmentDefinition : Type 0 where
  pub mirror_container : Bool
  pub id : Bytes
  pub kind : AttachmentKind
  pub owner : Bytes
  pub network : Bytes
  pub address : Bytes
  pub mac : Bytes
  pub interface : Bytes
  pub peer : Bytes
  pub network_switch : Bytes
  pub mtu : ℕ
  pub tap_uid : ℕ
  pub tap_gid : ℕ
  pub routes : List RouteDefinition
  pub aliases : List Bytes

pub record SwitchPortDefinition : Type 0 where
  pub id : Bytes
  pub interface : Bytes
  pub peer : Bytes
  pub vlan : VlanMetadata

pub record MirrorDefinition : Type 0 where
  pub id : Bytes
  pub output_port : Bytes
  pub select_all : Bool

pub record SwitchDefinition : Type 0 where
  pub id : Bytes
  pub kind : SwitchKind
  pub datapath : Bytes
  pub ports : List SwitchPortDefinition
  pub mirror_port : Option MirrorDefinition

pub record PolicyDefinition : Type 0 where
  pub id : Bytes
  pub source : Bytes
  pub destination : Bytes
  pub action : Bytes

pub record RouterInterfaceDefinition : Type 0 where
  pub id : Bytes
  pub network : Bytes
  pub address : Bytes
  pub device : Bytes
  pub peer : Bytes
  pub network_switch : Bytes

pub record RouterDefinition : Type 0 where
  pub id : Bytes
  pub kind : RouterKind
  pub namespace_name : Bytes
  pub forwarding : Bool
  pub interfaces : List RouterInterfaceDefinition
  pub routes : List RouteDefinition
  pub policies : List PolicyDefinition

pub record EdgeNetworkPath : Type 0 where
  pub edge_id : Bytes
  pub hops : List Bytes

pub record NetworkCaptureDefinition : Type 0 where
  pub id : Bytes
  pub attachment : Bytes
  pub directory : Bytes
  pub snaplen : ℕ
  pub max_file_bytes : ℕ
  pub max_files : ℕ
  pub rotation_seconds : ℕ
  pub retention_seconds : ℕ

pub record NetworkFaultDefinition (F : Type 0) : Type 0 where
  pub id : Bytes
  pub attachment : Bytes
  pub delay_ms : ℕ
  pub jitter_ms : ℕ
  pub loss_percent : F
  pub rate_kbit : ℕ
  pub duration_seconds : ℕ

pub record NetworkInfrastructureConfig (F : Type 0) : Type 0 where
  pub networks : List NetworkDefinition
  pub switches : List SwitchDefinition
  pub routers : List RouterDefinition
  pub attachments : List AttachmentDefinition
  pub edge_paths : List EdgeNetworkPath
  pub captures : List NetworkCaptureDefinition
  pub faults : List (NetworkFaultDefinition F)

-- The messages of `std::out_of_range`, each with the id in quotes.
pub data NetworkError : Type 0 where
  unknown_network : Bytes → NetworkError
  unknown_switch : Bytes → NetworkError
  unknown_router : Bytes → NetworkError
  unknown_edge_path : Bytes → NetworkError

-- The search of the four lookups, and the exception at its end.
unfoldable pub find_by :
    {A : Type 0} → (A → Bytes) → (Bytes → NetworkError) → Bytes → List A → Result NetworkError A
find_by key error id [] = err (error id)
find_by key error id (a ∷ values) =
    let rest = find_by key error id values in if bytes_equal (key a) id then ok a else rest

module _ {F : Type 0} where
  unfoldable pub network :
      NetworkInfrastructureConfig F → Bytes → Result NetworkError NetworkDefinition
  unfolding find_by
  network config id = find_by (λ v. v.id) unknown_network id config.networks

  unfoldable pub network_switch :
      NetworkInfrastructureConfig F → Bytes → Result NetworkError SwitchDefinition
  unfolding find_by
  network_switch config id = find_by (λ v. v.id) unknown_switch id config.switches

  unfoldable pub router :
      NetworkInfrastructureConfig F → Bytes → Result NetworkError RouterDefinition
  unfolding find_by
  router config id = find_by (λ v. v.id) unknown_router id config.routers

  unfoldable pub edge_path :
      NetworkInfrastructureConfig F → Bytes → Result NetworkError EdgeNetworkPath
  unfolding find_by
  edge_path config id = find_by (λ v. v.edge_id) unknown_edge_path id config.edge_paths
