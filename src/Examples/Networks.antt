-- ===== src/Examples/Networks.antt =====
-- The network definitions at concrete inputs.
use graphx_docker.Base.{ℕ, ◌≡◌, refl, true, none, some, [], ◌∷◌, Bytes, codes, ok, err}
use graphx_docker.Attributes.{bytes_equal}
use graphx_docker.Network.{
  NetworkInfrastructureConfig, NetworkDefinition, SwitchDefinition, EdgeNetworkPath, ethernet,
  openvswitch, unknown_network, unknown_switch, unknown_router, unknown_edge_path, network,
  network_switch, router, edge_path,
}
use graphx_docker.Network.Lookup.{FindsFirst, lookups-FindsFirst}

abbrev network_of : Bytes → Bytes → NetworkDefinition
network_of name gateway = record {
  id = name;
  profile = some ethernet;
  subnets = codes "10.1.0.0/24" ∷ [];
  gateway = gateway;
  uplink = [];
  is_external = true;
}

abbrev main_switch : SwitchDefinition
main_switch = record {
  id = codes "main";
  kind = openvswitch;
  datapath = codes "system";
  ports = [];
  mirror_port = none;
}

abbrev main_path : EdgeNetworkPath
main_path = record { edge_id = codes "main"; hops = codes "a" ∷ codes "b" ∷ [] }

-- Two networks with one id, behind another one; no router.
abbrev config : NetworkInfrastructureConfig ℕ
config = record {
  networks =
      network_of (codes "other") (codes "10.1.0.1")
      ∷ network_of (codes "main") (codes "10.1.0.2")
      ∷ network_of (codes "main") (codes "10.1.0.3")
      ∷ [];
  switches = main_switch ∷ [];
  routers = [];
  attachments = [];
  edge_paths = main_path ∷ [];
  captures = [];
  faults = [];
}

finds_main :
    (network config (codes "main") ≡ ok (network_of (codes "main") (codes "10.1.0.2")))
    × (network_switch config (codes "main") ≡ ok main_switch)
    × (router config (codes "main") ≡ err (unknown_router (codes "main")))
    × (edge_path config (codes "main") ≡ ok main_path)
unfolding network network_switch router edge_path bytes_equal
finds_main = (refl, refl, refl, refl)

lookups-FindsFirst_example :
    FindsFirst
      (λ v. v.id)
      unknown_network
      config.networks
      (codes "main")
      (network config (codes "main"))
    × FindsFirst
        (λ v. v.id)
        unknown_switch
        config.switches
        (codes "main")
        (network_switch config (codes "main"))
    × FindsFirst
        (λ v. v.id)
        unknown_router
        config.routers
        (codes "main")
        (router config (codes "main"))
    × FindsFirst
        (λ v. v.edge_id)
        unknown_edge_path
        config.edge_paths
        (codes "main")
        (edge_path config (codes "main"))
lookups-FindsFirst_example = lookups-FindsFirst config (codes "main")
