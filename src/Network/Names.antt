-- ===== src/Network/Names.antt =====
-- The names of profiles and kinds, and what each profile means: `to_string` and
-- `profile_semantics` of src/network.cpp.
use graphx_docker.Base.{Bytes, codes}
use graphx_docker.Network.{
  NetworkProfile, ethernet, macvlan, ipvlan_l2, ipvlan_l3, ipvlan_l3s, AttachmentKind,
  container_veth, namespace_veth, qemu_tap, external, mirror, SwitchKind, openvswitch, RouterKind,
  linux_namespace, container, NetworkProfileSemantics,
}

unfoldable profile_to_string : NetworkProfile → Bytes
profile_to_string ethernet = codes "ethernet"
profile_to_string macvlan = codes "macvlan"
profile_to_string ipvlan_l2 = codes "ipvlan-l2"
profile_to_string ipvlan_l3 = codes "ipvlan-l3"
profile_to_string ipvlan_l3s = codes "ipvlan-l3s"

unfoldable attachment_to_string : AttachmentKind → Bytes
attachment_to_string container_veth = codes "container_veth"
attachment_to_string namespace_veth = codes "namespace_veth"
attachment_to_string qemu_tap = codes "qemu_tap"
attachment_to_string external = codes "external"
attachment_to_string mirror = codes "mirror"

unfoldable switch_to_string : SwitchKind → Bytes
switch_to_string openvswitch = codes "openvswitch"

unfoldable router_to_string : RouterKind → Bytes
router_to_string linux_namespace = codes "linux_namespace"
router_to_string container = codes "container"

unfoldable profile_semantics : NetworkProfile → NetworkProfileSemantics
profile_semantics ethernet = record {
  mac_identity = codes "endpoint";
  learning = codes "dynamic";
  filtering = codes "ovs";
  arp = codes "endpoint";
  broadcast = codes "flood";
  multicast = codes "flood";
  routing = codes "l2";
  isolation = codes "none";
  management = codes "separate";
}
profile_semantics macvlan = record {
  mac_identity = codes "endpoint";
  learning = codes "dynamic";
  filtering = codes "ovs";
  arp = codes "endpoint";
  broadcast = codes "flood";
  multicast = codes "flood";
  routing = codes "l2";
  isolation = codes "host";
  management = codes "separate";
}
profile_semantics ipvlan_l2 = record {
  mac_identity = codes "shared-uplink";
  learning = codes "suppressed";
  filtering = codes "ovs";
  arp = codes "endpoint-shared-mac";
  broadcast = codes "flood";
  multicast = codes "flood";
  routing = codes "l2";
  isolation = codes "host";
  management = codes "separate";
}
profile_semantics ipvlan_l3 = record {
  mac_identity = codes "shared-uplink";
  learning = codes "none";
  filtering = codes "route";
  arp = codes "suppressed";
  broadcast = codes "suppressed";
  multicast = codes "suppressed";
  routing = codes "l3";
  isolation = codes "endpoint";
  management = codes "separate";
}
profile_semantics ipvlan_l3s = record {
  mac_identity = codes "shared-uplink";
  learning = codes "none";
  filtering = codes "source-validated";
  arp = codes "suppressed";
  broadcast = codes "suppressed";
  multicast = codes "suppressed";
  routing = codes "l3-source-validated";
  isolation = codes "endpoint";
  management = codes "separate";
}
