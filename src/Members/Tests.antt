-- ===== src/Members/Tests.antt =====
-- The lease 10.80.0.7/24 with two members.
use shadow_lan.Base.{◌≡◌, refl, true, false, ◌==◌, [], ◌∷◌, arith, List, ℕ, Every}
use shadow_lan.Wire.{put32, get32}
use shadow_lan.Members.{
  Member, Lease, apply_assign, assign_bytes, virt_node, node_virt, in_vnet, is_vnet_bcast,
  relay_virt, has_prefix,
}
use shadow_lan.Members.Assign.{
  IsMember, net4, lease_of, apply_assign-assign_bytes, apply_assign_rejects,
}
use shadow_lan.Members.Prefix.{prefix, has_prefix_lem}
use shadow_lan.Members.Peers.{IsNet, in_vnet_lem, virt_node_lem, virt_node-node_virt}

abbrev net : ℕ
net = 0x0a50_0000

abbrev members : List Member
members = record { node = 100; virt = 0x0a50_0007 } ∷ record { node = 200; virt = 0x0a50_0009 } ∷ []

abbrev lease : Lease
lease = lease_of 0x0a50_0007 (net4 10 80 0 0) 24 members

abbrev no_lease : Lease
no_lease = record {
  myvirt = 0;
  vnetb = net4 0 0 0 0;
  vbits = 24;
  members = [];
  have_assign = false;
}

members-IsMember : Every IsMember members
unfolding IsMember
members-IsMember = ((omega arith, omega arith), ((omega arith, omega arith), tt))

apply_assign-assign_bytes_example : apply_assign (assign_bytes lease) no_lease ≡ lease
apply_assign-assign_bytes_example =
    apply_assign-assign_bytes 0x0a50_0007 10 80 0 0 24 members no_lease (omega arith) (omega arith)
      (omega arith) (omega arith) members-IsMember

-- A frame of one byte is no lease.
apply_assign_rejects_test : apply_assign (7 ∷ []) lease ≡ lease
apply_assign_rejects_test = apply_assign_rejects (7 ∷ []) lease refl

lease-IsNet : IsNet lease net
unfolding put32
lease-IsNet = record {
  net = refl;
  small = omega arith;
  bits_pos = omega arith;
  bits_le = omega arith;
  some_member = omega arith;
}

has_prefix_lem_test :
    has_prefix 24 (put32 net) (put32 0x0a50_0009) ≡ (prefix 24 net == prefix 24 0x0a50_0009)
has_prefix_lem_test = has_prefix_lem 24 net 0x0a50_0009 (omega arith) (omega arith) (omega arith)

in_vnet_lem_test : in_vnet lease 0x0a50_0009 ≡ (prefix 24 net == prefix 24 0x0a50_0009)
in_vnet_lem_test = in_vnet_lem lease net lease-IsNet 0x0a50_0009 (omega arith)

virt_node_lem_test : virt_node lease 0x0a50_0009 ≡ 200
virt_node_lem_test = virt_node_lem lease net lease-IsNet 0x0a50_0009 (omega arith)

virt_node-node_virt_example : virt_node lease (node_virt lease 200) ≡ 200
virt_node-node_virt_example =
    virt_node-node_virt lease net lease-IsNet 200 (record { node = 200; virt = 0x0a50_0009 }) refl
      (omega arith) refl (λ e. absurd (omega (arith, e))) (omega arith)

broadcast : (is_vnet_bcast lease 0x0a50_00ff ≡ true) × (relay_virt lease ≡ 0x0a50_0001)
unfolding is_vnet_bcast in_vnet has_prefix put32 relay_virt get32
broadcast = (refl, refl)
