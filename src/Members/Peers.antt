-- ===== src/Members/Peers.antt =====
-- dt_virt_node and dt_node_virt as maps between the members' node ids and their virtual addresses.
use shadow_lan.Base.{
  ℕ, ◌^◌, ◌≤◌, ◌<◌, ◌≡◌, ◌≢◌, sym, ap, ◌∙◌, ◌&&◌, not, [], some, arith, ◌==◌, if◌then◌else◌, length,
  find?, count, find?_unique, find?_sound,
}
use mathlib.Core.List.{append-nil}
use shadow_lan.Wire.{put32, get32}
use shadow_lan.Wire.Numbers.{get32-put32, put32_digits}
use shadow_lan.Members.{
  Member, Lease, same_bytes, has_prefix, ipnum, virt_node, node_virt, node_of, virt_of, in_vnet,
}
use shadow_lan.Members.Prefix.{prefix, has_prefix_lem}

ipnum-put32 : (h : ℕ) → h < 2 ^ 32 → ipnum (put32 h) ≡ h
ipnum-put32 h hh = ap get32 (sym (append-nil (put32 h))) ∙ get32-put32 h [] hh

same-put32 : (n h : ℕ) → n < 2 ^ 32 → h < 2 ^ 32 → same_bytes (put32 n) (put32 h) ≡ (n == h)
same-put32 n h hn hh = ground (arith, put32_digits n, put32_digits h)

module _ (l : Lease) (n : ℕ) where
  -- The lease's subnet is that of the address `n`, with `vbits` bits.
  pub record IsNet : Type 0 where
    pub net : l.vnetb ≡ put32 n
    pub small : n < 2 ^ 32
    pub bits_pos : 0 < l.vbits
    pub bits_le : l.vbits ≤ 32
    pub some_member : 0 < length l.members

  module _ (v : IsNet) (h : ℕ) (hh : h < 2 ^ 32) where
    pub in_vnet_lem : in_vnet l h ≡ (prefix l.vbits n == prefix l.vbits h)
    unfolding in_vnet
    in_vnet_lem = ground (
      arith,
      ap (λ b. has_prefix l.vbits b (put32 h)) v.net,
      has_prefix_lem l.vbits n h v.bits_le v.small hh,
    )

    -- In a leased subnet dt_virt_node looks up the members' addresses in the subnet, its first
    -- address left out.
    pub virt_node_lem : virt_node l h ≡ (
        if prefix l.vbits n == prefix l.vbits h && not (n == h)
        then node_of (find? (λ m. m.virt == h) l.members)
        else 0)
    unfolding virt_node
    virt_node_lem = ground (
      arith,
      ap (λ b. has_prefix l.vbits b (put32 h)) v.net,
      ap (λ b. same_bytes b (put32 h)) v.net,
      has_prefix_lem l.vbits n h v.bits_le v.small hh,
      same-put32 n h v.small hh,
      ap (λ i. node_of (find? (λ m. m.virt == i) l.members)) (ipnum-put32 h hh),
    )

    -- In a subnet of 32 bits no address is a member's.
    pub virt_node_host : l.vbits ≡ 32 → virt_node l h ≡ 0
    virt_node_host full =
        virt_node_lem ∙ ground (arith, ap (λ b. prefix b n) full, ap (λ b. prefix b h) full)

  -- The member that dt_node_virt finds by its node is the one that dt_virt_node finds by its
  -- address, if the address is in the subnet, is not the subnet's first, and is no other
  -- member's.
  pub virt_node-node_virt :
      IsNet
      → (node : ℕ) (m : Member) → find? (λ i. i.node == node) l.members ≡ some m
      → m.virt < 2 ^ 32
      → prefix l.vbits n ≡ prefix l.vbits m.virt
      → n ≢ m.virt
      → count (λ i. i.virt == m.virt) l.members ≤ 1
      → virt_node l (node_virt l node) ≡ node
  unfolding node_virt
  virt_node-node_virt v node m found small inside apart one =
      let back =
        find?_unique (λ i. i.node == node) (λ i. i.virt == m.virt) l.members m found (ground arith)
          one in
      ap (λ o. virt_node l (virt_of o)) found
      ∙ (virt_node_lem v m.virt small
          ∙ ground (arith, find?_sound (λ i. i.node == node) l.members m found, back))
