-- ===== src/Members.antt =====
-- hook/hk_ports.c, hook/hk_udp.c: the subnet that the relay leases to this node, and who else is in it.
-- An address is its ntohl number; its four octets in memory are those of dt_put32.
mod Tests
pub mod Assign
pub mod Prefix
pub mod Peers
use shadow_lan.Base.{
  ℕ, ◌+◌, ◌-◌, ◌*◌, ◌/◌, ◌%◌, ◌^◌, Bool, true, false, ◌&&◌, not, List, [], ◌∷◌, ◌++◌, Option, none,
  some, ltb, leb, ◌==◌, if◌then◌else◌, bit_and, bit_or, find?, length, take, drop, zero, suc,
}
use shadow_lan.Wire.{Bytes, put32, put16, get32, get16, at, shl, shr}

-- dt_member
pub record Member : Type 0 where
  pub node : ℕ
  pub virt : ℕ

-- g_myvirt, g_vnetb, g_vbits, g_members, g_have_assign
pub record Lease : Type 0 where
  pub myvirt : ℕ
  pub vnetb : Bytes
  pub vbits : ℕ
  pub members : List Member
  pub have_assign : Bool

-- DT_MAXMEMB, DT_ASSIGN_HDR_N
abbrev pub max_members : ℕ
max_members = 256

abbrev pub header : ℕ
header = 11

-- dt_ipnum
abbrev pub ipnum : Bytes → ℕ
ipnum b = get32 b

-- The loop of dt_apply_assign over the `cnt` pairs after the header
unfoldable pub read_members : ℕ → Bytes → List Member
read_members zero b = []
read_members (suc cnt) b =
    record { node = ipnum b; virt = ipnum (drop 4 b) } ∷ read_members cnt (drop 8 b)

abbrev pub member_count : Bytes → ℕ
member_count p = bit_or (shl (at p 9) 8) (at p 10)

-- dt_apply_assign
unfoldable pub apply_assign : Bytes → Lease → Lease
apply_assign p l =
    if ltb (length p) header
    then l
    else if leb (at p 8) 0
    then l
    else if ltb 32 (at p 8)
    then l
    else if ltb max_members (member_count p)
    then l
    else if not (length p == header + 8 * member_count p)
    then l
    else record {
      myvirt = ipnum p;
      vnetb = take 4 (drop 4 p);
      vbits = at p 8;
      members = read_members (member_count p) (drop header p);
      have_assign = true;
    }

-- memcmp of two arrays of octets
abbrev pub same_bytes : Bytes → Bytes → Bool
same_bytes [] [] = true
same_bytes [] (b ∷ bs) = false
same_bytes (a ∷ xs) [] = false
same_bytes (a ∷ xs) (b ∷ ys) = if a == b then same_bytes xs ys else false

-- `(0xFFu << (8 - rem)) & 0xFFu`
abbrev pub mask : ℕ → ℕ
mask rem = bit_and (shl 0xff (8 - rem)) 0xff

-- The test of dt_virt_node and dt_in_vnet that an address has the first `bits` bits of the net's
unfoldable pub has_prefix : ℕ → Bytes → Bytes → Bool
has_prefix bits net ab =
    let full = bits / 8 in
    let rem = bits % 8 in
    if not (same_bytes (take full net) (take full ab))
    then false
    else if rem == 0
    then true
    else bit_and (at net full) (mask rem) == bit_and (at ab full) (mask rem)

abbrev pub is_leased : Lease → Bool
is_leased l = ltb 0 (length l.members) && (ltb 0 l.vbits && leb l.vbits 32)

abbrev pub node_of : Option Member → ℕ
node_of none = 0
node_of (some m) = m.node

abbrev pub virt_of : Option Member → ℕ
virt_of none = 0
virt_of (some m) = m.virt

-- dt_virt_node
unfoldable pub virt_node : Lease → ℕ → ℕ
virt_node l h =
    let ab = put32 h in
    if is_leased l && (has_prefix l.vbits l.vnetb ab && not (same_bytes l.vnetb ab))
    then node_of (find? (λ m. m.virt == ipnum ab) l.members)
    else 0

-- dt_node_virt
unfoldable pub node_virt : Lease → ℕ → ℕ
node_virt l node = virt_of (find? (λ m. m.node == node) l.members)

-- dt_in_vnet
unfoldable pub in_vnet : Lease → ℕ → Bool
in_vnet l h = if is_leased l then has_prefix l.vbits l.vnetb (put32 h) else false

abbrev all_ff : Bytes → Bool
all_ff [] = true
all_ff (b ∷ bs) = if b == 0xff then all_ff bs else false

-- dt_is_vnet_bcast
unfoldable pub is_vnet_bcast : Lease → ℕ → Bool
is_vnet_bcast l h =
    let ab = put32 h in
    let full = l.vbits / 8 in
    let rem = l.vbits % 8 in
    if not (in_vnet l h)
    then false
    else if not (all_ff (drop (full + (if rem == 0 then 0 else 1)) ab))
    then false
    else if rem == 0
    then true
    else bit_and (at ab full) (shr 0xff rem) == shr 0xff rem

-- dt_relay_virt
unfoldable pub relay_virt : Lease → ℕ
relay_virt l = if ltb 0 (length l.members) then bit_or (ipnum l.vnetb) 1 else 0

-- dt_is_dial_local; `me` is g_node
unfoldable pub is_dial_local : ℕ → ℕ → Bool
is_dial_local me node = not (node == 0) && node == me

-- The frame that DT_ASSIGN describes: the lease of a node as the relay sends it.
abbrev pub member_bytes : List Member → Bytes
member_bytes [] = []
member_bytes (m ∷ ms) = put32 m.node ++ (put32 m.virt ++ member_bytes ms)

abbrev pub assign_bytes : Lease → Bytes
assign_bytes l =
    put32 l.myvirt ++ (l.vnetb ++ (l.vbits ∷ (put16 (length l.members) ++ member_bytes l.members)))
