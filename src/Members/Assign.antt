-- ===== src/Members/Assign.antt =====
-- dt_apply_assign reads back the lease that the frame was made from, and changes nothing on a frame
-- that is not one.
use shadow_lan.Base.{
  zero, length-take, length-drop, ℕ, suc, ◌+◌, ◌*◌, ◌^◌, ◌≤◌, ◌<◌, ◌≡◌, refl, ap, Bool, true, false,
  ◌&&◌, List, [], ◌∷◌, ◌++◌, arith, ltb, leb, ◌==◌, length, take, drop, Every,
}
use shadow_lan.Wire.{Bytes, put32, put16, get16, at}
use shadow_lan.Wire.Numbers.{get32-put32, get16-put16, drop-put32, length-put32, length-put16}
use shadow_lan.Members.{
  Member, Lease, max_members, header, read_members, member_count, apply_assign, member_bytes,
  assign_bytes,
}

unfoldable pub IsMember : Member → Type 0
IsMember m = (m.node < 2 ^ 32) × (m.virt < 2 ^ 32)

read_members_lem :
    (ms : List Member) → Every IsMember ms → read_members (length ms) (member_bytes ms) ≡ ms
unfolding read_members IsMember
read_members_lem [] h = refl
read_members_lem (m ∷ ms) h = ground (
  arith,
  get32-put32 m.node (put32 m.virt ++ member_bytes ms),
  get32-put32 m.virt (member_bytes ms),
  drop-put32 m.node (put32 m.virt ++ member_bytes ms),
  drop-put32 m.virt (member_bytes ms),
  read_members_lem ms,
)

length-member_bytes : (ms : List Member) → length (member_bytes ms) ≡ 8 * length ms
length-member_bytes [] = omega arith
length-member_bytes (m ∷ ms) = ground (
  arith,
  length-put32 m.node (put32 m.virt ++ member_bytes ms),
  length-put32 m.virt (member_bytes ms),
  length-member_bytes ms,
)

abbrev pub net4 : ℕ → ℕ → ℕ → ℕ → Bytes
net4 a b c d = a ∷ b ∷ c ∷ d ∷ []

-- The lease that a well-formed frame gives
abbrev pub lease_of : ℕ → Bytes → ℕ → List Member → Lease
lease_of v net bits ms = record {
  myvirt = v;
  vnetb = net;
  vbits = bits;
  members = ms;
  have_assign = true;
}

module _ (v a b c d bits : ℕ) (ms : List Member) where
  abbrev frame : Bytes
  frame = assign_bytes (lease_of v (net4 a b c d) bits ms)

  frame_count : length ms ≤ max_members → member_count frame ≡ length ms
  unfolding put32 put16 get16
  frame_count small = get16-put16 (length ms) (member_bytes ms) (omega arith)

  frame_length : length frame ≡ header + 8 * length ms
  frame_length = ground (
    arith,
    length-put32 v (a ∷ b ∷ c ∷ d ∷ bits ∷ (put16 (length ms) ++ member_bytes ms)),
    length-put16 (length ms) (member_bytes ms),
    length-member_bytes ms,
  )

  frame_bits : at frame 8 ≡ bits
  unfolding put32
  frame_bits = refl

  frame_net : take 4 (drop 4 frame) ≡ net4 a b c d
  unfolding put32
  frame_net = refl

  frame_rest : drop header frame ≡ member_bytes ms
  unfolding put32 put16
  frame_rest = refl

  -- dt_apply_assign takes over exactly the lease that a well-formed ASSIGN frame carries: 1 to
  -- 32 bits, at most DT_MAXMEMB members, and 32-bit addresses and nodes.
  pub apply_assign-assign_bytes :
      (l : Lease)
      → v < 2 ^ 32
      → 0 < bits
      → bits ≤ 32
      → length ms ≤ max_members
      → Every IsMember ms
      → apply_assign (assign_bytes (lease_of v (net4 a b c d) bits ms)) l
        ≡ lease_of v (net4 a b c d) bits ms
  unfolding apply_assign
  apply_assign-assign_bytes l hv pos le small ok = ground (
    arith,
    frame_count small,
    frame_length,
    frame_bits,
    frame_net,
    frame_rest,
    get32-put32 v (a ∷ b ∷ c ∷ d ∷ bits ∷ (put16 (length ms) ++ member_bytes ms)) hv,
    read_members_lem ms ok,
  )

-- The frames that dt_apply_assign takes
abbrev pub is_assign : Bytes → Bool
is_assign p =
    leb header (length p)
    && (ltb 0 (at p 8)
        && (leb (at p 8) 32
            && (leb (member_count p) max_members && length p == header + 8 * member_count p)))

-- dt_apply_assign leaves the lease as it is on a frame that is too short, has no or more than 32
-- bits, names more than DT_MAXMEMB members, or has not the length that they need.
pub apply_assign_rejects : (p : Bytes) (l : Lease) → is_assign p ≡ false → apply_assign p l ≡ l
unfolding apply_assign
apply_assign_rejects p l h = ground arith

length-read_members : (k : ℕ) (b : Bytes) → length (read_members k b) ≡ k
unfolding read_members
length-read_members zero b = refl
length-read_members (suc k) b = ap suc (length-read_members k (drop 8 b))

pub record IsLease (l : Lease) : Type 0 where
  pub few : length l.members ≤ max_members
  pub bits : l.vbits ≤ 32
  pub net : length l.vnetb ≡ 4

pub apply_assign-IsLease : (p : Bytes) (l : Lease) → IsLease l → IsLease (apply_assign p l)
unfolding apply_assign
apply_assign-IsLease p l v = ground (
  arith,
  length-read_members (member_count p) (drop header p),
  length-take 4 (drop 4 p),
  length-drop 4 p,
)
