-- ===== src/Net/Lan.antt =====
-- ipv4_is_lan and ipv4_is_bcast against the address blocks that they stand for.
use shadow_lan.Base.{ℕ, ◌+◌, ◌*◌, ◌/◌, ◌%◌, ◌^◌, ◌<◌, ◌≡◌, ◌↔◌, ◌⊎◌, true, arith, bit_and}
use shadow_lan.Base.Bits.{bit_and-ones, bit_and-shift}
use shadow_lan.Net.{ipv4_is_lan, ipv4_is_bcast}

-- 10.0.0.0/8, 172.16.0.0/12, 192.168.0.0/16, 169.254.0.0/16, multicast, 255.0.0.0/8, and addresses
-- whose last byte is 255.
abbrev pub IsLan : ℕ → Type 0
IsLan h =
    (h / 2 ^ 24 ≡ 10)
    ⊎ ((h / 2 ^ 20 ≡ 172 * 16 + 1)
        ⊎ ((h / 2 ^ 16 ≡ 192 * 256 + 168)
            ⊎ ((h / 2 ^ 16 ≡ 169 * 256 + 254)
                ⊎ ((h / 2 ^ 28 ≡ 14) ⊎ ((h / 2 ^ 24 ≡ 255) ⊎ (h % 256 ≡ 255))))))

masks :
    (h : ℕ)
    → h < 2 ^ 32
    → (bit_and h 0xff00_0000 ≡ h / 2 ^ 24 * 2 ^ 24)
      × (bit_and h 0xfff0_0000 ≡ h / 2 ^ 20 * 2 ^ 20)
      × (bit_and h 0xffff_0000 ≡ h / 2 ^ 16 * 2 ^ 16)
      × (bit_and h 0xf000_0000 ≡ h / 2 ^ 28 * 2 ^ 28)
      × (bit_and h 0xff ≡ h % 256)
masks h small = (
  ground (arith, bit_and-shift 24 h 255, bit_and-ones 8 (h / 2 ^ 24)),
  ground (arith, bit_and-shift 20 h 4095, bit_and-ones 12 (h / 2 ^ 20)),
  ground (arith, bit_and-shift 16 h 65535, bit_and-ones 16 (h / 2 ^ 16)),
  ground (arith, bit_and-shift 28 h 15, bit_and-ones 4 (h / 2 ^ 28)),
  bit_and-ones 8 h,
)

-- The masks of ipv4_is_lan pick exactly the private, link-local and multicast blocks and the
-- broadcast forms.
pub ipv4_is_lan_iff : (h : ℕ) → h < 2 ^ 32 → (ipv4_is_lan h ≡ true) ↔ IsLan h
unfolding ipv4_is_lan
ipv4_is_lan_iff h small = (ground (arith, masks h small), ground (arith, masks h small))

-- A broadcast or multicast address is always a LAN address.
pub bcast-lan : (h : ℕ) → ipv4_is_bcast h ≡ true → ipv4_is_lan h ≡ true
unfolding ipv4_is_bcast ipv4_is_lan
bcast-lan h e = ground arith
