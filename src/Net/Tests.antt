-- ===== src/Net/Tests.antt =====
-- Addresses inside and outside a LAN.
use shadow_lan.Base.{◌≡◌, ◌↔◌, refl, true, false, arith}
use shadow_lan.Net.{ipv4_is_lan, ipv4_is_bcast}
use shadow_lan.Net.Lan.{IsLan, ipv4_is_lan_iff}

ipv4_is_lan_iff_test : (ipv4_is_lan 0xac1f_0001 ≡ true) ↔ IsLan 0xac1f_0001
ipv4_is_lan_iff_test = ipv4_is_lan_iff 0xac1f_0001 (omega arith)

outside :
    (ipv4_is_lan 0x0808_0808 ≡ false)
    × (ipv4_is_lan 0xac20_0001 ≡ false)
    × (ipv4_is_bcast 0xc0a8_01ff ≡ true)
unfolding ipv4_is_lan ipv4_is_bcast
outside = (refl, refl, refl)
