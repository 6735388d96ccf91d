-- ===== src/Ports/Tests.antt =====
-- Two listeners, and two dials that stay on this host.
use shadow_lan.Base.{◌≡◌, ◌==◌, ◌||◌, refl, [], ◌∷◌, some, arith}
use shadow_lan.Net.{Addr}
use shadow_lan.Ports.{record_listen, owns_listen, remember, forget, dialled}
use shadow_lan.Ports.Listen.{owns_listen-record_listen}
use shadow_lan.Ports.Hairpin.{dialled-stale}

owns_listen-record_listen_test :
    owns_listen 80 (record_listen 2300 (80 ∷ 0 ∷ 0 ∷ []))
    ≡ (80 == 2300 || owns_listen 80 (80 ∷ 0 ∷ 0 ∷ []))
owns_listen-record_listen_test =
    owns_listen-record_listen 2300 (80 ∷ 0 ∷ 0 ∷ []) (omega arith) refl 80 (omega arith)

abbrev host : Addr
host = record { ip = 0x0a50_0007; port = 2300 }

abbrev lobby : Addr
lobby = record { ip = 0x0a50_0007; port = 6112 }

dialled_stale_test :
    dialled 6 (
      forget 6 (
        remember 6 lobby
          (forget 5 (record { sock = 5; dest = host } ∷ record { sock = 6; dest = host } ∷ []))))
    ≡ some host
dialled_stale_test =
    dialled-stale 6 5 host lobby host (λ e. absurd (omega (arith, e)))
      (λ e. absurd (omega (arith, e))) (λ e. absurd (omega (arith, e)))
