-- ===== src/Accepted/Tests.antt =====
-- One bridge for the opener 10.80.0.9.
use shadow_lan.Base.{◌≡◌, refl, true, false, [], ◌∷◌, some}
use shadow_lan.Accepted.{Hosted, Accepted, State, learn_fd, get}
use shadow_lan.Accepted.Peer.{get-learn_fd}

abbrev bridge : Hosted
bridge = record { used = true; live = true; ovirt = 0x0a50_0009; lport = 51000; accsp = 0 }

abbrev free_row : Accepted
free_row = record { used = false; gsock = 0; vnode = 0; lport = 0; bport = 0 }

abbrev world : State
world = record { hosted = bridge ∷ []; sessions = []; acc = free_row ∷ [] }

get-learn_fd_test :
    get 8 (learn_fd 8 51000 0 world).acc ≡ some (record { ip = 0x0a50_0009; port = 51000 }, 51000)
get-learn_fd_test = get-learn_fd 8 51000 0 world bridge refl refl
