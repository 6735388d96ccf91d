-- ===== src/Sessions/Tests.antt =====
-- A host whose game listens on port 5000 and has it from the kernel as 41000.
use shadow_lan.Base.{
  ℕ, ◌+◌, ◌≡◌, ◌≢◌, refl, true, false, ◌&&◌, [], ◌∷◌, List, Option, some, none, arith,
  if◌then◌else◌, ◌==◌,
}
use shadow_lan.Wire.{Bytes}
use shadow_lan.Net.{Addr}
use shadow_lan.Alias
use shadow_lan.Ports.{owns_listen}
use shadow_lan.Sessions.{
  Host, hs_by_sid, hs_close, on_streq, sweep_hosts, is_stuck, Session, learn, usess_find, place,
  Injected, hosted_send, hosted_udp_in, reply_port, unsource, sweep_sessions,
}
use shadow_lan.Sessions.Hosts.{hs_by_sid-hs_close, hs_by_sid-on_streq, hs_by_sid-sweep_hosts}
use shadow_lan.Sessions.Sources.{unsource-hosted_udp_in}
use shadow_lan.Sessions.Flows.{usess_find-IsTable, usess_find-usess_find, reply_port-hosted_udp_in}

abbrev free_host : Host
free_host = record {
  used = false;
  sid = 0;
  real = none;
  fd = none;
  live = false;
  dead = false;
  last = 0;
  ovirt = 0;
  gport = 0;
  lport = 0;
  accsp = 0;
}

abbrev host : Host
host = record free_host { used = true; sid = 9; real = some 12; ovirt = 0x0a40_0006; gport = 5000 }

abbrev hosts : List Host
hosts = host ∷ free_host ∷ []

hosts-IsTable : shadow_lan.Sessions.Hosts.IsTable hosts
unfolding shadow_lan.Sessions.Hosts.IsTable
hosts-IsTable sid = ground arith

hs_by_sid-hs_close_test :
    (hs_by_sid 9 (hs_close 9 hosts).0 ≡ none)
    × ((other : ℕ) → other ≢ 9 → hs_by_sid other (hs_close 9 hosts).0 ≡ hs_by_sid other hosts)
hs_by_sid-hs_close_test = hs_by_sid-hs_close 9 hosts hosts-IsTable

hs_by_sid-on_streq_test :
    (owns_listen 5000 (5000 ∷ []) && true ≡ true
      → (h : Host) × (hs_by_sid 4 (on_streq true (5000 ∷ []) 4 5000 7 100 hosts).0 ≡ some h)
        × ((on_streq true (5000 ∷ []) 4 5000 7 100 hosts).1 ≡ true)
        × (h.ovirt ≡ 7)
        × (h.gport ≡ 5000)
        × (h.live ≡ false)
        × (h.last ≡ 100))
    × (owns_listen 5000 (5000 ∷ []) && true ≡ false
        → on_streq true (5000 ∷ []) 4 5000 7 100 hosts ≡ (hosts, false))
hs_by_sid-on_streq_test = hs_by_sid-on_streq (5000 ∷ []) 4 5000 7 100 hosts refl

hs_by_sid-sweep_hosts_test :
    hs_by_sid 9 (sweep_hosts 30001 hosts) ≡ (if is_stuck 30001 host then none else some host)
hs_by_sid-sweep_hosts_test = hs_by_sid-sweep_hosts 30001 hosts 9 host hosts-IsTable found
  where
    found : hs_by_sid 9 hosts ≡ some host
    found = unfold hs_by_sid in refl

abbrev free_session : Session
free_session = record {
  used = false;
  game_port = 0;
  cli = record { ip = 0; port = 0 };
  lport = 0;
  ovirt = 0;
  real = none;
  last = 0;
}

abbrev sessions : List Session
sessions = free_session ∷ free_session ∷ []

-- The kernel gives no socket for the first row.
abbrev socket : ℕ → Option ℕ
socket i = if i == 0 then none else some (20 + i)

abbrev member : Addr
member = record { ip = 0x0a40_0006; port = 6000 }

abbrev met : Session
met = record {
  used = true;
  game_port = 5000;
  cli = member;
  lport = 0;
  ovirt = 0;
  real = some 21;
  last = 100;
}

finds : (usess_find socket 5000 none member 100 sessions).1 ≡ some met
unfolding usess_find place
finds = refl

usess_find-usess_find_test :
    ((usess_find socket 5000
        (some member.ip)
        member
        200
        (usess_find socket 5000 none member 100 sessions).0).1
      ≡ some (learn (some member.ip) met))
    × ((learn (some member.ip) met).real ≡ some 21)
usess_find-usess_find_test =
    usess_find-usess_find socket socket 5000 none (some member.ip) member 100 200 sessions met finds

usess_find_IsTable_test :
    shadow_lan.Sessions.Flows.IsTable (usess_find socket 5000 none member 100 sessions).0
usess_find_IsTable_test = usess_find-IsTable socket 5000 none member 100 sessions empty
  where
    empty : shadow_lan.Sessions.Flows.IsTable sessions
    empty = unfold shadow_lan.Sessions.Flows.IsTable in λ p c. omega arith

-- The kernel's port for 5000 is 41000.
abbrev aliases : Alias.Table
aliases = record { sock = 5; vport = 5000; real = 41000; proto = 2; bindv = false } ∷ []

abbrev inet_addr : Bytes → ℕ
inet_addr b = member.ip

abbrev arrives : List Session × Option Injected
arrives =
    hosted_udp_in inet_addr socket aliases 100 true 40000 5000 (49 ∷ []) 6000 (1 ∷ 2 ∷ []) sessions

abbrev injected : Injected
injected = record { from = 21; to = record { ip = 0x7f00_0001; port = 41000 }; raw = 1 ∷ 2 ∷ [] }

injects : arrives.1 ≡ some injected
unfolding hosted_udp_in hosted_send usess_find place Alias.real
injects = refl

reply_port-hosted_udp_in_example :
    (injected.to.port ≡ 41000) × (reply_port member arrives.0 ≡ some 41000)
unfolding Alias.real
reply_port-hosted_udp_in_example =
    reply_port-hosted_udp_in inet_addr socket aliases 100 true 40000 5000 (49 ∷ []) 6000
      (1 ∷ 2 ∷ []) sessions refl injected injects

swept : sweep_sessions 50000 (met ∷ []) ≡ record met { used = false } ∷ []
unfolding sweep_sessions
swept = refl

sends :
    (hosted_send inet_addr socket aliases 100 5000 (49 ∷ []) 6000 (1 ∷ 2 ∷ []) sessions).1
    ≡ some injected
unfolding hosted_send usess_find place Alias.real
sends = refl

-- What the game would see as the source, before the port is stored and after
unsource-hosted_udp_in_example :
    let injecting : Addr = record { ip = 0x7f00_0001; port = 40000 } in
    (unsource injecting
        (hosted_send inet_addr socket aliases 100 5000 (49 ∷ []) 6000 (1 ∷ 2 ∷ []) sessions).0
      ≡ injecting)
    × (unsource injecting arrives.0 ≡ member)
unfolding Alias.real
unsource-hosted_udp_in_example =
    unsource-hosted_udp_in inet_addr socket aliases 100 40000 5000 (49 ∷ []) 6000 (1 ∷ 2 ∷ [])
      sessions injected (λ e. absurd (omega (arith, e))) refl refl sends
