-- ===== src/Doors/Tests.antt =====
-- bind in two processes of one node, over a kernel where another node has port 5000.
use shadow_lan.Base.{
  List, ℕ, ◌≡◌, ◌≢◌, refl, true, false, [], ◌∷◌, some, none, arith, ◌==◌, ◌*◌, ◌||◌, inr,
  if◌then◌else◌, ◌⊎◌,
}
use shadow_lan.Net.{Addr}
use shadow_lan.Ledger.{Os, attach, claim, allocate, taken, used, fresh, conflict, sock_stream}
use shadow_lan.Ledger.Exclusive.{attach-IsExclusive}
use shadow_lan.Alias
use shadow_lan.Alias.Release.{IsReleased}
use shadow_lan.Accepted.{get}
use shadow_lan.Doors.{
  Bound, bound, refused, done, fails, eaddrinuse, World, Call, bind_alias, bind_port, bind,
  try_port, try_ports, rounds, pick, bind_any, getsockname, listen, is_vnode, proto,
}
use shadow_lan.Ledger.Handover.{Op, claims, releases, acts}
use shadow_lan.Doors.Binding.{claimed, bind_port-fails, bind-bind, getsockname-bind}
use shadow_lan.Doors.Search.{IsFound, getsockname-bind_any, bind_any-fails}
use shadow_lan.Doors.Valid.{IsWorld, bind-IsWorld}

abbrev os : Os
os = record { signals = λ pid. pid == 10 || pid == 11; starttime = λ pid. pid * 100 }

abbrev vnode : ℕ
vnode = 0x0a40_0005

abbrev kernel : Addr → Bound
kernel a =
    if a.port == 5000
    then refused eaddrinuse
    else bound (some (if a.port == 0 then 41000 else a.port))

-- A stream socket 5 of process 10, and the same of process 11.
abbrev call : Call
call = record {
  attached = true;
  os = os;
  process = record { node = 7; pid = 10 };
  kernel = kernel;
  sock = 5;
  kind = some sock_stream;
  reuse = 0;
  direct = true;
  myvirt = vnode;
  lan_only = true;
}

abbrev sibling : Call
sibling = record call { process = record { node = 7; pid = 11 } }

-- A kernel that takes no socket
abbrev dry : Call
dry = record call { kernel = λ a. refused 99 }

abbrev free_row : Alias.Row
free_row = record { sock = 0; vport = 0; real = 0; proto = 0; bindv = false }

abbrev empty : World
empty = record {
  registry = attach 0 (record { gen = 0; e = [] });
  ta = free_row ∷ free_row ∷ [];
  ud = [];
}

abbrev at_vnode : Addr
at_vnode = record { ip = vnode; port = 5000 }

abbrev at_any : Addr
at_any = record { ip = 0; port = 0 }

-- The port that another node's process has is aliased beneath; with the kernel's consent it is not.
aliased : Alias.real (bind call at_vnode empty).0.ta 5000 sock_stream ≡ 41000
unfolding bind bind_port bind_alias claim allocate attach Alias.add Alias.mark_bindv Alias.real
aliased = refl

listening :
    listen true true (some sock_stream) (bind call at_vnode empty).0.ta 5 at_vnode (0 ∷ [])
    ≡ (5000 ∷ [], true)
unfolding listen bind bind_port bind_alias claim allocate attach Alias.add Alias.mark_bindv
    Alias.vport shadow_lan.Ports.record_listen
listening = refl

empty-IsWorld : IsWorld empty
unfolding shadow_lan.Alias.Rows.IsTable
empty-IsWorld = record {
  registry = attach-IsExclusive 0 (record { gen = 0; e = [] }) (λ e. absurd (omega (arith, e)));
  ta = λ s n. ground arith;
  ud = record { rows = tt; one_each = λ s. omega arith };
}

bind-IsWorld_example : IsWorld (bind call at_vnode empty).0
bind-IsWorld_example = bind-IsWorld call at_vnode empty empty-IsWorld

no_peer : get 5 [] ≡ none
unfolding get
no_peer = refl

claims_freshly : (claimed call at_vnode empty).0 ≡ fresh
unfolding claim allocate attach
claims_freshly = refl

binds : (bind call at_vnode empty).1 ≡ done
unfolding bind bind_port bind_alias claim allocate attach
binds = refl

getsockname-bind_example :
    let view = getsockname true vnode (bind call at_vnode empty).0.ta [] 5 at_any in
    (view.port ≡ 5000) × (is_vnode call at_vnode ≡ true → at_any.ip ≡ 0 → view.ip ≡ vnode)
getsockname-bind_example =
    getsockname-bind call at_vnode at_any empty [] refl (omega arith) (omega arith) (inr refl)
      no_peer binds

-- The sibling tries the same claim, claims another port, and releases both.
abbrev others : List Op
others =
    claims sibling.process 5000 (proto call) 0 5000
    ∷ claims sibling.process 6000 (proto call) 0 6000
    ∷ releases sibling.process 5000 (proto call)
    ∷ releases sibling.process 6000 (proto call)
    ∷ []

abbrev later : World
later = record (bind call at_vnode empty).0 {
  registry = acts call.os others (bind call at_vnode empty).0.registry;
}

bind-bind_example : bind sibling at_vnode later ≡ (later, fails eaddrinuse)
bind-bind_example =
    bind-bind call sibling at_vnode at_vnode empty later others refl refl refl refl refl refl refl
      (omega arith) (omega arith) refl refl refl claims_freshly binds
      (refl, (refl, (refl, (refl, tt)))) refl

refuses : (bind_port dry at_vnode empty).1 ≢ done
unfolding bind_port bind_alias claim allocate attach
refuses h = absurd (cc)

bind_port-fails_example :
    ((bind_port dry at_vnode empty).0.ta ≡ empty.ta)
    × ((bind_port dry at_vnode empty).0.ud ≡ empty.ud)
    × ((((claimed dry at_vnode empty).0 ≡ conflict)
          × (bind_port dry at_vnode empty ≡ (empty, fails eaddrinuse)))
        ⊎ (((claimed dry at_vnode empty).0 ≢ conflict)
            × IsReleased
                (record { node = 7; pid = 10 })
                5000
                sock_stream
                (bind_port dry at_vnode empty).0.registry))
bind_port-fails_example = bind_port-fails dry at_vnode empty refl refuses

finds : (try_ports call at_any 0 rounds empty).1 ≡ true
unfolding try_ports try_port taken claim allocate attach
finds = refl

getsockname-bind_any_example :
    ((bind_any call at_any empty).1 ≡ done)
    × (f : IsFound call at_any empty (bind_any call at_any empty).0) × ((getsockname true vnode
          (bind_any call at_any empty).0.ta
          []
          5
          at_any).port
        ≡ f.port)
getsockname-bind_any_example =
    getsockname-bind_any call at_any empty [] at_any refl (inr refl) no_peer finds

exhausted : (bind_any (record dry { lan_only = false }) at_any empty).1 ≡ fails 99
unfolding bind_any used pick attach
exhausted = refl

bind_any_fails_test : refused 99 ≡ refused 99
bind_any_fails_test = bind_any-fails (record dry { lan_only = false }) at_any empty 99 exhausted
