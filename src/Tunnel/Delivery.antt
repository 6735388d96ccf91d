-- ===== src/Tunnel/Delivery.antt =====
-- A datagram from a socket to a host's game and its answer back, over both ends' tables.
use shadow_lan.Base.{
  ℕ, ◌<◌, ◌^◌, ◌≡◌, ◌∙◌, ap, refl, true, false, inl, inr, List, [], ◌∷◌, Option, none, some, arith,
  any, find?, modify_first, length, Bool-cases, find?_placed, any-sub,
}
use shadow_lan.Wire.{Bytes}
use shadow_lan.Net.{Addr}
use shadow_lan.Alias
use shadow_lan.Ledger.{sock_dgram}
use shadow_lan.Datagrams.{push}
use shadow_lan.Ports
use shadow_lan.Ports.{Slot, slot_get}
use shadow_lan.Sessions.{Session, Injected, of_cli, reply_port, hosted_udp_in, translated}
use shadow_lan.Sessions.Flows.{reply_port-hosted_udp_in}
use shadow_lan.Tunnel.{
  c2s_frame, s2c_frame, World, Beneath, nothing, to_game, of_service, push_flow, or_direct, act,
  ingress,
}
use shadow_lan.Tunnel.Frames.{read_frame-c2s_frame, read_frame-s2c_frame}

abbrev flow : ℕ → ℕ → Addr → Slot
flow s gp dst = record { used = true; gsock = s; game_port = gp; orig = dst }

module _ (ta : Alias.Table) (s gp sp : ℕ) (shown : Alias.vport ta s ≡ some sp) where
  serves : (dst : Addr) → of_service ta gp sp (flow s gp dst) ≡ true
  serves dst = ground (arith, shown)

  flow_served :
      (dst : Addr) (x : Slot) → Ports.of_flow s gp dst x ≡ true → of_service ta gp sp x ≡ true
  flow_served dst x h =
      let same : x.gsock ≡ s = ground arith in
      let port : x.game_port ≡ gp = ground arith in
      let held : x.used ≡ true = ground arith in rw (held, port, same, shown) (ground arith)

  slot_new :
      (dst : Addr) (t : List Slot)
      → any (of_service ta gp sp) t ≡ false
      → (slot_get s gp dst t).0 ≡ modify_first Ports.is_free (λ x. flow s gp dst) t
  unfolding slot_get
  slot_new dst t absent =
      rw (any-sub (of_service ta gp sp) (Ports.of_flow s gp dst) (flow_served dst) t absent) refl

  twice :
      (a b : Addr) (t : List Slot)
      → any (of_service ta gp sp) t ≡ false
      → any Ports.is_free t ≡ true
      → find? (of_service ta gp sp) (
          modify_first Ports.is_free
            (λ x. flow s gp b)
            (modify_first Ports.is_free (λ x. flow s gp a) t))
        ≡ some (flow s gp a)
  twice a b [] h k = absurd (cc)
  twice a b (x ∷ t) h k = elim (Bool-cases x.used) [
    | inl e ↦ ground (arith, twice a b t)
    | inr e ↦ ground (arith, serves a)
  ]

  slot_served :
      (dst : Addr) (t : List Slot)
      → any (of_service ta gp sp) t ≡ false
      → any Ports.is_free t ≡ true
      → find? (of_service ta gp sp) (slot_get s gp dst t).0 ≡ some (flow s gp dst)
  slot_served dst t absent room =
      rw (slot_new dst t absent) (
        find?_placed Ports.is_free (of_service ta gp sp) (flow s gp dst) (serves dst) t absent room)

  second_same :
      (a b : Addr) (t : List Slot)
      → any (of_service ta gp sp) t ≡ false
      → any Ports.is_free t ≡ true
      → find? (of_service ta gp sp) (slot_get s gp b (slot_get s gp a t).0).0 ≡ some (flow s gp a)
  unfolding slot_get
  second_same a b t absent room =
      elim (Bool-cases (any (Ports.of_flow s gp b) (slot_get s gp a t).0)) [
        | inl e ↦ rw e (slot_served a t absent room)
        | inr e ↦ rw e (rw (slot_new a t absent) (twice a b t absent room))
      ]

module _ (k : Beneath) (w : World) (gp sp : ℕ) (ip raw : Bytes) (g : gp < 2 ^ 16) (c : sp < 2 ^ 16)
    (l : length ip < 2 ^ 16) where
  -- An answer goes to the socket of the first flow that has the host's port and shows the member's
  -- own, as from where that flow was sent to; without such a flow it is dropped.
  pub ingress-s2c_frame : ingress k (s2c_frame gp ip sp raw) w ≡ (
    record w { ud = push_flow k.memory (find? (of_service w.ta gp sp) w.slots) raw w.ud },
    nothing,
  )
  unfolding ingress act
  ingress-s2c_frame = rw (read_frame-s2c_frame gp sp ip raw g c l) refl

  ingress_c2s :
      ingress k (c2s_frame gp ip sp raw) w
      ≡ or_direct k gp ip raw w
          (hosted_udp_in k.inet_addr k.socket w.ta k.now k.sent k.own_port gp ip sp raw w.sessions)
  unfolding ingress act
  ingress_c2s = rw (read_frame-c2s_frame gp sp ip raw g c l) refl

hosted_or_not :
    (k : Beneath) (gp : ℕ) (ip raw : Bytes) (w : World) (r : List Session × Option Injected)
    (j : Injected)
    → (or_direct k gp ip raw w r).1 ≡ to_game j
    → (r.1 ≡ some j) × ((or_direct k gp ip raw w r).0.sessions ≡ r.0)
hosted_or_not k gp ip raw w (t, none) j h = absurd (cc)
hosted_or_not k gp ip raw w (t, some i) j h = (ap some (cc), refl)

module _ (k k' : Beneath) (d h : World) (s gp sp : ℕ) (ip ip' ask answer : Bytes) (g : gp < 2 ^ 16)
    (c : sp < 2 ^ 16) (l : length ip < 2 ^ 16) (l' : length ip' < 2 ^ 16)
    (shown : Alias.vport d.ta s ≡ some sp) (absent : any (of_service d.ta gp sp) d.slots ≡ false)
    (room : any Ports.is_free d.slots ≡ true) where
  -- A datagram that a socket sends to a host's port, and that reaches the host's game there, comes
  -- with the port that the socket shows; and the game's answer, framed as dt_on_sendto does for that
  -- sender, is put in the same socket's queue, as from the address that it had sent to. The host's
  -- port is not aliased and the sender is new to it; the flow is the socket's first to that port.
  pub ingress-ingress :
      (dst : Addr) (j : Injected)
      → Alias.real h.ta gp sock_dgram ≡ 0
      → any (of_cli (record { ip = k.inet_addr ip; port = sp })) h.sessions ≡ false
      → (ingress k (c2s_frame gp ip sp ask) h).1 ≡ to_game j
      → (j.to.port ≡ gp)
        × (reply_port
              (record { ip = k.inet_addr ip; port = sp })
              (ingress k (c2s_frame gp ip sp ask) h).0.sessions
            ≡ some gp)
        × (ingress k'
              (s2c_frame gp ip' sp answer)
              (record d { slots = (slot_get s gp dst d.slots).0 })
            ≡ (
              record d {
                slots = (slot_get s gp dst d.slots).0;
                ud = push k'.memory (record { p = answer; from = dst }) s d.ud;
              },
              nothing,
            ))
  ingress-ingress dst j plain new sent =
      let (got, same) =
        hosted_or_not k gp ip ask h
          (hosted_udp_in k.inet_addr k.socket h.ta k.now k.sent k.own_port gp ip sp ask h.sessions)
          j (rw (ingress_c2s k h gp sp ip ask g c l) at sent) in
      let (to, replies) =
        reply_port-hosted_udp_in k.inet_addr k.socket h.ta k.now k.sent k.own_port gp ip sp ask
          h.sessions new j got in
      (
        to ∙ untranslated,
        rw (ingress_c2s k h gp sp ip ask g c l, same) (replies ∙ ap some untranslated),
        rw
            (
              ingress-s2c_frame k' (record d { slots = (slot_get s gp dst d.slots).0 }) gp sp ip'
                  answer g c l',
              slot_served d.ta s gp sp shown dst d.slots absent room,
            )
            refl,
      )
    where
      untranslated : translated gp (Alias.real h.ta gp sock_dgram) ≡ gp
      untranslated = rw plain refl

  -- Where a socket has sent to two hosts at the same port, an answer to that port is put in its queue
  -- as from the first of them, whichever it came from: the frame does not name the host.
  pub ingress-slot_get :
      (a b : Addr)
      → ingress k'
          (s2c_frame gp ip' sp answer)
          (record d { slots = (slot_get s gp b (slot_get s gp a d.slots).0).0 })
        ≡ (
          record d {
            slots = (slot_get s gp b (slot_get s gp a d.slots).0).0;
            ud = push k'.memory (record { p = answer; from = a }) s d.ud;
          },
          nothing,
        )
  ingress-slot_get a b =
      rw
        (
          ingress-s2c_frame k'
              (record d { slots = (slot_get s gp b (slot_get s gp a d.slots).0).0 }) gp sp ip'
              answer g c l',
          second_same d.ta s gp sp shown a b d.slots absent room,
        )
        refl
