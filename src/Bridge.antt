-- ===== src/Bridge.antt =====
-- hook/hk_stream.c, dt_join_thread: the pipe between the game's socket and the stream's own relay
-- connection. A direction's hold is the part of its buffer that is read and not yet sent. What recv
-- gave and send took is kept beside it: `from_game`, `to_relay`, `from_relay`, `to_game`; `notices`
-- counts the DT_STSHUT frames, `ends` the calls of shutdown.
mod Tests
pub mod Piped
pub mod Order
use shadow_lan.Base.{
  ℕ, zero, suc, ◌+◌, Bool, true, false, ◌&&◌, ◌||◌, not, List, [], ◌∷◌, ◌++◌, Option, none, some,
  if◌then◌else◌, take, drop,
}
use shadow_lan.Wire.{Bytes}

pub record Pipe : Type 0 where
  pub out_hold : Bytes
  pub in_hold : Bytes
  pub fin_real : Bool
  pub fin_fd : Bool
  pub shut_sent : Bool
  pub eof_sent : Bool
  pub from_game : Bytes
  pub to_relay : Bytes
  pub from_relay : Bytes
  pub to_game : Bytes
  pub notices : ℕ
  pub ends : ℕ

abbrev pub is_held : Bytes → Bool
is_held [] = false
is_held (b ∷ bs) = true

-- The two notices at the head of the loop
unfoldable pub shut_notice : Pipe → Pipe
shut_notice p =
    if not p.shut_sent && (p.fin_real && not (is_held p.out_hold))
    then record p { shut_sent = true; notices = p.notices + 1 }
    else p

unfoldable pub end_notice : Pipe → Pipe
end_notice p =
    if p.fin_fd && (not p.eof_sent && not (is_held p.in_hold))
    then record p { eof_sent = true; ends = p.ends + 1 }
    else p

-- What send answers: some bytes were taken, it would block, or it failed.
pub data Sent : Type 0 where
  took : ℕ → Sent
  would_block broken : Sent

-- What recv answers: bytes, the end, it would block, or it failed.
pub data Received : Type 0 where
  gave : Bytes → Received
  ended no_data failed : Received

-- How the pass goes on: with its next part, with the next pass, or out of the loop.
pub data Next : Type 0 where
  on pass out : Next

-- What select and the calls answer in one pass; a call that is not made has its answer ignored.
pub record Pass : Type 0 where
  pub fd_writable : Bool
  pub real_writable : Bool
  pub real_readable : Bool
  pub fd_readable : Bool
  pub fd_send : Sent
  pub real_send : Sent
  pub real_recv : Received
  pub fd_recv : Received

abbrev pub to_relay_by : Sent → Pipe → Pipe × Next
to_relay_by (took k) p =
    (record p { to_relay = p.to_relay ++ take k p.out_hold; out_hold = drop k p.out_hold }, on)
to_relay_by would_block p = (p, on)
to_relay_by broken p = (p, out)

abbrev pub to_game_by : Sent → Pipe → Pipe × Next
to_game_by (took k) p =
    (record p { to_game = p.to_game ++ take k p.in_hold; in_hold = drop k p.in_hold }, on)
to_game_by would_block p = (p, on)
to_game_by broken p = (p, out)

abbrev pub from_game_by : Received → Pipe → Pipe × Next
from_game_by (gave b) p = (record p { from_game = p.from_game ++ b; out_hold = b }, on)
from_game_by ended p = (record p { fin_real = true }, pass)
from_game_by no_data p = (p, pass)
from_game_by failed p = (p, out)

abbrev pub from_relay_by : Received → Pipe → Pipe × Next
from_relay_by (gave b) p = (record p { from_relay = p.from_relay ++ b; in_hold = b }, on)
from_relay_by ended p = (record p { fin_fd = true }, pass)
from_relay_by no_data p = (p, pass)
from_relay_by failed p = (p, out)

-- The next part of a pass, where the one before lets it go on
abbrev pub then_do : Pipe × Next → (Pipe → Pipe × Next) → Pipe × Next
then_do (p, on) f = f p
then_do (p, pass) f = (p, pass)
then_do (p, out) f = (p, out)

abbrev pub guarded : Bool → (Pipe → Pipe × Next) → Pipe → Pipe × Next
guarded b f p = if b then f p else (p, on)

-- The four calls of a pass; which sockets are watched was settled on the pipe `p` before them.
abbrev pub send_out : Pass → Pipe → Pipe → Pipe × Next
send_out a p = guarded (is_held p.out_hold && a.fd_writable) (to_relay_by a.fd_send)

abbrev pub send_in : Pass → Pipe → Pipe → Pipe × Next
send_in a p = guarded (is_held p.in_hold && a.real_writable) (to_game_by a.real_send)

abbrev pub read_game : Pass → Pipe → Pipe → Pipe × Next
read_game a p =
    guarded (not (is_held p.out_hold) && (not p.fin_real && a.real_readable))
      (from_game_by a.real_recv)

abbrev pub read_relay : Pass → Pipe → Pipe → Pipe × Next
read_relay a p =
    guarded (not (is_held p.in_hold) && (not p.fin_fd && a.fd_readable)) (from_relay_by a.fd_recv)

unfoldable pub serve : Pass → Pipe → Pipe × Next
serve a p =
    then_do (then_do (then_do (send_out a p p) (send_in a p)) (read_game a p)) (read_relay a p)

-- One pass: `none` where select timed out or failed. `dead` says whether the row of g_hs is gone or
-- dead, or the tunnel stops.
unfoldable pub turn : Bool → Option Pass → Pipe → Pipe × Next
turn dead a p =
    let q = end_notice (shut_notice p) in
    if dead || (p.fin_fd && p.fin_real)
    then (p, out)
    else elim a [ none ↦ (q, pass) | some a ↦ serve a q ]

-- The passes of the loop
unfoldable pub run : List (Bool × Option Pass) → Pipe → Pipe
run [] p = p
run ((dead, a) ∷ turns) p =
    let r = turn dead a p in
    let rest = run turns r.0 in elim r.1 [ on ↦ rest | pass ↦ rest | out ↦ r.0 ]

abbrev drained_game : Sent → Pipe → Pipe
drained_game (took k) p = record p {
  to_game = p.to_game ++ take k p.in_hold;
  in_hold = drop k p.in_hold;
}
drained_game would_block p = p
drained_game broken p = record p { in_hold = [] }

abbrev drained_relay : Sent → Pipe → Pipe
drained_relay (took k) p = record p {
  to_relay = p.to_relay ++ take k p.out_hold;
  out_hold = drop k p.out_hold;
}
drained_relay would_block p = p
drained_relay broken p = record p { out_hold = [] }

-- The final drain, over the answers to its sends before its half second is over
unfoldable pub drain : List (Sent × Sent) → Pipe → Pipe
drain [] p = p
drain ((g, r) ∷ answers) p =
    let q = if is_held p.in_hold then drained_game g p else p in
    let q' = if is_held q.out_hold then drained_relay r q else q in
    let rest = drain answers q' in if is_held p.in_hold || is_held p.out_hold then rest else p

-- A pipe that has just been set up
abbrev pub start : Pipe
start = record {
  out_hold = [];
  in_hold = [];
  fin_real = false;
  fin_fd = false;
  shut_sent = false;
  eof_sent = false;
  from_game = [];
  to_relay = [];
  from_relay = [];
  to_game = [];
  notices = 0;
  ends = 0;
}
