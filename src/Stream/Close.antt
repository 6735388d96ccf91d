-- ===== src/Stream/Close.antt =====
-- hook/hk_route.c, dt_on_close on the stream table; hook/hk_stream.c, dt_st_fail_local and the
-- verdict that ends the handshake of dt_stream_thread.
pub mod Slots
use shadow_lan.Base.{
  ℕ, ◌+◌, ◌≤◌, Bool, true, false, ◌&&◌, ◌||◌, not, List, [], ◌∷◌, Option, none, some, leb, ◌==◌,
  if◌then◌else◌, modify_first,
}
use shadow_lan.Stream.{
  Stream, State, connecting, opened, died, is_connecting, is_died, wake, signal, of_sock, by_sock,
}

abbrev poke_live : Stream → Stream
poke_live st = if st.fd_live then wake st else st

-- The pump owns the wire: the application's identity is taken off the row.
abbrev detach : Stream → Stream
detach st = if not (is_connecting st.state) && st.fd_live then record st { gsock = 0 } else st

-- Before the pump's thread has a connection the row is freed here.
abbrev free_early : Stream → Stream
free_early st =
    if is_connecting st.state && not st.fd_live
    then record st { used = false; fd = none; inq = []; outq = []; total = 0; ototal = 0 }
    else st

-- The stream part of dt_on_close on its row
unfoldable pub close_row : Stream → Stream
close_row st = free_early (detach (poke_live (record st { dead = true })))

-- The stream part of dt_on_close
unfoldable pub close : List Stream → ℕ → List Stream
close t s = elim (by_sock t s) [ none ↦ t | some st ↦ modify_first (of_sock s) close_row t ]

-- dt_st_fail_local
unfoldable pub fail_local : ℕ → Stream → Stream
fail_local reason st =
    if st.used && not (is_died st.state)
    then signal (record st { state = died; fail = reason })
    else st

-- The frame that answers DT_STOPEN: its type, its stream id, its reason, and its length.
pub record Answer : Type 0 where
  pub ok : Bool
  pub failed : Bool
  pub sid : ℕ
  pub reason : ℕ
  pub length : ℕ

-- STF_JOIN_TIMEOUT
abbrev pub join_timeout : ℕ
join_timeout = 2

abbrev pub is_ok : Stream → Answer → Bool
is_ok st a = a.ok && (leb 4 a.length && a.sid == st.sid)

abbrev pub is_fail : Stream → Answer → Bool
is_fail st a = a.failed && (leb 5 a.length && a.sid == st.sid)

-- The verdict branch of dt_stream_thread, where the row is neither gone nor detached
unfoldable pub verdict : Answer → Stream → Stream
verdict a st =
    if is_ok st a
    then signal (record st { state = opened; ever_open = true })
    else if is_fail st a
    then signal (record st { state = died; fail = a.reason })
    else signal (record st { state = died; fail = join_timeout })
