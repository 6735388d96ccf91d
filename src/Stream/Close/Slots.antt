-- ===== src/Stream/Close/Slots.antt =====
-- Which row a descriptor finds after dt_stream_alloc and dt_on_close.
use shadow_lan.Base.{
  ℕ, ◌≤◌, ◌≡◌, ◌≢◌, ◌∙◌, Bool, true, false, not, List, [], ◌∷◌, none, some, arith, if◌then◌else◌,
  any, find?, count, modify_first, find?_written_at, Bool-cases, inl, inr, sym, find?-none,
  count_pos,
}
use shadow_lan.Net.{Addr}
use shadow_lan.Stream.{Stream, is_connecting, of_sock, by_sock, allocated, alloc, is_free}
use shadow_lan.Stream.Close.{close_row, close}

pub by_sock_lem : (t : List Stream) (s : ℕ) → s ≢ 0 → by_sock t s ≡ find? (of_sock s) t
unfolding by_sock
by_sock_lem t s h = ground arith

-- A descriptor with no row, where one is free, finds the row that dt_stream_alloc gave it.
pub by_sock-alloc :
    (t : List Stream) (s sid : ℕ) (dst : Addr) (x : Stream)
    → s ≢ 0
    → any (of_sock s) t ≡ false
    → find? is_free t ≡ some x
    → by_sock (alloc t s dst sid).0 s ≡ some (allocated s dst sid x)
unfolding alloc
by_sock-alloc t s sid dst x named absent room =
    by_sock_lem _ s named
    ∙ find?_written_at is_free (of_sock s) (allocated s dst sid) t x absent room (ground arith)

-- The rows that dt_on_close takes from their descriptor.
abbrev pub lets_go : Stream → Bool
lets_go st = if is_connecting st.state then not st.fd_live else st.fd_live

close_row-of_sock :
    (st : Stream) (s : ℕ)
    → s ≢ 0
    → of_sock s st ≡ true
    → of_sock s (close_row st) ≡ not (lets_go st)
unfolding close_row
close_row-of_sock st s named h = ground arith

find?-close :
    (t : List Stream) (s : ℕ) (st : Stream)
    → s ≢ 0
    → count (of_sock s) t ≤ 1
    → find? (of_sock s) t ≡ some st
    → find? (of_sock s) (modify_first (of_sock s) close_row t)
      ≡ (if lets_go st then none else some (close_row st))
find?-close [] s st named one h = absurd (cc)
find?-close (r ∷ t) s st named one h = elim (Bool-cases (of_sock s r)) [
  | inl e ↦ elim (Bool-cases (any (of_sock s) t)) [
    | inl more ↦ ground (arith, count_pos (of_sock s) t more)
    | inr gone ↦ ground (arith, close_row-of_sock r s named e, find?-none (of_sock s) t gone)
  ]
  | inr e ↦ rw (e, e) (find?-close t s st named (ground arith) (ground arith))
]

-- After dt_on_close a recycled descriptor finds no stream, except where the handshake has its
-- connection, or where an established stream has none: then it finds the closed stream's row.
pub by_sock-close :
    (t : List Stream) (s : ℕ) (st : Stream)
    → s ≢ 0
    → count (of_sock s) t ≤ 1
    → by_sock t s ≡ some st
    → by_sock (close t s) s ≡ (if lets_go st then none else some (close_row st))
unfolding close
by_sock-close t s st named one h =
    rw (close, h)
      (by_sock_lem _ s named ∙ find?-close t s st named one (sym (by_sock_lem t s named) ∙ h))
