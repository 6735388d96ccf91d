-- ===== src/Datagrams/Valid.antt =====
-- The tables that the datagram operations can reach: counts, the bound of a queue, and one row for
-- each socket.
use shadow_lan.Base.{
  ℕ, ◌%◌, ◌^◌, ◌≤◌, ◌<◌, ◌≡◌, Bool, true, false, List, [], ◌∷◌, arith, ◌==◌, any, count,
  modify_first, modify_all, length, length-append, Bool-cases, inl, inr, Every, Every-modify_first,
  Every-modify_all, count-modify_first_same, count-modify_first_drop, count-modify_first_le,
  count-modify_all_le, any-count, Option-cases,
}
use shadow_lan.Wire.{Bytes}
use shadow_lan.Datagrams.{
  Queue, Dgram, Sockets, of_sock, is_free, opened, max_queue, append, lookup, ensure, push_row,
  push, pop_row, pop, close_row, close, listens, offer, direct_in, dispatch_row, dispatch_rows,
}

-- What holds of a row in use
unfoldable pub IsRow : Queue → Type 0
IsRow e = e.used ≡ true → (e.nq ≡ length e.q) × (e.nq ≤ max_queue) × (e.closed ≡ false)

pub record IsTable (t : List Queue) : Type 0 where
  pub rows : Every IsRow t
  pub one_each : (s : ℕ) → count (of_sock s) t ≤ 1

append-IsRow : (d : Dgram) (e : Queue) → e.nq < max_queue → IsRow e → IsRow (append d e)
unfolding IsRow
append-IsRow d e room v = λ h. ground (arith, v h, length-append e.q (d ∷ []))

offer-IsRow : (m : Bool) (d : Dgram) (e : Queue) → IsRow e → IsRow (offer m d e)
offer-IsRow m d e v = ground (arith, append-IsRow d e)

push_row-IsRow : (m : Bool) (d : Dgram) (e : Queue) → IsRow e → IsRow (push_row m d e)
unfolding push_row
push_row-IsRow m d e v = ground (arith, append-IsRow d e)

pop_row-IsRow : (blen : ℕ) (e : Queue) → IsRow e → IsRow (pop_row blen e).0
unfolding pop_row IsRow
pop_row-IsRow blen e v = λ h. ground arith

close_row-IsRow : (e : Queue) → IsRow (close_row e)
unfolding close_row IsRow
close_row-IsRow e = λ h. ground arith

opened-IsRow : (s : ℕ) (e : Queue) → IsRow (opened s e)
unfolding IsRow
opened-IsRow s e = λ h. ground arith

dispatch_row-IsRow :
    (k : Sockets) (port : ℕ) (d : Dgram) (e : Queue) → IsRow e → IsRow (dispatch_row k port d e)
dispatch_row-IsRow k port d e v = ground (arith, offer-IsRow (k.memory e.gsock) d e v)

-- A change of rows that leaves `used` and `gsock` keeps one row for each socket.
abbrev pub Keeps : (Queue → Queue) → Type 0
Keeps f = (e : Queue) → ((f e).used ≡ e.used) × ((f e).gsock ≡ e.gsock)

module _ (f : Queue → Queue) (same : Keeps f) where
  pub of_sock-keeps : (s : ℕ) (e : Queue) → of_sock s (f e) ≡ of_sock s e
  of_sock-keeps s e = ground (arith, same e)

module _ (p : Queue → Bool) (f : Queue → Queue) (same : Keeps f) where
  pub modify_first-IsTable :
      ((e : Queue) → IsRow e → IsRow (f e))
      → (t : List Queue) → IsTable t
      → IsTable (modify_first p f t)
  modify_first-IsTable keep t v = record {
    rows = Every-modify_first IsRow p f (λ e hit. keep e) t v.rows;
    one_each = λ s. ground (
      arith,
      v.one_each s,
      count-modify_first_same p (of_sock s) f (λ e hit. of_sock-keeps f same s e) t,
    );
  }

  pub modify_all-IsTable :
      ((e : Queue) → IsRow e → IsRow (f e))
      → (t : List Queue) → IsTable t
      → IsTable (modify_all p f t)
  modify_all-IsTable keep t v = record {
    rows = Every-modify_all IsRow p f (λ e hit. keep e) t v.rows;
    one_each = λ s. ground (
      arith,
      v.one_each s,
      count-modify_all_le p (of_sock s) f (λ e hit k. ground (arith, of_sock-keeps f same s e)) t,
    );
  }

module _ (s : ℕ) (t : List Queue) (v : IsTable t) where
  opened-one_each :
      any (of_sock s) t ≡ false
      → (i : ℕ) → count (of_sock i) (modify_first is_free (opened s) t) ≤ 1
  opened-one_each absent i = elim (Bool-cases (i == s)) [
    | inl e ↦ ground (
      arith,
      any-count (of_sock s) t absent,
      count-modify_first_le is_free (of_sock i) (opened s) t,
    )
    | inr e ↦ ground (
      arith,
      v.one_each i,
      count-modify_first_same is_free (of_sock i) (opened s) (λ x hit. ground (arith)) t,
    )
  ]

  pub ensure-IsTable : IsTable (ensure t s)
  unfolding ensure
  ensure-IsTable = elim (Bool-cases (any (of_sock s) t)) [
    | inl e ↦ rw e v
    | inr e ↦ rw e (record {
      rows = Every-modify_first IsRow is_free (opened s) (λ x hit h. opened-IsRow s x) t v.rows;
      one_each = opened-one_each e;
    })
  ]

  -- dt_udp_push keeps a table valid: the count of each row in use, its bound, that it is not
  -- closed, and one row for each socket.
  pub push-IsTable : (m : Bool) (d : Dgram) → IsTable (push m d s t)
  unfolding push push_row
  push-IsTable m d =
      modify_first-IsTable (of_sock s) (push_row m d) (λ e. (ground arith, ground arith))
        (push_row-IsRow m d) (ensure t s) ensure-IsTable

  pub pop-IsTable : (blen : ℕ) → IsTable (pop blen s t).0
  unfolding pop pop_row
  pop-IsTable blen = elim (Option-cases (lookup t s)) [
    | inl e ↦ rw (pop, e) v
    | inr (x, e) ↦
        rw (pop, e)
          (modify_first-IsTable (of_sock s) (λ r. (pop_row blen r).0)
            (λ r. (ground arith, ground arith)) (pop_row-IsRow blen) t v)
  ]

  pub close-IsTable : IsTable (close s t)
  unfolding close close_row
  close-IsTable = record {
    rows = Every-modify_first IsRow (of_sock s) close_row (λ x hit h. close_row-IsRow x) t v.rows;
    one_each = λ i. ground (
      arith,
      v.one_each i,
      count-modify_first_drop (of_sock s) (of_sock i) close_row (λ x hit. ground (arith)) t,
    );
  }

module _ (k : Sockets) (port : ℕ) where
  pub direct_in-IsTable :
      (inet_addr : Bytes → ℕ) (ip raw : Bytes) (t : List Queue)
      → IsTable t
      → IsTable (direct_in inet_addr k port ip raw t)
  unfolding direct_in
  direct_in-IsTable inet_addr ip raw t v =
      let all_rows =
        modify_all-IsTable (listens k port)
          (λ e.
            offer (k.memory e.gsock)
              (record { p = raw; from = record { ip = inet_addr ip; port = port % 2 ^ 16 } }) e)
          (λ e. (ground arith, ground arith)) (λ e. offer-IsRow (k.memory e.gsock) _ e) t v in
      ground (arith, all_rows)

  pub dispatch_rows-IsTable :
      (d : Dgram) (rs t : List Queue) → IsTable t → IsTable (dispatch_rows k port d rs t)
  unfolding dispatch_rows
  dispatch_rows-IsTable d [] t v = v
  dispatch_rows-IsTable d (r ∷ rs) t v =
      let one =
        modify_first-IsTable (of_sock r.gsock) (dispatch_row k port d)
          (λ e. (ground arith, ground arith)) (dispatch_row-IsRow k port d) t v in
      dispatch_rows-IsTable d rs _ (ground (arith, one))
