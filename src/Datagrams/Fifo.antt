-- ===== src/Datagrams/Fifo.antt =====
-- Each socket's queue against a bounded queue that drops what does not fit.
use shadow_lan.Base.{
  ℕ, ◌≤◌, ◌≡◌, ◌≢◌, refl, sym, ap, ◌∙◌, Bool, true, false, ◌&&◌, List, [], ◌∷◌, ◌++◌, Option, none,
  some, arith, ltb, ◌==◌, if◌then◌else◌, any, find?, count, modify_first, length, take, min, inl,
  inr, Option-cases, Every-find?, find?_sound, find?-modify_first_hit, find?-modify_first_other,
  find?_written_at, any_of_find?, find?-modify_first_gone, find?-some, any-find?, modify_first_none,
}
use mathlib.Core.Option
use shadow_lan.Datagrams.{
  Queue, Dgram, of_sock, is_free, opened, max_queue, lookup, ensure, push_row, push, pop_row, pop,
  Popped, nothing, got, close_row, close, has,
}
use shadow_lan.Datagrams.Valid.{IsTable, IsRow, Keeps, of_sock-keeps, ensure-IsTable}

abbrev held : Option Queue → List Dgram
held none = []
held (some e) = e.q

-- What waits for a socket; a socket with no row has nothing.
unfoldable pub waiting : List Queue → ℕ → List Dgram
waiting t s = held (lookup t s)

-- A socket has a row, or there is a free one for it.
abbrev pub has_place : List Queue → ℕ → Bool
has_place t s = if any (of_sock s) t then true else any is_free t

module _ (t : List Queue) (s : ℕ) (v : IsTable t) where
  row-valid :
      (e : Queue)
      → lookup t s ≡ some e
      → (e.nq ≡ length e.q) × (e.nq ≤ max_queue) × (e.closed ≡ false)
  unfolding lookup IsRow
  row-valid e h =
      ground (arith, Every-find? IsRow (of_sock s) t e v.rows h, find?_sound (of_sock s) t e h)

  -- The queue never passes DT_MAXQ.
  pub waiting_bound : length (waiting t s) ≤ max_queue
  unfolding waiting
  waiting_bound = elim (Option-cases (lookup t s)) [
    | inl e ↦ rw (waiting, e) (ground (arith))
    | inr (x, e) ↦ rw (waiting, e) (ground (arith, row-valid x e))
  ]

module _ (f : Queue → Queue) (same : Keeps f) (s : ℕ) (t : List Queue) where
  lookup-modify : lookup (modify_first (of_sock s) f t) s ≡ Option.map f (lookup t s)
  unfolding lookup
  lookup-modify =
      find?-modify_first_hit (of_sock s) (of_sock s) f
        (λ x h. ground (arith, of_sock-keeps f same s x)) (λ x h. h) t

  lookup-modify_other :
      (i : ℕ) → (i == s) ≡ false → lookup (modify_first (of_sock s) f t) i ≡ lookup t i
  unfolding lookup
  lookup-modify_other i apart =
      find?-modify_first_other (of_sock s) (of_sock i) f
        (λ x h. (ground (arith), ground (arith, of_sock-keeps f same i x))) t

module _ (s : ℕ) (t : List Queue) where
  lookup-ensure_other : (i : ℕ) → (i == s) ≡ false → lookup (ensure t s) i ≡ lookup t i
  unfolding lookup ensure
  lookup-ensure_other i apart = ground (
    arith,
    find?-modify_first_other is_free (of_sock i) (opened s) (λ x h. (ground arith, ground arith)) t,
  )

  lookup-ensure_new :
      (x : Queue)
      → lookup t s ≡ none
      → find? is_free t ≡ some x
      → lookup (ensure t s) s ≡ some (opened s x)
  unfolding lookup ensure
  lookup-ensure_new x absent room =
      let miss = any-find? (of_sock s) t absent in
      rw (ensure, miss)
        (find?_written_at is_free (of_sock s) (opened s) t x miss room (ground arith))

  lookup-ensure_full : lookup t s ≡ none → find? is_free t ≡ none → lookup (ensure t s) s ≡ none
  unfolding lookup ensure
  lookup-ensure_full absent full =
      let miss = any-find? (of_sock s) t absent in
      let none_free = any-find? is_free t full in
      rw (ensure, miss, modify_first_none is_free (opened s) t none_free) absent

  lookup-ensure_old : (x : Queue) → lookup t s ≡ some x → lookup (ensure t s) s ≡ some x
  unfolding lookup ensure
  lookup-ensure_old x h = rw (ensure, any_of_find? (of_sock s) t x h) h

abbrev pub is_got : Popped → Bool
is_got (got b a) = true
is_got o = false

-- A queue that holds DT_MAXQ datagrams and drops the new one when it is full.
abbrev pub bounded_push : Bool → Dgram → List Dgram → List Dgram
bounded_push memory d q = if ltb (length q) max_queue && memory then q ++ (d ∷ []) else q

abbrev pub bounded_pop : ℕ → List Dgram → List Dgram × Popped
bounded_pop blen [] = ([], nothing)
bounded_pop blen (d ∷ ds) = (ds, got (take (min (length d.p) blen) d.p) d.from)

push_row_lem :
    (m : Bool) (d : Dgram) (e : Queue)
    → e.nq ≡ length e.q
    → e.closed ≡ false
    → (push_row m d e).q ≡ bounded_push m d e.q
unfolding push_row
push_row_lem m d e h k = ground arith

push_row-Keeps : (m : Bool) (d : Dgram) → Keeps (push_row m d)
unfolding push_row
push_row-Keeps m d = λ e. (ground arith, ground arith)

pop_row-Keeps : (blen : ℕ) → Keeps (λ e. (pop_row blen e).0)
unfolding pop_row
pop_row-Keeps blen = λ e. (ground arith, ground arith)

module _ (t : List Queue) (s : ℕ) (v : IsTable t) (m : Bool) (d : Dgram) where
  pushed_at :
      (e : Queue) → lookup (ensure t s) s ≡ some e → lookup (push m d s t) s ≡ some (push_row m d e)
  unfolding push
  pushed_at e h =
      lookup-modify (push_row m d) (push_row-Keeps m d) s (ensure t s)
      ∙ ap (Option.map (push_row m d)) h

  pushed :
      (e : Queue) → lookup (ensure t s) s ≡ some e → waiting (push m d s t) s ≡ bounded_push m d e.q
  unfolding waiting
  pushed e h =
      let ok = row-valid (ensure t s) s (ensure-IsTable s t v) e h in
      ap held (pushed_at e h) ∙ push_row_lem m d e ok.0 ok.2

  -- On a valid table, where the socket has a row or a row is free, dt_udp_push is the push of
  -- the socket's bounded queue.
  pub push-waiting :
      has_place t s ≡ true → waiting (push m d s t) s ≡ bounded_push m d (waiting t s)
  unfolding waiting lookup
  push-waiting h = elim (Option-cases (lookup t s)) [
    | inl e ↦
        let (x, room, free) = find?-some is_free t (ground (arith, any-find? (of_sock s) t e)) in
        pushed (opened s x) (lookup-ensure_new s t x e room)
        ∙ ap (bounded_push m d) (ap held (sym e))
    | inr (x, e) ↦ pushed x (lookup-ensure_old s t x e) ∙ ap (bounded_push m d) (ap held (sym e))
  ]

  -- On a valid table dt_udp_push leaves the queues of all other sockets alone.
  pub push-waiting_other : (i : ℕ) → i ≢ s → waiting (push m d s t) i ≡ waiting t i
  unfolding waiting push
  push-waiting_other i apart = ap held (
      lookup-modify_other (push_row m d) (push_row-Keeps m d) s (ensure t s) i (ground arith)
      ∙ lookup-ensure_other s t i (ground arith))

module _ (t : List Queue) (s : ℕ) (v : IsTable t) (blen : ℕ) where
  -- On a valid table dt_udp_pop is the pop of the socket's bounded queue: oldest first, cut to
  -- the buffer, nothing from an empty queue, and never -1.
  pub pop-waiting : (waiting (pop blen s t).0 s, (pop blen s t).1) ≡ bounded_pop blen (waiting t s)
  unfolding waiting pop pop_row
  pop-waiting = elim (Option-cases (lookup t s)) [
    | inl e ↦ rw (waiting, pop, e) (ground (arith))
    | inr (x, e) ↦
        let ok = row-valid t s v x e in
        rw (waiting, pop, e, lookup-modify (λ r. (pop_row blen r).0) (pop_row-Keeps blen) s t, e)
          (ground (arith))
  ]

  pub pop-waiting_other : (i : ℕ) → i ≢ s → waiting (pop blen s t).0 i ≡ waiting t i
  unfolding waiting pop
  pop-waiting_other i apart = elim (Option-cases (lookup t s)) [
    | inl e ↦ rw (pop, e) (refl)
    | inr (x, e) ↦
        rw (pop, e)
          (ap held (
            lookup-modify_other (λ r. (pop_row blen r).0) (pop_row-Keeps blen) s t i
              (ground arith)))
  ]

  -- dt_udp_has tells whether dt_udp_pop returns a datagram.
  pub has-pop : has s t ≡ is_got (pop blen s t).1
  unfolding has pop pop_row
  has-pop = elim (Option-cases (lookup t s)) [
    | inl e ↦ rw (has, pop, e) (refl)
    | inr (x, e) ↦ let ok = row-valid t s v x e in rw (has, pop, e) (ground (arith))
  ]

module _ (t : List Queue) (s : ℕ) where
  -- A closed socket that had one row has no datagram left.
  pub close-waiting : count (of_sock s) t ≤ 1 → waiting (close s t) s ≡ []
  unfolding waiting lookup close close_row
  close-waiting one =
      ap held (find?-modify_first_gone (of_sock s) close_row (λ x. ground (arith)) t one)

  pub close-waiting_other : (i : ℕ) → i ≢ s → waiting (close s t) i ≡ waiting t i
  unfolding waiting lookup close close_row
  close-waiting_other i apart = ap held (
      find?-modify_first_other (of_sock s) (of_sock i) close_row
        (λ x h. (ground (arith), ground (arith))) t)
