-- ===== src/Ledger.antt =====
-- hook/hk_ledger.c: the machine-wide registry of virtual-port claims, one per node. The mapping
-- and its locks are the caller's: each function runs under SLP_LOCK, and `attached` says what
-- slp_attach returned (or that g_slp is set).
pub mod Owner
pub mod Exclusive
pub mod Handover
mod Tests
use shadow_lan.Base.{
  ℕ, ◌+◌, ◌%◌, ◌^◌, Bool, true, false, not, ◌&&◌, List, Option, none, some, ◌==◌, if◌then◌else◌,
  any, find?, count, modify_first, modify_all, replicate,
}

-- slp_ent, less its padding
pub record Entry : Type 0 where
  pub pid : ℕ
  pub node : ℕ
  pub start : ℕ
  pub vport : ℕ
  pub real : ℕ
  pub proto : ℕ
  pub reuse : ℕ
  pub used : Bool

-- slp_t, less its magic number
pub record Registry : Type 0 where
  pub gen : ℕ
  pub e : List Entry

-- The process that calls: g_slp_node and current_pid.
pub record Process : Type 0 where
  pub node : ℕ
  pub pid : ℕ

abbrev pub slp_max : ℕ
slp_max = 192

abbrev pub slp_magic : ℕ
slp_magic = 0x534c5032

-- A row after memset.
abbrev pub zeroed : Entry
zeroed = record {
  pid = 0;
  node = 0;
  start = 0;
  vport = 0;
  real = 0;
  proto = 0;
  reuse = 0;
  used = false;
}

-- slp_attach under its lock: a mapping without the magic number is wiped, any other is kept.
unfoldable pub attach : ℕ → Registry → Registry
attach magic g = if magic == slp_magic then g else record { gen = 0; e = replicate slp_max zeroed }

-- What the operating system answers: whether `kill(pid, 0)` succeeds or fails with EPERM, and the
-- start time that /proc/<pid>/stat shows (0 if it cannot be read).
pub record Os : Type 0 where
  pub signals : ℕ → Bool
  pub starttime : ℕ → ℕ

abbrev pub sock_stream : ℕ
sock_stream = 1

abbrev pub sock_dgram : ℕ
sock_dgram = 2

-- slp_alive of the Linux build
unfoldable pub alive : Os → ℕ → ℕ → Bool
alive os pid start =
    if pid == 0
    then false
    else if os.signals pid
    then (if start == 0 then true else (not (os.starttime pid == 0) && os.starttime pid == start))
    else false

-- The test by which slp_claim, slp_release and slp_taken pick rows.
abbrev pub matches : ℕ → ℕ → ℕ → Entry → Bool
matches node vport proto x = x.used && x.node == node && x.vport == vport && x.proto == proto % 256

abbrev pub unused : Entry → Bool
unused x = not x.used

abbrev pub stale : Os → Entry → Bool
stale os x = not (alive os x.pid x.start)

-- 0, 1, -1 and -2 of slp_claim
pub data Verdict : Type 0 where
  fresh shared conflict unavailable : Verdict

-- The row that a new claim writes.
abbrev pub entry : Os → Process → ℕ → ℕ → ℕ → ℕ → Entry
entry os p vport proto reuse real = record {
  pid = p.pid;
  node = p.node;
  start = os.starttime p.pid;
  vport = vport;
  real = real;
  proto = proto % 256;
  reuse = reuse % 256;
  used = true;
}

-- A stale row that is taken over keeps its key.
abbrev pub take_over : Os → Process → ℕ → ℕ → Entry → Entry
take_over os p reuse real x = record x {
  pid = p.pid;
  real = real;
  start = os.starttime p.pid;
  reuse = reuse % 256;
}

abbrev pub bump : Registry → List Entry → Registry
bump g e = record { gen = (g.gen + 1) % 2 ^ 32; e = e }

-- The first free row, and failing that the first row of a dead holder.
unfoldable pub allocate : Os → Entry → Registry → Verdict × Registry
allocate os new g =
    if any unused g.e
    then (fresh, bump g (modify_first unused (λ _. new) g.e))
    else if any (stale os) g.e
    then (fresh, bump g (modify_first (stale os) (λ _. new) g.e))
    else (unavailable, g)

abbrev pub both_reuse : ℕ → ℕ → ℕ → Bool
both_reuse proto held wanted = proto == sock_dgram && not (held == 0) && not (wanted == 0)

-- slp_claim
unfoldable pub claim : Bool → Os → Process → ℕ → ℕ → ℕ → ℕ → Registry → Verdict × Registry
claim attached os p vport proto reuse real g =
    if attached
    then elim (find? (matches p.node vport proto) g.e) [
      | none ↦ allocate os (entry os p vport proto reuse real) g
      | some x ↦
          if stale os x
          then (
            fresh,
            record g {
              e = modify_first (matches p.node vport proto) (take_over os p reuse real) g.e;
            },
          )
          else if both_reuse proto x.reuse reuse
          then (shared, g)
          else (conflict, g)
    ]
    else (unavailable, g)

-- slp_release clears each of this process' rows of the key; `gen` counts them.
abbrev pub own : Process → ℕ → ℕ → Entry → Bool
own p vport proto x = matches p.node vport proto x && x.pid == p.pid

unfoldable pub release : Bool → Process → ℕ → ℕ → Registry → Registry
release attached p vport proto g =
    if attached
    then record {
      gen = (g.gen + count (own p vport proto) g.e) % 2 ^ 32;
      e = modify_all (own p vport proto) (λ x. record x { used = false }) g.e;
    }
    else g

-- slp_used
unfoldable pub used : Bool → Registry → ℕ
used attached g = if attached then count (λ x. x.used) g.e else 0

-- slp_taken
unfoldable pub taken : Bool → Process → ℕ → Registry → Bool
taken attached p vport g =
    if attached then any (λ x. x.used && x.node == p.node && x.vport == vport) g.e else false
