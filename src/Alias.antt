-- ===== src/Alias.antt =====
-- hook/hk_alias.c: the per-process table that presents virtual ports for real ones. Sockets are
-- descriptors and ports are what ntohs gives, so both are natural numbers; -1 is `none`.
mod Tests
pub mod Presentation
pub mod Rows
pub mod Release
use shadow_lan.Base.{
  ℕ, ◌%◌, Bool, true, false, ◌&&◌, ◌||◌, not, List, [], ◌∷◌, Option, none, some, ltb, ◌==◌,
  if◌then◌else◌, any, find?, modify_first, modify_all,
}
use shadow_lan.Ledger.{Registry, Process, release}

-- A row of g_ta; a free row has socket 0.
pub record Row : Type 0 where
  pub sock : ℕ
  pub vport : ℕ
  pub real : ℕ
  pub proto : ℕ
  pub bindv : Bool

abbrev pub Table : Type 0
Table = List Row

abbrev pub table_max : ℕ
table_max = 64

abbrev pub of_sock : ℕ → Row → Bool
of_sock sock r = r.sock == sock

abbrev pub is_free : Row → Bool
is_free r = r.sock == 0

-- The assignments of the first loop of dt_alias_add, and of the second.
abbrev pub rewrite : ℕ → ℕ → ℕ → Row → Row
rewrite vport real proto r = record r { vport = vport; real = real; proto = proto % 256 }

abbrev pub occupy : ℕ → ℕ → ℕ → ℕ → Row → Row
occupy sock vport real proto r = record r {
  sock = sock;
  vport = vport;
  real = real;
  proto = proto % 256;
}

-- dt_alias_add
unfoldable pub add : Table → ℕ → ℕ → ℕ → ℕ → Table
add t sock vport real proto =
    if any (of_sock sock) t
    then modify_first (of_sock sock) (rewrite vport real proto) t
    else modify_first is_free (occupy sock vport real proto) t

abbrev pub presented : ℕ → Row → Bool
presented sock r = of_sock sock r && ltb 0 r.vport

-- dt_alias_vport
unfoldable pub vport : Table → ℕ → Option ℕ
vport t sock = elim (find? (presented sock) t) [ none ↦ none | some r ↦ some r.vport ]

abbrev pub of_proto : ℕ → Row → Bool
of_proto proto r = proto == 0 || r.proto == proto

abbrev pub serves : ℕ → ℕ → Row → Bool
serves vport proto r = r.vport == vport && ltb 0 r.real && of_proto proto r

-- dt_alias_real: 0 if there is none
unfoldable pub real : Table → ℕ → ℕ → ℕ
real t vport proto = elim (find? (serves vport proto) t) [ none ↦ 0 | some r ↦ r.real ]

abbrev pub uses : ℕ → ℕ → Row → Bool
uses realport proto r =
    (not (r.sock == 0)) && ltb 0 r.vport && r.real == realport && of_proto proto r

-- dt_alias_vport_by_real: 0 if there is none
unfoldable pub vport_by_real : Table → ℕ → ℕ → ℕ
vport_by_real t realport proto = elim (find? (uses realport proto) t) [
  | none ↦ 0
  | some r ↦ r.vport
]

-- dt_alias_bindv
unfoldable pub mark_bindv : Table → ℕ → Table
mark_bindv t sock = modify_first (of_sock sock) (λ r. record r { bindv = true }) t

-- dt_alias_is_bindv
unfoldable pub is_bindv : Table → ℕ → Bool
is_bindv t sock = elim (find? (of_sock sock) t) [ none ↦ false | some r ↦ r.bindv ]

abbrev pub clear : Row → Row
clear r = record r { sock = 0; vport = 0; real = 0 }

-- dt_alias_drop
unfoldable pub drop : Table → ℕ → Table
drop t sock = modify_all (of_sock sock) clear t

-- dt_alias_release_all, which calls slp_release for each presented row
unfoldable pub release_all : Bool → Process → Table → ℕ → Registry → Registry
release_all attached p [] sock g = g
release_all attached p (r ∷ t) sock g =
    release_all attached p t sock
      (if presented sock r then release attached p r.vport r.proto g else g)
