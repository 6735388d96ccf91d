-- ===== src/Icmp.antt =====
-- hook/hk_udp.c: the echo messages, their checksum, and the frames that carry them in the tunnel.
mod Tests
pub mod Checksum
pub mod Waiting
use shadow_lan.Base.{
  ℕ, zero, suc, ◌+◌, ◌-◌, ◌*◌, ◌/◌, ◌%◌, ◌^◌, Bool, true, false, ◌&&◌, ◌||◌, not, List, [], ◌∷◌,
  ◌++◌, Option, none, some, ltb, leb, ◌==◌, if◌then◌else◌, length, take, drop, bit_or, bit_and,
}
use shadow_lan.Wire.{Bytes, put32, put16, get16, at, shl, shr}

-- The loop over the 16-bit words of dt_icmp_cksum; an odd byte counts as a high one.
unfoldable pub words : Bytes → ℕ → ℕ
words [] sum = sum
words (a ∷ []) sum = (sum + shl a 8) % 2 ^ 32
words (a ∷ b ∷ bs) sum = words bs ((sum + bit_or (shl a 8) b) % 2 ^ 32)

-- `while (sum >> 16) sum = (sum & 0xFFFF) + (sum >> 16)`
unfoldable pub fold : ℕ → ℕ → ℕ
fold zero sum = sum
fold (suc fuel) sum =
    let rest = fold fuel (sum % 2 ^ 16 + sum / 2 ^ 16) in if shr sum 16 == 0 then sum else rest

-- `(unsigned short)~sum`
abbrev pub complement : ℕ → ℕ
complement sum = (2 ^ 32 - 1 - sum) % 2 ^ 16

-- Three rounds of the second loop are enough for a 32-bit sum.
unfoldable pub cksum : Bytes → ℕ
cksum b = complement (fold 3 (words b 0))

-- The reply with `c` where its checksum stands
abbrev pub reply : ℕ → ℕ → ℕ → Bytes → Bytes
reply c id seq body = 0 ∷ 0 ∷ (put16 c ++ (put16 id ++ (put16 seq ++ body)))

-- dt_icmp_build_rep
unfoldable pub build_rep : ℕ → ℕ → Bytes → Bytes
build_rep id seq body = reply (cksum (reply 0 id seq body)) id seq body

-- The id, sequence number and payload of an echo request
pub record Echo : Type 0 where
  pub id : ℕ
  pub seq : ℕ
  pub body : Bytes

-- dt_icmp_parse_req
unfoldable pub parse_req : Bytes → Option Echo
parse_req b =
    if ltb (length b) 8 || (not (at b 0 == 8) || not (at b 1 == 0))
    then none
    else some (record {
      id = bit_or (shl (at b 4) 8) (at b 5);
      seq = bit_or (shl (at b 6) 8) (at b 7);
      body = drop 8 b;
    })

-- DU_VER, DU_ICMP_REQ, DU_ICMP_REP
abbrev pub version : ℕ
version = 3

abbrev pub icmp_req : ℕ
icmp_req = 5

abbrev pub icmp_rep : ℕ
icmp_rep = 6

-- The datagrams of dt_icmp_send_req and of the answer in dt_icmp_in: 'V', 'N', the version and the
-- operation, then the nodes, the id, the sequence number and the payload
unfoldable pub tunnel_frame : ℕ → ℕ → ℕ → Echo → Bytes
tunnel_frame op src dest e =
    0x56
    ∷ 0x4e
    ∷ version
    ∷ op
    ∷ (put32 src ++ (put32 dest ++ (put16 e.id ++ (put16 e.seq ++ e.body))))

-- dt_icmp_in on a request: the answer's frame, where the request is addressed to this node `me`.
unfoldable pub answer : ℕ → ℕ → ℕ → Echo → Option Bytes
answer me src dest e =
    if me == 0 || not (dest == me) then none else some (tunnel_frame icmp_rep me src e)
