-- ===== src/Icmp/Tests.antt =====
-- An echo request with a payload of three bytes.
use shadow_lan.Base.{true, inr, ◌≡◌, ◌++◌, refl, [], ◌∷◌, some, none, arith, Every}
use shadow_lan.Wire.{Bytes, put16, put32}
use shadow_lan.Icmp.{cksum, build_rep, parse_req, answer, tunnel_frame}
use shadow_lan.Icmp.Waiting.{Waiter, oldest, note, is_awaited, is_awaited-note}
use shadow_lan.Icmp.Checksum.{IsOctet, cksum-build_rep, parse_req-request}

abbrev ping : Bytes
ping = 10 ∷ 20 ∷ 30 ∷ []

ping-IsOctets : Every IsOctet ping
ping-IsOctets = (omega arith, (omega arith, (omega arith, tt)))

cksum-build_rep_example : cksum (build_rep 7 1 ping) ≡ 0
cksum-build_rep_example = cksum-build_rep 7 1 ping ping-IsOctets (omega arith)

parse_req_request_test :
    parse_req (8 ∷ 0 ∷ (put16 0xf0e1 ++ (put16 7 ++ (put16 1 ++ ping))))
    ≡ some (record { id = 7; seq = 1; body = ping })
parse_req_request_test = parse_req-request 0xf0e1 7 1 ping (omega arith) (omega arith)

-- A node answers a request that names it, and no other.
answers :
    (answer 9 4 9 (record { id = 7; seq = 1; body = ping })
      ≡ some (0x56 ∷ 0x4e ∷ 3 ∷ 6 ∷ 0 ∷ 0 ∷ 0 ∷ 9 ∷ 0 ∷ 0 ∷ 0 ∷ 4 ∷ 0 ∷ 7 ∷ 0 ∷ 1 ∷ ping))
    × (answer 9 4 8 (record { id = 7; seq = 1; body = ping }) ≡ none)
unfolding answer tunnel_frame put16 put32
answers = (refl, refl)

abbrev waiter : Waiter
waiter = record { used = true; gsock = 4; id = 9; last = 1000 }

-- A full table of one row, which is older than the request.
is_awaited-note_test : is_awaited 5 7 6000 (note 5 7 2000 (waiter ∷ [])) ≡ true
unfolding oldest
is_awaited-note_test =
    is_awaited-note 5 7 2000 6000 (waiter ∷ []) (omega arith) (omega arith)
      (inr (inr (omega arith)))
