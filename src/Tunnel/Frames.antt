-- ===== src/Tunnel/Frames.antt =====
-- A frame is read back as the datagram, the flow and the port that were framed.
use shadow_lan.Base.{
  ℕ, ◌+◌, ◌<◌, ◌^◌, ◌≡◌, ◌∙◌, ap, sym, refl, false, ◌++◌, arith, ltb, length, take, drop, drop_past,
  take_past, drop-drop, length-append,
}
use shadow_lan.Wire.{Bytes, put16, get16}
use shadow_lan.Wire.Numbers.{get16-put16, drop-put16}
use shadow_lan.Tunnel.{
  flow_bytes, head, c2s, s2c, c2s_frame, s2c_frame, ip_length, read_op, read_frame, to_host,
  to_flow,
}

module _ (op gport cport : ℕ) (ip raw : Bytes) (g : gport < 2 ^ 16) (c : cport < 2 ^ 16)
    (l : length ip < 2 ^ 16) where
  abbrev frame : Bytes
  frame = head op (flow_bytes gport ip cport raw)

  drop-ports : drop 8 frame ≡ ip ++ (put16 cport ++ raw)
  unfolding put16
  drop-ports = refl

  drop-length : drop 6 frame ≡ put16 (length ip) ++ (ip ++ (put16 cport ++ raw))
  unfolding put16
  drop-length = refl

  get_port : get16 (drop 4 frame) ≡ gport
  get_port = get16-put16 gport _ g

  get_length : ip_length frame ≡ length ip
  get_length = rw drop-length (get16-put16 (length ip) _ l)

  past_ip : drop (8 + length ip) frame ≡ put16 cport ++ raw
  past_ip = sym (drop-drop (length ip) 8 frame) ∙ ap (drop (length ip)) drop-ports ∙ drop_past ip _

  past_flow : drop (10 + length ip) frame ≡ raw
  past_flow =
      ap (λ k. drop k frame) {x = 10 + length ip} {y = 8 + length ip + 2} (omega arith)
      ∙ sym (drop-drop 2 (8 + length ip) frame)
      ∙ ap (drop 2) past_ip
      ∙ drop-put16 cport raw

  frame_length : length frame ≡ 10 + length ip + length raw
  unfolding put16
  frame_length = omega (arith, length-append ip (put16 cport ++ raw))

  get_text : take (length ip) (drop 8 frame) ≡ ip
  get_text = ap (take (length ip)) drop-ports ∙ take_past ip _

  get_port_back : get16 (drop (8 + length ip) frame) ≡ cport
  get_port_back = ap get16 past_ip ∙ get16-put16 cport raw c

  fits : ltb (length frame) (8 + length ip + 2) ≡ false
  fits = ground (arith, frame_length)

  long_enough : ltb (length frame) 10 ≡ false
  long_enough = ground (arith, frame_length)

  read_head : read_frame frame ≡ read_op op frame
  unfolding read_frame
  read_head = rw long_enough refl

module _ (gport cport : ℕ) (ip raw : Bytes) (g : gport < 2 ^ 16) (c : cport < 2 ^ 16)
    (l : length ip < 2 ^ 16) where
  -- A frame to a host is read back as its port, the sender's address and port, and the datagram.
  pub read_frame-c2s_frame : read_frame (c2s_frame gport ip cport raw) ≡ to_host gport ip cport raw
  unfolding c2s_frame read_op
  read_frame-c2s_frame =
      read_head c2s gport cport ip raw g c l
      ∙ rw
          (
            get_length c2s gport cport ip raw g c l,
            fits c2s gport cport ip raw g c l,
            get_port c2s gport cport ip raw g c l,
            get_text c2s gport cport ip raw g c l,
            get_port_back c2s gport cport ip raw g c l,
            past_flow c2s gport cport ip raw g c l,
          )
          refl

  -- A frame back to a member is read back as the host's port, the member's own, and the datagram.
  pub read_frame-s2c_frame : read_frame (s2c_frame gport ip cport raw) ≡ to_flow gport cport raw
  unfolding s2c_frame read_op
  read_frame-s2c_frame =
      read_head s2c gport cport ip raw g c l
      ∙ rw
          (
            get_length s2c gport cport ip raw g c l,
            fits s2c gport cport ip raw g c l,
            get_port s2c gport cport ip raw g c l,
            get_port_back s2c gport cport ip raw g c l,
            past_flow s2c gport cport ip raw g c l,
          )
          refl
