-- ===== src/Lib.antt =====
-- The C hook of ShadowLAN: the tables and queues behind the interposed socket calls.
--
-- The hook makes a process believe that it is alone on a machine of a virtual LAN. Its sockets'
-- TCP connections become streams over connections to a relay, its datagrams become frames of a UDP
-- tunnel, and the ports that it binds are claimed in a registry that all processes of one node
-- share. The parts meet in the tables that this library models: a bind goes to the ledger and then
-- to the presentation table, a connect to the lease and the stream table, a datagram to the queues
-- of the sockets, and all control traffic to the queue of the control link.
--
--   Base      scans over fixed tables (first match, change of the first or of every match), lists
--             and bits on native numbers
--   Wire      hook/hk_core.c: dt_put32, dt_get32, dt_put16, dt_get16
--   Net       hook/hk_core.c, hook/hk_stream.c: port_allowed, ipv4_is_lan, ipv4_is_bcast,
--             sockaddr_is_lan_target, ipv4_is_loopback, ipv4_is_local
--   Ledger    hook/hk_ledger.c: slp_attach, slp_claim, slp_release, slp_used, slp_taken
--   Alias     hook/hk_alias.c: the rows of g_ta and every dt_alias_ function
--   Stream    hook/hk_sess.c, hook/hk_udp.c: the rows of g_st and dt_stream_alloc; Stream/App:
--             hook/hk_route.c, dt_stream_send and dt_stream_pop, and shutdown of hook/hk_linux.c;
--             Stream/Pump and Stream/Close: hook/hk_stream.c, what dt_stream_thread does to its
--             row, and dt_on_close of hook/hk_route.c; Stream/Dial: hook/hk_stream.c,
--             dt_stream_thread from its start to the verdict; Stream/Drains: its drain after
--             close and the sends of dt_flush_streams
--   Datagrams hook/hk_sess.c: dt_udp_entry, dt_udp_push, dt_udp_pop, dt_direct_udp_in,
--             dt_dispatch_bcast_from; hook/hk_route.c: dt_udp_has and dt_on_close
--   Members   hook/hk_ports.c: dt_apply_assign, dt_virt_node, dt_node_virt; hook/hk_udp.c:
--             dt_in_vnet, dt_is_vnet_bcast, dt_relay_virt, dt_is_dial_local
--   Control   hook/hk_ports.c: dt_tcp_queue; hook/hk_stream.c: the flush, redial and receive parts
--             of dt_tcp_thread
--   Icmp      hook/hk_udp.c: dt_icmp_parse_req, dt_icmp_cksum, dt_icmp_build_rep, dt_icmp_note,
--             dt_icmp_match and the frames of the tunnel
--   Ports     hook/hk_ports.c: dt_record_listen, dt_owns_listen; hook/hk_route.c: the dt_hairpin_
--             functions and dt_getpeer; hook/hk_sess.c: dt_slot_get
--   Accepted  hook/hk_sess.c: dt_acc_learn_fd, dt_acc_get, dt_acc_forget, dt_acc_self_view
--   Doors     hook/hk_linux.c: bind, getsockname and listen; hook/hk_sess.c: dt_bind_alias
--   Waits     hook/hk_sess.c: the dt_wait_ functions; hook/hk_route.c: dt_tcp_wait and
--             dt_stream_send_wait
--   Sessions  hook/hk_sess.c: dt_hs_by_sid, dt_hs_close, dt_usess_find, dt_hosted_udp_in;
--             hook/hk_udp.c: dt_hosted_unsource;
--             hook/hk_stream.c: dt_on_streq and the sweeps of dt_hosted_thread
--   Tunnel    hook/hk_stream.c: dt_udp_ingress and dt_ctl_dispatch; hook/hk_udp.c: the frames that
--             dt_on_sendto builds
--   Routes    hook/hk_route.c: dt_on_connect; hook/hk_udp.c: dt_on_sendto, dt_reject_wire4,
--             dt_sport_presentation; Routes/Pings: dt_on_icmp_send, dt_icmp_in and the turn of
--             dt_on_sendto to the former
--   Bridge    hook/hk_stream.c: the pipe of dt_join_thread
--   Legs      hook/hk_stream.c: dt_st_send_all_tmo, dt_st_send_frame, dt_st_recv_frame
--
-- Sockets, ports and addresses are natural numbers, in host order; -1 is `none` or a constructor of
-- the result. A table of the code is the list of its rows in the order of the scan, a linked list
-- of the code is a list. What one critical section of DLOCK does is one step; where a scan lets
-- the lock go between two rows, the whole scan is. Calls of malloc are answered by an argument
-- `memory`, what the kernel answers (send, recv, kill, getsockname) is an argument too. Logging and
-- the counters that only the log reads are left out. Calls that wake a thread are counted in
-- fields that the code does not have. realloc of the receive buffer is taken to succeed.
--
-- Bounds and fuel: three rounds of the checksum's second loop are enough for a sum of 32 bits, and
-- more change nothing (Icmp/Checksum, fold_enough). The loop over the received bytes takes their
-- number as fuel, and any larger fuel gives the same (Control/Frames, read_enough): a frame has at
-- least five bytes.
--
-- The search of bind to port 0 has the 4096 rounds of the code. A loop that waits for the kernel or
-- for another thread takes the list of what its passes meet, and a theorem says how many passes, or
-- which, are enough for it to return (Waits/Loops, Legs/Frames).
--
-- Where a call is made of several critical sections, what other threads do between them is an
-- argument or an explicit sequence of operations (Waits/Pokes, Stream/Pump/Order). The kernel's
-- bind, connect, send, recv, socket and inet_addr are arguments of the calls that use them.
--
-- Not modelled: of hook/hk_linux.c the receive and poll calls, and all of the hook/hk_win files,
-- which turn libc and WinSock calls into these operations; the wait of
-- dt_flush_streams for rows to take over; dialling the relay and the handshake of
-- dt_join_thread; start-up, logging and the environment; the relay, which is
-- in Python.
pub mod Base
pub mod Wire
pub mod Net
pub mod Ledger
pub mod Alias
pub mod Stream
pub mod Datagrams
pub mod Members
pub mod Control
pub mod Icmp
pub mod Ports
pub mod Accepted
pub mod Doors
pub mod Waits
pub mod Sessions
pub mod Tunnel
pub mod Routes
pub mod Bridge
pub mod Legs
