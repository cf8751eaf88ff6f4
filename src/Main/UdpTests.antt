-- ===== src/Main/UdpTests.antt =====
-- Datagrams on the UDP port, on an example.
use my_vps_config.Base.{
  ℕ, ◌≡◌, ◌≢◌, refl, true, false, ◌==◌, if◌then◌else◌, none, some, [], ◌∷◌, replicate, arith,
}
use my_vps_config.Main.Table.{ProcRef, ProcTable, proc_search_ip}
use my_vps_config.Main.Udp.{
  Datagram, UdpWorld, UdpFd, forward_udp_to_owner, find_owner, pass_udp, is_handshake,
  is_unknown_version,
}
use my_vps_config.Main.Forward.{IsPassed, forward_udp_to_owner-IsPassed, forward_udp_to_owner-rests}
use my_vps_config.Main.Tests.{ips, ids, sids}

-- A datagram that is no handshake, from the address of a client, and the same 30 seconds later.
abbrev hole : Datagram
hole = record { bytes = replicate 93 1; behind = []; addr = b'a' ∷ [] }

abbrev udp_at : ℕ → UdpWorld
udp_at now = record {
  now = now;
  unix_conn_file = false;
  socket = true;
  connect = true;
  send = true;
}

abbrev udp_client : ProcRef
udp_client = record { address = 7; remote_addr = b'a' ∷ []; dtls_session_id = []; sid = [] }

abbrev other_client : ProcRef
other_client = record { address = 8; remote_addr = b'b' ∷ []; dtls_session_id = []; sid = [] }

abbrev udp_table : ProcTable ips ids sids
udp_table = record {
  db_ip = udp_client ∷ other_client ∷ [];
  db_dtls_id = [];
  db_sid = [];
  total = 2;
}

abbrev udp_message : ℕ → UdpFd
udp_message a = record { owner = a; hello = false; content = none }

passes_first :
    (forward_udp_to_owner ips ids sids (udp_at 100) (some hole) udp_table (λ a. 0)).0
    ≡ some (udp_message 7)
unfolding forward_udp_to_owner find_owner pass_udp is_handshake is_unknown_version proc_search_ip
passes_first = refl

forward_udp_to_owner-IsPassed_example :
    (p : ProcRef) × IsPassed (udp_at 100) hole (λ a. 0) (udp_message 7) p
    × ((a : ℕ)
        → (forward_udp_to_owner ips ids sids (udp_at 100) (some hole) udp_table (λ a. 0)).1 a
          ≡ (if 7 == a then 100 else 0))
forward_udp_to_owner-IsPassed_example =
    forward_udp_to_owner-IsPassed ips ids sids udp_table (udp_at 100) hole (λ a. 0) (udp_message 7)
      passes_first

abbrev other_hole : Datagram
other_hole = record hole { addr = b'b' ∷ [] }

passes_other :
    (forward_udp_to_owner ips ids sids
      (udp_at 130)
      (some other_hole)
      udp_table
      (forward_udp_to_owner ips ids sids (udp_at 100) (some hole) udp_table (λ a. 0)).1).0
    ≡ some (udp_message 8)
unfolding forward_udp_to_owner find_owner pass_udp is_handshake is_unknown_version proc_search_ip
passes_other = refl

forward_udp_to_owner-rests_example : (udp_message 8).owner ≢ (udp_message 7).owner
forward_udp_to_owner-rests_example =
    forward_udp_to_owner-rests ips ids sids udp_table (udp_at 100) (udp_at 130) hole other_hole
      (λ a. 0) (udp_message 7) (udp_message 8) passes_first passes_other (omega arith)
