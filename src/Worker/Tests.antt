-- ===== src/Worker/Tests.antt =====
-- worker-vpn.c on examples.
use my_vps_config.Base.{
  ◌≡◌, ◌≢◌, ◌⊎◌, inl, inr, refl, true, false, none, some, [], ◌∷◌, ◌++◌, Bytes, arith,
  if◌then◌else◌, bytes_eq, bytes_eq→eq, Bool-cases,
}
use my_vps_config.Base.Int.{ℤ}
use my_vps_config.Worker.Mtu.{MtuState, probe_all, mtu_discovery_init}
use my_vps_config.Worker.Discovery.{
  Encloses, IsFound, probe_all-IsFound, probe_all-mtu_discovery_init,
}
use my_vps_config.Worker.Packet.{Compression, WorkerState, Answers}
use my_vps_config.Worker.Channels.{tun_mainloop}
use my_vps_config.Worker.RoundTrip.{AllDeliver, tun_mainloop-Delivers}
use my_vps_config.Worker.Alive.{CheckConfig, CheckState, periodic_check, is_over}
use my_vps_config.Worker.Loop.{check, tun_packet, dtls_packet, loop_leaves}
use my_vps_config.Worker.Silent.{loop_leaves-late}
use my_vps_config.Worker.Heard.{periodic_check-alive}

abbrev between : MtuState
between = record {
  has_ipv6 = false;
  conn_mtu = 1333;
  last_good_mtu = 1300;
  last_bad_mtu = 1400;
  disabled = false;
}

abbrev between' : MtuState
between' = record between { conn_mtu = 1300 }

between-Encloses : Encloses 1350 between
between-Encloses = record {
  enabled = refl;
  good = omega arith;
  bad = omega arith;
  low = omega arith;
  high = omega arith;
  small = omega arith;
}

probe_all-IsFound_example : IsFound 1350 (probe_all 200 1350 between)
probe_all-IsFound_example =
    probe_all-IsFound 200 1350 between between-Encloses (omega arith) (omega arith)

probe_all-mtu_discovery_init_example :
    ((probe_all 4000 1000 (mtu_discovery_init between'.conn_mtu between')).disabled ≡ true)
    ⊎ IsFound 1000 (probe_all 4000 1000 (mtu_discovery_init between'.conn_mtu between'))
probe_all-mtu_discovery_init_example =
    probe_all-mtu_discovery_init 4000 1000 between' refl (omega arith) (omega arith) (omega arith)
      (omega arith)

-- A method that knows one packet.
abbrev four_bytes : Bytes
four_bytes = 7 ∷ 7 ∷ 7 ∷ 7 ∷ []

abbrev test_compression : Compression
test_compression = record {
  id = 1;
  compress = λ p. if bytes_eq p four_bytes then some (1 ∷ []) else none;
  decompress = λ z. if bytes_eq z (1 ∷ []) then some four_bytes else none;
}

abbrev test_env : Answers
test_env = record {
  cstp_ret = ℤ.pos 8;
  cstp_is_fatal = false;
  dtls_ret = ℤ.negsuc 63;
  dtls_again = ℤ.pos 1;
  tun_writes = true;
  large_packet = ℤ.negsuc 63;
  is_fatal = λ r. false;
}

abbrev test_worker : WorkerState
test_worker = record {
  mtu = between;
  udp_active = true;
  cstp_selected_comp = some test_compression;
  dtls_selected_comp = some test_compression;
  no_compress_limit = 2;
  try_mtu = true;
  tun_bytes_in = 0;
  tun_bytes_out = 0;
  last_nc_msg = 100;
  last_msg_tcp = 100;
  last_msg_udp = 100;
}

test_compression-IsLossless :
    (p z : Bytes) → test_compression.compress p ≡ some z → test_compression.decompress z ≡ some p
test_compression-IsLossless p z h = elim (Bool-cases (bytes_eq p four_bytes)) [
  | inl same ↦ ground (arith, bytes_eq→eq p four_bytes same)
  | inr other ↦ absurd (ground arith)
]

tun_mainloop-Delivers_example :
    AllDeliver test_env
      (7 ∷ 7 ∷ 7 ∷ 7 ∷ [])
      121
      test_worker
      (tun_mainloop test_env true (7 ∷ 7 ∷ 7 ∷ 7 ∷ []) 120 test_worker).outputs
    × ((tun_mainloop test_env true (7 ∷ 7 ∷ 7 ∷ 7 ∷ []) 120 test_worker).outputs ≢ [])
tun_mainloop-Delivers_example =
    tun_mainloop-Delivers test_env test_env 7 (7 ∷ 7 ∷ 7 ∷ []) 120 121 test_worker test_worker
      (omega arith) refl refl test_compression-IsLossless test_compression-IsLossless (λ e. refl)

abbrev test_config : CheckConfig
test_config = record {
  idle_timeout = 1200;
  stats_report_time = 0;
  dpd = 30;
  mtu_overhead = 80;
  tcp_maxseg = some 1460;
}

abbrev test_check : CheckState
test_check = record {
  worker = test_worker;
  last_periodic_check = 100;
  last_stats_msg = 0;
  sid_set = true;
  terminate = false;
}

-- A check, a packet of the TUN device, a DPD packet on DTLS, and the late check.
loop_leaves-late_example :
    loop_leaves test_config
      ((check test_env none 131
          ∷ tun_packet test_env true (1 ∷ []) 140
          ∷ dtls_packet test_env true (3 ∷ []) 141
          ∷ [])
        ++ (check test_env none 230 ∷ []))
      test_check
    ≡ true
loop_leaves-late_example =
    loop_leaves-late test_config (omega arith) (omega arith)
      (check test_env none 131
        ∷ tun_packet test_env true (1 ∷ []) 140
        ∷ dtls_packet test_env true (3 ∷ []) 141
        ∷ [])
      test_env none 230 test_check (omega arith) (omega arith)

periodic_check-alive_example : is_over (periodic_check test_config test_env 190 test_check) ≡ false
periodic_check-alive_example =
    periodic_check-alive test_config test_env (omega arith) 190 refl refl test_check
      (omega arith, refl) (inr (omega arith))
