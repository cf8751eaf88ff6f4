-- ===== src/Main/Tests.antt =====
-- The main process on examples.
use my_vps_config.Base.{
  arith, ℕ, ◌≡◌, ◌⊎◌, refl, true, false, Option, none, some, List, [], ◌∷◌, ◌++◌, Bytes, replicate,
  ◌↔◌, ◌+◌, ◌≤◌,
}
use my_vps_config.Base.Int.{ℤ, success, failure}
use my_vps_config.Htable.Multi.{Multi, one_chain}
use my_vps_config.SecMod.Types.{AuthStatus}
use my_vps_config.IpLease.Choice.{Client}
use my_vps_config.IpLease.Registry.{steal_ip_leases}
use my_vps_config.Cookies.{decrypt_cookie, check_tag}
use my_vps_config.Cookies.Tests.{plain_gcm, one_packing, test_iv}
use my_vps_config.Main.Proc.{GroupConfig, Proc, deref, write_back}
use my_vps_config.Main.Table.{
  ProcRef, addr_key, dtls_id_key, sid_key_of, address_of, ref_of, ProcTable, proc_table_add,
  proc_search_sid,
}
use my_vps_config.Main.Session.{SessionReply, replied, session_open, fill_config, fill_client}
use my_vps_config.Main.Auth.{
  AuthWorld, default_config, take_cookie, address_fits, enter_proc, take_over, resume_proc,
  open_proc, handle_auth_cookie_req, count_same, check_multiple_users,
}
use my_vps_config.Main.Accept.{
  err_wait_for_script, ReplyFields, AuthReply, reply_ok, reply_failed, AcceptWorld, AcceptEffect,
  fill_reply, cookie_auth_reply, handle_script_exit, accept_user, finish_auth,
  handle_cookie_auth_res,
}
use my_vps_config.Main.Atomic.{SameEntries, OneMore, proc_table_add-atomic}
use my_vps_config.Main.Scripts.{cookie_answer}
use my_vps_config.Main.Users.{connections, check_multiple_users-connections}
use my_vps_config.Main.Serve.{serve_cookie}

abbrev pub ips : Multi ProcRef addr_key address_of
ips = one_chain addr_key address_of

abbrev pub ids : Multi ProcRef dtls_id_key address_of
ids = one_chain dtls_id_key address_of

abbrev pub sids : Multi ProcRef sid_key_of address_of
sids = one_chain sid_key_of address_of

abbrev empty_config : GroupConfig
empty_config = record {
  routes = [];
  no_routes = [];
  iroutes = [];
  dns = [];
  nbns = [];
  cgroup = none;
  xml_config_file = none;
  rx_per_sec = 0;
  tx_per_sec = 0;
  deny_roaming = false;
  net_priority = 0;
  no_udp = false;
}

abbrev empty_client : Client
empty_client = record {
  networks = record { ipv4 = none; ipv4_netmask = none; ipv6 = none; ipv6_prefix = 0 };
  explicit_ipv4 = none;
  explicit_ipv6 = none;
  ipv4_seed = [];
  ipv4 = none;
  ipv6 = none;
}

abbrev pub new_proc : Proc
new_proc = record {
  address = 7;
  pid = ℤ.pos 70;
  client = empty_client;
  config = empty_config;
  remote_addr = 1 ∷ [];
  sid = [];
  active_sid = false;
  dtls_session_id = [];
  username = [];
  groupname = [];
  hostname = [];
  tun_name = [];
  status = AuthStatus.inactive;
  bytes_in = 0;
  bytes_out = 0;
  conn_time = 0;
}

abbrev pub old_proc : Proc
old_proc = record new_proc { address = 8; pid = ℤ.pos 80; sid = replicate 16 3; username = 97 ∷ [] }

abbrev test_tables : ProcTable ips ids sids
test_tables = record { db_ip = []; db_dtls_id = []; db_sid = []; total = 0 }

abbrev pub ok_reply : SessionReply
ok_reply = record {
  is_ok = true;
  no_udp = none;
  deny_roaming = some true;
  routes = [];
  iroutes = [];
  dns = [];
  nbns = [];
  ipv4_net = none;
  ipv4_netmask = none;
  ipv6_net = none;
  ipv6_prefix = none;
  cgroup = none;
  xml_config_file = none;
  rx_per_sec = 0;
  tx_per_sec = 0;
  net_priority = 0;
  explicit_ipv4 = none;
  explicit_ipv6 = none;
  no_routes = [];
}

abbrev pub test_world : AuthWorld
test_world = record {
  gcm = plain_gcm;
  packing = one_packing;
  cookie_key = [];
  nonce = some (replicate 32 4);
  ask = λ req. replied ok_reply;
  human_addr = λ a. some (49 ∷ []);
  now = 50;
  deny_roaming = false;
  without_udp = false;
}

abbrev pub test_accept : AcceptWorld
test_accept = record {
  max_same_clients = 2;
  open_tun = λ p. (success, record p { tun_name = 118 ∷ [] });
  user_connected = λ p. success;
  human_addr = λ a. some a;
  send = λ r. success;
}

abbrev pub test_bytes : Bytes
test_bytes = test_iv ++ (1 ∷ 2 ∷ replicate 12 0)

check_multiple_users-connections_example :
    (check_multiple_users 1 new_proc (old_proc ∷ []) ≡ success)
    ↔ ((◌≡◌ {A = ℕ} 1 0) ⊎ (1 + connections new_proc.username (old_proc ∷ []) ≤ 1))
check_multiple_users-connections_example =
    check_multiple_users-connections 1 new_proc (old_proc ∷ []) (omega arith)

-- A result that there is.
abbrev pub result_or : {A : Type 0} → A → Option A → A
result_or d none = d
result_or d (some a) = a

abbrev pub fields_or : ReplyFields → Option AuthReply → ReplyFields
fields_or d none = d
fields_or d (some (reply_ok f)) = f
fields_or d (some reply_failed) = d

abbrev pub no_fields : ReplyFields
no_fields = record {
  session_id = [];
  vname = [];
  user_name = [];
  group_name = [];
  ipv4 = none;
  ipv4_local = none;
  ipv6 = none;
  ipv6_local = none;
  ipv4_netmask = none;
  ipv4_network = none;
  ipv6_network = none;
  rx_per_sec = none;
  tx_per_sec = none;
  net_priority = none;
  no_udp = none;
  xml_config_file = none;
  dns = [];
  nbns = [];
  routes = [];
  no_routes = [];
}

abbrev pub used_tables : ProcTable ips ids sids
used_tables = record test_tables {
  db_sid =
      record { address = 8; remote_addr = 1 ∷ []; dtls_session_id = []; sid = replicate 16 3 } ∷ [];
}

abbrev pub nothing : AcceptEffect × List Proc × ProcTable ips ids sids
nothing = (record { ret = success; proc = new_proc; reply = none }, [], test_tables)

unfoldable run : AcceptEffect × List Proc × ProcTable ips ids sids
run = result_or nothing (
    serve_cookie ips ids sids test_world test_accept test_bytes new_proc (old_proc ∷ [])
      used_tables)

run_is :
    serve_cookie ips ids sids test_world test_accept test_bytes new_proc (old_proc ∷ []) used_tables
    ≡ some run
unfolding serve_cookie handle_auth_cookie_req open_proc resume_proc take_over enter_proc take_cookie
    default_config address_fits session_open fill_config fill_client proc_table_add proc_search_sid
    ref_of deref write_back decrypt_cookie check_tag run
run_is = refl

run-reply_ok : run.0.reply ≡ some (reply_ok (fields_or no_fields run.0.reply))
unfolding serve_cookie handle_auth_cookie_req open_proc resume_proc take_over enter_proc take_cookie
    default_config address_fits session_open fill_config fill_client proc_table_add proc_search_sid
    ref_of deref write_back decrypt_cookie check_tag handle_cookie_auth_res finish_auth
    handle_script_exit cookie_auth_reply fill_reply accept_user check_multiple_users count_same
    steal_ip_leases run
run-reply_ok = refl

-- A connect script is started, and ends with status 0.
abbrev script_accept : AcceptWorld
script_accept = record test_accept { user_connected = λ p. err_wait_for_script }

unfoldable scripted : AcceptEffect × List Proc × ProcTable ips ids sids
scripted = result_or nothing (
    cookie_answer ips ids sids test_world script_accept 0 test_bytes new_proc (old_proc ∷ [])
      used_tables)

abbrev new_ref : ProcRef
new_ref = record { address = 7; remote_addr = 1 ∷ []; dtls_session_id = 2 ∷ []; sid = 3 ∷ [] }

proc_table_add-atomic_example :
    let (ret, t') = proc_table_add ips ids sids new_ref used_tables in
    ((ret ≡ failure)
      × (t'.total ≡ 0)
      × SameEntries ips used_tables.db_ip t'.db_ip
      × SameEntries ids used_tables.db_dtls_id t'.db_dtls_id
      × SameEntries sids used_tables.db_sid t'.db_sid)
    ⊎ ((ret ≡ success)
        × (t'.total ≡ 1)
        × OneMore ips new_ref used_tables.db_ip t'.db_ip
        × OneMore ids new_ref used_tables.db_dtls_id t'.db_dtls_id
        × OneMore sids new_ref used_tables.db_sid t'.db_sid)
proc_table_add-atomic_example = proc_table_add-atomic ips ids sids new_ref used_tables
