-- ===== src/Main/Accept.antt =====
-- main-auth.c and main-misc.c: the reply to a cookie, and what the result of its check leads to.
use my_vps_config.Base.{
  ℕ, ◌==◌, Bool, true, false, if◌then◌else◌, Option, none, some, List, Bytes, is_empty,
}
use my_vps_config.Base.Int.{ℤ, success, failure, err_bad_command, is_neg, is_zero}
use my_vps_config.SecMod.Types.{AuthStatus}
use my_vps_config.IpLease.Address.{IpLease}
use my_vps_config.Main.Proc.{Proc}
use my_vps_config.Main.Auth.{check_multiple_users}

-- `AuthReplyMsg`, less `msg`; a number without its `has_` field is not sent, so `ipv6_prefix` never is.
pub record ReplyFields : Type 0 where
  pub session_id : Bytes
  pub vname : Bytes
  pub user_name : Bytes
  pub group_name : Bytes
  pub ipv4 : Option Bytes
  pub ipv4_local : Option Bytes
  pub ipv6 : Option Bytes
  pub ipv6_local : Option Bytes
  pub ipv4_netmask : Option Bytes
  pub ipv4_network : Option Bytes
  pub ipv6_network : Option Bytes
  pub rx_per_sec : Option ℕ
  pub tx_per_sec : Option ℕ
  pub net_priority : Option ℕ
  pub no_udp : Option Bool
  pub xml_config_file : Option Bytes
  pub dns : List Bytes
  pub nbns : List Bytes
  pub routes : List Bytes
  pub no_routes : List Bytes

pub data AuthReply : Type 0 where
  reply_ok : ReplyFields → AuthReply
  reply_failed : AuthReply

-- The configuration's limit, `open_tun` (the return code, and the process with its leases and
-- device), `user_connected`, `human_addr2`, and what sending a reply returns.
pub record AcceptWorld : Type 0 where
  pub max_same_clients : ℕ
  pub open_tun : Proc → ℤ × Proc
  pub user_connected : Proc → ℤ
  pub human_addr : Bytes → Option Bytes
  pub send : AuthReply → ℤ

abbrev pub lease_text : AcceptWorld → (IpLease → Bytes) → Option IpLease → Option Bytes
lease_text w side none = none
lease_text w side (some l) = if is_empty l.rip then none else w.human_addr (side l)

abbrev pub if_set : ℕ → Option ℕ
if_set n = if n == 0 then none else some n

unfoldable pub fill_reply : AcceptWorld → Proc → ReplyFields
fill_reply w p = record {
  session_id = p.dtls_session_id;
  vname = p.tun_name;
  user_name = p.username;
  group_name = p.groupname;
  ipv4 = lease_text w (λ l. l.rip) p.client.ipv4;
  ipv4_local = lease_text w (λ l. l.lip) p.client.ipv4;
  ipv6 = lease_text w (λ l. l.rip) p.client.ipv6;
  ipv6_local = lease_text w (λ l. l.lip) p.client.ipv6;
  ipv4_netmask = p.client.networks.ipv4_netmask;
  ipv4_network = p.client.networks.ipv4;
  ipv6_network = p.client.networks.ipv6;
  rx_per_sec = if_set p.config.rx_per_sec;
  tx_per_sec = if_set p.config.tx_per_sec;
  net_priority = if_set p.config.net_priority;
  no_udp = if p.config.no_udp then some true else none;
  xml_config_file = p.config.xml_config_file;
  dns = p.config.dns;
  nbns = p.config.nbns;
  routes = p.config.routes;
  no_routes = p.config.no_routes;
}

-- The reply that `send_cookie_auth_reply` sends.
unfoldable pub cookie_auth_reply : AcceptWorld → Bool → Proc → AuthReply
unfolding fill_reply
cookie_auth_reply w is_ok p =
    if is_ok
    then (if is_empty p.tun_name then reply_failed else reply_ok (fill_reply w p))
    else reply_failed

-- The return code, the process and the reply.
pub record AcceptEffect : Type 0 where
  pub ret : ℤ
  pub proc : Proc
  pub reply : Option AuthReply

-- `ret < 0` becomes ERR_BAD_COMMAND.
unfoldable pub handle_script_exit : AcceptWorld → Proc → ℤ → AcceptEffect
unfolding cookie_auth_reply
handle_script_exit w p code =
    let p' : Proc = if is_zero code then record p { status = AuthStatus.completed } else p in
    let reply' = cookie_auth_reply w (is_zero code) p' in
    record {
      ret = if is_neg (w.send reply') then err_bad_command else success;
      proc = p';
      reply = some reply';
    }

-- ERR_WAIT_FOR_SCRIPT
abbrev pub err_wait_for_script : ℤ
err_wait_for_script = ℤ.negsuc 4

abbrev pub is_wait : ℤ → Bool
is_wait (ℤ.pos n) = false
is_wait (ℤ.negsuc n) = n == 4

-- `accept_user` for a cookie: the return code and the process.
unfoldable pub accept_user : AcceptWorld → Proc → List Proc → ℤ × Proc
accept_user w p others =
    let opened = w.open_tun p in
    if is_neg (check_multiple_users w.max_same_clients p others)
    then (check_multiple_users w.max_same_clients p others, p)
    else (if is_neg opened.0 then (failure, opened.1) else (w.user_connected opened.1, opened.1))

-- The end of `handle_cookie_auth_res`.
unfoldable pub finish_auth : AcceptWorld → Proc → ℤ → AcceptEffect
unfolding handle_script_exit
finish_auth w p code =
    let done = handle_script_exit w p code in
    if is_wait code
    then record { ret = success; proc = p; reply = none }
    else (if is_neg done.ret
        then record done { proc = record (done.proc) { status = AuthStatus.failed } }
        else done)

unfoldable pub handle_cookie_auth_res : AcceptWorld → Proc → List Proc → ℤ → AcceptEffect
unfolding accept_user finish_auth
handle_cookie_auth_res w p others result =
    let accepted = accept_user w p others in
    if is_zero result
    then (if is_neg accepted.0
        then finish_auth w (record (accepted.1) { status = AuthStatus.failed }) accepted.0
        else finish_auth w (record (accepted.1) { status = AuthStatus.completed }) accepted.0)
    else (if is_neg result
        then finish_auth w (record p { status = AuthStatus.failed }) result
        else finish_auth w (record p { status = AuthStatus.failed }) err_bad_command)
