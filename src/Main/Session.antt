-- ===== src/Main/Session.antt =====
-- main-sec-mod-cmd.c: main opens and closes a session at the security module.
use my_vps_config.Base.{
  ℕ, ◌+◌, ◌-◌, ◌%◌, ◌^◌, ◌==◌, Bool, if◌then◌else◌, Option, none, some, List, [], ◌∷◌, Bytes,
}
use my_vps_config.Base.Int.{ℤ, success, failure}
use my_vps_config.SecMod.Types.{AuthSession, CliStats}
use my_vps_config.IpLease.Choice.{Client}
use my_vps_config.Main.Proc.{GroupConfig, Proc}

-- `SecAuthSessionReplyMsg`; a number that is absent is 0.
pub record SessionReply : Type 0 where
  pub is_ok : Bool
  pub no_udp : Option Bool
  pub deny_roaming : Option Bool
  pub routes : List Bytes
  pub iroutes : List Bytes
  pub dns : List Bytes
  pub nbns : List Bytes
  pub ipv4_net : Option Bytes
  pub ipv4_netmask : Option Bytes
  pub ipv6_net : Option Bytes
  pub ipv6_prefix : Option ℕ
  pub cgroup : Option Bytes
  pub xml_config_file : Option Bytes
  pub rx_per_sec : ℕ
  pub tx_per_sec : ℕ
  pub net_priority : ℕ
  pub explicit_ipv4 : Option Bytes
  pub explicit_ipv6 : Option Bytes
  pub no_routes : List Bytes

-- What becomes of a request: it is not sent, the reply does not come (with the negative code less
-- one), or it comes.
pub data Answer (Msg : Type 0) : Type 0 where
  not_sent : Answer Msg
  no_reply : ℕ → Answer Msg
  replied : Msg → Answer Msg

abbrev pub session_request : Option Bytes → ℕ → Proc → AuthSession
session_request cookie now p = record {
  sid = p.sid;
  cookie = cookie;
  uptime = some ((now + (2 ^ 64 - p.conn_time)) % 2 ^ 32);
  bytes_in = some p.bytes_in;
  bytes_out = some p.bytes_out;
}

-- `if (new) old = new`, for a pointer, a number and a list.
abbrev pub or_else : {A : Type 0} → Option A → A → A
or_else none old = old
or_else (some new) old = new

abbrev pub or_old : {A : Type 0} → Option A → Option A → Option A
or_old none old = old
or_old (some new) old = some new

abbrev pub or_old_number : ℕ → ℕ → ℕ
or_old_number new old = if new == 0 then old else new

abbrev pub or_old_list : List Bytes → List Bytes → List Bytes
or_old_list [] old = old
or_old_list (x ∷ xs) old = x ∷ xs

-- The filling in of `group_cfg_st`, where `talloc_strdup` and `talloc_size` succeed.
unfoldable pub fill_config : SessionReply → GroupConfig → GroupConfig
fill_config m c = record {
  routes = or_old_list m.routes c.routes;
  no_routes = or_old_list m.no_routes c.no_routes;
  iroutes = or_old_list m.iroutes c.iroutes;
  dns = or_old_list m.dns c.dns;
  nbns = or_old_list m.nbns c.nbns;
  cgroup = or_old m.cgroup c.cgroup;
  xml_config_file = or_old m.xml_config_file c.xml_config_file;
  rx_per_sec = or_old_number m.rx_per_sec c.rx_per_sec;
  tx_per_sec = or_old_number m.tx_per_sec c.tx_per_sec;
  deny_roaming = or_else m.deny_roaming c.deny_roaming;
  net_priority = or_old_number m.net_priority c.net_priority;
  no_udp = or_else m.no_udp c.no_udp;
}

unfoldable pub fill_client : SessionReply → Client → Client
fill_client m c = record c {
  networks = record {
    ipv4 = or_old m.ipv4_net c.networks.ipv4;
    ipv4_netmask = or_old m.ipv4_netmask c.networks.ipv4_netmask;
    ipv6 = or_old m.ipv6_net c.networks.ipv6;
    ipv6_prefix = or_else m.ipv6_prefix c.networks.ipv6_prefix;
  };
  explicit_ipv4 = or_old m.explicit_ipv4 c.explicit_ipv4;
  explicit_ipv6 = or_old m.explicit_ipv6 c.explicit_ipv6;
}

-- `ask` is the security module; the return code and the process.
unfoldable pub session_open : (AuthSession → Answer SessionReply) → Bytes → ℕ → Proc → ℤ × Proc
unfolding fill_config fill_client
session_open ask cookie now p = elim (ask (session_request (some cookie) now p)) [
  | not_sent ↦ (failure, p)
  | no_reply n ↦ (ℤ.negsuc n, p)
  | replied m ↦
      if m.is_ok
      then (success, record p { config = fill_config m p.config; client = fill_client m p.client })
      else (failure, p)
]

unfoldable pub session_close : (AuthSession → Answer CliStats) → ℕ → Proc → ℤ × Proc
session_close ask now p = elim (ask (session_request none now p)) [
  | not_sent ↦ (failure, p)
  | no_reply n ↦ (ℤ.negsuc n, p)
  | replied m ↦ (success, record p { bytes_in = m.bytes_in; bytes_out = m.bytes_out })
]
