-- ===== src/SecMod/Types.antt =====
-- The data of the security module (sec-mod.h, sec-mod-auth.h, sec-mod-acct.h, ipc.proto) and what
-- it calls. The authentication and accounting modules and the messages' transport are parameters:
-- each call of them is a function whose result the code may only inspect. `Ctx` is the type that
-- a module keeps behind `auth_ctx`.
use my_vps_config.Base.{ℕ, Bool, Option, List, Bytes}
use my_vps_config.Base.Int.{ℤ}

-- PS_AUTH_INACTIVE to PS_AUTH_COMPLETED of main.h
pub data AuthStatus : Type 0 where
  inactive failed init cont completed : AuthStatus

-- `stats_st`
pub record Stats : Type 0 where
  pub bytes_in : ℕ
  pub bytes_out : ℕ
  pub uptime : ℕ

-- `common_auth_info_st`
pub record AuthInfo : Type 0 where
  pub username : Bytes
  pub groupname : Bytes
  pub psid : Bytes
  pub remote_ip : Bytes
  pub ipv4 : Bytes
  pub ipv6 : Bytes

-- `auth_mod_st`: each function returns its result and what it leaves behind its pointers.
pub record AuthModule (Ctx : Type 0) : Type 0 where
  pub kind : ℕ
  pub allows_retries : Bool
  pub auth_init : Option Bytes → Bytes → ℤ × Option Ctx
  pub auth_msg : Option Ctx → ℤ × Option Bytes × Option Ctx
  pub auth_pass : Option Ctx → Bytes → ℤ × Option Ctx
  pub auth_group : Option Ctx → Option Bytes → Bytes → ℤ × Bytes × Option Ctx
  pub auth_user : Option Ctx → Bytes → Bytes × Option Ctx

-- `client_entry_st`. The time `none` is -1, and the length of `cookie` is `cookie_size`.
pub record ClientEntry (Ctx : Type 0) : Type 0 where
  pub sid : Bytes
  pub auth_ctx : Option Ctx
  pub session_is_open : Bool
  pub in_use : ℕ
  pub tls_auth_ok : Bool
  pub msg_str : Option Bytes
  pub saved_stats : Stats
  pub stats : Stats
  pub status : AuthStatus
  pub hostname : Bytes
  pub cookie : Bytes
  pub dtls_session_id : Bytes
  pub time : Option ℕ
  pub auth_type : ℕ
  pub auth_info : AuthInfo
  pub auth_module : Option (AuthModule Ctx)

abbrev pub sid_key : {Ctx : Type 0} → ClientEntry Ctx → Bytes
sid_key e = e.sid

-- An element of `perm_cfg_st.auth`.
pub record AuthMethod (Ctx : Type 0) : Type 0 where
  pub enabled : Bool
  pub kind : ℕ
  pub amod : Option (AuthModule Ctx)

-- `acct_mod_st`: `none` is a function that the module lacks.
pub record AcctModule (Ctx : Type 0) : Type 0 where
  pub open_session : Option (ℕ → Option Ctx → AuthInfo → Bytes → ℤ)
  pub session_stats : Bool
  pub close_session : Bool

-- The fields of `cfg_st` and `perm_cfg_st` that the module reads. `get_sup_config` also returns
-- the configuration that it puts into the reply.
pub record SecConfig (Ctx : Type 0) : Type 0 where
  pub max_ban_score : ℕ
  pub ban_points_wrong_password : ℕ
  pub cookie_timeout : ℕ
  pub predictable_ips : Bool
  pub cert_user_oid : Bool
  pub cert_group_oid : Bool
  pub auth : List (AuthMethod Ctx)
  pub acct : Option (AcctModule Ctx)
  pub get_sup_config : Option (ClientEntry Ctx → ℤ × Bytes)

-- The message `Cookie` of ipc.proto.
pub record Cookie : Type 0 where
  pub username : Bytes
  pub groupname : Bytes
  pub hostname : Bytes
  pub ip : Bytes
  pub tls_auth_ok : Bool
  pub ipv4_seed : ℕ
  pub sid : Bytes
  pub expiration : ℕ

-- What the module sends to a worker or to main.
pub data Reply : Type 0 where
  -- SecAuthReplyMsg: cookie, user name, message, SID, DTLS session ID
  auth_ok : Bytes → Bytes → Option Bytes → Bytes → Bytes → Reply
  auth_failed : Reply
  auth_msg : Option Bytes → Bytes → Reply
  -- SecAuthSessionReplyMsg
  session_ok : Bytes → Reply
  session_failed : Reply
  -- CliStatsMsg: bytes in, bytes out
  cli_stats : ℕ → ℕ → Reply

-- The exchange of `sec_mod_add_score_to_ip` with main: no memory for it, an error of `send_msg` or
-- of `recv_msg`, or main's answer, true for AUTH__REP__OK.
pub data BanReply : Type 0 where
  no_memory send_error recv_error : BanReply
  answered : Bool → BanReply

-- What a handler does besides changing the entry.
pub data Event : Type 0 where
  reply : Reply → Event
  ban_ip : Bytes → ℕ → Event
  session_stats : AuthInfo → Stats → Event
  close_session : AuthInfo → Stats → Event
  auth_deinit : Event

-- The world during one request: the clock, what `talloc`, `gnutls_rnd` (its n-th call) and
-- `hash_any` give, and the results of the exchanges.
pub record Env : Type 0 where
  pub now : ℕ
  pub mem : Bool
  pub rnd : ℕ → Option Bytes
  pub nonce : Option ℕ
  pub hash_any : Bytes → ℕ
  pub base64 : Bytes → Bytes
  pub encrypt_cookie : Cookie → Option Bytes
  pub ban : Bytes → ℕ → BanReply
  pub send : Reply → ℤ

-- What a handler returns: the entry, the return code and the events in order.
pub record Step (Ctx : Type 0) : Type 0 where
  pub entry : ClientEntry Ctx
  pub ret : ℤ
  pub events : List Event

-- The requests.
pub record AuthInit : Type 0 where
  pub auth_type : ℕ
  pub ip : Bytes
  pub hostname : Option Bytes
  pub user_name : Option Bytes
  pub group_name : Option Bytes
  pub tls_auth_ok : Bool
  pub cert_user_name : Option Bytes
  pub cert_group_names : List Bytes

pub record AuthCont : Type 0 where
  pub sid : Bytes
  pub password : Option Bytes

pub record AuthSession : Type 0 where
  pub sid : Bytes
  pub cookie : Option Bytes
  pub uptime : Option ℕ
  pub bytes_in : Option ℕ
  pub bytes_out : Option ℕ

pub record CliStats : Type 0 where
  pub sid : Bytes
  pub bytes_in : ℕ
  pub bytes_out : ℕ
  pub uptime : ℕ
  pub remote_ip : Option Bytes
  pub ipv4 : Option Bytes
  pub ipv6 : Option Bytes
