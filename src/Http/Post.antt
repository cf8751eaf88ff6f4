-- ===== src/Http/Post.antt =====
-- worker-auth.c: `post_auth_handler`, the authentication of a client by the forms that it posts.
-- The worker asks the security module, whose reply is a parameter, and answers the client with a
-- page. The text of the pages, and what their sending returns, are left out.
use my_vps_config.Base.{
  ℕ, ◌==◌, Bool, true, false, not, ◌||◌, if◌then◌else◌, Option, none, some, List, Bytes, is_empty,
  length, strlcpy, map,
}
use my_vps_config.Base.Int.{ℤ, negsuc, success, err_auth_continue}
use my_vps_config.SecMod.Types.{AuthInit, AuthCont}
use my_vps_config.Password.Plain.{max_username_size, err_auth_fail}
use my_vps_config.Http.Types.{HttpWorker, AuthState}
use my_vps_config.Http.Value.{has_type}

-- AUTH_TYPE_CERTIFICATE
abbrev pub certificate : ℕ
certificate = 8

-- Further fields of `worker_st`.
pub record PostWorker : Type 0 where
  pub http : HttpWorker
  pub username : Bytes
  pub groupname : Bytes
  pub session_id : Bytes
  pub cert_auth_ok : Bool
  pub cert_username : Bytes
  pub cert_groups : List Bytes
  pub remote_ip : Bytes

-- What `recv_msg` gives for a SecAuthReplyMsg: an error, AUTH__REP__MSG with its text and SID,
-- AUTH__REP__OK with the user name, the SID, the cookie, the DTLS session ID and a text, or any
-- other reply.
pub data ModuleReply : Type 0 where
  reply_lost : ℕ → ModuleReply
  reply_msg : Option Bytes → Option Bytes → ModuleReply
  reply_ok : Option Bytes → Option Bytes → Option Bytes → Bytes → Option Bytes → ModuleReply
  reply_failed : ModuleReply

-- What the functions call: `sscanf`, memory for a field of the form, for the cookie and for the
-- text; what `get_cert_info` reads with GnuTLS; `connect_to_secmod`, `send_msg_to_secmod` and the
-- reply; and `default_select_group` of the configuration.
pub record PostEnv : Type 0 where
  pub scan_hex : Bytes → Option ℕ
  pub mem_field : Bytes → Bool
  pub mem_cookie : Bool
  pub mem_text : Bool
  pub cert_info : Option (Bytes × List Bytes)
  pub connects : Bool
  pub sends : Bool
  pub reply : ModuleReply
  pub default_group : Option Bytes

-- `reason`
pub data Reason : Type 0 where
  auth_failed internal_error cert_read_error no_cert_error no_password_error : Reason

-- The page that the client gets: the form with a text, `WWW-Authenticate: Negotiate`, the cookie, or
-- 401 Unauthorized, after which the worker exits.
pub data Page : Type 0 where
  login_page : Option Bytes → Page
  negotiate : Option Bytes → Page
  cookie_page : Option Bytes → Page
  unauthorized : Reason → Page

-- SM_CMD_AUTH_INIT and SM_CMD_AUTH_CONT; the address in the second is left out.
pub data ToModule : Type 0 where
  init_msg : AuthInit → ToModule
  cont_msg : AuthCont → ToModule

pub record Posted : Type 0 where
  pub worker : PostWorker
  pub sent : Option ToModule
  pub answer : Page

abbrev pub set_state : AuthState → PostWorker → PostWorker
set_state state ws = record ws { http = record (ws.http) { auth_state = state } }

unfoldable pub ws_disable_auth : HttpWorker → ℕ → HttpWorker
ws_disable_auth ws auth = record ws {
  auth = map (λ a. if has_type auth a then record a { enabled = false } else a) ws.auth;
}

-- A SID of 16 bytes replaces the worker's.
unfoldable pub take_sid : Option Bytes → PostWorker → PostWorker
take_sid none ws = ws
take_sid (some s) ws =
    if length s == 16 then record ws { http = record (ws.http) { sid = s; sid_set = true } } else ws

-- `talloc_memdup` of the cookie; NULL stays where it fails.
unfoldable pub keep_cookie : Bool → Bytes → Bytes → PostWorker → PostWorker
keep_cookie mem cookie session_id ws = record ws {
  http =
      if mem
      then record (ws.http) { cookie = some cookie; cookie_size = length cookie; cookie_set = true }
      else record (ws.http) { cookie = none };
  session_id = session_id;
}

abbrev pub copy_text : Bool → Option Bytes → Option Bytes
copy_text mem text = if mem then text else none

-- The worker, the result and `*txt`.
unfoldable pub recv_auth_reply : PostEnv → PostWorker → PostWorker × ℤ × Option Bytes
unfolding take_sid keep_cookie
recv_auth_reply env ws = elim env.reply [
  | reply_lost n ↦ (ws, negsuc n, none)
  | reply_msg none sid ↦ (ws, err_auth_fail, none)
  | reply_msg (some text) sid ↦
      (take_sid sid ws, err_auth_continue, copy_text env.mem_text (some text))
  | reply_ok none sid cookie session_id text ↦ (ws, err_auth_fail, none)
  | reply_ok (some user) sid none session_id text ↦
      (take_sid sid (record ws { username = strlcpy max_username_size user }), err_auth_fail, none)
  | reply_ok (some user) sid (some cookie) session_id text ↦
      let named = take_sid sid (record ws { username = strlcpy max_username_size user }) in
      if is_empty cookie || not (length session_id == 32) then (named, err_auth_fail, none) else (
        keep_cookie env.mem_cookie cookie session_id named,
        success,
        copy_text env.mem_text text,
      )
  | reply_failed ↦ (ws, err_auth_fail, none)
]
