-- ===== src/Http/Types.antt =====
-- worker.h: the request, and the fields of the worker that its headers set.
use my_vps_config.Base.{ℕ, Bool, Option, List, Bytes}
use my_vps_config.Str.{Str}

-- HEADER_COOKIE to HEADER_AUTHORIZATION
pub data HeaderId : Type 0 where
  cookie master_secret hostname cstp_base_mtu cstp_atype device_type dtls_ciphersuite : HeaderId
  connection full_ipv6 user_agent cstp_encoding dtls_encoding : HeaderId
  support_spnego authorization : HeaderId

-- HTTP_HEADER_INIT to HTTP_HEADER_VALUE_RECV
pub data HeaderState : Type 0 where
  init recv value_recv : HeaderState

-- S_AUTH_INACTIVE to S_AUTH_COMPLETE
pub data AuthState : Type 0 where
  auth_inactive auth_init auth_req auth_cookie auth_complete : AuthState

-- AGENT_UNKNOWN to AGENT_OPENCONNECT
pub data Agent : Type 0 where
  unknown openconnect_v3 openconnect : Agent

-- An element of `ciphersuites`: `oc_name` and `server_prio`.
pub record Suite : Type 0 where
  pub oc_name : Bytes
  pub server_prio : ℕ

-- An element of `comp_methods`: `name` and `server_prio`.
pub record CompMethod : Type 0 where
  pub name : Bytes
  pub server_prio : ℕ

-- `http_req_st`. An array that holds a string is the string; `next_header` is `none` for 0.
pub record HttpReq : Type 0 where
  pub url : Bytes
  pub header : Str
  pub value : Str
  pub header_state : HeaderState
  pub hostname : Bytes
  pub user_agent : Bytes
  pub user_agent_type : Agent
  pub next_header : Option HeaderId
  pub is_mobile : Bool
  pub spnego_set : Bool
  pub master_secret : Bytes
  pub master_secret_set : Bool
  pub body : Option Bytes
  pub body_length : ℕ
  pub selected_ciphersuite : Option Suite
  pub headers_complete : Bool
  pub message_complete : Bool
  pub base_mtu : ℕ
  pub no_ipv4 : Bool
  pub no_ipv6 : Bool
  pub authorization : Option Bytes

-- `auth_struct_st`
pub record AuthStruct : Type 0 where
  pub enabled : Bool
  pub kind : ℕ

-- The fields of `worker_st`. `selected_auth` is an index of `perm_config->auth`.
pub record HttpWorker : Type 0 where
  pub req : HttpReq
  pub selected_auth : Option ℕ
  pub auth : List AuthStruct
  pub enable_compression : Bool
  pub dtls_selected_comp : Option CompMethod
  pub cstp_selected_comp : Option CompMethod
  pub full_ipv6 : Bool
  pub sid : Bytes
  pub sid_set : Bool
  pub cookie : Option Bytes
  pub cookie_size : ℕ
  pub cookie_set : Bool
  pub auth_state : AuthState

-- What the functions call: whether `talloc_size` gives memory for the value and for the cookie;
-- `gnutls_hex2bin`, what it leaves of the area; `base64_decode` for the size of the area, its
-- result and the bytes it stored; `atoi`; and whether a suite is the one of the TLS session.
pub record HttpEnv : Type 0 where
  pub mem_value : Bool
  pub mem_cookie : Bool
  pub hex2bin : Bytes → Bytes → Bytes
  pub base64_decode : Bytes → ℕ → Bool × Bytes
  pub atoi : Bytes → ℕ
  pub same_as_tls : Suite → Bool
