-- ===== src/Http/Value.antt =====
-- worker-http.c: `header_value_check`, what a header sets; and `ws_switch_auth_to` of
-- worker-auth.c.
use my_vps_config.Base.{
  ℕ, zero, suc, ◌+◌, ltb, ◌==◌, Bool, true, false, not, ◌&&◌, ◌||◌, if◌then◌else◌, Option, none,
  some, List, [], ◌∷◌, ◌++◌, Bytes, length, take, drop, bit_and,
}
use my_vps_config.Text.{trim_start, trim_end, tokens, starts_with, has_part, c_string}
use my_vps_config.Str.Content.{text}
use my_vps_config.Http.Types.{
  HeaderId, cookie, master_secret, hostname, cstp_base_mtu, cstp_atype, device_type,
  dtls_ciphersuite, connection, full_ipv6, user_agent, cstp_encoding, dtls_encoding, support_spnego,
  authorization, Agent, openconnect_v3, openconnect, HttpReq, AuthStruct, HttpWorker, HttpEnv,
  auth_cookie,
}
use my_vps_config.Http.Select.{
  codes, ciphersuites, comp_methods, lower, select_suite, select_method,
}

-- AUTH_TYPE_USERNAME_PASS and AUTH_TYPE_GSSAPI
abbrev pub username_pass : ℕ
username_pass = 1

abbrev pub gssapi : ℕ
gssapi = 64

abbrev pub has_type : ℕ → AuthStruct → Bool
has_type auth a = not (bit_and a.kind auth == 0)

-- `&perm_config->auth[i]`
unfoldable pub auth_at : List AuthStruct → ℕ → Option AuthStruct
auth_at [] i = none
auth_at (a ∷ as') zero = some a
auth_at (a ∷ as') (suc i) = auth_at as' i

-- The index of the first enabled method of a type, counted from `i`.
unfoldable pub first_auth : List AuthStruct → ℕ → ℕ → Option ℕ
first_auth [] auth i = none
first_auth (a ∷ as') auth i =
    let later = first_auth as' auth (i + 1) in
    if a.enabled && has_type auth a then some i else later

-- Whether there is such a method, and the worker.
unfoldable pub ws_switch_auth_to : HttpWorker → ℕ → HttpWorker × Bool
unfolding auth_at first_auth
ws_switch_auth_to ws auth =
    let current : Bool = elim ws.selected_auth [
      | none ↦ false
      | some i ↦ elim (auth_at ws.auth i) [ none ↦ false | some a ↦ a.enabled && has_type auth a ]
    ] in
    if current then (ws, true) else elim (first_auth ws.auth auth 0) [
      | none ↦ (ws, false)
      | some i ↦ (record ws { selected_auth = some i }, true)
    ]

abbrev pub set_req : HttpWorker → HttpReq → HttpWorker
set_req ws r = record ws { req = r }

-- `strncasecmp(s, pattern, strlen(pattern)) == 0`
unfoldable pub starts_with_case : Bytes → Bytes → Bool
unfolding lower
starts_with_case [] s = true
starts_with_case (p ∷ ps) [] = false
starts_with_case (p ∷ ps) (c ∷ s) = lower p == lower c && starts_with_case ps s

unfoldable pub agent_of : Agent → Bytes → Agent
unfolding starts_with_case starts_with
agent_of old s =
    if starts_with_case (codes "Open Any") s
    then (if starts_with (codes "Open AnyConnect VPN Agent v3") s
        then openconnect_v3
        else openconnect)
    else old

-- White space at the end, but not the first byte.
unfoldable pub trim_value : Bytes → Bytes
unfolding trim_end
trim_value [] = []
trim_value (c ∷ s) = c ∷ trim_end s

-- The stores into an area that keeps what is behind them.
abbrev pub store_front : Bytes → Bytes → Bytes
store_front src area = src ++ drop (length src) area

-- The token `webvpn=`, from the equals sign on; true where the function returns.
unfoldable pub webvpn_cookie : HttpEnv → Bytes → HttpWorker → HttpWorker × Bool
unfolding trim_value
webvpn_cookie env value ws =
    let v = trim_value value in
    let decoded = env.base64_decode v (length v) in
    if not env.mem_cookie
    then (record ws { cookie = none }, true)
    else if decoded.0
    then (
      record ws {
        cookie = some decoded.1;
        cookie_size = length decoded.1;
        auth_state = auth_cookie;
        cookie_set = true;
      },
      false,
    )
    else (record ws { cookie = some decoded.1; cookie_set = false }, false)

-- The token `webvpncontext=`, from the equals sign on.
unfoldable pub webvpn_context : HttpEnv → Bytes → HttpWorker → HttpWorker
unfolding trim_value
webvpn_context env value ws =
    let decoded = env.base64_decode (trim_value value) 16 in
    record ws { sid = store_front decoded.1 ws.sid; sid_set = decoded.0 && length decoded.1 == 16 }

unfoldable pub cookie_token : HttpEnv → Bytes → HttpWorker → HttpWorker × Bool
unfolding webvpn_cookie webvpn_context trim_start starts_with
cookie_token env token ws =
    let p = trim_start token in
    if starts_with (codes "webvpn=") p
    then webvpn_cookie env (drop 7 p) ws
    else if starts_with (codes "webvpncontext=") p
    then (webvpn_context env (drop 14 p) ws, false)
    else (ws, false)

-- The loop over the tokens.
unfoldable pub cookie_tokens : HttpEnv → List Bytes → HttpWorker → HttpWorker
unfolding cookie_token
cookie_tokens env [] ws = ws
cookie_tokens env (t ∷ ts) ws =
    let r = cookie_token env t ws in
    let later = cookie_tokens env ts r.0 in if r.1 then r.0 else later

-- The switch over the headers, for the value that was copied.
unfoldable pub header_value : HttpEnv → HeaderId → Bytes → HttpWorker → HttpWorker
unfolding ws_switch_auth_to agent_of select_suite select_method cookie_tokens tokens has_part
    ciphersuites comp_methods
header_value env master_secret v ws =
    if ltb (length v) 96
    then set_req ws (record (ws.req) { master_secret_set = false })
    else set_req ws (record (ws.req) {
      master_secret = env.hex2bin (take 96 v) ws.req.master_secret;
      master_secret_set = true;
    })
header_value env hostname v ws =
    set_req ws (record (ws.req) { hostname = if ltb 64 (length v + 1) then [] else v })
header_value env device_type v ws = set_req ws (record (ws.req) { is_mobile = true })
header_value env support_spnego v ws =
    let switched = (ws_switch_auth_to ws gssapi).0 in
    set_req switched (record (switched.req) { spnego_set = true })
header_value env authorization v ws = set_req ws (record (ws.req) { authorization = some v })
header_value env user_agent v ws =
    let agent = if ltb 48 (length v + 1) then take 47 v else v in
    set_req ws (record (ws.req) {
      user_agent = agent;
      user_agent_type = agent_of ws.req.user_agent_type agent;
    })
header_value env dtls_ciphersuite v ws = set_req ws (record (ws.req) {
  selected_ciphersuite = select_suite env.same_as_tls ciphersuites (tokens b':' v) none;
})
header_value env dtls_encoding v ws =
    if ws.enable_compression
    then record ws { dtls_selected_comp = select_method comp_methods (tokens b',' v) none }
    else ws
header_value env cstp_encoding v ws =
    if ws.enable_compression
    then record ws { cstp_selected_comp = select_method comp_methods (tokens b',' v) none }
    else ws
header_value env cstp_base_mtu v ws =
    set_req ws (record (ws.req) { base_mtu = env.atoi (c_string v) })
header_value env cstp_atype v ws = set_req ws (record (ws.req) {
  no_ipv4 = ws.req.no_ipv4 || not (has_part (codes "IPv4") v);
  no_ipv6 = ws.req.no_ipv6 || not (has_part (codes "IPv6") v);
})
header_value env full_ipv6 v ws = record ws {
  full_ipv6 = ws.full_ipv6 || has_part (codes "true") v;
}
header_value env cookie v ws = cookie_tokens env (tokens b';' v) ws
header_value env connection v ws = ws

unfoldable pub header_value_check : HttpEnv → HttpWorker → HttpWorker
unfolding header_value
header_value_check env ws =
    let v = text ws.req.value in
    if ws.req.value.length == 0 || not env.mem_value
    then ws
    else elim ws.req.next_header [ none ↦ ws | some id ↦ header_value env id v ws ]
