-- ===== src/Http/PostAuth.antt =====
-- worker-auth.c: `post_auth_handler`, from the form to the page.
use my_vps_config.Base.{
  ltb, leb, Bool, true, false, not, ◌&&◌, if◌then◌else◌, Option, none, some, [], Bytes, bytes_eq,
  is_empty, length, strlcpy, drop, bit_or,
}
use my_vps_config.Base.Int.{is_neg, is_auth_continue}
use my_vps_config.Text.{Outcome, done, fault, c_string}
use my_vps_config.SecMod.Types.{AuthInit}
use my_vps_config.Password.Plain.{max_username_size}
use my_vps_config.Http.Types.{
  AuthStruct, AuthState, auth_inactive, auth_init, auth_req, auth_cookie,
}
use my_vps_config.Http.Select.{codes}
use my_vps_config.Http.Value.{username_pass, gssapi, has_type, ws_switch_auth_to}
use my_vps_config.Http.Callbacks.{selected}
use my_vps_config.Http.Form.{parse_reply}
use my_vps_config.Http.Post.{
  certificate, PostWorker, PostEnv, Reason, auth_failed, internal_error, cert_read_error,
  no_cert_error, no_password_error, Page, login_page, negotiate, cookie_page, unauthorized,
  ToModule, init_msg, cont_msg, Posted, set_state, ws_disable_auth, recv_auth_reply,
}

unfoldable pub form_field : PostEnv → PostWorker → Bytes → Option Bytes → Option Bytes
unfolding parse_reply
form_field env ws field xml =
    let req = ws.http.req in
    parse_reply env.scan_hex (env.mem_field field) req.body req.body_length field xml

-- The worker, whether the group is the default one, and the group's name for the request.
unfoldable pub group_request : PostEnv → PostWorker → PostWorker × Bool × Option Bytes
unfolding form_field
group_request env ws =
    let xml = some (codes "group-select") in
    let second = form_field env ws (codes "group_list") xml in
    let found : Option Bytes = elim (form_field env ws (codes "group%5flist") xml) [
      | none ↦ second
      | some g ↦ some g
    ] in
    elim found [
      | none ↦ (ws, false, none)
      | some g ↦
          let name = strlcpy max_username_size (c_string g) in
          let default : Bool = elim env.default_group [
            | none ↦ false
            | some d ↦ bytes_eq (c_string g) d
          ] in
          if default then (ws, true, none) else (record ws { groupname = name }, false, some name)
    ]

-- The request goes on, or the client gets a page.
pub data Stage : Type 0 where
  proceed : PostWorker → AuthInit → Stage
  stop : PostWorker → Page → Stage

abbrev pub and_then : Stage → (PostWorker → AuthInit → Stage) → Stage
and_then (proceed ws ireq) f = f ws ireq
and_then (stop ws answer) f = stop ws answer

unfoldable pub gssapi_request : AuthStruct → PostWorker → AuthInit → Stage
gssapi_request a ws ireq =
    if has_type gssapi a
    then elim ws.http.req.authorization [
      | none ↦ stop ws (negotiate none)
      | some v ↦
          if is_empty v
          then stop ws (negotiate none)
          else if ltb 10 (length v)
          then proceed ws (record ireq {
            user_name = some (c_string (drop 10 v));
            auth_type = bit_or ireq.auth_type gssapi;
          })
          else stop ws (unauthorized auth_failed)
    ]
    else proceed ws ireq

unfoldable pub name_request : PostEnv → AuthStruct → PostWorker → AuthInit → Stage
unfolding form_field
name_request env a ws ireq =
    if has_type username_pass a
    then elim (form_field env ws (codes "username") none) [
      | none ↦ stop ws (login_page none)
      | some u ↦
          let name = strlcpy max_username_size (c_string u) in
          proceed (record ws { username = name })
            (record ireq { user_name = some name; auth_type = bit_or ireq.auth_type username_pass })
    ]
    else proceed ws ireq

unfoldable pub cert_request : PostEnv → Bool → AuthStruct → PostWorker → AuthInit → Stage
cert_request env default a ws ireq =
    if not (has_type certificate a)
    then proceed ws ireq
    else if not ws.cert_auth_ok
    then stop ws (unauthorized no_cert_error)
    else elim env.cert_info [
      | none ↦ stop ws (unauthorized cert_read_error)
      | some (name, groups) ↦
          let read = record ws { cert_username = name; cert_groups = groups } in
          if not default && (ltb 0 (length groups) && is_empty ws.groupname)
          then stop read (login_page (some (codes "Please select your group")))
          else proceed read (record ireq {
            tls_auth_ok = ws.cert_auth_ok;
            cert_user_name = some name;
            cert_group_names = groups;
            auth_type = bit_or ireq.auth_type certificate;
          })
    ]

-- SEC_AUTH_INIT_MSG__INIT, with the fields that are always set.
unfoldable pub empty_init : PostWorker → Option Bytes → AuthInit
empty_init ws group = record {
  auth_type = 0;
  ip = ws.remote_ip;
  hostname = some ws.http.req.hostname;
  user_name = none;
  group_name = group;
  tls_auth_ok = false;
  cert_user_name = none;
  cert_group_names = [];
}

unfoldable pub init_request : PostEnv → AuthStruct → PostWorker → Stage
unfolding group_request gssapi_request name_request cert_request empty_init
init_request env a ws =
    let (grouped, default, group) = group_request env ws in
    and_then (gssapi_request a grouped (empty_init grouped group)) (λ ws ireq.
      and_then (name_request env a ws ireq) (λ ws ireq. cert_request env default a ws ireq))

-- The password of a request that goes on, or the page.
pub data Asked : Type 0 where
  supplied : Bytes → Asked
  missing : Reason → Asked

unfoldable pub cont_request : PostEnv → AuthStruct → PostWorker → Asked
unfolding form_field
cont_request env a ws =
    if has_type gssapi a
    then elim ws.http.req.authorization [
      | none ↦ missing auth_failed
      | some v ↦ if leb (length v) 10 then missing auth_failed else supplied (c_string (drop 10 v))
    ]
    else if has_type username_pass a
    then elim (form_field env ws (codes "password") none) [
      | none ↦ missing no_password_error
      | some p ↦ supplied (c_string p)
    ]
    else missing auth_failed

-- A failure of GSSAPI falls back to a user name and a password.
unfoldable pub give_up : AuthStruct → PostWorker → PostWorker × Page
unfolding ws_disable_auth ws_switch_auth_to
give_up a ws =
    if has_type gssapi a
    then (let (switched, found) =
          ws_switch_auth_to (ws_disable_auth ws.http gssapi) username_pass in
        if found
        then (
          record ws { http = record switched { auth_state = auth_inactive; sid_set = false } },
          login_page none,
        )
        else (record ws { http = switched }, unauthorized auth_failed))
    else (ws, unauthorized auth_failed)

-- From the reply of the security module on.
unfoldable pub finish_post : PostEnv → AuthStruct → PostWorker → PostWorker × Page
unfolding recv_auth_reply give_up
finish_post env a ws =
    let (received, ret, text) = recv_auth_reply env ws in
    if is_auth_continue ret
    then (
      set_state auth_req received,
      if has_type gssapi a then negotiate text else login_page text,
    )
    else if is_neg ret
    then give_up a received
    else (set_state auth_cookie received, cookie_page text)

-- `connect_to_secmod` to the reply, for a message; `state` is the next state.
unfoldable pub exchange : PostEnv → AuthStruct → PostWorker → AuthState → ToModule → Posted
unfolding finish_post
exchange env a ws state m =
    if not (env.connects && env.sends)
    then record { worker = ws; sent = none; answer = unauthorized internal_error }
    else let (worker, answer) = finish_post env a (set_state state ws) in
      record { worker = worker; sent = some m; answer = answer }

unfoldable pub post_init : PostEnv → AuthStruct → PostWorker → Posted
unfolding init_request exchange
post_init env a ws = elim (init_request env a ws) [
  | proceed ws' ireq ↦ exchange env a ws' auth_init (init_msg ireq)
  | stop ws' answer ↦ record { worker = ws'; sent = none; answer = answer }
]

unfoldable pub post_cont : PostEnv → AuthStruct → PostWorker → Posted
unfolding cont_request exchange
post_cont env a ws = elim (cont_request env a ws) [
  | supplied password ↦ exchange env a ws auth_req (
      cont_msg
        (record { sid = if ws.http.sid_set then ws.http.sid else []; password = some password }))
  | missing reason ↦ record { worker = ws; sent = none; answer = unauthorized reason }
]

-- A worker with a SID goes on where the client left; the state is the worker's.
unfoldable pub rejoin : AuthState → PostWorker → PostWorker
rejoin auth_inactive ws = if ws.http.sid_set then set_state auth_init ws else ws
rejoin _ ws = ws

-- The branches of the state; `fault` where `selected_auth` is followed although it is NULL.
unfoldable pub post_at : PostEnv → AuthState → PostWorker → Outcome Posted
unfolding selected post_init post_cont
post_at env auth_inactive ws = elim (selected ws.http) [
  | none ↦ fault
  | some a ↦ done (post_init env a ws)
]
post_at env auth_init ws = elim (selected ws.http) [
  | none ↦ fault
  | some a ↦ done (post_cont env a ws)
]
post_at env auth_req ws = elim (selected ws.http) [
  | none ↦ fault
  | some a ↦ done (post_cont env a ws)
]
post_at env _ ws = done (record { worker = ws; sent = none; answer = unauthorized auth_failed })

unfoldable pub post_auth_handler : PostEnv → PostWorker → Outcome Posted
unfolding rejoin post_at
post_auth_handler env ws =
    let begun = rejoin ws.http.auth_state ws in post_at env begun.http.auth_state begun
