-- ===== src/Http/Callbacks.antt =====
-- worker-http.c: the functions that the HTTP parser calls, and the handlers of the URLs.
use my_vps_config.Base.{
  ℕ, ◌+◌, ◌%◌, ◌^◌, leb, Bool, true, false, not, ◌&&◌, if◌then◌else◌, Option, none, some, List, [],
  ◌∷◌, ◌++◌, Bytes, bytes_eq, length, take,
}
use my_vps_config.Base.Int.{ℤ, pos, success, is_neg}
use my_vps_config.Text.{Outcome, done, fault}
use my_vps_config.Str.{Str, str_init, str_append_data}
use my_vps_config.Str
use my_vps_config.Str.Content.{text}
use my_vps_config.Http.Types.{
  HeaderId, cookie, master_secret, hostname, cstp_base_mtu, cstp_atype, device_type,
  dtls_ciphersuite, connection, full_ipv6, user_agent, cstp_encoding, dtls_encoding, support_spnego,
  authorization, HeaderState, init, recv, value_recv, auth_inactive, HttpReq, HttpWorker, HttpEnv,
  AuthState, AuthStruct,
}
use my_vps_config.Http.Select.{codes}
use my_vps_config.Http.Value.{
  set_req, header_value_check, ws_switch_auth_to, auth_at, has_type, gssapi, username_pass,
}

-- `str_reset`
abbrev pub str_reset : Str → Str
str_reset s = record s { offset = 0; length = 0 }

-- What a function returns to the parser, with the worker as it leaves it.
abbrev pub Callback : Type 0
Callback = Outcome (HttpWorker × ℤ)

-- The first keyword that is the header's name.
unfoldable pub find_word : List (Bytes × HeaderId) → Bytes → Option HeaderId
find_word [] name = none
find_word ((w, id) ∷ ws) name = if bytes_eq w name then some id else find_word ws name

-- `in_word_set`, by the keywords of http-heads.gperf.
unfoldable pub in_word_set : Bytes → Option HeaderId
unfolding find_word
in_word_set = find_word (
    (codes "Cookie", cookie)
    ∷ (codes "User-Agent", user_agent)
    ∷ (codes "X-CSTP-Accept-Encoding", cstp_encoding)
    ∷ (codes "X-DTLS-Accept-Encoding", dtls_encoding)
    ∷ (codes "Connection", connection)
    ∷ (codes "X-DTLS-Master-Secret", master_secret)
    ∷ (codes "X-DTLS-CipherSuite", dtls_ciphersuite)
    ∷ (codes "X-CSTP-Base-MTU", cstp_base_mtu)
    ∷ (codes "X-CSTP-Address-Type", cstp_atype)
    ∷ (codes "X-CSTP-Hostname", hostname)
    ∷ (codes "X-CSTP-Full-IPv6-Capability", full_ipv6)
    ∷ (codes "X-AnyConnect-Identifier-DeviceType", device_type)
    ∷ (codes "X-Support-HTTP-Auth", support_spnego)
    ∷ (codes "Authorization", authorization)
    ∷ [])

unfoldable pub header_check : HttpReq → HttpReq
unfolding in_word_set
header_check r = record r { next_header = in_word_set (text r.header) }

unfoldable pub http_url_cb : Bytes → HttpWorker → HttpWorker × ℤ
http_url_cb at ws =
    if leb 256 (length at)
    then (set_req ws (record (ws.req) { url = [] }), pos 1)
    else (set_req ws (record (ws.req) { url = at }), success)

unfoldable pub fresh_field : HttpWorker → HttpWorker
fresh_field ws =
    set_req ws (record (ws.req) { header_state = recv; header = str_reset ws.req.header })

-- Before the bytes of a name are appended, a value that came before is looked at.
unfoldable pub field_from : HttpEnv → HeaderState → HttpWorker → HttpWorker
unfolding header_value_check fresh_field
field_from env recv ws = ws
field_from env init ws = fresh_field ws
field_from env value_recv ws = fresh_field (header_value_check env ws)

unfoldable pub begin_field : HttpEnv → HttpWorker → HttpWorker
unfolding field_from
begin_field env ws = field_from env ws.req.header_state ws

unfoldable pub fresh_value : HttpReq → HttpReq
unfolding header_check
fresh_value r =
    let named = header_check r in
    record named { header_state = value_recv; value = str_reset named.value }

-- Before the bytes of a value are appended, the name is looked up.
unfoldable pub value_from : HeaderState → HttpReq → HttpReq
unfolding fresh_value
value_from value_recv r = r
value_from init r = fresh_value r
value_from recv r = fresh_value r

unfoldable pub begin_value : HttpReq → HttpReq
unfolding value_from
begin_value r = value_from r.header_state r

-- What is returned to the parser after an append.
unfoldable pub store_header : HttpWorker → Str.Result → Callback
store_header ws Str.fault = fault
store_header ws (Str.done s ret) =
    done (set_req ws (record (ws.req) { header = s }), if is_neg ret then ret else success)

unfoldable pub store_value : HttpWorker → Str.Result → Callback
store_value ws Str.fault = fault
store_value ws (Str.done s ret) =
    done (set_req ws (record (ws.req) { value = s }), if is_neg ret then ret else success)

module _ (realloc : Option Bytes → ℕ → Option Bytes) where
  unfoldable pub http_header_field_cb : HttpEnv → Bytes → HttpWorker → Callback
  unfolding begin_field str_append_data store_header
  http_header_field_cb env at ws =
      let begun = begin_field env ws in
      store_header begun (str_append_data realloc begun.req.header at)

  unfoldable pub http_header_value_cb : Bytes → HttpWorker → Callback
  unfolding begin_value str_append_data store_value
  http_header_value_cb at ws =
      let begun = set_req ws (begin_value ws.req) in
      store_value begun (str_append_data realloc begun.req.value at)

abbrev pub is_inactive : AuthState → Bool
is_inactive auth_inactive = true
is_inactive _ = false

-- `*ws->selected_auth`; `none` is a null pointer.
unfoldable pub selected : HttpWorker → Option AuthStruct
unfolding auth_at
selected ws = elim ws.selected_auth [ none ↦ none | some i ↦ auth_at ws.auth i ]

-- A client that leaves GSSAPI out, after it was asked for it, is asked for a password.
unfoldable pub fall_back : AuthStruct → HttpWorker → HttpWorker
unfolding ws_switch_auth_to
fall_back a ws =
    if has_type gssapi a && is_inactive ws.auth_state && not ws.req.spnego_set
    then (ws_switch_auth_to ws username_pass).0
    else ws

-- The last value is looked at.
unfoldable pub http_header_complete_cb : HttpEnv → HttpWorker → Callback
unfolding header_value_check selected fall_back
http_header_complete_cb env ws =
    let checked = header_value_check env ws in
    elim (selected checked) [
      | none ↦ fault
      | some a ↦
          let switched = fall_back a checked in
          done (set_req switched (record (switched.req) { headers_complete = true }), success)
    ]

unfoldable pub http_message_complete_cb : HttpWorker → HttpWorker × ℤ
http_message_complete_cb ws = (set_req ws (record (ws.req) { message_complete = true }), success)

abbrev pub area_of : Option Bytes → Bytes
area_of none = []
area_of (some a) = a

-- `mem` says whether `talloc_realloc_size` succeeds. The length is an `unsigned`.
unfoldable pub http_body_cb : Bool → Bytes → HttpWorker → HttpWorker × ℤ
http_body_cb mem at ws =
    if mem
    then (
      set_req ws (record (ws.req) {
        body = some (take ws.req.body_length (area_of ws.req.body) ++ (at ++ 0 ∷ []));
        body_length = (ws.req.body_length + length at) % 2 ^ 32;
      }),
      success,
    )
    else (ws, pos 1)

unfoldable pub http_req_init : HttpWorker → HttpWorker
unfolding str_init
http_req_init ws = set_req ws (record (ws.req) { header = str_init; value = str_init })

unfoldable pub http_req_reset : HttpWorker → HttpWorker
http_req_reset ws = set_req ws (record (ws.req) {
  headers_complete = false;
  message_complete = false;
  body_length = 0;
  spnego_set = false;
  url = [];
  header_state = init;
  header = str_reset ws.req.header;
  value = str_reset ws.req.value;
})

-- `str_clear`
abbrev pub str_clear : Str → Str
str_clear s = elim s.area [
  | none ↦ s
  | some a ↦ record { area = none; offset = 0; max_length = 0; length = 0 }
]

unfoldable pub http_req_deinit : HttpWorker → HttpWorker
unfolding http_req_reset
http_req_deinit ws =
    let r = http_req_reset ws in
    set_req r (record (r.req) {
      header = str_clear r.req.header;
      value = str_clear r.req.value;
      body = none;
    })
