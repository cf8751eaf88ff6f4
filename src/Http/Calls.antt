-- ===== src/Http/Calls.antt =====
-- worker-http.c: any sequence of the parser's calls.
use my_vps_config.Base.{
  ℕ, ◌≡◌, refl, Bool, true, false, not, ◌&&◌, leb, if◌then◌else◌, Option, List, [], ◌∷◌, Bytes,
  length, arith, Option-cases, inl, inr,
}
use my_vps_config.Base.Int.{ℤ, pos, success}
use my_vps_config.Text.{Outcome, Outcome-cases, done, fault}
use my_vps_config.Str
use mathlib.Core.Path.{subst}
use my_vps_config.Str.{str_append_data}
use my_vps_config.Http.Types.{AuthStruct, HttpWorker, HttpEnv, HeaderState, init, recv, value_recv}
use my_vps_config.Http.Value.{
  header_value_check, ws_switch_auth_to, set_req, gssapi, username_pass, has_type,
}
use my_vps_config.Http.Callbacks.{
  http_url_cb, begin_field, store_header, store_value, begin_value, selected, fall_back,
  is_inactive, field_from, value_from, http_header_field_cb, http_header_value_cb,
  http_header_complete_cb, http_message_complete_cb, http_body_cb, http_req_reset,
}
use my_vps_config.Http.Sound.{
  IsSound, IsSupplied, IsSound-set_req, IsSound-if, header_value_check-IsSound,
  ws_switch_auth_to-IsSound,
}

-- The calls of the parser, and the start of the next request.
pub data Call : Type 0 where
  url field value body : Bytes → Call
  headers_complete message_complete reset : Call

module _ (realloc : Option Bytes → ℕ → Option Bytes) (env : HttpEnv) where
  -- One call, whatever it returns; its code is for the parser.
  unfoldable pub serve_call : Call → HttpWorker → Outcome (HttpWorker × ℤ)
  serve_call (url at) ws = done (http_url_cb at ws)
  serve_call (field at) ws = http_header_field_cb realloc env at ws
  serve_call (value at) ws = http_header_value_cb realloc at ws
  serve_call (body at) ws = done (http_body_cb true at ws)
  serve_call headers_complete ws = http_header_complete_cb env ws
  serve_call message_complete ws = done (http_message_complete_cb ws)
  serve_call reset ws = done (http_req_reset ws, success)

  -- The calls in order, up to a fault.
  unfoldable pub serve_calls : List Call → HttpWorker → Outcome HttpWorker
  unfolding serve_call
  serve_calls [] ws = done ws
  serve_calls (c ∷ cs) ws = elim (serve_call c ws) [
    | fault ↦ fault
    | done (ws', ret) ↦ serve_calls cs ws'
  ]

-- A call ends in a fault, or leaves a sound worker.
abbrev pub LeavesSound : Outcome (HttpWorker × ℤ) → Type 0
LeavesSound fault = Unit {0}
LeavesSound (done r) = IsSound r.0

abbrev pub EndsSound : Outcome HttpWorker → Type 0
EndsSound fault = Unit {0}
EndsSound (done ws) = IsSound ws

module _ (realloc : Option Bytes → ℕ → Option Bytes) (env : HttpEnv)
    (supplied : IsSupplied env) where
  field_from-IsSound :
      (h : HeaderState) (ws : HttpWorker) → IsSound ws → IsSound (field_from env h ws)
  unfolding field_from
  field_from-IsSound recv ws s = s
  field_from-IsSound init ws s = IsSound-set_req ws _ s s.url s.hostname s.user_agent
  field_from-IsSound value_recv ws s =
      let t = header_value_check-IsSound env supplied ws s in
      IsSound-set_req (header_value_check env ws) _ t t.url t.hostname t.user_agent

  begin_field-IsSound : (ws : HttpWorker) → IsSound ws → IsSound (begin_field env ws)
  unfolding begin_field
  begin_field-IsSound ws s = field_from-IsSound ws.req.header_state ws s

  store_header-LeavesSound :
      (ws : HttpWorker) (r : Str.Result) → IsSound ws → LeavesSound (store_header ws r)
  unfolding store_header
  store_header-LeavesSound ws Str.fault s = tt
  store_header-LeavesSound ws (Str.done str ret) s =
      IsSound-set_req ws _ s s.url s.hostname s.user_agent

  store_value-LeavesSound :
      (ws : HttpWorker) (r : Str.Result) → IsSound ws → LeavesSound (store_value ws r)
  unfolding store_value
  store_value-LeavesSound ws Str.fault s = tt
  store_value-LeavesSound ws (Str.done str ret) s =
      IsSound-set_req ws _ s s.url s.hostname s.user_agent

  http_header_field_cb-LeavesSound :
      (at : Bytes) (ws : HttpWorker)
      → IsSound ws
      → LeavesSound (http_header_field_cb realloc env at ws)
  unfolding http_header_field_cb
  http_header_field_cb-LeavesSound at ws s =
      store_header-LeavesSound (begin_field env ws) _ (begin_field-IsSound ws s)

  begin_value-IsSound :
      (h : HeaderState) (ws : HttpWorker) → IsSound ws → IsSound (set_req ws (value_from h ws.req))
  unfolding value_from
  begin_value-IsSound value_recv ws s = s
  begin_value-IsSound init ws s = IsSound-set_req ws _ s s.url s.hostname s.user_agent
  begin_value-IsSound recv ws s = IsSound-set_req ws _ s s.url s.hostname s.user_agent

  http_header_value_cb-LeavesSound :
      (at : Bytes) (ws : HttpWorker) → IsSound ws → LeavesSound (http_header_value_cb realloc at ws)
  unfolding http_header_value_cb
  http_header_value_cb-LeavesSound at ws s =
      store_value-LeavesSound (set_req ws (begin_value ws.req)) _
        (begin_value-IsSound ws.req.header_state ws s)

  fall_back-IsSound : (a : AuthStruct) (ws : HttpWorker) → IsSound ws → IsSound (fall_back a ws)
  unfolding fall_back
  fall_back-IsSound a ws s =
      IsSound-if (has_type gssapi a && is_inactive ws.auth_state && not ws.req.spnego_set)
        (ws_switch_auth_to ws username_pass).0 ws
        (ws_switch_auth_to-IsSound env supplied ws username_pass s) s

  http_header_complete_cb-LeavesSound :
      (ws : HttpWorker) → IsSound ws → LeavesSound (http_header_complete_cb env ws)
  unfolding http_header_complete_cb
  http_header_complete_cb-LeavesSound ws s =
      let checked = header_value_check env ws in
      let t = header_value_check-IsSound env supplied ws s in
      elim (Option-cases (selected checked)) [
        | inl missing ↦ rw (missing, http_header_complete_cb) tt
        | inr (a, found) ↦
            let u = fall_back-IsSound a checked t in
            rw (found, http_header_complete_cb)
              (IsSound-set_req (fall_back a checked) _ u u.url u.hostname u.user_agent)
      ]

  serve_call-LeavesSound :
      (c : Call) (ws : HttpWorker) → IsSound ws → LeavesSound (serve_call realloc env c ws)
  unfolding serve_call
  serve_call-LeavesSound (url at) ws s = unfold http_url_cb in url_case (leb 256 (length at)) refl
    where
      url_case :
          (b : Bool)
          → leb 256 (length at) ≡ b
          → LeavesSound (
              done (
                if b
                then (set_req ws (record (ws.req) { url = [] }), pos 1)
                else (set_req ws (record (ws.req) { url = at }), success)))
      url_case true e = IsSound-set_req ws _ s (omega arith) s.hostname s.user_agent
      url_case false e = IsSound-set_req ws _ s (ground arith) s.hostname s.user_agent
  serve_call-LeavesSound (field at) ws s = http_header_field_cb-LeavesSound at ws s
  serve_call-LeavesSound (value at) ws s = http_header_value_cb-LeavesSound at ws s
  serve_call-LeavesSound (body at) ws s =
      unfold http_body_cb in IsSound-set_req ws _ s s.url s.hostname s.user_agent
  serve_call-LeavesSound headers_complete ws s = http_header_complete_cb-LeavesSound ws s
  serve_call-LeavesSound message_complete ws s =
      unfold http_message_complete_cb in IsSound-set_req ws _ s s.url s.hostname s.user_agent
  serve_call-LeavesSound reset ws s =
      unfold http_req_reset in IsSound-set_req ws _ s (omega arith) s.hostname s.user_agent

  -- Where there is memory for the cookie, and base64_decode stores no more than the area has: after
  -- any sequence of the parser's calls, and of new requests, that does not fault, the strings of the
  -- worker fit their arrays with a NUL (URL, host name, user agent), the SID fills its array, and a
  -- cookie that counts as set is there.
  pub serve_calls-EndsSound :
      (cs : List Call) (ws : HttpWorker) → IsSound ws → EndsSound (serve_calls realloc env cs ws)
  unfolding serve_calls
  serve_calls-EndsSound [] ws s = s
  serve_calls-EndsSound (c ∷ cs) ws s = elim (Outcome-cases (serve_call realloc env c ws)) [
    | inl stopped ↦ rw (stopped, serve_calls) tt
    | inr ((ws', ret), given) ↦
        rw (given, serve_calls)
          (serve_calls-EndsSound cs ws' (subst LeavesSound given (serve_call-LeavesSound c ws s)))
  ]
