-- ===== src/Http/Sound.antt =====
-- worker-http.c: what holds of a worker whatever the parser calls.
use my_vps_config.Base.{
  ℕ, ◌+◌, ◌≤◌, ◌≡◌, ◌≢◌, refl, ap, ◌∙◌, Bool, true, false, not, ◌||◌, ◌==◌, ltb, if◌then◌else◌,
  Option, none, some, List, [], ◌∷◌, Bytes, length, length-append, length-take, length-drop, take,
  drop, arith, Bool-cases, inl, inr,
}
use my_vps_config.Text.{tokens, trim_start, starts_with}
use my_vps_config.Http.Select.{codes}
use my_vps_config.Str.Content.{text}
use my_vps_config.Http.Types.{
  HeaderId, cookie, master_secret, hostname, cstp_base_mtu, cstp_atype, device_type,
  dtls_ciphersuite, connection, full_ipv6, user_agent, cstp_encoding, dtls_encoding, support_spnego,
  authorization, HttpReq, HttpWorker, HttpEnv,
}
use my_vps_config.Http.Value.{
  trim_value, webvpn_cookie, webvpn_context, cookie_token, cookie_tokens, header_value,
  header_value_check, ws_switch_auth_to, set_req, store_front, gssapi,
}

-- A cookie that counts is there, with its size.
abbrev HasCookie : HttpWorker → Type 0
HasCookie ws = ws.cookie_set ≡ true → ws.cookie ≡ none → ⊥

-- The strings fit their arrays, with a NUL; the SID fills its array; a cookie that counts is there.
pub record IsSound (ws : HttpWorker) : Type 0 where
  pub url : length ws.req.url ≤ 255
  pub hostname : length ws.req.hostname ≤ 63
  pub user_agent : length ws.req.user_agent ≤ 47
  pub sid : length ws.sid ≡ 16
  pub cookie : ws.cookie_set ≡ true → ws.cookie ≢ none

-- There is memory for the cookie, and `base64_decode` stores no more than the area has.
pub record IsSupplied (env : HttpEnv) : Type 0 where
  pub mem : env.mem_cookie ≡ true
  pub decoded : (v : Bytes) (n : ℕ) → length (env.base64_decode v n).1 ≤ n

pub IsSound-set_req :
    (ws : HttpWorker) (r : HttpReq)
    → IsSound ws
    → length r.url ≤ 255
    → length r.hostname ≤ 63
    → length r.user_agent ≤ 47
    → IsSound (set_req ws r)
IsSound-set_req ws r s u h a = record {
  url = u;
  hostname = h;
  user_agent = a;
  sid = s.sid;
  cookie = s.cookie;
}

-- What else changes is no part of it.
IsSound-worker :
    (ws ws' : HttpWorker)
    → IsSound ws
    → (ws'.req ≡ ws.req)
      × (ws'.sid ≡ ws.sid)
      × (ws'.cookie ≡ ws.cookie)
      × (ws'.cookie_set ≡ ws.cookie_set)
    → IsSound ws'
IsSound-worker ws ws' s e = record {
  url = rw (e.0) s.url;
  hostname = rw (e.0) s.hostname;
  user_agent = rw (e.0) s.user_agent;
  sid = ap length e.1 ∙ s.sid;
  cookie = rw (e.3) (rw (e.2) s.cookie);
}

pub IsSound-if :
    (b : Bool) (x y : HttpWorker) → IsSound x → IsSound y → IsSound (if b then x else y)
IsSound-if true x y s t = s
IsSound-if false x y s t = t

length-cut_name : (v : Bytes) → length (if ltb 64 (length v + 1) then [] else v) ≤ 63
length-cut_name v = ground arith

length-cut_agent : (v : Bytes) → length (if ltb 48 (length v + 1) then take 47 v else v) ≤ 47
length-cut_agent v = ground (arith, length-take 47 v)

module _ (env : HttpEnv) (supplied : IsSupplied env) where
  webvpn_cookie-IsSound :
      (v : Bytes) (ws : HttpWorker) → IsSound ws → IsSound (webvpn_cookie env v ws).0
  unfolding webvpn_cookie
  webvpn_cookie-IsSound v ws s = ground (arith, supplied.mem)

  length-store_front :
      (src area : Bytes) → length src ≤ length area → length (store_front src area) ≡ length area
  length-store_front src area h =
      omega (arith, length-append src (drop (length src) area), length-drop (length src) area)

  webvpn_context-IsSound :
      (v : Bytes) (ws : HttpWorker) → IsSound ws → IsSound (webvpn_context env v ws)
  unfolding webvpn_context
  webvpn_context-IsSound v ws s =
      let fits : length (env.base64_decode (trim_value v) 16).1 ≤ length ws.sid =
        rw s.sid (supplied.decoded (trim_value v) 16) in
      record {
        url = s.url;
        hostname = s.hostname;
        user_agent = s.user_agent;
        sid = length-store_front _ ws.sid fits ∙ s.sid;
        cookie = s.cookie;
      }

  cookie_token-IsSound :
      (t : Bytes) (ws : HttpWorker) → IsSound ws → IsSound (cookie_token env t ws).0
  unfolding cookie_token
  cookie_token-IsSound t ws s =
      let p = trim_start t in
      elim (Bool-cases (starts_with (codes "webvpn=") p)) [
        | inl first ↦ rw first (webvpn_cookie-IsSound (drop 7 p) ws s)
        | inr other ↦ elim (Bool-cases (starts_with (codes "webvpncontext=") p)) [
          | inl second ↦ rw (other, second) (webvpn_context-IsSound (drop 14 p) ws s)
          | inr neither ↦ rw (other, neither) s
        ]
      ]

  cookie_tokens-IsSound :
      (ts : List Bytes) (ws : HttpWorker) → IsSound ws → IsSound (cookie_tokens env ts ws)
  unfolding cookie_tokens
  cookie_tokens-IsSound [] ws s = s
  cookie_tokens-IsSound (t ∷ ts) ws s =
      let now = cookie_token-IsSound t ws s in
      elim (Bool-cases (cookie_token env t ws).1) [
        | inl stops ↦ rw stops now
        | inr goes ↦ rw goes (cookie_tokens-IsSound ts (cookie_token env t ws).0 now)
      ]

  pub ws_switch_auth_to-IsSound :
      (ws : HttpWorker) (auth : ℕ) → IsSound ws → IsSound (ws_switch_auth_to ws auth).0
  unfolding ws_switch_auth_to
  ws_switch_auth_to-IsSound ws auth s = ground arith

  header_value-IsSound :
      (id : HeaderId) (v : Bytes) (ws : HttpWorker)
      → IsSound ws
      → IsSound (header_value env id v ws)
  unfolding header_value
  header_value-IsSound cookie v ws s = cookie_tokens-IsSound (tokens b';' v) ws s
  header_value-IsSound master_secret v ws s =
      IsSound-if (ltb (length v) 96) _ _ (IsSound-set_req ws _ s s.url s.hostname s.user_agent)
        (IsSound-set_req ws _ s s.url s.hostname s.user_agent)
  header_value-IsSound hostname v ws s =
      IsSound-set_req ws _ s s.url (length-cut_name v) s.user_agent
  header_value-IsSound cstp_base_mtu v ws s = IsSound-set_req ws _ s s.url s.hostname s.user_agent
  header_value-IsSound cstp_atype v ws s = IsSound-set_req ws _ s s.url s.hostname s.user_agent
  header_value-IsSound device_type v ws s = IsSound-set_req ws _ s s.url s.hostname s.user_agent
  header_value-IsSound dtls_ciphersuite v ws s =
      IsSound-set_req ws _ s s.url s.hostname s.user_agent
  header_value-IsSound connection v ws s = s
  header_value-IsSound full_ipv6 v ws s = IsSound-worker ws _ s (refl, refl, refl, refl)
  header_value-IsSound user_agent v ws s =
      IsSound-set_req ws _ s s.url s.hostname (length-cut_agent v)
  header_value-IsSound cstp_encoding v ws s =
      IsSound-if ws.enable_compression _ ws (IsSound-worker ws _ s (refl, refl, refl, refl)) s
  header_value-IsSound dtls_encoding v ws s =
      IsSound-if ws.enable_compression _ ws (IsSound-worker ws _ s (refl, refl, refl, refl)) s
  header_value-IsSound support_spnego v ws s =
      let t = ws_switch_auth_to-IsSound ws gssapi s in
      IsSound-set_req (ws_switch_auth_to ws gssapi).0 _ t t.url t.hostname t.user_agent
  header_value-IsSound authorization v ws s = IsSound-set_req ws _ s s.url s.hostname s.user_agent

  pub header_value_check-IsSound :
      (ws : HttpWorker) → IsSound ws → IsSound (header_value_check env ws)
  unfolding header_value_check
  header_value_check-IsSound ws s =
      IsSound-if (ws.req.value.length == 0 || not env.mem_value) ws _ s (known ws.req.next_header)
    where
      known :
          (o : Option HeaderId)
          → IsSound (elim o [ none ↦ ws | some id ↦ header_value env id (text ws.req.value) ws ])
      known none = s
      known (some id) = header_value-IsSound id (text ws.req.value) ws s
