-- ===== src/Http/Headers.antt =====
-- worker-http.c: a cookie in a header, and a header without a value.
use my_vps_config.Base.{
  ℕ, ◌≡◌, ◌≢◌, refl, ap, ◌∙◌, true, false, Option, some, [], ◌∷◌, ◌++◌, Bytes, length, drop, arith,
}
use my_vps_config.Base.Int.{ℤ}
use my_vps_config.Text.{done, fault, tokens, split_on, c_string, trim_end, c_isspace}
use my_vps_config.Str.{Str, str_init, append_bytes, str_append_size, str_append_data}
use my_vps_config.Str
use my_vps_config.Http.Types.{
  HttpReq, HttpWorker, HttpEnv, HeaderState, init, recv, value_recv, cookie, auth_cookie,
}
use my_vps_config.Http.Select.{codes}
use my_vps_config.Http.Value.{trim_value, cookie_token, cookie_tokens, header_value}
use my_vps_config.Http.Callbacks.{
  http_header_field_cb, http_header_value_cb, http_req_init, store_header, store_value, begin_field,
  field_from, value_from, str_reset, begin_value,
}

-- The bytes of a Base64 text: no NUL, semicolon or white space.
abbrev pub IsToken : Bytes → Type 0
IsToken [] = Unit {0}
IsToken (c ∷ s) = ((c ≢ 0) × (c ≢ b';') × (c_isspace c ≡ false)) × IsToken s

c_string-IsToken : (s : Bytes) → IsToken s → c_string s ≡ s
unfolding c_string
c_string-IsToken [] t = refl
c_string-IsToken (c ∷ s) t = ground (arith, c_string-IsToken s t.1)

split_on-IsToken : (s : Bytes) → IsToken s → split_on b';' s ≡ s ∷ []
unfolding split_on
split_on-IsToken [] t = refl
split_on-IsToken (c ∷ s) t = ground (arith, split_on-IsToken s t.1)

trim_end-IsToken : (s : Bytes) → IsToken s → trim_end s ≡ s
unfolding trim_end
trim_end-IsToken [] t = refl
trim_end-IsToken (c ∷ []) t = ground arith
trim_end-IsToken (c ∷ d ∷ s) t = ground (arith, trim_end-IsToken (d ∷ s) t.1)

trim_value-IsToken : (s : Bytes) → IsToken s → trim_value s ≡ s
unfolding trim_value
trim_value-IsToken [] t = refl
trim_value-IsToken (c ∷ s) t = ap (λ u. c ∷ u) (trim_end-IsToken s t.1)

webvpn-IsToken : (b : Bytes) → IsToken b → IsToken (codes "webvpn=" ++ b)
unfolding c_isspace
webvpn-IsToken b t = ground arith

tokens-IsToken : (c : ℕ) (s : Bytes) → IsToken (c ∷ s) → tokens b';' (c ∷ s) ≡ (c ∷ s) ∷ []
unfolding tokens
tokens-IsToken c s t = rw (c_string-IsToken (c ∷ s) t, split_on-IsToken (c ∷ s) t)

cookie_token-cookie :
    (env : HttpEnv) (b secret : Bytes) (ws : HttpWorker)
    → IsToken b
    → env.mem_cookie ≡ true
    → env.base64_decode b (length b) ≡ (true, secret)
    → cookie_token env (codes "webvpn=" ++ b) ws ≡ (
      record ws {
        cookie = some secret;
        cookie_size = length secret;
        auth_state = auth_cookie;
        cookie_set = true;
      },
      false,
    )
unfolding cookie_token
cookie_token-cookie env b secret ws t mem decoded = rw (trim_value-IsToken b t, decoded, mem)

-- A header with the cookie alone: where there is memory, the worker has what the Base64 text stands
-- for as its cookie, which counts as set, and will authenticate by it; all else stays.
pub header_value-cookie :
    (env : HttpEnv) (b secret : Bytes) (ws : HttpWorker)
    → IsToken b
    → env.mem_cookie ≡ true
    → env.base64_decode b (length b) ≡ (true, secret)
    → header_value env cookie (codes "webvpn=" ++ b) ws ≡ record ws {
      cookie = some secret;
      cookie_size = length secret;
      auth_state = auth_cookie;
      cookie_set = true;
    }
unfolding header_value
header_value-cookie env b secret ws t mem decoded =
    rw (tokens-IsToken b'w' (drop 1 (codes "webvpn=" ++ b)) (webvpn-IsToken b t))
      (rw (cookie_token-cookie env b secret ws t mem decoded, cookie_tokens))

store_header-keeps :
    (ws ws' : HttpWorker) (r : Str.Result) (ret : ℤ)
    → store_header ws r ≡ done (ws', ret)
    → (ws'.req.value ≡ ws.req.value) × (ws'.req.header_state ≡ ws.req.header_state)
unfolding store_header
store_header-keeps ws ws' Str.fault ret h = cc
store_header-keeps ws ws' (Str.done s code) ret h = ground arith

field_begun :
    (env : HttpEnv) (h : HeaderState) (ws : HttpWorker)
    → h ≡ init
    → ((field_from env h ws).req.value ≡ ws.req.value)
      × ((field_from env h ws).req.header_state ≡ recv)
unfolding field_from
field_begun env init ws e = (refl, refl)
field_begun env recv ws e = cc
field_begun env value_recv ws e = cc

value_begun :
    (h : HeaderState) (r : HttpReq) → h ≡ recv → (value_from h r).value ≡ str_reset r.value
unfolding value_from
value_begun recv r e = refl
value_begun init r e = cc
value_begun value_recv r e = cc

store_value_fault : (ws : HttpWorker) (r : Str.Result) → r ≡ Str.fault → store_value ws r ≡ fault
unfolding store_value
store_value_fault ws r e = rw e

module _ (realloc : Option Bytes → ℕ → Option Bytes) where
  -- No bytes, appended to a string that has no area.
  str_append_data-empty : str_append_data realloc str_init [] ≡ Str.fault
  unfolding str_append_data str_append_size str_init append_bytes
  str_append_data-empty = refl

  field_of_first :
      (env : HttpEnv) (name : Bytes) (ws ws' : HttpWorker) (ret : ℤ)
      → ws.req.header_state ≡ init
      → http_header_field_cb realloc env name (http_req_init ws) ≡ done (ws', ret)
      → (ws'.req.value ≡ str_init) × (ws'.req.header_state ≡ recv)
  unfolding http_header_field_cb http_req_init
  field_of_first env name ws ws' ret fresh named =
      let begun = field_begun env ws.req.header_state (http_req_init ws) fresh in
      let kept = store_header-keeps (begin_field env (http_req_init ws)) ws' _ ret named in
      (kept.0 ∙ begun.0, kept.1 ∙ begun.1)

  -- A worker that has no value yet, and whose request starts with the name of a header, stores a NUL
  -- through a null pointer when the parser passes on that the header's value is empty.
  pub empty_value-faults :
      (env : HttpEnv) (name : Bytes) (ws ws' : HttpWorker) (ret : ℤ)
      → ws.req.header_state ≡ init
      → http_header_field_cb realloc env name (http_req_init ws) ≡ done (ws', ret)
      → http_header_value_cb realloc [] ws' ≡ fault
  unfolding http_header_value_cb
  empty_value-faults env name ws ws' ret fresh named =
      let (same, received) = field_of_first env name ws ws' ret fresh named in
      let empty : (begin_value ws'.req).value ≡ str_init =
        value_begun ws'.req.header_state ws'.req received
        ∙ ap str_reset same
        ∙ (unfold str_init in refl) in
      store_value_fault (record ws' { req = begin_value ws'.req }) _
        (ap (λ v. str_append_data realloc v []) empty ∙ str_append_data-empty)
