-- ===== src/Http/Tests.antt =====
-- Requests on concrete bytes, and the theorems at concrete inputs.
use my_vps_config.Base.{
  ℕ, ◌↔◌, ◌≤◌, ◌≡◌, ◌⊎◌, length-take, refl, true, false, Option, none, some, [], ◌∷◌, ◌++◌, Bytes,
  length, take, replicate, arith,
}
use my_vps_config.Text.{tokens, starts_with}
use my_vps_config.Str.{str_init}
use my_vps_config.Http.Types.{HttpReq, HttpWorker, HttpEnv, init, unknown, auth_inactive}
use my_vps_config.Http.Select.{codes, ciphersuites, select_suite, suite}
use my_vps_config.Http.Urls.{get_config, post_auth, http_get_url_handler, http_post_url_handler}
use my_vps_config.Http.Best.{pick, contains, select_suite-first}
use my_vps_config.Http.Calls.{
  field, value, headers_complete, serve_calls, EndsSound, serve_calls-EndsSound,
}
use my_vps_config.Http.Routes.{url_handlers_lem}
use my_vps_config.Http.Form.{parse_reply}
use my_vps_config.Http.Fields.{form_of, username, password, parse_reply-form}

abbrev fresh_req : HttpReq
fresh_req = record {
  url = [];
  header = str_init;
  value = str_init;
  header_state = init;
  hostname = [];
  user_agent = [];
  user_agent_type = unknown;
  next_header = none;
  is_mobile = false;
  spnego_set = false;
  master_secret = [];
  master_secret_set = false;
  body = none;
  body_length = 0;
  selected_ciphersuite = none;
  headers_complete = false;
  message_complete = false;
  base_mtu = 0;
  no_ipv4 = false;
  no_ipv6 = false;
  authorization = none;
}

abbrev fresh : HttpWorker
fresh = record {
  req = fresh_req;
  selected_auth = some 0;
  auth = record { enabled = true; kind = 5 } ∷ [];
  enable_compression = true;
  dtls_selected_comp = none;
  cstp_selected_comp = none;
  full_ipv6 = false;
  sid = replicate 16 0;
  sid_set = false;
  cookie = none;
  cookie_size = 0;
  cookie_set = false;
  auth_state = auth_inactive;
}

-- A decoder that gives the text back, cut to the area.
abbrev env : HttpEnv
env = record {
  mem_value = true;
  mem_cookie = true;
  hex2bin = λ s old. old;
  base64_decode = λ v n. (true, take n v);
  atoi = λ s. 0;
  same_as_tls = λ s. false;
}

abbrev realloc : Option Bytes → ℕ → Option Bytes
realloc old n = some (replicate n 0)

chooses_first :
    select_suite
      (λ s. true)
      ciphersuites
      (tokens b':' (codes "AES128-SHA:OC-DTLS1_2-AES256-GCM"))
      none
    ≡ some (suite "OC-DTLS1_2-AES256-GCM" 80)
unfolding select_suite ciphersuites tokens
chooses_first = refl

profiles : http_get_url_handler (codes "/profilesX") ≡ some get_config
unfolding http_get_url_handler
profiles = refl

select_suite-first_example :
    select_suite (λ s. true) ciphersuites (codes "AES128-SHA" ∷ codes "DES-CBC3-SHA" ∷ []) none
    ≡ pick (λ s. contains (codes "AES128-SHA" ∷ codes "DES-CBC3-SHA" ∷ []) s.oc_name) ciphersuites
select_suite-first_example =
    select_suite-first (λ s. true) (codes "AES128-SHA" ∷ codes "DES-CBC3-SHA" ∷ [])

take-le : (n : ℕ) (v : Bytes) → length (take n v) ≤ n
take-le n v = omega (arith, length-take n v)

serve_calls-EndsSound_example : EndsSound (
    serve_calls realloc env
      (field (codes "Cookie") ∷ value (codes "webvpn=abcd") ∷ headers_complete ∷ [])
      fresh)
serve_calls-EndsSound_example =
    serve_calls-EndsSound realloc env (record { mem = refl; decoded = λ v n. take-le n v })
      (field (codes "Cookie") ∷ value (codes "webvpn=abcd") ∷ headers_complete ∷ []) fresh
      (record {
        url = omega arith;
        hostname = omega arith;
        user_agent = omega arith;
        sid = refl;
        cookie = λ e. cc;
      })

url_handlers_lem_example :
    ((http_post_url_handler [] (codes "/auth") ≡ some post_auth)
      ↔ ((codes "/" ≡ codes "/auth") ⊎ (codes "/auth" ≡ codes "/auth")))
    × ((http_get_url_handler (codes "/auth") ≡ some get_config)
        ↔ (starts_with (codes "/profiles") (codes "/auth") ≡ true))
url_handlers_lem_example = url_handlers_lem [] (codes "/auth")

-- A scanner that reads no digit suffices: no byte is escaped.
abbrev no_hex : Bytes → Option ℕ
no_hex s = none

abbrev bob : Bytes
bob = b'a' ∷ b'1' ∷ []

parse_reply-form_example :
    (parse_reply no_hex true
        (some (form_of bob bob ++ 0 ∷ []))
        (length (form_of bob bob))
        username
        (some username)
      ≡ some bob)
    × (parse_reply no_hex true
          (some (form_of bob bob ++ 0 ∷ []))
          (length (form_of bob bob))
          password
          (some password)
        ≡ some bob)
parse_reply-form_example = parse_reply-form no_hex bob bob (refl, (refl, tt)) (refl, (refl, tt))
