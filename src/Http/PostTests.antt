-- ===== src/Http/PostTests.antt =====
-- A client that posts its password, and the theorems on concrete forms.
use my_vps_config.Base.{◌≡◌, ◌≢◌, refl, true, false, none, some, [], ◌∷◌, ◌++◌, replicate}
use my_vps_config.Text.{done, c_string, has_part}
use my_vps_config.Html.{unescape_url, url_loop}
use my_vps_config.Http.Value.{auth_at, starts_with_case}
use my_vps_config.Http.Callbacks.{selected}
use my_vps_config.Http.Form.{find_value, find_after, before_amp, decode_value, parse_reply}
use my_vps_config.Str.{str_init}
use my_vps_config.Http.Types.{HttpReq, init, unknown, auth_req, auth_cookie}
use my_vps_config.Http.Select.{codes, lower}
use my_vps_config.Http.Post.{
  PostWorker, PostEnv, reply_ok, cookie_page, ToModule, cont_msg, Posted, recv_auth_reply,
  keep_cookie, take_sid,
}
use my_vps_config.Http.PostAuth.{
  post_auth_handler, rejoin, post_at, post_cont, cont_request, form_field, exchange, finish_post,
}
use my_vps_config.Http.Granted.{IsGranted}
use my_vps_config.Http.Allowed.{Fits, post_auth_handler-Fits, post_auth_handler-IsGranted}

abbrev form_req : HttpReq
form_req = record {
  url = codes "/auth";
  header = str_init;
  value = str_init;
  header_state = init;
  hostname = [];
  user_agent = [];
  user_agent_type = unknown;
  next_header = none;
  is_mobile = false;
  spnego_set = false;
  master_secret = [];
  master_secret_set = false;
  body = some (codes "password=a1" ++ 0 ∷ []);
  body_length = 11;
  selected_ciphersuite = none;
  headers_complete = true;
  message_complete = true;
  base_mtu = 0;
  no_ipv4 = false;
  no_ipv6 = false;
  authorization = none;
}

abbrev asked : PostWorker
asked = record {
  http = record {
    req = form_req;
    selected_auth = some 0;
    auth = record { enabled = true; kind = 5 } ∷ [];
    enable_compression = true;
    dtls_selected_comp = none;
    cstp_selected_comp = none;
    full_ipv6 = false;
    sid = replicate 16 7;
    sid_set = true;
    cookie = none;
    cookie_size = 0;
    cookie_set = false;
    auth_state = auth_req;
  };
  username = codes "bob";
  groupname = [];
  session_id = replicate 32 0;
  cert_auth_ok = false;
  cert_username = [];
  cert_groups = [];
  remote_ip = codes "10.0.0.1";
}

abbrev accepting : PostEnv
accepting = record {
  scan_hex = λ s. none;
  mem_field = λ s. true;
  mem_cookie = true;
  mem_text = true;
  cert_info = none;
  connects = true;
  sends = true;
  reply = reply_ok (some (codes "bob")) none (some (codes "c")) (replicate 32 1) none;
  default_group = none;
}

abbrev password_msg : ToModule
password_msg = cont_msg (record { sid = replicate 16 7; password = some (codes "a1") })

abbrev accepted : Posted
accepted = record {
  worker = record asked {
    http = record (asked.http) {
      cookie = some (codes "c");
      cookie_size = 1;
      cookie_set = true;
      auth_state = auth_cookie;
    };
    session_id = replicate 32 1;
  };
  sent = some password_msg;
  answer = cookie_page none;
}

login : post_auth_handler accepting asked ≡ done accepted
unfolding post_auth_handler rejoin post_at selected auth_at post_cont cont_request form_field
    parse_reply find_value find_after before_amp c_string has_part starts_with_case lower
    decode_value unescape_url url_loop exchange finish_post recv_auth_reply keep_cookie take_sid
login = refl

post_auth_handler-Fits_example : Fits asked password_msg
post_auth_handler-Fits_example =
    post_auth_handler-Fits accepting asked accepted password_msg login refl

post_auth_handler-IsGranted_example : (accepted.sent ≢ none) × IsGranted accepting accepted.worker
post_auth_handler-IsGranted_example =
    post_auth_handler-IsGranted accepting asked accepted login refl
