-- ===== src/SecMod/Tests.antt =====
-- The security module on a concrete client, and its theorems at concrete inputs.
use my_vps_config.Base.{
  ℕ, ◌≡◌, refl, true, false, List, [], ◌∷◌, ◌++◌, some, none, Bytes, replicate, arith, length,
}
use my_vps_config.Base.Int.{ℤ, success}
use my_vps_config.Htable.{Htable}
use my_vps_config.Htable.Assoc.{assoc}
use my_vps_config.SecMod.Types.{
  ClientEntry, AuthStatus, AuthModule, AcctModule, SecConfig, Env, cli_stats, Event, reply,
  answered, AuthCont, AuthInit, AuthSession, sid_key, Step, session_ok,
}
use my_vps_config.SecMod.Db.{new_client_entry, zero_entry, draw_sid, no_stats}
use my_vps_config.SecMod.Reply.{
  handle_sec_auth_res, decide, accept, ask_module, take_username, send_sec_auth_reply, send_auth_ok,
  generate_cookie, send_final, ipv4_seed,
}
use my_vps_config.SecMod.Login.{
  handle_sec_auth_init, handle_sec_auth_cont, cont_entry, init_entry, set_module, find_method,
  init_module, init_group, finish_init, check_requested_group, check_user_group_status,
}
use my_vps_config.SecMod.Session.{
  done, open_entry, open_completed, open_accounting, grant_session, send_open_reply, cookie_expired,
  cookie_matches, close_entry,
}
use my_vps_config.SecMod.Accepting.{Authenticated, handle_sec_auth_cont-accepts}
use my_vps_config.SecMod.Sessions.{IsFresh, open_entry-grants, close_entry-stats}
use my_vps_config.SecMod.Refused.{any_positive}
use my_vps_config.SecMod.Barred.{answers, other_cookie, answers-open_wrong}
use my_vps_config.SecMod.Serve.{session, auth_cont, auth_init, serve, serve_all}
use my_vps_config.SecMod.Isolation.{Leaves, serve-other}
use my_vps_config.SecMod.InUse.{serve_all-init-AllTimed}
use my_vps_config.SecMod.Timed.{IsTimed}

abbrev pub Ctx : Type 0
Ctx = ℕ

abbrev pub ht : Htable (ClientEntry Ctx) sid_key
ht = assoc sid_key

abbrev sid : Bytes
sid = replicate 16 1

abbrev password : Bytes
password = b'p' ∷ b'w' ∷ []

-- A module that takes any password.
abbrev pub plain : AuthModule Ctx
plain = record {
  kind = 2;
  allows_retries = true;
  auth_init = λ user ip. (success, some 0);
  auth_msg = λ ctx. (success, none, ctx);
  auth_pass = λ ctx pass. (success, ctx);
  auth_group = λ ctx suggested group. (success, group, ctx);
  auth_user = λ ctx user. (user, ctx);
}

abbrev acct : AcctModule Ctx
acct = record {
  open_session = some (λ kind ctx info s. success);
  session_stats = true;
  close_session = true;
}

abbrev pub config : SecConfig Ctx
config = record {
  max_ban_score = 50;
  ban_points_wrong_password = 10;
  cookie_timeout = 300;
  predictable_ips = true;
  cert_user_oid = false;
  cert_group_oid = false;
  auth = record { enabled = true; kind = 2; amod = some plain } ∷ [];
  acct = none;
  get_sup_config = none;
}

abbrev pub env : Env
env = record {
  now = 1000;
  mem = true;
  rnd = λ n. some (replicate 16 n);
  nonce = some 7;
  hash_any = λ bytes. length bytes;
  base64 = λ bytes. bytes;
  encrypt_cookie = λ c. some (b'c' ∷ []);
  ban = λ ip n. answered true;
  send = λ r. success;
}

abbrev asked : ClientEntry Ctx
asked = record {
  sid = sid;
  auth_ctx = some 0;
  session_is_open = false;
  in_use = 0;
  tls_auth_ok = false;
  msg_str = none;
  saved_stats = no_stats;
  stats = no_stats;
  status = AuthStatus.init;
  hostname = [];
  cookie = [];
  dtls_session_id = [];
  time = some 1000;
  auth_type = 2;
  auth_info = record {
    username = b'u' ∷ [];
    groupname = [];
    psid = [];
    remote_ip = b'1' ∷ [];
    ipv4 = [];
    ipv6 = [];
  };
  auth_module = some plain;
}

abbrev request : AuthCont
request = record { sid = sid; password = some password }

handle_sec_auth_cont-accepts_example :
    (e : ClientEntry Ctx) × (ht.get sid (asked ∷ []) ≡ some e)
    × Authenticated env config e (some password)
unfolding handle_sec_auth_cont cont_entry handle_sec_auth_res decide accept ask_module take_username
    send_sec_auth_reply send_auth_ok generate_cookie send_final ipv4_seed
handle_sec_auth_cont-accepts_example =
    handle_sec_auth_cont-accepts ht config env request (asked ∷ []) refl

abbrev pub completed : ClientEntry Ctx
completed = record asked { status = AuthStatus.completed; cookie = b'c' ∷ [] }

abbrev logged_in : List (ClientEntry Ctx)
logged_in = (handle_sec_auth_cont ht config env request (asked ∷ [])).0

abbrev opened : Step Ctx
opened = record {
  entry = record completed { time = none; in_use = 1 };
  ret = success;
  events = reply (session_ok []) ∷ [];
}

opens : open_entry env config completed (some (b'c' ∷ [])) ≡ done opened
unfolding open_entry open_completed open_accounting grant_session send_open_reply cookie_expired
    cookie_matches
opens = refl

open_entry-grants_example :
    (completed.status ≡ AuthStatus.completed)
    × IsFresh env config completed
    × (some (b'c' ∷ []) ≡ some completed.cookie)
open_entry-grants_example =
    open_entry-grants env config completed (some (b'c' ∷ [])) opened opens refl

-- A wrong cookie, and then the right one.
abbrev opening : Bytes → AuthSession
opening c = record { sid = sid; cookie = some c; uptime = none; bytes_in = none; bytes_out = none }

answers-open_wrong_example :
    any_positive (
      answers ht config sid
        ((env, session true (opening (b'd' ∷ []))) ∷ (env, session true (opening (b'c' ∷ []))) ∷ [])
        (completed ∷ []))
    ≡ false
answers-open_wrong_example =
    answers-open_wrong ht config env (opening (b'd' ∷ [])) (completed ∷ []) completed
      ((env, session true (opening (b'c' ∷ []))) ∷ []) refl refl refl
      (other_cookie (λ e. ground arith))

abbrev closing : AuthSession
closing = record {
  sid = sid;
  cookie = none;
  uptime = some 60;
  bytes_in = some 500;
  bytes_out = some 900;
}

close_entry-stats_example :
    let s = close_entry env config completed closing in
    (s.events ≡ reply (cli_stats 500 900) ∷ [])
    × (s.ret ≡ success)
    × (s.entry.saved_stats.bytes_in ≡ 500)
    × (s.entry.saved_stats.bytes_out ≡ 900)
    × (s.entry.saved_stats.uptime ≡ 60)
    × (s.entry.stats ≡ no_stats)
close_entry-stats_example =
    close_entry-stats env config completed closing 500 900 60 refl refl refl refl refl (omega arith)
      (omega arith) (omega arith)

abbrev other_sid : Bytes
other_sid = replicate 16 2

abbrev bystander : ClientEntry Ctx
bystander = record asked { sid = other_sid }

abbrev after_login : List (ClientEntry Ctx) × ℤ × List Event
after_login = handle_sec_auth_cont ht config env request (asked ∷ bystander ∷ [])

serve-other_example :
    Leaves ht config env (auth_cont request) other_sid bystander (ht.get other_sid after_login.0)
unfolding serve
serve-other_example =
    serve-other ht config env (auth_cont request) (asked ∷ bystander ∷ []) after_login other_sid
      bystander refl refl

abbrev login : AuthInit
login = record {
  auth_type = 2;
  ip = b'1' ∷ [];
  hostname = none;
  user_name = some (b'u' ∷ []);
  group_name = none;
  tls_auth_ok = false;
  cert_user_name = none;
  cert_group_names = [];
}

abbrev first : List (ClientEntry Ctx) × ℤ × List Event
first = handle_sec_auth_init ht config env login []

abbrev drawn : Bytes
drawn = replicate 16 0

abbrev begun : ClientEntry Ctx × ℤ
begun = init_entry config (zero_entry env (b'1' ∷ []) drawn) login

abbrev admitted : ClientEntry Ctx
admitted = (handle_sec_auth_res env config begun.0 begun.1).entry

serve_all-init-AllTimed_example : IsTimed 1 admitted
unfolding serve_all serve handle_sec_auth_init new_client_entry draw_sid zero_entry init_entry
    set_module find_method init_module init_group finish_init check_requested_group
    check_user_group_status handle_sec_auth_res decide accept ask_module take_username
    send_sec_auth_reply send_auth_ok generate_cookie send_final ipv4_seed
serve_all-init-AllTimed_example =
    serve_all-init-AllTimed ht config ((env, auth_init login) ∷ []) (first.0, first.2 ++ [])
      (omega arith) refl drawn admitted refl
