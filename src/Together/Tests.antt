-- ===== src/Together/Tests.antt =====
-- Main and the security module on an example.
use my_vps_config.Base.{◌≡◌, refl, some, List, [], ◌∷◌, Bytes, replicate}
use my_vps_config.SecMod.Types.{ClientEntry, Cookie}
use my_vps_config.SecMod.Reply.{send_failed_session_open_reply}
use my_vps_config.SecMod.Session.{
  handle_sec_auth_session_open, open_entry, open_completed, open_accounting, grant_session,
  send_open_reply, cookie_expired, cookie_matches, deny,
}
use my_vps_config.SecMod.Tests.{Ctx, ht, config, env, completed}
use my_vps_config.IpLease.Registry.{steal_ip_leases}
use my_vps_config.Cookies.{decrypt_cookie, check_tag}
use my_vps_config.Cookies.Tests.{plain_gcm, one_packing}
use my_vps_config.Main.Proc.{Proc, deref, write_back}
use my_vps_config.Main.Table.{ProcTable, ref_of, proc_table_add, proc_search_sid}
use my_vps_config.Main.Session.{SessionReply, session_open, fill_config, fill_client}
use my_vps_config.Main.Auth.{
  AuthWorld, default_config, take_cookie, address_fits, enter_proc, take_over, resume_proc,
  open_proc, handle_auth_cookie_req, count_same, check_multiple_users,
}
use my_vps_config.Main.Accept.{
  reply_ok, AcceptEffect, fill_reply, cookie_auth_reply, handle_script_exit, accept_user,
  finish_auth, handle_cookie_auth_res,
}
use my_vps_config.Main.Serve.{serve_cookie}
use my_vps_config.Main.Tests.{
  ips, ids, sids, new_proc, old_proc, test_accept, test_world, test_bytes, ok_reply, result_or,
  fields_or, no_fields, used_tables, nothing,
}
use my_vps_config.Together.{ask_sec_mod}
use my_vps_config.Together.Authorized.{IsAuthorized, serve_cookie-IsAuthorized}

abbrev entry : ClientEntry Ctx
entry = record completed { sid = replicate 16 3; cookie = test_bytes }

abbrev as_config : Bytes → SessionReply
as_config b = ok_reply

abbrev asking : AuthWorld
asking = record test_world { ask = ask_sec_mod ht config env as_config (entry ∷ []) }

unfoldable run : AcceptEffect × List Proc × ProcTable ips ids sids
run =
    result_or nothing
      (serve_cookie ips ids sids asking test_accept test_bytes new_proc (old_proc ∷ []) used_tables)

run_is :
    serve_cookie ips ids sids asking test_accept test_bytes new_proc (old_proc ∷ []) used_tables
    ≡ some run
unfolding serve_cookie handle_auth_cookie_req open_proc resume_proc take_over enter_proc take_cookie
    default_config address_fits session_open fill_config fill_client proc_table_add proc_search_sid
    ref_of deref write_back decrypt_cookie check_tag ask_sec_mod handle_sec_auth_session_open
    open_entry open_completed open_accounting grant_session send_open_reply cookie_expired
    cookie_matches deny send_failed_session_open_reply run
run_is = refl

run-reply_ok : run.0.reply ≡ some (reply_ok (fields_or no_fields run.0.reply))
unfolding serve_cookie handle_auth_cookie_req open_proc resume_proc take_over enter_proc take_cookie
    default_config address_fits session_open fill_config fill_client proc_table_add proc_search_sid
    ref_of deref write_back decrypt_cookie check_tag ask_sec_mod handle_sec_auth_session_open
    open_entry open_completed open_accounting grant_session send_open_reply cookie_expired
    cookie_matches deny send_failed_session_open_reply handle_cookie_auth_res finish_auth
    handle_script_exit cookie_auth_reply fill_reply accept_user check_multiple_users count_same
    steal_ip_leases run
run-reply_ok = refl

serve_cookie-IsAuthorized_example :
    (c : Cookie) × (e : ClientEntry Ctx) × (decrypt_cookie plain_gcm one_packing [] test_bytes
      ≡ some c)
    × IsAuthorized ht config env as_config (entry ∷ []) c.sid test_bytes e
serve_cookie-IsAuthorized_example =
    serve_cookie-IsAuthorized ht config env as_config ips ids sids (entry ∷ []) test_world
      test_accept test_bytes new_proc (old_proc ∷ []) used_tables run.0 run.1 run.2
      (fields_or no_fields run.0.reply) run_is run-reply_ok
