-- ===== src/SecMod/Reply.antt =====
-- sec-mod-auth.c: points, cookies and replies, and what follows the result of a module.
use my_vps_config.Base.{
  ℕ, ◌+◌, ◌==◌, Bool, true, false, ◌||◌, if◌then◌else◌, Option, none, some, List, [], ◌∷◌, ◌++◌,
  Bytes,
}
use my_vps_config.Base.Int.{ℤ, success, failure, is_neg, is_zero, is_auth_continue, err_bad_command}
use my_vps_config.SecMod.Types.{
  ClientEntry, AuthStatus, SecConfig, Reply, auth_ok, auth_failed, auth_msg, no_memory, send_error,
  recv_error, answered, Event, reply, ban_ip, Env, Step, session_failed,
}

module _ {Ctx : Type 0} where
  -- The module's message for the user; a client with no module has none.
  unfoldable pub ask_module : ClientEntry Ctx → ClientEntry Ctx × ℤ
  ask_module e = elim e.auth_module [
    | none ↦ (e, success)
    | some m ↦ (
      record e { msg_str = (m.auth_msg e.auth_ctx).1; auth_ctx = (m.auth_msg e.auth_ctx).2 },
      (m.auth_msg e.auth_ctx).0,
    )
  ]

  abbrev pub set_status : AuthStatus → ClientEntry Ctx → ClientEntry Ctx
  set_status s e = record e { status = s }

  abbrev pub after : List Event → Step Ctx → Step Ctx
  after earlier s = record s { events = earlier ++ s.events }

  -- A negative result of the reply fails the client.
  abbrev pub fail_if_neg : Step Ctx → Step Ctx
  fail_if_neg s =
      if is_neg s.ret
      then record s { entry = set_status AuthStatus.failed s.entry }
      else record s { ret = success }

  -- Whether a further password costs points: not for the first question.
  unfoldable pub is_retry : ClientEntry Ctx → Bool
  is_retry e = elim e.status [
    | AuthStatus.init ↦ false
    | _ ↦ elim e.auth_module [ none ↦ false | some m ↦ m.allows_retries ]
  ]

  -- `auth_user` writes the name that the module knows the client by.
  unfoldable pub take_username : ClientEntry Ctx → ClientEntry Ctx
  take_username e = elim e.auth_module [
    | none ↦ e
    | some m ↦
        let r = m.auth_user e.auth_ctx e.auth_info.username in
        record e { auth_info = record (e.auth_info) { username = r.0 }; auth_ctx = r.1 }
  ]

module _ {Ctx : Type 0} (env : Env) (cfg : SecConfig Ctx) where
  -- Negative if the client's score is at the maximum, or main cannot be asked.
  unfoldable pub sec_mod_add_score_to_ip : Bytes → ℕ → ℤ × List Event
  sec_mod_add_score_to_ip ip points =
      if cfg.max_ban_score == 0 then (success, []) else elim (env.ban ip points) [
        | no_memory ↦ (success, [])
        | send_error ↦ (failure, ban_ip ip points ∷ [])
        | recv_error ↦ (failure, ban_ip ip points ∷ [])
        | answered ok ↦ (if ok then success else failure, ban_ip ip points ∷ [])
      ]

  unfoldable pub ipv4_seed : ClientEntry Ctx → Option ℕ
  ipv4_seed e = if cfg.predictable_ips then some (env.hash_any e.auth_info.username) else env.nonce

  -- The encrypted cookie, or `none` for a negative result.
  unfoldable pub generate_cookie : ClientEntry Ctx → Option Bytes
  unfolding ipv4_seed
  generate_cookie e = elim (ipv4_seed e) [
    | none ↦ none
    | some seed ↦ env.encrypt_cookie (record {
      username = e.auth_info.username;
      groupname = e.auth_info.groupname;
      hostname = e.hostname;
      ip = e.auth_info.remote_ip;
      tls_auth_ok = e.tls_auth_ok;
      ipv4_seed = seed;
      sid = e.sid;
      expiration = env.now + cfg.cookie_timeout;
    })
  ]

  -- `send_msg`, and the release of `msg_str` unless it failed.
  unfoldable pub send_final : ClientEntry Ctx → Reply → Step Ctx
  send_final e r =
      if is_neg (env.send r)
      then record { entry = e; ret = env.send r; events = reply r ∷ [] }
      else record { entry = record e { msg_str = none }; ret = success; events = reply r ∷ [] }

  unfoldable pub send_auth_ok : ClientEntry Ctx → Step Ctx
  unfolding send_final
  send_auth_ok e = elim (generate_cookie e) [
    | none ↦ record { entry = e; ret = failure; events = [] }
    | some cookie ↦
        send_final (record e { cookie = cookie })
          (auth_ok cookie e.auth_info.username e.msg_str e.sid e.dtls_session_id)
  ]

  -- The second argument is `r == AUTH__REP__OK`.
  unfoldable pub send_sec_auth_reply : ClientEntry Ctx → Bool → Step Ctx
  unfolding send_auth_ok send_final
  send_sec_auth_reply e ok = if ok then send_auth_ok e else send_final e auth_failed

  unfoldable pub send_sec_auth_reply_msg : ClientEntry Ctx → Step Ctx
  send_sec_auth_reply_msg e =
      let r = auth_msg e.msg_str e.sid in
      record { entry = record e { msg_str = none }; ret = env.send r; events = reply r ∷ [] }

  unfoldable pub ask_again : ClientEntry Ctx → Step Ctx
  unfolding send_sec_auth_reply_msg is_retry
  ask_again e =
      let ip = e.auth_info.remote_ip in
      if is_retry e
      then (let score = sec_mod_add_score_to_ip ip cfg.ban_points_wrong_password in
          if is_neg score.0
          then after score.1 (send_sec_auth_reply (set_status AuthStatus.failed e) false)
          else after score.1 (fail_if_neg (send_sec_auth_reply_msg e)))
      else fail_if_neg (send_sec_auth_reply_msg e)

  unfoldable pub accept : ClientEntry Ctx → Step Ctx
  unfolding take_username
  accept e =
      fail_if_neg (send_sec_auth_reply (take_username (set_status AuthStatus.completed e)) true)

  unfoldable pub reject : ClientEntry Ctx → ℤ → Step Ctx
  reject e result =
      let score = sec_mod_add_score_to_ip e.auth_info.remote_ip cfg.ban_points_wrong_password in
      let s = send_sec_auth_reply (set_status AuthStatus.failed e) false in
      after score.1 (record s {
        ret = if is_neg s.ret then s.ret else (if is_neg result then result else err_bad_command);
      })

  unfoldable pub decide : ClientEntry Ctx → ℤ → Step Ctx
  unfolding ask_again accept reject
  decide e result =
      if is_auth_continue result
      then ask_again e
      else (if is_zero result then accept e else reject e result)

  unfoldable pub handle_sec_auth_res : ClientEntry Ctx → ℤ → Step Ctx
  unfolding decide ask_module
  handle_sec_auth_res e result =
      if is_auth_continue result || is_zero result
      then (let asked = ask_module e in
          if is_neg asked.1
          then record { entry = set_status AuthStatus.failed asked.0; ret = asked.1; events = [] }
          else decide asked.0 result)
      else decide e result

  -- To main, for a session that is not opened.
  unfoldable pub send_failed_session_open_reply : ℤ × List Event
  send_failed_session_open_reply =
      if env.mem
      then (
        if is_neg (env.send session_failed) then err_bad_command else env.send session_failed,
        reply session_failed ∷ [],
      )
      else (err_bad_command, [])
