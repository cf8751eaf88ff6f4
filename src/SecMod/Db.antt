-- ===== src/SecMod/Db.antt =====
-- sec-mod-db.c, and `sec_auth_user_deinit` of sec-mod-auth.c: the entries of the sessions, found by
-- their SID.
use my_vps_config.Base.{
  ℕ, zero, suc, ◌+◌, ◌-◌, ltb, ◌==◌, Bool, false, ◌&&◌, if◌then◌else◌, Option, none, some, List, [],
  ◌∷◌, ◌++◌, Bytes, strlcpy, replicate,
}
use my_vps_config.Htable.{Htable}
use my_vps_config.Htable.Sweep.{sweep}
use my_vps_config.SecMod.Types.{
  ClientEntry, AuthStatus, SecConfig, Event, close_session, auth_deinit, Env, Stats, sid_key,
}

-- AUTH_SLACK_TIME
abbrev pub auth_slack_time : ℕ
auth_slack_time = 10

abbrev pub no_stats : Stats
no_stats = record { bytes_in = 0; bytes_out = 0; uptime = 0 }

-- `talloc_zero`, and the fields that `new_client_entry` sets.
unfoldable pub zero_entry : {Ctx : Type 0} → Env → Bytes → Bytes → ClientEntry Ctx
zero_entry env ip sid = record {
  sid = sid;
  auth_ctx = none;
  session_is_open = false;
  in_use = 0;
  tls_auth_ok = false;
  msg_str = none;
  saved_stats = no_stats;
  stats = no_stats;
  status = AuthStatus.inactive;
  hostname = [];
  cookie = [];
  dtls_session_id = replicate 32 0;
  time = some env.now;
  auth_type = 0;
  auth_info = record {
    username = [];
    groupname = [];
    psid = env.base64 sid;
    remote_ip = strlcpy 46 ip;
    ipv4 = [];
    ipv6 = [];
  };
  auth_module = none;
}

module _ {Ctx : Type 0} (ht : Htable (ClientEntry Ctx) sid_key) where
  open ht use {Table, get, add, del, items}

  -- The loop that draws a SID: `more` is how often it may still repeat, `i` counts the calls of
  -- `gnutls_rnd`. `none` is a failure of the generator, or a SID in use at the last attempt.
  unfoldable pub draw_sid : Env → Table → ℕ → ℕ → Option Bytes
  draw_sid env t zero i = elim (env.rnd i) [
    | none ↦ none
    | some sid ↦ elim (get sid t) [ none ↦ some sid | some other ↦ none ]
  ]
  draw_sid env t (suc more) i =
      let again = draw_sid env t more (i + 1) in
      elim (env.rnd i) [
        | none ↦ none
        | some sid ↦ elim (get sid t) [ none ↦ some sid | some other ↦ again ]
      ]

  -- With `retries = 3` the condition `retries-- >= 0` lets the loop repeat four times.
  unfoldable pub new_client_entry : Env → Bytes → Table → Option (ClientEntry Ctx × Table)
  new_client_entry env ip t =
      if env.mem
      then elim (draw_sid env t 4 0) [
        | none ↦ none
        | some sid ↦ elim (add (zero_entry env ip sid) t) [
          | none ↦ none
          | some t' ↦ some (zero_entry env ip sid, t')
        ]
      ]
      else none

module _ {Ctx : Type 0} where
  -- `sec_auth_user_deinit`
  unfoldable pub sec_auth_user_deinit :
      SecConfig Ctx → ClientEntry Ctx → ClientEntry Ctx × List Event
  sec_auth_user_deinit cfg e = elim e.auth_module [
    | none ↦ (e, [])
    | some m ↦ elim e.auth_ctx [
      | none ↦ (e, [])
      | some ctx ↦
          let closes = elim cfg.acct as (λ _. Bool) [
            | none ↦ false
            | some a ↦ a.close_session && e.session_is_open
          ] in
          (
            record e { auth_ctx = none },
            (if closes then close_session e.auth_info e.saved_stats ∷ [] else [])
                ++ auth_deinit ∷ [],
          )
    ]
  ]

  -- The condition of `cleanup_client_entries`: not in a session, and its cookie's time is over.
  unfoldable pub is_expired : Env → SecConfig Ctx → ClientEntry Ctx → Bool
  is_expired env cfg e = elim e.time [
    | none ↦ false
    | some time ↦ ltb (cfg.cookie_timeout + auth_slack_time) (env.now - time) && e.in_use == 0
  ]

  unfoldable pub clean_entries : Env → SecConfig Ctx → List (ClientEntry Ctx) → List Event
  clean_entries env cfg [] = []
  clean_entries env cfg (e ∷ es) =
      (if is_expired env cfg e then (sec_auth_user_deinit cfg e).1 else [])
      ++ clean_entries env cfg es

  -- `expire_client_entry`
  unfoldable pub expire_client_entry : Env → ClientEntry Ctx → ClientEntry Ctx
  expire_client_entry env e =
      let left = if ltb 0 e.in_use then e.in_use - 1 else e.in_use in
      record e { in_use = left; time = if left == 0 then some env.now else e.time }

module _ {Ctx : Type 0} (ht : Htable (ClientEntry Ctx) sid_key) where
  open ht use {Table, del, items}

  unfoldable pub cleanup_client_entries : Env → SecConfig Ctx → Table → Table × List Event
  cleanup_client_entries env cfg t =
      (sweep ht (is_expired env cfg) (items t) t, clean_entries env cfg (items t))

  unfoldable pub del_client_entry : SecConfig Ctx → ClientEntry Ctx → Table → Table × List Event
  del_client_entry cfg e t = (del e.sid t, (sec_auth_user_deinit cfg e).1)
