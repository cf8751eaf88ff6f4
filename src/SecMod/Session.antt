-- ===== src/SecMod/Session.antt =====
-- sec-mod-auth.c: sessions that main opens and closes, and their statistics. A counter of bytes or
-- seconds has 64 bits, `in_use` has 32.
use my_vps_config.Base.{
  ◌≡◌, ◌⊎◌, inl, inr, refl, ℕ, ◌+◌, ◌%◌, ◌^◌, ltb, ◌==◌, Bool, true, false, if◌then◌else◌, Option,
  none, some, List, [], ◌∷◌, Bytes, bytes_eq, strlcpy, length,
}
use my_vps_config.Base.Int.{ℤ, success, failure, is_neg, err_bad_command}
use my_vps_config.Htable.{Htable}
use my_vps_config.SecMod.Types.{
  ClientEntry, AuthStatus, AuthInfo, Stats, SecConfig, Event, reply, session_stats, session_ok,
  cli_stats, Env, Step, AuthSession, CliStats, sid_key,
}
use my_vps_config.SecMod.Db.{expire_client_entry, no_stats}
use my_vps_config.SecMod.Reply.{send_failed_session_open_reply, set_status}
use my_vps_config.SecMod.Login.{sid_size}

-- A handler ends, or follows a null pointer and takes the process down.
pub data Outcome (A : Type 0) : Type 0 where
  done : A → Outcome A
  null_dereference : Outcome A

abbrev pub map_outcome : {A B : Type 0} → (A → B) → Outcome A → Outcome B
map_outcome f (done a) = done (f a)
map_outcome f null_dereference = null_dereference

pub Outcome-cases : {A : Type 0} (o : Outcome A) → (o ≡ null_dereference) ⊎ ((a : A) × (o ≡ done a))
Outcome-cases (done a) = inr (a, refl)
Outcome-cases null_dereference = inl refl

-- `stats_add_to`
unfoldable pub stats_add : Stats → Stats → Stats
stats_add a b = record {
  bytes_in = (a.bytes_in + b.bytes_in) % 2 ^ 64;
  bytes_out = (a.bytes_out + b.bytes_out) % 2 ^ 64;
  uptime = (a.uptime + b.uptime) % 2 ^ 64;
}

-- `if (has_n && n > old) old = n`
abbrev pub raise : ℕ → Option ℕ → ℕ
raise old none = old
raise old (some n) = if ltb old n then n else old

module _ {Ctx : Type 0} (env : Env) (cfg : SecConfig Ctx) where
  -- The session is refused; the entry is as given.
  unfoldable pub deny : ClientEntry Ctx → Step Ctx
  unfolding send_failed_session_open_reply
  deny e =
      let r = send_failed_session_open_reply env cfg in
      record { entry = e; ret = r.0; events = r.1 }

  -- The reply that opens the session.
  unfoldable pub send_open_reply : ClientEntry Ctx → Bytes → Step Ctx
  send_open_reply e config =
      if is_neg (env.send (session_ok config))
      then record { entry = e; ret = err_bad_command; events = reply (session_ok config) ∷ [] }
      else record {
        entry = record e { time = none; in_use = (e.in_use + 1) % 2 ^ 32 };
        ret = success;
        events = reply (session_ok config) ∷ [];
      }

  -- From `rep.reply = AUTH__REP__OK` on.
  unfoldable pub grant_session : ClientEntry Ctx → Step Ctx
  unfolding deny send_open_reply
  grant_session e =
      if env.mem
      then elim cfg.get_sup_config [
        | none ↦ send_open_reply e []
        | some get ↦ if is_neg (get e).0 then deny e else send_open_reply e (get e).1
      ]
      else record { entry = e; ret = err_bad_command; events = [] }

  abbrev pub account : ClientEntry Ctx → ℤ → Step Ctx
  account e ret =
      if is_neg ret
      then deny (set_status AuthStatus.failed e)
      else grant_session (record e { session_is_open = true })

  -- The accounting module's `open_session` is given `e->module->type`.
  unfoldable pub open_accounting : ClientEntry Ctx → Outcome (Step Ctx)
  unfolding grant_session deny
  open_accounting e = elim cfg.acct [
    | none ↦ done (grant_session e)
    | some acct ↦ elim acct.open_session [
      | none ↦ done (grant_session e)
      | some open_session ↦
          if e.session_is_open then done (grant_session e) else elim e.auth_module [
            | none ↦ null_dereference
            | some m ↦ done (account e (open_session m.kind e.auth_ctx e.auth_info e.sid))
          ]
    ]
  ]

  -- `e->time != -1 && time(0) > e->time + cookie_timeout`
  unfoldable pub cookie_expired : ClientEntry Ctx → Bool
  cookie_expired e = elim e.time [
    | none ↦ false
    | some time ↦ ltb (time + cfg.cookie_timeout) env.now
  ]

  unfoldable pub cookie_matches : ClientEntry Ctx → Option Bytes → Bool
  cookie_matches e cookie = elim cookie [ none ↦ false | some c ↦ bytes_eq c e.cookie ]

  unfoldable pub open_completed : ClientEntry Ctx → Option Bytes → Outcome (Step Ctx)
  unfolding open_accounting cookie_expired cookie_matches deny
  open_completed e cookie =
      if cookie_expired e
      then done (deny (set_status AuthStatus.failed e))
      else (if cookie_matches e cookie
          then open_accounting e
          else done (deny (set_status AuthStatus.failed e)))

  -- `handle_sec_auth_session_open` on the entry that it found.
  unfoldable pub open_entry : ClientEntry Ctx → Option Bytes → Outcome (Step Ctx)
  unfolding open_completed
  open_entry e cookie = elim e.status [
    | AuthStatus.completed ↦ open_completed e cookie
    | _ ↦ done (deny e)
  ]

  abbrev pub raised : Stats → AuthSession → Stats
  raised s req = record {
    bytes_in = raise s.bytes_in req.bytes_in;
    bytes_out = raise s.bytes_out req.bytes_out;
    uptime = raise s.uptime req.uptime;
  }

  -- The statistics are reported, added to the saved ones and cleared.
  unfoldable pub close_completed : ClientEntry Ctx → AuthSession → Step Ctx
  unfolding stats_add expire_client_entry
  close_completed e req =
      let stats = raised e.stats req in
      let r = cli_stats stats.bytes_in stats.bytes_out in
      if is_neg (env.send r)
      then record {
        entry = record e { stats = stats };
        ret = err_bad_command;
        events = reply r ∷ [];
      }
      else record {
        entry =
            expire_client_entry env
              (record e { saved_stats = stats_add e.saved_stats stats; stats = no_stats });
        ret = success;
        events = reply r ∷ [];
      }

  -- `handle_sec_auth_session_close` on the entry that it found.
  unfoldable pub close_entry : ClientEntry Ctx → AuthSession → Step Ctx
  unfolding close_completed
  close_entry e req = elim e.status [
    | AuthStatus.completed ↦ close_completed e req
    | _ ↦ record { entry = e; ret = env.send (cli_stats 0 0); events = reply (cli_stats 0 0) ∷ [] }
  ]

  abbrev pub updated : Bytes → Option Bytes → Bytes
  updated old none = old
  updated old (some ip) = strlcpy 46 ip

  abbrev pub sends_stats : Bool
  sends_stats = elim cfg.acct as (λ _. Bool) [ none ↦ false | some a ↦ a.session_stats ]

  -- `handle_sec_auth_stats_cmd` on an entry with status PS_AUTH_COMPLETED.
  unfoldable pub stats_completed : ClientEntry Ctx → CliStats → Outcome (Step Ctx)
  unfolding stats_add
  stats_completed e req =
      let stats : Stats = record {
        bytes_in = raise e.stats.bytes_in (some req.bytes_in);
        bytes_out = raise e.stats.bytes_out (some req.bytes_out);
        uptime = raise e.stats.uptime (some req.uptime);
      } in
      let info : AuthInfo = record (e.auth_info) {
        remote_ip = updated e.auth_info.remote_ip req.remote_ip;
        ipv4 = updated e.auth_info.ipv4 req.ipv4;
        ipv6 = updated e.auth_info.ipv6 req.ipv6;
      } in
      if sends_stats
      then elim e.auth_module [
        | none ↦ null_dereference
        | some m ↦ done (record {
          entry = record e { stats = stats; auth_info = info };
          ret = success;
          events = session_stats info (stats_add stats e.saved_stats) ∷ [];
        })
      ]
      else done (record { entry = record e { stats = stats }; ret = success; events = [] })

  unfoldable pub stats_entry : ClientEntry Ctx → CliStats → Outcome (Step Ctx)
  unfolding stats_completed
  stats_entry e req = elim e.status [
    | AuthStatus.completed ↦ stats_completed e req
    | _ ↦ done (record { entry = e; ret = failure; events = [] })
  ]

module _ {Ctx : Type 0} (ht : Htable (ClientEntry Ctx) sid_key) (cfg : SecConfig Ctx)
    (env : Env) where
  open ht use {Table, get, write}

  -- The table, the return code and the events.
  abbrev pub Handled : Type 0
  Handled = Table × ℤ × List Event

  abbrev pub store : Table → Step Ctx → Handled
  store t s = (write s.entry t, s.ret, s.events)

  unfoldable pub handle_sec_auth_session_open : AuthSession → Table → Outcome Handled
  unfolding send_failed_session_open_reply
  handle_sec_auth_session_open req t =
      let refused = send_failed_session_open_reply env cfg in
      if length req.sid == sid_size
      then elim (get req.sid t) [
        | none ↦ done (t, refused.0, refused.1)
        | some e ↦ map_outcome (store t) (open_entry env cfg e req.cookie)
      ]
      else done (t, refused.0, refused.1)

  unfoldable pub handle_sec_auth_session_close : AuthSession → Table → Handled
  handle_sec_auth_session_close req t =
      if length req.sid == sid_size
      then elim (get req.sid t) [
        | none ↦ (t, env.send (cli_stats 0 0), reply (cli_stats 0 0) ∷ [])
        | some e ↦ store t (close_entry env cfg e req)
      ]
      else (t, err_bad_command, [])

  -- The last argument is `cmd == SM_CMD_AUTH_SESSION_OPEN`.
  unfoldable pub handle_sec_auth_session_cmd : AuthSession → Bool → Table → Outcome Handled
  handle_sec_auth_session_cmd req opens t =
      if opens
      then handle_sec_auth_session_open req t
      else done (handle_sec_auth_session_close req t)

  unfoldable pub handle_sec_auth_stats_cmd : CliStats → Table → Outcome Handled
  handle_sec_auth_stats_cmd req t =
      if length req.sid == sid_size
      then elim (get req.sid t) [
        | none ↦ done (t, failure, [])
        | some e ↦ map_outcome (store t) (stats_entry env cfg e req)
      ]
      else done (t, failure, [])
