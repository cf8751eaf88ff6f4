-- ===== src/SecMod/Serve.antt =====
-- ocserv/Ocserv/src/sec-mod.c: the dispatch of the requests, decoded, and the maintenance.
use my_vps_config.Base.{Bool, List, [], ◌∷◌, ◌++◌}
use my_vps_config.Base.Int.{ℤ, success}
use my_vps_config.Htable.{Htable}
use my_vps_config.SecMod.Types.{
  ClientEntry, SecConfig, Event, Env, AuthInit, AuthCont, AuthSession, CliStats, sid_key,
}
use my_vps_config.SecMod.Db.{cleanup_client_entries}
use my_vps_config.SecMod.Login.{handle_sec_auth_init, handle_sec_auth_cont}
use my_vps_config.SecMod.Session.{
  Outcome, done, null_dereference, handle_sec_auth_session_cmd, handle_sec_auth_stats_cmd,
}

-- The commands that touch the clients. `session true` is SM_CMD_AUTH_SESSION_OPEN, `session false`
-- SM_CMD_AUTH_SESSION_CLOSE; `maintenance` is the alarm that `check_other_work` serves.
pub data Command : Type 0 where
  auth_init : AuthInit → Command
  auth_cont : AuthCont → Command
  session : Bool → AuthSession → Command
  stats : CliStats → Command
  maintenance : Command

module _ {Ctx : Type 0} (ht : Htable (ClientEntry Ctx) sid_key) (cfg : SecConfig Ctx) where
  open ht use {Table}

  unfoldable pub serve : Env → Command → Table → Outcome (Table × ℤ × List Event)
  serve env (auth_init req) t = done (handle_sec_auth_init ht cfg env req t)
  serve env (auth_cont req) t = done (handle_sec_auth_cont ht cfg env req t)
  serve env (session opens req) t = handle_sec_auth_session_cmd ht cfg env req opens t
  serve env (stats req) t = handle_sec_auth_stats_cmd ht cfg env req t
  serve env maintenance t = let r = cleanup_client_entries ht env cfg t in done (r.0, success, r.1)

  -- A sequence of commands, each in its own world, and all that it sends.
  unfoldable pub serve_all : List (Env × Command) → Table → Outcome (Table × List Event)
  serve_all [] t = done (t, [])
  serve_all ((env, c) ∷ cs) t = elim (serve env c t) [
    | null_dereference ↦ null_dereference
    | done (t', ret, events) ↦ elim (serve_all cs t') [
      | null_dereference ↦ null_dereference
      | done (t'', later) ↦ done (t'', events ++ later)
    ]
  ]
