-- ===== src/Together.antt =====
-- The main process (Main) with the security module (SecMod) at the other end of `sec_mod_fd`.
pub mod Authorized
pub mod Banned
pub mod BanTests
pub mod Tests
use my_vps_config.Base.{
  ℕ, Bool, true, false, if◌then◌else◌, Option, none, some, List, [], ◌∷◌, Bytes,
}
use my_vps_config.Base.Int.{is_neg}
use my_vps_config.Htable.{Htable}
use my_vps_config.SecMod.Types.{
  ClientEntry, sid_key, SecConfig, Env, Event, reply, ban_ip, session_stats, close_session,
  auth_deinit, Reply, auth_ok, auth_failed, auth_msg, session_ok, session_failed, cli_stats,
  AuthSession,
}
use my_vps_config.SecMod.Session.{done, null_dereference, handle_sec_auth_session_open}
use my_vps_config.Main.Session.{SessionReply, Answer, no_reply, replied}

-- `config` unpacks the configuration that a positive reply carries.
module _ {Ctx : Type 0} (ht : Htable (ClientEntry Ctx) sid_key) (cfg : SecConfig Ctx) (env : Env)
    (config : Bytes → SessionReply) where
  -- A message as SecAuthSessionReplyMsg; the others are none.
  abbrev pub session_reply : Reply → Option SessionReply
  session_reply (session_ok c) = some (record (config c) { is_ok = true })
  session_reply session_failed = some (record (config []) { is_ok = false })
  session_reply (auth_ok c u m s d) = none
  session_reply auth_failed = none
  session_reply (auth_msg m s) = none
  session_reply (cli_stats i o) = none

  abbrev pub reply_event : Event → Option SessionReply
  reply_event (reply r) = if is_neg (env.send r) then none else session_reply r
  reply_event (ban_ip ip n) = none
  reply_event (session_stats a s) = none
  reply_event (close_session a s) = none
  reply_event auth_deinit = none

  -- What main receives: the first reply that was sent.
  abbrev pub first_reply : List Event → Answer SessionReply
  first_reply [] = no_reply 0
  first_reply (e ∷ es) = elim (reply_event e) [ none ↦ first_reply es | some m ↦ replied m ]

  -- `session_open` of main is answered by `handle_sec_auth_session_open`; a crash closes the
  -- socket.
  unfoldable pub ask_sec_mod : ht.Table → AuthSession → Answer SessionReply
  ask_sec_mod t req = elim (handle_sec_auth_session_open ht cfg env req t) [
    | null_dereference ↦ no_reply 0
    | done h ↦ first_reply (h.2)
  ]
