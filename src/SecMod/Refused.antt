-- ===== src/SecMod/Refused.antt =====
-- sec-mod-auth.c: what a failed client is answered.
use my_vps_config.Base.{ℕ, ◌≡◌, Bool, true, false, ◌||◌, Option, List, [], ◌∷◌, ◌++◌, Bytes, arith}
use my_vps_config.Base.Int.{failure}
use my_vps_config.SecMod.Types.{
  ClientEntry, AuthStatus, SecConfig, Event, reply, ban_ip, session_stats, close_session,
  auth_deinit, Env, Step, auth_ok, auth_failed, auth_msg, session_ok, session_failed, cli_stats,
  AuthSession, CliStats,
}
use my_vps_config.SecMod.Reply.{
  handle_sec_auth_res, send_sec_auth_reply, set_status, sec_mod_add_score_to_ip,
  send_failed_session_open_reply,
}
use my_vps_config.SecMod.Login.{cont_entry}
use my_vps_config.SecMod.Session.{done, deny, open_entry, close_entry, stats_entry}

-- A reply with a cookie, or one that opens a session.
abbrev pub is_positive : Event → Bool
is_positive (reply (auth_ok c u m s d)) = true
is_positive (reply auth_failed) = false
is_positive (reply (auth_msg m s)) = false
is_positive (reply (session_ok c)) = true
is_positive (reply session_failed) = false
is_positive (reply (cli_stats i o)) = false
is_positive (ban_ip ip n) = false
is_positive (session_stats i s) = false
is_positive (close_session i s) = false
is_positive auth_deinit = false

abbrev pub any_positive : List Event → Bool
any_positive [] = false
any_positive (e ∷ es) = is_positive e || any_positive es

pub any_positive-append :
    (xs ys : List Event)
    → any_positive xs ≡ false
    → any_positive ys ≡ false
    → any_positive (xs ++ ys) ≡ false
any_positive-append [] ys hx hy = hy
any_positive-append (x ∷ xs) ys hx hy =
    let rest = any_positive-append xs ys (ground arith) hy in ground arith

module _ {Ctx : Type 0} (env : Env) (cfg : SecConfig Ctx) where
  -- The client is failed, and got no positive reply.
  abbrev pub Refuses : Step Ctx → Type 0
  Refuses s = (s.entry.status ≡ AuthStatus.failed) × (any_positive s.events ≡ false)

  score-any_positive :
      (ip : Bytes) (points : ℕ) → any_positive (sec_mod_add_score_to_ip env cfg ip points).1 ≡ false
  unfolding sec_mod_add_score_to_ip
  score-any_positive ip points = ground arith

  pub res-Refuses : (e : ClientEntry Ctx) → Refuses (handle_sec_auth_res env cfg e failure)
  unfolding handle_sec_auth_res send_sec_auth_reply
  res-Refuses e = (
    ground arith,
    any_positive-append
        (sec_mod_add_score_to_ip env cfg e.auth_info.remote_ip cfg.ban_points_wrong_password).1
        (send_sec_auth_reply env cfg (set_status AuthStatus.failed e) false).events
        (score-any_positive e.auth_info.remote_ip cfg.ban_points_wrong_password) (ground arith),
  )

  pub cont_entry-failed :
      (e : ClientEntry Ctx) (p : Option Bytes)
      → e.status ≡ AuthStatus.failed
      → cont_entry cfg e p ≡ (e, failure)
  unfolding cont_entry
  cont_entry-failed e p h = ground arith

  pub refusal-any_positive : any_positive (send_failed_session_open_reply env cfg).1 ≡ false
  unfolding send_failed_session_open_reply
  refusal-any_positive = ground arith

  pub deny-Refuses : (e : ClientEntry Ctx) → e.status ≡ AuthStatus.failed → Refuses (deny env cfg e)
  unfolding deny
  deny-Refuses e h = (h, ground arith)

  pub open_entry-failed :
      (e : ClientEntry Ctx) (c : Option Bytes)
      → e.status ≡ AuthStatus.failed
      → open_entry env cfg e c ≡ done (deny env cfg e)
  unfolding open_entry
  open_entry-failed e c h = ground arith

  pub close_entry-Refuses :
      (e : ClientEntry Ctx) (q : AuthSession)
      → e.status ≡ AuthStatus.failed
      → Refuses (close_entry env cfg e q)
  unfolding close_entry
  close_entry-Refuses e q h = (ground arith, ground arith)

  pub stats_entry-Refuses :
      (e : ClientEntry Ctx) (q : CliStats) (s : Step Ctx)
      → e.status ≡ AuthStatus.failed
      → stats_entry env cfg e q ≡ done s
      → Refuses s
  unfolding stats_entry
  stats_entry-Refuses e q s h ran = (ground arith, ground arith)
