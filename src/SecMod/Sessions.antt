-- ===== src/SecMod/Sessions.antt =====
-- When a session is opened, when the process crashes instead, and what closing one counts.
use my_vps_config.Base.{
  ℕ, ◌+◌, ◌^◌, ◌≤◌, ◌<◌, max, ◌≡◌, ◌≢◌, ap, inl, inr, Bool, true, false, ◌||◌, Option, none, some,
  List, [], ◌∷◌, Bytes, arith, Option-cases, bytes_eq→eq,
}
use my_vps_config.Base.Int.{is_neg, success}
use my_vps_config.SecMod.Types.{
  ClientEntry, AuthStatus, AcctModule, SecConfig, Event, reply, ban_ip, session_stats,
  close_session, auth_deinit, Env, Step, auth_ok, auth_failed, auth_msg, session_ok, session_failed,
  cli_stats, AuthSession,
}
use my_vps_config.SecMod.Db.{no_stats}
use my_vps_config.SecMod.Session.{
  done, null_dereference, deny, cookie_expired, cookie_matches, open_entry, close_entry, raise,
}

abbrev pub is_session_ok : Event → Bool
is_session_ok (reply (auth_ok c u m s d)) = false
is_session_ok (reply auth_failed) = false
is_session_ok (reply (auth_msg m s)) = false
is_session_ok (reply (session_ok c)) = true
is_session_ok (reply session_failed) = false
is_session_ok (reply (cli_stats i o)) = false
is_session_ok (ban_ip ip n) = false
is_session_ok (session_stats i s) = false
is_session_ok (close_session i s) = false
is_session_ok auth_deinit = false

-- A reply that opens a session is among the messages.
abbrev pub grants : List Event → Bool
grants [] = false
grants (e ∷ es) = is_session_ok e || grants es

raise-max : (old n : ℕ) → raise old (some n) ≡ max old n
raise-max old n = ground arith

module _ {Ctx : Type 0} (env : Env) (cfg : SecConfig Ctx) where
  deny-grants : (e : ClientEntry Ctx) → grants (deny env cfg e).events ≡ false
  unfolding deny
  deny-grants e = ground arith

  -- The cookie of the entry is still valid.
  abbrev pub IsFresh : ClientEntry Ctx → Type 0
  IsFresh e = (time : ℕ) → e.time ≡ some time → env.now ≤ time + cfg.cookie_timeout

  not-cookie_expired : (e : ClientEntry Ctx) → cookie_expired env cfg e ≡ false → IsFresh e
  unfolding cookie_expired
  not-cookie_expired e h time et = ground arith

  cookie_matches-eq :
      (e : ClientEntry Ctx) (c : Option Bytes)
      → cookie_matches env cfg e c ≡ true
      → c ≡ some e.cookie
  unfolding cookie_matches
  cookie_matches-eq e none h = cc
  cookie_matches-eq e (some c) h = ap some (bytes_eq→eq c e.cookie h)

  granting-entry :
      (e : ClientEntry Ctx) (c : Option Bytes) (s : Step Ctx)
      → open_entry env cfg e c ≡ done s
      → grants s.events ≡ true
      → (e.status ≡ AuthStatus.completed)
        × (cookie_expired env cfg e ≡ false)
        × (cookie_matches env cfg e c ≡ true)
  unfolding open_entry
  granting-entry e c s h g =
      ground (arith, deny-grants e, deny-grants (record e { status = AuthStatus.failed }))

  -- A session is opened only for a client that completed its authentication, within the time of its
  -- cookie (or while it has a session), and on presentation of that very cookie.
  pub open_entry-grants :
      (e : ClientEntry Ctx) (c : Option Bytes) (s : Step Ctx)
      → open_entry env cfg e c ≡ done s
      → grants s.events ≡ true
      → (e.status ≡ AuthStatus.completed) × IsFresh e × (c ≡ some e.cookie)
  open_entry-grants e c s h g =
      let w = granting-entry e c s h g in (w.0, not-cookie_expired e w.1, cookie_matches-eq e c w.2)

  -- With an accounting module that counts sessions, the first session of a completed client that
  -- has no authentication module, opened with its cookie in time, follows a null pointer.
  open_entry-null_dereference :
      (e : ClientEntry Ctx) (acct : AcctModule Ctx) (c : Option Bytes)
      → e.status ≡ AuthStatus.completed
      → cookie_expired env cfg e ≡ false
      → cookie_matches env cfg e c ≡ true
      → e.auth_module ≡ none
      → cfg.acct ≡ some acct
      → acct.open_session ≢ none
      → e.session_is_open ≡ false
      → open_entry env cfg e c ≡ null_dereference
  unfolding open_entry
  open_entry-null_dereference e acct c completed early match bare has counts first =
      elim (Option-cases acct.open_session) [
        | inl no_function ↦ absurd (counts no_function)
        | inr (f, present) ↦ ground arith
      ]

  -- Closing a completed client's session, with all statistics given, sent and below 2 ^ 64: what
  -- was counted, or what main reports if that is more, is added to the saved statistics and
  -- reported to main, and the counting starts anew.
  pub close_entry-stats :
      (e : ClientEntry Ctx) (req : AuthSession) (i o u : ℕ)
      → e.status ≡ AuthStatus.completed
      → req.bytes_in ≡ some i
      → req.bytes_out ≡ some o
      → req.uptime ≡ some u
      → is_neg (env.send (cli_stats (max e.stats.bytes_in i) (max e.stats.bytes_out o))) ≡ false
      → e.saved_stats.bytes_in + max e.stats.bytes_in i < 2 ^ 64
      → e.saved_stats.bytes_out + max e.stats.bytes_out o < 2 ^ 64
      → e.saved_stats.uptime + max e.stats.uptime u < 2 ^ 64
      → let s = close_entry env cfg e req in
        (s.events ≡ reply (cli_stats (max e.stats.bytes_in i) (max e.stats.bytes_out o)) ∷ [])
        × (s.ret ≡ success)
        × (s.entry.saved_stats.bytes_in ≡ e.saved_stats.bytes_in + max e.stats.bytes_in i)
        × (s.entry.saved_stats.bytes_out ≡ e.saved_stats.bytes_out + max e.stats.bytes_out o)
        × (s.entry.saved_stats.uptime ≡ e.saved_stats.uptime + max e.stats.uptime u)
        × (s.entry.stats ≡ no_stats)
  unfolding close_entry
  close_entry-stats e req i o u st qi qo qu sent wi wo wu = ground (
    arith,
    raise-max e.stats.bytes_in i,
    raise-max e.stats.bytes_out o,
    raise-max e.stats.uptime u,
  )
