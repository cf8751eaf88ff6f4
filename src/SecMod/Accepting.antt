-- ===== src/SecMod/Accepting.antt =====
-- Who is authenticated: the replies that carry a cookie, and the status PS_AUTH_COMPLETED.
use my_vps_config.Base.{
  ℕ, ◌≡◌, length, ◌⊎◌, inl, inr, refl, ◌∙◌, bytes_eq_refl, Bool, true, false, ◌||◌, Option, none,
  some, List, [], ◌∷◌, ◌++◌, Bytes, arith, Option-cases,
}
use my_vps_config.Base.Int.{ℤ, is_zero, is_auth_continue}
use my_vps_config.SecMod.Types.{
  ClientEntry, AuthModule, AuthStatus, SecConfig, Event, reply, ban_ip, session_stats,
  close_session, auth_deinit, Env, Step, auth_ok, auth_failed, auth_msg, session_ok, session_failed,
  cli_stats, AuthCont, sid_key,
}
use my_vps_config.SecMod.Reply.{
  sec_mod_add_score_to_ip, send_sec_auth_reply, send_sec_auth_reply_msg, ask_module, set_status,
  after, fail_if_neg, ask_again, take_username, accept, reject, decide, handle_sec_auth_res,
}
use my_vps_config.SecMod.Login.{sid_size, cont_entry, handle_sec_auth_cont}
use my_vps_config.SecMod.Keeps.{get-write_other, sid-cont_entry, sid-handle_sec_auth_res}
use my_vps_config.Htable.{Htable}

abbrev pub is_auth_ok : Event → Bool
is_auth_ok (reply (auth_ok c u m s d)) = true
is_auth_ok (reply auth_failed) = false
is_auth_ok (reply (auth_msg m s)) = false
is_auth_ok (reply (session_ok c)) = false
is_auth_ok (reply session_failed) = false
is_auth_ok (reply (cli_stats i o)) = false
is_auth_ok (ban_ip ip n) = false
is_auth_ok (session_stats i s) = false
is_auth_ok (close_session i s) = false
is_auth_ok auth_deinit = false

-- A reply with a cookie is among the messages.
abbrev pub accepts : List Event → Bool
accepts [] = false
accepts (e ∷ es) = is_auth_ok e || accepts es

accepts-append : (xs ys : List Event) → accepts (xs ++ ys) ≡ (accepts xs || accepts ys)
accepts-append [] ys = refl
accepts-append (x ∷ xs) ys = ground (arith, accepts-append xs ys)

module _ {Ctx : Type 0} (env : Env) (cfg : SecConfig Ctx) where
  accepts-score : (ip : Bytes) (n : ℕ) → accepts (sec_mod_add_score_to_ip env cfg ip n).1 ≡ false
  unfolding sec_mod_add_score_to_ip
  accepts-score ip n = ground arith

  accepts-send_failed :
      (e : ClientEntry Ctx) → accepts (send_sec_auth_reply env cfg e false).events ≡ false
  unfolding send_sec_auth_reply
  accepts-send_failed e = ground arith

  accepts-send_msg :
      (e : ClientEntry Ctx) → accepts (send_sec_auth_reply_msg env cfg e).events ≡ false
  unfolding send_sec_auth_reply_msg
  accepts-send_msg e = refl

  accepts-fail_if_neg : (s : Step Ctx) → accepts (fail_if_neg s).events ≡ accepts s.events
  accepts-fail_if_neg s = ground arith

  accepts-score_then :
      (ip : Bytes) (n : ℕ) (es : List Event)
      → accepts ((sec_mod_add_score_to_ip env cfg ip n).1 ++ es) ≡ accepts es
  accepts-score_then ip n es = rw (accepts-append, accepts-score ip n)

  reject-accepts : (e : ClientEntry Ctx) (r : ℤ) → accepts (reject env cfg e r).events ≡ false
  unfolding reject
  reject-accepts e r = rw (accepts-score_then, accepts-send_failed)

  ask_again-accepts : (e : ClientEntry Ctx) → accepts (ask_again env cfg e).events ≡ false
  unfolding ask_again
  ask_again-accepts e = ground (
    arith,
    accepts-send_msg e,
    accepts-fail_if_neg (send_sec_auth_reply_msg env cfg e),
    accepts-score_then e.auth_info.remote_ip cfg.ban_points_wrong_password
        (send_sec_auth_reply env cfg (set_status AuthStatus.failed e) false).events,
    accepts-send_failed (set_status AuthStatus.failed e),
    accepts-score_then e.auth_info.remote_ip cfg.ban_points_wrong_password
        (fail_if_neg (send_sec_auth_reply_msg env cfg e)).events,
  )

  -- Only a result of 0 leads to a reply with a cookie.
  pub handle_sec_auth_res-accepts :
      (e : ClientEntry Ctx) (result : ℤ)
      → accepts (handle_sec_auth_res env cfg e result).events ≡ true
      → is_zero result ≡ true
  unfolding handle_sec_auth_res decide
  handle_sec_auth_res-accepts e result h = ground (
    arith,
    ask_again-accepts (ask_module e).0,
    ask_again-accepts e,
    reject-accepts (ask_module e).0 result,
    reject-accepts e result,
  )

  status-send_failed :
      (e : ClientEntry Ctx) → (send_sec_auth_reply env cfg e false).entry.status ≡ e.status
  unfolding send_sec_auth_reply
  status-send_failed e = ground arith

  status-ask_again :
      (e : ClientEntry Ctx)
      → ((ask_again env cfg e).entry.status ≡ e.status)
        ⊎ ((ask_again env cfg e).entry.status ≡ AuthStatus.failed)
  unfolding ask_again send_sec_auth_reply_msg
  status-ask_again e = ground (arith, status-send_failed (set_status AuthStatus.failed e))

  status-reject :
      (e : ClientEntry Ctx) (r : ℤ) → (reject env cfg e r).entry.status ≡ AuthStatus.failed
  unfolding reject
  status-reject e r = status-send_failed (set_status AuthStatus.failed e)

  -- What `accept` does: the client is completed and has its cookie, or it is failed.
  accept-status :
      (e : ClientEntry Ctx)
      → (((accept env cfg e).entry.status ≡ AuthStatus.completed)
          × (accepts (accept env cfg e).events ≡ true))
        ⊎ ((accept env cfg e).entry.status ≡ AuthStatus.failed)
  unfolding accept send_sec_auth_reply take_username
  accept-status e = ground arith

  status-ask_module : (e : ClientEntry Ctx) → (ask_module e).0.status ≡ e.status
  unfolding ask_module
  status-ask_module e = ground arith

  -- A client is completed by a reply with a cookie, or was completed before.
  pub handle_sec_auth_res-completed :
      (e : ClientEntry Ctx) (result : ℤ)
      → (handle_sec_auth_res env cfg e result).entry.status ≡ AuthStatus.completed
      → ((accepts (handle_sec_auth_res env cfg e result).events ≡ true) × (is_zero result ≡ true))
        ⊎ ((e.status ≡ AuthStatus.completed) × (is_auth_continue result ≡ true))
  unfolding handle_sec_auth_res decide
  handle_sec_auth_res-completed e result h = ground (
    arith,
    status-ask_again (ask_module e).0,
    accept-status (ask_module e).0,
    status-reject e result,
    status-ask_module e,
  )

  -- The client was asked for a password, gave one, and its module took it.
  abbrev pub Authenticated : ClientEntry Ctx → Option Bytes → Type 0
  Authenticated e password =
      (pass : Bytes) × (m : AuthModule Ctx) × (password ≡ some pass)
      × (e.auth_module ≡ some m)
      × (is_zero (m.auth_pass e.auth_ctx pass).0 ≡ true)
      × ((e.status ≡ AuthStatus.init) ⊎ (e.status ≡ AuthStatus.cont))

  cont_entry-Authenticated :
      (e : ClientEntry Ctx) (password : Option Bytes)
      → is_zero (cont_entry cfg e password).1 ≡ true
      → Authenticated e password
  unfolding cont_entry
  cont_entry-Authenticated e none h = absurd (ground arith)
  cont_entry-Authenticated e (some pass) h = elim (Option-cases e.auth_module) [
    | inl missing ↦ absurd (ground arith)
    | inr (m, present) ↦ (pass, m, refl, present, ground arith, ground arith)
  ]

  cont_entry-continue :
      (e : ClientEntry Ctx) (password : Option Bytes)
      → is_auth_continue (cont_entry cfg e password).1 ≡ true
      → (cont_entry cfg e password).0.status ≡ AuthStatus.cont
  unfolding cont_entry
  cont_entry-continue e none h = ground arith
  cont_entry-continue e (some pass) h = ground arith

module _ {Ctx : Type 0} (ht : Htable (ClientEntry Ctx) sid_key) (cfg : SecConfig Ctx)
    (env : Env) where
  open ht use {Table, get}

  -- A reply to a password carries a cookie only if the request names, by its SID, a client that was
  -- asked for a password, and the client's module took the password that it gives.
  pub handle_sec_auth_cont-accepts :
      (req : AuthCont) (t : Table)
      → accepts (handle_sec_auth_cont ht cfg env req t).2 ≡ true
      → (e : ClientEntry Ctx) × (get req.sid t ≡ some e) × Authenticated env cfg e req.password
  unfolding handle_sec_auth_cont
  handle_sec_auth_cont-accepts req t h = elim (Option-cases (get req.sid t)) [
    | inl missing ↦ absurd (ground arith)
    | inr (e, found) ↦ (
      e,
      found,
      cont_entry-Authenticated env cfg e req.password (
          ground (
            arith,
            handle_sec_auth_res-accepts env cfg (cont_entry cfg e req.password).0
                (cont_entry cfg e req.password).1,
          )),
    )
  ]

  -- If the client that a password request names is found completed after the request, the reply
  -- carried the cookie, and the client's module took the password.
  pub handle_sec_auth_cont-completed :
      (req : AuthCont) (t : Table) (e e' : ClientEntry Ctx)
      → length req.sid ≡ sid_size
      → get req.sid t ≡ some e
      → get req.sid (handle_sec_auth_cont ht cfg env req t).0 ≡ some e'
      → e'.status ≡ AuthStatus.completed
      → (accepts (handle_sec_auth_cont ht cfg env req t).2 ≡ true)
        × Authenticated env cfg e req.password
  unfolding handle_sec_auth_cont
  handle_sec_auth_cont-completed req t e e' size found after st =
      let r = cont_entry cfg e req.password in
      let s = handle_sec_auth_res env cfg r.0 r.1 in
      let same : s.entry.sid ≡ e.sid =
        sid-handle_sec_auth_res env cfg r.0 r.1 ∙ sid-cont_entry env cfg e req.password in
      let written : get req.sid (ht.write s.entry t) ≡ some e' = ground arith in
      let is_it : s.entry ≡ e' =
        ground (
          arith,
          get-write_other ht req.sid req.sid t e s.entry found same,
          bytes_eq_refl req.sid,
        ) in
      let ok : (accepts s.events ≡ true) × (is_zero r.1 ≡ true) = ground (
        arith,
        handle_sec_auth_res-completed env cfg r.0 r.1,
        cont_entry-continue env cfg e req.password,
      ) in
      (ground arith, cont_entry-Authenticated env cfg e req.password ok.1)
