-- ===== src/Together/Banned.antt =====
-- Wrong passwords lead to a ban: the security module with the ban list of main.
use my_vps_config.Base.{
  ℕ, ◌+◌, ◌^◌, ◌≤◌, ◌<◌, ◌≡◌, ◌⊎◌, inl, inr, refl, ap, ◌∙◌, sym, true, false, leb, some, List, [],
  ◌∷◌, ◌++◌, is_empty, length, take_all, arith, Bool-cases,
}
use mathlib.Core.Path.{subst}
use my_vps_config.Base.Int.{ℤ, is_neg, is_zero, is_auth_continue, failure}
use my_vps_config.Htable.{Htable}
use my_vps_config.Ban.{
  BanEntry, BanConfig, ip_key, max_ip_str, BanDb, add_ip_to_ban_list, check_if_banned,
}
use my_vps_config.Ban.Score.{reports, ban_threshold}
use my_vps_config.Ban.Expiry.{banned_until}
use my_vps_config.SecMod.Types.{
  ClientEntry, AuthStatus, SecConfig, Env, Event, reply, ban_ip, session_stats, close_session,
  auth_deinit, auth_failed, answered,
}
use my_vps_config.SecMod.Reply.{
  sec_mod_add_score_to_ip, after, set_status, send_final, send_sec_auth_reply, is_retry, ask_again,
  reject, decide,
}
use my_vps_config.Main.BanRequest.{handle_ban_ip}

module _ (ht : Htable BanEntry ip_key) (c : BanConfig) where
  -- What the reports of a handler leave of the ban list.
  pub apply_bans : ℕ → List Event → BanDb ht → BanDb ht
  apply_bans now [] db = db
  apply_bans now (ban_ip ip n ∷ es) db = apply_bans now es (handle_ban_ip ht c now true db ip n).0
  apply_bans now (reply r ∷ es) db = apply_bans now es db
  apply_bans now (session_stats a s ∷ es) db = apply_bans now es db
  apply_bans now (close_session a s ∷ es) db = apply_bans now es db
  apply_bans now (auth_deinit ∷ es) db = apply_bans now es db

  -- The security module's reports are answered by main.
  abbrev pub with_bans : ℕ → BanDb ht → Env → Env
  with_bans now db env = record env {
    ban = λ ip n. answered (handle_ban_ip ht c now true db ip n).1;
  }

  module _ {Ctx : Type 0} (cfg : SecConfig Ctx) (env : Env) where
    -- The report of a wrong password.
    abbrev report : ClientEntry Ctx → ℤ × List Event
    report e = sec_mod_add_score_to_ip env cfg e.auth_info.remote_ip cfg.ban_points_wrong_password

    sent_failed :
        (e : ClientEntry Ctx)
        → let s = send_sec_auth_reply env cfg (set_status AuthStatus.failed e) false in
          (s.entry.status ≡ AuthStatus.failed) × (s.events ≡ reply auth_failed ∷ [])
    unfolding send_sec_auth_reply send_final
    sent_failed e = elim (Bool-cases (is_neg (env.send auth_failed))) [
      | inl y ↦ rw y (refl, refl)
      | inr n ↦ rw n (refl, refl)
    ]

    ask_again_lem :
        (e : ClientEntry Ctx)
        → is_retry e ≡ true
        → is_neg (report e).0 ≡ true
        → ask_again env cfg e
          ≡ after (report e).1 (send_sec_auth_reply env cfg (set_status AuthStatus.failed e) false)
    unfolding ask_again
    ask_again_lem e retry over = rw (retry, over) refl

    -- The points are reported, the client fails, and its worker is told.
    decide-refused :
        (e : ClientEntry Ctx) (result : ℤ)
        → is_zero result ≡ false
        → (is_auth_continue result ≡ false) ⊎ (is_retry e ≡ true)
        → is_neg (report e).0 ≡ true
        → ((decide env cfg e result).entry.status ≡ AuthStatus.failed)
          × ((decide env cfg e result).events ≡ (report e).1 ++ (reply auth_failed ∷ []))
    unfolding decide reject
    decide-refused e result nz wrong over = elim (Bool-cases (is_auth_continue result)) [
      | inl y ↦
          let retry : is_retry e ≡ true = elim wrong [
            | inl f ↦ absurd (ground arith)
            | inr r ↦ r
          ] in
          rw (y, ask_again_lem e retry over)
            ((sent_failed e).0, ap (λ es. (report e).1 ++ es) (sent_failed e).1)
      | inr n ↦ rw (n, nz) ((sent_failed e).0, ap (λ es. (report e).1 ++ es) (sent_failed e).1)
    ]

  module _ {Ctx : Type 0} (cfg : SecConfig Ctx) (env : Env) (e : ClientEntry Ctx) (t : ht.Table)
      (b : BanEntry) (start : ℕ) (on : 0 < c.max_ban_score)
      (named : is_empty e.auth_info.remote_ip ≡ false)
      (short : length e.auth_info.remote_ip < max_ip_str)
      (one_config : cfg.max_ban_score ≡ c.max_ban_score)
      (known : ht.get e.auth_info.remote_ip t ≡ some b) (low : b.score < c.max_ban_score)
      (high : c.max_ban_score ≤ b.score + cfg.ban_points_wrong_password)
      (in_time : start ≤ b.last_reset + c.ban_reset_time)
      (small : b.score + cfg.ban_points_wrong_password + c.ban_points_connect < 2 ^ 32) where
    reported :
        sec_mod_add_score_to_ip
          (with_bans start (some t) env)
          cfg
          e.auth_info.remote_ip
          cfg.ban_points_wrong_password
        ≡ (failure, ban_ip e.auth_info.remote_ip cfg.ban_points_wrong_password ∷ [])
    unfolding sec_mod_add_score_to_ip handle_ban_ip reports
    reported =
        let over : is_neg
              (add_ip_to_ban_list ht c start true (some t) (some e.auth_info.remote_ip)
                cfg.ban_points_wrong_password).1
            ≡ true =
          subst (λ x. x ≡ true)
            (sym (
              ban_threshold ht c e.auth_info.remote_ip on named [] start
                cfg.ban_points_wrong_password t b
                (rw (take_all 45 e.auth_info.remote_ip (omega arith)) known) tt in_time
                (omega arith)))
            (ground arith) in
        ground arith

    -- The security module with the ban list of main: a wrong password (a result of the module other
    -- than 0, and not its first question) that takes an address (of 1 to 45 bytes, with an entry
    -- below the maximum, within its counting period) to the maximum fails the client for good, and
    -- main then refuses the address up to min_reauth_time after it and no longer, within that
    -- period, if the score stays below 2 ^ 32.
    pub decide-banned :
        (result : ℤ) (now later : ℕ)
        → is_zero result ≡ false
        → (is_auth_continue result ≡ false) ⊎ (is_retry e ≡ true)
        → now ≤ b.last_reset + c.ban_reset_time
        → let s = decide (with_bans start (some t) env) cfg e result in
          (s.entry.status ≡ AuthStatus.failed)
          × ((check_if_banned ht c now later true
                (apply_bans start s.events (some t))
                (some e.auth_info.remote_ip)).1
              ≡ leb later (start + c.min_reauth_time))
    unfolding apply_bans handle_ban_ip
    decide-banned result now later nz wrong in_time' =
        let s = decide (with_bans start (some t) env) cfg e result in
        let d =
          decide-refused cfg (with_bans start (some t) env) e result nz wrong
            (ap (λ r. is_neg r.0) reported) in
        let events : s.events
            ≡ ban_ip e.auth_info.remote_ip cfg.ban_points_wrong_password ∷ reply auth_failed ∷ [] =
          d.1 ∙ ap (λ r. r.1 ++ (reply auth_failed ∷ [])) reported in
        (
          d.0,
          subst
              (λ es.
                (check_if_banned ht c now later true (apply_bans start es (some t))
                  (some e.auth_info.remote_ip)).1
                ≡ leb later (start + c.min_reauth_time))
              (sym events)
              (banned_until ht c e.auth_info.remote_ip on named short start
                cfg.ban_points_wrong_password now later t b known low high in_time in_time' small),
        )
