-- ===== src/SecMod/Keeps.antt =====
-- No handler changes the SID of an entry, so each writes back to the entry that it found.
use my_vps_config.Base.{
  ℕ, ◌≡◌, ◌∙◌, ap, Bool, true, false, Option, none, some, List, Bytes, arith, bytes_eq, bytes_eq→eq,
  strlcpy, if◌then◌else◌,
}
use my_vps_config.Base.Int.{ℤ, is_auth_continue}
use my_vps_config.Htable.{Htable}
use mathlib.Core.Path.{subst}
use my_vps_config.SecMod.Types.{
  ClientEntry, AuthStatus, SecConfig, Env, Step, AuthInit, AuthSession, CliStats, sid_key,
}
use my_vps_config.SecMod.Reply.{
  send_sec_auth_reply, send_sec_auth_reply_msg, ask_module, set_status, take_username, decide,
  handle_sec_auth_res,
}
use my_vps_config.SecMod.Login.{
  cont_entry, init_entry, set_module, init_module, finish_init, check_requested_group,
  check_user_group_status, adopt_certificate, compare_certificate,
}
use my_vps_config.SecMod.Session.{open_entry, grant_session, done, close_entry, stats_entry}

module _ {Ctx : Type 0} (env : Env) (cfg : SecConfig Ctx) where
  sid-send :
      (e : ClientEntry Ctx) (ok : Bool) → (send_sec_auth_reply env cfg e ok).entry.sid ≡ e.sid
  unfolding send_sec_auth_reply
  sid-send e ok = ground arith

  sid-decide : (e : ClientEntry Ctx) (r : ℤ) → (decide env cfg e r).entry.sid ≡ e.sid
  unfolding decide send_sec_auth_reply_msg take_username
  sid-decide e r = ground (
    arith,
    sid-send (set_status AuthStatus.failed e) false,
    sid-send (take_username (set_status AuthStatus.completed e)) true,
  )

  sid-ask_module : (e : ClientEntry Ctx) → (ask_module e).0.sid ≡ e.sid
  unfolding ask_module
  sid-ask_module e = ground arith

  pub sid-handle_sec_auth_res :
      (e : ClientEntry Ctx) (r : ℤ) → (handle_sec_auth_res env cfg e r).entry.sid ≡ e.sid
  unfolding handle_sec_auth_res
  sid-handle_sec_auth_res e r =
      ground (arith, sid-decide e r, sid-decide (ask_module e).0 r, sid-ask_module e)

  pub sid-cont_entry : (e : ClientEntry Ctx) (p : Option Bytes) → (cont_entry cfg e p).0.sid ≡ e.sid
  unfolding cont_entry
  sid-cont_entry e none = ground arith
  sid-cont_entry e (some p) = ground arith

  sid-set_module : (e : ClientEntry Ctx) (n : ℕ) → (set_module cfg e n).0.sid ≡ e.sid
  unfolding set_module
  sid-set_module e n = ground arith

  sid-init_module : (e : ClientEntry Ctx) (q : AuthInit) → (init_module cfg e q).0.sid ≡ e.sid
  unfolding init_module
  sid-init_module e q = ground arith

  sid-check_requested_group :
      (e : ClientEntry Ctx) (q : AuthInit) → (check_requested_group cfg e q).0.sid ≡ e.sid
  unfolding check_requested_group
  sid-check_requested_group e q = ground arith

  sid-check_user_group_status :
      (e : ClientEntry Ctx) (tls : Bool) (user : Option Bytes) (groups : List Bytes)
      → (check_user_group_status cfg e tls user groups).0.sid ≡ e.sid
  unfolding check_user_group_status adopt_certificate compare_certificate
  sid-check_user_group_status e tls user groups = ground arith

  sid-finish_init :
      (e : ClientEntry Ctx) (q : AuthInit) (c : Bool) → (finish_init cfg e q c).0.sid ≡ e.sid
  unfolding finish_init
  sid-finish_init e q c = ground (
    arith,
    sid-check_requested_group e q,
    sid-check_user_group_status (check_requested_group cfg e q).0 q.tls_auth_ok q.cert_user_name
        q.cert_group_names,
  )

  pub sid-init_entry : (e : ClientEntry Ctx) (q : AuthInit) → (init_entry cfg e q).0.sid ≡ e.sid
  unfolding init_entry
  sid-init_entry e q =
      let chosen = set_module cfg e q.auth_type in
      let named : ClientEntry Ctx = record (chosen.0) {
        hostname = elim q.hostname as (λ _. Bytes) [
          | none ↦ chosen.0.hostname
          | some h ↦ strlcpy 64 h
        ];
      } in
      let asked = init_module cfg named q in
      ground (
        arith,
        sid-set_module e q.auth_type,
        sid-init_module named q,
        sid-finish_init asked.0 q (is_auth_continue asked.1),
      )

  pub sid-close_entry :
      (e : ClientEntry Ctx) (q : AuthSession) → (close_entry env cfg e q).entry.sid ≡ e.sid
  unfolding close_entry
  sid-close_entry e q = ground arith

  sid-grant_session : (e : ClientEntry Ctx) → (grant_session env cfg e).entry.sid ≡ e.sid
  unfolding grant_session
  sid-grant_session e = ground arith

  pub sid-open_entry :
      (e : ClientEntry Ctx) (c : Option Bytes) (s : Step Ctx)
      → open_entry env cfg e c ≡ done s
      → s.entry.sid ≡ e.sid
  unfolding open_entry
  sid-open_entry e c s h = ground arith

  pub sid-stats_entry :
      (e : ClientEntry Ctx) (q : CliStats) (s : Step Ctx)
      → stats_entry env cfg e q ≡ done s
      → s.entry.sid ≡ e.sid
  unfolding stats_entry
  sid-stats_entry e q s h = ground arith

-- A write of an entry with the SID it was found by touches no other SID.
pub get-write_other :
    {Ctx : Type 0} (ht : Htable (ClientEntry Ctx) sid_key) (k j : Bytes) (t : ht.Table)
    (e e' : ClientEntry Ctx)
    → ht.get k t ≡ some e
    → e'.sid ≡ e.sid
    → ht.get j (ht.write e' t) ≡ (if bytes_eq k j then some e' else ht.get j t)
get-write_other ht k j t e e' found same =
    let sid : e'.sid ≡ k = same ∙ bytes_eq→eq e.sid k (ht.key-get k t e found) in
    subst (λ s. ht.get j (ht.write e' t) ≡ (if bytes_eq s j then some e' else ht.get j t)) sid
      (ht.get-write e' e t j (ap (λ s. ht.get s t) sid ∙ found))
