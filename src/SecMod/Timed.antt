-- ===== src/SecMod/Timed.antt =====
-- What one handler does to the count of a client's sessions and to its time.
use my_vps_config.Base.{
  ℕ, suc, ◌+◌, ◌^◌, ◌≤◌, ◌<◌, ◌≡◌, ◌⊎◌, ◌%◌, Bool, true, false, Option, none, some, List, Bytes,
  arith, ltb, strlcpy,
}
use my_vps_config.Base.Int.{ℤ, is_auth_continue}
use my_vps_config.SecMod.Types.{
  ClientEntry, AuthStatus, SecConfig, Env, Step, AuthInit, AuthSession, CliStats,
}
use my_vps_config.SecMod.Reply.{
  send_sec_auth_reply, send_sec_auth_reply_msg, ask_module, set_status, take_username, decide,
  handle_sec_auth_res,
}
use my_vps_config.SecMod.Login.{
  cont_entry, init_entry, set_module, init_module, finish_init, check_requested_group,
  check_user_group_status, adopt_certificate, compare_certificate,
}
use my_vps_config.SecMod.Session.{done, open_entry, close_entry, stats_entry, grant_session}

-- What a login leaves alone.
abbrev pub KeepsUse : {Ctx : Type 0} → ClientEntry Ctx → ClientEntry Ctx → Type 0
KeepsUse e e' = (e'.time ≡ e.time) × (e'.in_use ≡ e.in_use)

-- `time` is -1 exactly while the client has a session, and no more than `n` were opened.
abbrev pub IsTimed : {Ctx : Type 0} → ℕ → ClientEntry Ctx → Type 0
IsTimed n e =
    ((elim e.time as (λ _. Bool) [ none ↦ true | some time ↦ false ]) ≡ ltb 0 e.in_use)
    × (e.in_use ≤ n)

module _ {Ctx : Type 0} (env : Env) (cfg : SecConfig Ctx) where
  send-KeepsUse :
      (e : ClientEntry Ctx) (ok : Bool) → KeepsUse e (send_sec_auth_reply env cfg e ok).entry
  unfolding send_sec_auth_reply
  send-KeepsUse e ok = ground arith

  decide-KeepsUse : (e : ClientEntry Ctx) (r : ℤ) → KeepsUse e (decide env cfg e r).entry
  unfolding decide send_sec_auth_reply_msg take_username
  decide-KeepsUse e r = ground (
    arith,
    send-KeepsUse (set_status AuthStatus.failed e) false,
    send-KeepsUse (take_username (set_status AuthStatus.completed e)) true,
  )

  ask_module-KeepsUse : (e : ClientEntry Ctx) → KeepsUse e (ask_module e).0
  unfolding ask_module
  ask_module-KeepsUse e = ground arith

  pub handle_sec_auth_res-KeepsUse :
      (e : ClientEntry Ctx) (r : ℤ) → KeepsUse e (handle_sec_auth_res env cfg e r).entry
  unfolding handle_sec_auth_res
  handle_sec_auth_res-KeepsUse e r =
      ground (arith, decide-KeepsUse e r, decide-KeepsUse (ask_module e).0 r, ask_module-KeepsUse e)

  pub cont_entry-KeepsUse :
      (e : ClientEntry Ctx) (p : Option Bytes) → KeepsUse e (cont_entry cfg e p).0
  unfolding cont_entry
  cont_entry-KeepsUse e none = ground arith
  cont_entry-KeepsUse e (some p) = ground arith

  set_module-KeepsUse : (e : ClientEntry Ctx) (n : ℕ) → KeepsUse e (set_module cfg e n).0
  unfolding set_module
  set_module-KeepsUse e n = ground arith

  init_module-KeepsUse : (e : ClientEntry Ctx) (q : AuthInit) → KeepsUse e (init_module cfg e q).0
  unfolding init_module
  init_module-KeepsUse e q = ground arith

  check_requested_group-KeepsUse :
      (e : ClientEntry Ctx) (q : AuthInit) → KeepsUse e (check_requested_group cfg e q).0
  unfolding check_requested_group
  check_requested_group-KeepsUse e q = ground arith

  check_user_group_status-KeepsUse :
      (e : ClientEntry Ctx) (tls : Bool) (user : Option Bytes) (groups : List Bytes)
      → KeepsUse e (check_user_group_status cfg e tls user groups).0
  unfolding check_user_group_status adopt_certificate compare_certificate
  check_user_group_status-KeepsUse e tls user groups = ground arith

  finish_init-KeepsUse :
      (e : ClientEntry Ctx) (q : AuthInit) (c : Bool) → KeepsUse e (finish_init cfg e q c).0
  unfolding finish_init
  finish_init-KeepsUse e q c = ground (
    arith,
    check_requested_group-KeepsUse e q,
    check_user_group_status-KeepsUse (check_requested_group cfg e q).0 q.tls_auth_ok
        q.cert_user_name q.cert_group_names,
  )

  pub init_entry-KeepsUse : (e : ClientEntry Ctx) (q : AuthInit) → KeepsUse e (init_entry cfg e q).0
  unfolding init_entry
  init_entry-KeepsUse e q =
      let chosen = set_module cfg e q.auth_type in
      let named : ClientEntry Ctx = record (chosen.0) {
        hostname = elim q.hostname as (λ _. Bytes) [
          | none ↦ chosen.0.hostname
          | some h ↦ strlcpy 64 h
        ];
      } in
      let asked = init_module cfg named q in
      ground (
        arith,
        set_module-KeepsUse e q.auth_type,
        init_module-KeepsUse named q,
        finish_init-KeepsUse asked.0 q (is_auth_continue asked.1),
      )

  grant_session-use :
      (e : ClientEntry Ctx)
      → KeepsUse e (grant_session env cfg e).entry
        ⊎ (((grant_session env cfg e).entry.time ≡ none)
            × ((grant_session env cfg e).entry.in_use ≡ (e.in_use + 1) % 2 ^ 32))
  unfolding grant_session
  grant_session-use e = ground arith

  open_entry-use :
      (e : ClientEntry Ctx) (c : Option Bytes) (s : Step Ctx)
      → open_entry env cfg e c ≡ done s
      → KeepsUse e s.entry ⊎ ((s.entry.time ≡ none) × (s.entry.in_use ≡ (e.in_use + 1) % 2 ^ 32))
  unfolding open_entry
  open_entry-use e c s h =
      ground (arith, grant_session-use e, grant_session-use (record e { session_is_open = true }))

  pub open_entry-IsTimed :
      (n : ℕ) (e : ClientEntry Ctx) (c : Option Bytes) (s : Step Ctx)
      → suc n < 2 ^ 32
      → IsTimed n e
      → open_entry env cfg e c ≡ done s
      → IsTimed (suc n) s.entry
  open_entry-IsTimed n e c s small v h = ground (arith, open_entry-use e c s h)

  pub close_entry-IsTimed :
      (n : ℕ) (e : ClientEntry Ctx) (q : AuthSession)
      → IsTimed n e
      → IsTimed n (close_entry env cfg e q).entry
  unfolding close_entry
  close_entry-IsTimed n e q v = ground arith

  pub stats_entry-IsTimed :
      (n : ℕ) (e : ClientEntry Ctx) (q : CliStats) (s : Step Ctx)
      → IsTimed n e
      → stats_entry env cfg e q ≡ done s
      → IsTimed n s.entry
  unfolding stats_entry
  stats_entry-IsTimed n e q s v h = ground arith
