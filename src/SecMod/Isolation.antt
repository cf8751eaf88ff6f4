-- ===== src/SecMod/Isolation.antt =====
-- A request changes no client but the one it names: sec-mod-db.c and the handlers.
use my_vps_config.Base.{
  ℕ, zero, suc, ◌+◌, ◌≡◌, ◌≢◌, ◌⊎◌, inl, inr, refl, ◌∙◌, Bool, true, false, Option, none, some,
  List, Bytes, arith, Option-cases, Bool-cases, bytes_eq, bytes_eq→eq, bytes_eq_refl, if◌then◌else◌,
}
use my_vps_config.Base.Int.{ℤ}
use my_vps_config.Htable.{Htable}
use my_vps_config.Htable.Sweep.{get-sweep}
use my_vps_config.SecMod.Types.{
  ClientEntry, SecConfig, Event, Env, AuthInit, AuthCont, AuthSession, CliStats, sid_key,
}
use my_vps_config.SecMod.Db.{
  draw_sid, new_client_entry, zero_entry, cleanup_client_entries, is_expired,
}
use my_vps_config.SecMod.Reply.{handle_sec_auth_res}
use my_vps_config.SecMod.Login.{handle_sec_auth_init, handle_sec_auth_cont, init_entry, cont_entry}
use my_vps_config.SecMod.Session.{
  Outcome-cases, done, handle_sec_auth_session_cmd, handle_sec_auth_session_open,
  handle_sec_auth_session_close, handle_sec_auth_stats_cmd, open_entry, close_entry, stats_entry,
}
use my_vps_config.SecMod.Keeps.{
  get-write_other, sid-handle_sec_auth_res, sid-cont_entry, sid-init_entry, sid-open_entry,
  sid-close_entry, sid-stats_entry,
}
use my_vps_config.SecMod.Serve.{Command, auth_init, auth_cont, session, stats, maintenance, serve}

module _ {Ctx : Type 0} (ht : Htable (ClientEntry Ctx) sid_key) where
  open ht use {Table, get}

  -- A SID that is drawn is not in use.
  pub draw_sid_fresh :
      (env : Env) (t : Table) (more i : ℕ) (sid : Bytes)
      → draw_sid ht env t more i ≡ some sid
      → get sid t ≡ none
  unfolding draw_sid
  draw_sid_fresh env t zero i sid h = ground arith
  draw_sid_fresh env t (suc more) i sid h = ground (arith, draw_sid_fresh env t more (i + 1) sid)

  -- A new client is stored under a SID that was free, and no other client is touched; it has no
  -- session yet.
  pub new_client_entry_lem :
      (env : Env) (ip : Bytes) (t t' : Table) (e : ClientEntry Ctx)
      → new_client_entry ht env ip t ≡ some (e, t')
      → (get e.sid t ≡ none)
        × ((k : Bytes) → get k t' ≡ (if bytes_eq e.sid k then some e else get k t))
        × (e.in_use ≡ 0)
        × (e.time ≡ some env.now)
  unfolding new_client_entry zero_entry
  new_client_entry_lem env ip t t' e h = elim (Option-cases (draw_sid ht env t 4 0)) [
    | inl exhausted ↦ absurd (ground arith)
    | inr (sid, drawn) ↦ elim (Option-cases (ht.add (zero_entry env ip sid) t)) [
      | inl full ↦ absurd (ground arith)
      | inr (t₁, added) ↦
          let is_e : e ≡ zero_entry env ip sid = ground arith in
          let is_t : t' ≡ t₁ = ground arith in
          let free : get sid t ≡ none = draw_sid_fresh env t 4 0 sid drawn in
          rw (is_e, is_t)
            (free, λ k. ht.get-add (zero_entry env ip sid) t t₁ k free added, refl, refl)
    ]
  ]

module _ {Ctx : Type 0} (ht : Htable (ClientEntry Ctx) sid_key) (cfg : SecConfig Ctx) where
  open ht use {Table, get}

  -- The command names this client.
  abbrev pub names : Command → Bytes → Bool
  names (auth_init req) k = false
  names (auth_cont req) k = bytes_eq req.sid k
  names (session opens req) k = bytes_eq req.sid k
  names (stats req) k = bytes_eq req.sid k
  names maintenance k = false

  init-other :
      (env : Env) (req : AuthInit) (t : Table) (k : Bytes) (e : ClientEntry Ctx)
      → get k t ≡ some e
      → get k (handle_sec_auth_init ht cfg env req t).0 ≡ some e
  unfolding handle_sec_auth_init
  init-other env req t k e h = elim (Option-cases (new_client_entry ht env req.ip t)) [
    | inl failed ↦ ground arith
    | inr ((x, t₁), made) ↦
        let (free, stored, unused, timed) = new_client_entry_lem ht env req.ip t t₁ x made in
        let r = init_entry cfg x req in
        let s = handle_sec_auth_res env cfg r.0 r.1 in
        let same : s.entry.sid ≡ x.sid =
          sid-handle_sec_auth_res env cfg r.0 r.1 ∙ sid-init_entry env cfg x req in
        let found : get x.sid t₁ ≡ some x = ground (arith, stored x.sid, bytes_eq_refl x.sid) in
        elim (Bool-cases (bytes_eq x.sid k)) [
          | inl clash ↦ absurd (ground (arith, bytes_eq→eq x.sid k clash))
          | inr distinct ↦
              ground (arith, stored k, get-write_other ht x.sid k t₁ x s.entry found same)
        ]
  ]

  cont-other :
      (env : Env) (req : AuthCont) (t : Table) (k : Bytes)
      → bytes_eq req.sid k ≡ false
      → get k (handle_sec_auth_cont ht cfg env req t).0 ≡ get k t
  unfolding handle_sec_auth_cont
  cont-other env req t k other = elim (Option-cases (get req.sid t)) [
    | inl missing ↦ ground arith
    | inr (e, found) ↦
        let r = cont_entry cfg e req.password in
        let s = handle_sec_auth_res env cfg r.0 r.1 in
        ground (
          arith,
          get-write_other ht req.sid k t e s.entry found
              (sid-handle_sec_auth_res env cfg r.0 r.1 ∙ sid-cont_entry env cfg e req.password),
        )
  ]

  close-other :
      (env : Env) (req : AuthSession) (t : Table) (k : Bytes)
      → bytes_eq req.sid k ≡ false
      → get k (handle_sec_auth_session_close ht cfg env req t).0 ≡ get k t
  unfolding handle_sec_auth_session_close
  close-other env req t k other = elim (Option-cases (get req.sid t)) [
    | inl missing ↦ ground arith
    | inr (e, found) ↦ ground (
      arith,
      get-write_other ht req.sid k t e (close_entry env cfg e req).entry found
          (sid-close_entry env cfg e req),
    )
  ]

  open-other :
      (env : Env) (req : AuthSession) (t : Table) (k : Bytes) (r : Table × ℤ × List Event)
      → bytes_eq req.sid k ≡ false
      → handle_sec_auth_session_open ht cfg env req t ≡ done r
      → get k r.0 ≡ get k t
  unfolding handle_sec_auth_session_open
  open-other env req t k r other h = elim (Option-cases (get req.sid t)) [
    | inl missing ↦ ground arith
    | inr (e, found) ↦ elim (Outcome-cases (open_entry env cfg e req.cookie)) [
      | inl crashed ↦ ground arith
      | inr (s, ran) ↦ ground (
        arith,
        get-write_other ht req.sid k t e s.entry found (sid-open_entry env cfg e req.cookie s ran),
      )
    ]
  ]

  stats-other :
      (env : Env) (req : CliStats) (t : Table) (k : Bytes) (r : Table × ℤ × List Event)
      → bytes_eq req.sid k ≡ false
      → handle_sec_auth_stats_cmd ht cfg env req t ≡ done r
      → get k r.0 ≡ get k t
  unfolding handle_sec_auth_stats_cmd
  stats-other env req t k r other h = elim (Option-cases (get req.sid t)) [
    | inl missing ↦ ground arith
    | inr (e, found) ↦ elim (Outcome-cases (stats_entry env cfg e req)) [
      | inl crashed ↦ ground arith
      | inr (s, ran) ↦ ground (
        arith,
        get-write_other ht req.sid k t e s.entry found (sid-stats_entry env cfg e req s ran),
      )
    ]
  ]

  init-none :
      (env : Env) (req : AuthInit) (t : Table) (k : Bytes) (e : ClientEntry Ctx)
      → get k t ≡ some e
      → get k (handle_sec_auth_init ht cfg env req t).0 ≢ none
  init-none env req t k e h gone = let kept = init-other env req t k e h in ground arith

  cont-none :
      (env : Env) (req : AuthCont) (t : Table) (k : Bytes)
      → get k (handle_sec_auth_cont ht cfg env req t).0 ≡ none
      → get k t ≡ none
  unfolding handle_sec_auth_cont
  cont-none env req t k gone = elim (Option-cases (get req.sid t)) [
    | inl missing ↦ ground arith
    | inr (e, found) ↦
        let r = cont_entry cfg e req.password in
        let s = handle_sec_auth_res env cfg r.0 r.1 in
        ground (
          arith,
          get-write_other ht req.sid k t e s.entry found
              (sid-handle_sec_auth_res env cfg r.0 r.1 ∙ sid-cont_entry env cfg e req.password),
        )
  ]

  close-none :
      (env : Env) (req : AuthSession) (t : Table) (k : Bytes)
      → get k (handle_sec_auth_session_close ht cfg env req t).0 ≡ none
      → get k t ≡ none
  unfolding handle_sec_auth_session_close
  close-none env req t k gone = elim (Option-cases (get req.sid t)) [
    | inl missing ↦ ground arith
    | inr (e, found) ↦ ground (
      arith,
      get-write_other ht req.sid k t e (close_entry env cfg e req).entry found
          (sid-close_entry env cfg e req),
    )
  ]

  open-none :
      (env : Env) (req : AuthSession) (t : Table) (k : Bytes) (r : Table × ℤ × List Event)
      → handle_sec_auth_session_open ht cfg env req t ≡ done r
      → get k r.0 ≡ none
      → get k t ≡ none
  unfolding handle_sec_auth_session_open
  open-none env req t k r h gone = elim (Option-cases (get req.sid t)) [
    | inl missing ↦ ground arith
    | inr (e, found) ↦ elim (Outcome-cases (open_entry env cfg e req.cookie)) [
      | inl crashed ↦ ground arith
      | inr (s, ran) ↦ ground (
        arith,
        get-write_other ht req.sid k t e s.entry found (sid-open_entry env cfg e req.cookie s ran),
      )
    ]
  ]

  stats-none :
      (env : Env) (req : CliStats) (t : Table) (k : Bytes) (r : Table × ℤ × List Event)
      → handle_sec_auth_stats_cmd ht cfg env req t ≡ done r
      → get k r.0 ≡ none
      → get k t ≡ none
  unfolding handle_sec_auth_stats_cmd
  stats-none env req t k r h gone = elim (Option-cases (get req.sid t)) [
    | inl missing ↦ ground arith
    | inr (e, found) ↦ elim (Outcome-cases (stats_entry env cfg e req)) [
      | inl crashed ↦ ground arith
      | inr (s, ran) ↦ ground (
        arith,
        get-write_other ht req.sid k t e s.entry found (sid-stats_entry env cfg e req s ran),
      )
    ]
  ]

  -- A command of another kind than the maintenance removes no client.
  serve-present :
      (env : Env) (c : Command) (t : Table) (r : Table × ℤ × List Event) (k : Bytes)
      (e : ClientEntry Ctx)
      → serve ht cfg env c t ≡ done r
      → c ≢ maintenance
      → get k t ≡ some e
      → get k r.0 ≢ none
  unfolding serve handle_sec_auth_session_cmd
  serve-present env (auth_init req) t r k e h other found gone =
      init-none env req t k e found (ground arith)
  serve-present env (auth_cont req) t r k e h other found gone =
      let absent = cont-none env req t k (ground arith) in ground arith
  serve-present env (session true req) t r k e h other found gone =
      let absent = open-none env req t k r h gone in ground arith
  serve-present env (session false req) t r k e h other found gone =
      let absent = close-none env req t k (ground arith) in ground arith
  serve-present env (stats req) t r k e h other found gone =
      let absent = stats-none env req t k r h gone in ground arith
  serve-present env maintenance t r k e h other found gone = other refl

  serve-unnamed :
      (env : Env) (c : Command) (t : Table) (r : Table × ℤ × List Event) (k : Bytes)
      (e : ClientEntry Ctx)
      → serve ht cfg env c t ≡ done r
      → c ≢ maintenance
      → names c k ≡ false
      → get k t ≡ some e
      → get k r.0 ≡ some e
  unfolding serve handle_sec_auth_session_cmd
  serve-unnamed env (auth_init req) t r k e h kind other found =
      ground (arith, init-other env req t k e found)
  serve-unnamed env (auth_cont req) t r k e h kind other found =
      ground (arith, cont-other env req t k other)
  serve-unnamed env (session true req) t r k e h kind other found =
      open-other env req t k r other h ∙ found
  serve-unnamed env (session false req) t r k e h kind other found =
      ground (arith, close-other env req t k other)
  serve-unnamed env (stats req) t r k e h kind other found =
      stats-other env req t k r other h ∙ found
  serve-unnamed env maintenance t r k e h kind other found = absurd (kind refl)

  serve-maintenance :
      (env : Env) (t : Table) (r : Table × ℤ × List Event) (k : Bytes) (e : ClientEntry Ctx)
      → serve ht cfg env maintenance t ≡ done r
      → get k t ≡ some e
      → get k r.0 ≡ (if is_expired env cfg e then none else some e)
  unfolding serve cleanup_client_entries
  serve-maintenance env t r k e h found = ground (arith, get-sweep ht (is_expired env cfg) k t)

  -- What a command leaves of a client: it is still there, and unchanged unless the command names it;
  -- or it is gone, and the command was the maintenance.
  pub data Leaves (env : Env) (c : Command) (k : Bytes) (e : ClientEntry Ctx)
      : Option (ClientEntry Ctx) → Type 0 where
    unchanged : (c ≢ maintenance) ⊎ (is_expired env cfg e ≡ false) → Leaves env c k e (some e)
    served : (e' : ClientEntry Ctx) → names c k ≡ true → Leaves env c k e (some e')
    expired : c ≡ maintenance → is_expired env cfg e ≡ true → Leaves env c k e none

  serve-Leaves_other :
      (env : Env) (c : Command) (t : Table) (r : Table × ℤ × List Event) (k : Bytes)
      (e : ClientEntry Ctx)
      → serve ht cfg env c t ≡ done r
      → c ≢ maintenance
      → get k t ≡ some e
      → Leaves env c k e (get k r.0)
  serve-Leaves_other env c t r k e h kind found = elim (Bool-cases (names c k)) [
    | inr other ↦ rw (serve-unnamed env c t r k e h kind other found) (unchanged (inl kind))
    | inl named ↦ elim (Option-cases (get k r.0)) [
      | inl gone ↦ absurd (serve-present env c t r k e h kind found gone)
      | inr (e', there) ↦ rw there (served e' named)
    ]
  ]

  -- A command that does not crash the process leaves each client in the table, and leaves it
  -- unchanged unless the command names it; but the maintenance removes just the clients whose
  -- cookie's time is over and that have no session.
  pub serve-other :
      (env : Env) (c : Command) (t : Table) (r : Table × ℤ × List Event) (k : Bytes)
      (e : ClientEntry Ctx)
      → serve ht cfg env c t ≡ done r
      → get k t ≡ some e
      → Leaves env c k e (get k r.0)
  serve-other env (auth_init req) t r k e h found =
      serve-Leaves_other env (auth_init req) t r k e h (λ x. ground arith) found
  serve-other env (auth_cont req) t r k e h found =
      serve-Leaves_other env (auth_cont req) t r k e h (λ x. ground arith) found
  serve-other env (session opens req) t r k e h found =
      serve-Leaves_other env (session opens req) t r k e h (λ x. ground arith) found
  serve-other env (stats req) t r k e h found =
      serve-Leaves_other env (stats req) t r k e h (λ x. ground arith) found
  serve-other env maintenance t r k e h found = elim (Bool-cases (is_expired env cfg e)) [
    | inl over ↦ rw (serve-maintenance env t r k e h found, over) (expired refl over)
    | inr stays ↦ rw (serve-maintenance env t r k e h found, stays) (unchanged (inr stays))
  ]
