-- ===== src/SecMod/InUse.antt =====
-- The sessions of a client: `in_use` counts them, and `time` is -1 just while there is one.
use my_vps_config.Base.{
  ℕ, suc, ◌+◌, ◌^◌, ◌<◌, ◌≡◌, ◌⊎◌, sym, length, [], ◌∷◌, true, false, some, List, Bytes, arith,
  Option-cases, bytes_eq_refl, inl, inr, ◌∙◌,
}
use my_vps_config.Base.Int.{ℤ}
use mathlib.Core.Path.{subst}
use my_vps_config.SecMod.Db.{new_client_entry, cleanup_client_entries, is_expired}
use my_vps_config.SecMod.Serve.{
  Command, auth_init, auth_cont, session, stats, maintenance, serve, serve_all,
}
use my_vps_config.SecMod.Isolation.{new_client_entry_lem}
use my_vps_config.SecMod.Keeps.{
  get-write_other, sid-handle_sec_auth_res, sid-cont_entry, sid-init_entry, sid-open_entry,
  sid-close_entry, sid-stats_entry,
}
use my_vps_config.Htable.{Htable}
use my_vps_config.Htable.Sweep.{get-sweep}
use my_vps_config.SecMod.Types.{
  ClientEntry, SecConfig, Event, Env, AuthInit, AuthCont, AuthSession, CliStats, sid_key,
}
use my_vps_config.SecMod.Reply.{handle_sec_auth_res}
use my_vps_config.SecMod.Login.{handle_sec_auth_init, handle_sec_auth_cont, cont_entry, init_entry}
use my_vps_config.SecMod.Session.{
  Outcome-cases, done, handle_sec_auth_session_cmd, handle_sec_auth_session_open,
  handle_sec_auth_session_close, handle_sec_auth_stats_cmd, open_entry, close_entry, stats_entry,
}
use my_vps_config.SecMod.Timed.{
  handle_sec_auth_res-KeepsUse, cont_entry-KeepsUse, init_entry-KeepsUse, open_entry-IsTimed,
  close_entry-IsTimed, stats_entry-IsTimed, IsTimed,
}

module _ {Ctx : Type 0} (ht : Htable (ClientEntry Ctx) sid_key) (cfg : SecConfig Ctx) where
  open ht use {Table, get}

  -- Every client of the table is timed.
  abbrev pub AllTimed : ℕ → Table → Type 0
  AllTimed n t = (k : Bytes) (e : ClientEntry Ctx) → get k t ≡ some e → IsTimed n e

  AllTimed-mono : (n : ℕ) (t : Table) → AllTimed n t → AllTimed (suc n) t
  AllTimed-mono n t all k e h = let v = all k e h in ground arith

  IsTimed-origin :
      (n : ℕ) (j : Bytes) (t : Table) (x e : ClientEntry Ctx)
      → AllTimed n t
      → IsTimed n e
      → (get j t ≡ some x) ⊎ (x ≡ e)
      → IsTimed n x
  IsTimed-origin n j t x e all v (inl old) = all j x old
  IsTimed-origin n j t x e all v (inr new) = subst (IsTimed n) (sym new) v

  init-AllTimed :
      (env : Env) (n : ℕ) (req : AuthInit) (t : Table)
      → AllTimed n t
      → AllTimed n (handle_sec_auth_init ht cfg env req t).0
  unfolding handle_sec_auth_init
  init-AllTimed env n req t all j x h = elim (Option-cases (new_client_entry ht env req.ip t)) [
    | inl failed ↦ all j x (ground arith)
    | inr ((e, t₁), made) ↦
        let (free, stored, unused, timed) = new_client_entry_lem ht env req.ip t t₁ e made in
        let r = init_entry cfg e req in
        let s = handle_sec_auth_res env cfg r.0 r.1 in
        let found : get e.sid t₁ ≡ some e = ground (arith, stored e.sid, bytes_eq_refl e.sid) in
        let same : s.entry.sid ≡ e.sid =
          sid-handle_sec_auth_res env cfg r.0 r.1 ∙ sid-init_entry env cfg e req in
        IsTimed-origin n j t x s.entry all
          (ground (
            arith,
            handle_sec_auth_res-KeepsUse env cfg r.0 r.1,
            init_entry-KeepsUse env cfg e req,
          ))
          (ground (arith, stored j, get-write_other ht e.sid j t₁ e s.entry found same))
  ]

  cont-AllTimed :
      (env : Env) (n : ℕ) (req : AuthCont) (t : Table)
      → AllTimed n t
      → AllTimed n (handle_sec_auth_cont ht cfg env req t).0
  unfolding handle_sec_auth_cont
  cont-AllTimed env n req t all j x h = elim (Option-cases (get req.sid t)) [
    | inl missing ↦ all j x (ground arith)
    | inr (e, found) ↦
        let r = cont_entry cfg e req.password in
        let s = handle_sec_auth_res env cfg r.0 r.1 in
        let same : s.entry.sid ≡ e.sid =
          sid-handle_sec_auth_res env cfg r.0 r.1 ∙ sid-cont_entry env cfg e req.password in
        IsTimed-origin n j t x s.entry all
          (ground (
            arith,
            all req.sid e found,
            handle_sec_auth_res-KeepsUse env cfg r.0 r.1,
            cont_entry-KeepsUse env cfg e req.password,
          ))
          (ground (arith, get-write_other ht req.sid j t e s.entry found same))
  ]

  close-AllTimed :
      (env : Env) (n : ℕ) (req : AuthSession) (t : Table)
      → AllTimed n t
      → AllTimed n (handle_sec_auth_session_close ht cfg env req t).0
  unfolding handle_sec_auth_session_close
  close-AllTimed env n req t all j x h = elim (Option-cases (get req.sid t)) [
    | inl missing ↦ all j x (ground arith)
    | inr (e, found) ↦
        let s = close_entry env cfg e req in
        IsTimed-origin n j t x s.entry all
          (close_entry-IsTimed env cfg n e req (all req.sid e found))
          (ground
            (arith, get-write_other ht req.sid j t e s.entry found (sid-close_entry env cfg e req)))
  ]

  open-AllTimed :
      (env : Env) (n : ℕ) (req : AuthSession) (t : Table) (r : Table × ℤ × List Event)
      → suc n < 2 ^ 32
      → AllTimed n t
      → handle_sec_auth_session_open ht cfg env req t ≡ done r
      → AllTimed (suc n) r.0
  unfolding handle_sec_auth_session_open
  open-AllTimed env n req t r small all ran j x h = elim (Option-cases (get req.sid t)) [
    | inl missing ↦ AllTimed-mono n t all j x (ground arith)
    | inr (e, found) ↦ elim (Outcome-cases (open_entry env cfg e req.cookie)) [
      | inl crashed ↦ AllTimed-mono n t all j x (ground arith)
      | inr (s, opened) ↦
          IsTimed-origin (suc n) j t x s.entry (AllTimed-mono n t all)
            (open_entry-IsTimed env cfg n e req.cookie s small (all req.sid e found) opened)
            (ground (
              arith,
              get-write_other ht req.sid j t e s.entry found
                  (sid-open_entry env cfg e req.cookie s opened),
            ))
    ]
  ]

  stats-AllTimed :
      (env : Env) (n : ℕ) (req : CliStats) (t : Table) (r : Table × ℤ × List Event)
      → AllTimed n t
      → handle_sec_auth_stats_cmd ht cfg env req t ≡ done r
      → AllTimed n r.0
  unfolding handle_sec_auth_stats_cmd
  stats-AllTimed env n req t r all ran j x h = elim (Option-cases (get req.sid t)) [
    | inl missing ↦ all j x (ground arith)
    | inr (e, found) ↦ elim (Outcome-cases (stats_entry env cfg e req)) [
      | inl crashed ↦ all j x (ground arith)
      | inr (s, counted) ↦
          IsTimed-origin n j t x s.entry all
            (stats_entry-IsTimed env cfg n e req s (all req.sid e found) counted)
            (ground (
              arith,
              get-write_other ht req.sid j t e s.entry found
                  (sid-stats_entry env cfg e req s counted),
            ))
    ]
  ]

  -- One command keeps all clients timed.
  pub serve-AllTimed :
      (env : Env) (n : ℕ) (c : Command) (t : Table) (r : Table × ℤ × List Event)
      → suc n < 2 ^ 32
      → AllTimed n t
      → serve ht cfg env c t ≡ done r
      → AllTimed (suc n) r.0
  unfolding serve handle_sec_auth_session_cmd cleanup_client_entries
  serve-AllTimed env n (auth_init req) t r small all ran j x h =
      AllTimed-mono n _ (init-AllTimed env n req t all) j x (ground arith)
  serve-AllTimed env n (auth_cont req) t r small all ran j x h =
      AllTimed-mono n _ (cont-AllTimed env n req t all) j x (ground arith)
  serve-AllTimed env n (session true req) t r small all ran j x h =
      open-AllTimed env n req t r small all ran j x h
  serve-AllTimed env n (session false req) t r small all ran j x h =
      AllTimed-mono n _ (close-AllTimed env n req t all) j x (ground arith)
  serve-AllTimed env n (stats req) t r small all ran j x h =
      AllTimed-mono n r.0 (stats-AllTimed env n req t r all ran) j x h
  serve-AllTimed env n maintenance t r small all ran j x h =
      AllTimed-mono n t all j x (ground (arith, get-sweep ht (is_expired env cfg) j t))

  serve_all-AllTimed :
      (cs : List (Env × Command)) (n : ℕ) (t : Table) (r : Table × List Event)
      → n + length cs < 2 ^ 32
      → AllTimed n t
      → serve_all ht cfg cs t ≡ done r
      → AllTimed (n + length cs) r.0
  unfolding serve_all
  serve_all-AllTimed [] n t r small all ran j x h = let v = all j x (ground arith) in ground arith
  serve_all-AllTimed ((env, c) ∷ cs) n t r small all ran j x h =
      elim (Outcome-cases (serve ht cfg env c t)) [
        | inl crashed ↦ absurd (ground arith)
        | inr (r₁, first) ↦ elim (Outcome-cases (serve_all ht cfg cs r₁.0)) [
          | inl crashed ↦ absurd (ground arith)
          | inr (r₂, rest) ↦
              let all₁ = serve-AllTimed env n c t r₁ (omega arith) all first in
              let v =
                serve_all-AllTimed cs (suc n) r₁.0 r₂ (omega arith) all₁ rest j x (ground arith) in
              ground arith
        ]
      ]

  -- From an empty table, after any commands in any order (fewer than 2 ^ 32) of which none crashes
  -- the process: a client's time is -1 exactly while its count of sessions is above 0, and the
  -- count is at most the number of commands.
  pub serve_all-init-AllTimed :
      (cs : List (Env × Command)) (r : Table × List Event)
      → length cs < 2 ^ 32
      → serve_all ht cfg cs ht.init ≡ done r
      → AllTimed (length cs) r.0
  serve_all-init-AllTimed cs r small ran j x h =
      let v =
        serve_all-AllTimed cs 0 ht.init r (omega arith)
          (λ k e found. absurd (ground (arith, ht.get-init k))) ran j x h in
      ground arith
