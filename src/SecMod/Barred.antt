-- ===== src/SecMod/Barred.antt =====
-- sec-mod-auth.c: a client that presented a wrong cookie is refused from then on.
use my_vps_config.Base.{
  ℕ, ◌+◌, ◌<◌, ◌≡◌, ◌≢◌, inl, inr, refl, ap, ◌==◌, true, false, if◌then◌else◌, Option, none, some,
  List, [], ◌∷◌, ◌++◌, Bytes, length, arith, Bool-cases, bytes_eq, bytes_eq→eq, bytes_eq_refl,
}
use mathlib.Core.Path.{subst}
use my_vps_config.Base.Int.{ℤ, failure}
use my_vps_config.Htable.{Htable}
use my_vps_config.SecMod.Types.{
  ClientEntry, AuthStatus, SecConfig, Event, Env, Step, AuthCont, AuthSession, CliStats, sid_key,
}
use my_vps_config.SecMod.Reply.{handle_sec_auth_res, send_failed_session_open_reply}
use my_vps_config.SecMod.Login.{sid_size, handle_sec_auth_cont}
use my_vps_config.SecMod.Session.{
  Outcome, Outcome-cases, done, null_dereference, deny, cookie_expired, cookie_matches, open_entry,
  close_entry, stats_entry, handle_sec_auth_session_cmd, handle_sec_auth_session_open,
  handle_sec_auth_session_close, handle_sec_auth_stats_cmd,
}
use my_vps_config.SecMod.Keeps.{
  get-write_other, sid-handle_sec_auth_res, sid-open_entry, sid-close_entry, sid-stats_entry,
}
use my_vps_config.SecMod.Serve.{Command, auth_init, auth_cont, session, stats, maintenance, serve}
use my_vps_config.SecMod.Isolation.{names, Leaves, unchanged, served, expired, serve-other}
use my_vps_config.SecMod.Refused.{
  any_positive, any_positive-append, Refuses, res-Refuses, cont_entry-failed, refusal-any_positive,
  deny-Refuses, open_entry-failed, close_entry-Refuses, stats_entry-Refuses,
}

module _ {Ctx : Type 0} (ht : Htable (ClientEntry Ctx) sid_key) (cfg : SecConfig Ctx) where
  open ht use {Table, get}

  -- What the client with this SID is sent while it is in the table.
  unfoldable pub answers : Bytes → List (Env × Command) → Table → List Event
  unfolding serve
  answers k [] t = []
  answers k ((env, c) ∷ cs) t = elim (get k t) [
    | none ↦ []
    | some e ↦ elim (serve ht cfg env c t) [
      | null_dereference ↦ []
      | done (t', ret, events) ↦ (if names ht cfg c k then events else []) ++ answers k cs t'
    ]
  ]

  -- The client is gone, or failed.
  data IsBarred (k : Bytes) (t : Table) : Type 0 where
    gone : get k t ≡ none → IsBarred k t
    barred : (e : ClientEntry Ctx) → get k t ≡ some e → e.status ≡ AuthStatus.failed → IsBarred k t

  -- What a command that names the client does to it.
  stored-IsBarred :
      (env : Env) (k : Bytes) (t : Table) (e : ClientEntry Ctx) (s : Step Ctx)
      → get k t ≡ some e
      → s.entry.sid ≡ e.sid
      → s.entry.status ≡ AuthStatus.failed
      → IsBarred k (ht.write s.entry t)
  stored-IsBarred env k t e s found same failed =
      barred s.entry
        (ground (arith, get-write_other ht k k t e s.entry found same, bytes_eq_refl k)) failed

  -- What a command that names a failed client does: the client is barred, and nothing positive sent.
  unfoldable Named : Bytes → Table × ℤ × List Event → Type 0
  Named k r = IsBarred k r.0 × (any_positive r.2 ≡ false)

  cont-Named :
      (env : Env) (req : AuthCont) (t : Table) (e : ClientEntry Ctx)
      → get req.sid t ≡ some e
      → e.status ≡ AuthStatus.failed
      → Named req.sid (handle_sec_auth_cont ht cfg env req t)
  unfolding handle_sec_auth_cont Named
  cont-Named env req t e found failed = elim (Bool-cases (length req.sid == sid_size)) [
    | inr short ↦ rw short (barred e found failed, refl)
    | inl whole ↦
        let s = handle_sec_auth_res env cfg e failure in
        let (still, nothing) = res-Refuses env cfg e in
        rw (whole, found, cont_entry-failed env cfg e req.password failed)
          (
            stored-IsBarred env req.sid t e s found (sid-handle_sec_auth_res env cfg e failure)
                still,
            nothing,
          )
  ]

  close-Named :
      (env : Env) (req : AuthSession) (t : Table) (e : ClientEntry Ctx)
      → get req.sid t ≡ some e
      → e.status ≡ AuthStatus.failed
      → Named req.sid (handle_sec_auth_session_close ht cfg env req t)
  unfolding handle_sec_auth_session_close Named
  close-Named env req t e found failed = elim (Bool-cases (length req.sid == sid_size)) [
    | inr short ↦ rw short (barred e found failed, refl)
    | inl whole ↦
        let s = close_entry env cfg e req in
        let (still, nothing) = close_entry-Refuses env cfg e req failed in
        rw (whole, found)
          (stored-IsBarred env req.sid t e s found (sid-close_entry env cfg e req) still, nothing)
  ]

  open-Named :
      (env : Env) (req : AuthSession) (t : Table) (e : ClientEntry Ctx) (s : Step Ctx)
      (r : Table × ℤ × List Event)
      → get req.sid t ≡ some e
      → length req.sid ≡ sid_size
      → open_entry env cfg e req.cookie ≡ done s
      → Refuses env cfg s
      → handle_sec_auth_session_open ht cfg env req t ≡ done r
      → Named req.sid r
  unfolding handle_sec_auth_session_open Named
  open-Named env req t e s r found whole ran (still, nothing) h =
      let is : r ≡ (ht.write s.entry t, s.ret, s.events) = ground arith in
      rw is (
        stored-IsBarred env req.sid t e s found (sid-open_entry env cfg e req.cookie s ran) still,
        nothing,
      )

  stats-Named :
      (env : Env) (req : CliStats) (t : Table) (e : ClientEntry Ctx) (r : Table × ℤ × List Event)
      → get req.sid t ≡ some e
      → e.status ≡ AuthStatus.failed
      → handle_sec_auth_stats_cmd ht cfg env req t ≡ done r
      → Named req.sid r
  unfolding handle_sec_auth_stats_cmd Named
  stats-Named env req t e r found failed h = elim (Bool-cases (length req.sid == sid_size)) [
    | inr short ↦
        let is : r ≡ (t, failure, []) = ground arith in rw is (barred e found failed, refl)
    | inl whole ↦ elim (Outcome-cases (stats_entry env cfg e req)) [
      | inl crashed ↦ absurd (ground arith)
      | inr (s, ran) ↦
          let (still, nothing) = stats_entry-Refuses env cfg e req s failed ran in
          let is : r ≡ (ht.write s.entry t, s.ret, s.events) = ground arith in
          rw is (
            stored-IsBarred env req.sid t e s found (sid-stats_entry env cfg e req s ran) still,
            nothing,
          )
    ]
  ]

  session_open-Named :
      (env : Env) (req : AuthSession) (t : Table) (e : ClientEntry Ctx) (r : Table × ℤ × List Event)
      → get req.sid t ≡ some e
      → e.status ≡ AuthStatus.failed
      → handle_sec_auth_session_open ht cfg env req t ≡ done r
      → Named req.sid r
  unfolding handle_sec_auth_session_open Named
  session_open-Named env req t e r found failed h = elim (Bool-cases (length req.sid == sid_size)) [
    | inr short ↦
        let refused = send_failed_session_open_reply env cfg in
        let is : r ≡ (t, refused.0, refused.1) = ground arith in
        rw is (barred e found failed, refusal-any_positive env cfg)
    | inl whole ↦
        open-Named env req t e (deny env cfg e) r found (ground arith)
          (open_entry-failed env cfg e req.cookie failed) (deny-Refuses env cfg e failed) h
  ]

  done_same : {A : Type 0} {a b : A} → Outcome.done a ≡ done b → a ≡ b
  done_same {a = a} h = ap (λ o. elim o [ done x ↦ x | null_dereference ↦ a ]) h

  -- A command keeps a failed client barred, and sends it nothing positive.
  unfoldable Keeps : Command → Bytes → Table × ℤ × List Event → Type 0
  Keeps c k r = IsBarred k r.0 × (any_positive (if names ht cfg c k then r.2 else []) ≡ false)

  Named-Keeps :
      (c : Command) (j k : Bytes) (r : Table × ℤ × List Event)
      → names ht cfg c k ≡ true
      → bytes_eq j k ≡ true
      → Named j r
      → Keeps c k r
  unfolding Keeps Named
  Named-Keeps c j k r named same (b, nothing) =
      rw named (subst (λ x. IsBarred x r.0) (bytes_eq→eq j k same) b, nothing)

  get-names :
      (j k : Bytes) (t : Table) (e : ClientEntry Ctx)
      → get k t ≡ some e
      → bytes_eq j k ≡ true
      → get j t ≡ some e
  get-names j k t e found same = rw (bytes_eq→eq j k same) found

  serve-named :
      (env : Env) (c : Command) (t : Table) (r : Table × ℤ × List Event) (k : Bytes)
      (e : ClientEntry Ctx)
      → serve ht cfg env c t ≡ done r
      → names ht cfg c k ≡ true
      → get k t ≡ some e
      → e.status ≡ AuthStatus.failed
      → Keeps c k r
  unfolding serve handle_sec_auth_session_cmd
  serve-named env (auth_init req) t r k e h named found failed = absurd (ground arith)
  serve-named env maintenance t r k e h named found failed = absurd (ground arith)
  serve-named env (auth_cont req) t r k e h named found failed =
      Named-Keeps (auth_cont req) req.sid k r named named (
        subst (Named req.sid) (done_same h)
          (cont-Named env req t e (get-names req.sid k t e found named) failed))
  serve-named env (session true req) t r k e h named found failed =
      Named-Keeps (session true req) req.sid k r named named
        (session_open-Named env req t e r (get-names req.sid k t e found named) failed h)
  serve-named env (session false req) t r k e h named found failed =
      Named-Keeps (session false req) req.sid k r named named (
        subst (Named req.sid) (done_same h)
          (close-Named env req t e (get-names req.sid k t e found named) failed))
  serve-named env (stats req) t r k e h named found failed =
      Named-Keeps (stats req) req.sid k r named named
        (stats-Named env req t e r (get-names req.sid k t e found named) failed h)

  Leaves-IsBarred :
      (env : Env) (c : Command) (k : Bytes) (e : ClientEntry Ctx) (t : Table)
      (o : Option (ClientEntry Ctx))
      → Leaves ht cfg env c k e o
      → get k t ≡ o
      → e.status ≡ AuthStatus.failed
      → names ht cfg c k ≡ false
      → IsBarred k t
  Leaves-IsBarred env c k e t o (unchanged why) is failed other = barred e is failed
  Leaves-IsBarred env c k e t o (served e' named) is failed other = absurd (ground arith)
  Leaves-IsBarred env c k e t o (expired kind over) is failed other = gone is

  serve-Keeps :
      (env : Env) (c : Command) (t : Table) (r : Table × ℤ × List Event) (k : Bytes)
      (e : ClientEntry Ctx)
      → serve ht cfg env c t ≡ done r
      → get k t ≡ some e
      → e.status ≡ AuthStatus.failed
      → Keeps c k r
  unfolding Keeps
  serve-Keeps env c t r k e h found failed = elim (Bool-cases (names ht cfg c k)) [
    | inl named ↦ serve-named env c t r k e h named found failed
    | inr other ↦ rw other (
      Leaves-IsBarred env c k e r.0 (get k r.0) (serve-other ht cfg env c t r k e h found) refl
          failed other,
      refl,
    )
  ]

  answers-none :
      (env : Env) (c : Command) (cs : List (Env × Command)) (k : Bytes) (t : Table)
      → get k t ≡ none
      → answers k ((env, c) ∷ cs) t ≡ []
  unfolding answers
  answers-none env c cs k t absent = ground arith

  answers-crash :
      (env : Env) (c : Command) (cs : List (Env × Command)) (k : Bytes) (t : Table)
      → serve ht cfg env c t ≡ null_dereference
      → answers k ((env, c) ∷ cs) t ≡ []
  unfolding answers
  answers-crash env c cs k t crashed = ground arith

  answers-done :
      (env : Env) (c : Command) (cs : List (Env × Command)) (k : Bytes) (t : Table)
      (e : ClientEntry Ctx) (r : Table × ℤ × List Event)
      → get k t ≡ some e
      → serve ht cfg env c t ≡ done r
      → answers k ((env, c) ∷ cs) t ≡ (if names ht cfg c k then r.2 else []) ++ answers k cs r.0
  unfolding answers
  answers-done env c cs k t e r found ran = ground arith

  answers-IsBarred :
      (cs : List (Env × Command)) (k : Bytes) (t : Table)
      → IsBarred k t
      → any_positive (answers k cs t) ≡ false
  answers-IsBarred [] k t b = unfold answers in refl
  answers-IsBarred ((env, c) ∷ cs) k t (gone absent) = rw (answers-none env c cs k t absent) refl
  answers-IsBarred ((env, c) ∷ cs) k t (barred e found failed) =
      elim (Outcome-cases (serve ht cfg env c t)) [
        | inl crashed ↦ rw (answers-crash env c cs k t crashed) refl
        | inr (r, ran) ↦
            let (b, nothing) : IsBarred k r.0
                × (any_positive (if names ht cfg c k then r.2 else []) ≡ false) =
              unfold Keeps in serve-Keeps env c t r k e ran found failed in
            rw (answers-done env c cs k t e r found ran) (
              any_positive-append (if names ht cfg c k then r.2 else []) (answers k cs r.0) nothing
                (answers-IsBarred cs k r.0 b))
      ]

  -- A cookie that is missing, not the client's, or comes after its time.
  pub data IsWrong (env : Env) (e : ClientEntry Ctx) (c : Option Bytes) : Type 0 where
    other_cookie : c ≢ some e.cookie → IsWrong env e c
    late : (time : ℕ) → e.time ≡ some time → time + cfg.cookie_timeout < env.now → IsWrong env e c

  open_entry-wrong :
      (env : Env) (e : ClientEntry Ctx) (c : Option Bytes)
      → e.status ≡ AuthStatus.completed
      → IsWrong env e c
      → open_entry env cfg e c ≡ done (deny env cfg (record e { status = AuthStatus.failed }))
  unfolding open_entry cookie_expired cookie_matches
  open_entry-wrong env e c completed (late time given over) = ground arith
  open_entry-wrong env e none completed (other_cookie other) = ground arith
  open_entry-wrong env e (some c) completed (other_cookie other) =
      elim (Bool-cases (bytes_eq c e.cookie)) [
        | inl same ↦ absurd (other (ap some (bytes_eq→eq c e.cookie same)))
        | inr differs ↦ ground arith
      ]

  open_wrong-Named :
      (env : Env) (req : AuthSession) (t : Table) (e : ClientEntry Ctx) (r : Table × ℤ × List Event)
      → get req.sid t ≡ some e
      → length req.sid ≡ sid_size
      → e.status ≡ AuthStatus.completed
      → IsWrong env e req.cookie
      → serve ht cfg env (session true req) t ≡ done r
      → IsBarred req.sid r.0 × (any_positive r.2 ≡ false)
  unfolding serve handle_sec_auth_session_cmd Named
  open_wrong-Named env req t e r found whole completed wrong ran =
      let failed : ClientEntry Ctx = record e { status = AuthStatus.failed } in
      open-Named env req t e (deny env cfg failed) r found whole
        (open_entry-wrong env e req.cookie completed wrong) (deny-Refuses env cfg failed refl) ran

  -- A request to open the session of a completed client by a cookie that is missing, not the
  -- client's, or late, bars the client: neither that request nor any later command that names the
  -- client, whatever it presents, in whatever order and at whatever time commands come, is answered
  -- by a cookie or by opening the session, as long as the client is in the table.
  pub answers-open_wrong :
      (env : Env) (req : AuthSession) (t : Table) (e : ClientEntry Ctx) (cs : List (Env × Command))
      → get req.sid t ≡ some e
      → length req.sid ≡ sid_size
      → e.status ≡ AuthStatus.completed
      → IsWrong env e req.cookie
      → any_positive (answers req.sid ((env, session true req) ∷ cs) t) ≡ false
  answers-open_wrong env req t e cs found whole completed wrong =
      elim (Outcome-cases (serve ht cfg env (session true req) t)) [
        | inl crashed ↦ rw (answers-crash env (session true req) cs req.sid t crashed) refl
        | inr (r, ran) ↦
            let (b, nothing) = open_wrong-Named env req t e r found whole completed wrong ran in
            rw (answers-done env (session true req) cs req.sid t e r found ran) (
              any_positive-append (if names ht cfg (session true req) req.sid then r.2 else [])
                (answers req.sid cs r.0) (rw (bytes_eq_refl req.sid) nothing)
                (answers-IsBarred cs req.sid r.0 b))
      ]
