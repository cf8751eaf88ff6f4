-- ===== src/Together/Authorized.antt =====
-- A worker that is told to go on serves a client that completed its authentication.
use my_vps_config.Base.{
  ◌≡◌, inl, inr, refl, ap, ◌∙◌, ◌==◌, true, false, some, List, [], ◌∷◌, Bytes, length, arith,
  Bool-cases, Option-cases,
}
use mathlib.Core.Path.{subst}
use my_vps_config.Base.Int.{is_neg}
use my_vps_config.Htable.{Htable}
use my_vps_config.Htable.Multi.{Multi}
use my_vps_config.SecMod.Types.{
  ClientEntry, AuthStatus, sid_key, SecConfig, Env, Event, reply, ban_ip, session_stats,
  close_session, auth_deinit, Reply, auth_ok, auth_failed, auth_msg, session_ok, session_failed,
  cli_stats, AuthSession, Cookie, Step,
}
use my_vps_config.SecMod.Login.{sid_size}
use my_vps_config.SecMod.Reply.{send_failed_session_open_reply}
use my_vps_config.SecMod.Session.{done, Outcome-cases, open_entry, handle_sec_auth_session_open}
use my_vps_config.SecMod.Sessions.{is_session_ok, grants, IsFresh, open_entry-grants}
use my_vps_config.Cookies.{decrypt_cookie}
use my_vps_config.Main.Proc.{Proc}
use my_vps_config.Main.Table.{ProcRef, addr_key, dtls_id_key, sid_key_of, address_of, ProcTable}
use my_vps_config.Main.Session.{SessionReply, replied}
use my_vps_config.Main.Auth.{AuthWorld}
use my_vps_config.Main.Accept.{ReplyFields, reply_ok, AcceptWorld, AcceptEffect}
use my_vps_config.Main.Serve.{serve_cookie, serve_cookie-IsGranted}
use my_vps_config.Together.{session_reply, reply_event, first_reply, ask_sec_mod}

module _ {Ctx : Type 0} (ht : Htable (ClientEntry Ctx) sid_key) (cfg : SecConfig Ctx) (env : Env)
    (config : Bytes → SessionReply) where
  session_reply-is_ok :
      (r : Reply) (m : SessionReply)
      → session_reply ht cfg env config r ≡ some m
      → m.is_ok ≡ true
      → is_session_ok (reply r) ≡ true
  session_reply-is_ok (session_ok c) m h ok = refl
  session_reply-is_ok session_failed m h ok = absurd (ground arith)
  session_reply-is_ok (auth_ok c u s i d) m h ok = absurd (ground arith)
  session_reply-is_ok auth_failed m h ok = absurd (ground arith)
  session_reply-is_ok (auth_msg s i) m h ok = absurd (ground arith)
  session_reply-is_ok (cli_stats i o) m h ok = absurd (ground arith)

  reply_event-is_ok :
      (e : Event) (m : SessionReply)
      → reply_event ht cfg env config e ≡ some m
      → m.is_ok ≡ true
      → is_session_ok e ≡ true
  reply_event-is_ok (reply r) m h ok = elim (Bool-cases (is_neg (env.send r))) [
    | inl y ↦ absurd (ground arith)
    | inr y ↦ session_reply-is_ok r m (ground arith) ok
  ]
  reply_event-is_ok (ban_ip ip n) m h ok = absurd (ground arith)
  reply_event-is_ok (session_stats a s) m h ok = absurd (ground arith)
  reply_event-is_ok (close_session a s) m h ok = absurd (ground arith)
  reply_event-is_ok auth_deinit m h ok = absurd (ground arith)

  first_reply-grants :
      (es : List Event) (m : SessionReply)
      → first_reply ht cfg env config es ≡ replied m
      → m.is_ok ≡ true
      → grants es ≡ true
  first_reply-grants [] m h ok = absurd (ground arith)
  first_reply-grants (e ∷ es) m h ok = elim (Option-cases (reply_event ht cfg env config e)) [
    | inl n ↦ ground (arith, first_reply-grants es m (ground arith) ok)
    | inr (x, is) ↦
        let same : x ≡ m = ground arith in
        ground (arith, reply_event-is_ok e m (is ∙ ap some same) ok)
  ]

  -- The client of a request, as the security module knows it.
  pub record IsAuthorized (t : ht.Table) (sid cookie : Bytes) (e : ClientEntry Ctx) : Type 0 where
    pub known : ht.get sid t ≡ some e
    pub completed : e.status ≡ AuthStatus.completed
    pub fresh : IsFresh env cfg e
    pub cookie_is : e.cookie ≡ cookie

  open_entry-IsAuthorized :
      (t : ht.Table) (req : AuthSession) (cookie : Bytes) (e : ClientEntry Ctx) (s : Step Ctx)
      → ht.get req.sid t ≡ some e
      → req.cookie ≡ some cookie
      → open_entry env cfg e req.cookie ≡ done s
      → grants s.events ≡ true
      → IsAuthorized t req.sid cookie e
  open_entry-IsAuthorized t req cookie e s known c is g =
      let (completed, fresh, matches) = open_entry-grants env cfg e req.cookie s is g in
      record { known = known; completed = completed; fresh = fresh; cookie_is = ground arith }

  refused-grants : grants (send_failed_session_open_reply env cfg).1 ≡ false
  unfolding send_failed_session_open_reply
  refused-grants = ground arith

  ask_sec_mod-IsAuthorized :
      (t : ht.Table) (req : AuthSession) (m : SessionReply) (cookie : Bytes)
      → ask_sec_mod ht cfg env config t req ≡ replied m
      → m.is_ok ≡ true
      → req.cookie ≡ some cookie
      → (e : ClientEntry Ctx) × IsAuthorized t req.sid cookie e
  unfolding ask_sec_mod handle_sec_auth_session_open
  ask_sec_mod-IsAuthorized t req m cookie h ok c =
      let no : first_reply ht cfg env config (send_failed_session_open_reply env cfg).1 ≡ replied m
          → ⊥ =
        λ x. absurd (
          ground (
            arith,
            refused-grants,
            first_reply-grants (send_failed_session_open_reply env cfg).1 m x ok,
          )) in
      elim (Bool-cases (length req.sid == sid_size)) [
        | inr off ↦ absurd (no (ground arith))
        | inl fits ↦ elim (Option-cases (ht.get req.sid t)) [
          | inl n ↦ absurd (no (ground arith))
          | inr (e, known) ↦ elim (Outcome-cases (open_entry env cfg e req.cookie)) [
            | inl crash ↦ absurd (ground arith)
            | inr (s, is) ↦
                let got : first_reply ht cfg env config s.events ≡ replied m = ground arith in
                (
                  e,
                  open_entry-IsAuthorized t req cookie e s known c is
                      (first_reply-grants s.events m got ok),
                )
          ]
        ]
      ]

  module _ (ips : Multi ProcRef addr_key address_of) (ids : Multi ProcRef dtls_id_key address_of)
      (sids : Multi ProcRef sid_key_of address_of) where
    -- Main with the security module at the other end: if a worker is sent a positive reply to a
    -- cookie, the cookie decrypts to a message for whose SID the security module has a client that
    -- completed its authentication, within the time of its cookie (or while it has a session), and
    -- whose cookie is the very one that was presented.
    pub serve_cookie-IsAuthorized :
        (known : ht.Table) (w : AuthWorld) (a : AcceptWorld) (cookie : Bytes) (p : Proc)
        (others : List Proc) (t : ProcTable ips ids sids) (e : AcceptEffect) (others' : List Proc)
        (t' : ProcTable ips ids sids) (f : ReplyFields)
        → serve_cookie ips ids sids
            (record w { ask = ask_sec_mod ht cfg env config known })
            a
            cookie
            p
            others
            t
          ≡ some (e, others', t')
        → e.reply ≡ some (reply_ok f)
        → (c : Cookie) × (entry : ClientEntry Ctx) × (decrypt_cookie w.gcm w.packing w.cookie_key
              cookie
            ≡ some c)
          × IsAuthorized known c.sid cookie entry
    serve_cookie-IsAuthorized known w a cookie p others t e others' t' f h ok =
        let w' : AuthWorld = record w { ask = ask_sec_mod ht cfg env config known } in
        let (inactive, (c, q, d, granted, accepted)) =
          serve_cookie-IsGranted ips ids sids w' a cookie p others t e others' t' f h ok in
        let (req, m, is, is_ok, sid, given) = granted.granted in
        let (entry, authorized) = ask_sec_mod-IsAuthorized known req m cookie is is_ok given in
        (c, entry, d, subst (λ x. IsAuthorized known x cookie entry) sid authorized)
