-- ===== src/Main/Granted.antt =====
-- main-auth.c: whom the main process accepts on presentation of a cookie.
use my_vps_config.Base.{
  ℕ, ◌≡◌, ◌⊎◌, inl, inr, refl, ◌∙◌, ◌==◌, true, false, Option, none, some, List, Bytes, bytes_eq,
  bytes_eq→eq, strlcpy, length, is_empty, arith, Bool-cases, Option-cases,
}
use mathlib.Core.Path.{subst}
use my_vps_config.Base.Int.{ℤ, success, is_neg}
use my_vps_config.Htable.Multi.{Multi}
use my_vps_config.SecMod.Types.{Cookie, AuthSession}
use my_vps_config.SecMod.Login.{sid_size}
use my_vps_config.Cookies.{decrypt_cookie}
use my_vps_config.Main.Proc.{Proc, deref}
use my_vps_config.Main.Table.{
  ProcRef, addr_key, dtls_id_key, sid_key_of, address_of, ProcTable, proc_search_sid,
}
use my_vps_config.Main.Session.{
  SessionReply, Answer, not_sent, no_reply, replied, session_request, session_open,
}
use my_vps_config.Main.Auth.{
  AuthWorld, max_username_size, take_cookie, default_config, address_fits, AuthEffect, enter_proc,
  take_over, resume_proc, open_proc, handle_auth_cookie_req,
}

pub Answer-cases :
    {Msg : Type 0} (a : Answer Msg)
    → (a ≡ not_sent) ⊎ ((n : ℕ) × (a ≡ no_reply n)) ⊎ ((m : Msg) × (a ≡ replied m))
Answer-cases not_sent = inl refl
Answer-cases (no_reply n) = inr (inl (n, refl))
Answer-cases (replied m) = inr (inr (m, refl))

-- The security module answered a request to open the session of this SID by this cookie.
abbrev pub Grants : (AuthSession → Answer SessionReply) → Bytes → Bytes → Type 0
Grants ask cookie sid =
    (req : AuthSession) × (m : SessionReply) × (ask req ≡ replied m)
    × (m.is_ok ≡ true)
    × (req.sid ≡ sid)
    × (req.cookie ≡ some cookie)

-- The security module granted a session to this process and cookie.
pub record IsGranted (w : AuthWorld) (cookie : Bytes) (c : Cookie) (p : Proc) : Type 0 where
  pub granted : Grants w.ask cookie c.sid
  pub sid : p.sid ≡ c.sid
  pub username : p.username ≡ strlcpy max_username_size c.username
  pub active : p.active_sid ≡ true
  pub address : (p.config.deny_roaming ≡ false) ⊎ (w.human_addr p.remote_addr ≡ some c.ip)

-- A process with these fields, up to those that the end of the handler sets.
abbrev SameSession : Proc → Proc → Type 0
SameSession p q =
    (q.sid ≡ p.sid)
    × (q.username ≡ p.username)
    × (q.active_sid ≡ p.active_sid)
    × (q.config ≡ p.config)
    × (q.remote_addr ≡ p.remote_addr)

module _ (ips : Multi ProcRef addr_key address_of) (ids : Multi ProcRef dtls_id_key address_of)
    (sids : Multi ProcRef sid_key_of address_of) where
  enter_proc-SameSession :
      (c : Cookie) (killed : Option ℤ) (p : Proc) (others : List Proc) (t : ProcTable ips ids sids)
      → SameSession p (enter_proc ips ids sids c killed p others t).proc
  unfolding enter_proc
  enter_proc-SameSession c killed p others t = (refl, refl, refl, refl, refl)

  take_over-SameSession :
      (c : Cookie) (old p : Proc) (others : List Proc) (t : ProcTable ips ids sids)
      → SameSession p (take_over ips ids sids c old p others t).proc
  unfolding take_over enter_proc
  take_over-SameSession c old p others t = elim (Bool-cases (bytes_eq p.username old.username)) [
    | inl e ↦ rw e (refl, refl, refl, refl, refl)
    | inr e ↦ rw e (refl, refl, refl, refl, refl)
  ]

  resume_proc-SameSession :
      (c : Cookie) (p : Proc) (others : List Proc) (t : ProcTable ips ids sids)
      (r : AuthEffect ips ids sids)
      → resume_proc ips ids sids c p others t ≡ some r
      → SameSession p r.proc
  unfolding resume_proc
  resume_proc-SameSession c p others t r h =
      elim (Option-cases (proc_search_sid ips ids sids c.sid t)) [
        | inl e ↦
            let is : enter_proc ips ids sids c none p others t ≡ r = ground arith in
            subst (λ x. SameSession p x.proc) is (enter_proc-SameSession c none p others t)
        | inr (x, e) ↦ elim (Option-cases (deref x.address others)) [
          | inl n ↦ absurd (ground arith)
          | inr (old, e') ↦
              let is : take_over ips ids sids c old p others t ≡ r = ground arith in
              subst (λ x. SameSession p x.proc) is (take_over-SameSession c old p others t)
        ]
      ]

  -- After a session was opened, or was not, these fields are the same.
  session_open-kept :
      (ask : AuthSession → Answer SessionReply) (cookie : Bytes) (now : ℕ) (p : Proc)
      → let q = (session_open ask cookie now p).1 in
        (q.sid ≡ p.sid) × (q.username ≡ p.username) × (q.remote_addr ≡ p.remote_addr)
  unfolding session_open
  session_open-kept ask cookie now p =
      elim (Answer-cases (ask (session_request (some cookie) now p))) [
        | inl e ↦ rw (session_open, e) (refl, refl, refl)
        | inr (inl (n, e)) ↦ rw (session_open, e) (refl, refl, refl)
        | inr (inr (m, e)) ↦ elim (Bool-cases m.is_ok) [
          | inl y ↦ rw (session_open, e, y) (refl, refl, refl)
          | inr y ↦ rw (session_open, e, y) (refl, refl, refl)
        ]
      ]

  session_open-Grants :
      (ask : AuthSession → Answer SessionReply) (cookie : Bytes) (now : ℕ) (p : Proc)
      → is_neg (session_open ask cookie now p).0 ≡ false
      → Grants ask cookie p.sid
  unfolding session_open
  session_open-Grants ask cookie now p h =
      elim (Answer-cases (ask (session_request (some cookie) now p))) [
        | inl e ↦ absurd (ground arith)
        | inr (inl (n, e)) ↦ absurd (ground arith)
        | inr (inr (m, e)) ↦ (session_request (some cookie) now p, m, e, ground arith, refl, refl)
      ]

  address_fits_lem :
      (w : AuthWorld) (c : Cookie) (p : Proc)
      → address_fits w c p ≡ true
      → (p.config.deny_roaming ≡ false) ⊎ (w.human_addr p.remote_addr ≡ some c.ip)
  unfolding address_fits
  address_fits_lem w c p h = elim (Bool-cases p.config.deny_roaming) [
    | inl e ↦ elim (Option-cases (w.human_addr p.remote_addr)) [
      | inl n ↦ absurd (ground arith)
      | inr (s, e') ↦ inr (ground (arith, bytes_eq→eq s c.ip))
    ]
    | inr e ↦ inl e
  ]

  take_cookie_lem :
      (w : AuthWorld) (c : Cookie) (p : Proc)
      → (take_cookie w c p).0 ≡ true
      → let q = (take_cookie w c p).1 in
        (q.sid ≡ c.sid)
        × (q.username ≡ strlcpy max_username_size c.username)
        × (q.remote_addr ≡ p.remote_addr)
  unfolding take_cookie default_config
  take_cookie_lem w c p h = elim (Bool-cases (length c.sid == sid_size)) [
    | inl e ↦ elim (Option-cases w.nonce) [
      | inl n ↦ absurd (ground arith)
      | inr (id, e') ↦ rw (e, e') (refl, refl, refl)
    ]
    | inr e ↦ absurd (ground arith)
  ]

  open_proc-IsGranted :
      (w : AuthWorld) (cookie : Bytes) (c : Cookie) (p : Proc) (others : List Proc)
      (t : ProcTable ips ids sids) (r : AuthEffect ips ids sids)
      → p.sid ≡ c.sid
      → p.username ≡ strlcpy max_username_size c.username
      → open_proc ips ids sids w cookie c p others t ≡ some r
      → r.ret ≡ success
      → IsGranted w cookie c r.proc
  unfolding open_proc
  open_proc-IsGranted w cookie c p others t r sid name h ok =
      let q : Proc = record ((session_open w.ask cookie w.now p).1) { active_sid = true } in
      elim (Bool-cases (is_neg (session_open w.ask cookie w.now p).0)) [
        | inl bad ↦ absurd (ground arith)
        | inr good ↦ elim (Bool-cases (address_fits w c q)) [
          | inr off ↦ absurd (ground arith)
          | inl fits ↦
              let is : resume_proc ips ids sids c q others t ≡ some r = ground arith in
              let (sid', name', active', config', addr') =
                resume_proc-SameSession c q others t r is in
              let (sid'', name'', addr'') = session_open-kept w.ask cookie w.now p in
              let ok' : is_neg (session_open w.ask cookie w.now p).0 ≡ false = good in
              record {
                granted =
                    subst (Grants w.ask cookie) sid (session_open-Grants w.ask cookie w.now p ok');
                sid = sid' ∙ sid'' ∙ sid;
                username = name' ∙ name'' ∙ name;
                active = active';
                address = rw (config', addr') (address_fits_lem w c q fits);
              }
        ]
      ]

  pub handle_auth_cookie_req-IsGranted :
      (w : AuthWorld) (cookie : Bytes) (p : Proc) (others : List Proc) (t : ProcTable ips ids sids)
      (r : AuthEffect ips ids sids)
      → handle_auth_cookie_req ips ids sids w cookie p others t ≡ some r
      → r.ret ≡ success
      → (c : Cookie) × (decrypt_cookie w.gcm w.packing w.cookie_key cookie ≡ some c)
        × IsGranted w cookie c r.proc
  unfolding handle_auth_cookie_req
  handle_auth_cookie_req-IsGranted w cookie p others t r h ok =
      elim (Bool-cases (is_empty cookie)) [
        | inl e ↦ absurd (ground arith)
        | inr e ↦ elim (Option-cases (decrypt_cookie w.gcm w.packing w.cookie_key cookie)) [
          | inl n ↦ absurd (ground arith)
          | inr (c, d) ↦ elim (Bool-cases (take_cookie w c p).0) [
            | inr off ↦ absurd (ground arith)
            | inl on ↦
                let (sid, name, addr) = take_cookie_lem w c p on in
                let is : open_proc ips ids sids w cookie c (take_cookie w c p).1 others t ≡ some r =
                  ground arith in
                (
                  c,
                  d,
                  open_proc-IsGranted w cookie c (take_cookie w c p).1 others t r sid name is ok,
                )
          ]
        ]
      ]
