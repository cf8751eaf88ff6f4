-- ===== src/Main/Serve.antt =====
-- main-misc.c: the request of a worker that passes on a cookie, and what a positive reply says.
use my_vps_config.Base.{
  ◌≡◌, inl, inr, refl, sym, ap, ◌∙◌, Bool, true, false, if◌then◌else◌, Option, none, some, List,
  Bytes, arith, Bool-cases, Option-cases,
}
use mathlib.Core.Path.{subst}
use my_vps_config.Base.Int.{ℤ, success, err_bad_command, is_neg, is_zero}
use my_vps_config.Htable.Multi.{Multi}
use my_vps_config.SecMod.Types.{Cookie, AuthStatus}
use my_vps_config.Cookies.{decrypt_cookie}
use my_vps_config.Main.Proc.{Proc}
use my_vps_config.Main.Table.{ProcRef, addr_key, dtls_id_key, sid_key_of, address_of, ProcTable}
use my_vps_config.Main.Auth.{AuthWorld, handle_auth_cookie_req, check_multiple_users}
use my_vps_config.Main.Accept.{
  ReplyFields, reply_ok, AcceptWorld, cookie_auth_reply, AcceptEffect, handle_script_exit,
  accept_user, finish_auth, handle_cookie_auth_res,
}
use my_vps_config.Main.Granted.{IsGranted, handle_auth_cookie_req-IsGranted}

abbrev pub is_inactive : AuthStatus → Bool
is_inactive AuthStatus.inactive = true
is_inactive AuthStatus.failed = false
is_inactive AuthStatus.init = false
is_inactive AuthStatus.cont = false
is_inactive AuthStatus.completed = false

finish_auth-reply_ok :
    (a : AcceptWorld) (p : Proc) (code : ℤ) (f : ReplyFields)
    → (finish_auth a p code).reply ≡ some (reply_ok f)
    → is_zero code ≡ true
unfolding finish_auth handle_script_exit cookie_auth_reply
finish_auth-reply_ok a p code f h = ground arith

-- What main checked before it sent a positive reply.
pub record IsAccepted (a : AcceptWorld) (p : Proc) (others : List Proc) : Type 0 where
  pub within_limit : is_neg (check_multiple_users a.max_same_clients p others) ≡ false
  pub tun_opened : is_neg (a.open_tun p).0 ≡ false
  pub connected : is_zero (a.user_connected (a.open_tun p).1) ≡ true

is_zero-is_neg : (r : ℤ) → is_zero r ≡ true → is_neg r ≡ false
is_zero-is_neg (ℤ.pos n) h = refl
is_zero-is_neg (ℤ.negsuc n) h = sym h

pub is_zero→success : (r : ℤ) → is_zero r ≡ true → r ≡ success
is_zero→success (ℤ.pos n) h = ap ℤ.pos (ground arith)
is_zero→success (ℤ.negsuc n) h = absurd (ground arith)

accept_user-IsAccepted :
    (a : AcceptWorld) (p : Proc) (others : List Proc)
    → is_zero (accept_user a p others).0 ≡ true
    → IsAccepted a p others
unfolding accept_user
accept_user-IsAccepted a p others h =
    elim (Bool-cases (is_neg (check_multiple_users a.max_same_clients p others))) [
      | inl over ↦
          absurd (ground (arith, is_zero-is_neg (check_multiple_users a.max_same_clients p others)))
      | inr within ↦ elim (Bool-cases (is_neg (a.open_tun p).0)) [
        | inl off ↦ absurd (ground arith)
        | inr on ↦ record { within_limit = within; tun_opened = on; connected = ground arith }
      ]
    ]

handle_cookie_auth_res-reply_ok :
    (a : AcceptWorld) (p : Proc) (others : List Proc) (result : ℤ) (f : ReplyFields)
    → (handle_cookie_auth_res a p others result).reply ≡ some (reply_ok f)
    → (is_zero result ≡ true) × IsAccepted a p others
unfolding handle_cookie_auth_res
handle_cookie_auth_res-reply_ok a p others result f h =
    let got = accept_user a p others in
    let failing : Proc → Proc = λ q. record q { status = AuthStatus.failed } in
    let completing : Proc → Proc = λ q. record q { status = AuthStatus.completed } in
    elim (Bool-cases (is_zero result)) [
      | inr n ↦ elim (Bool-cases (is_neg result)) [
        | inl neg ↦ absurd (ground (arith, finish_auth-reply_ok a (failing p) result f))
        | inr pos' ↦ absurd (ground (arith, finish_auth-reply_ok a (failing p) err_bad_command f))
      ]
      | inl z ↦ elim (Bool-cases (is_neg got.0)) [
        | inl neg ↦
            absurd
              (ground (arith, finish_auth-reply_ok a (failing got.1) got.0 f, is_zero-is_neg got.0))
        | inr pos' ↦ (
          z,
          accept_user-IsAccepted a p others
              (ground (arith, finish_auth-reply_ok a (completing got.1) got.0 f)),
        )
      ]
    ]

module _ (ips : Multi ProcRef addr_key address_of) (ids : Multi ProcRef dtls_id_key address_of)
    (sids : Multi ProcRef sid_key_of address_of) where
  -- The case AUTH_COOKIE_REQ of `handle_commands`; with the process list and the tables.
  unfoldable pub serve_cookie :
      AuthWorld
      → AcceptWorld
      → Bytes
      → Proc
      → List Proc
      → ProcTable ips ids sids
      → Option (AcceptEffect × List Proc × ProcTable ips ids sids)
  serve_cookie w a cookie p others t =
      if is_inactive p.status
      then elim (handle_auth_cookie_req ips ids sids w cookie p others t) [
        | none ↦ none
        | some r ↦ some (handle_cookie_auth_res a r.proc r.others r.ret, r.others, r.tables)
      ]
      else some (record { ret = err_bad_command; proc = p; reply = none }, others, t)

  -- Main replies positively at once only to the first request of a worker, and only if the cookie
  -- decrypts to a message for whose SID the security module granted a session on that very cookie,
  -- the process has the SID and the (cut) user name of the message, its address is the one of the
  -- message unless roaming is allowed, the user stays within the limit of connections, the tunnel
  -- was opened, and there was no connect script to wait for.
  pub serve_cookie-IsGranted :
      (w : AuthWorld) (a : AcceptWorld) (cookie : Bytes) (p : Proc) (others : List Proc)
      (t : ProcTable ips ids sids) (e : AcceptEffect) (others' : List Proc)
      (t' : ProcTable ips ids sids) (f : ReplyFields)
      → serve_cookie w a cookie p others t ≡ some (e, others', t')
      → e.reply ≡ some (reply_ok f)
      → (is_inactive p.status ≡ true)
        × ((c : Cookie) × (q : Proc) × (decrypt_cookie w.gcm w.packing w.cookie_key cookie ≡ some c)
            × IsGranted w cookie c q
            × IsAccepted a q others')
  unfolding serve_cookie
  serve_cookie-IsGranted w a cookie p others t e others' t' f h ok =
      elim (Bool-cases (is_inactive p.status)) [
        | inr other ↦ absurd (ground arith)
        | inl inactive ↦
            elim (Option-cases (handle_auth_cookie_req ips ids sids w cookie p others t)) [
              | inl n ↦ absurd (ground arith)
              | inr (r, is) ↦
                  let same : handle_cookie_auth_res a r.proc r.others r.ret ≡ e = ground arith in
                  let same' : r.others ≡ others' = ground arith in
                  let (z, accepted) =
                    handle_cookie_auth_res-reply_ok a r.proc r.others r.ret f
                      (ap (λ x. x.reply) same ∙ ok) in
                  let (c, d, granted) =
                    handle_auth_cookie_req-IsGranted ips ids sids w cookie p others t r is
                      (is_zero→success r.ret z) in
                  (
                    inactive,
                    (c, r.proc, d, granted, subst (λ x. IsAccepted a r.proc x) same' accepted),
                  )
            ]
      ]
