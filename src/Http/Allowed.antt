-- ===== src/Http/Allowed.antt =====
-- worker-auth.c: which requests the worker sends to the security module.
use my_vps_config.Base.{
  ◌≡◌, sym, ◌∙◌, ◌≢◌, ◌⊎◌, refl, ap, Bool, true, false, not, ◌&&◌, if◌then◌else◌, none, some, [],
  is_empty, length, arith, Bool-cases, Option-cases, ltb, inl, inr,
}
use mathlib.Core.Path.{subst}
use my_vps_config.Text.{Outcome, done, fault}
use my_vps_config.SecMod.Types.{AuthInit, AuthCont}
use my_vps_config.Http.Types.{
  AuthStruct, AuthState, auth_inactive, auth_init, auth_req, auth_cookie, auth_complete,
}
use my_vps_config.Http.Value.{gssapi, username_pass, has_type}
use my_vps_config.Http.Post.{
  certificate, PostWorker, PostEnv, Page, unauthorized, auth_failed, internal_error, ToModule,
  init_msg, cont_msg, Posted, set_state,
}
use my_vps_config.Http.Select.{codes}
use my_vps_config.Http.Callbacks.{selected}
use my_vps_config.Http.PostAuth.{
  Stage, proceed, stop, gssapi_request, name_request, cert_request, group_request, empty_init,
  form_field, supplied, missing, exchange, post_init, post_cont, post_at, post_auth_handler,
  init_request, cont_request, rejoin, and_then,
}
use my_vps_config.Http.Granted.{is_cookie_page, IsGranted, finish_post-IsGranted}

-- A request for a new client comes from a worker without a SID that has not begun; a password comes
-- with the worker's SID, from a worker that has begun or has a SID.
pub data Fits (ws : PostWorker) : ToModule → Type 0 where
  starts :
      (i : AuthInit)
      → ws.http.auth_state ≡ auth_inactive
      → ws.http.sid_set ≡ false
      → Fits ws (init_msg i)
  goes_on :
      (c : AuthCont)
      → c.sid ≡ (if ws.http.sid_set then ws.http.sid else [])
      → (ws.http.auth_state ≢ auth_inactive) ⊎ (ws.http.sid_set ≡ true)
      → ws.http.auth_state ≢ auth_cookie
      → Fits ws (cont_msg c)

-- What is sent fits the worker, and the page with the cookie follows on a message only.
pub record IsAllowed (env : PostEnv) (ws : PostWorker) (r : Posted) : Type 0 where
  pub fits : (m : ToModule) → r.sent ≡ some m → Fits ws m
  pub asked : is_cookie_page r.answer ≡ true → r.sent ≢ none
  pub granted : is_cookie_page r.answer ≡ true → IsGranted env r.worker

silent :
    (env : PostEnv) (ws ws' : PostWorker) (answer : Page)
    → is_cookie_page answer ≡ false
    → IsAllowed env ws (record { worker = ws'; sent = none; answer = answer })
silent env ws ws' answer plain = record {
  fits = λ m e. ground arith;
  asked = λ h. absurd (ground arith);
  granted = λ h. absurd (ground arith);
}

some_same : {m m' : ToModule} → some m ≡ some m' → m ≡ m'
some_same {m = m} e = ap (λ o. elim o [ none ↦ m | some x ↦ x ]) e

exchange-IsAllowed :
    (env : PostEnv) (a : AuthStruct) (ws ws' : PostWorker) (state : AuthState) (m : ToModule)
    → Fits ws m
    → IsAllowed env ws (exchange env a ws' state m)
unfolding exchange
exchange-IsAllowed env a ws ws' state m f = elim (Bool-cases (env.connects && env.sends)) [
  | inl reached ↦ rw reached (record {
    fits = λ m' e. subst (Fits ws) (some_same e) f;
    asked = λ h e. ground arith;
    granted = finish_post-IsGranted env a env.reply (set_state state ws') refl;
  })
  | inr lost ↦ rw lost (silent env ws ws' (unauthorized internal_error) refl)
]

-- No page of a request that is not sent is the one with the cookie.
abbrev IsPlain : Stage → Type 0
IsPlain (proceed ws ireq) = Unit {0}
IsPlain (stop ws answer) = is_cookie_page answer ≡ false

and_then-IsPlain :
    (s : Stage) (f : PostWorker → AuthInit → Stage)
    → IsPlain s
    → ((ws : PostWorker) (ireq : AuthInit) → IsPlain (f ws ireq))
    → IsPlain (and_then s f)
and_then-IsPlain (proceed ws ireq) f plain rest = rest ws ireq
and_then-IsPlain (stop ws answer) f plain rest = plain

gssapi_request-IsPlain :
    (a : AuthStruct) (ws : PostWorker) (ireq : AuthInit) → IsPlain (gssapi_request a ws ireq)
unfolding gssapi_request
gssapi_request-IsPlain a ws ireq = elim (Bool-cases (has_type gssapi a)) [
  | inl g ↦ elim (Option-cases ws.http.req.authorization) [
    | inl unset ↦ rw (g, unset) refl
    | inr (v, set) ↦ elim (Bool-cases (is_empty v)) [
      | inl empty ↦ rw (g, set, empty) refl
      | inr full ↦ elim (Bool-cases (ltb 10 (length v))) [
        | inl long ↦ rw (g, set, full, long) tt
        | inr short ↦ rw (g, set, full, short) refl
      ]
    ]
  ]
  | inr g ↦ rw g tt
]

name_request-IsPlain :
    (env : PostEnv) (a : AuthStruct) (ws : PostWorker) (ireq : AuthInit)
    → IsPlain (name_request env a ws ireq)
unfolding name_request
name_request-IsPlain env a ws ireq = elim (Bool-cases (has_type username_pass a)) [
  | inl n ↦ elim (Option-cases (form_field env ws (codes "username") none)) [
    | inl none_read ↦ rw (n, none_read) refl
    | inr (u, read) ↦ rw (n, read) tt
  ]
  | inr n ↦ rw n tt
]

cert_request-IsPlain :
    (env : PostEnv) (default : Bool) (a : AuthStruct) (ws : PostWorker) (ireq : AuthInit)
    → IsPlain (cert_request env default a ws ireq)
unfolding cert_request
cert_request-IsPlain env default a ws ireq = elim (Bool-cases (has_type certificate a)) [
  | inr c ↦ rw c tt
  | inl c ↦ elim (Bool-cases ws.cert_auth_ok) [
    | inr bad ↦ rw (c, bad) refl
    | inl ok ↦ elim (Option-cases env.cert_info) [
      | inl unread ↦ rw (c, ok, unread) refl
      | inr ((name, groups), read) ↦
          elim (Bool-cases (not default && (ltb 0 (length groups) && is_empty ws.groupname))) [
            | inl ask ↦ rw (c, ok, read, ask) refl
            | inr chosen ↦ rw (c, ok, read, chosen) tt
          ]
    ]
  ]
]

init_request-IsPlain :
    (env : PostEnv) (a : AuthStruct) (ws : PostWorker) → IsPlain (init_request env a ws)
unfolding init_request
init_request-IsPlain env a ws =
    let (grouped, default, group) = group_request env ws in
    and_then-IsPlain (gssapi_request a grouped (empty_init grouped group)) _
      (gssapi_request-IsPlain a grouped (empty_init grouped group))
      (λ ws ireq.
        and_then-IsPlain (name_request env a ws ireq) _ (name_request-IsPlain env a ws ireq)
          (λ ws ireq. cert_request-IsPlain env default a ws ireq))

post_init-IsAllowed :
    (env : PostEnv) (a : AuthStruct) (ws begun : PostWorker)
    → ws.http.auth_state ≡ auth_inactive
    → ws.http.sid_set ≡ false
    → IsAllowed env ws (post_init env a begun)
unfolding post_init
post_init-IsAllowed env a ws begun fresh unset =
    elim (init_request env a begun)
        as (λ x.
          IsPlain x
          → IsAllowed env ws (elim x as (λ y. Posted) [
            | proceed ws' ireq ↦ exchange env a ws' auth_init (init_msg ireq)
            | stop ws' answer ↦ record { worker = ws'; sent = none; answer = answer }
          ])) [
            | proceed ws' ireq ↦ λ plain.
                exchange-IsAllowed env a ws ws' auth_init (init_msg ireq) (starts ireq fresh unset)
            | stop ws' answer ↦ λ plain. silent env ws ws' answer plain
          ]
      (init_request-IsPlain env a begun)

post_cont-IsAllowed :
    (env : PostEnv) (a : AuthStruct) (ws ws' : PostWorker)
    → ((c : AuthCont)
        → c.sid ≡ (if ws'.http.sid_set then ws'.http.sid else [])
        → Fits ws (cont_msg c))
    → IsAllowed env ws (post_cont env a ws')
unfolding post_cont
post_cont-IsAllowed env a ws ws' fits =
    elim (cont_request env a ws')
      as (λ x. IsAllowed env ws (elim x as (λ y. Posted) [
        | supplied password ↦ exchange env a ws' auth_req (
            cont_msg (record {
              sid = if ws'.http.sid_set then ws'.http.sid else [];
              password = some password;
            }))
        | missing reason ↦ record { worker = ws'; sent = none; answer = unauthorized reason }
      ])) [
        | supplied password ↦ exchange-IsAllowed env a ws ws' auth_req _ (fits _ refl)
        | missing reason ↦ silent env ws ws' (unauthorized reason) refl
      ]

pub record Continues (ws begun : PostWorker) : Type 0 where
  pub sid_set : begun.http.sid_set ≡ ws.http.sid_set
  pub sid : begun.http.sid ≡ ws.http.sid
  pub begun_or_set : (ws.http.auth_state ≢ auth_inactive) ⊎ (ws.http.sid_set ≡ true)
  pub open_state : ws.http.auth_state ≢ auth_cookie

abbrev AllowsAll : PostEnv → PostWorker → Outcome Posted → Type 0
AllowsAll env ws fault = Unit {0}
AllowsAll env ws (done r) = IsAllowed env ws r

-- What the branch of a state needs of the worker as it was.
abbrev Begins : PostWorker → PostWorker → AuthState → Type 0
Begins ws begun auth_inactive = (ws.http.auth_state ≡ auth_inactive) × (ws.http.sid_set ≡ false)
Begins ws begun auth_init = Continues ws begun
Begins ws begun auth_req = Continues ws begun
Begins ws begun auth_cookie = Unit {0}
Begins ws begun auth_complete = Unit {0}

continued :
    (env : PostEnv) (ws begun : PostWorker)
    → Continues ws begun
    → AllowsAll env ws (elim (selected begun.http) as (λ y. Outcome Posted) [
      | none ↦ fault
      | some a ↦ done (post_cont env a begun)
    ])
continued env ws begun k =
    elim (selected begun.http)
      as (λ x. AllowsAll env ws (elim x as (λ y. Outcome Posted) [
        | none ↦ fault
        | some a ↦ done (post_cont env a begun)
      ])) [
        | none ↦ tt
        | some a ↦
            post_cont-IsAllowed env a ws begun
              (λ c same. goes_on c (same ∙ rw (k.sid_set, k.sid) refl) k.begun_or_set k.open_state)
      ]

post_at-AllowsAll :
    (env : PostEnv) (ws begun : PostWorker) (state : AuthState)
    → Begins ws begun state
    → AllowsAll env ws (post_at env state begun)
unfolding post_at
post_at-AllowsAll env ws begun auth_inactive (fresh, unset) =
    elim (selected begun.http)
      as (λ x. AllowsAll env ws (elim x as (λ y. Outcome Posted) [
        | none ↦ fault
        | some a ↦ done (post_init env a begun)
      ])) [ none ↦ tt | some a ↦ post_init-IsAllowed env a ws begun fresh unset ]
post_at-AllowsAll env ws begun auth_init fits = continued env ws begun fits
post_at-AllowsAll env ws begun auth_req fits = continued env ws begun fits
post_at-AllowsAll env ws begun auth_cookie fits =
    silent env ws begun (unauthorized auth_failed) refl
post_at-AllowsAll env ws begun auth_complete fits =
    silent env ws begun (unauthorized auth_failed) refl

stays :
    (ws : PostWorker)
    → (ws.http.auth_state ≢ auth_inactive) ⊎ (ws.http.sid_set ≡ true)
    → ws.http.auth_state ≢ auth_cookie
    → Continues ws ws
stays ws begun barred = record {
  sid_set = refl;
  sid = refl;
  begun_or_set = begun;
  open_state = barred;
}

set_or_not :
    (ws : PostWorker) (b : Bool)
    → ws.http.auth_state ≡ auth_inactive
    → ws.http.sid_set ≡ b
    → Begins ws
        (if b then set_state auth_init ws else ws)
        (if b then set_state auth_init ws else ws).http.auth_state
set_or_not ws true e set = record {
  sid_set = refl;
  sid = refl;
  begun_or_set = inr set;
  open_state = λ c. ground arith;
}
set_or_not ws false e unset = subst (Begins ws ws) (sym e) (e, unset)

rejoin-Begins :
    (ws : PostWorker) (state : AuthState)
    → ws.http.auth_state ≡ state
    → Begins ws (rejoin state ws) (rejoin state ws).http.auth_state
unfolding rejoin
rejoin-Begins ws auth_inactive e = set_or_not ws ws.http.sid_set e refl
rejoin-Begins ws auth_init e =
    subst (Begins ws ws) (sym e) (stays ws (inl (λ c. ground arith)) (λ c. ground arith))
rejoin-Begins ws auth_req e =
    subst (Begins ws ws) (sym e) (stays ws (inl (λ c. ground arith)) (λ c. ground arith))
rejoin-Begins ws auth_cookie e = subst (Begins ws ws) (sym e) tt
rejoin-Begins ws auth_complete e = subst (Begins ws ws) (sym e) tt

post_auth_handler-IsAllowed :
    (env : PostEnv) (ws : PostWorker) (r : Posted)
    → post_auth_handler env ws ≡ done r
    → IsAllowed env ws r
unfolding post_auth_handler
post_auth_handler-IsAllowed env ws r e =
    subst (AllowsAll env ws) e
      (post_at-AllowsAll env ws _ _ (rejoin-Begins ws ws.http.auth_state refl))

-- What the worker sends fits its state: a request for a new client, if it has not begun and has no
-- SID; or a password with its own SID, if it has begun, or has a SID, and has no cookie.
pub post_auth_handler-Fits :
    (env : PostEnv) (ws : PostWorker) (r : Posted) (m : ToModule)
    → post_auth_handler env ws ≡ done r
    → r.sent ≡ some m
    → Fits ws m
post_auth_handler-Fits env ws r m e sent =
    let allowed = post_auth_handler-IsAllowed env ws r e in allowed.fits m sent

-- The page with the cookie is the answer only to a request that was sent, and to a positive reply
-- with a user name, a cookie that is not empty and a DTLS session ID of 32 bytes, which the worker
-- keeps (the cookie, where there is memory), and then it will authenticate by the cookie.
pub post_auth_handler-IsGranted :
    (env : PostEnv) (ws : PostWorker) (r : Posted)
    → post_auth_handler env ws ≡ done r
    → is_cookie_page r.answer ≡ true
    → (r.sent ≢ none) × IsGranted env r.worker
post_auth_handler-IsGranted env ws r e page =
    let allowed = post_auth_handler-IsAllowed env ws r e in
    (allowed.asked page, allowed.granted page)
