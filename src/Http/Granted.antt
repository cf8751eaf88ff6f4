-- ===== src/Http/Granted.antt =====
-- worker-auth.c: when the client gets the page with the cookie.
use my_vps_config.Base.{
  ◌≡◌, refl, Bool, true, false, not, ◌||◌, if◌then◌else◌, Option, none, some, Bytes, is_empty,
  length, strlcpy, ◌==◌, arith, Bool-cases, inl, inr,
}
use my_vps_config.Base.Int.{is_neg, is_auth_continue}
use my_vps_config.Http.Types.{AuthStruct, auth_cookie}
use my_vps_config.Http.Value.{gssapi, username_pass, has_type, ws_switch_auth_to}
use my_vps_config.Http.Post.{
  PostWorker, PostEnv, ModuleReply, reply_lost, reply_msg, reply_failed, reply_ok, Page,
  cookie_page, set_state, recv_auth_reply, ws_disable_auth, take_sid, keep_cookie,
}
use my_vps_config.Password.Plain.{max_username_size}
use my_vps_config.Http.PostAuth.{finish_post, give_up}

abbrev pub is_cookie_page : Page → Bool
is_cookie_page (cookie_page _) = true
is_cookie_page _ = false

-- The positive reply of the module, and what the worker keeps of it.
pub record IsGranted (env : PostEnv) (ws : PostWorker) : Type 0 where
  pub user : Bytes
  pub sid : Option Bytes
  pub cookie : Bytes
  pub session_id : Bytes
  pub text : Option Bytes
  pub reply : env.reply ≡ reply_ok (some user) sid (some cookie) session_id text
  pub given : is_empty cookie ≡ false
  pub size : length session_id ≡ 32
  pub id_kept : ws.session_id ≡ session_id
  pub state : ws.http.auth_state ≡ auth_cookie
  pub cookie_kept : ws.http.cookie ≡ (if env.mem_cookie then some cookie else none)

give_up-no_cookie : (a : AuthStruct) (ws : PostWorker) → is_cookie_page (give_up a ws).1 ≡ false
unfolding give_up
give_up-no_cookie a ws = elim (Bool-cases (has_type gssapi a)) [
  | inl g ↦ elim (Bool-cases (ws_switch_auth_to (ws_disable_auth ws.http gssapi) username_pass).1) [
    | inl found ↦ rw (g, found) refl
    | inr lost ↦ rw (g, lost) refl
  ]
  | inr g ↦ rw g refl
]

module _ (env : PostEnv) (a : AuthStruct) where
  finish_post-refused :
      (ws : PostWorker)
      → is_neg (recv_auth_reply env ws).1 ≡ true
      → is_cookie_page (finish_post env a ws).1 ≡ false
  unfolding finish_post
  finish_post-refused ws h = elim (Bool-cases (is_auth_continue (recv_auth_reply env ws).1)) [
    | inl c ↦ elim (Bool-cases (has_type gssapi a)) [
      | inl g ↦ rw (c, g) refl
      | inr g ↦ rw (c, g) refl
    ]
    | inr c ↦ rw (c, h) (give_up-no_cookie a (recv_auth_reply env ws).0)
  ]

  refused :
      {A : Type 0} (ws : PostWorker)
      → is_neg (recv_auth_reply env ws).1 ≡ true
      → is_cookie_page (finish_post env a ws).1 ≡ true
      → A
  refused ws n h = let no = finish_post-refused ws n in absurd (ground arith)

  finish_post-accepted :
      (u : Bytes) (sid : Option Bytes) (c d : Bytes) (t : Option Bytes) (ws : PostWorker)
      → env.reply ≡ reply_ok (some u) sid (some c) d t
      → (is_empty c || not (length d == 32)) ≡ false
      → (finish_post env a ws).0
        ≡ set_state auth_cookie (
            keep_cookie env.mem_cookie c d
              (take_sid sid (record ws { username = strlcpy max_username_size u })))
  unfolding finish_post recv_auth_reply
  finish_post-accepted u sid c d t ws e good = rw (e, good) refl

  IsGranted-keep :
      (ws : PostWorker) (u : Bytes) (sid : Option Bytes) (c d : Bytes) (t : Option Bytes)
      → env.reply ≡ reply_ok (some u) sid (some c) d t
      → (is_empty c || not (length d == 32)) ≡ false
      → IsGranted env (
          set_state auth_cookie (
            keep_cookie env.mem_cookie c d
              (take_sid sid (record ws { username = strlcpy max_username_size u }))))
  unfolding keep_cookie
  IsGranted-keep ws u sid c d t e good = record {
    user = u;
    sid = sid;
    cookie = c;
    session_id = d;
    text = t;
    reply = e;
    given = ground arith;
    size = ground arith;
    id_kept = refl;
    state = ground arith;
    cookie_kept = ground arith;
  }

  pub finish_post-IsGranted :
      (reply : ModuleReply) (ws : PostWorker)
      → env.reply ≡ reply
      → is_cookie_page (finish_post env a ws).1 ≡ true
      → IsGranted env (finish_post env a ws).0
  unfolding recv_auth_reply
  finish_post-IsGranted (reply_lost n) ws e h = refused ws (rw e refl) h
  finish_post-IsGranted (reply_msg none sid) ws e h = refused ws (rw e refl) h
  finish_post-IsGranted (reply_msg (some t) sid) ws e h = refused ws (rw e refl) h
  finish_post-IsGranted (reply_ok none sid c d t) ws e h = refused ws (rw e refl) h
  finish_post-IsGranted (reply_ok (some u) sid none d t) ws e h = refused ws (rw e refl) h
  finish_post-IsGranted reply_failed ws e h = refused ws (rw e refl) h
  finish_post-IsGranted (reply_ok (some u) sid (some c) d t) ws e h =
      elim (Bool-cases (is_empty c || not (length d == 32))) [
        | inl bad ↦ refused ws (rw (e, bad) refl) h
        | inr good ↦
            rw (finish_post-accepted u sid c d t ws e good) (IsGranted-keep ws u sid c d t e good)
      ]
