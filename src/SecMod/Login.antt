-- ===== src/SecMod/Login.antt =====
-- sec-mod-auth.c: the authentication of a client, from its first request to its last password.
use my_vps_config.Base.{
  ℕ, ◌==◌, Bool, true, false, not, ◌&&◌, ◌||◌, if◌then◌else◌, Option, none, some, List, [], ◌∷◌,
  Bytes, bytes_eq, is_empty, strlcpy, take, bit_and, length,
}
use my_vps_config.Base.Int.{
  ℤ, success, failure, is_neg, is_zero, is_auth_continue, err_auth_continue,
}
use my_vps_config.Htable.{Htable}
use my_vps_config.SecMod.Types.{
  ClientEntry, AuthStatus, AuthMethod, AuthModule, SecConfig, Event, Env, Step, AuthInit, AuthCont,
  sid_key,
}
use my_vps_config.SecMod.Db.{new_client_entry}
use my_vps_config.SecMod.Reply.{handle_sec_auth_res}

-- AUTH_TYPE_CERTIFICATE
abbrev pub is_certificate : ℕ → Bool
is_certificate auth_type = not (bit_and auth_type 8 == 0)

abbrev pub contains : List Bytes → Bytes → Bool
contains [] x = false
contains (y ∷ ys) x = bytes_eq x y || contains ys x

-- `cert_groups[0]`, where `cert_groups_size > 0`
abbrev pub first_group : List Bytes → Bytes → Bytes
first_group [] old = old
first_group (g ∷ gs) old = strlcpy 64 g

-- SID_SIZE
abbrev pub sid_size : ℕ
sid_size = 16

module _ {Ctx : Type 0} (cfg : SecConfig Ctx) where
  -- The user and the group are taken from the certificate.
  unfoldable pub adopt_certificate :
      ClientEntry Ctx → Option Bytes → List Bytes → ClientEntry Ctx × ℤ
  adopt_certificate e cert_user cert_groups = elim cert_user [
    | none ↦ (e, failure)
    | some user ↦ (
      record e {
        auth_info = record (e.auth_info) {
          username = strlcpy 128 user;
          groupname =
              if cfg.cert_group_oid && is_empty e.auth_info.groupname
              then first_group cert_groups e.auth_info.groupname
              else e.auth_info.groupname;
        };
      },
      success,
    )
  ]

  -- The certificate's user, if it names one, is another one.
  unfoldable pub is_other_user : ClientEntry Ctx → Option Bytes → Bool
  is_other_user e cert_user = elim cert_user [
    | none ↦ false
    | some user ↦ not (bytes_eq e.auth_info.username user)
  ]

  -- The user and the group are compared with the certificate.
  unfoldable pub compare_certificate :
      ClientEntry Ctx → Option Bytes → List Bytes → ClientEntry Ctx × ℤ
  unfolding is_other_user
  compare_certificate e cert_user cert_groups =
      if cfg.cert_user_oid && is_other_user e cert_user
      then (e, failure)
      else (if cfg.cert_group_oid && not (contains cert_groups e.auth_info.groupname)
          then (e, failure)
          else (e, success))

  unfoldable pub check_user_group_status :
      ClientEntry Ctx → Bool → Option Bytes → List Bytes → ClientEntry Ctx × ℤ
  check_user_group_status e tls_auth_ok cert_user cert_groups =
      if is_certificate e.auth_type
      then (if tls_auth_ok
          then (let e' : ClientEntry Ctx = record e { tls_auth_ok = true } in
              if is_empty e.auth_info.username && cfg.cert_user_oid
              then adopt_certificate e' cert_user cert_groups
              else compare_certificate e' cert_user cert_groups)
          else (e, failure))
      else (e, success)

  -- The first enabled method that contains the requested type.
  unfoldable pub find_method : List (AuthMethod Ctx) → ℕ → Option (AuthMethod Ctx)
  find_method [] auth_type = none
  find_method (m ∷ ms) auth_type =
      if m.enabled && bit_and m.kind auth_type == auth_type
      then some m
      else find_method ms auth_type

  unfoldable pub set_module : ClientEntry Ctx → ℕ → ClientEntry Ctx × ℤ
  set_module e auth_type =
      if auth_type == 0 then (e, failure) else elim (find_method cfg.auth auth_type) [
        | none ↦ (e, failure)
        | some m ↦ (record e { auth_module = m.amod; auth_type = m.kind }, success)
      ]

  -- `auth_group`, and the user name of the request. The number is `auth_init`'s result.
  unfoldable pub init_group : AuthModule Ctx → ClientEntry Ctx → AuthInit → ℤ → ClientEntry Ctx × ℤ
  init_group m e req result =
      let g = m.auth_group e.auth_ctx req.group_name e.auth_info.groupname in
      if is_zero g.0
      then (
        record e {
          auth_ctx = g.2;
          auth_info = record (e.auth_info) {
            groupname = take 63 g.1;
            username = elim req.user_name [
              | none ↦ e.auth_info.username
              | some user ↦ strlcpy 128 user
            ];
          };
        },
        result,
      )
      else (
        record e { auth_ctx = g.2; auth_info = record (e.auth_info) { groupname = g.1 } },
        failure,
      )

  -- The calls of the module; a result that is negative but not ERR_AUTH_CONTINUE ends the request.
  unfoldable pub init_module : ClientEntry Ctx → AuthInit → ClientEntry Ctx × ℤ
  unfolding init_group
  init_module e req = elim e.auth_module [
    | none ↦ (e, success)
    | some m ↦
        let r = m.auth_init req.user_name req.ip in
        let e' : ClientEntry Ctx = record e { auth_ctx = r.1 } in
        if is_neg r.0 && not (is_auth_continue r.0) then (e', r.0) else init_group m e' req r.0
  ]

  -- The requested group has to be one of the certificate's.
  unfoldable pub check_requested_group : ClientEntry Ctx → AuthInit → ClientEntry Ctx × ℤ
  check_requested_group e req = elim req.group_name [
    | none ↦ (e, success)
    | some group ↦
        if is_certificate e.auth_type && is_empty e.auth_info.groupname && cfg.cert_group_oid
        then (if contains req.cert_group_names group
            then (
              record e { auth_info = record (e.auth_info) { groupname = strlcpy 64 group } },
              success,
            )
            else (e, failure))
        else (e, success)
  ]

  -- The end of `handle_sec_auth_init`: the checks of the certificate, and the new status.
  unfoldable pub finish_init : ClientEntry Ctx → AuthInit → Bool → ClientEntry Ctx × ℤ
  finish_init e req need_continue =
      let checked = check_requested_group e req in
      if is_neg checked.1
      then checked
      else (let passed =
            check_user_group_status checked.0 req.tls_auth_ok req.cert_user_name
              req.cert_group_names in
          if is_neg passed.1 then passed else (
            record (passed.0) { status = AuthStatus.init },
            if need_continue then err_auth_continue else success,
          ))

  -- `handle_sec_auth_init` on the new entry, up to the label `cleanup`.
  unfoldable pub init_entry : ClientEntry Ctx → AuthInit → ClientEntry Ctx × ℤ
  init_entry e req =
      let chosen = set_module e req.auth_type in
      if is_neg chosen.1
      then chosen
      else (let named : ClientEntry Ctx = record (chosen.0) {
        hostname = elim req.hostname [ none ↦ chosen.0.hostname | some h ↦ strlcpy 64 h ];
      } in
          let asked = init_module named req in
          if is_neg asked.1 && not (is_auth_continue asked.1)
          then asked
          else finish_init asked.0 req (is_auth_continue asked.1))

  -- `handle_sec_auth_cont` on the entry, up to the label `cleanup`.
  unfoldable pub cont_entry : ClientEntry Ctx → Option Bytes → ClientEntry Ctx × ℤ
  cont_entry e password = elim e.status [
    | AuthStatus.inactive ↦ (e, failure)
    | AuthStatus.failed ↦ (e, failure)
    | AuthStatus.completed ↦ (e, failure)
    | _ ↦ elim password [
      | none ↦ (e, failure)
      | some pass ↦ elim e.auth_module [
        | none ↦ (e, failure)
        | some m ↦
            let r = m.auth_pass e.auth_ctx pass in
            (record e { status = AuthStatus.cont; auth_ctx = r.1 }, r.0)
      ]
    ]
  ]

module _ {Ctx : Type 0} (ht : Htable (ClientEntry Ctx) sid_key) (cfg : SecConfig Ctx) where
  open ht use {Table, get, write}

  -- The entry that the handler changed through its pointer, and its code and messages.
  abbrev pub commit : Table → Step Ctx → Table × ℤ × List Event
  commit t s = (write s.entry t, s.ret, s.events)

  unfoldable pub handle_sec_auth_init : Env → AuthInit → Table → Table × ℤ × List Event
  handle_sec_auth_init env req t = elim (new_client_entry ht env req.ip t) [
    | none ↦ (t, failure, [])
    | some (e, t') ↦ let r = init_entry cfg e req in commit t' (handle_sec_auth_res env cfg r.0 r.1)
  ]

  unfoldable pub handle_sec_auth_cont : Env → AuthCont → Table → Table × ℤ × List Event
  handle_sec_auth_cont env req t =
      if length req.sid == sid_size
      then elim (get req.sid t) [
        | none ↦ (t, failure, [])
        | some e ↦
            let r = cont_entry cfg e req.password in commit t (handle_sec_auth_res env cfg r.0 r.1)
      ]
      else (t, failure, [])
