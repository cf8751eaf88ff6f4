-- ===== src/Password/Plain.antt =====
-- auth/plain.c: the authentication module over the password file. What `crypt` gives for a
-- password and the stored hash is a parameter; it may be NULL.
use my_vps_config.Base.{
  ℕ, ◌+◌, ◌-◌, ◌%◌, ◌^◌, ltb, leb, Bool, true, false, not, ◌||◌, if◌then◌else◌, Option, none, some,
  List, [], ◌∷◌, Bytes, bytes_eq, is_empty, length, strlcpy, take,
}
use my_vps_config.Base.Int.{ℤ, negsuc, success, failure, is_neg, err_auth_continue}
use my_vps_config.Htable.{Htable}
use my_vps_config.Text.{chunks, c_string, strip_last, strtok}
use my_vps_config.Text.{Outcome, done, fault}
use my_vps_config.Password.Groups.{break_group_list, max_groups}

-- `pass_msg`: pass_msg_first or pass_msg_failed.
pub data PassMsg : Type 0 where
  first_msg failed_msg : PassMsg

-- `plain_ctx_st`; `groupnames` holds `groupnames_size` names.
pub record PlainCtx : Type 0 where
  pub username : Bytes
  pub cpass : Bytes
  pub groupnames : List Bytes
  pub pass_msg : PassMsg
  pub retries : ℕ

-- ERR_AUTH_FAIL
abbrev pub err_auth_fail : ℤ
err_auth_fail = negsuc 2

-- A line as `read_auth_pass` splits it, from what `fgets` stored; `none` is one that is too short.
unfoldable pub line_text : Bytes → Option Bytes
unfolding c_string strip_last
line_text chunk =
    let s = c_string chunk in
    if leb (length s) 4 then none else some (strip_last b'\r' (strip_last b'\n' s))

-- The groups and the hash of the user's line: whether both are there, and the context.
unfoldable pub read_fields : Bool → Bytes → PlainCtx → Outcome (Bool × PlainCtx)
unfolding strtok break_group_list
read_fields mem fields ctx = elim (strtok b':' fields) [
  | none ↦ done (false, ctx)
  | some (groups, fields') ↦ elim (break_group_list mem groups) [
    | fault ↦ fault
    | done names ↦ elim (strtok b':' fields') [
      | none ↦ done (false, record ctx { groupnames = names })
      | some (hash, _) ↦ done (true, record ctx { groupnames = names; cpass = strlcpy 128 hash })
    ]
  ]
]

unfoldable pub read_line : Bool → Bytes → PlainCtx → Outcome (Bool × PlainCtx)
unfolding line_text strtok read_fields
read_line mem chunk ctx = elim (line_text chunk) [
  | none ↦ done (false, ctx)
  | some s ↦ elim (strtok b':' s) [
    | none ↦ done (false, ctx)
    | some (name, fields) ↦
        if bytes_eq ctx.username name then read_fields mem fields ctx else done (false, ctx)
  ]
]

-- The loop over the lines.
unfoldable pub read_loop : Bool → List Bytes → PlainCtx → Outcome PlainCtx
unfolding read_line
read_loop mem [] ctx = done ctx
read_loop mem (l ∷ ls) ctx = elim (read_line mem l ctx) [
  | fault ↦ fault
  | done (true, ctx') ↦ done ctx'
  | done (false, ctx') ↦ read_loop mem ls ctx'
]

-- The file is `none` where `fopen` fails.
unfoldable pub read_auth_pass : Bool → Option Bytes → PlainCtx → Outcome (PlainCtx × ℤ)
unfolding read_loop chunks
read_auth_pass mem none ctx = done (ctx, failure)
read_auth_pass mem (some text) ctx = elim (read_loop mem (chunks 509 text) ctx) [
  | fault ↦ fault
  | done ctx' ↦ done (ctx', success)
]

-- MAX_USERNAME_SIZE
abbrev pub max_username_size : ℕ
max_username_size = 64

-- `talloc_zero`, and what is set then.
unfoldable pub new_ctx : Bytes → PlainCtx
new_ctx user = record {
  username = strlcpy max_username_size user;
  cpass = [];
  groupnames = [];
  pass_msg = first_msg;
  retries = 0;
}

unfoldable pub plain_auth_init : Bool → Option Bytes → Option Bytes → Outcome (ℤ × Option PlainCtx)
unfolding read_auth_pass new_ctx
plain_auth_init mem file none = done (err_auth_fail, none)
plain_auth_init mem file (some user) =
    if is_empty user || not mem
    then done (err_auth_fail, none)
    else elim (read_auth_pass mem file (new_ctx user)) [
      | fault ↦ fault
      | done (ctx, ret) ↦
          if is_neg ret then done (err_auth_fail, none) else done (err_auth_continue, some ctx)
    ]

-- The first of the names that is the suggested one.
unfoldable pub has_group : Bytes → List Bytes → Bool
has_group g [] = false
has_group g (h ∷ hs) = bytes_eq g h || has_group g hs

-- The return code, and the group's name in an area of `size` bytes.
unfoldable pub plain_auth_group : PlainCtx → Option Bytes → ℕ → ℤ × Bytes
unfolding has_group
plain_auth_group ctx suggested size =
    let given : Bytes = elim suggested [ none ↦ [] | some g ↦ strlcpy size g ] in
    let chosen : Bytes = elim ctx.groupnames [
      | [] ↦ given
      | g ∷ gs ↦ if is_empty given then strlcpy size g else given
    ] in
    elim suggested [
      | none ↦ (success, chosen)
      | some g ↦ if has_group g ctx.groupnames then (success, chosen) else (failure, [])
    ]

-- MAX_PASSWORD_TRIES
abbrev pub max_password_tries : ℕ
max_password_tries = 3

-- `crypt` with the stored hash for its salt. `strcmp` follows its result, also where that is NULL.
module _ (crypt : Bytes → Bytes → Option Bytes) where
  -- A password that is not the user's.
  unfoldable pub wrong_password : PlainCtx → ℤ × PlainCtx
  wrong_password ctx =
      let next : ℕ = (ctx.retries + 1) % 2 ^ 32 in
      if ltb ctx.retries (max_password_tries - 1)
      then (err_auth_continue, record ctx { retries = next; pass_msg = failed_msg })
      else (err_auth_fail, record ctx { retries = next })

  unfoldable pub plain_auth_pass : PlainCtx → Bytes → Outcome (ℤ × PlainCtx)
  unfolding wrong_password
  plain_auth_pass ctx pass =
      if is_empty ctx.cpass then done (wrong_password ctx) else elim (crypt pass ctx.cpass) [
        | none ↦ fault
        | some hash ↦
            if bytes_eq hash ctx.cpass then done (success, ctx) else done (wrong_password ctx)
      ]

-- A group's name is its own key.
abbrev pub name_key : Bytes → Bytes
name_key g = g

module _ (ht : Htable Bytes name_key) where
  open ht use {Table, init, get, add, items}

  -- The names of one line; a failure of `htable_add` is not looked at.
  unfoldable pub add_groups : List Bytes → Table → Table
  add_groups [] t = t
  add_groups (g ∷ gs) t = add_groups gs (elim (get g t) [
    | some _ ↦ t
    | none ↦ if ltb 1 (length g) then elim (add g t) [ none ↦ t | some t' ↦ t' ] else t
  ])

  unfoldable pub list_line : Bool → Bytes → Table → Outcome Table
  unfolding add_groups line_text strtok break_group_list
  list_line mem chunk t = elim (line_text chunk) [
    | none ↦ done t
    | some s ↦ elim (strtok b':' s) [
      | none ↦ done t
      | some (name, fields) ↦ elim (strtok b':' fields) [
        | none ↦ done t
        | some (groups, rest) ↦ elim (break_group_list mem groups) [
          | fault ↦ fault
          | done names ↦ done (add_groups names t)
        ]
      ]
    ]
  ]

  unfoldable pub list_loop : Bool → List Bytes → Table → Outcome Table
  unfolding list_line
  list_loop mem [] t = done t
  list_loop mem (l ∷ ls) t = elim (list_line mem l t) [
    | fault ↦ fault
    | done t' ↦ list_loop mem ls t'
  ]

  -- The names that are passed on; `none` where the file does not open, and nothing is set.
  unfoldable pub plain_group_list : Bool → Option Bytes → Outcome (Option (List Bytes))
  unfolding list_loop chunks
  plain_group_list mem none = done none
  plain_group_list mem (some text) = elim (list_loop mem (chunks 509 text) init) [
    | fault ↦ fault
    | done t ↦ done (some (if mem then take max_groups (items t) else []))
  ]
