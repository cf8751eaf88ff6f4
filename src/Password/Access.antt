-- ===== src/Password/Access.antt =====
-- What ocpasswd.c writes, as auth/plain.c reads it.
use my_vps_config.Base.{
  ◌≤◌, ◌≡◌, ◌≢◌, refl, ap, ◌∙◌, true, Option, some, List, [], ◌∷◌, Bytes, length, strlcpy, take,
  take_all, arith,
}
use my_vps_config.Base.Int.{ℤ, err_auth_continue}
use my_vps_config.Text.{Outcome, done, fault}
use my_vps_config.Password.Groups.{break_group_list}
use my_vps_config.Password.Plain.{PlainCtx, first_msg, new_ctx, plain_auth_init}
use my_vps_config.Password.Tool.{World, lock_user}
use my_vps_config.Password.Entries.{Entry, AllEntries, print, find}
use my_vps_config.Password.Read.{adopt_found, read_auth_pass-print}
use my_vps_config.Password.Write.{table_lock, lock_entry}
use my_vps_config.Password.Tries.{try_all, NoneAccepted, HasNoMark, try_all-NoneAccepted}
use my_vps_config.Password.Lookup.{map_entry, find-update_map}
use my_vps_config.Password.Commands.{IsReady, disk_of, lock_user-table}

-- What `plain_auth_init` makes of the context that it found.
abbrev pub begin : Outcome PlainCtx → Outcome (ℤ × Option PlainCtx)
begin fault = fault
begin (done ctx) = done (err_auth_continue, some ctx)

-- The answer to a user name, from the table.
pub plain_auth_init-print :
    (es : List Entry) (user : Bytes)
    → AllEntries es
    → user ≢ []
    → plain_auth_init true (some (print es)) (some user)
      ≡ begin (adopt_found true (new_ctx user) (find (strlcpy 64 user) es))
unfolding plain_auth_init
plain_auth_init-print es [] v given = absurd (given refl)
plain_auth_init-print es (c ∷ user) v given =
    ground (arith, read_auth_pass-print true es (new_ctx (c ∷ user)) v)

-- A hash that `crypt` computed is the salt of itself.
abbrev pub IsSelfSalt : (Bytes → Bytes → Option Bytes) → Type 0
IsSelfSalt crypt = (p s h : Bytes) → crypt p s ≡ some h → crypt p h ≡ some h

-- The context after the search for a user whose entry this is.
abbrev pub login_ctx : Entry → List Bytes → PlainCtx
login_ctx e names = record {
  username = e.name;
  cpass = e.hash;
  groupnames = names;
  pass_msg = first_msg;
  retries = 0;
}

-- Sizes that `plain_ctx_st` holds whole.
pub record IsShort (e : Entry) : Type 0 where
  pub name : length e.name ≤ 63
  pub hash : length e.hash ≤ 127

-- The context of a user whose hash is behind a mark.
abbrev pub locked_ctx : Bytes → Entry → List Bytes → PlainCtx
locked_ctx user e names = record {
  username = strlcpy 64 user;
  cpass = strlcpy 128 (b'!' ∷ e.hash);
  groupnames = names;
  pass_msg = first_msg;
  retries = 0;
}

-- Where the calls of ocpasswd succeed, what it writes is stored, and no other process changes the
-- files, on a file that prints a table, with an entry of the user whose groups can be split,
-- lines that fit also with the mark, and a name of at most 63 bytes: after the user is locked,
-- the module still asks for a password, but takes none, whatever is tried in any order, if crypt
-- never gives a hash that starts with an exclamation mark.
pub lock_then_login :
    (w : World) (user : Bytes) (e : Entry) (names : List Bytes) (es : List Entry)
    → IsReady w
    → AllEntries es
    → AllEntries (table_lock user es)
    → user ≢ []
    → length user ≤ 63
    → find user es ≡ some e
    → break_group_list true e.groups ≡ done names
    → HasNoMark w.crypt
    → (plain_auth_init true (lock_user w user (disk_of es)).0.passwd (some user)
        ≡ done (err_auth_continue, some (locked_ctx user e names)))
      × ((ps : List Bytes) → NoneAccepted w.crypt (try_all w.crypt ps (locked_ctx user e names)))
lock_then_login w user e names es ready v v' given short has broken unmarked =
    let name : take 63 user ≡ user = take_all 63 user short in
    let locked : find user (table_lock user es) ≡ some (lock_entry e) =
      find-update_map user lock_entry es (λ d. refl) ∙ ap (map_entry lock_entry) has in
    (
      rw (lock_user-table w ready es v user) (
          plain_auth_init-print (table_lock user es) user v' given
          ∙ rw (name, locked, broken) (unfold new_ctx in rw name)),
      λ ps.
          try_all-NoneAccepted w.crypt (take 126 e.hash) ps (locked_ctx user e names) unmarked refl,
    )
