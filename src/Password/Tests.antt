-- ===== src/Password/Tests.antt =====
-- The password file on concrete bytes, and its theorems at concrete inputs.
use my_vps_config.Base.{
  ◌+◌, ◌≤◌, ◌≡◌, refl, true, false, Option, none, some, List, [], ◌∷◌, Bytes, arith, min,
}
use my_vps_config.Base.Int.{err_auth_continue}
use my_vps_config.Text.{cut, lines}
use my_vps_config.Text.{done, fault}
use my_vps_config.Password.Groups.{break_group_list}
use my_vps_config.Password.Plain.{plain_auth_init, plain_auth_pass}
use my_vps_config.Password.Tool.{
  Exit, World, Options, input, crypt_passwd, crypt_int, delete_user, lock_user, unlock_user, run,
}
use my_vps_config.Password.Entries.{Entry, IsEntry, AllEntries, print}
use my_vps_config.Password.Write.{table_set, table_delete, table_lock, table_unlock}
use my_vps_config.Password.Commands.{IsReady, disk_of, ends_well, tool-table}
use my_vps_config.Password.Tries.{try_all, NoneAccepted, continues, try_all-continues}
use my_vps_config.Password.Access.{login_ctx, locked_ctx, lock_then_login}

-- `$` in front of the password, for every salt.
abbrev toy_crypt : Bytes → Bytes → Option Bytes
toy_crypt p s = some (b'$' ∷ p)

abbrev world : World
world = record {
  mem = true;
  readable = true;
  writable = true;
  renames = true;
  meanwhile = λ d. d;
  stored = λ s. s;
  rnd = some (1 ∷ 40 ∷ []);
  crypt = toy_crypt;
  sha2 = true;
}

world-IsReady : IsReady world
world-IsReady = record {
  mem = refl;
  readable = refl;
  writable = refl;
  renames = refl;
  alone = λ d. refl;
  stores = λ s. refl;
}

abbrev ann : Entry
ann = record { name = b'a' ∷ b'n' ∷ []; groups = b'v' ∷ b'p' ∷ []; hash = b'$' ∷ b'x' ∷ [] }

abbrev bob : Entry
bob = record { name = b'b' ∷ []; groups = b'*' ∷ []; hash = b'$' ∷ b'y' ∷ [] }

abbrev table : List Entry
table = ann ∷ bob ∷ []

ann-IsEntry : IsEntry ann
ann-IsEntry = record {
  name_text = omega arith;
  name_given = cc;
  groups_text = omega arith;
  groups_given = cc;
  hash_text = omega arith;
  hash_given = cc;
  fits = omega arith;
}

bob-IsEntry : IsEntry bob
bob-IsEntry = record {
  name_text = omega arith;
  name_given = cc;
  groups_text = omega arith;
  groups_given = cc;
  hash_text = omega arith;
  hash_given = cc;
  fits = omega arith;
}

abbrev locked_bob : Entry
locked_bob = record bob { hash = b'!' ∷ b'$' ∷ b'y' ∷ [] }

locked_bob-IsEntry : IsEntry locked_bob
locked_bob-IsEntry = record {
  name_text = omega arith;
  name_given = cc;
  groups_text = omega arith;
  groups_given = cc;
  hash_text = omega arith;
  hash_given = cc;
  fits = omega arith;
}

locks : lock_user world (b'b' ∷ []) (disk_of table) ≡ ends_well (ann ∷ locked_bob ∷ [])
unfolding lock_user print cut lines
locks = refl

splits_groups :
    break_group_list true (b'a' ∷ b'b' ∷ b' ' ∷ b',' ∷ b'*' ∷ b',' ∷ b' ' ∷ b'c' ∷ [])
    ≡ done ((b'a' ∷ b'b' ∷ []) ∷ (b'c' ∷ []) ∷ [])
unfolding break_group_list
splits_groups = refl

-- A comma at the start makes the loop read in front of the text.
leading_comma : break_group_list true (b',' ∷ b'a' ∷ []) ≡ fault
unfolding break_group_list
leading_comma = refl

-- The last name is cut at its last space.
inner_space : break_group_list true (b'a' ∷ b' ' ∷ b'b' ∷ []) ≡ done ((b'a' ∷ []) ∷ [])
unfolding break_group_list
inner_space = refl

abbrev set_options : Options
set_options = record { lock = false; unlock = false; delete = false; group = none }

-- The end of the standard input, where a password is expected.
no_input :
    run world set_options (input none) (b'b' ∷ []) (disk_of table) ≡ (disk_of table, Exit.fault)
unfolding run
no_input = refl

-- `crypt` refuses the hash of a locked user as a salt, and its NULL is compared.
refused_salt : plain_auth_pass (λ p s. none) (locked_ctx (b'b' ∷ []) bob []) (b'y' ∷ []) ≡ fault
unfolding plain_auth_pass
refused_salt = refl

table-AllEntries : AllEntries table
table-AllEntries = (ann-IsEntry, (bob-IsEntry, tt))

locked-AllEntries : AllEntries (table_lock (b'b' ∷ []) table)
locked-AllEntries = (ann-IsEntry, (locked_bob-IsEntry, tt))

hashed : crypt_passwd world (b'y' ∷ []) ≡ some (b'$' ∷ b'y' ∷ [])
unfolding crypt_passwd
hashed = refl

tool-table_example :
    (lock_user world (b'b' ∷ []) (disk_of table) ≡ ends_well (table_lock (b'b' ∷ []) table))
    × (unlock_user world (b'b' ∷ []) (disk_of table) ≡ ends_well (table_unlock (b'b' ∷ []) table))
    × (delete_user world (b'b' ∷ []) (disk_of table) ≡ ends_well (table_delete (b'b' ∷ []) table))
    × (crypt_int world (b'b' ∷ []) (b'*' ∷ []) (b'y' ∷ []) (disk_of table)
        ≡ ends_well (table_set bob table))
tool-table_example =
    tool-table world (b'b' ∷ []) (b'*' ∷ []) (b'y' ∷ []) (b'$' ∷ b'y' ∷ []) table world-IsReady
      table-AllEntries hashed

bob_groups : break_group_list true (b'*' ∷ []) ≡ done ((b'*' ∷ []) ∷ [])
unfolding break_group_list
bob_groups = refl

lock_then_login_example :
    (plain_auth_init true (lock_user world (b'b' ∷ []) (disk_of table)).0.passwd (some (b'b' ∷ []))
      ≡ done (err_auth_continue, some (locked_ctx (b'b' ∷ []) bob ((b'*' ∷ []) ∷ []))))
    × ((ps : List Bytes)
        → NoneAccepted toy_crypt
            (try_all toy_crypt ps (locked_ctx (b'b' ∷ []) bob ((b'*' ∷ []) ∷ []))))
lock_then_login_example =
    lock_then_login world (b'b' ∷ []) bob ((b'*' ∷ []) ∷ []) table world-IsReady table-AllEntries
      locked-AllEntries (cc) (omega arith) refl bob_groups (λ p s h e. cc)

try_all-continues_example :
    continues toy_crypt
        (try_all toy_crypt ((b'x' ∷ []) ∷ (b'z' ∷ []) ∷ (b'u' ∷ []) ∷ []) (login_ctx bob []))
      + min 0 2
    ≤ 2
try_all-continues_example =
    try_all-continues toy_crypt ((b'x' ∷ []) ∷ (b'z' ∷ []) ∷ (b'u' ∷ []) ∷ []) (login_ctx bob [])
      (omega arith)
