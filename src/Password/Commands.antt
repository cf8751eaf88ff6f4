-- ===== src/Password/Commands.antt =====
-- What a run of ocpasswd.c leaves on the disk.
use my_vps_config.Base.{◌≡◌, ◌≢◌, ◌⊎◌, refl, ap, ◌∙◌, true, none, some, List, [], ◌∷◌, Bytes, arith}
use my_vps_config.Password.Tool.{
  Disk, Exit, exit, World, Password, skip_mark, publish, crypt_passwd, crypt_int, delete_user,
  lock_user, unlock_user,
}
use my_vps_config.Password.Entries.{Entry, AllEntries, print}
use my_vps_config.Password.Write.{
  lock_entry, unlock_entry, table_set, table_delete, table_lock, table_unlock, set_passwd-print,
  delete-print, lock-print, unlock-print,
}

-- The calls of a run succeed, what it writes is stored, and no other process changes the files.
pub record IsReady (w : World) : Type 0 where
  pub mem : w.mem ≡ true
  pub readable : w.readable ≡ true
  pub writable : w.writable ≡ true
  pub renames : w.renames ≡ true
  pub alone : (d : Disk) → w.meanwhile d ≡ d
  pub stores : (text : Bytes) → w.stored text ≡ text

-- The password file prints a table, and no run is under way.
abbrev pub disk_of : List Entry → Disk
disk_of es = record { passwd = some (print es); tmp = none }

abbrev pub ends_well : List Entry → Disk × Exit
ends_well es = (disk_of es, exit 0)

module _ (w : World) (ready : IsReady w) (es : List Entry) (v : AllEntries es) where
  pub lock_user-table :
      (user : Bytes) → lock_user w user (disk_of es) ≡ ends_well (table_lock user es)
  unfolding lock_user publish
  lock_user-table user = ground (
    arith,
    ready.mem,
    ready.readable,
    ready.writable,
    ready.renames,
    ready.alone (disk_of es),
    ready.stores (print (table_lock user es)),
    lock-print user es v,
  )

  pub unlock_user-table :
      (user : Bytes) → unlock_user w user (disk_of es) ≡ ends_well (table_unlock user es)
  unfolding unlock_user
  unlock_user-table user = ground (
    arith,
    ready.mem,
    ready.readable,
    ready.writable,
    ready.renames,
    ready.alone (disk_of es),
    ready.stores (print (table_unlock user es)),
    unlock-print user es v,
  )

  pub delete_user-table :
      (user : Bytes) → delete_user w user (disk_of es) ≡ ends_well (table_delete user es)
  unfolding delete_user
  delete_user-table user = ground (
    arith,
    ready.mem,
    ready.readable,
    ready.writable,
    ready.renames,
    ready.alone (disk_of es),
    ready.stores (print (table_delete user es)),
    delete-print user es v,
  )

  pub crypt_int-table :
      (user groups passwd hash : Bytes)
      → crypt_passwd w passwd ≡ some hash
      → crypt_int w user groups passwd (disk_of es)
        ≡ ends_well (table_set (record { name = user; groups = groups; hash = hash }) es)
  unfolding crypt_int
  crypt_int-table user groups passwd hash h = ground (
    arith,
    ready.mem,
    ready.readable,
    ready.writable,
    ready.renames,
    ready.alone (disk_of es),
    ready.stores (print (table_set (record { name = user; groups = groups; hash = hash }) es)),
    set_passwd-print (record { name = user; groups = groups; hash = hash }) es v,
  )

-- The password file is as before, or as others made it, unless the run ended with status 0, which it
-- does only where it found no temporary file.
abbrev IsGuarded : World → Disk → Disk × Exit → Type 0
IsGuarded w d r =
    (r.1 ≢ exit 0 → (r.0.passwd ≡ d.passwd) ⊎ (r.0.passwd ≡ (w.meanwhile d).passwd))
    × (r.1 ≡ exit 0 → (d.tmp ≡ none) × (r.0.tmp ≡ none))

-- The run ended with status 0, found no temporary file and left none; or it left the password file as
-- it was, or as other processes made it between the test for the temporary file and its opening.
abbrev pub IsAtomic : World → Disk → Disk × Exit → Type 0
IsAtomic w d r =
    ((r.1 ≡ exit 0) × (d.tmp ≡ none) × (r.0.tmp ≡ none))
    ⊎ ((r.1 ≢ exit 0) × ((r.0.passwd ≡ d.passwd) ⊎ (r.0.passwd ≡ (w.meanwhile d).passwd)))

skip_mark_lock : (e : Entry) → unlock_entry (lock_entry e) ≡ e
unfolding skip_mark
skip_mark_lock e = refl

table_unlock-table_lock :
    (user : Bytes) (es : List Entry) → table_unlock user (table_lock user es) ≡ es
unfolding skip_mark
table_unlock-table_lock user [] = refl
table_unlock-table_lock user (e ∷ es) = ground (arith, table_unlock-table_lock user es)

-- Unlocking a user who was locked gives back the file: for a file that prints a table whose lines
-- still fit once the user's are locked, where the calls of both runs succeed.
pub unlock_user-lock_user :
    (w : World) (user : Bytes) (es : List Entry)
    → IsReady w
    → AllEntries es
    → AllEntries (table_lock user es)
    → unlock_user w user (lock_user w user (disk_of es)).0 ≡ ends_well es
unlock_user-lock_user w user es ready v locked = rw (lock_user-table w ready es v user) (
    unlock_user-table w ready (table_lock user es) locked user
    ∙ ap ends_well (table_unlock-table_lock user es))

-- Where the file prints a table, the calls of the run succeed, what it writes is stored, and no
-- other process changes the files, each command leaves the file that prints the changed table:
-- locking and unlocking put the mark in front of the hash of each entry of the user and take it
-- away, deleting removes these entries, and a new password replaces them, or is added at the end.
pub tool-table :
    (w : World) (user groups passwd hash : Bytes) (es : List Entry)
    → IsReady w
    → AllEntries es
    → crypt_passwd w passwd ≡ some hash
    → (lock_user w user (disk_of es) ≡ ends_well (table_lock user es))
      × (unlock_user w user (disk_of es) ≡ ends_well (table_unlock user es))
      × (delete_user w user (disk_of es) ≡ ends_well (table_delete user es))
      × (crypt_int w user groups passwd (disk_of es)
          ≡ ends_well (table_set (record { name = user; groups = groups; hash = hash }) es))
tool-table w user groups passwd hash es ready v h = (
  lock_user-table w ready es v user,
  unlock_user-table w ready es v user,
  delete_user-table w ready es v user,
  crypt_int-table w ready es v user groups passwd hash h,
)
