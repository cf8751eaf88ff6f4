-- ===== src/Password/Tool.antt =====
-- ocpasswd.c. The disk is the password file and the file `.tmp` beside it, which serves as its
-- lock; `none` is a file that does not exist. `exit` is a result. From the opening of the lock to
-- its renaming, a run is one step.
use my_vps_config.Base.{
  ℕ, ◌+◌, ◌-◌, ◌%◌, ltb, leb, ◌==◌, Bool, true, false, not, ◌&&◌, if◌then◌else◌, Option, none, some,
  List, [], ◌∷◌, ◌++◌, Bytes, map, bytes_eq, length,
}
use my_vps_config.Text.{cut, lines, strip_last, c_string}

pub record Disk : Type 0 where
  pub passwd : Option Bytes
  pub tmp : Option Bytes

-- How the process ends: its exit status, or a fault.
pub data Exit : Type 0 where
  exit : ℕ → Exit
  fault : Exit

-- What the calls of one run give: `malloc`, `fopen` for reading and for writing, `rename`,
-- `gnutls_rnd` and `crypt`; whether the program was built with TRY_SHA2_CRYPT; what other processes
-- do between the test for the lock by `stat` and its opening; and what of a text that is written
-- reaches the file, since no result of a write is looked at.
pub record World : Type 0 where
  pub mem : Bool
  pub readable : Bool
  pub writable : Bool
  pub renames : Bool
  pub meanwhile : Disk → Disk
  pub stored : Bytes → Bytes
  pub rnd : Option Bytes
  pub crypt : Bytes → Bytes → Option Bytes
  pub sha2 : Bool

-- `username:groupname:crypted\n`
unfoldable pub entry_line : Bytes → Bytes → Bytes → Bytes
entry_line user group hash = user ++ b':' ∷ (group ++ b':' ∷ (hash ++ b'\n' ∷ []))

-- `alphabet[i]`
unfoldable pub alphabet : ℕ → ℕ
alphabet i =
    if ltb i 10
    then b'0' + i
    else if ltb i 36
    then b'a' + (i - 10)
    else if ltb i 62
    then b'A' + (i - 36)
    else if i == 62
    then b'.'
    else b'/'

-- The salt; the scheme is the digit between the dollar signs.
unfoldable pub salt : ℕ → Bytes → Bytes
unfolding alphabet
salt scheme rnd = b'$' ∷ scheme ∷ b'$' ∷ (map (λ r. alphabet (r % 64)) rnd ++ b'$' ∷ [])

-- The start of `crypt_int`: the hash, with MD5 where the first scheme fails.
unfoldable pub crypt_passwd : World → Bytes → Option Bytes
crypt_passwd w passwd = elim w.rnd [
  | none ↦ none
  | some rnd ↦ elim (w.crypt passwd (salt (if w.sha2 then b'5' else b'1') rnd)) [
    | some hash ↦ some hash
    | none ↦ w.crypt passwd (salt b'1' rnd)
  ]
]

-- A line without a colon is left out; a line of the user is treated by `own`.
unfoldable pub rewrite_line : Bytes → (Bytes → Bytes) → Bytes → Bytes
rewrite_line user own line = elim (cut b':' line) [
  | none ↦ []
  | some (name, fields) ↦ if bytes_eq name user then own fields else line
]

-- The loop over the lines.
unfoldable pub rewrite : Bytes → (Bytes → Bytes) → List Bytes → Bytes
unfolding rewrite_line
rewrite user own [] = []
rewrite user own (l ∷ ls) = rewrite_line user own l ++ rewrite user own ls

-- `found`
unfoldable pub has_user : Bytes → List Bytes → Bool
has_user user [] = false
has_user user (l ∷ ls) =
    let later = has_user user ls in
    elim (cut b':' l) [
      | none ↦ later
      | some (name, fields) ↦ if bytes_eq name user then true else later
    ]

-- What `crypt_int` writes.
unfoldable pub set_passwd : Bytes → Bytes → Bytes → List Bytes → Bytes
unfolding rewrite has_user entry_line
set_passwd user group hash ls =
    rewrite user (λ _. entry_line user group hash) ls
    ++ (if has_user user ls then [] else entry_line user group hash)

-- A `!` in front of the hash; a line without a second colon is left out.
unfoldable pub lock_fields : Bytes → Bytes → Bytes
lock_fields user fields = elim (cut b':' fields) [
  | none ↦ []
  | some (group, hash) ↦ user ++ b':' ∷ (group ++ b':' ∷ b'!' ∷ hash)
]

-- `if (*p == '!') p++;`
unfoldable pub skip_mark : Bytes → Bytes
skip_mark [] = []
skip_mark (c ∷ s) = if c == b'!' then s else c ∷ s

unfoldable pub unlock_fields : Bytes → Bytes → Bytes
unfolding skip_mark
unlock_fields user fields = elim (cut b':' fields) [
  | none ↦ []
  | some (group, hash) ↦ user ++ b':' ∷ (group ++ b':' ∷ skip_mark hash)
]

-- The new file is complete: `rename` moves it over the old one.
unfoldable pub publish : World → Disk → Bytes → Disk × Exit
publish w d text =
    if w.renames
    then (record { passwd = some (w.stored text); tmp = none }, exit 0)
    else (record d { tmp = some (w.stored text) }, exit 1)

unfoldable pub crypt_int : World → Bytes → Bytes → Bytes → Disk → Disk × Exit
unfolding publish set_passwd crypt_passwd entry_line
crypt_int w user group passwd d = elim (crypt_passwd w passwd) [
  | none ↦ (d, exit 1)
  | some hash ↦ if not w.mem then (d, exit 1) else elim d.tmp [
    | some locked ↦ (d, exit 1)
    | none ↦
        let d' = w.meanwhile d in
        if not w.writable then (d', exit 1) else elim d'.passwd [
          | none ↦ publish w d' (entry_line user group hash)
          | some old ↦
              if w.readable
              then publish w d' (set_passwd user group hash (lines old))
              else publish w d' (entry_line user group hash)
        ]
  ]
]

-- What `delete_user`, `lock_user` and `unlock_user` have in common; their `malloc` is not checked.
unfoldable pub edit : World → (List Bytes → Bytes) → Disk → Disk × Exit
unfolding publish
edit w change d = if not w.mem then (d, fault) else elim d.tmp [
  | some locked ↦ (d, exit 1)
  | none ↦
      let d' = w.meanwhile d in
      elim d'.passwd [
        | none ↦ (d', exit 1)
        | some old ↦
            if not (w.readable && w.writable)
            then (d', exit 1)
            else publish w d' (change (lines old))
      ]
]

unfoldable pub delete_user : World → Bytes → Disk → Disk × Exit
unfolding edit rewrite
delete_user w user d = edit w (rewrite user (λ _. [])) d

unfoldable pub lock_user : World → Bytes → Disk → Disk × Exit
unfolding edit rewrite lock_fields
lock_user w user d = edit w (rewrite user (lock_fields user)) d

unfoldable pub unlock_user : World → Bytes → Disk → Disk × Exit
unfolding edit rewrite unlock_fields
unlock_user w user d = edit w (rewrite user (unlock_fields user)) d

-- Where the password comes from: what the two calls of `getpass` give, or what `getline` reads
-- from the standard input, where `none` is -1, its answer at the end of the file.
pub data Source : Type 0 where
  terminal : Option Bytes → Option Bytes → Source
  input : Option Bytes → Source

-- A password, or the exit. The length -1 passes `l <= 1` as a `size_t`, and `passwd[l - 1]` is
-- then read in front of the area.
pub data Password : Type 0 where
  password : Bytes → Password
  refused : Exit → Password

unfoldable pub read_password : World → Source → Password
read_password w (terminal none again) = refused (exit 1)
read_password w (terminal (some first) none) = refused (exit 1)
read_password w (terminal (some first) (some again)) =
    if w.mem && bytes_eq again first then password again else refused (exit 1)
read_password w (input none) = refused fault
read_password w (input (some line)) =
    if leb (length line) 1 then refused (exit 1) else password (c_string (strip_last b'\n' line))

-- The options: -l, -u, -d and -g.
pub record Options : Type 0 where
  pub lock : Bool
  pub unlock : Bool
  pub delete : Bool
  pub group : Option Bytes

-- `main`, with a user name; the group is `*` where none is given.
unfoldable pub run : World → Options → Source → Bytes → Disk → Disk × Exit
unfolding lock_user unlock_user delete_user crypt_int read_password
run w o source user d =
    let group : Bytes = elim o.group [ none ↦ b'*' ∷ [] | some g ↦ g ] in
    if o.lock
    then lock_user w user d
    else if o.unlock
    then unlock_user w user d
    else if o.delete
    then delete_user w user d
    else elim (read_password w source) [
      | refused e ↦ (d, e)
      | password passwd ↦ crypt_int w user group passwd d
    ]
