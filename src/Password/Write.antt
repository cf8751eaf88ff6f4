-- ===== src/Password/Write.antt =====
-- ocpasswd.c on the file that a table prints: each command is an operation on the table.
use my_vps_config.Base.{
  ◌≡◌, refl, sym, ap, ◌∙◌, Bool, true, false, if◌then◌else◌, some, List, [], ◌∷◌, ◌++◌, Bytes,
  bytes_eq, bytes_eq→eq, map, arith, Bool-cases, inl, inr,
}
use mathlib.Core.List.{append_assoc, append-nil}
use my_vps_config.Text.{cut, lines}
use my_vps_config.Password.Tool.{
  rewrite_line, rewrite, has_user, set_passwd, lock_fields, skip_mark, unlock_fields,
}
use my_vps_config.Password.Entries.{
  Entry, IsEntry, AllEntries, print, print_entry, cut-IsText, lines-print_entry,
}

-- The entries of a user are replaced by what `own` makes of them.
abbrev pub update : Bytes → (Entry → List Entry) → List Entry → List Entry
update user own [] = []
update user own (e ∷ es) = (if bytes_eq e.name user then own e else e ∷ []) ++ update user own es

abbrev pub has_entry : Bytes → List Entry → Bool
has_entry user [] = false
has_entry user (e ∷ es) = if bytes_eq e.name user then true else has_entry user es

abbrev pub lock_entry : Entry → Entry
lock_entry e = record e { hash = b'!' ∷ e.hash }

abbrev pub unlock_entry : Entry → Entry
unlock_entry e = record e { hash = skip_mark e.hash }

-- What the commands do to the table.
abbrev pub table_set : Entry → List Entry → List Entry
table_set new es =
    update new.name (λ _. new ∷ []) es ++ (if has_entry new.name es then [] else new ∷ [])

abbrev pub table_delete : Bytes → List Entry → List Entry
table_delete user es = update user (λ _. []) es

abbrev pub table_lock : Bytes → List Entry → List Entry
table_lock user es = update user (λ e. lock_entry e ∷ []) es

abbrev pub table_unlock : Bytes → List Entry → List Entry
table_unlock user es = update user (λ e. unlock_entry e ∷ []) es

pub lines-print : (es : List Entry) → AllEntries es → lines (print es) ≡ map print_entry es
unfolding print
lines-print [] v = unfold lines in refl
lines-print (e ∷ es) v =
    lines-print_entry e (print es) v.0 ∙ ap (λ ls. print_entry e ∷ ls) (lines-print es v.1)

print_one : (e : Entry) → print_entry e ≡ print (e ∷ [])
unfolding print
print_one e = sym (append-nil (print_entry e))

print-append : (es fs : List Entry) → print (es ++ fs) ≡ print es ++ print fs
unfolding print
print-append [] fs = refl
print-append (e ∷ es) fs =
    ap (λ t. print_entry e ++ t) (print-append es fs)
    ∙ sym (append_assoc (print_entry e) (print es) (print fs))

abbrev fields : Entry → Bytes
fields e = e.groups ++ b':' ∷ (e.hash ++ b'\n' ∷ [])

cut-print_entry : (e : Entry) → IsEntry e → cut b':' (print_entry e) ≡ some (e.name, fields e)
unfolding print_entry
cut-print_entry e v = cut-IsText e.name (fields e) v.name_text

module _ (user : Bytes) (own : Bytes → Bytes) (change : Entry → List Entry)
    (same : (e : Entry) → IsEntry e → e.name ≡ user → own (fields e) ≡ print (change e)) where
  rewrite_line-print_entry :
      (e : Entry)
      → IsEntry e
      → rewrite_line user own (print_entry e)
        ≡ print (if bytes_eq e.name user then change e else e ∷ [])
  unfolding rewrite_line print
  rewrite_line-print_entry e v =
      rw (cut-print_entry e v, rewrite_line)
        (elim (Bool-cases (bytes_eq e.name user)) [
          | inl hit ↦ rw hit (same e v (bytes_eq→eq e.name user hit))
          | inr miss ↦ rw miss (sym (append-nil (print_entry e)))
        ])

  -- A rewriting of the lines is one of the entries.
  pub rewrite-print :
      (es : List Entry)
      → AllEntries es
      → rewrite user own (map print_entry es) ≡ print (update user change es)
  rewrite-print [] v = unfold rewrite print in refl
  rewrite-print (e ∷ es) v =
      let now : Bytes = print (if bytes_eq e.name user then change e else e ∷ []) in
      let first : rewrite user own (map print_entry (e ∷ es))
          ≡ rewrite_line user own (print_entry e) ++ rewrite user own (map print_entry es) =
        unfold rewrite in refl in
      first
      ∙ rw (rewrite_line-print_entry e v.0, rewrite-print es v.1)
          (sym (
            print-append (if bytes_eq e.name user then change e else e ∷ [])
              (update user change es)))

has_user-print :
    (user : Bytes) (es : List Entry)
    → AllEntries es
    → has_user user (map print_entry es) ≡ has_entry user es
unfolding has_user
has_user-print user [] v = refl
has_user-print user (e ∷ es) v = ground (arith, cut-print_entry e v.0, has_user-print user es v.1)

pub set_passwd-print :
    (new : Entry) (es : List Entry)
    → AllEntries es
    → set_passwd new.name new.groups new.hash (lines (print es)) ≡ print (table_set new es)
unfolding set_passwd print_entry
set_passwd-print new es v =
    rw
      (
        lines-print es v,
        rewrite-print new.name (λ _. print_entry new) (λ _. new ∷ []) (λ e w n. print_one new) es v,
        has_user-print new.name es v,
      )
      (elim (Bool-cases (has_entry new.name es)) [
        | inl old ↦ rw old (append-nil _ ∙ ap print (sym (append-nil _)))
        | inr absent ↦ rw absent (
            ap (λ t. print (update new.name (λ _. new ∷ []) es) ++ t) (print_one new)
            ∙ sym (print-append (update new.name (λ _. new ∷ []) es) (new ∷ [])))
      ])

pub delete-print :
    (user : Bytes) (es : List Entry)
    → AllEntries es
    → rewrite user (λ _. []) (lines (print es)) ≡ print (table_delete user es)
delete-print user es v =
    rw (lines-print es v)
      (rewrite-print user (λ _. []) (λ _. []) (λ e w n. unfold print in refl) es v)

lock_fields-fields :
    (user : Bytes) (e : Entry)
    → IsEntry e
    → e.name ≡ user
    → lock_fields user (fields e) ≡ print (lock_entry e ∷ [])
unfolding lock_fields print
lock_fields-fields user e v n =
    rw (cut-IsText e.groups (e.hash ++ b'\n' ∷ []) v.groups_text, lock_fields)
      (rw (← n) (print_one (lock_entry e)))

skip_mark-append : (h : Bytes) → skip_mark (h ++ b'\n' ∷ []) ≡ skip_mark h ++ b'\n' ∷ []
unfolding skip_mark
skip_mark-append [] = refl
skip_mark-append (c ∷ h) = ground arith

unlock_fields-fields :
    (user : Bytes) (e : Entry)
    → IsEntry e
    → e.name ≡ user
    → unlock_fields user (fields e) ≡ print (unlock_entry e ∷ [])
unfolding unlock_fields print
unlock_fields-fields user e v n =
    rw
      (
        cut-IsText e.groups (e.hash ++ b'\n' ∷ []) v.groups_text,
        unlock_fields,
        skip_mark-append e.hash,
      )
      (rw (← n) (print_one (unlock_entry e)))

pub lock-print :
    (user : Bytes) (es : List Entry)
    → AllEntries es
    → rewrite user (lock_fields user) (lines (print es)) ≡ print (table_lock user es)
lock-print user es v =
    rw (lines-print es v) (
      rewrite-print user (lock_fields user) (λ e. lock_entry e ∷ []) (lock_fields-fields user) es v)

pub unlock-print :
    (user : Bytes) (es : List Entry)
    → AllEntries es
    → rewrite user (unlock_fields user) (lines (print es)) ≡ print (table_unlock user es)
unlock-print user es v = rw (lines-print es v) (
    rewrite-print user (unlock_fields user) (λ e. unlock_entry e ∷ []) (unlock_fields-fields user)
      es v)
