-- ===== src/Password/Read.antt =====
-- auth/plain.c reads the table that the file prints.
use my_vps_config.Base.{
  ◌≡◌, refl, Bool, true, false, if◌then◌else◌, Option, none, some, List, [], ◌∷◌, ◌++◌, Bytes,
  bytes_eq, strlcpy, arith,
}
use my_vps_config.Base.Int.{ℤ, success}
use my_vps_config.Text.{chunks}
use my_vps_config.Text.{Outcome, done, fault}
use my_vps_config.Password.Groups.{break_group_list}
use my_vps_config.Password.Plain.{
  PlainCtx, line_text, read_fields, read_line, read_loop, read_auth_pass,
}
use my_vps_config.Password.Entries.{
  Entry, IsEntry, AllEntries, print, print_entry, find, chunks-print_entry, c_string-print_entry,
  strip_last-print_entry, length-print_entry, strtok-IsText, strtok_all,
}

-- The context with the groups and the hash of an entry.
abbrev pub adopt : PlainCtx → Entry → Outcome (List Bytes) → Outcome PlainCtx
adopt ctx e fault = fault
adopt ctx e (done names) = done (record ctx { groupnames = names; cpass = strlcpy 128 e.hash })

-- The context of a user after the search through a table.
abbrev pub adopt_found : Bool → PlainCtx → Option Entry → Outcome PlainCtx
adopt_found mem ctx none = done ctx
adopt_found mem ctx (some e) = adopt ctx e (break_group_list mem e.groups)

abbrev found : Outcome PlainCtx → Outcome (Bool × PlainCtx)
found fault = fault
found (done ctx) = done (true, ctx)

line_text-print_entry :
    (e : Entry)
    → IsEntry e
    → line_text (print_entry e) ≡ some (e.name ++ b':' ∷ (e.groups ++ b':' ∷ e.hash))
unfolding line_text
line_text-print_entry e v =
    rw (c_string-print_entry e v, strip_last-print_entry e v)
      (ground (arith, length-print_entry e v))

read_fields-print_entry :
    (mem : Bool) (e : Entry) (ctx : PlainCtx)
    → IsEntry e
    → read_fields mem (e.groups ++ b':' ∷ e.hash) ctx
      ≡ found (adopt ctx e (break_group_list mem e.groups))
unfolding read_fields
read_fields-print_entry mem e ctx v =
    rw (strtok-IsText e.groups e.hash v.groups_text v.groups_given, read_fields)
      (ground (arith, strtok_all e.hash v.hash_text v.hash_given))

read_line-print_entry :
    (mem : Bool) (e : Entry) (ctx : PlainCtx)
    → IsEntry e
    → read_line mem (print_entry e) ctx ≡ (
        if bytes_eq ctx.username e.name
        then found (adopt ctx e (break_group_list mem e.groups))
        else done (false, ctx))
unfolding read_line
read_line-print_entry mem e ctx v =
    rw (line_text-print_entry e v, read_line)
      (rw (strtok-IsText e.name _ v.name_text v.name_given, read_line)
        (rw (read_fields-print_entry mem e ctx v)))

read_loop-print :
    (mem : Bool) (es : List Entry) (ctx : PlainCtx)
    → AllEntries es
    → read_loop mem (chunks 509 (print es)) ctx ≡ adopt_found mem ctx (find ctx.username es)
unfolding read_loop print
read_loop-print mem [] ctx v = unfold chunks in refl
read_loop-print mem (e ∷ es) ctx v =
    rw (chunks-print_entry e (print es) v.0)
      (ground (arith, read_line-print_entry mem e ctx v.0, read_loop-print mem es ctx v.1))

abbrev pub with_success : Outcome PlainCtx → Outcome (PlainCtx × ℤ)
with_success fault = fault
with_success (done ctx) = done (ctx, success)

pub read_auth_pass-print :
    (mem : Bool) (es : List Entry) (ctx : PlainCtx)
    → AllEntries es
    → read_auth_pass mem (some (print es)) ctx
      ≡ with_success (adopt_found mem ctx (find ctx.username es))
unfolding read_auth_pass
read_auth_pass-print mem es ctx v = ground (arith, read_loop-print mem es ctx v)
