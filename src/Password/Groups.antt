-- ===== src/Password/Groups.antt =====
-- auth/plain.c: the names of the groups in a line of the password file.
use my_vps_config.Base.{
  ℕ, zero, suc, ◌==◌, Bool, true, false, ◌&&◌, if◌then◌else◌, Option, none, some, List, [], ◌∷◌,
  Bytes, is_empty, length,
}
use my_vps_config.Text.{Outcome, done, fault, split_on, trim_start, trim_end}

unfoldable pub is_blank : Bytes → Bool
unfolding trim_start
is_blank s = is_empty (trim_start s)

-- What stands before the last space of a name, without the white space at its end; `none` is a
-- name without a space.
unfoldable pub before_last_space : Bytes → Option Bytes
before_last_space [] = none
before_last_space (c ∷ s) = elim (before_last_space s) [
  | some t ↦ some (c ∷ t)
  | none ↦ if c == b' ' then some [] else none
]

-- The last name: from its last space on, backwards, white space is cut off. At the start of the
-- text the loop has nothing to stop at.
unfoldable pub last_name : Bool → Bytes → Outcome Bytes
unfolding before_last_space is_blank trim_end
last_name at_start g = elim (before_last_space g) [
  | none ↦ done g
  | some t ↦ if at_start && is_blank t then fault else done (trim_end t)
]

abbrev pub cons_name : Bytes → Outcome (List Bytes) → Outcome (List Bytes)
cons_name g (done gs) = done (g ∷ gs)
cons_name g fault = fault

-- The loop of `break_group_list` over the parts: `at_start` in the first round, and how many names
-- may still be stored. White space is skipped behind a comma; a name of one byte is left out where
-- a comma follows it.
unfoldable pub group_loop : Bool → ℕ → List Bytes → Outcome (List Bytes)
unfolding last_name is_blank trim_start trim_end
group_loop at_start room [] = done []
group_loop at_start zero (g ∷ gs) = done []
group_loop at_start (suc room) (g ∷ []) =
    elim (last_name at_start (if at_start then g else trim_start g)) [
      | fault ↦ fault
      | done name ↦ done (name ∷ [])
    ]
group_loop at_start (suc room) (g ∷ g' ∷ gs) =
    let part = if at_start then g else trim_start g in
    let skipped = group_loop false (suc room) (g' ∷ gs) in
    let stored = group_loop false room (g' ∷ gs) in
    if at_start && is_blank part
    then fault
    else if length part == 1
    then skipped
    else cons_name (trim_end part) stored

-- MAX_GROUPS
abbrev pub max_groups : ℕ
max_groups = 32

-- `mem` says whether `talloc_strdup` succeeds.
unfoldable pub break_group_list : Bool → Bytes → Outcome (List Bytes)
unfolding group_loop split_on
break_group_list mem text = if mem then group_loop true max_groups (split_on b',' text) else done []
