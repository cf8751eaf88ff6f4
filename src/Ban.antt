-- ===== src/Ban.antt =====
-- ocserv/Ocserv/src/main-ban.c: the ban list of the main process. Each address has a score, which
-- failures raise; at `max_ban_score` it is refused until `expires`. Time is an argument of each
-- call; a time and a period add up in ℕ (`time_t` has 64 bits), a score wraps at 2 ^ 32.
pub mod Score
pub mod Expiry
pub mod Cleanup
mod Tests
use my_vps_config.Base.{
  ℕ, ◌+◌, ◌%◌, ◌^◌, ◌&&◌, ◌||◌, ltb, leb, ◌==◌, Bool, true, false, if◌then◌else◌, List, [], ◌∷◌,
  Option, none, some, Bytes, is_empty, strlcpy,
}
use my_vps_config.Base.Int.{ℤ, success, failure}
use my_vps_config.Htable.{Htable}
use my_vps_config.Htable.Sweep.{sweep}

-- `ban_entry_st`
pub record BanEntry : Type 0 where
  pub ip : Bytes
  pub score : ℕ
  pub last_reset : ℕ
  pub expires : ℕ

-- The fields of `cfg_st` that the list reads.
pub record BanConfig : Type 0 where
  pub max_ban_score : ℕ
  pub min_reauth_time : ℕ
  pub ban_reset_time : ℕ
  pub ban_points_connect : ℕ

-- MAX_IP_STR
abbrev pub max_ip_str : ℕ
max_ip_str = 46

abbrev pub ip_key : BanEntry → Bytes
ip_key e = e.ip

-- The entry's counting period is over, so it starts anew.
pub restart : BanConfig → ℕ → BanEntry → BanEntry
restart c now e =
    if ltb (e.last_reset + c.ban_reset_time) now
    then record e { score = 0; last_reset = now }
    else e

-- The points are added; the ban's end moves only while the address is not banned.
pub charge : BanConfig → ℕ → ℕ → BanEntry → BanEntry
charge c now points e =
    let expires = if ltb e.score c.max_ban_score then now + c.min_reauth_time else e.expires in
    record e { expires = expires; score = (e.score + points) % 2 ^ 32 }

pub verdict : BanConfig → BanEntry → ℤ
verdict c e = if ltb 0 c.max_ban_score && leb c.max_ban_score e.score then failure else success

pub fresh_entry : ℕ → Bytes → BanEntry
fresh_entry now ip = record { ip = ip; score = 0; last_reset = now; expires = 0 }

-- The look at the entry in `check_if_banned`, after the points of the connection.
pub refuses : BanConfig → ℕ → Option BanEntry → Bool
refuses c now none = false
refuses c now (some e) = if ltb e.expires now then false else leb c.max_ban_score e.score

pub is_stale : BanConfig → ℕ → BanEntry → Bool
is_stale c now e = leb e.expires now && ltb (e.last_reset + c.ban_reset_time) now

module _ (ht : Htable BanEntry ip_key) where
  open ht use {Table, get, add, write, del, items}

  -- What the pointer `s->ban_db` leads to: `none` is NULL.
  abbrev pub BanDb : Type 0
  BanDb = Option Table

  pub main_ban_db_init : BanDb
  main_ban_db_init = some ht.init

  -- From the entry `e`, found or made, to the end of `add_ip_to_ban_list`.
  pub record_points : BanConfig → ℕ → ℕ → BanEntry → Table → Table × ℤ
  record_points c now points e t = let e' = charge c now points e in (write e' t, verdict c e')

  pub add_new_entry : BanConfig → ℕ → Bool → Bytes → ℕ → Table → Table × ℤ
  add_new_entry c now mem key points t =
      if mem
      then elim (add (fresh_entry now key) t) [
        | none ↦ (t, success)
        | some t' ↦ record_points c now points (fresh_entry now key) t'
      ]
      else (t, success)

  pub add_ip_to_table : BanConfig → ℕ → Bool → Bytes → ℕ → Table → Table × ℤ
  add_ip_to_table c now mem ip points t = elim (get (strlcpy max_ip_str ip) t) [
    | none ↦ add_new_entry c now mem (strlcpy max_ip_str ip) points t
    | some e ↦ record_points c now points (restart c now e) t
  ]

  -- `mem` says whether `talloc_zero` succeeds; the address `none` is NULL. The result is -1 if the
  -- address is banned now.
  pub add_ip_to_ban_list : BanConfig → ℕ → Bool → BanDb → Option Bytes → ℕ → BanDb × ℤ
  add_ip_to_ban_list c now mem none ip points = (none, success)
  add_ip_to_ban_list c now mem (some t) none points = (some t, success)
  add_ip_to_ban_list c now mem (some t) (some ip) points =
      if c.max_ban_score == 0 || is_empty ip
      then (some t, success)
      else (let r = add_ip_to_table c now mem ip points t in (some r.0, r.1))

  -- The result says whether the address was found.
  pub remove_ip_from_ban_list : BanDb → Option Bytes → BanDb × Bool
  remove_ip_from_ban_list none ip = (none, false)
  remove_ip_from_ban_list (some t) none = (some t, false)
  remove_ip_from_ban_list (some t) (some ip) =
      if is_empty ip then (some t, false) else elim (get (strlcpy max_ip_str ip) t) [
        | none ↦ (some t, false)
        | some e ↦ (some (write (record e { score = 0; expires = 0 }) t), true)
      ]

  unfoldable pub lookup : Bytes → BanDb → Option BanEntry
  lookup k none = none
  lookup k (some t) = get k t

  -- `human_addr2` gives the address as text, or `none`; `now` and `later` are the two calls of
  -- `time`.
  pub check_if_banned : BanConfig → ℕ → ℕ → Bool → BanDb → Option Bytes → BanDb × Bool
  unfolding lookup
  check_if_banned c now later mem none addr = (none, false)
  check_if_banned c now later mem (some t) none = (some t, false)
  check_if_banned c now later mem (some t) (some ip) =
      if c.max_ban_score == 0
      then (some t, false)
      else (let db = (add_ip_to_ban_list c now mem (some t) (some ip) c.ban_points_connect).0 in
          (db, refuses c later (lookup ip db)))

  pub cleanup_banned_entries : BanConfig → ℕ → BanDb → BanDb
  cleanup_banned_entries c now none = none
  cleanup_banned_entries c now (some t) = some (sweep ht (is_stale c now) (items t) t)
