-- ===== src/Ban/Tests.antt =====
-- The ban list on concrete tables, and its theorems at concrete inputs.
use my_vps_config.Base.{◌≡◌, refl, true, List, [], ◌∷◌, some, Bytes, arith}
use my_vps_config.Base.Int.{failure, is_neg}
use my_vps_config.Htable.{Htable}
use my_vps_config.Htable.Assoc.{assoc}
use my_vps_config.Ban.{
  BanEntry, BanConfig, ip_key, add_ip_to_ban_list, check_if_banned, cleanup_banned_entries,
  add_ip_to_table, add_new_entry, record_points, restart, charge, lookup, verdict, fresh_entry,
}
use my_vps_config.Ban.Score.{reports, ban_threshold}
use my_vps_config.Ban.Expiry.{banned_until}
use my_vps_config.Ban.Cleanup.{cleanup_unobservable}

abbrev ht : Htable BanEntry ip_key
ht = assoc ip_key

abbrev config : BanConfig
config = record {
  max_ban_score = 50;
  min_reauth_time = 120;
  ban_reset_time = 300;
  ban_points_connect = 1;
}

abbrev client : Bytes
client = b'1' ∷ b'0' ∷ b'.' ∷ b'1' ∷ []

abbrev failed_once : BanEntry
failed_once = record { ip = client; score = 20; last_reset = 1000; expires = 1120 }

abbrev table : List BanEntry
table = failed_once ∷ []

new_address : add_ip_to_ban_list ht config 1000 true (some []) (some client) 50 ≡ (
  some (
      record { ip = client; score = 50; last_reset = 1000; expires = 1120 }
      ∷ record { ip = client; score = 0; last_reset = 1000; expires = 0 }
      ∷ []),
  failure,
)
unfolding add_ip_to_ban_list add_ip_to_table add_new_entry record_points restart charge verdict
    fresh_entry
new_address = refl

ban_threshold_example :
    is_neg
      (add_ip_to_ban_list ht config 1030 true
        (reports ht config client ((1010, 10) ∷ (1020, 10) ∷ []) (some table))
        (some client)
        10).1
    ≡ true
ban_threshold_example =
    ban_threshold ht config client (omega arith) refl ((1010, 10) ∷ (1020, 10) ∷ []) 1030 10 table
      failed_once refl (omega arith) (omega arith) (omega arith)

banned_until_example :
    (check_if_banned ht config 1100 1101 true
      (add_ip_to_ban_list ht config 1010 true (some table) (some client) 30).0
      (some client)).1
    ≡ true
banned_until_example =
    banned_until ht config client (omega arith) refl (omega arith) 1010 30 1100 1101 table
      failed_once refl (omega arith) (omega arith) (omega arith) (omega arith) (omega arith)

abbrev banned : BanEntry
banned = record { ip = client; score = 60; last_reset = 1000; expires = 1120 }

cleanup_unobservable_example :
    ((add_ip_to_ban_list ht config 1400 true
        (cleanup_banned_entries ht config 1301 (some table))
        (some client)
        30).1
      ≡ (add_ip_to_ban_list ht config 1400 true (some table) (some client) 30).1)
    × (lookup ht client
          (add_ip_to_ban_list ht config 1400 true
            (cleanup_banned_entries ht config 1301 (some table))
            (some client)
            30).0
        ≡ lookup ht client (add_ip_to_ban_list ht config 1400 true (some table) (some client) 30).0)
    × ((check_if_banned ht config 1400 1400 true
          (cleanup_banned_entries ht config 1301 (some table))
          (some client)).1
        ≡ (check_if_banned ht config 1400 1400 true (some table) (some client)).1)
cleanup_unobservable_example =
    cleanup_unobservable ht config (omega arith) (λ e t h. cc) 1301 1400 1400 30 client table
      (omega arith) refl (omega arith)
