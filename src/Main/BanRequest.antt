-- ===== src/Main/BanRequest.antt =====
-- main-sec-mod-cmd.c: the security module reports points, and main answers.
use my_vps_config.Base.{ℕ, Bool, not, some, Bytes}
use my_vps_config.Base.Int.{is_neg}
use my_vps_config.Htable.{Htable}
use my_vps_config.Ban.{BanEntry, BanConfig, ip_key, BanDb, add_ip_to_ban_list}

-- SM_CMD_AUTH_BAN_IP: the ban list, and the reply, which is true for AUTH__REP__OK. `mem` is the
-- memory of the ban list.
unfoldable pub handle_ban_ip :
    (ht : Htable BanEntry ip_key) → BanConfig → ℕ → Bool → BanDb ht → Bytes → ℕ → BanDb ht × Bool
handle_ban_ip ht c now mem db ip score =
    let r = add_ip_to_ban_list ht c now mem db (some ip) score in (r.0, not (is_neg r.1))
