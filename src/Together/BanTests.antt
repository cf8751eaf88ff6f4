-- ===== src/Together/BanTests.antt =====
-- A wrong password of an address that is near the maximum.
use my_vps_config.Base.{◌≡◌, inl, refl, leb, ◌+◌, true, some, [], ◌∷◌, arith}
use my_vps_config.Base.Int.{failure}
use my_vps_config.Htable.{Htable}
use my_vps_config.Htable.Assoc.{assoc}
use my_vps_config.Ban.{BanEntry, BanConfig, ip_key, check_if_banned}
use my_vps_config.SecMod.Types.{ClientEntry, AuthStatus}
use my_vps_config.SecMod.Reply.{decide}
use my_vps_config.SecMod.Tests.{Ctx, config, env, completed}
use my_vps_config.Together.Banned.{apply_bans, with_bans, decide-banned}

abbrev list : Htable BanEntry ip_key
list = assoc ip_key

abbrev ban_config : BanConfig
ban_config = record {
  max_ban_score = 50;
  min_reauth_time = 120;
  ban_reset_time = 300;
  ban_points_connect = 1;
}

abbrev near : BanEntry
near = record { ip = b'1' ∷ []; score = 45; last_reset = 1000; expires = 1120 }

abbrev guessing : ClientEntry Ctx
guessing = record completed { status = AuthStatus.cont }

decide-banned_example :
    let s =
      decide (with_bans list ban_config 1010 (some (near ∷ [])) env) config guessing failure in
    (s.entry.status ≡ AuthStatus.failed)
    × ((check_if_banned list ban_config 1020 1021 true
          (apply_bans list ban_config 1010 s.events (some (near ∷ [])))
          (some (b'1' ∷ []))).1
        ≡ leb 1021 (1010 + 120))
decide-banned_example =
    decide-banned list ban_config config env guessing (near ∷ []) near 1010 (omega arith) refl
      (omega arith) refl refl (omega arith) (omega arith) (omega arith) (omega arith) failure 1020
      1021 refl (inl refl) (omega arith)
