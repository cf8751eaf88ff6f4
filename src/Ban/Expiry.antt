-- ===== src/Ban/Expiry.antt =====
-- main-ban.c: how long an address is refused.
use my_vps_config.Base.{
  ℕ, ◌+◌, ◌^◌, ◌≤◌, ◌<◌, ◌≡◌, ◌∙◌, ap, true, false, arith, some, Bytes, is_empty, length, take_all,
  bytes_eq_refl, bytes_eq→eq, leb,
}
use my_vps_config.Htable.{Htable}
use my_vps_config.Ban.{
  BanEntry, BanConfig, ip_key, max_ip_str, check_if_banned, add_ip_to_ban_list, refuses, charge,
  restart, remove_ip_from_ban_list,
}
use my_vps_config.Ban.Score.{charged, key, report_known}

module _ (ht : Htable BanEntry ip_key) (c : BanConfig) (ip : Bytes) (on : 0 < c.max_ban_score)
    (named : is_empty ip ≡ false) (fits : length ip < max_ip_str) where
  open ht use {Table, get}

  whole : key ht c ip ≡ ip
  whole = take_all 45 ip (omega arith)

  -- The answer of `check_if_banned`, by the entry that its own points leave.
  check-known :
      (now later : ℕ) (t : Table) (e : BanEntry)
      → get ip t ≡ some e
      → (check_if_banned ht c now later true (some t) (some ip)).1
        ≡ refuses c later (some (charged c now c.ban_points_connect ip (some e)))
  unfolding check_if_banned
  check-known now later t e h =
      let (t', ran, found) =
        report_known ht c ip on named now c.ban_points_connect t e (rw whole h) in
      ground (arith, ran, rw whole at found)

  -- A report that takes an address (of 1 to 45 bytes, with an entry below the maximum) to the
  -- maximum bans it: check_if_banned then refuses it up to min_reauth_time after that report and no
  -- longer, if report and connection fall into its counting period and the score stays below 2 ^
  -- 32.
  pub banned_until :
      (start points now later : ℕ) (t : Table) (e : BanEntry)
      → get ip t ≡ some e
      → e.score < c.max_ban_score
      → c.max_ban_score ≤ e.score + points
      → start ≤ e.last_reset + c.ban_reset_time
      → now ≤ e.last_reset + c.ban_reset_time
      → e.score + points + c.ban_points_connect < 2 ^ 32
      → (check_if_banned ht c now later true
          (add_ip_to_ban_list ht c start true (some t) (some ip) points).0
          (some ip)).1
        ≡ leb later (start + c.min_reauth_time)
  unfolding charge restart refuses
  banned_until start points now later t e h low high ws wn small =
      let (t', ran, found) = report_known ht c ip on named start points t e (rw whole h) in
      rw ran (
        check-known now later t' (charged c start points (key ht c ip) (some e)) (rw whole at found)
        ∙ ground arith)

  -- Once the counting period of an address is over, a connection is admitted if its own points are
  -- below the maximum and 2 ^ 32.
  pub admitted_after_reset :
      (now later : ℕ) (t : Table) (e : BanEntry)
      → get ip t ≡ some e
      → e.last_reset + c.ban_reset_time < now
      → c.ban_points_connect < c.max_ban_score
      → c.ban_points_connect < 2 ^ 32
      → (check_if_banned ht c now later true (some t) (some ip)).1 ≡ false
  unfolding charge restart refuses
  admitted_after_reset now later t e h over small fits32 =
      check-known now later t e h ∙ ground arith

  -- remove_ip_from_ban_list finds an address that has an entry and unbans it: the next connection
  -- is admitted if its own points are below the maximum and 2 ^ 32.
  pub removed-admitted :
      (now later : ℕ) (t : Table) (e : BanEntry)
      → get ip t ≡ some e
      → c.ban_points_connect < c.max_ban_score
      → c.ban_points_connect < 2 ^ 32
      → ((remove_ip_from_ban_list ht (some t) (some ip)).1 ≡ true)
        × ((check_if_banned ht c now later true
              (remove_ip_from_ban_list ht (some t) (some ip)).0
              (some ip)).1
            ≡ false)
  unfolding charge restart refuses remove_ip_from_ban_list
  removed-admitted now later t e h small fits32 =
      let e' : BanEntry = record e { score = 0; expires = 0 } in
      let known : e.ip ≡ ip = bytes_eq→eq e.ip ip (ht.key-get ip t e h) in
      let written : get ip (ht.write e' t) ≡ some e' =
        ground
          (arith, ht.get-write e' e t ip (ap (λ k. get k t) known ∙ h), known, bytes_eq_refl ip) in
      ground (arith, named, whole, h, check-known now later (ht.write e' t) e' written)
