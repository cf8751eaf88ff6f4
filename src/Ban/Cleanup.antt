-- ===== src/Ban/Cleanup.antt =====
-- main-ban.c: the periodic removal of old entries is not observable.
use my_vps_config.Base.{
  ℕ, ◌≤◌, ◌<◌, ◌≡◌, ◌≢◌, refl, ◌∙◌, true, false, arith, Option, some, none, Bytes, is_empty, length,
  take_all, bytes_eq_refl, bytes_eq→eq, inl, inr, strlcpy,
}
use my_vps_config.Htable.{Htable}
use my_vps_config.Htable.Sweep.{sweep, get-sweep}
use my_vps_config.Ban.{
  BanEntry, BanConfig, ip_key, max_ip_str, check_if_banned, lookup, add_ip_to_ban_list, charge,
  restart, cleanup_banned_entries, is_stale, verdict, fresh_entry, add_ip_to_table,
}
use my_vps_config.Ban.Score.{charged, add_ip_to_table-Reported}

-- A stale entry is charged as an absent one would be.
charged_stale :
    (c : BanConfig) (old now points : ℕ) (key : Bytes) (e : BanEntry)
    → 0 < c.max_ban_score
    → e.ip ≡ key
    → old ≤ now
    → is_stale c old e ≡ true
    → charged c now points key none ≡ charged c now points key (some e)
unfolding charge restart fresh_entry is_stale
charged_stale c old now points key e on h w st = ground arith

module _ (ht : Htable BanEntry ip_key) (c : BanConfig) (on : 0 < c.max_ban_score)
    (roomy : (e : BanEntry) (t : ht.Table) → ht.add e t ≢ none) where
  open ht use {Table, get, items}

  -- What a report does where memory suffices.
  report_lem :
      (now points : ℕ) (ip : Bytes) (t : Table)
      → let key = strlcpy max_ip_str ip in
        let e = charged c now points key (get key t) in
        (get key (add_ip_to_table ht c now true ip points t).0 ≡ some e)
        × ((add_ip_to_table ht c now true ip points t).1 ≡ verdict c e)
  report_lem now points ip t = elim (add_ip_to_table-Reported ht c now points true ip t) [
    | inl (found, answer) ↦ (
      found (strlcpy max_ip_str ip) ∙ ground (arith, bytes_eq_refl (strlcpy max_ip_str ip)),
      answer,
    )
    | inr (absent, same, zero, inl never) ↦ cc
    | inr (absent, same, zero, inr full) ↦ absurd (roomy _ _ full)
  ]

  charged-sweep :
      (old now points : ℕ) (key : Bytes) (t : Table)
      → old ≤ now
      → charged c now points key (get key (sweep ht (is_stale c old) (items t) t))
        ≡ charged c now points key (get key t)
  charged-sweep old now points key t w = go (get key t) refl
    where
      go :
          (o : Option BanEntry)
          → get key t ≡ o
          → charged c now points key (get key (sweep ht (is_stale c old) (items t) t))
            ≡ charged c now points key (get key t)
      go none e = rw (get-sweep ht (is_stale c old) key t, e)
      go (some x) e = ground (
        arith,
        get-sweep ht (is_stale c old) key t,
        charged_stale c old now points key x on (bytes_eq→eq x.ip key (ht.key-get key t x e)) w,
      )

  -- Where memory suffices and the maximum is above 0, it makes no difference whether
  -- cleanup_banned_entries ran before: a later report about an address (of 1 to 45 bytes) has the
  -- same answer and leaves the same entry for it, and a later connection is refused or admitted
  -- alike.
  pub cleanup_unobservable :
      (old now later points : ℕ) (ip : Bytes) (t : Table)
      → old ≤ now
      → is_empty ip ≡ false
      → length ip < max_ip_str
      → let db = cleanup_banned_entries ht c old (some t) in
        ((add_ip_to_ban_list ht c now true db (some ip) points).1
          ≡ (add_ip_to_ban_list ht c now true (some t) (some ip) points).1)
        × (lookup ht ip (add_ip_to_ban_list ht c now true db (some ip) points).0
            ≡ lookup ht ip (add_ip_to_ban_list ht c now true (some t) (some ip) points).0)
        × ((check_if_banned ht c now later true db (some ip)).1
            ≡ (check_if_banned ht c now later true (some t) (some ip)).1)
  unfolding cleanup_banned_entries add_ip_to_ban_list check_if_banned
  cleanup_unobservable old now later points ip t w named fits =
      let whole : strlcpy max_ip_str ip ≡ ip = take_all 45 ip (omega arith) in
      let t' : Table = sweep ht (is_stale c old) (items t) t in
      ground (
        arith,
        whole,
        report_lem now points ip t,
        report_lem now points ip t',
        report_lem now c.ban_points_connect ip t,
        report_lem now c.ban_points_connect ip t',
        charged-sweep old now points ip t w,
        charged-sweep old now c.ban_points_connect ip t w,
      )
