-- ===== src/Worker/Mtu.antt =====
-- worker-vpn.c: the discovery of the MTU of the DTLS channel.
use my_vps_config.Base.{
  ℕ, zero, suc, ◌+◌, ◌*◌, ◌/◌, ◌%◌, ◌^◌, max, leb, ◌==◌, Bool, true, false, ◌||◌, if◌then◌else◌,
}

-- The fields of `worker_st` for the MTU: `has_ipv6` says that `vinfo.ipv6` is set, `disabled` that
-- `udp_state` is UP_DISABLED and DTLS is closed.
pub record MtuState : Type 0 where
  pub has_ipv6 : Bool
  pub conn_mtu : ℕ
  pub last_good_mtu : ℕ
  pub last_bad_mtu : ℕ
  pub disabled : Bool

-- MIN_MTU
abbrev pub min_mtu : MtuState → ℕ
min_mtu w = if w.has_ipv6 then 1281 else 257

-- `mtu_set`, less the messages to GnuTLS and to main.
abbrev pub mtu_set : ℕ → MtuState → MtuState
mtu_set mtu w = record w { conn_mtu = mtu }

unfoldable pub mtu_discovery_init : ℕ → MtuState → MtuState
mtu_discovery_init mtu w = record w { last_good_mtu = mtu; last_bad_mtu = mtu }

-- The result is false for -1.
unfoldable pub mtu_not_ok : MtuState → Bool × MtuState
mtu_not_ok w =
    let bad : MtuState = record w { last_bad_mtu = w.conn_mtu } in
    if w.last_good_mtu == min_mtu w
    then (false, record bad { disabled = true })
    else (let good =
          if leb w.conn_mtu w.last_good_mtu
          then max ((2 * w.conn_mtu) % 2 ^ 32 / 3) (min_mtu w)
          else w.last_good_mtu in
        (true, mtu_set good (record bad { last_good_mtu = good })))

unfoldable pub mtu_ok : MtuState → MtuState
mtu_ok w =
    if w.last_bad_mtu == w.conn_mtu + 1 || w.last_bad_mtu == w.conn_mtu
    then w
    else mtu_set ((w.conn_mtu + w.last_bad_mtu) % 2 ^ 32 / 2)
        (record w { last_good_mtu = w.conn_mtu })

-- What `tun_mainloop`, with `try_mtu` set, does for a packet of the whole MTU on a path that passes
-- `path` bytes; once DTLS is disabled it sends no more there.
unfoldable pub probe : ℕ → MtuState → MtuState
probe path w = if w.disabled then w else if leb w.conn_mtu path then mtu_ok w else (mtu_not_ok w).1

unfoldable pub probe_all : ℕ → ℕ → MtuState → MtuState
probe_all zero path w = w
probe_all (suc n) path w = probe_all n path (probe path w)
