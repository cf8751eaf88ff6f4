-- ===== src/IpLease/Registry.antt =====
-- ip-lease.c: the leases of a client and the table of all leases.
use my_vps_config.Base.{true, ◌&&◌, if◌then◌else◌, Option, none, some}
use my_vps_config.Base.Int.{ℤ, success, failure, is_neg}
use my_vps_config.Htable.{Htable}
use my_vps_config.IpLease.Address.{IpLease, rip_key, World}
use my_vps_config.IpLease.Choice.{Networks, Client, Chosen, get_ipv4_lease, get_ipv6_lease}

-- `steal_ip_leases`: `proc` loses its leases to `thief`.
unfoldable pub steal_ip_leases : Client → Client → Client × Client
steal_ip_leases proc thief =
    (record proc { ipv4 = none; ipv6 = none }, record thief { ipv4 = proc.ipv4; ipv6 = proc.ipv6 })

module _ (ht : Htable IpLease rip_key) where
  open ht use {Table, add, write, del}

  -- A new lease is entered, if it belongs into the table, and gets its destructor. The result is
  -- the return code of the step, the lease and the table.
  unfoldable pub enter_lease : Option IpLease → Table → ℤ × Option IpLease × Table
  enter_lease none t = (success, none, t)
  enter_lease (some l) t =
      if l.in_db
      then elim (add l t) [
        | none ↦ (failure, some l, t)
        | some t' ↦
            (success, some (record l { hooked = true }), write (record l { hooked = true }) t')
      ]
      else (success, some l, t)

  -- `talloc_free` of a lease, with its destructor `unref_ip_lease`.
  unfoldable pub free_lease : Option IpLease → Table → Table
  free_lease none t = t
  free_lease (some l) t = if l.hooked && l.in_db then del l.rip t else t

  unfoldable pub remove_ip_leases : Client → Table → Client × Table
  unfolding free_lease
  remove_ip_leases p t =
      (record p { ipv4 = none; ipv6 = none }, free_lease p.ipv6 (free_lease p.ipv4 t))

  unfoldable pub remove_ip_lease : IpLease → Table → Table
  unfolding free_lease
  remove_ip_lease l t = free_lease (some l) t

  -- One family of `get_ip_leases`: a lease that the client has stays.
  unfoldable pub obtain : Option IpLease → (Table → Chosen) → Table → ℤ × Option IpLease × Table
  unfolding enter_lease
  obtain (some l) choose t = (success, some l, t)
  obtain none choose t =
      let chosen = choose t in
      if is_neg chosen.0 then (chosen.0, chosen.1, t) else enter_lease chosen.1 t

  unfoldable pub get_ip_leases : World → Networks → Client → Table → ℤ × Client × Table
  get_ip_leases w server p t =
      let (ret₄, ipv4, t₄) = obtain p.ipv4 (get_ipv4_lease ht w server p) t in
      let p₄ : Client = record p { ipv4 = ipv4 } in
      if is_neg ret₄
      then (ret₄, p₄, t₄)
      else (let (ret₆, ipv6, t₆) = obtain p.ipv6 (get_ipv6_lease ht w server p₄) t₄ in
          let p₆ : Client = record p₄ { ipv6 = ipv6 } in
          if is_neg ret₆ then (ret₆, p₆, t₆) else (elim ipv4 [
            | some l ↦ (success, p₆, t₆)
            | none ↦ elim ipv6 [ none ↦ (failure, p₆, t₆) | some l ↦ (success, p₆, t₆) ]
          ]))
