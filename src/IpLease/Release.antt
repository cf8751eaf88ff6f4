-- ===== src/IpLease/Release.antt =====
-- ip-lease.c: what `get_ip_leases` and `remove_ip_leases` do to the table of leases.
use my_vps_config.Base.{
  ◌≡◌, inl, inr, refl, Bool, true, false, ◌&&◌, if◌then◌else◌, Option, none, some, Bytes, bytes_eq,
  bytes_eq→eq, bytes_eq_refl, arith, Option-cases,
}
use my_vps_config.Htable.{Htable}
use my_vps_config.IpLease.Address.{IpLease, rip_key, World}
use my_vps_config.IpLease.Choice.{Networks, Client, Chosen, get_ipv4_lease, get_ipv6_lease}
use my_vps_config.IpLease.Registry.{
  enter_lease, free_lease, remove_ip_leases, obtain, get_ip_leases,
}
use my_vps_config.IpLease.Usable.{
  IsFreeChoice, get_ipv4_lease-IsFreeChoice, get_ipv6_lease-IsFreeChoice,
}

-- The lease is in the table at this address, with its destructor.
abbrev pub owns : Option IpLease → Bytes → Bool
owns none k = false
owns (some l) k = (l.hooked && l.in_db) && bytes_eq l.rip k

module _ (ht : Htable IpLease rip_key) where
  open ht use {Table, get, add, del, get-add, get-del, get-write}

  -- The step from t to t' entered the lease, if it is one of the table's, and nothing else.
  abbrev pub IsEntered : Option IpLease → Table → Table → Type 0
  IsEntered o t t' =
      (k : Bytes)
      → (get k t' ≡ (if owns o k then o else get k t)) × (owns o k ≡ true → get k t ≡ none)

  get-free_lease :
      (o : Option IpLease) (t : Table) (k : Bytes)
      → get k (free_lease ht o t) ≡ (if owns o k then none else get k t)
  unfolding free_lease
  get-free_lease none t k = refl
  get-free_lease (some l) t k = ground (arith, get-del l.rip k t)

  enter_lease-IsEntered :
      (o : Option IpLease) (t : Table)
      → ((l : IpLease) → o ≡ some l → (get l.rip t ≡ none) × (l.hooked ≡ false))
      → (let (ret, o', t') = enter_lease ht o t in IsEntered o' t t')
  unfolding enter_lease
  enter_lease-IsEntered none t f k = ground arith
  enter_lease-IsEntered (some l) t f k = elim (Option-cases (add l t)) [
    | inl e ↦ ground (arith, f l refl)
    | inr (t', e) ↦ ground (
      arith,
      f l refl,
      get-add l t t' k (f l refl).0 e,
      get-add l t t' l.rip (f l refl).0 e,
      bytes_eq_refl l.rip,
      get-write (record l { hooked = true }) l t' k,
      bytes_eq→eq l.rip k,
    )
  ]

  obtain-IsEntered :
      (choose : Table → Chosen) (t : Table) (w : World) (server : Networks)
      → IsFreeChoice ht w server t (choose t)
      → (let (ret, o', t') = obtain ht none choose t in IsEntered o' t t')
  unfolding obtain
  obtain-IsEntered choose t w server f k = elim (Option-cases (choose t).1) [
    | inl e ↦ ground (arith, enter_lease-IsEntered none t (λ l p. ground arith) k)
    | inr (l, e) ↦
        ground (arith, f l e, enter_lease-IsEntered (some l) t (λ l' p. ground (arith, f l e)) k)
  ]

module _ (ht : Htable IpLease rip_key) (w : World) (server : Networks) (p : Client) where
  open ht use {Table, get}

  obtain_lem :
      (old : Option IpLease) (choose : Table → Chosen) (t : Table)
      → old ≡ none
      → IsFreeChoice ht w server t (choose t)
      → (let (ret, o', t') = obtain ht old choose t in IsEntered ht o' t t')
  obtain_lem none choose t h f = obtain-IsEntered ht choose t w server f
  obtain_lem (some l) choose t h f = ground arith

  -- For a client without leases, get_ip_leases followed by remove_ip_leases leaves the table with
  -- the lease of every address that it had before, whatever get_ip_leases returns and wherever it
  -- stops.
  pub remove_ip_leases-get_ip_leases :
      (t : Table) (k : Bytes)
      → p.ipv4 ≡ none
      → p.ipv6 ≡ none
      → (let (ret, p', t') = get_ip_leases ht w server p t in
          get k (remove_ip_leases ht p' t').1 ≡ get k t)
  unfolding get_ip_leases remove_ip_leases
  remove_ip_leases-get_ip_leases t k h₄ h₆ =
      let a = obtain ht p.ipv4 (get_ipv4_lease ht w server p) t in
      let p₄ : Client = record p { ipv4 = a.1 } in
      let b = obtain ht p₄.ipv6 (get_ipv6_lease ht w server p₄) a.2 in
      let freed = free_lease ht a.1 b.2 in
      ground (
        arith,
        obtain_lem p.ipv4 (get_ipv4_lease ht w server p) t h₄
            (get_ipv4_lease-IsFreeChoice ht w server p t) k,
        obtain_lem p₄.ipv6 (get_ipv6_lease ht w server p₄) a.2 h₆
            (get_ipv6_lease-IsFreeChoice ht w server p₄ a.2) k,
        get-free_lease ht a.1 a.2 k,
        get-free_lease ht b.1 freed k,
        get-free_lease ht none freed k,
        get-free_lease ht p.ipv6 (free_lease ht a.1 a.2) k,
        get-free_lease ht a.1 b.2 k,
      )

  obtain-kept :
      (old : Option IpLease) (choose : Table → Chosen) (t : Table) (k : Bytes) (x : IpLease)
      → IsFreeChoice ht w server t (choose t)
      → get k t ≡ some x
      → get k (obtain ht old choose t).2 ≡ some x
  unfolding obtain
  obtain-kept none choose t k x f h = ground (arith, obtain-IsEntered ht choose t w server f k)
  obtain-kept (some l) choose t k x f h = ground arith

  -- A lease that is in the table stays there, unchanged, when get_ip_leases serves a client,
  -- whatever it returns.
  pub get_ip_leases-kept :
      (t : Table) (k : Bytes) (x : IpLease)
      → get k t ≡ some x
      → (let (ret, p', t') = get_ip_leases ht w server p t in get k t' ≡ some x)
  unfolding get_ip_leases
  get_ip_leases-kept t k x h =
      let a = obtain ht p.ipv4 (get_ipv4_lease ht w server p) t in
      let p₄ : Client = record p { ipv4 = a.1 } in
      ground (
        arith,
        obtain-kept p.ipv4 (get_ipv4_lease ht w server p) t k x
            (get_ipv4_lease-IsFreeChoice ht w server p t) h,
        obtain-kept p₄.ipv6 (get_ipv6_lease ht w server p₄) a.2 k x
            (get_ipv6_lease-IsFreeChoice ht w server p₄ a.2),
      )
