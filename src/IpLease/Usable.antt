-- ===== src/IpLease/Usable.antt =====
-- ip-lease.c: an address that is given out is free and is no address of the network itself.
use my_vps_config.Base.{
  ℕ, zero, suc, ◌≡◌, inl, inr, refl, Bool, true, false, not, ◌&&◌, ◌==◌, if◌then◌else◌, Option,
  none, some, List, [], ◌∷◌, ◌++◌, Bytes, bytes_eq, take, replicate, arith, Option-cases, length,
  ap,
}
use my_vps_config.Base.Int.{success, err_mem, err_no_ip}
use my_vps_config.Htable.{Htable}
use my_vps_config.IpLease.Address.{
  IpLease, rip_key, World, and_bytes, is_ipv4_ok, is_ipv6_ok, ip_lease_exists, set_last_bit,
  or_not_bytes,
}
use my_vps_config.IpLease.Choice.{
  Networks, Client, Chosen, max_ip_tries, candidate, ip_from_seed, try_ips, explicit_lease,
  random_lease, choose_ipv4, choose_ipv6, with_network, get_ipv4_lease, get_ipv6_lease, network4,
  network6, lease_at,
}

module _ (w : World) (ok : Bytes → Bool) (size : ℕ) (net mask start : Bytes) where
  -- The addresses that the loop looks at, each with the rounds that are left.
  abbrev pub tries : ℕ → Bytes → List (ℕ × Bytes)
  tries zero rnd = []
  tries (suc left) rnd =
      let ip =
        candidate net mask (if suc left == max_ip_tries then start else ip_from_seed w rnd size) in
      (left, ip) ∷ tries left ip

  -- An address that the loop may take: it passes the test, is not the server's own and is silent.
  abbrev pub is_usable : ℕ × Bytes → Bool
  is_usable (left, ip) = ok ip && (not (bytes_eq (set_last_bit net) ip) && not (w.ping left ip))

  abbrev pub first_usable : List (ℕ × Bytes) → Option Bytes
  first_usable [] = none
  first_usable ((left, ip) ∷ ips) = if is_usable (left, ip) then some ip else first_usable ips

  abbrev pub lease_of : Option Bytes → Option IpLease
  lease_of none = none
  lease_of (some ip) = some (lease_at ip net true)

  try_ips-eq :
      (n : ℕ) (rnd : Bytes)
      → try_ips w ok size net mask start n rnd ≡ lease_of (first_usable (tries n rnd))
  unfolding try_ips
  try_ips-eq zero rnd = refl
  try_ips-eq (suc left) rnd =
      let ip =
        candidate net mask (if suc left == max_ip_tries then start else ip_from_seed w rnd size) in
      ground (arith, try_ips-eq left ip)

  length-tries : (n : ℕ) (rnd : Bytes) → length (tries n rnd) ≡ n
  length-tries zero rnd = refl
  length-tries (suc left) rnd = ap suc (length-tries left _)

-- What is chosen passes the test, differs from the server's address and has no destructor yet.
abbrev pub IsChosen : (Bytes → Bool) → Chosen → Type 0
IsChosen ok c =
    (l : IpLease)
    → c.1 ≡ some l
    → (ok l.rip ≡ true) × (bytes_eq l.lip l.rip ≡ false) × (l.hooked ≡ false) × (c.0 ≡ success)

module _ (w : World) (ok : Bytes → Bool) (net : Bytes) where
  try_ips-chosen :
      (size : ℕ) (mask start : Bytes) (n : ℕ) (rnd : Bytes) (l : IpLease)
      → try_ips w ok size net mask start n rnd ≡ some l
      → (ok l.rip ≡ true) × (bytes_eq l.lip l.rip ≡ false) × (l.hooked ≡ false)
  unfolding try_ips
  try_ips-chosen size mask start zero rnd l h = cc
  try_ips-chosen size mask start (suc left) rnd l h =
      let ip =
        candidate net mask (if suc left == max_ip_tries then start else ip_from_seed w rnd size) in
      ground (arith, try_ips-chosen size mask start left ip l)

  explicit_lease-IsChosen : (parsed : Option Bytes) → IsChosen ok (explicit_lease w ok net parsed)
  unfolding explicit_lease
  explicit_lease-IsChosen none l h = cc
  explicit_lease-IsChosen (some ip) l h = ground arith

  random_lease-IsChosen :
      (size : ℕ) (mask start : Bytes) → IsChosen ok (random_lease w ok size net mask start)
  unfolding random_lease
  random_lease-IsChosen size mask start l h =
      ground (arith, try_ips-chosen size mask start max_ip_tries (replicate size 0) l)

module _ (w : World) (ok : Bytes → Bool) (size : ℕ) (net mask start : Bytes) where
  -- The answer for the first usable address.
  abbrev pub answer : Option Bytes → Chosen
  answer none = (err_no_ip, none)
  answer (some ip) = (success, some (lease_at ip net true))

  answer-eq :
      (o : Option IpLease) (f : Option Bytes)
      → o ≡ lease_of w ok size net mask start f
      → (elim o as (λ _. Chosen) [ none ↦ (err_no_ip, none) | some l ↦ (success, some l) ])
        ≡ answer f
  answer-eq o none h = ground arith
  answer-eq o (some ip) h = ground arith

  -- If there is memory, the random choice looks at 16 addresses and gives the first of them that is
  -- usable (one that passes the test, is not the server's own and does not answer the ping), and
  -- fails with ERR_NO_IP if none of the 16 is; without memory it fails with ERR_MEM.
  pub random_lease-first_usable :
      (let ips = tries w ok size net mask start max_ip_tries (replicate size 0) in
        (length ips ≡ 16)
        × (random_lease w ok size net mask start ≡ (
            if w.mem then answer (first_usable w ok size net mask start ips) else (err_mem, none))))
  unfolding random_lease
  random_lease-first_usable =
      let zeros = replicate size 0 in
      (
        length-tries w ok size net mask start max_ip_tries zeros,
        ap (λ (c : Chosen). if w.mem then c else (err_mem, none))
            (answer-eq _
              (first_usable w ok size net mask start
                (tries w ok size net mask start max_ip_tries zeros))
              (try_ips-eq w ok size net mask start max_ip_tries zeros)),
      )

module _ (ht : Htable IpLease rip_key) (w : World) (server : Networks) where
  open ht use {Table, get}

  -- A lease that can be entered: no lease has its address, which is not the server's own.
  abbrev pub IsFree : Table → IpLease → Type 0
  IsFree t l = (get l.rip t ≡ none) × (bytes_eq l.lip l.rip ≡ false) × (l.hooked ≡ false)

  abbrev pub IsFreeChoice : Table → Chosen → Type 0
  IsFreeChoice t c = (l : IpLease) → c.1 ≡ some l → IsFree t l × (c.0 ≡ success)

  is_ipv4_ok-absent :
      (net ip : Bytes) (t : Table) → is_ipv4_ok ht w ip net t ≡ true → get ip t ≡ none
  unfolding is_ipv4_ok ip_lease_exists
  is_ipv4_ok-absent net ip t h = ground (arith, Option-cases (get ip t))

  is_ipv6_ok-absent : (net ip : Bytes) (t : Table) → is_ipv6_ok ht ip net t ≡ true → get ip t ≡ none
  unfolding is_ipv6_ok ip_lease_exists
  is_ipv6_ok-absent net ip t h = ground (arith, Option-cases (get ip t))

  choose_ipv4-IsFreeChoice :
      (p : Client) (net mask : Bytes) (t : Table)
      → IsFreeChoice t (choose_ipv4 ht w server p net mask t)
  unfolding choose_ipv4
  choose_ipv4-IsFreeChoice p net mask t l h =
      let ok : Bytes → Bool = λ ip. is_ipv4_ok ht w ip net t in
      elim (Option-cases p.explicit_ipv4) [
        | inl e ↦ ground (
          arith,
          is_ipv4_ok-absent net l.rip t,
          random_lease-IsChosen w ok net 4 mask (take 4 p.ipv4_seed) l,
        )
        | inr (text, e) ↦ ground (
          arith,
          is_ipv4_ok-absent net l.rip t,
          explicit_lease-IsChosen w ok net (w.inet_pton4 text) l,
        )
      ]

  choose_ipv6-IsFreeChoice :
      (p : Client) (net mask : Bytes) (t : Table)
      → IsFreeChoice t (choose_ipv6 ht w server p net mask t)
  unfolding choose_ipv6
  choose_ipv6-IsFreeChoice p net mask t l h =
      let ok : Bytes → Bool = λ ip. is_ipv6_ok ht ip net t in
      elim (Option-cases p.explicit_ipv6) [
        | inl e ↦ ground (
          arith,
          is_ipv6_ok-absent net l.rip t,
          random_lease-IsChosen w ok net 16 mask (replicate 11 0 ++ take 4 p.ipv4_seed ++ 0 ∷ []) l,
        )
        | inr (text, e) ↦ ground (
          arith,
          is_ipv6_ok-absent net l.rip t,
          explicit_lease-IsChosen w ok net (w.inet_pton6 text) l,
        )
      ]

  with_network-IsFreeChoice :
      (nm : Option Bytes × Option Bytes) (parse : Bytes → Option Bytes)
      (choose : Bytes → Bytes → Chosen) (t : Table)
      → ((net mask : Bytes) → IsFreeChoice t (choose net mask))
      → IsFreeChoice t (with_network ht w server nm parse choose)
  unfolding with_network
  with_network-IsFreeChoice (none, mask) parse choose t f l h = cc
  with_network-IsFreeChoice (some net, none) parse choose t f l h = cc
  with_network-IsFreeChoice (some net, some mask) parse choose t f l h =
      elim (Option-cases (parse net)) [
        | inl e ↦ ground arith
        | inr (n, e) ↦ elim (Option-cases (parse mask)) [
          | inl e' ↦ ground arith
          | inr (m, e') ↦ ground (arith, f (and_bytes n m) m l)
        ]
      ]

  -- A lease that get_ipv4_lease leaves has an address without a lease in the table and other than
  -- the server's own, has no destructor yet, and comes with the return code 0.
  pub get_ipv4_lease-IsFreeChoice :
      (p : Client) (t : Table) → IsFreeChoice t (get_ipv4_lease ht w server p t)
  unfolding get_ipv4_lease
  get_ipv4_lease-IsFreeChoice p t =
      with_network-IsFreeChoice (network4 p.networks server) w.inet_pton4
        (λ net mask. choose_ipv4 ht w server p net mask t) t
        (λ net mask. choose_ipv4-IsFreeChoice p net mask t)

  pub get_ipv6_lease-IsFreeChoice :
      (p : Client) (t : Table) → IsFreeChoice t (get_ipv6_lease ht w server p t)
  unfolding get_ipv6_lease
  get_ipv6_lease-IsFreeChoice p t =
      with_network-IsFreeChoice (network6 p.networks server) w.inet_pton6
        (λ net mask. choose_ipv6 ht w server p net mask t) t
        (λ net mask. choose_ipv6-IsFreeChoice p net mask t)

  -- An address with all bits outside the mask set, which is the network's broadcast address, passes
  -- is_ipv4_ok if no lease has it, it is not the network's address, and the bytes that the code
  -- reads in place of the mask lead to another address.
  pub broadcast_accepted :
      (net mask : Bytes) (t : Table)
      → get (or_not_bytes net mask) t ≡ none
      → bytes_eq (or_not_bytes net mask) net ≡ false
      → bytes_eq (or_not_bytes net mask) (or_not_bytes net w.mask_pointer) ≡ false
      → is_ipv4_ok ht w (or_not_bytes net mask) net t ≡ true
  unfolding is_ipv4_ok ip_lease_exists
  broadcast_accepted net mask t free other pointer = ground arith
