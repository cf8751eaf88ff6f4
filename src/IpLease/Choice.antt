-- ===== src/IpLease/Choice.antt =====
-- ip-lease.c: `get_ipv4_lease` and `get_ipv6_lease`, which choose the address of a client.
use my_vps_config.Base.{
  ℕ, zero, suc, ◌==◌, Bool, true, false, not, ◌&&◌, if◌then◌else◌, Option, none, some, [], ◌∷◌,
  ◌++◌, Bytes, bytes_eq, take, replicate,
}
use my_vps_config.Base.Int.{ℤ, success, failure, err_mem, err_no_ip}
use my_vps_config.Htable.{Htable}
use my_vps_config.IpLease.Address.{
  IpLease, rip_key, World, and_bytes, and_not_bytes, or_bytes, set_last_bit, is_ipv4_ok, is_ipv6_ok,
  ipv6_prefix_to_mask,
}

-- The networks of the configuration (`s->config->network`) or of the client (`proc->config`); a
-- prefix of 0 is none.
pub record Networks : Type 0 where
  pub ipv4 : Option Bytes
  pub ipv4_netmask : Option Bytes
  pub ipv6 : Option Bytes
  pub ipv6_prefix : ℕ

-- The fields of `proc_st` that the leases concern.
pub record Client : Type 0 where
  pub networks : Networks
  pub explicit_ipv4 : Option Bytes
  pub explicit_ipv6 : Option Bytes
  pub ipv4_seed : Bytes
  pub ipv4 : Option IpLease
  pub ipv6 : Option IpLease

-- MAX_IP_TRIES
abbrev pub max_ip_tries : ℕ
max_ip_tries = 16

-- The return code, and what `proc->ipv4` or `proc->ipv6` is then.
abbrev pub Chosen : Type 0
Chosen = ℤ × Option IpLease

abbrev pub lease_at : Bytes → Bytes → Bool → IpLease
lease_at rip net in_db = record { rip = rip; lip = set_last_bit net; in_db = in_db; hooked = false }

-- The random part of the address under the mask, and the network.
unfoldable pub candidate : Bytes → Bytes → Bytes → Bytes
candidate net mask rnd = or_bytes (and_not_bytes rnd mask) net

-- `ip_from_seed`
unfoldable pub ip_from_seed : World → Bytes → ℕ → Bytes
ip_from_seed w seed size = take size (w.sha1 seed)

-- The loop of either function: the rounds left, the address of the last round, and the start that
-- is taken in the first round. `ok` is the test by `is_ipv4_ok` or `is_ipv6_ok`.
unfoldable pub try_ips :
    World → (Bytes → Bool) → ℕ → Bytes → Bytes → Bytes → ℕ → Bytes → Option IpLease
try_ips w ok size net mask start zero rnd = none
try_ips w ok size net mask start (suc left) rnd =
    let seed = if suc left == max_ip_tries then start else ip_from_seed w rnd size in
    let ip = candidate net mask seed in
    let next = try_ips w ok size net mask start left ip in
    if ok ip && (not (bytes_eq (set_last_bit net) ip) && not (w.ping left ip))
    then some (lease_at ip net true)
    else next

-- An address that the configuration gives to the client is not entered into the table.
unfoldable pub explicit_lease : World → (Bytes → Bool) → Bytes → Option Bytes → Chosen
explicit_lease w ok net parsed = elim parsed [
  | none ↦ (failure, none)
  | some ip ↦
      if w.mem
      then (if ok ip && not (bytes_eq (set_last_bit net) ip)
          then (success, some (lease_at ip net false))
          else (err_no_ip, none))
      else (err_mem, none)
]

unfoldable pub random_lease : World → (Bytes → Bool) → ℕ → Bytes → Bytes → Bytes → Chosen
random_lease w ok size net mask start =
    if w.mem
    then elim (try_ips w ok size net mask start max_ip_tries (replicate size 0)) [
      | none ↦ (err_no_ip, none)
      | some l ↦ (success, some l)
    ]
    else (err_mem, none)

-- The client's network and mask, if it has both, or else the server's.
unfoldable pub network4 : Networks → Networks → Option Bytes × Option Bytes
network4 own server = elim own.ipv4 [
  | none ↦ (server.ipv4, server.ipv4_netmask)
  | some net ↦ elim own.ipv4_netmask [
    | none ↦ (server.ipv4, server.ipv4_netmask)
    | some mask ↦ (some net, some mask)
  ]
]

unfoldable pub network6 : Networks → Networks → Option Bytes × Option Bytes
network6 own server = elim own.ipv6 [
  | none ↦ (server.ipv6, ipv6_prefix_to_mask server.ipv6_prefix)
  | some net ↦
      if own.ipv6_prefix == 0
      then (server.ipv6, ipv6_prefix_to_mask server.ipv6_prefix)
      else (some net, ipv6_prefix_to_mask own.ipv6_prefix)
]

module _ (ht : Htable IpLease rip_key) (w : World) (server : Networks) where
  open ht use {Table}

  -- With the network, masked, and the mask.
  unfoldable pub choose_ipv4 : Client → Bytes → Bytes → Table → Chosen
  choose_ipv4 p net mask t = elim p.explicit_ipv4 [
    | some text ↦ explicit_lease w (λ ip. is_ipv4_ok ht w ip net t) net (w.inet_pton4 text)
    | none ↦ random_lease w (λ ip. is_ipv4_ok ht w ip net t) 4 net mask (take 4 p.ipv4_seed)
  ]

  unfoldable pub choose_ipv6 : Client → Bytes → Bytes → Table → Chosen
  choose_ipv6 p net mask t = elim p.explicit_ipv6 [
    | some text ↦ explicit_lease w (λ ip. is_ipv6_ok ht ip net t) net (w.inet_pton6 text)
    | none ↦
        random_lease w (λ ip. is_ipv6_ok ht ip net t) 16 net mask
          (replicate 11 0 ++ take 4 p.ipv4_seed ++ 0 ∷ [])
  ]

  -- Reads network and mask; a family with no network is left out.
  unfoldable pub with_network :
      Option Bytes × Option Bytes → (Bytes → Option Bytes) → (Bytes → Bytes → Chosen) → Chosen
  with_network (none, mask) parse choose = (success, none)
  with_network (some net, none) parse choose = (success, none)
  with_network (some net, some mask) parse choose = elim (parse net) [
    | none ↦ (failure, none)
    | some n ↦ elim (parse mask) [ none ↦ (failure, none) | some m ↦ choose (and_bytes n m) m ]
  ]

  unfoldable pub get_ipv4_lease : Client → Table → Chosen
  unfolding with_network
  get_ipv4_lease p t =
      with_network (network4 p.networks server) w.inet_pton4 (λ net mask. choose_ipv4 p net mask t)

  unfoldable pub get_ipv6_lease : Client → Table → Chosen
  unfolding with_network
  get_ipv6_lease p t =
      with_network (network6 p.networks server) w.inet_pton6 (λ net mask. choose_ipv6 p net mask t)
