-- ===== src/IpLease/Tests.antt =====
-- The leases on a concrete network, and their theorems at concrete inputs.
use my_vps_config.Base.{
  ◌≡◌, refl, true, false, [], ◌∷◌, some, none, Bytes, replicate, arith, length,
}
use my_vps_config.Base.Int.{success}
use my_vps_config.Htable.{Htable}
use my_vps_config.Htable.Assoc.{assoc}
use my_vps_config.IpLease.Address.{
  IpLease, rip_key, World, is_ipv4_ok, set_last_bit, ip_lease_exists,
}
use my_vps_config.IpLease.Choice.{
  Networks, Client, max_ip_tries, candidate, try_ips, random_lease, choose_ipv4, get_ipv4_lease,
  network4,
}
use my_vps_config.IpLease.Registry.{get_ip_leases, remove_ip_leases}
use my_vps_config.IpLease.Usable.{
  tries, first_usable, answer, random_lease-first_usable, IsFree, get_ipv4_lease-IsFreeChoice,
}
use my_vps_config.IpLease.Release.{remove_ip_leases-get_ip_leases}

ap_second : {A B : Type 0} {p q : A × B} → p ≡ q → p.1 ≡ q.1
ap_second h = ground arith

abbrev ht : Htable IpLease rip_key
ht = assoc rip_key

-- `inet_pton4` reads four characters as the four bytes.
abbrev world : World
world = record {
  inet_pton4 = λ text. some text;
  inet_pton6 = λ text. none;
  sha1 = λ bytes. replicate 20 (length bytes);
  ping = λ left ip. false;
  mem = true;
  mask_pointer = 16 ∷ 32 ∷ 48 ∷ 64 ∷ [];
}

abbrev net : Bytes
net = 10 ∷ 1 ∷ 2 ∷ 0 ∷ []

abbrev mask : Bytes
mask = 255 ∷ 255 ∷ 255 ∷ 0 ∷ []

abbrev none_set : Networks
none_set = record { ipv4 = none; ipv4_netmask = none; ipv6 = none; ipv6_prefix = 0 }

abbrev server : Networks
server = record { ipv4 = some net; ipv4_netmask = some mask; ipv6 = none; ipv6_prefix = 0 }

abbrev client : Client
client = record {
  networks = none_set;
  explicit_ipv4 = none;
  explicit_ipv6 = none;
  ipv4_seed = 1 ∷ 2 ∷ 3 ∷ 77 ∷ [];
  ipv4 = none;
  ipv6 = none;
}

abbrev lease : IpLease
lease = record {
  rip = 10 ∷ 1 ∷ 2 ∷ 77 ∷ [];
  lip = 10 ∷ 1 ∷ 2 ∷ 1 ∷ [];
  in_db = true;
  hooked = false;
}

first_address : get_ipv4_lease ht world server client [] ≡ (success, some lease)
unfolding get_ipv4_lease choose_ipv4 random_lease try_ips network4 candidate is_ipv4_ok
    ip_lease_exists set_last_bit
first_address = refl

get_ipv4_lease-IsFreeChoice_example :
    IsFree ht world server [] lease × ((get_ipv4_lease ht world server client []).0 ≡ success)
get_ipv4_lease-IsFreeChoice_example =
    get_ipv4_lease-IsFreeChoice ht world server client [] lease (ap_second first_address)

random_lease-first_usable_example :
    (length (tries world (λ ip. true) 4 net mask (1 ∷ 2 ∷ 3 ∷ 1 ∷ []) max_ip_tries (replicate 4 0))
      ≡ 16)
    × (random_lease world (λ ip. true) 4 net mask (1 ∷ 2 ∷ 3 ∷ 1 ∷ [])
        ≡ answer world
            (λ ip. true)
            4
            net
            mask
            (1 ∷ 2 ∷ 3 ∷ 1 ∷ [])
            (first_usable world
              (λ ip. true)
              4
              net
              mask
              (1 ∷ 2 ∷ 3 ∷ 1 ∷ [])
              (tries world
                (λ ip. true)
                4
                net
                mask
                (1 ∷ 2 ∷ 3 ∷ 1 ∷ [])
                max_ip_tries
                (replicate 4 0))))
random_lease-first_usable_example =
    random_lease-first_usable world (λ ip. true) 4 net mask (1 ∷ 2 ∷ 3 ∷ 1 ∷ [])

remove_ip_leases-get_ip_leases_example :
    (let (ret, p', t') = get_ip_leases ht world server client (lease ∷ []) in
      ht.get lease.rip (remove_ip_leases ht p' t').1 ≡ some lease)
remove_ip_leases-get_ip_leases_example =
    remove_ip_leases-get_ip_leases ht world server client (lease ∷ []) lease.rip refl refl
