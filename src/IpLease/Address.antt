-- ===== src/IpLease/Address.antt =====
-- ip-lease.c: addresses, the data of a lease and the tests of an address. The parsing of addresses,
-- SHA-1, the ping and memory are parameters.
use my_vps_config.Base.{
  ℕ, zero, suc, ◌-◌, ◌==◌, Bool, true, false, not, ◌||◌, if◌then◌else◌, Option, none, some, [], ◌∷◌,
  ◌++◌, Bytes, bytes_eq, bit_and, bit_or,
}
use my_vps_config.Htable.{Htable}

-- `struct ip_lease_st`: `in_db` says that `db` is not NULL, `hooked` that the destructor
-- `unref_ip_lease` is set.
pub record IpLease : Type 0 where
  pub rip : Bytes
  pub lip : Bytes
  pub in_db : Bool
  pub hooked : Bool

abbrev pub rip_key : IpLease → Bytes
rip_key l = l.rip

-- `inet_pton` of either family, SHA-1 of `gnutls_hash_fast`, `icmp_ping4` and `icmp_ping6` with
-- the loops that are left (true if the address answers), `talloc_zero`, and the four bytes that
-- `is_ipv4_ok` reads in place of the mask: see there.
pub record World : Type 0 where
  pub inet_pton4 : Bytes → Option Bytes
  pub inet_pton6 : Bytes → Option Bytes
  pub sha1 : Bytes → Bytes
  pub ping : ℕ → Bytes → Bool
  pub mem : Bool
  pub mask_pointer : Bytes

abbrev pub zip_with : (ℕ → ℕ → ℕ) → Bytes → Bytes → Bytes
zip_with f [] ys = []
zip_with f (x ∷ xs) [] = []
zip_with f (x ∷ xs) (y ∷ ys) = f x y ∷ zip_with f xs ys

-- `~b` of a byte, kept to a byte
abbrev pub complement : ℕ → ℕ
complement b = 255 - b

-- `a[i] &= b[i]`, `a[i] &= ~b[i]`, `a[i] |= b[i]` and `a[i] |= ~b[i]`, for each byte
abbrev pub and_bytes : Bytes → Bytes → Bytes
and_bytes = zip_with bit_and

abbrev pub and_not_bytes : Bytes → Bytes → Bytes
and_not_bytes = zip_with (λ a b. bit_and a (complement b))

abbrev pub or_bytes : Bytes → Bytes → Bytes
or_bytes = zip_with bit_or

abbrev pub or_not_bytes : Bytes → Bytes → Bytes
or_not_bytes = zip_with (λ a b. bit_or a (complement b))

-- `lip[3] |= 1` of an IPv4, `lip[15] |= 1` of an IPv6 address
unfoldable pub set_last_bit : Bytes → Bytes
set_last_bit [] = []
set_last_bit (x ∷ []) = bit_or x 1 ∷ []
set_last_bit (x ∷ y ∷ ys) = x ∷ set_last_bit (y ∷ ys)

module _ (ht : Htable IpLease rip_key) where
  open ht use {Table, get}

  unfoldable pub ip_lease_exists : Bytes → Table → Bool
  ip_lease_exists ip t = elim (get ip t) [ none ↦ false | some l ↦ true ]

  unfoldable pub is_ipv6_ok : Bytes → Bytes → Table → Bool
  unfolding ip_lease_exists
  is_ipv6_ok ip net t = not (ip_lease_exists ip t || bytes_eq ip net)

  -- The code takes the bytes of the mask from `&mask` where `mask` is a pointer already, so it
  -- reads four bytes of the pointer.
  unfoldable pub is_ipv4_ok : World → Bytes → Bytes → Table → Bool
  unfolding ip_lease_exists
  is_ipv4_ok w ip net t =
      let broadcast = or_not_bytes net w.mask_pointer in
      not (ip_lease_exists ip t || (bytes_eq ip net || bytes_eq ip broadcast))

-- "ffff:ffff" of n + 1 mask_groups
abbrev pub mask_groups : ℕ → Bytes
mask_groups zero = b'f' ∷ b'f' ∷ b'f' ∷ b'f' ∷ []
mask_groups (suc n) = b'f' ∷ b'f' ∷ b'f' ∷ b'f' ∷ b':' ∷ mask_groups n

-- `ipv6_prefix_to_mask`: the text of the mask, or NULL.
unfoldable pub ipv6_prefix_to_mask : ℕ → Option Bytes
ipv6_prefix_to_mask prefix =
    if prefix == 16
    then some (mask_groups 0 ++ b':' ∷ b':' ∷ [])
    else (if prefix == 32
        then some (mask_groups 1 ++ b':' ∷ b':' ∷ [])
        else (if prefix == 48
            then some (mask_groups 2 ++ b':' ∷ b':' ∷ [])
            else (if prefix == 64
                then some (mask_groups 3 ++ b':' ∷ b':' ∷ [])
                else (if prefix == 80
                    then some (mask_groups 4 ++ b':' ∷ b':' ∷ [])
                    else (if prefix == 96
                        then some (mask_groups 5 ++ b':' ∷ b':' ∷ [])
                        else (if prefix == 112
                            then some (mask_groups 6 ++ b':' ∷ b':' ∷ [])
                            else (if prefix == 128 then some (mask_groups 7) else none)))))))
