-- ===== src/Main/Users.antt =====
-- main-auth.c: the limit of a user's connections.
use my_vps_config.Base.{
  ℕ, suc, ◌+◌, ◌^◌, ◌<◌, ◌≤◌, ◌≡◌, ◌↔◌, ◌⊎◌, inl, inr, refl, ◌==◌, Bool, true, false, not, ◌&&◌,
  if◌then◌else◌, some, List, [], ◌∷◌, Bytes, bytes_eq, bytes_eq→eq, bytes_eq_refl, strlcpy, length,
  arith, Bool-cases,
}
use my_vps_config.Base.Int.{ℤ, success, failure}
use my_vps_config.Htable.Multi.{Multi}
use my_vps_config.SecMod.Types.{Cookie}
use my_vps_config.IpLease.Registry.{steal_ip_leases}
use my_vps_config.Main.Proc.{Proc, deref, write_back}
use my_vps_config.Main.Table.{ProcRef, addr_key, dtls_id_key, sid_key_of, address_of, ProcTable}
use my_vps_config.Main.Auth.{
  max_username_size, seed_bytes, enter_proc, take_over, count_same, check_multiple_users,
}

-- A process that was not removed, of this user.
abbrev pub is_live : Proc → Bool
is_live p = not (elim p.pid [ ℤ.pos n ↦ false | ℤ.negsuc n ↦ n == 0 ])

-- The number of a user's live processes.
abbrev pub connections : Bytes → List Proc → ℕ
connections u [] = 0
connections u (p ∷ ps) =
    if is_live p && bytes_eq u p.username then suc (connections u ps) else connections u ps

count_same-connections :
    (u : Bytes) (ps : List Proc) (n : ℕ)
    → n + length ps < 2 ^ 32
    → count_same u ps n ≡ n + connections u ps
unfolding count_same
count_same-connections u [] n h = omega arith
count_same-connections u (p ∷ ps) n h =
    ground (arith, count_same-connections u ps n, count_same-connections u ps (n + 1))

-- check_multiple_users succeeds exactly if there is no limit, or this connection and the user's
-- other connections that were not removed are at most the limit, for a list of fewer than 2 ^ 32 -
-- 1 others.
pub check_multiple_users-connections :
    (max_same_clients : ℕ) (p : Proc) (others : List Proc)
    → 1 + length others < 2 ^ 32
    → (check_multiple_users max_same_clients p others ≡ success)
      ↔ ((max_same_clients ≡ 0) ⊎ (1 + connections p.username others ≤ max_same_clients))
unfolding check_multiple_users
check_multiple_users-connections max_same_clients p others h = (
  λ e. ground (arith, count_same-connections p.username others 1 h),
  λ e. ground (arith, count_same-connections p.username others 1 h),
)

length-write_back : (q : Proc) (ps : List Proc) → length (write_back q ps) ≡ length ps
unfolding write_back
length-write_back q [] = refl
length-write_back q (p ∷ ps) = ground (arith, length-write_back q ps)

connections-write_back :
    (q old : Proc) (ps : List Proc)
    → deref q.address ps ≡ some old
    → is_live q ≡ true
    → 1 ≤ connections q.username (write_back q ps)
unfolding deref write_back
connections-write_back q old [] h l = absurd (ground arith)
connections-write_back q old (p ∷ ps) h l =
    ground (arith, connections-write_back q old ps, bytes_eq_refl q.username)

-- One more connection than a limit of 1.
check_multiple_users-failure :
    (p : Proc) (others : List Proc)
    → 1 + length others < 2 ^ 32
    → 1 ≤ connections p.username others
    → check_multiple_users 1 p others ≡ failure
unfolding check_multiple_users
check_multiple_users-failure p others h l =
    ground (arith, count_same-connections p.username others 1 h)

module _ (ips : Multi ProcRef addr_key address_of) (ids : Multi ProcRef dtls_id_key address_of)
    (sids : Multi ProcRef sid_key_of address_of) where
  -- With a limit of one connection per user, a process that takes a session over from an old
  -- process that is in the list and was not removed is refused by check_multiple_users, since the
  -- old process still counts, for a list of fewer than 2 ^ 32 - 1 others.
  pub take_over-refused :
      (c : Cookie) (old p : Proc) (others : List Proc) (t : ProcTable ips ids sids)
      → deref old.address others ≡ some old
      → is_live old ≡ true
      → 1 + length others < 2 ^ 32
      → (take_over ips ids sids c old p others t).ret ≡ success
      → check_multiple_users 1
          (take_over ips ids sids c old p others t).proc
          (take_over ips ids sids c old p others t).others
        ≡ failure
  unfolding take_over enter_proc
  take_over-refused c old p others t d l h ok =
      let robbed : Proc = record old { client = (steal_ip_leases old.client p.client).0 } in
      let thief : Proc = record p {
        client = record ((steal_ip_leases old.client p.client).1) {
          ipv4_seed = seed_bytes c.ipv4_seed;
        };
        hostname = strlcpy max_username_size c.hostname;
      } in
      let size : 1 + length (write_back robbed others) < 2 ^ 32 =
        omega (arith, length-write_back robbed others) in
      elim (Bool-cases (bytes_eq p.username old.username)) [
        | inr other ↦ absurd (ground arith)
        | inl same ↦ rw same (
            check_multiple_users-failure thief (write_back robbed others) size (
              rw (bytes_eq→eq p.username old.username same)
                (connections-write_back robbed old others d l)))
      ]
