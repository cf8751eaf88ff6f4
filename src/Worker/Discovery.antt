-- ===== src/Worker/Discovery.antt =====
-- worker-vpn.c: the discovery finds the MTU of the path.
use my_vps_config.Base.{
  ℕ, zero, suc, ◌+◌, ◌-◌, ◌*◌, ◌^◌, ◌≤◌, ◌<◌, ◌≡◌, ◌⊎◌, inl, inr, true, false, ◌==◌, if◌then◌else◌,
  arith,
}
use mathlib.Core.Path.{subst, sym}
use my_vps_config.Worker.Mtu.{
  MtuState, min_mtu, mtu_not_ok, mtu_ok, probe, probe_all, mtu_discovery_init,
}

-- A good and a bad size enclose the path's, and the current size.
pub record Encloses (path : ℕ) (w : MtuState) : Type 0 where
  pub enabled : w.disabled ≡ false
  pub good : w.last_good_mtu ≤ path
  pub bad : path < w.last_bad_mtu
  pub low : w.last_good_mtu ≤ w.conn_mtu
  pub high : w.conn_mtu < w.last_bad_mtu
  pub small : w.last_bad_mtu < 2 ^ 31

-- The probes that may still be needed.
abbrev pub distance : MtuState → ℕ
distance w =
    2 * (w.last_bad_mtu - w.last_good_mtu) + (if w.conn_mtu == w.last_good_mtu then 1 else 0)

-- The discovery is done: the size is the path's, and the next one is known as bad.
abbrev pub IsFound : ℕ → MtuState → Type 0
IsFound path w = (w.conn_mtu ≡ path) × (w.last_bad_mtu ≡ path + 1)

-- A probe disables DTLS, or finds nothing new, or comes closer.
probe-Encloses :
    (path : ℕ) (w : MtuState)
    → Encloses path w
    → ((probe path w).disabled ≡ true)
      ⊎ (Encloses path (probe path w)
          × ((IsFound path w × (probe path w ≡ w)) ⊎ (distance (probe path w) < distance w)))
unfolding probe mtu_ok mtu_not_ok
probe-Encloses path w e = ground arith

-- It does not disable DTLS if the good size is above the least, and it stays there.
probe-above :
    (path : ℕ) (w : MtuState)
    → Encloses path w
    → min_mtu w < w.last_good_mtu
    → ((probe path w).disabled ≡ false) × (min_mtu (probe path w) < (probe path w).last_good_mtu)
unfolding probe mtu_ok mtu_not_ok
probe-above path w e h = ground arith

probe_all-disabled :
    (n path : ℕ) (w : MtuState) → w.disabled ≡ true → (probe_all n path w).disabled ≡ true
unfolding probe_all probe
probe_all-disabled zero path w h = h
probe_all-disabled (suc n) path w h = probe_all-disabled n path (probe path w) (ground arith)

probe_all-IsFound_same :
    (n path : ℕ) (w : MtuState)
    → IsFound path w
    → probe path w ≡ w
    → IsFound path (probe_all n path w)
unfolding probe_all
probe_all-IsFound_same zero path w found same = found
probe_all-IsFound_same (suc n) path w found same =
    subst (λ x. IsFound path (probe_all n path x)) (sym same)
      (probe_all-IsFound_same n path w found same)

probe_all-decided :
    (n path : ℕ) (w : MtuState)
    → Encloses path w
    → distance w ≤ n
    → ((probe_all n path w).disabled ≡ true) ⊎ IsFound path (probe_all n path w)
unfolding probe_all
probe_all-decided zero path w e h = absurd (ground (arith, e.good, e.bad))
probe_all-decided (suc n) path w e h = elim (probe-Encloses path w e) [
  | inl off ↦ inl (probe_all-disabled n path (probe path w) off)
  | inr (e', inl (found, same)) ↦ inr (
      subst (λ x. IsFound path (probe_all n path x)) (sym same)
        (probe_all-IsFound_same n path w found same))
  | inr (e', inr less) ↦ probe_all-decided n path (probe path w) e' (omega arith)
]

-- With try_mtu configured, on a path that passes packets up to a size, between a good MTU that is
-- above the least one and a bad MTU below 2 ^ 31, enough packets of the full MTU find that size: it
-- is then the MTU, and one more is known as bad. Enough is twice the difference of the two, and
-- one.
pub probe_all-IsFound :
    (n path : ℕ) (w : MtuState)
    → Encloses path w
    → min_mtu w < w.last_good_mtu
    → distance w ≤ n
    → IsFound path (probe_all n path w)
unfolding probe_all
probe_all-IsFound zero path w e above h = absurd (ground (arith, e.good, e.bad))
probe_all-IsFound (suc n) path w e above h =
    let (on, above') = probe-above path w e above in
    elim (probe-Encloses path w e) [
      | inl off ↦ absurd (ground arith)
      | inr (e', inl (found, same)) ↦
          subst (λ x. IsFound path (probe_all n path x)) (sym same)
            (probe_all-IsFound_same n path w found same)
      | inr (e', inr less) ↦ probe_all-IsFound n path (probe path w) e' above' (omega arith)
    ]

-- All sizes failed so far; the current one is tried next.
pub record Descends (path : ℕ) (w : MtuState) : Type 0 where
  pub enabled : w.disabled ≡ false
  pub same : w.last_good_mtu ≡ w.conn_mtu
  pub over : path < w.conn_mtu
  pub least : min_mtu w ≤ w.conn_mtu
  pub small : w.conn_mtu < 2 ^ 31

probe-Descends :
    (path : ℕ) (w : MtuState)
    → Descends path w
    → ((probe path w).disabled ≡ true)
      ⊎ (Descends path (probe path w) × ((probe path w).conn_mtu < w.conn_mtu))
      ⊎ (Encloses path (probe path w) × (distance (probe path w) < 3 * w.conn_mtu + 2))
unfolding probe mtu_ok mtu_not_ok
probe-Descends path w e = ground arith

probe_all-Descends :
    (n path : ℕ) (w : MtuState)
    → Descends path w
    → 3 * w.conn_mtu + 2 ≤ n
    → ((probe_all n path w).disabled ≡ true) ⊎ IsFound path (probe_all n path w)
unfolding probe_all
probe_all-Descends zero path w e h = absurd (omega arith)
probe_all-Descends (suc n) path w e h = elim (probe-Descends path w e) [
  | inl off ↦ inl (probe_all-disabled n path (probe path w) off)
  | inr (inl (d, less)) ↦ probe_all-Descends n path (probe path w) d (omega arith)
  | inr (inr (c, near)) ↦ probe_all-decided n path (probe path w) c (omega arith)
]

pub probe_all-mtu_discovery_init :
    (n path : ℕ) (w : MtuState)
    → w.disabled ≡ false
    → path < w.conn_mtu
    → min_mtu w ≤ w.conn_mtu
    → w.conn_mtu < 2 ^ 31
    → 3 * w.conn_mtu + 2 ≤ n
    → let w' = probe_all n path (mtu_discovery_init w.conn_mtu w) in
      (w'.disabled ≡ true) ⊎ IsFound path w'
unfolding mtu_discovery_init
probe_all-mtu_discovery_init n path w enabled over least small enough =
    probe_all-Descends n path (mtu_discovery_init w.conn_mtu w) (ground arith) enough
