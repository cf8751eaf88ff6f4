-- ===== src/Http/Best.antt =====
-- worker-http.c: the DTLS ciphersuite that the loops choose.
use my_vps_config.Base.{
  ℕ, ◌<◌, ◌≡◌, refl, sym, ap, Option-cases, ◌∙◌, Bool, false, ◌||◌, if◌then◌else◌, Option, none,
  some, List, [], ◌∷◌, Bytes, bytes_eq, arith, Bool-cases, inl, inr,
}
use mathlib.Core.Path.{fun_ext}
use my_vps_config.Http.Types.{Suite}
use my_vps_config.Http.Select.{ciphersuites, improves, try_suites, select_suite}

abbrev pub contains : List Bytes → Bytes → Bool
contains [] name = false
contains (t ∷ ts) name = bytes_eq t name || contains ts name

-- The first suite of a list that passes a test.
abbrev pub pick : (Suite → Bool) → List Suite → Option Suite
pick p [] = none
pick p (s ∷ ss) = if p s then some s else pick p ss

abbrev AllBelow : ℕ → List Suite → Type 0
AllBelow n [] = Unit {0}
AllBelow n (s ∷ ss) = (s.server_prio < n) × AllBelow n ss

-- The suites stand in the order of their priorities.
abbrev IsSorted : List Suite → Type 0
IsSorted [] = Unit {0}
IsSorted (s ∷ ss) = AllBelow s.server_prio ss × IsSorted ss

-- A candidate that gives way to one of higher priority.
abbrev upgrade : Option Suite → Option Suite → Option Suite
upgrade cand none = cand
upgrade cand (some s) = if improves cand s.server_prio then some s else cand

-- None of these suites improves on a candidate of at least this priority.
try_suites_below :
    (same : Suite → Bool) (t : Bytes) (n : ℕ) (ss : List Suite) (cand : Option Suite)
    → AllBelow n ss
    → ((m : ℕ) → m < n → improves cand m ≡ false)
    → try_suites same t ss cand ≡ cand
unfolding try_suites
try_suites_below same t n [] cand b h = refl
try_suites_below same t n (s ∷ ss) cand b h =
    rw (h s.server_prio b.0) (ground (arith, try_suites_below same t n ss cand b.1 h))

improves_below :
    (cand : Option Suite) (n m : ℕ) → improves cand n ≡ false → m < n → improves cand m ≡ false
unfolding improves
improves_below none n m h l = cc
improves_below (some c) n m h l = ground arith

improves_self : (s : Suite) (m : ℕ) → m < s.server_prio → improves (some s) m ≡ false
unfolding improves
improves_self s m l = ground arith

improves_self_not : (s : Suite) → improves (some s) s.server_prio ≡ false
unfolding improves
improves_self_not s = ground arith

abbrev named : Bytes → Suite → Bool
named t s = bytes_eq t s.oc_name

-- One token: the suite that it names takes the place of a candidate of lower priority, and whether
-- the loop is left early makes no difference.
try_suites-upgrade :
    (same : Suite → Bool) (t : Bytes) (ss : List Suite) (cand : Option Suite)
    → IsSorted ss
    → try_suites same t ss cand ≡ upgrade cand (pick (named t) ss)
unfolding try_suites
try_suites-upgrade same t [] cand o = refl
try_suites-upgrade same t (s ∷ ss) cand o = elim (Bool-cases (named t s)) [
  | inl hit ↦ elim (Bool-cases (improves cand s.server_prio)) [
    | inl better ↦
        ground (arith, try_suites_below same t s.server_prio ss (some s) o.0 (improves_self s))
    | inr worse ↦ ground (
      arith,
      try_suites_below same t s.server_prio ss cand o.0
          (λ m. improves_below cand s.server_prio m worse),
    )
  ]
  | inr miss ↦ ground (arith, try_suites-upgrade same t ss cand o.1)
]

pick-below :
    (p : Suite → Bool) (n : ℕ) (ss : List Suite) (s : Suite)
    → AllBelow n ss
    → pick p ss ≡ some s
    → s.server_prio < n
pick-below p n [] s b h = cc
pick-below p n (x ∷ ss) s b h = ground (arith, pick-below p n ss s b.1)

upgrade-pick :
    (t : Bytes) (p : Suite → Bool) (ss : List Suite)
    → IsSorted ss
    → upgrade (pick p ss) (pick (named t) ss) ≡ pick (λ s. named t s || p s) ss
upgrade-pick t p [] o = refl
upgrade-pick t p (s ∷ ss) o = elim (Bool-cases (named t s)) [
  | inl hit ↦ elim (Bool-cases (p s)) [
    | inl held ↦ ground (arith, improves_self_not s)
    | inr free ↦ elim (Option-cases (pick p ss)) [
      | inl nothing ↦ rw (hit, free, nothing) (unfold improves in refl)
      | inr (r, found) ↦
          rw (hit, free, found)
            (unfold improves in ground (arith, pick-below p s.server_prio ss r o.0 found))
    ]
  ]
  | inr miss ↦ elim (Bool-cases (p s)) [
    | inl held ↦ elim (Option-cases (pick (named t) ss)) [
      | inl nothing ↦ ground arith
      | inr (r, found) ↦
          ground (
            arith,
            improves_self s r.server_prio (pick-below (named t) s.server_prio ss r o.0 found),
          )
    ]
    | inr free ↦ ground (arith, upgrade-pick t p ss o.1)
  ]
]

or_rotate : (a b c : Bool) → (a || (b || c)) ≡ ((b || a) || c)
or_rotate a b c = ground arith

select_suite-pick :
    (same : Suite → Bool) (ss : List Suite) (ts : List Bytes) (p : Suite → Bool)
    → IsSorted ss
    → select_suite same ss ts (pick p ss) ≡ pick (λ s. contains ts s.oc_name || p s) ss
unfolding select_suite
select_suite-pick same ss [] p o = refl
select_suite-pick same ss (t ∷ ts) p o =
    rw (try_suites-upgrade same t ss (pick p ss) o, upgrade-pick t p ss o)
      (select_suite-pick same ss ts (λ s. named t s || p s) o
        ∙ ap (λ q. pick q ss) (fun_ext (λ s. or_rotate (contains ts s.oc_name) (named t s) (p s))))

pick_nothing : (ss : List Suite) → pick (λ s. false) ss ≡ none
pick_nothing [] = refl
pick_nothing (s ∷ ss) = pick_nothing ss

or_false : (a : Bool) → (a || false) ≡ a
or_false a = ground arith

ciphersuites-IsSorted : IsSorted ciphersuites
unfolding ciphersuites
ciphersuites-IsSorted = omega arith

-- The client gets the first suite of the server's table that it names, in whatever order it names
-- suites and whichever the TLS session uses; if it names none of them, there is no suite.
pub select_suite-first :
    (same : Suite → Bool) (ts : List Bytes)
    → select_suite same ciphersuites ts none ≡ pick (λ s. contains ts s.oc_name) ciphersuites
select_suite-first same ts =
    ap (select_suite same ciphersuites ts) (sym (pick_nothing ciphersuites))
    ∙ select_suite-pick same ciphersuites ts (λ s. false) ciphersuites-IsSorted
    ∙ ap (λ q. pick q ciphersuites) (fun_ext (λ s. or_false (contains ts s.oc_name)))
