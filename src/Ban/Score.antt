-- ===== src/Ban/Score.antt =====
-- main-ban.c: what a report of points does to the table, and how points add up to a ban.
use my_vps_config.Base.{
  ℕ, ◌+◌, ◌^◌, leb, ap, ◌≤◌, ◌<◌, ◌≡◌, ◌⊎◌, inl, inr, refl, ◌∙◌, Bool, true, false, if◌then◌else◌,
  arith, List, [], ◌∷◌, Option, none, some, Option-cases, Bytes, bytes_eq, bytes_eq→eq,
  bytes_eq_refl, is_empty, strlcpy,
}
use my_vps_config.Base.Int.{ℤ, success, is_neg}
use my_vps_config.Htable.{Htable}
use my_vps_config.Ban.{
  BanEntry, BanConfig, ip_key, max_ip_str, restart, charge, verdict, fresh_entry, record_points,
  add_new_entry, add_ip_to_table, add_ip_to_ban_list,
}

-- The entry that a report leaves, from what the table held for the address.
abbrev pub charged : BanConfig → ℕ → ℕ → Bytes → Option BanEntry → BanEntry
charged c now points key none = charge c now points (fresh_entry now key)
charged c now points key (some e) = charge c now points (restart c now e)

ip-restart : (c : BanConfig) (now : ℕ) (e : BanEntry) → (restart c now e).ip ≡ e.ip
unfolding restart
ip-restart c now e = ground arith

module _ (ht : Htable BanEntry ip_key) (c : BanConfig) where
  open ht use {Table, get}

  -- A report leaves the entry that `charged` describes, touches no other address and answers by
  -- that entry; or no memory is left for a new entry, and it changes nothing and answers 0.
  abbrev pub Reported : ℕ → Bool → ℕ → Bytes → Table → Table × ℤ → Type 0
  Reported now mem points key t r =
      (((k : Bytes)
          → get k r.0
            ≡ (if bytes_eq key k then some (charged c now points key (get key t)) else get k t))
        × (r.1 ≡ verdict c (charged c now points key (get key t))))
      ⊎ ((get key t ≡ none)
          × (r.0 ≡ t)
          × (r.1 ≡ success)
          × ((mem ≡ false) ⊎ (ht.add (fresh_entry now key) t ≡ none)))

  get-known : (key : Bytes) (t : Table) (e : BanEntry) → get key t ≡ some e → e.ip ≡ key
  get-known key t e h = bytes_eq→eq e.ip key (ht.key-get key t e h)

  get-record_points :
      (now points : ℕ) (e old : BanEntry) (t : Table) (k : Bytes)
      → get e.ip t ≡ some old
      → get k (record_points ht c now points e t).0
        ≡ (if bytes_eq e.ip k then some (charge c now points e) else get k t)
  unfolding record_points charge
  get-record_points now points e old t k h = ht.get-write (charge c now points e) old t k h

  known-Reported :
      (now points : ℕ) (mem : Bool) (key : Bytes) (t : Table) (e : BanEntry)
      → get key t ≡ some e
      → Reported now mem points key t (record_points ht c now points (restart c now e) t)
  unfolding record_points restart
  known-Reported now points mem key t e h =
      let same : (restart c now e).ip ≡ key = ip-restart c now e ∙ get-known key t e h in
      rw h (
        inl (
          λ k. rw same at (get-record_points now points (restart c now e) e t k (rw same h)),
          refl,
        ))

  new-Reported :
      (now points : ℕ) (mem : Bool) (key : Bytes) (t : Table)
      → get key t ≡ none
      → Reported now mem points key t (add_new_entry ht c now mem key points t)
  unfolding add_new_entry record_points fresh_entry
  new-Reported now points false key t h = inr (h, refl, refl, inl refl)
  new-Reported now points true key t h = elim (Option-cases (ht.add (fresh_entry now key) t)) [
    | inl full ↦ rw (full, add_new_entry) (inr (h, refl, refl, inr refl))
    | inr (t', added) ↦ rw (added, add_new_entry, h) (inl (λ k. stored t' added k, refl))
  ]
    where
      stored :
          (t' : Table)
          → ht.add (fresh_entry now key) t ≡ some t'
          → (k : Bytes)
          → get k (record_points ht c now points (fresh_entry now key) t').0
            ≡ (if bytes_eq key k then some (charge c now points (fresh_entry now key)) else get k t)
      stored t' added k = ground (
        arith,
        get-record_points now points (fresh_entry now key) (fresh_entry now key) t' k,
        ht.get-add (fresh_entry now key) t t' k h added,
        ht.get-add (fresh_entry now key) t t' key h added,
        bytes_eq_refl key,
      )

  pub add_ip_to_table-Reported :
      (now points : ℕ) (mem : Bool) (ip : Bytes) (t : Table)
      → Reported now mem points (strlcpy max_ip_str ip) t (add_ip_to_table ht c now mem ip points t)
  unfolding add_ip_to_table
  add_ip_to_table-Reported now points mem ip t =
      elim (Option-cases (get (strlcpy max_ip_str ip) t)) [
        | inl e ↦
            rw (e, add_ip_to_table)
              (rw e at (new-Reported now points mem (strlcpy max_ip_str ip) t e))
        | inr (old, e) ↦
            rw (e, add_ip_to_table)
              (rw e at (known-Reported now points mem (strlcpy max_ip_str ip) t old e))
      ]

-- The points of a run of reports, each with its time.
abbrev pub total : List (ℕ × ℕ) → ℕ
total [] = 0
total ((now, points) ∷ rs) = points + total rs

-- All of them come within a counting period.
abbrev pub Within : ℕ → List (ℕ × ℕ) → Type 0
Within end [] = Unit {0}
Within end ((now, points) ∷ rs) = (now ≤ end) × Within end rs

-- What a run of reports leaves of an entry: the points are added, and a ban that has begun keeps
-- its end.
pub record Accrued (c : BanConfig) (e : BanEntry) (points : ℕ) (e' : BanEntry) : Type 0 where
  pub score : e'.score ≡ e.score + points
  pub last_reset : e'.last_reset ≡ e.last_reset
  pub expires : c.max_ban_score ≤ e.score → e'.expires ≡ e.expires

pub charged-Accrued :
    (c : BanConfig) (now points : ℕ) (key : Bytes) (e : BanEntry)
    → now ≤ e.last_reset + c.ban_reset_time
    → e.score + points < 2 ^ 32
    → Accrued c e points (charged c now points key (some e))
unfolding charge restart
charged-Accrued c now points key e w small = ground arith

Accrued-trans :
    (c : BanConfig) (p q : ℕ) (e f g : BanEntry)
    → Accrued c e p f
    → Accrued c f q g
    → Accrued c e (p + q) g
Accrued-trans c p q e f g a b = ground (arith, a.expires, b.expires)

is_neg-verdict :
    (c : BanConfig) (e : BanEntry) (n : ℕ)
    → 0 < c.max_ban_score
    → e.score ≡ n
    → is_neg (verdict c e) ≡ leb c.max_ban_score n
unfolding verdict
is_neg-verdict c e n on h = ground arith

module _ (ht : Htable BanEntry ip_key) (c : BanConfig) (ip : Bytes) where
  open ht use {Table, get}

  abbrev pub key : Bytes
  key = strlcpy max_ip_str ip

  -- A run of reports about one address, by `add_ip_to_ban_list`.
  unfoldable pub reports : List (ℕ × ℕ) → Option Table → Option Table
  reports [] db = db
  reports ((now, points) ∷ rs) db =
      reports rs (add_ip_to_ban_list ht c now true db (some ip) points).0

  module _ (on : 0 < c.max_ban_score) (named : is_empty ip ≡ false) where
    -- One report about an address with an entry.
    pub report_known :
        (now points : ℕ) (t : Table) (e : BanEntry)
        → get key t ≡ some e
        → (t' : Table) × (add_ip_to_ban_list ht c now true (some t) (some ip) points
            ≡ (some t', verdict c (charged c now points key (some e))))
          × (get key t' ≡ some (charged c now points key (some e)))
    unfolding add_ip_to_ban_list
    report_known now points t e h = elim (add_ip_to_table-Reported ht c now points true ip t) [
      | inl (found, answer) ↦ (
        (add_ip_to_table ht c now true ip points t).0,
        ground arith,
        ground (arith, found key, bytes_eq_refl key),
      )
      | inr (absent, same, zero, reason) ↦ cc
    ]

    pub reports-Accrued :
        (rs : List (ℕ × ℕ)) (t : Table) (e : BanEntry)
        → get key t ≡ some e
        → Within (e.last_reset + c.ban_reset_time) rs
        → e.score + total rs < 2 ^ 32
        → (t' : Table) × (e' : BanEntry) × (reports rs (some t) ≡ some t')
          × (get key t' ≡ some e')
          × Accrued c e (total rs) e'
    unfolding reports
    reports-Accrued [] t e h w small = (t, e, refl, h, ground arith)
    reports-Accrued ((now, points) ∷ rs) t e h w small =
        let (t₁, ran, found) = report_known now points t e h in
        let step = charged-Accrued c now points key e w.0 (omega arith) in
        let (t₂, e₂, ran₂, found₂, rest) =
          reports-Accrued rs t₁ (charged c now points key (some e)) found (rw step.last_reset w.1)
            (omega (arith, step.score)) in
        (t₂, e₂, rw ran ran₂, found₂, Accrued-trans c points (total rs) e _ e₂ step rest)

    -- Reports of points about an address with an entry, within its counting period and with sums
    -- below 2 ^ 32: the next report answers -1 exactly when all the points together reach the
    -- maximum.
    pub ban_threshold :
        (rs : List (ℕ × ℕ)) (now points : ℕ) (t : Table) (e : BanEntry)
        → get key t ≡ some e
        → Within (e.last_reset + c.ban_reset_time) rs
        → now ≤ e.last_reset + c.ban_reset_time
        → e.score + total rs + points < 2 ^ 32
        → is_neg (add_ip_to_ban_list ht c now true (reports rs (some t)) (some ip) points).1
          ≡ leb c.max_ban_score (e.score + total rs + points)
    ban_threshold rs now points t e h w wn small =
        let (t₁, e₁, ran, found, a) = reports-Accrued rs t e h w (omega arith) in
        let (t₂, ran₂, _) = report_known now points t₁ e₁ found in
        let b =
          charged-Accrued c now points key e₁ (omega (arith, a.last_reset))
            (omega (arith, a.score)) in
        rw (ran, ran₂) (is_neg-verdict c _ _ on (b.score ∙ ap (λ s. s + points) a.score))
