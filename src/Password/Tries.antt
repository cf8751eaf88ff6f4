-- ===== src/Password/Tries.antt =====
-- auth/plain.c: one password after the other.
use my_vps_config.Base.{
  ℕ, ◌+◌, ◌^◌, ◌≤◌, ◌<◌, ◌≡◌, ◌≢◌, ◌↔◌, ap, ◌∙◌, if◌then◌else◌, Option, some, List, [], ◌∷◌, Bytes,
  bytes_eq_iff, bytes_eq_refl, Option-cases, min, length, arith, inl, inr,
}
use my_vps_config.Base.Int.{ℤ, success, is_auth_continue}
use my_vps_config.Text.{Outcome-cases, done, fault}
use my_vps_config.Password.Plain.{PlainCtx, plain_auth_pass, wrong_password}

-- No hash starts with an exclamation mark.
abbrev pub HasNoMark : (Bytes → Bytes → Option Bytes) → Type 0
HasNoMark crypt = (p s h : Bytes) → crypt p s ≡ some (b'!' ∷ h) → ⊥

module _ (crypt : Bytes → Bytes → Option Bytes) where
  -- A password that is taken has the stored hash.
  pub plain_auth_pass-accepts :
      (ctx ctx' : PlainCtx) (p : Bytes)
      → plain_auth_pass crypt ctx p ≡ done (success, ctx')
      → crypt p ctx.cpass ≡ some ctx.cpass
  unfolding plain_auth_pass
  plain_auth_pass-accepts ctx ctx' p h = elim (Option-cases (crypt p ctx.cpass)) [
    | inl refused ↦ absurd (ground arith)
    | inr (hash, given) ↦ ground (arith, bytes_eq_iff hash ctx.cpass)
  ]

  -- A password is taken just where its hash is the stored one.
  pub plain_auth_pass-success :
      (ctx : PlainCtx) (p : Bytes)
      → ctx.cpass ≢ []
      → (plain_auth_pass crypt ctx p ≡ done (success, ctx)) ↔ (crypt p ctx.cpass ≡ some ctx.cpass)
  unfolding plain_auth_pass
  plain_auth_pass-success ctx p given =
      (plain_auth_pass-accepts ctx ctx p, λ h. ground (arith, bytes_eq_refl ctx.cpass))

  -- The results of one password after the other, up to a fault.
  unfoldable pub try_all : List Bytes → PlainCtx → List ℤ
  unfolding plain_auth_pass
  try_all [] ctx = []
  try_all (p ∷ ps) ctx = elim (plain_auth_pass crypt ctx p) [
    | fault ↦ []
    | done (ret, ctx') ↦ ret ∷ try_all ps ctx'
  ]

  abbrev pub NoneAccepted : List ℤ → Type 0
  NoneAccepted [] = Unit {0}
  NoneAccepted (r ∷ rs) = (r ≢ success) × NoneAccepted rs

  -- Passwords do not change the stored hash.
  cpass-plain_auth_pass :
      (ctx ctx' : PlainCtx) (p : Bytes) (ret : ℤ)
      → plain_auth_pass crypt ctx p ≡ done (ret, ctx')
      → ctx'.cpass ≡ ctx.cpass
  unfolding plain_auth_pass wrong_password
  cpass-plain_auth_pass ctx ctx' p ret h = ground arith

  -- A hash behind a mark is no password's.
  pub try_all-NoneAccepted :
      (h : Bytes) (ps : List Bytes) (ctx : PlainCtx)
      → HasNoMark crypt
      → ctx.cpass ≡ b'!' ∷ h
      → NoneAccepted (try_all ps ctx)
  unfolding try_all
  try_all-NoneAccepted h [] ctx unmarked e = tt
  try_all-NoneAccepted h (p ∷ ps) ctx unmarked e =
      elim (Outcome-cases (plain_auth_pass crypt ctx p)) [
        | inl stopped ↦ rw (stopped, try_all) tt
        | inr ((ret, ctx'), given) ↦
            rw (given, try_all)
              (
                λ z.
                    unmarked p ctx.cpass h
                      (plain_auth_pass-accepts ctx ctx' p (rw z at given) ∙ ap some e),
                try_all-NoneAccepted h ps ctx' unmarked
                    (cpass-plain_auth_pass ctx ctx' p ret given ∙ e),
              )
      ]

  abbrev pub continues : List ℤ → ℕ
  continues [] = 0
  continues (r ∷ rs) = (if is_auth_continue r then 1 else 0) + continues rs

  retries-plain_auth_pass :
      (ctx ctx' : PlainCtx) (p : Bytes) (ret : ℤ)
      → ctx.retries + 1 < 2 ^ 32
      → plain_auth_pass crypt ctx p ≡ done (ret, ctx')
      → (ctx.retries ≤ ctx'.retries)
        × (ctx'.retries ≤ ctx.retries + 1)
        × ((if is_auth_continue ret then 1 else 0) + min ctx.retries 2 ≤ min ctx'.retries 2)
  unfolding plain_auth_pass wrong_password
  retries-plain_auth_pass ctx ctx' p ret small h = ground arith

  -- Of fewer than 2 ^ 32 passwords, right or wrong, at most two are answered by a request for another.
  pub try_all-continues :
      (ps : List Bytes) (ctx : PlainCtx)
      → ctx.retries + length ps < 2 ^ 32
      → continues (try_all ps ctx) + min ctx.retries 2 ≤ 2
  unfolding try_all
  try_all-continues [] ctx small = omega arith
  try_all-continues (p ∷ ps) ctx small = elim (Outcome-cases (plain_auth_pass crypt ctx p)) [
    | inl stopped ↦ rw (stopped, try_all) (omega arith)
    | inr ((ret, ctx'), given) ↦
        let step = retries-plain_auth_pass ctx ctx' p ret (omega arith) given in
        let later = try_all-continues ps ctx' (omega arith) in rw (given, try_all) (omega arith)
  ]
