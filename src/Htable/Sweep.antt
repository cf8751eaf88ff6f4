-- ===== src/Htable/Sweep.antt =====
-- A loop of `htable_first` and `htable_next` that deletes what passes a test.
use my_vps_config.Base.{
  ◌≡◌, refl, Bool, false, ◌&&◌, ◌||◌, Option, none, some, List, [], ◌∷◌, Bytes, bytes_eq,
  bytes_eq→eq, if◌then◌else◌, arith, inl, inr, Bool-cases,
}
use my_vps_config.Htable.{Htable, find_key, IsKeyed}

module _ {E : Type 0} (key : E → Bytes) (stale : E → Bool) where
  -- Whether the loop meets an entry with this key that passes the test.
  abbrev pub meets : Bytes → List E → Bool
  meets k [] = false
  meets k (e ∷ es) = (bytes_eq (key e) k && stale e) || meets k es

  meets_absent : (k : Bytes) (es : List E) → find_key key k es ≡ none → meets k es ≡ false
  meets_absent k [] h = refl
  meets_absent k (e ∷ es) h = ground (arith, meets_absent k es)

  abbrev pub passes : Option E → Bool
  passes none = false
  passes (some e) = stale e

  pub meets-find_key :
      (k : Bytes) (es : List E) → IsKeyed key es → meets k es ≡ passes (find_key key k es)
  meets-find_key k [] u = refl
  meets-find_key k (e ∷ es) u = elim (Bool-cases (bytes_eq (key e) k)) [
    | inl hit ↦ ground (arith, bytes_eq→eq (key e) k, meets_absent k es)
    | inr miss ↦ ground (arith, meets-find_key k es u.1)
  ]

module _ {E : Type 0} {key : E → Bytes} (ht : Htable E key) (stale : E → Bool) where
  open ht use {Table, get, del, items}

  -- The loop, over what is left to visit.
  unfoldable pub sweep : List E → Table → Table
  sweep [] t = t
  sweep (e ∷ es) t = sweep es (if stale e then del (key e) t else t)

  sweep-meets :
      (k : Bytes) (es : List E) (t : Table)
      → get k (sweep es t) ≡ (if meets key stale k es then none else get k t)
  unfolding sweep
  sweep-meets k [] t = refl
  sweep-meets k (e ∷ es) t =
      ground (arith, sweep-meets k es (del (key e) t), sweep-meets k es t, ht.get-del (key e) k t)

  -- What the loop leaves: just the entries that fail the test.
  pub get-sweep :
      (k : Bytes) (t : Table)
      → get k (sweep (items t) t) ≡ (if passes key stale (get k t) then none else get k t)
  get-sweep k t = ground (
    arith,
    sweep-meets k (items t) t,
    meets-find_key key stale k (items t) (ht.items-IsKeyed t),
    ht.get-items k t,
  )
