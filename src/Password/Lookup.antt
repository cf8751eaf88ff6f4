-- ===== src/Password/Lookup.antt =====
-- The entries that a command on the table leaves.
use my_vps_config.Base.{
  ◌≡◌, refl, ◌∙◌, Bool, true, false, if◌then◌else◌, Option, none, some, List, [], ◌∷◌, ◌++◌, Bytes,
  bytes_eq, bytes_eq_iff, bytes_eq_refl, bytes_eq_comm, arith, Bool-cases, inl, inr,
}
use my_vps_config.Password.Entries.{Entry, IsEntry, AllEntries, find}
use my_vps_config.Password.Write.{update, has_entry, table_set, table_delete}

-- A new password is found.
pub find-update_set : (new : Entry) (es : List Entry) → find new.name (table_set new es) ≡ some new
find-update_set new [] = ground (arith, bytes_eq_refl new.name)
find-update_set new (e ∷ es) = elim (Bool-cases (bytes_eq e.name new.name)) [
  | inl hit ↦ rw hit (rw (bytes_eq_refl new.name))
  | inr miss ↦ rw miss (ground (arith, find-update_set new es, bytes_eq_comm new.name e.name))
]

AllEntries-append : (es fs : List Entry) → AllEntries es → AllEntries fs → AllEntries (es ++ fs)
AllEntries-append [] fs v w = w
AllEntries-append (e ∷ es) fs v w = (v.0, AllEntries-append es fs v.1 w)

AllEntries-if :
    (b : Bool) (es fs : List Entry)
    → AllEntries es
    → AllEntries fs
    → AllEntries (if b then es else fs)
AllEntries-if true es fs v w = v
AllEntries-if false es fs v w = w

AllEntries-update :
    (user : Bytes) (own : Entry → List Entry) (es : List Entry)
    → ((e : Entry) → IsEntry e → AllEntries (own e))
    → AllEntries es
    → AllEntries (update user own es)
AllEntries-update user own [] k v = tt
AllEntries-update user own (e ∷ es) k v =
    AllEntries-append (if bytes_eq e.name user then own e else e ∷ []) (update user own es)
      (AllEntries-if (bytes_eq e.name user) (own e) (e ∷ []) (k e v.0) (v.0, tt))
      (AllEntries-update user own es k v.1)

pub AllEntries-table_set :
    (new : Entry) (es : List Entry) → IsEntry new → AllEntries es → AllEntries (table_set new es)
AllEntries-table_set new es n v =
    AllEntries-append (update new.name (λ _. new ∷ []) es) _
      (AllEntries-update new.name (λ _. new ∷ []) es (λ e w. (n, tt)) v)
      (AllEntries-if (has_entry new.name es) [] (new ∷ []) tt (n, tt))

pub AllEntries-table_delete :
    (user : Bytes) (es : List Entry) → AllEntries es → AllEntries (table_delete user es)
AllEntries-table_delete user es v = AllEntries-update user (λ _. []) es (λ e w. tt) v

find-append_none :
    (user : Bytes) (es fs : List Entry) → find user es ≡ none → find user (es ++ fs) ≡ find user fs
find-append_none user [] fs h = refl
find-append_none user (e ∷ es) fs h = ground (arith, find-append_none user es fs)

-- The entries of another user stay.
pub find-update :
    (user other : Bytes) (own : Entry → List Entry) (es : List Entry)
    → bytes_eq other user ≡ false
    → ((e : Entry) → e.name ≡ user → find other (own e) ≡ none)
    → find other (update user own es) ≡ find other es
find-update user other own [] n k = refl
find-update user other own (e ∷ es) n k = elim (Bool-cases (bytes_eq e.name user)) [
  | inl hit ↦
      let same : e.name ≡ user = (bytes_eq_iff e.name user).0 hit in
      let other_one : bytes_eq other e.name ≡ false = rw same n in
      rw (hit, other_one)
        (find-append_none other (own e) (update user own es) (k e same)
          ∙ find-update user other own es n k)
  | inr miss ↦ rw miss (ground (arith, find-update user other own es n k))
]

abbrev pub map_entry : (Entry → Entry) → Option Entry → Option Entry
map_entry f none = none
map_entry f (some e) = some (f e)

-- The user's own entry is changed.
pub find-update_map :
    (user : Bytes) (f : Entry → Entry) (es : List Entry)
    → ((e : Entry) → (f e).name ≡ e.name)
    → find user (update user (λ e. f e ∷ []) es) ≡ map_entry f (find user es)
find-update_map user f [] k = refl
find-update_map user f (e ∷ es) k =
    ground (arith, k e, bytes_eq_comm e.name user, find-update_map user f es k)
