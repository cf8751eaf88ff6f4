-- ===== src/Htable.antt =====
-- The calls of ocserv/Ocserv/src/ccan/htable, the hash table that the components keep their state
-- in. Each user gives it one `rehash` and one comparison, both of a key inside the entry, and adds
-- an entry only where its key is absent; so an entry is found by its key. An entry that the code
-- changes through the pointer that `htable_get` returned is written back by `write`.
pub mod Sweep
pub mod Assoc
pub mod Multi
use my_vps_config.Base.{◌≡◌, Bool, true, Option, none, some, List, [], ◌∷◌, Bytes, bytes_eq}
use my_vps_config.Base.{if◌then◌else◌}

-- The first entry of a sequence with a key.
abbrev pub find_key : {E : Type 0} → (E → Bytes) → Bytes → List E → Option E
find_key key k [] = none
find_key key k (e ∷ es) = if bytes_eq (key e) k then some e else find_key key k es

-- No two entries of a sequence have one key.
abbrev pub IsKeyed : {E : Type 0} → (E → Bytes) → List E → Type 0
IsKeyed key [] = Unit {0}
IsKeyed key (e ∷ es) = (find_key key (key e) es ≡ none) × IsKeyed key es

-- The operations, and what their documentation says of them.
pub record Htable (E : Type 0) (key : E → Bytes) : Type 1 where
  pub Table : Type 0
  -- `htable_init`
  pub init : Table
  -- `htable_get`, with the entry's key for the hash and the comparison
  pub get : Bytes → Table → Option E
  -- `htable_add`: `none` is a failed allocation
  pub add : E → Table → Option Table
  -- stores through the pointer to the entry with this key
  pub write : E → Table → Table
  -- `htable_del`, and `htable_delval` of the entry that the iteration stands at
  pub del : Bytes → Table → Table
  -- what `htable_first` and `htable_next` visit
  pub items : Table → List E
  pub get-init : (k : Bytes) → get k init ≡ none
  pub get-add :
      (e : E) (t : Table) (t' : Table) (k : Bytes)
      → get (key e) t ≡ none
      → add e t ≡ some t'
      → get k t' ≡ (if bytes_eq (key e) k then some e else get k t)
  pub get-write :
      (e old : E) (t : Table) (k : Bytes)
      → get (key e) t ≡ some old
      → get k (write e t) ≡ (if bytes_eq (key e) k then some e else get k t)
  pub get-del :
      (j k : Bytes) (t : Table) → get k (del j t) ≡ (if bytes_eq j k then none else get k t)
  pub get-items : (k : Bytes) (t : Table) → find_key key k (items t) ≡ get k t
  pub items-IsKeyed : (t : Table) → IsKeyed key (items t)
  pub key-get : (k : Bytes) (t : Table) (e : E) → get k t ≡ some e → bytes_eq (key e) k ≡ true
