-- ===== src/Htable/Assoc.antt =====
-- A list that shadows its older entries behaves as the table is documented to. It serves the
-- examples of the components.
use my_vps_config.Base.{
  ◌≡◌, refl, true, none, some, List, [], ◌∷◌, Bytes, bytes_eq, bytes_eq→eq, if◌then◌else◌, arith,
}
use my_vps_config.Htable.{Htable, find_key, IsKeyed}

module _ {E : Type 0} (key : E → Bytes) where
  abbrev pub remove : Bytes → List E → List E
  remove k [] = []
  remove k (e ∷ es) = if bytes_eq (key e) k then remove k es else e ∷ remove k es

  -- The entries that are not shadowed.
  abbrev pub distinct : List E → List E
  distinct [] = []
  distinct (e ∷ es) = e ∷ remove (key e) (distinct es)

  pub find_key-remove :
      (j k : Bytes) (es : List E)
      → find_key key k (remove j es) ≡ (if bytes_eq j k then none else find_key key k es)
  find_key-remove j k [] = ground arith
  find_key-remove j k (e ∷ es) =
      ground (
        arith,
        find_key-remove j k es,
        bytes_eq→eq (key e) j,
        bytes_eq→eq (key e) k,
        bytes_eq→eq j k,
      )

  remove_absent :
      (j k : Bytes) (es : List E) → find_key key k es ≡ none → find_key key k (remove j es) ≡ none
  remove_absent j k es h = ground (arith, find_key-remove j k es)

  pub find_key-distinct :
      (k : Bytes) (es : List E) → find_key key k (distinct es) ≡ find_key key k es
  find_key-distinct k [] = refl
  find_key-distinct k (e ∷ es) =
      ground (arith, find_key-remove (key e) k (distinct es), find_key-distinct k es)

  remove-IsKeyed : (j : Bytes) (es : List E) → IsKeyed key es → IsKeyed key (remove j es)
  remove-IsKeyed j [] u = tt
  remove-IsKeyed j (e ∷ es) u =
      ground (arith, remove-IsKeyed j es u.1, remove_absent j (key e) es u.0)

  find_key-remove_self : (k : Bytes) (es : List E) → find_key key k (remove k es) ≡ none
  find_key-remove_self k [] = refl
  find_key-remove_self k (e ∷ es) = ground (arith, find_key-remove_self k es)

  pub distinct-IsKeyed : (es : List E) → IsKeyed key (distinct es)
  distinct-IsKeyed [] = tt
  distinct-IsKeyed (e ∷ es) = (
    find_key-remove_self (key e) (distinct es),
    remove-IsKeyed (key e) (distinct es) (distinct-IsKeyed es),
  )

  pub key-find_key :
      (k : Bytes) (es : List E) (e : E) → find_key key k es ≡ some e → bytes_eq (key e) k ≡ true
  key-find_key k [] e h = cc
  key-find_key k (x ∷ es) e h = ground (arith, key-find_key k es e)

  pub get_add_lem :
      (e : E) (t t' : List E) (k : Bytes)
      → find_key key (key e) t ≡ none
      → some (e ∷ t) ≡ some t'
      → find_key key k t' ≡ (if bytes_eq (key e) k then some e else find_key key k t)
  get_add_lem e t t' k h p = ground arith

  abbrev pub assoc : Htable E key
  assoc = record {
    Table = List E;
    init = [];
    get = find_key key;
    add = λ e t. some (e ∷ t);
    write = λ e t. e ∷ t;
    del = remove;
    items = distinct;
    get-init = λ k. refl;
    get-add = get_add_lem;
    get-write = λ e old t k h. refl;
    get-del = find_key-remove;
    get-items = find_key-distinct;
    items-IsKeyed = distinct-IsKeyed;
    key-get = key-find_key;
  }
