-- ===== src/Htable/Multi.antt =====
-- The hash table of src/ccan/htable where a key may have several entries: the calls of
-- ocserv/Ocserv/src/main-resume.c, which walks the entries of one hash.
use my_vps_config.Base.{
  ℕ, ◌≡◌, refl, Bool, true, false, ◌&&◌, ◌||◌, ◌==◌, Option, none, some, List, [], ◌∷◌, Bytes,
  bytes_eq, bytes_eq→eq, bytes_eq_refl, ap, if◌then◌else◌, arith,
}
use mathlib.Core.Path.{subst}

abbrev pub find : {E : Type 0} → (E → Bool) → List E → Option E
find p [] = none
find p (e ∷ es) = if p e then some e else find p es

abbrev pub any : {E : Type 0} → (E → Bool) → List E → Bool
any p [] = false
any p (e ∷ es) = p e || any p es

pub find-any :
    {E : Type 0} (p : E → Bool) (es : List E)
    → (elim (find p es) as (λ _. Bool) [ none ↦ false | some e ↦ true ]) ≡ any p es
find-any p [] = refl
find-any p (e ∷ es) = ground (arith, find-any p es)

pub find-holds : {E : Type 0} (p : E → Bool) (es : List E) (e : E) → find p es ≡ some e → p e ≡ true
find-holds p [] e h = cc
find-holds p (x ∷ es) e h = ground (arith, find-holds p es e)

pub any-find :
    {E : Type 0} (p q : E → Bool) (es : List E) (e : E)
    → find p es ≡ some e
    → q e ≡ true
    → any q es ≡ true
any-find p q [] e h k = cc
any-find p q (x ∷ es) e h k = ground (arith, any-find p q es e)

pub any-ext :
    {E : Type 0} (p q : E → Bool) (es : List E) → ((e : E) → p e ≡ q e) → any p es ≡ any q es
any-ext p q [] h = refl
any-ext p q (e ∷ es) h = ground (arith, any-ext p q es h, h e)

-- An entry has the key that is hashed, and the address of its memory.
pub record Multi (E : Type 0) (key : E → Bytes) (address : E → ℕ) : Type 1 where
  pub Table : Type 0
  pub init : Table
  -- what `htable_firstval` and `htable_nextval` visit for the hash of a key; it may have entries
  -- with other keys
  pub chain : Bytes → Table → List E
  -- what `htable_first` and `htable_next` visit
  pub items : Table → List E
  -- `htable_add`: `none` is a failed allocation
  pub add : E → Table → Option Table
  -- `htable_delval` of the entry with this key and address that the walk stands at
  pub delval : Bytes → ℕ → Table → Table
  pub any-init : (k : Bytes) (p : E → Bool) → any p (chain k init) ≡ false
  pub any-add :
      (e : E) (t t' : Table) (k : Bytes) (p : E → Bool)
      → add e t ≡ some t'
      → any (λ x. bytes_eq (key x) k && p x) (chain k t')
        ≡ ((bytes_eq (key e) k && p e) || any (λ x. bytes_eq (key x) k && p x) (chain k t))
  pub any-undo :
      (e : E) (t t' : Table) (k : Bytes) (p : E → Bool)
      → add e t ≡ some t'
      → any (λ x. bytes_eq (key x) k && p x) (chain k (delval (key e) (address e) t'))
        ≡ any (λ x. bytes_eq (key x) k && p x) (chain k t)
  pub any-delval :
      (j k : Bytes) (a : ℕ) (t : Table) (p : E → Bool)
      → bytes_eq j k ≡ false
      → any (λ x. bytes_eq (key x) k && p x) (chain k (delval j a t))
        ≡ any (λ x. bytes_eq (key x) k && p x) (chain k t)

-- A list whose entries all have one hash behaves as the table is documented to. It serves the
-- examples.
module _ {E : Type 0} (key : E → Bytes) (address : E → ℕ) where
  abbrev pub remove_first : Bytes → ℕ → List E → List E
  remove_first k a [] = []
  remove_first k a (e ∷ es) =
      if bytes_eq (key e) k && (address e == a) then es else e ∷ remove_first k a es

  pub any-remove_first :
      (j k : Bytes) (a : ℕ) (t : List E) (p : E → Bool)
      → bytes_eq j k ≡ false
      → any (λ x. bytes_eq (key x) k && p x) (remove_first j a t)
        ≡ any (λ x. bytes_eq (key x) k && p x) t
  any-remove_first j k a [] p h = refl
  any-remove_first j k a (e ∷ es) p h =
      ground (arith, any-remove_first j k a es p h, bytes_eq→eq (key e) j, bytes_eq→eq (key e) k)

  pub any_add_lem :
      (e : E) (t t' : List E) (k : Bytes) (p : E → Bool)
      → some (e ∷ t) ≡ some t'
      → any (λ x. bytes_eq (key x) k && p x) t'
        ≡ ((bytes_eq (key e) k && p e) || any (λ x. bytes_eq (key x) k && p x) t)
  any_add_lem e t t' k p h = ground arith

  pub any_undo_lem :
      (e : E) (t t' : List E) (k : Bytes) (p : E → Bool)
      → some (e ∷ t) ≡ some t'
      → any (λ x. bytes_eq (key x) k && p x) (remove_first (key e) (address e) t')
        ≡ any (λ x. bytes_eq (key x) k && p x) t
  any_undo_lem e t t' k p h =
      let same : remove_first (key e) (address e) (e ∷ t) ≡ t =
        ground (arith, bytes_eq_refl (key e)) in
      let is : e ∷ t ≡ t' = ground arith in
      subst
        (λ x.
          any (λ y. bytes_eq (key y) k && p y) (remove_first (key e) (address e) x)
          ≡ any (λ y. bytes_eq (key y) k && p y) t)
        is (ap (λ x. any (λ y. bytes_eq (key y) k && p y) x) same)

  abbrev pub one_chain : Multi E key address
  one_chain = record {
    Table = List E;
    init = [];
    chain = λ k t. t;
    items = λ t. t;
    add = λ e t. some (e ∷ t);
    delval = remove_first;
    any-init = λ k p. refl;
    any-add = any_add_lem;
    any-undo = any_undo_lem;
    any-delval = any-remove_first;
  }
