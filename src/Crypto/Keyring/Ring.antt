-- ===== src/Crypto/Keyring/Ring.antt =====
-- NewKeyring: which keys make a ring, and what the ring then holds.
use workspace_api.Base.{
  ◌≡◌, refl, ap, false, none, some, List, [], ◌∷◌, ◌++◌, arith, Text, length, ok, lookup, map, All,
  Bool-cases, Map, insert, lookup-insert, same_iff, is_some, and_then-eq-ok, same_refl, subst, mem,
  mem-append, inl, inr,
}
use mathlib.Core.List.{append_assoc, append-nil, map-append}
use workspace_api.Crypto.Primitives.{Primitives}
use workspace_api.Crypto.Keyring.{
  KeyEntry, Keyring, new_key_entry, add_previous, new_keyring, extended,
}

-- Every key of the ring is found by its id.
abbrev pub IsHeld : Map KeyEntry → List KeyEntry → Type 0
IsHeld by_id = All (λ (e : KeyEntry). lookup e.id by_id ≡ some e)

IsHeld-append :
    (by_id : Map KeyEntry) (xs : List KeyEntry) (e : KeyEntry)
    → IsHeld by_id xs
    → lookup e.id by_id ≡ some e
    → IsHeld by_id (xs ++ e ∷ [])
IsHeld-append by_id [] e h k = (k, tt)
IsHeld-append by_id (x ∷ xs) e h k = (h.0, IsHeld-append by_id xs e h.1 k)

-- A key with a new id does not hide the keys that are there.
IsHeld-insert :
    (by_id : Map KeyEntry) (xs : List KeyEntry) (e : KeyEntry)
    → lookup e.id by_id ≡ none
    → IsHeld by_id xs
    → IsHeld (insert e.id e by_id) xs
IsHeld-insert by_id [] e h k = tt
IsHeld-insert by_id (x ∷ xs) e h k = (
  ground (arith, lookup-insert e.id x.id e by_id, same_iff e.id x.id, k.0),
  IsHeld-insert by_id xs e h k.1,
)

-- And the ring has no other ids.
abbrev pub HasOnly : Map KeyEntry → List KeyEntry → Type 0
HasOnly by_id order =
    (id : Text) → mem id (map (λ (e : KeyEntry). e.id) order) ≡ false → lookup id by_id ≡ none

HasOnly-insert :
    (by_id : Map KeyEntry) (order : List KeyEntry) (e : KeyEntry)
    → HasOnly by_id order
    → HasOnly (insert e.id e by_id) (order ++ e ∷ [])
unfolding mem
HasOnly-insert by_id order e only id h = ground (
  arith,
  lookup-insert e.id id e by_id,
  map-append (λ (e : KeyEntry). e.id) order (e ∷ []),
  mem-append id (map (λ (e : KeyEntry). e.id) order) (e.id ∷ []),
  only id,
)

module _ (p : Primitives) where
  open p use {derive_key_id}

  abbrev pub entry_of : Text → KeyEntry
  entry_of key = record { id = derive_key_id key; key = key }

  pub new_key_entry-eq_ok :
      (key : Text) (e : KeyEntry)
      → new_key_entry p key ≡ ok e
      → (e ≡ entry_of key) × (length key ≡ 32)
  unfolding new_key_entry
  new_key_entry-eq_ok key e h = ground arith

  -- A ring lists `order`, its first key is the one that it writes under, and each is found by its id.
  pub record IsRing (order : List KeyEntry) (primary : KeyEntry) (ring : Keyring) : Type 0 where
    pub order_is : ring.order ≡ order
    pub primary_is : ring.primary ≡ primary
    pub held : IsHeld ring.by_id ring.order
    pub only : HasOnly ring.by_id ring.order

  extended-IsRing :
      (order : List KeyEntry) (e added : KeyEntry) (ring : Keyring)
      → IsRing order e ring
      → is_some (lookup added.id ring.by_id) ≡ false
      → IsRing (order ++ added ∷ []) e (extended ring added)
  extended-IsRing order e added ring v fresh = record {
    order_is = ap (λ (es : List KeyEntry). es ++ added ∷ []) v.order_is;
    primary_is = v.primary_is;
    held =
        IsHeld-append _ ring.order added
          (IsHeld-insert ring.by_id ring.order added (ground arith) v.held)
          (ground (arith, lookup-insert added.id added.id added ring.by_id, same_refl added.id));
    only = HasOnly-insert ring.by_id ring.order added v.only;
  }

  add_previous-IsRing :
      (keys : List Text) (order : List KeyEntry) (e : KeyEntry) (start ring : Keyring)
      → IsRing order e start
      → add_previous p start keys ≡ ok ring
      → IsRing (order ++ map entry_of keys) e ring
  unfolding add_previous
  add_previous-IsRing [] order e start ring v h =
      rw append-nil (subst (IsRing order e) (ground arith) v)
  add_previous-IsRing (key ∷ keys) order e start ring v h =
      let (added, made, rest) = and_then-eq-ok (new_key_entry p key) _ h in
      elim (Bool-cases (is_some (lookup added.id start.by_id))) [
        | inl dup ↦ absurd (ground arith)
        | inr fresh ↦
            rw
              (
                ← append_assoc order (entry_of key ∷ []) (map entry_of keys),
                ← (new_key_entry-eq_ok key added made).0,
              )
              (add_previous-IsRing keys (order ++ added ∷ []) e (extended start added) ring
                (extended-IsRing order e added start v fresh) (ground arith))
      ]

  -- If the ring is built, its keys are the primary and the previous keys in their order.
  pub new_keyring-IsRing :
      (key : Text) (previous : List Text) (ring : Keyring)
      → new_keyring p key previous ≡ ok ring
      → IsRing (map entry_of (key ∷ previous)) (entry_of key) ring
  unfolding new_keyring lookup
  new_keyring-IsRing key previous ring h =
      let (e, made, rest) = and_then-eq-ok (new_key_entry p key) _ h in
      let is_key = (new_key_entry-eq_ok key e made).0 in
      rw (← is_key) (
        add_previous-IsRing previous (e ∷ []) e _ ring
          (record {
            order_is = refl;
            primary_is = refl;
            held = (ground (arith, lookup-insert e.id e.id e [], same_refl e.id), tt);
            only = HasOnly-insert [] [] e (λ id _. refl);
          })
          rest)
