-- ===== src/Crypto/Rewrap/Sweep.antt =====
-- postgres/rewrap.go: the rows that a sweep leaves stale.
use mathlib.Core.List.{append_assoc}
use workspace_api.Base.{
  ℕ, ◌≡◌, refl, Bool, true, false, Option, none, some, List, [], ◌∷◌, ◌++◌, arith, Text, same_refl,
  ok, All, if◌then◌else◌, subst, ◌||◌, Bool-cases, inl, inr, map, Outcome-cases, has_prefix-append,
  ◌+◌,
}
use workspace_api.Crypto.Primitives.{Primitives}
use workspace_api.Crypto.Keyring.{Keyring, decrypt, encrypt, primary_key_id}
use workspace_api.Crypto.Rewrap.{
  Row, Round, same_row, same_key, compare_and_swap, save, save_all, rewrapped, apply_rewrap,
  is_stale, select_stale_rows, primary_envelope, rows_affected,
}

-- This very row is among those that are still to be swept.
listed : List Row → Row → Bool
listed [] row = false
listed (r ∷ pending) row = same_row r row || listed pending row

-- Every stale row is still to be swept.
abbrev IsListed : Text → List Row → List Row → Type 0
IsListed id pending = All (λ (row : Row). is_stale id row.stored ≡ true → listed pending row ≡ true)

abbrev AreFresh : Text → List Row → Type 0
AreFresh id = All (λ (row : Row). is_stale id row.stored ≡ false)

IsListed-save :
    (id : Text) (pending : List Row) (r : Row) (rows : List Row)
    → is_stale id r.stored ≡ false
    → IsListed id pending rows
    → IsListed id pending (save r rows)
unfolding save
IsListed-save id pending r [] fresh h = (λ e. absurd (ground arith), tt)
IsListed-save id pending r (row ∷ rows) fresh h = elim (Bool-cases (same_key r.key row.key)) [
  | inl e ↦ rw e (λ k. absurd (ground arith), h.1)
  | inr e ↦ rw e (h.0, IsListed-save id pending r rows fresh h.1)
]

IsListed-save_all :
    (id : Text) (pending : List Row) (rs rows : List Row)
    → AreFresh id rs
    → IsListed id pending rows
    → IsListed id pending (save_all rs rows)
unfolding save_all
IsListed-save_all id pending [] rows fresh h = h
IsListed-save_all id pending (r ∷ rs) rows fresh h =
    IsListed-save_all id pending rs (save r rows) fresh.1
      (IsListed-save id pending r rows fresh.0 h)

IsListed-compare_and_swap :
    (id : Text) (swept : Row) (pending : List Row) (text : Text) (rows : List Row)
    → is_stale id text ≡ false
    → IsListed id (swept ∷ pending) rows
    → IsListed id pending (compare_and_swap swept text rows)
unfolding compare_and_swap listed
IsListed-compare_and_swap id swept pending text [] fresh h = tt
IsListed-compare_and_swap id swept pending text (row ∷ rows) fresh h =
    let rest = IsListed-compare_and_swap id swept pending text rows fresh h.1 in
    elim (Bool-cases (same_row swept row)) [
      | inl e ↦ rw e (λ k. absurd (ground arith), rest)
      | inr e ↦ rw e (λ k. ground (arith, h.0 k), rest)
    ]

select_stale_rows_fresh :
    (id : Text) (rows : List Row) → IsListed id [] rows → select_stale_rows id rows ≡ []
unfolding select_stale_rows listed
select_stale_rows_fresh id [] h = refl
select_stale_rows_fresh id (row ∷ rows) h = elim (Bool-cases (is_stale id row.stored)) [
  | inl e ↦ absurd (ground (arith, h.0 e))
  | inr e ↦ ground (arith, select_stale_rows_fresh id rows h.1)
]

same_key_refl : (k : List Text) → same_key k k ≡ true
unfolding same_key
same_key_refl [] = refl
same_key_refl (x ∷ k) = ground (arith, same_refl x, same_key_refl k)

same_row_refl : (row : Row) → same_row row row ≡ true
same_row_refl row = ground (arith, same_key_refl row.key, same_refl row.stored)

-- What `selectStaleRows` reads is all there is to do.
IsListed-more :
    (id : Text) (r : Row) (pending rows : List Row)
    → IsListed id pending rows
    → IsListed id (r ∷ pending) rows
unfolding listed
IsListed-more id r pending [] h = tt
IsListed-more id r pending (row ∷ rows) h =
    (λ k. ground (arith, h.0 k), IsListed-more id r pending rows h.1)

select_stale_rows-cons :
    (id : Text) (row : Row) (rows : List Row)
    → select_stale_rows id (row ∷ rows) ≡ (
        if is_stale id row.stored
        then row ∷ select_stale_rows id rows
        else select_stale_rows id rows)
unfolding select_stale_rows
select_stale_rows-cons id row rows = refl

select_stale_rows-IsListed :
    (id : Text) (rows : List Row) → IsListed id (select_stale_rows id rows) rows
unfolding listed
select_stale_rows-IsListed id [] = tt
select_stale_rows-IsListed id (row ∷ rows) =
    let rest = select_stale_rows-IsListed id rows in
    let taken = select_stale_rows-cons id row rows in
    let goal = λ (pending : List Row). IsListed id pending (row ∷ rows) in
    elim (Bool-cases (is_stale id row.stored)) [
      | inl e ↦ subst goal {x = row ∷ select_stale_rows id rows} (ground arith) (
        (λ _. ground (arith, same_row_refl row)),
        IsListed-more id row (select_stale_rows id rows) rows rest,
      )
      | inr e ↦
          subst goal {x = select_stale_rows id rows} (ground arith)
            ((λ k. absurd (ground arith)), rest)
    ]

-- What `Encrypt` writes carries the id of its ring's primary key.
encrypt-is_stale :
    (p : Primitives) (ring : Keyring) (nonce : Option Text) (t text : Text)
    → encrypt p ring nonce t ≡ ok text
    → is_stale (primary_key_id ring) text ≡ false
unfolding encrypt is_stale primary_key_id
encrypt-is_stale p ring none t text h = cc
encrypt-is_stale p ring (some nonce) t text h =
    let payload = p.encode (nonce ++ p.seal ring.primary.key nonce t) in
    ground (
      arith,
      has_prefix-append (primary_envelope ring.primary.id) payload,
      append_assoc ring.primary.id (b':' ∷ []) payload,
    )

module _ (p : Primitives) (ring : Keyring) where
  rewrapped-is_stale :
      (turn : Round) (text : Text)
      → rewrapped p ring turn ≡ ok text
      → is_stale (primary_key_id ring) text ≡ false
  unfolding rewrapped
  rewrapped-is_stale turn text h = elim (Outcome-cases (decrypt p ring turn.row.stored)) [
    | inr (e, bad) ↦ absurd (ground arith)
    | inl (t, good) ↦ encrypt-is_stale p ring turn.nonce t text (ground arith)
  ]

  sweep-IsListed :
      (turns : List Round) (rewrote : ℕ) (rows : List Row)
      → All (λ (turn : Round). AreFresh (primary_key_id ring) turn.saves) turns
      → IsListed (primary_key_id ring) (map (λ (turn : Round). turn.row) turns) rows
      → (apply_rewrap p ring turns rewrote rows).error ≡ none
      → IsListed (primary_key_id ring) [] (apply_rewrap p ring turns rewrote rows).rows
  unfolding apply_rewrap
  sweep-IsListed [] rewrote rows fresh h done = h
  sweep-IsListed (turn ∷ turns) rewrote rows fresh h done =
      elim (Outcome-cases (rewrapped p ring turn)) [
        | inr (e, bad) ↦ absurd (ground arith)
        | inl (text, good) ↦ elim (Bool-cases turn.exec_ok) [
          | inr off ↦ absurd (ground arith)
          | inl on ↦
              let now = save_all turn.saves rows in
              rw (good, on, apply_rewrap)
                (sweep-IsListed turns (rewrote + rows_affected turn.row now)
                  (compare_and_swap turn.row text now) fresh.1
                  (IsListed-compare_and_swap (primary_key_id ring) turn.row _ text now
                    (rewrapped-is_stale turn text good)
                    (IsListed-save_all (primary_key_id ring) _ turn.saves rows fresh.0 h))
                  (ground arith))
        ]
      ]

  -- The sweep of the rows that `selectStaleRows` read, while others save under the primary key: if it
  -- ends without an error, the same query then finds nothing, so that a retired key may go.
  pub select_stale_rows-apply_rewrap :
      (turns : List Round) (rows : List Row)
      → map (λ (turn : Round). turn.row) turns ≡ select_stale_rows (primary_key_id ring) rows
      → All (λ (turn : Round). AreFresh (primary_key_id ring) turn.saves) turns
      → (apply_rewrap p ring turns 0 rows).error ≡ none
      → select_stale_rows (primary_key_id ring) (apply_rewrap p ring turns 0 rows).rows ≡ []
  select_stale_rows-apply_rewrap turns rows all_read fresh done =
      select_stale_rows_fresh (primary_key_id ring) _ (
        sweep-IsListed turns 0 rows fresh
          (rw all_read (select_stale_rows-IsListed (primary_key_id ring) rows)) done)
