-- ===== src/Crypto/Rewrap/View.antt =====
-- postgres/rewrap.go: what the rows say in plaintext, before and after a sweep.
use workspace_api.Base.{
  ℕ, ◌≡◌, refl, ap, none, some, List, [], ◌∷◌, arith, Text, same, same_iff, Outcome, ok, err, All,
  Outcome-cases, Option-cases, same_refl, mem, ◌+◌, if◌then◌else◌, take, suc, sym, ◌∙◌, length,
  and_parts, Bool-cases, inl, inr,
}
use workspace_api.Crypto.Primitives.{Primitives, AreSound}
use workspace_api.Crypto.Keyring.{Keyring, KeyError, decrypt, encrypt, new_keyring, no_nonce}
use workspace_api.Crypto.Keyring.Reads.{decrypt-encrypt}
use workspace_api.Crypto.Rewrap.{
  Row, Round, same_row, same_key, compare_and_swap, save, save_all, rewrapped, apply_rewrap,
  rows_affected,
}

module _ (p : Primitives) (ring : Keyring) where
  pub record Reading : Type 0 where
    pub row_key : List Text
    pub plaintext : Outcome KeyError Text

  abbrev pub read_row : Row → Reading
  read_row row = record { row_key = row.key; plaintext = decrypt p ring row.stored }

  -- What a reader of the column sees.
  abbrev pub view : List Row → List Reading
  view [] = []
  view (row ∷ rows) = read_row row ∷ view rows

  -- A save, seen in plaintext.
  save_reading : Reading → List Reading → List Reading
  save_reading r [] = r ∷ []
  save_reading r (x ∷ xs) =
      let rest = save_reading r xs in if same_key r.row_key x.row_key then r ∷ xs else x ∷ rest

  view-save :
      (r : Row) (rows : List Row) → view (save r rows) ≡ save_reading (read_row r) (view rows)
  unfolding save save_reading
  view-save r [] = refl
  view-save r (row ∷ rows) = ground (arith, view-save r rows)

  view-save_all :
      (rs xs ys : List Row) → view xs ≡ view ys → view (save_all rs xs) ≡ view (save_all rs ys)
  unfolding save_all
  view-save_all [] xs ys h = h
  view-save_all (r ∷ rs) xs ys h =
      view-save_all rs (save r xs) (save r ys)
        (view-save r xs ∙ ap (save_reading (read_row r)) h ∙ sym (view-save r ys))

  -- A swap for a text with the same plaintext.
  view-compare_and_swap :
      (r : Row) (new : Text) (rows : List Row)
      → decrypt p ring new ≡ decrypt p ring r.stored
      → view (compare_and_swap r new rows) ≡ view rows
  unfolding compare_and_swap
  view-compare_and_swap r new [] h = refl
  view-compare_and_swap r new (row ∷ rows) h = elim (Bool-cases (same_row r row)) [
    | inl e ↦ rw e (
        ground (
          arith,
          view-compare_and_swap r new rows h,
          same_iff r.stored row.stored,
          and_parts (same_key r.key row.key) (same r.stored row.stored) e,
        ))
    | inr e ↦ rw e (ap (◌∷◌ (read_row row)) (view-compare_and_swap r new rows h))
  ]

-- Only the saves of some rounds.
unfoldable pub saves_of : List Round → List Row → List Row
saves_of [] rows = rows
saves_of (turn ∷ turns) rows = saves_of turns (save_all turn.saves rows)

view-saves_of :
    (p : Primitives) (ring : Keyring) (turns : List Round) (xs ys : List Row)
    → view p ring xs ≡ view p ring ys
    → view p ring (saves_of turns xs) ≡ view p ring (saves_of turns ys)
unfolding saves_of
view-saves_of p ring [] xs ys h = h
view-saves_of p ring (turn ∷ turns) xs ys h =
    view-saves_of p ring turns (save_all turn.saves xs) (save_all turn.saves ys)
      (view-save_all p ring turn.saves xs ys h)

encrypt_no_nonce :
    (p : Primitives) (ring : Keyring) (t : Text) → encrypt p ring none t ≡ err no_nonce
unfolding encrypt
encrypt_no_nonce p ring t = refl

-- `rand.Read` fills a nonce of the cipher's size.
abbrev pub NonceFits : Primitives → Round → Type 0
NonceFits p turn = (n : Text) → turn.nonce ≡ some n → length n ≡ p.nonce_size

module _ (p : Primitives) (s : AreSound p) (key : Text) (previous : List Text) (ring : Keyring)
    (built : new_keyring p key previous ≡ ok ring) where
  -- A re-encrypted text has the plaintext of the one that was read.
  decrypt-rewrapped :
      (turn : Round) (text : Text)
      → NonceFits p turn
      → rewrapped p ring turn ≡ ok text
      → decrypt p ring text ≡ decrypt p ring turn.row.stored
  unfolding rewrapped mem
  decrypt-rewrapped turn text fits h = elim (Outcome-cases (decrypt p ring turn.row.stored)) [
    | inr (e, bad) ↦ absurd (ground arith)
    | inl (t, good) ↦ elim (Option-cases turn.nonce) [
      | inl undrawn ↦ absurd (ground (arith, encrypt_no_nonce p ring t))
      | inr (nonce, drawn) ↦
          let (stored, wrote, reads) =
            decrypt-encrypt p s key previous ring built key previous ring nonce t built
              (ground (arith, same_refl key)) (fits nonce drawn) in
          ground arith
    ]
  ]

  -- Whatever the sweep gets done, a reader sees what the saves alone would have left: no save is
  -- reverted, and no row changes its plaintext.
  pub view-apply_rewrap :
      (turns : List Round) (rewrote : ℕ) (rows : List Row)
      → All (NonceFits p) turns
      → (n : ℕ) × (view p ring (apply_rewrap p ring turns rewrote rows).rows
          ≡ view p ring (saves_of (take n turns) rows))
  unfolding apply_rewrap saves_of
  view-apply_rewrap [] rewrote rows fits = (0, refl)
  view-apply_rewrap (turn ∷ turns) rewrote rows fits =
      elim (Outcome-cases (rewrapped p ring turn)) [
        | inr (e, bad) ↦ (1, rw (bad, apply_rewrap) refl)
        | inl (text, good) ↦ elim (Bool-cases turn.exec_ok) [
          | inr off ↦ (1, rw (good, off, apply_rewrap) refl)
          | inl on ↦
              let now = save_all turn.saves rows in
              let (n, seen) =
                view-apply_rewrap turns (rewrote + rows_affected turn.row now)
                  (compare_and_swap turn.row text now) fits.1 in
              (
                suc n,
                rw (good, on, apply_rewrap)
                    (seen
                      ∙ view-saves_of p ring (take n turns) (compare_and_swap turn.row text now) now
                          (view-compare_and_swap p ring turn.row text now
                            (decrypt-rewrapped turn text fits.0 good))),
              )
        ]
      ]
