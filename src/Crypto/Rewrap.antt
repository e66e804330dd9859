-- ===== src/Crypto/Rewrap.antt =====
-- postgres/rewrap.go: re-encrypting a column under the primary key while others write to it.
-- A column is its rows: the values of the key columns, and the stored text.
pub mod Sweep
pub mod View
use workspace_api.Base.{
  ℕ, ◌+◌, Bool, true, false, not, ◌&&◌, Option, none, some, List, [], ◌∷◌, ◌++◌, Text, same,
  has_prefix, Outcome, ok, err, if◌then◌else◌,
}
use workspace_api.Crypto.Primitives.{Primitives}
use workspace_api.Crypto.Keyring.{Keyring, KeyError, enc_prefix, primary_key_id, encrypt, decrypt}

pub record Row : Type 0 where
  pub key : List Text
  pub stored : Text

unfoldable pub same_key : List Text → List Text → Bool
same_key [] [] = true
same_key (x ∷ xs) (y ∷ ys) = same x y && same_key xs ys
same_key _ _ = false

abbrev pub same_row : Row → Row → Bool
same_row r row = same_key r.key row.key && same r.stored row.stored

-- The text before the `%` of `primaryEnvelopePattern`. The id is hex, so `LIKE` reads it as written.
abbrev pub primary_envelope : Text → Text
primary_envelope primary_id = enc_prefix ++ (primary_id ++ (b':' ∷ []))

-- `LIKE 'enc:%' AND NOT LIKE 'enc:<id>:%'`
unfoldable pub is_stale : Text → Text → Bool
is_stale primary_id stored =
    has_prefix enc_prefix stored && not (has_prefix (primary_envelope primary_id) stored)

unfoldable pub select_stale_rows : Text → List Row → List Row
unfolding is_stale
select_stale_rows primary_id [] = []
select_stale_rows primary_id (row ∷ rows) =
    let rest = select_stale_rows primary_id rows in
    if is_stale primary_id row.stored then row ∷ rest else rest

-- `UPDATE … SET col = new WHERE keys = r.key AND col = r.stored`, and the rows that it changed.
unfoldable pub compare_and_swap : Row → Text → List Row → List Row
compare_and_swap r new [] = []
compare_and_swap r new (row ∷ rows) =
    let rest = compare_and_swap r new rows in
    if same_row r row then record row { stored = new } ∷ rest else row ∷ rest

unfoldable pub rows_affected : Row → List Row → ℕ
rows_affected r [] = 0
rows_affected r (row ∷ rows) =
    let rest = rows_affected r rows in if same_row r row then rest + 1 else rest

-- What another replica does meanwhile: it stores a text over a row, or adds the row.
unfoldable pub save : Row → List Row → List Row
save r [] = r ∷ []
save r (row ∷ rows) =
    let rest = save r rows in if same_key r.key row.key then r ∷ rows else row ∷ rest

unfoldable pub save_all : List Row → List Row → List Row
save_all [] rows = rows
save_all (r ∷ rs) rows = save_all rs (save r rows)

-- One round of the loop: the row read, what `rand.Read` gives, whether the statement goes through,
-- and what others saved since the round before.
pub record Round : Type 0 where
  pub row : Row
  pub nonce : Option Text
  pub exec_ok : Bool
  pub saves : List Row

pub data SweepError : Type 0 where
  undecryptable unencryptable : KeyError → SweepError
  exec_failed : SweepError

-- The column after the loop, the count that is returned, and the error.
pub record Swept : Type 0 where
  pub rows : List Row
  pub rewrote : ℕ
  pub error : Option SweepError

-- The count that comes back with an error: the codec's errors return 0, the database's `rewrote`.
unfoldable pub count_on_error : SweepError → ℕ → ℕ
count_on_error exec_failed rewrote = rewrote
count_on_error _ rewrote = 0

module _ (p : Primitives) (ring : Keyring) where
  -- The two calls on the encryptor.
  unfoldable pub rewrapped : Round → Outcome SweepError Text
  rewrapped turn = elim (decrypt p ring turn.row.stored) [
    | err e ↦ err (undecryptable e)
    | ok plaintext ↦ elim (encrypt p ring turn.nonce plaintext) [
      | err e ↦ err (unencryptable e)
      | ok text ↦ ok text
    ]
  ]

  unfoldable pub apply_rewrap : List Round → ℕ → List Row → Swept
  apply_rewrap [] rewrote rows = record { rows = rows; rewrote = rewrote; error = none }
  apply_rewrap (turn ∷ turns) rewrote rows =
      let now = save_all turn.saves rows in
      elim (rewrapped turn) [
        | err e ↦ record { rows = now; rewrote = count_on_error e rewrote; error = some e }
        | ok text ↦ elim turn.exec_ok [
          | false ↦ record { rows = now; rewrote = rewrote; error = some exec_failed }
          | true ↦
              apply_rewrap turns (rewrote + rows_affected turn.row now)
                (compare_and_swap turn.row text now)
        ]
      ]
