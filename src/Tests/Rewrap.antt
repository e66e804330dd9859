-- ===== src/Tests/Rewrap.antt =====
-- postgres/rewrap.go: a sweep of two rows, one of them saved by another replica meanwhile.
use workspace_api.Base.{
  ◌≡◌, refl, ℕ, true, some, length, ap, or_else, sym, [], ◌∷◌, ◌++◌, Text, codes, same, mem, lookup,
  has_prefix, take,
}
use workspace_api.Crypto.Keyring.{enc_prefix, primary_key_id, encrypt, decrypt, open_under}
use workspace_api.Crypto.Rewrap.{
  Row, Round, select_stale_rows, is_stale, save, save_all, same_key, compare_and_swap,
  rows_affected, rewrapped, apply_rewrap,
}
use workspace_api.Crypto.Rewrap.View.{NonceFits, view, view-apply_rewrap, saves_of}
use workspace_api.Crypto.Rewrap.Sweep.{select_stale_rows-apply_rewrap}
use workspace_api.Tests.Crypto.{
  toy, toy-AreSound, key, entry, rotated, rotated_built, secret, shifted, framed, unshifted,
  unframed,
}

-- A text under key 1, and one under key 2, the primary key.
abbrev under : ℕ → Text
under c = enc_prefix ++ ((entry c).id ++ (b':' ∷ shifted (7 ∷ 9 ∷ framed (key c) secret)))

abbrev row_a : Row
row_a = record { key = codes "a" ∷ []; stored = under 1 }

abbrev turn : Round
turn = record {
  row = row_a;
  nonce = some (3 ∷ 4 ∷ []);
  exec_ok = true;
  saves = record { key = codes "b" ∷ []; stored = under 2 } ∷ [];
}

nonce_fits : NonceFits toy turn
nonce_fits n h = ap (λ o. length (or_else o [])) (sym h)

view-apply_rewrap_example :
    (n : ℕ) × (view toy rotated (apply_rewrap toy rotated (turn ∷ []) 0 (row_a ∷ [])).rows
      ≡ view toy rotated (saves_of (take n (turn ∷ [])) (row_a ∷ [])))
view-apply_rewrap_example =
    view-apply_rewrap toy toy-AreSound (key 2) (key 1 ∷ []) rotated rotated_built (turn ∷ []) 0
      (row_a ∷ []) (nonce_fits, tt)

select_stale_rows-apply_rewrap_example :
    select_stale_rows
      (primary_key_id rotated)
      (apply_rewrap toy rotated (turn ∷ []) 0 (row_a ∷ [])).rows
    ≡ []
unfolding apply_rewrap rewrapped encrypt decrypt select_stale_rows is_stale save_all save
    compare_and_swap rows_affected same_key same mem lookup has_prefix primary_key_id unshifted
    open_under unframed
select_stale_rows-apply_rewrap_example =
    select_stale_rows-apply_rewrap toy rotated (turn ∷ []) (row_a ∷ []) refl ((refl, tt), tt) refl
