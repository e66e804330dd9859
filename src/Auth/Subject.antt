-- ===== src/Auth/Subject.antt =====
-- core/core.go: the subject of a token, a person or an application of Casdoor.
use workspace_api.Base.{
  ℕ, ◌≡◌, Bool, true, false, Option, none, some, [], ◌∷◌, ◌++◌, Text, codes, is_empty, is_some,
  cut_prefix, cut_prefix-append, append-cut_prefix, arith, if◌then◌else◌,
}

abbrev pub service_account_prefix : Text
service_account_prefix = codes "admin/"

abbrev pub named_app : Option Text → Option Text
named_app none = none
named_app (some app) = if is_empty app then none else some app

unfoldable pub service_account_app : Text → Option Text
service_account_app id = named_app (cut_prefix service_account_prefix id)

unfoldable pub is_service_account : Text → Bool
unfolding service_account_app
is_service_account id = is_some (service_account_app id)

-- The subject of an application is its name behind the prefix.
named_app-eq :
    (o : Option Text) (app : Text)
    → named_app o ≡ some app
    → (o ≡ some app) × (is_empty app ≡ false)
named_app-eq none app h = cc
named_app-eq (some []) app h = cc
named_app-eq (some (c ∷ a)) app h = ground arith

pub service_account_app-eq :
    (id app : Text)
    → service_account_app id ≡ some app
    → (id ≡ service_account_prefix ++ app) × (is_empty app ≡ false)
unfolding service_account_app
service_account_app-eq id app h =
    let (cut, full) = named_app-eq (cut_prefix service_account_prefix id) app h in
    (append-cut_prefix service_account_prefix id cut, full)

pub is_service_account-append :
    (c : ℕ) (app : Text) → is_service_account (service_account_prefix ++ c ∷ app) ≡ true
unfolding is_service_account
is_service_account-append c app = rw (cut_prefix-append service_account_prefix (c ∷ app))
