-- ===== src/Auth/Issuer.antt =====
-- core/auth.go: the issuers of the boxes, `https://auth.customer-<slug>.<base domain>`.
use workspace_api.Base.{
  ℕ, zero, suc, Bool, false, ◌&&◌, ◌||◌, leb, ◌==◌, Option, none, some, [], ◌∷◌, Text, codes,
  is_empty, cut_prefix, cut_suffix, if◌then◌else◌,
}

-- `[a-z0-9]` and `[a-z0-9-]`
abbrev pub is_alnum : ℕ → Bool
is_alnum c = (leb b'a' c && leb c b'z') || (leb b'0' c && leb c b'9')

abbrev pub is_label_char : ℕ → Bool
is_label_char c = is_alnum c || c == b'-'

-- `[a-z0-9-]{0,61}[a-z0-9]` to the end of the text, with `n` letters left for the repetition.
unfoldable pub label_rest : ℕ → Text → Bool
label_rest n [] = false
label_rest n (c ∷ []) = is_alnum c
label_rest zero (c ∷ d ∷ s) = false
label_rest (suc n) (c ∷ d ∷ s) = is_label_char c && label_rest n (d ∷ s)

-- `[a-z0-9](?:…)?`
unfoldable pub is_label : Text → Bool
unfolding label_rest
is_label [] = false
is_label (c ∷ []) = is_alnum c
is_label (c ∷ d ∷ s) = is_alnum c && label_rest 61 (d ∷ s)

abbrev pub issuer_prefix : Text
issuer_prefix = codes "https://auth.customer-"

abbrev pub domain_suffix : Text → Text
domain_suffix base_domain = b'.' ∷ base_domain

-- The slug between the two, if it is a label; `""` else.
abbrev pub labelled : Option Text → Text
labelled none = []
labelled (some slug) = if is_label slug then slug else []

abbrev pub before_domain : Text → Option Text → Text
before_domain base_domain none = []
before_domain base_domain (some rest) = labelled (cut_suffix (domain_suffix base_domain) rest)

unfoldable pub slug_for_issuer : Text → Text → Text
unfolding cut_prefix cut_suffix is_label
slug_for_issuer base_domain iss =
    if is_empty iss then [] else before_domain base_domain (cut_prefix issuer_prefix iss)
