-- ===== src/Auth/Boxes.antt =====
-- core/auth.go: the pattern of a box's issuer, and what it says of the slug.
use workspace_api.Base.{
  ℕ, zero, suc, ◌+◌, ◌≤◌, ◌≡◌, ◌↔◌, refl, ap, sym, subst, ◌∙◌, true, false, Bool-cases, and_parts,
  inl, inr, Option, none, some, [], ◌∷◌, ◌++◌, Text, length, length-append, All, last, is_empty,
  same, same_refl, cut_prefix, cut_suffix, append-cut_prefix, append-cut_suffix, cut_prefix-append,
  arith,
}
use workspace_api.Auth.Issuer.{
  is_alnum, is_label_char, label_rest, is_label, issuer_prefix, domain_suffix, labelled,
  before_domain, slug_for_issuer,
}

-- A DNS label: what the pattern means by a slug.
abbrev pub first : Text → ℕ
first [] = 0
first (c ∷ s) = c

pub record IsLabel (s : Text) : Type 0 where
  pub full : 1 ≤ length s
  pub short : length s ≤ 63
  pub chars : All (λ c. is_label_char c ≡ true) s
  pub first_alnum : is_alnum (first s) ≡ true
  pub last_alnum : is_alnum (last 0 s) ≡ true

alnum_is_label_char : (c : ℕ) → is_alnum c ≡ true → is_label_char c ≡ true
alnum_is_label_char c h = rw h

abbrev Rest : ℕ → Text → Type 0
Rest n s =
    (1 ≤ length s)
    × (length s ≤ n + 1)
    × All (λ c. is_label_char c ≡ true) s
    × (is_alnum (last 0 s) ≡ true)

label_rest-Rest : (n : ℕ) (s : Text) → label_rest n s ≡ true → Rest n s
unfolding label_rest
label_rest-Rest n [] h = cc
label_rest-Rest n (c ∷ []) h = (omega arith, omega arith, (alnum_is_label_char c h, tt), h)
label_rest-Rest zero (c ∷ d ∷ s) h = cc
label_rest-Rest (suc n) (c ∷ d ∷ s) h =
    let (here, more) = and_parts (is_label_char c) (label_rest n (d ∷ s)) h in
    let (full, short, chars, end) = label_rest-Rest n (d ∷ s) more in
    (omega arith, omega arith, (here, chars), end)

Rest-label_rest : (n : ℕ) (s : Text) → Rest n s → label_rest n s ≡ true
unfolding label_rest
Rest-label_rest n [] h = absurd (omega arith)
Rest-label_rest n (c ∷ []) h = h.3
Rest-label_rest zero (c ∷ d ∷ s) h = absurd (omega arith)
Rest-label_rest (suc n) (c ∷ d ∷ s) h =
    rw (h.2.0) (Rest-label_rest n (d ∷ s) (omega arith, omega arith, h.2.1, h.3))

is_label_iff : (s : Text) → (is_label s ≡ true) ↔ IsLabel s
unfolding is_label
is_label_iff [] = (λ h. cc, λ h. absurd (omega (arith, h.full)))
is_label_iff (c ∷ []) = (
  λ h. record {
    full = omega arith;
    short = omega arith;
    chars = (alnum_is_label_char c h, tt);
    first_alnum = h;
    last_alnum = h;
  },
  λ h. h.first_alnum,
)
is_label_iff (c ∷ d ∷ s) = (
  λ h.
      let (here, more) = and_parts (is_alnum c) (label_rest 61 (d ∷ s)) h in
      let (full, short, chars, end) = label_rest-Rest 61 (d ∷ s) more in
      record {
        full = omega arith;
        short = omega arith;
        chars = (alnum_is_label_char c here, chars);
        first_alnum = here;
        last_alnum = end;
      },
  λ h.
      rw (h.first_alnum)
        (Rest-label_rest 61 (d ∷ s) (omega arith, omega (arith, h.short), h.chars.1, h.last_alnum)),
)

same-length : (a b : Text) → same a b ≡ true → length a ≡ length b
unfolding same
same-length [] [] h = refl
same-length (x ∷ a) (y ∷ b) h = ground (arith, same-length a b)
same-length [] (y ∷ b) h = cc
same-length (x ∷ a) [] h = cc

cut_suffix-append : (r t : Text) → cut_suffix t (r ++ t) ≡ some r
unfolding cut_suffix
cut_suffix-append [] [] = ground (arith, same_refl [])
cut_suffix-append [] (c ∷ t) = rw (same_refl (c ∷ t))
cut_suffix-append (c ∷ r) t = elim (Bool-cases (same t (c ∷ r ++ t))) [
  | inl e ↦ absurd (omega (arith, same-length t (c ∷ r ++ t) e, length-append {0} r t))
  | inr e ↦ rw (e, cut_suffix-append r t)
]

labelled_full :
    (o : Option Text) (slug : Text)
    → labelled o ≡ slug
    → is_empty slug ≡ false
    → (o ≡ some slug) × (is_label slug ≡ true)
labelled_full none slug h e = cc (subst (λ t. is_empty t ≡ false) (sym h) e)
labelled_full (some s) slug h e = elim (Bool-cases (is_label s)) [
  | inl l ↦
      let same_slug : s ≡ slug = rw l at h in
      (ap some same_slug, subst (λ t. is_label t ≡ true) same_slug l)
  | inr l ↦
      let none_left : [] ≡ slug = rw l at h in
      cc (subst (λ t. is_empty t ≡ false) (sym none_left) e)
]

before_domain_full :
    (base_domain : Text) (o : Option Text) (slug : Text)
    → before_domain base_domain o ≡ slug
    → is_empty slug ≡ false
    → (o ≡ some (slug ++ domain_suffix base_domain)) × (is_label slug ≡ true)
before_domain_full base_domain none slug h e = cc (subst (λ t. is_empty t ≡ false) (sym h) e)
before_domain_full base_domain (some rest) slug h e =
    let (cut, l) = labelled_full (cut_suffix (domain_suffix base_domain) rest) slug h e in
    (ap some (append-cut_suffix (domain_suffix base_domain) rest slug cut), l)

slug_for_issuer_full :
    (base_domain iss slug : Text)
    → slug_for_issuer base_domain iss ≡ slug
    → is_empty slug ≡ false
    → (iss ≡ issuer_prefix ++ slug ++ domain_suffix base_domain) × IsLabel slug
unfolding slug_for_issuer
slug_for_issuer_full base_domain [] slug h e = cc (subst (λ t. is_empty t ≡ false) (sym h) e)
slug_for_issuer_full base_domain (c ∷ iss) slug h e =
    let (cut, l) = before_domain_full base_domain (cut_prefix issuer_prefix (c ∷ iss)) slug h e in
    (append-cut_prefix issuer_prefix (c ∷ iss) cut, (is_label_iff slug).0 l)

slug_for_issuer-append :
    (base_domain slug : Text)
    → IsLabel slug
    → slug_for_issuer base_domain (issuer_prefix ++ slug ++ domain_suffix base_domain) ≡ slug
unfolding slug_for_issuer
slug_for_issuer-append base_domain slug l =
    ap (before_domain base_domain)
      (cut_prefix-append issuer_prefix (slug ++ domain_suffix base_domain))
    ∙ (ap labelled (cut_suffix-append slug (domain_suffix base_domain))
        ∙ rw ((is_label_iff slug).1 l))

IsLabel-full : (slug : Text) → IsLabel slug → is_empty slug ≡ false
IsLabel-full [] l = absurd (omega (arith, l.full))
IsLabel-full (c ∷ s) l = refl

-- The slug of an issuer is the DNS label of at most 63 letters that stands between
-- "https://auth.customer-" and the base domain: the text is a box's issuer for a slug exactly if it is
-- this concatenation.
pub slug_for_issuer_iff :
    (base_domain iss slug : Text)
    → ((slug_for_issuer base_domain iss ≡ slug) × (is_empty slug ≡ false))
      ↔ ((iss ≡ issuer_prefix ++ slug ++ domain_suffix base_domain) × IsLabel slug)
slug_for_issuer_iff base_domain iss slug = (
  λ h. slug_for_issuer_full base_domain iss slug h.0 h.1,
  λ h. (
    ap (slug_for_issuer base_domain) h.0 ∙ slug_for_issuer-append base_domain slug h.1,
    IsLabel-full slug h.1,
  ),
)
