-- ===== src/Mirror/Slug/Shape.antt =====
-- workspace/pipelinemirror.go: what a file name can be.
use workspace_api.Base.{
  ℕ, ◌==◌, ◌≡◌, refl, sym, subst, Bool, true, false, not, ◌&&◌, [], ◌∷◌, arith, Text, last,
  if◌then◌else◌,
}
use workspace_api.Mirror.Slug.{is_alnum, dashed, trim_dash_left, trim_dash_right, name_file_slug}

-- Letters `a` to `z`, digits and single dashes; after a dash (the flag) no other.
unfoldable pub clean : Bool → Text → Bool
clean after_dash [] = true
clean after_dash (c ∷ s) =
    let letter = clean false s in
    let gap = clean true s in if is_alnum c then letter else c == b'-' && (not after_dash && gap)

-- And neither the first letter nor the last is a dash.
pub record IsSlug (s : Text) : Type 0 where
  pub letters : clean true s ≡ true
  pub ends : (last b'a' s == b'-') ≡ false

clean-dashed : (l : Bool) (name : Text) → clean l (dashed l name) ≡ true
unfolding clean dashed
clean-dashed l [] = refl
clean-dashed true (r ∷ name) = ground (arith, clean-dashed false name, clean-dashed true name)
clean-dashed false (r ∷ name) = ground (arith, clean-dashed false name, clean-dashed true name)

trim_dash_left-clean : (s : Text) → clean true s ≡ true → trim_dash_left s ≡ s
unfolding clean trim_dash_left
trim_dash_left-clean [] h = refl
trim_dash_left-clean (c ∷ s) h = ground arith

clean-trim_dash_right :
    (l : Bool) (s : Text) → clean l s ≡ true → clean l (trim_dash_right s) ≡ true
unfolding clean trim_dash_right
clean-trim_dash_right l [] h = refl
clean-trim_dash_right l (c ∷ s) h =
    ground (arith, clean-trim_dash_right false s, clean-trim_dash_right true s)

last-trim_dash_right :
    (d : ℕ) (s : Text) → (d == b'-') ≡ false → (last d (trim_dash_right s) == b'-') ≡ false
unfolding trim_dash_right
last-trim_dash_right d [] h = h
last-trim_dash_right d (c ∷ s) h =
    ground (arith, last-trim_dash_right c s, last-trim_dash_right d s)

pub name_file_slug-IsSlug : (name : Text) → IsSlug (name_file_slug name)
unfolding name_file_slug
name_file_slug-IsSlug name =
    let s = dashed true name in
    let e = clean-dashed true name in
    record {
      letters =
          clean-trim_dash_right true (trim_dash_left s)
            (subst (λ t. clean true t ≡ true) (sym (trim_dash_left-clean s e)) e);
      ends = last-trim_dash_right b'a' (trim_dash_left s) refl;
    }
