-- ===== src/Mirror/Effects.antt =====
-- What a step of the mirror does to the files of the repo: the behaviour that is asked of the client,
-- and how it goes through a chain of calls.
use workspace_api.Base.{
  ◌≡◌, refl, sym, ap, subst, ◌∙◌, Bool, true, false, Option, none, some, List, [], ◌∷◌, Text, same,
  same→eq, mem, is_some, map, Result, ok, err, M, next, ◌>>=◌, next-eq-ok, attempted, attempt,
  dropped, best_effort, for_each, if◌then◌else◌, arith, Bool-cases, inl, inr,
}
use workspace_api.Model.{CommitAuthor, RepoFileEntry}
use workspace_api.Postgres.{Db}
use workspace_api.Mirror.World.{RepoClient, World, on_db}

-- Gitea's contents API, seen through the content of each path (`none` is no file): nobody else
-- commits during the calls, a read changes no file, a write changes the file of its path alone, and a
-- successful write has written. A refused write (a stale sha) is an error of the call.
pub record IsRepo {R : Type 0} (client : RepoClient R) (file : R → Text → Option Text)
    : Type 0 where
  pub list_file : (s : R) (q : Text) → file (client.list_tree s).1 q ≡ file s q
  pub listed :
      {s : R} {tree : List RepoFileEntry} {t : R}
      → client.list_tree s ≡ (ok tree, t)
      → (q : Text) → mem q (map (λ e. e.path) tree) ≡ is_some (file s q)
  pub get_file : (p : Text) (s : R) (q : Text) → file (client.get_contents p s).1 q ≡ file s q
  pub got :
      {p : Text} {s : R} {content sha : Text} {t : R}
      → client.get_contents p s ≡ (ok (content, sha), t)
      → file s p ≡ some content
  pub put_file :
      (p content sha : Text) (author : Option CommitAuthor) (s : R) (q : Text)
      → same p q ≡ false
      → file (client.put_contents p content sha author s).1 q ≡ file s q
  pub put :
      {p content sha : Text} {author : Option CommitAuthor} {s : R} {new_sha : Text} {t : R}
      → client.put_contents p content sha author s ≡ (ok new_sha, t)
      → file t p ≡ some content
  pub delete_file :
      (p sha : Text) (author : Option CommitAuthor) (s : R) (q : Text)
      → same p q ≡ false
      → file (client.delete_contents p sha author s).1 q ≡ file s q
  pub deleted :
      {p sha : Text} {author : Option CommitAuthor} {s : R} {t : R}
      → client.delete_contents p sha author s ≡ (ok tt, t)
      → file t p ≡ none

module _ {R : Type 0} (file : R → Text → Option Text) where
  -- An operation that leaves the file of a path alone, whatever it returns.
  abbrev pub Leaves : {A : Type 0} → M (World R) A → Text → Type 0
  Leaves op q = (w : World R) → file (op w).1.repo q ≡ file w.repo q

  -- A successful operation that has changed the file of a path by a function.
  abbrev pub Sets : M (World R) (Unit {0}) → Text → (Option Text → Option Text) → Type 0
  Sets op q f = (w t : World R) → op w ≡ (ok tt, t) → file t.repo q ≡ f (file w.repo q)

  module _ {A B : Type 0} (q : Text) where
    Leaves-next :
        (r : Result A × World R) (f : A → M (World R) B)
        → ((a : A) → Leaves (f a) q)
        → file (next r f).1.repo q ≡ file r.1.repo q
    Leaves-next (ok a, w) f h = h a w
    Leaves-next (err e, w) f h = refl

    pub Leaves-bind :
        (op : M (World R) A) (f : A → M (World R) B)
        → Leaves op q
        → ((a : A) → Leaves (f a) q)
        → Leaves (op >>= f) q
    Leaves-bind op f h k w = Leaves-next (op w) f k ∙ h w

  module _ {A : Type 0} (q : Text) where
    Leaves-dropped : (r : Result A × World R) → file (dropped r).1.repo q ≡ file r.1.repo q
    Leaves-dropped (a, w) = refl

    pub Leaves-best_effort : (op : M (World R) A) → Leaves op q → Leaves (best_effort op) q
    Leaves-best_effort op h w = Leaves-dropped (op w) ∙ h w

    Leaves-attempted : (r : Result A × World R) → file (attempted r).1.repo q ≡ file r.1.repo q
    Leaves-attempted (a, w) = refl

    pub Leaves-attempt : (op : M (World R) A) → Leaves op q → Leaves (attempt op) q
    Leaves-attempt op h w = Leaves-attempted (op w) ∙ h w

    pub Leaves-if :
        (b : Bool) (f g : M (World R) A) → Leaves f q → Leaves g q → Leaves (if b then f else g) q
    Leaves-if true f g h k = h
    Leaves-if false f g h k = k

    pub Leaves-on_db : (op : M Db A) → Leaves (on_db op) q
    unfolding on_db
    Leaves-on_db op w = refl

  pub Leaves-for_each :
      {X : Type 0} (q : Text) (xs : List X) (step : X → M (World R) (Unit {0}))
      → ((x : X) → Leaves (step x) q)
      → Leaves (for_each xs step) q
  unfolding for_each
  Leaves-for_each q [] step h w = refl
  Leaves-for_each q (x ∷ xs) step h w =
      Leaves-bind q (step x) (λ _. for_each xs step) (h x) (λ _. Leaves-for_each q xs step h) w

  -- A loop over paths whose step for one path changes the file of that path alone.
  pub for_each-Sets :
      (step : Text → M (World R) (Unit {0})) (f : Text → Option Text → Option Text)
      → ((p q : Text) → same p q ≡ false → Leaves (step p) q)
      → ((p : Text) → Sets (step p) p (f p))
      → ((p : Text) (v : Option Text) → f p (f p v) ≡ f p v)
      → (xs : List Text) (q : Text) → Sets (for_each xs step) q (λ v. if mem q xs then f q v else v)
  unfolding for_each mem
  for_each-Sets step f others own idem [] q w t h = ap (λ r. file r.1.repo q) (sym h)
  for_each-Sets step f others own idem (x ∷ xs) q w t h =
      let (u, v, first, rest) = next-eq-ok (step x w) (λ _. for_each xs step) h in
      let ih = for_each-Sets step f others own idem xs q v t rest in
      elim (Bool-cases (same x q)) [
        | inl e ↦
            let set : file v.repo q ≡ f q (file w.repo q) =
              subst (λ p. file v.repo p ≡ f p (file w.repo p)) (same→eq x q e) (own x w v first) in
            ground (arith, set, ih, idem q (file w.repo q))
        | inr e ↦
            let left : file v.repo q ≡ file w.repo q =
              sym (ap (λ r. file r.1.repo q) first) ∙ others x q e w in
            ground (arith, left, ih)
      ]
