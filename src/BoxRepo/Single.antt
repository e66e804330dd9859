-- ===== src/BoxRepo/Single.antt =====
-- workspace/boxrepo.go: what setting and deleting a push mirror leaves at the box's Gitea.
use workspace_api.Base.{
  ◌≡◌, refl, ap, sym, ◌∙◌, Bool, true, false, not, ◌||◌, Bool-cases, inl, inr, List, [], ◌∷◌, ◌++◌,
  Text, All, same, same_sym, same_refl, mem, keep, map, is_empty, ok, ◌>>=◌, fail, of_result,
  for_each, next-eq-ok, bind-ok, arith, if◌then◌else◌, invalid_source_config,
}
use workspace_api.BoxRepo.Editor.{PushMirror, RepoMirrorClient, BoxRepoService, mirror_client_for}
use workspace_api.BoxRepo.Mirrors.{
  push_mirror_interval, validate_mirror_remote, delete_each, set_push_mirror, delete_push_mirror,
}

abbrev others : Text → List PushMirror → List PushMirror
others name mirrors = keep (λ m. not (same m.remote_name name)) mirrors

-- Gitea's API of the push mirrors of a repo, seen through the list of them.
pub record IsMirrorHost {R : Type 0} (client : RepoMirrorClient R) (mirrors : R → List PushMirror)
    : Type 0 where
  pub listed :
      {s t : R} {ms : List PushMirror}
      → client.list_push_mirrors s ≡ (ok ms, t)
      → (ms ≡ mirrors s) × (mirrors t ≡ mirrors s)
  pub deleted :
      {name : Text} {s t : R}
      → client.delete_push_mirror name s ≡ (ok tt, t)
      → mirrors t ≡ keep (λ m. not (same m.remote_name name)) (mirrors s)
  pub added :
      {url username password interval : Text} {s t : R}
      → client.add_push_mirror url username password interval s ≡ (ok tt, t)
      → (m : PushMirror) × (mirrors t ≡ mirrors s ++ m ∷ []) × (m.remote_url ≡ url)

names : List PushMirror → List Text
names mirrors = map (λ m. m.remote_name) mirrors

removed : List PushMirror → List PushMirror → List PushMirror
removed [] v = v
removed (m ∷ ms) v = removed ms (others m.remote_name v)

abbrev AreAmong : List PushMirror → List PushMirror → Type 0
AreAmong ms v = All (λ x. mem x.remote_name (names ms) ≡ true) v

others-AreAmong :
    (m : PushMirror) (ms v : List PushMirror)
    → AreAmong (m ∷ ms) v
    → AreAmong ms (others m.remote_name v)
unfolding keep names mem
others-AreAmong m ms [] h = tt
others-AreAmong m ms (x ∷ v) h = elim (Bool-cases (same x.remote_name m.remote_name)) [
  | inl e ↦ rw e (others-AreAmong m ms v h.1)
  | inr e ↦
      let rest = others-AreAmong m ms v h.1 in
      rw e (
        rest_of (same m.remote_name x.remote_name) (same_sym m.remote_name x.remote_name ∙ e) h.0,
        rest,
      )
]
  where
    rest_of :
        (b : Bool)
        → b ≡ false
        → (b || mem x.remote_name (names ms)) ≡ true
        → mem x.remote_name (names ms) ≡ true
    rest_of true e k = cc
    rest_of false e k = k

removed_all : (ms v : List PushMirror) → AreAmong ms v → removed ms v ≡ []
unfolding removed names mem
removed_all [] [] h = refl
removed_all [] (x ∷ v) h = cc h.0
removed_all (m ∷ ms) v h = removed_all ms (others m.remote_name v) (others-AreAmong m ms v h)

AreAmong-more : (m : PushMirror) (ms v : List PushMirror) → AreAmong ms v → AreAmong (m ∷ ms) v
unfolding names mem
AreAmong-more m ms [] h = tt
AreAmong-more m ms (x ∷ v) h = (ground arith, AreAmong-more m ms v h.1)

AreAmong-self : (v : List PushMirror) → AreAmong v v
unfolding names mem
AreAmong-self [] = tt
AreAmong-self (x ∷ v) = (rw (same_refl x.remote_name), AreAmong-more x v v (AreAmong-self v))

module _ {R : Type 0} (client : RepoMirrorClient R) (mirrors : R → List PushMirror)
    (host : IsMirrorHost client mirrors) where
  delete_each-removed :
      (ms : List PushMirror) (w t : R)
      → for_each ms (λ m. client.delete_push_mirror m.remote_name) w ≡ (ok tt, t)
      → mirrors t ≡ removed ms (mirrors w)
  unfolding for_each removed
  delete_each-removed [] w t h = ap (λ z. mirrors z.1) (sym h)
  delete_each-removed (m ∷ ms) w t h =
      let (u, v, first, rest) = next-eq-ok (client.delete_push_mirror m.remote_name w) _ h in
      delete_each-removed ms v t rest ∙ ap (removed ms) (host.deleted first)

  delete_all :
      (w v t : R) (ms : List PushMirror)
      → client.list_push_mirrors w ≡ (ok ms, v)
      → for_each ms (λ m. client.delete_push_mirror m.remote_name) v ≡ (ok tt, t)
      → mirrors t ≡ []
  delete_all w v t ms h k =
      let (same_list, kept) = host.listed h in
      delete_each-removed ms v t k
      ∙ (ap (removed ms) (kept ∙ sym same_list) ∙ removed_all ms ms (AreAmong-self ms))

module _ {R : Type 0} (s : BoxRepoService R) (client : RepoMirrorClient R)
    (mirrors : R → List PushMirror) where
  set_cleared :
      (caller repo url username password : Text) (b1 b2 : Bool) (w t : R)
      → mirror_client_for s caller repo ≡ ok client
      → IsMirrorHost client mirrors
      → (if b1
            then fail invalid_source_config
            else if b2
            then fail invalid_source_config
            else (of_result (mirror_client_for s caller repo) >>= λ client.
                client.list_push_mirrors >>= λ existing. delete_each s client existing >>= λ _.
                client.add_push_mirror url username password push_mirror_interval))
          w
        ≡ (ok tt, t)
      → (m : PushMirror) × (mirrors t ≡ m ∷ []) × (m.remote_url ≡ url)
  set_cleared caller repo url username password true b2 w t c host h = cc
  set_cleared caller repo url username password false true w t c host h = cc
  set_cleared caller repo url username password false false w t c host h =
      let known = bind-ok (of_result (mirror_client_for s caller repo)) _ w (ap (λ r. (r, w)) c) in
      let (ms, w2, first, h2) = next-eq-ok (client.list_push_mirrors w) _ (sym known ∙ h) in
      let (u, w3, gone, h3) = next-eq-ok (delete_each s client ms w2) _ h2 in
      let (m, end, same_url) = host.added h3 in
      (
        m,
        end ∙ ap (λ v. v ++ m ∷ []) (delete_all client mirrors host w w2 w3 ms first gone),
        same_url,
      )

  -- After a push mirror is set successfully, it is the only one of the repo and it pushes to the URL
  -- that was given, whatever mirrors there were, where the client is that of a host which keeps a list
  -- of mirrors.
  pub set_push_mirror-single :
      (caller repo url username password : Text) (w t : R)
      → mirror_client_for s caller repo ≡ ok client
      → IsMirrorHost client mirrors
      → set_push_mirror s caller repo url username password w ≡ (ok tt, t)
      → (m : PushMirror) × (mirrors t ≡ m ∷ []) × (m.remote_url ≡ url)
  unfolding set_push_mirror
  set_push_mirror-single caller repo url username password w t c host h =
      let (u, w1, valid, h1) = next-eq-ok (of_result (validate_mirror_remote s url) w) _ h in
      set_cleared caller repo url username password (is_empty username) (is_empty password) w1 t c
        host h1

  -- After the push mirrors of a repo are deleted successfully, it has none, where the client is that of
  -- a host which keeps a list of mirrors.
  delete_push_mirror-none :
      (caller repo : Text) (w t : R)
      → mirror_client_for s caller repo ≡ ok client
      → IsMirrorHost client mirrors
      → delete_push_mirror s caller repo w ≡ (ok tt, t)
      → mirrors t ≡ []
  unfolding delete_push_mirror
  delete_push_mirror-none caller repo w t c host h =
      let known = bind-ok (of_result (mirror_client_for s caller repo)) _ w (ap (λ r. (r, w)) c) in
      let (ms, w2, first, h2) = next-eq-ok (client.list_push_mirrors w) _ (sym known ∙ h) in
      delete_all client mirrors host w w2 t ms first h2
