-- ===== src/Broker/Cancels.antt =====
-- workspace/notification.go: what a cancelled subscription leaves.
use workspace_api.Base.{
  ℕ, ◌==◌, ◌≤◌, ◌≡◌, refl, ap, sym, subst, ◌∙◌, Bool, true, false, not, ◌||◌, Option, none, some,
  List, [], ◌∷◌, Text, same, same→eq, same_refl, length, All, has, keep, Map, lookup, lookup-insert,
  lookup-remove, or_else, ok, if◌then◌else◌,
}
use workspace_api.Broker.{Channel, Heap, Broker, at_place, is_member, without_empty, cancel_in}
use workspace_api.Broker.Sends.{IsFor, at_place-cases, ==-eq, or_true}
use workspace_api.Broker.Sound.{IsSubscriber, IsSound, no_subscriber}

-- Who is in a set that was put back, or removed when it is empty.
lookup-without_empty :
    (slug slug2 : Text) (ids : List ℕ) (subs : Map (List ℕ))
    → or_else (lookup slug2 (without_empty slug ids subs)) []
      ≡ (if same slug slug2 then ids else or_else (lookup slug2 subs) [])
lookup-without_empty slug slug2 [] subs =
    ap (λ o. or_else o []) (lookup-remove slug slug2 subs) ∙ by_test (same slug slug2)
  where
    by_test :
        (b : Bool)
        → or_else (if b then none else lookup slug2 subs) []
          ≡ (if b then [] else or_else (lookup slug2 subs) [])
    by_test true = refl
    by_test false = refl
lookup-without_empty slug slug2 (i ∷ ids) subs =
    ap (λ o. or_else o []) (lookup-insert slug slug2 (i ∷ ids) subs) ∙ by_test (same slug slug2)
  where
    by_test :
        (b : Bool)
        → or_else (if b then some (i ∷ ids) else lookup slug2 subs) []
          ≡ (if b then i ∷ ids else or_else (lookup slug2 subs) [])
    by_test true = refl
    by_test false = refl

member-keep :
    (i j : ℕ) (ids : List ℕ)
    → is_member j (keep (λ k. not (i == k)) ids) ≡ true
    → (is_member j ids ≡ true) × ((i == j) ≡ false)
unfolding keep has
member-keep i j [] h = no_subscriber h
member-keep i j (k ∷ ids) h = by_test (i == k) refl h (member-keep i j ids)
  where
    by_test :
        (b : Bool)
        → (i == k) ≡ b
        → is_member j
            (if not b then k ∷ keep (λ k. not (i == k)) ids else keep (λ k. not (i == k)) ids)
          ≡ true
        → (is_member j (keep (λ k. not (i == k)) ids) ≡ true
            → (is_member j ids ≡ true) × ((i == j) ≡ false))
        → (((j == k) || is_member j ids) ≡ true) × ((i == j) ≡ false)
    by_test true e m ih =
        let (listed, other) = ih m in (or_true (j == k) (is_member j ids) listed, other)
    by_test false e m ih = by_place (j == k) refl m
      where
        by_place :
            (b2 : Bool)
            → (j == k) ≡ b2
            → (b2 || is_member j (keep (λ k. not (i == k)) ids)) ≡ true
            → ((b2 || is_member j ids) ≡ true) × ((i == j) ≡ false)
        by_place true f m2 = (refl, subst (λ p. (i == p) ≡ false) (sym (==-eq j k f)) e)
        by_place false f m2 = ih m2

-- With fewer subscribers, whose channels are as they were, a broker stays sound.
IsSound-fewer :
    (b : Broker) (subs : Map (List ℕ)) (heap : Heap)
    → IsSound b
    → ((slug : Text) (j : ℕ)
        → is_member j (or_else (lookup slug subs) []) ≡ true
        → IsSubscriber b slug j × (heap j ≡ b.heap j))
    → ((j : ℕ) → length (heap j).buffer ≤ 16)
    → IsSound (record b { subs = subs; heap = heap })
IsSound-fewer b subs heap s kept room = record {
  known = λ slug i h. s.known slug i (kept slug i h).0;
  opened = λ slug i h.
      ap (λ (c : Channel). c.closed) (kept slug i h).1 ∙ s.opened slug i (kept slug i h).0;
  own = λ slug i h.
      subst (λ (c : Channel). All (IsFor slug) c.buffer) (sym (kept slug i h).1)
        (s.own slug i (kept slug i h).0);
  apart = λ slug slug2 i h k. s.apart slug slug2 i (kept slug i h).0 (kept slug2 i k).0;
  bounded = room;
}

pub cancel_in-IsSound :
    (slug : Text) (i : ℕ) (o : Option (List ℕ)) (b : Broker)
    → lookup slug b.subs ≡ o
    → IsSound b
    → (t : Broker) × (cancel_in slug i o b ≡ ok t) × IsSound t
cancel_in-IsSound slug i none b e s = (b, refl, s)
cancel_in-IsSound slug i (some ids) b e s = by_member (is_member i ids) refl
  where
    in_set : (j : ℕ) → is_member j ids ≡ true → IsSubscriber b slug j
    in_set j m = subst (λ o. is_member j (or_else o []) ≡ true) (sym e) m

    left : List ℕ
    left = keep (λ j. not (i == j)) ids

    shut : Heap
    shut = at_place i (record (b.heap i) { closed = true }) b.heap

    untouched : (j : ℕ) → (i == j) ≡ false → shut j ≡ b.heap j
    untouched j k = rw k refl

    still :
        (slug2 : Text) (j : ℕ) (b1 : Bool)
        → same slug slug2 ≡ b1
        → is_member j (if b1 then ids else or_else (lookup slug2 b.subs) []) ≡ true
        → IsSubscriber b slug2 j × (b.heap j ≡ b.heap j)
    still slug2 j true k m =
        (subst (λ t. IsSubscriber b t j) (same→eq slug slug2 k) (in_set j m), refl)
    still slug2 j false k m = (m, refl)

    leaving :
        (slug2 : Text) (j : ℕ) (b1 : Bool)
        → is_member i ids ≡ true
        → same slug slug2 ≡ b1
        → is_member j (if b1 then left else or_else (lookup slug2 b.subs) []) ≡ true
        → IsSubscriber b slug2 j × (shut j ≡ b.heap j)
    leaving slug2 j true member k m =
        let (listed, other) = member-keep i j ids m in
        (
          subst (λ t. IsSubscriber b t j) (same→eq slug slug2 k) (in_set j listed),
          untouched j other,
        )
    leaving slug2 j false member k m = (m, untouched j (differs (i == j) refl))
      where
        differs : (b2 : Bool) → (i == j) ≡ b2 → b2 ≡ false
        differs false f = refl
        differs true f = no_subscriber (
            sym k
            ∙ (ap (same slug) (
                  sym (
                    s.apart slug slug2 j
                      (subst (IsSubscriber b slug) (==-eq i j f) (in_set i member)) m))
                ∙ same_refl slug))

    by_member :
        (b1 : Bool)
        → is_member i ids ≡ b1
        → (t : Broker) × (cancel_in slug i (some ids) b ≡ ok t) × IsSound t
    by_member false m = (
      record b { subs = without_empty slug ids b.subs },
      rw m refl,
      IsSound-fewer b (without_empty slug ids b.subs) b.heap s
          (λ slug2 j h.
            still slug2 j (same slug slug2) refl
              (subst (λ xs. is_member j xs ≡ true) (lookup-without_empty slug slug2 ids b.subs) h))
          s.bounded,
    )
    by_member true m = (
      record b { heap = shut; subs = without_empty slug left b.subs },
      rw (m, s.opened slug i (in_set i m)) refl,
      IsSound-fewer b (without_empty slug left b.subs) shut s
          (λ slug2 j h.
            leaving slug2 j (same slug slug2) m refl
              (subst (λ xs. is_member j xs ≡ true) (lookup-without_empty slug slug2 left b.subs) h))
          (λ j.
            at_place-cases (λ c. length c.buffer ≤ 16) i j (record (b.heap i) { closed = true })
              b.heap (λ k. s.bounded i) (λ k. s.bounded j)),
    )
