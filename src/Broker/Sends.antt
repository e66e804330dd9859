-- ===== src/Broker/Sends.antt =====
-- workspace/notification.go: what a broadcast does to the channels.
use workspace_api.Base.{
  ℕ, ◌+◌, ltb, ◌==◌, ◌≤◌, ◌≡◌, refl, ap, sym, subst, ◌∙◌, Bool, true, false, ◌||◌, List, [], ◌∷◌,
  ◌++◌, Text, length, length-append, All, has, ok, and_then, arith, if◌then◌else◌,
}
use workspace_api.Model.{Notification}
use workspace_api.Broker.{Channel, Heap, at_place, is_member, send, send_all}

abbrev pub IsFor : Text → Notification → Type 0
IsFor slug n = n.customer_slug ≡ slug

-- Between two heaps, a notification was sent to some places.
pub record IsSent (n : Notification) (ids : List ℕ) (heap heap' : Heap) : Type 0 where
  pub same_closed : (j : ℕ) → (heap' j).closed ≡ (heap j).closed
  pub others : (j : ℕ) → is_member j ids ≡ false → (heap' j).buffer ≡ (heap j).buffer
  pub bounded : (j : ℕ) → length (heap j).buffer ≤ 16 → length (heap' j).buffer ≤ 16
  pub content :
      (j : ℕ)
      → All (IsFor n.customer_slug) (heap j).buffer
      → All (IsFor n.customer_slug) (heap' j).buffer

All-append_one :
    (P : Notification → Type 0) (xs : List Notification) (n : Notification)
    → All P xs
    → P n
    → All P (xs ++ n ∷ [])
All-append_one P [] n h p = (p, tt)
All-append_one P (x ∷ xs) n h p = (h.0, All-append_one P xs n h.1 p)

pub ==-eq : (i j : ℕ) → (i == j) ≡ true → i ≡ j
==-eq i j h = ground arith

pub ==-self : (i : ℕ) → (i == i) ≡ true
==-self i = ground arith

pub ==-sym : (i j : ℕ) → (i == j) ≡ (j == i)
==-sym i j = ground arith

pub or_false : (a b : Bool) → (a || b) ≡ false → (a ≡ false) × (b ≡ false)
or_false true b h = cc
or_false false b h = (refl, h)

pub or_true : (a b : Bool) → b ≡ true → (a || b) ≡ true
or_true true b h = refl
or_true false b h = h

-- What holds of the channel that is put and of the others, by the place that is asked for.
pub at_place-cases :
    (P : Channel → Type 0) (i j : ℕ) (c : Channel) (heap : Heap)
    → ((i == j) ≡ true → P c)
    → ((i == j) ≡ false → P (heap j))
    → P (at_place i c heap j)
at_place-cases P i j c heap here there = by_test (i == j) refl
  where
    by_test : (b : Bool) → (i == j) ≡ b → P (if b then c else heap j)
    by_test true e = here e
    by_test false e = there e

has_room : (m : ℕ) → ltb m 16 ≡ true → m + 1 ≤ 16
has_room m h = ground arith

member_apart : (i j : ℕ) → (i == j) ≡ true → is_member j (i ∷ []) ≡ false → ⊥
unfolding has
member_apart i j k h =
    subst (λ b. if b then Unit {0} else ⊥) (sym k ∙ (==-sym i j ∙ (or_false (j == i) false h).0)) tt

send-IsSent :
    (n : Notification) (i : ℕ) (heap : Heap)
    → (heap i).closed ≡ false
    → (heap' : Heap) × (send n i heap ≡ ok heap') × IsSent n (i ∷ []) heap heap'
send-IsSent n i heap opened = by_room (ltb (length (heap i).buffer) 16) refl
  where
    grown : Channel
    grown = record { buffer = (heap i).buffer ++ n ∷ []; closed = false }

    here : (j : ℕ) → (i == j) ≡ true → (P : Channel → Type 0) → P (heap j) → P (heap i)
    here j e P h = subst (λ k. P (heap k)) (sym (==-eq i j e)) h

    by_room :
        (b : Bool)
        → ltb (length (heap i).buffer) 16 ≡ b
        → (heap' : Heap) × (send n i heap ≡ ok heap') × IsSent n (i ∷ []) heap heap'
    by_room false e = (
      heap,
      rw (opened, e) refl,
      record {
        same_closed = λ j. refl;
        others = λ j h. refl;
        bounded = λ j h. h;
        content = λ j h. h;
      },
    )
    by_room true e = (
      at_place i grown heap,
      rw (opened, e) refl,
      record {
        same_closed = λ j.
            at_place-cases (λ c. c.closed ≡ (heap j).closed) i j grown heap
              (λ k. sym (subst (λ p. (heap p).closed ≡ false) (==-eq i j k) opened)) (λ k. refl);
        others = λ j h.
            at_place-cases (λ c. c.buffer ≡ (heap j).buffer) i j grown heap
              (λ k. absurd (member_apart i j k h)) (λ k. refl);
        bounded = λ j h.
            at_place-cases (λ c. length c.buffer ≤ 16) i j grown heap
              (λ k.
                subst (λ m. m ≤ 16) (sym (length-append (heap i).buffer (n ∷ [])))
                  (has_room (length (heap i).buffer) e))
              (λ k. h);
        content = λ j h.
            at_place-cases (λ c. All (IsFor n.customer_slug) c.buffer) i j grown heap
              (λ k.
                All-append_one (IsFor n.customer_slug) (heap i).buffer n
                  (here j k (λ c. All (IsFor n.customer_slug) c.buffer) h) refl)
              (λ k. h);
      },
    )

IsSent-trans :
    (n : Notification) (i : ℕ) (ids : List ℕ) (a b c : Heap)
    → IsSent n (i ∷ []) a b
    → IsSent n ids b c
    → IsSent n (i ∷ ids) a c
unfolding has
IsSent-trans n i ids a b c p q = record {
  same_closed = λ j. q.same_closed j ∙ p.same_closed j;
  others = λ j h.
      let (head, tail) = or_false (j == i) (is_member j ids) h in
      q.others j tail ∙ p.others j (rw head refl);
  bounded = λ j h. q.bounded j (p.bounded j h);
  content = λ j h. q.content j (p.content j h);
}

pub send_all-IsSent :
    (n : Notification) (ids : List ℕ) (heap : Heap)
    → ((j : ℕ) → is_member j ids ≡ true → (heap j).closed ≡ false)
    → (heap' : Heap) × (send_all n ids heap ≡ ok heap') × IsSent n ids heap heap'
unfolding send_all has
send_all-IsSent n [] heap opened = (
  heap,
  refl,
  record { same_closed = λ j. refl; others = λ j h. refl; bounded = λ j h. h; content = λ j h. h },
)
send_all-IsSent n (i ∷ ids) heap opened =
    let (h1, first, sent1) = send-IsSent n i heap (opened i (rw (==-self i) refl)) in
    let (h2, rest, sent2) =
      send_all-IsSent n ids h1
        (λ j m. sent1.same_closed j ∙ opened j (or_true (j == i) (is_member j ids) m)) in
    (
      h2,
      ap (λ r. and_then r (send_all n ids)) first ∙ rest,
      IsSent-trans n i ids heap h1 h2 sent1 sent2,
    )
