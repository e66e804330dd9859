-- ===== src/Broker/Sound.antt =====
-- workspace/notification.go: the states of a broker that its operations and its readers can reach.
use workspace_api.Base.{
  ℕ, suc, ◌==◌, ◌≤◌, ◌<◌, ◌≡◌, refl, ap, sym, subst, ◌∙◌, Bool, true, false, ◌||◌, ◌⊎◌, inl, inr,
  some, List, [], ◌∷◌, Text, same, same→eq, length, All, has, lookup, lookup-insert, or_else, ok,
  and_then, arith, if◌then◌else◌,
}
use workspace_api.Model.{Notification}
use workspace_api.Broker.{
  Channel, Heap, Broker, at_place, is_member, new_notification_broker, subscribe, broadcast, cancel,
}
use workspace_api.Broker.Sends.{IsFor, IsSent, send_all-IsSent, at_place-cases, ==-eq, ==-self}

-- The broker's operations, and a reader that takes the first notification from a channel. Each holds
-- the broker's lock, so they come one after the other.
pub data Reach : Broker → Type 0 where
  start : Reach new_notification_broker
  subscribed : (slug : Text) (b : Broker) → Reach b → Reach (subscribe slug b).1
  sent : (n : Notification) (b t : Broker) → Reach b → broadcast n b ≡ ok t → Reach t
  cancelled : (slug : Text) (i : ℕ) (b t : Broker) → Reach b → cancel slug i b ≡ ok t → Reach t
  received :
      (i : ℕ) (n : Notification) (rest : List Notification) (b : Broker)
      → Reach b
      → (b.heap i).buffer ≡ n ∷ rest
      → Reach (record b { heap = at_place i (record (b.heap i) { buffer = rest }) b.heap })

-- The place belongs to a subscriber of a workspace.
abbrev pub IsSubscriber : Broker → Text → ℕ → Type 0
IsSubscriber b slug i = is_member i (or_else (lookup slug b.subs) []) ≡ true

-- A subscriber's channel is open and holds the notifications of its own workspace only; nobody
-- subscribes for two; and no channel holds more than its capacity.
pub record IsSound (b : Broker) : Type 0 where
  pub known : (slug : Text) (i : ℕ) → IsSubscriber b slug i → i < b.next_place
  pub opened : (slug : Text) (i : ℕ) → IsSubscriber b slug i → (b.heap i).closed ≡ false
  pub own : (slug : Text) (i : ℕ) → IsSubscriber b slug i → All (IsFor slug) (b.heap i).buffer
  pub apart :
      (slug slug2 : Text) (i : ℕ) → IsSubscriber b slug i → IsSubscriber b slug2 i → slug ≡ slug2
  pub bounded : (i : ℕ) → length (b.heap i).buffer ≤ 16

pub no_subscriber : {A : Type 0} → false ≡ true → A
no_subscriber h = absurd (subst (λ b. if b then ⊥ else Unit {0}) h tt)

pub IsSound-start : IsSound new_notification_broker
unfolding lookup has
IsSound-start = record {
  known = λ slug i h. no_subscriber h;
  opened = λ slug i h. refl;
  own = λ slug i h. tt;
  apart = λ slug slug2 i h k. no_subscriber h;
  bounded = λ i. omega arith;
}

-- Who subscribes after a subscription: whoever did, and the new place for its workspace.
subscribe-parts :
    (slug slug2 : Text) (i : ℕ) (b : Broker)
    → IsSubscriber (subscribe slug b).1 slug2 i
    → IsSubscriber b slug2 i ⊎ ((i ≡ b.next_place) × (slug ≡ slug2))
unfolding subscribe has
subscribe-parts slug slug2 i b h =
    by_slug (same slug slug2) refl
      (rw (lookup-insert slug slug2 (b.next_place ∷ or_else (lookup slug b.subs) []) b.subs) at h)
  where
    by_place :
        (b1 : Bool)
        → (i == b.next_place) ≡ b1
        → slug ≡ slug2
        → (b1 || is_member i (or_else (lookup slug b.subs) [])) ≡ true
        → IsSubscriber b slug2 i ⊎ ((i ≡ b.next_place) × (slug ≡ slug2))
    by_place true e f k = inr (==-eq i b.next_place e, f)
    by_place false e f k = inl (subst (λ t. IsSubscriber b t i) f k)

    by_slug :
        (b1 : Bool)
        → same slug slug2 ≡ b1
        → is_member i (
            or_else
              (if b1
                then some (b.next_place ∷ or_else (lookup slug b.subs) [])
                else lookup slug2 b.subs)
              [])
          ≡ true
        → IsSubscriber b slug2 i ⊎ ((i ≡ b.next_place) × (slug ≡ slug2))
    by_slug true e k = by_place (i == b.next_place) refl (same→eq slug slug2 e) k
    by_slug false e k = inl k

apart_place : {A : Type 0} (i j : ℕ) → i ≡ j → (j == i) ≡ false → A
apart_place i j e h = no_subscriber (sym (subst (λ k. (k == i) ≡ false) (sym e) h) ∙ ==-self i)

not_known : {A : Type 0} (i n : ℕ) → i < n → i ≡ n → A
not_known i n h e = absurd (omega arith)

pub IsSound-subscribe : (slug : Text) (b : Broker) → IsSound b → IsSound (subscribe slug b).1
unfolding subscribe
IsSound-subscribe slug b s = record {
  known = λ slug2 i h. elim (subscribe-parts slug slug2 i b h) [
    | inl k ↦ below i (s.known slug2 i k)
    | inr k ↦ new i k.0
  ];
  opened = λ slug2 i h.
      at_place-cases (λ c. c.closed ≡ false) b.next_place i fresh b.heap (λ e. refl)
        (λ e. elim (subscribe-parts slug slug2 i b h) [
          | inl k ↦ s.opened slug2 i k
          | inr k ↦ apart_place i b.next_place k.0 e
        ]);
  own = λ slug2 i h.
      at_place-cases (λ c. All (IsFor slug2) c.buffer) b.next_place i fresh b.heap (λ e. tt)
        (λ e. elim (subscribe-parts slug slug2 i b h) [
          | inl k ↦ s.own slug2 i k
          | inr k ↦ apart_place i b.next_place k.0 e
        ]);
  apart = λ slug2 slug3 i h k.
      both slug2 slug3 i (subscribe-parts slug slug2 i b h) (subscribe-parts slug slug3 i b k);
  bounded = λ i.
      at_place-cases (λ c. length c.buffer ≤ 16) b.next_place i fresh b.heap (λ e. omega arith)
        (λ e. s.bounded i);
}
  where
    fresh : Channel
    fresh = record { buffer = []; closed = false }

    below : (i : ℕ) → i < b.next_place → i < suc b.next_place
    below i h = omega arith

    new : (i : ℕ) → i ≡ b.next_place → i < suc b.next_place
    new i h = omega arith

    both :
        (slug2 slug3 : Text) (i : ℕ)
        → IsSubscriber b slug2 i ⊎ ((i ≡ b.next_place) × (slug ≡ slug2))
        → IsSubscriber b slug3 i ⊎ ((i ≡ b.next_place) × (slug ≡ slug3))
        → slug2 ≡ slug3
    both slug2 slug3 i (inl h) (inl k) = s.apart slug2 slug3 i h k
    both slug2 slug3 i (inl h) (inr k) = not_known i b.next_place (s.known slug2 i h) k.0
    both slug2 slug3 i (inr h) (inl k) = not_known i b.next_place (s.known slug3 i k) h.0
    both slug2 slug3 i (inr h) (inr k) = sym h.1 ∙ k.1

-- What a broadcast leaves: the channels of a heap that it sent to.
pub broadcast-IsSent :
    (n : Notification) (b : Broker)
    → IsSound b
    → (heap : Heap) × (broadcast n b ≡ ok (record b { heap = heap }))
      × IsSent n (or_else (lookup n.customer_slug b.subs) []) b.heap heap
unfolding broadcast
broadcast-IsSent n b s =
    let (heap, done, is_sent) =
      send_all-IsSent n (or_else (lookup n.customer_slug b.subs) []) b.heap
        (s.opened n.customer_slug) in
    (heap, ap (λ r. and_then r (λ h. ok (record b { heap = h }))) done, is_sent)

pub IsSound-IsSent :
    (n : Notification) (b : Broker) (heap : Heap)
    → IsSound b
    → IsSent n (or_else (lookup n.customer_slug b.subs) []) b.heap heap
    → IsSound (record b { heap = heap })
IsSound-IsSent n b heap s done = record {
  known = s.known;
  opened = λ slug i h. done.same_closed i ∙ s.opened slug i h;
  own = λ slug i h.
      by_member slug i h (is_member i (or_else (lookup n.customer_slug b.subs) [])) refl;
  apart = s.apart;
  bounded = λ i. done.bounded i (s.bounded i);
}
  where
    by_member :
        (slug : Text) (i : ℕ)
        → IsSubscriber b slug i
        → (b1 : Bool) → is_member i (or_else (lookup n.customer_slug b.subs) []) ≡ b1
        → All (IsFor slug) (heap i).buffer
    by_member slug i h true e =
        let one = s.apart slug n.customer_slug i h e in
        subst (λ t. All (IsFor t) (heap i).buffer) (sym one)
          (done.content i (subst (λ t. All (IsFor t) (b.heap i).buffer) one (s.own slug i h)))
    by_member slug i h false e = subst (All (IsFor slug)) (sym (done.others i e)) (s.own slug i h)

pub IsSound-received :
    (i : ℕ) (n : Notification) (rest : List Notification) (b : Broker)
    → IsSound b
    → (b.heap i).buffer ≡ n ∷ rest
    → IsSound (record b { heap = at_place i (record (b.heap i) { buffer = rest }) b.heap })
IsSound-received i n rest b s e = record {
  known = s.known;
  opened = λ slug j h.
      at_place-cases (λ c. c.closed ≡ false) i j (record (b.heap i) { buffer = rest }) b.heap
        (λ k. subst (λ p. (b.heap p).closed ≡ false) (sym (==-eq i j k)) (s.opened slug j h))
        (λ k. s.opened slug j h);
  own = λ slug j h.
      at_place-cases (λ c. All (IsFor slug) c.buffer) i j (record (b.heap i) { buffer = rest })
        b.heap
        (λ k.
          tail slug
            (subst (λ p. All (IsFor slug) (b.heap p).buffer) (sym (==-eq i j k)) (s.own slug j h)))
        (λ k. s.own slug j h);
  apart = s.apart;
  bounded = λ j.
      at_place-cases (λ c. length c.buffer ≤ 16) i j (record (b.heap i) { buffer = rest }) b.heap
        (λ k. shorter (subst (λ xs. length xs ≤ 16) e (s.bounded i))) (λ k. s.bounded j);
}
  where
    tail : (slug : Text) → All (IsFor slug) (b.heap i).buffer → All (IsFor slug) rest
    tail slug h = (subst (All (IsFor slug)) e h).1

    shorter : length (n ∷ rest) ≤ 16 → length rest ≤ 16
    shorter h = omega arith
