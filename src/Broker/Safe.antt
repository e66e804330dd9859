-- ===== src/Broker/Safe.antt =====
-- workspace/notification.go: the broker in every state that it can reach.
use workspace_api.Base.{ℕ, ◌≡◌, refl, sym, subst, ◌∙◌, Text, lookup, ok, ok-inj}
use workspace_api.Model.{Notification}
use workspace_api.Broker.{Broker, broadcast, cancel}
use workspace_api.Broker.Sound.{
  Reach, start, subscribed, sent, cancelled, received, IsSound, IsSound-start, IsSound-subscribe,
  broadcast-IsSent, IsSound-IsSent, IsSound-received,
}
use workspace_api.Broker.Cancels.{cancel_in-IsSound}

broadcast-IsSound : (n : Notification) (b t : Broker) → IsSound b → broadcast n b ≡ ok t → IsSound t
broadcast-IsSound n b t s h =
    let (heap, done, is_sent) = broadcast-IsSent n b s in
    subst IsSound (ok-inj (sym done ∙ h)) (IsSound-IsSent n b heap s is_sent)

cancel-IsSound :
    (slug : Text) (i : ℕ) (b : Broker)
    → IsSound b
    → (t : Broker) × (cancel slug i b ≡ ok t) × IsSound t
unfolding cancel
cancel-IsSound slug i b s = cancel_in-IsSound slug i (lookup slug b.subs) b refl s

Reach-IsSound : {b : Broker} → Reach b → IsSound b
Reach-IsSound start = IsSound-start
Reach-IsSound (subscribed slug b r) = IsSound-subscribe slug b (Reach-IsSound r)
Reach-IsSound (sent n b t r h) = broadcast-IsSound n b t (Reach-IsSound r) h
Reach-IsSound (cancelled slug i b t r h) =
    let (u, done, s) = cancel-IsSound slug i b (Reach-IsSound r) in
    subst IsSound (ok-inj (sym done ∙ h)) s
Reach-IsSound (received i n rest b r e) = IsSound-received i n rest b (Reach-IsSound r) e

-- The state is sound, and neither a broadcast nor a cancel panics in it.
pub record IsSafe (b : Broker) (n : Notification) (slug : Text) (i : ℕ) : Type 0 where
  pub sound : IsSound b
  pub sends : (t : Broker) × (broadcast n b ≡ ok t)
  pub cancels : (t : Broker) × (cancel slug i b ≡ ok t)

-- In every state that subscriptions, broadcasts, cancels and readers can lead to, in any order, no
-- channel holds more than 16 notifications, a subscriber's channel is open, holds only notifications of
-- its own workspace and belongs to no second workspace, and neither a broadcast nor a cancel, of
-- whatever subscription and however often, sends to a closed channel or closes one again.
pub Reach-IsSafe :
    (b : Broker) (n : Notification) (slug : Text) (i : ℕ) → Reach b → IsSafe b n slug i
Reach-IsSafe b n slug i r =
    let s = Reach-IsSound r in
    let (heap, done, is_sent) = broadcast-IsSent n b s in
    let (u, gone, left) = cancel-IsSound slug i b s in
    record { sound = s; sends = (record b { heap = heap }, done); cancels = (u, gone) }
