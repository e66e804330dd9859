-- ===== src/Broker.antt =====
-- workspace/notification.go: NotificationBroker, the live delivery of notifications to the open streams
-- of a workspace. A channel is a place in the heap; the broker keeps the places of each workspace.
pub mod Sends
pub mod Sound
pub mod Cancels
pub mod Safe
use workspace_api.Base.{
  ℕ, suc, ltb, ◌==◌, Bool, true, false, not, ◌||◌, Option, none, some, List, [], ◌∷◌, ◌++◌, Text,
  length, has, keep, Map, lookup, insert, remove, or_else, Outcome, ok, err, and_then,
  if◌then◌else◌,
}
use workspace_api.Model.{Notification}

-- What Go does when a closed channel is sent to, or closed again.
pub data Panic : Type 0 where
  send_on_closed close_of_closed : Panic

pub record Channel : Type 0 where
  pub buffer : List Notification
  pub closed : Bool

abbrev pub Heap : Type 0
Heap = ℕ → Channel

pub record Broker : Type 0 where
  pub subs : Map (List ℕ)
  pub heap : Heap
  pub next_place : ℕ

abbrev pub at_place : ℕ → Channel → Heap → Heap
at_place i c heap = λ j. if i == j then c else heap j

abbrev pub is_member : ℕ → List ℕ → Bool
is_member i ids = has (λ j. i == j) ids

abbrev pub new_notification_broker : Broker
new_notification_broker = record {
  subs = [];
  heap = λ i. record { buffer = []; closed = false };
  next_place = 0;
}

abbrev pub channel_capacity : ℕ
channel_capacity = 16

unfoldable pub subscribe : Text → Broker → ℕ × Broker
unfolding lookup insert
subscribe slug b = (
  b.next_place,
  record b {
    subs = insert slug (b.next_place ∷ or_else (lookup slug b.subs) []) b.subs;
    heap = at_place b.next_place (record { buffer = []; closed = false }) b.heap;
    next_place = suc b.next_place;
  },
)

-- A send that does not block: a full channel drops the notification.
abbrev pub send : Notification → ℕ → Heap → Outcome Panic Heap
send n i heap =
    if (heap i).closed
    then err send_on_closed
    else if ltb (length (heap i).buffer) channel_capacity
    then ok (at_place i (record { buffer = (heap i).buffer ++ n ∷ []; closed = false }) heap)
    else ok heap

unfoldable pub send_all : Notification → List ℕ → Heap → Outcome Panic Heap
send_all n [] heap = ok heap
send_all n (i ∷ ids) heap = and_then (send n i heap) (send_all n ids)

unfoldable pub broadcast : Notification → Broker → Outcome Panic Broker
unfolding send_all lookup
broadcast n b =
    and_then (send_all n (or_else (lookup n.customer_slug b.subs) []) b.heap)
      λ heap. ok (record b { heap = heap })

abbrev pub close : ℕ → Heap → Outcome Panic Heap
close i heap =
    if (heap i).closed
    then err close_of_closed
    else ok (at_place i (record (heap i) { closed = true }) heap)

-- `if len(set) == 0 { delete(b.subs, customerSlug) }`
abbrev pub without_empty : Text → List ℕ → Map (List ℕ) → Map (List ℕ)
without_empty slug [] subs = remove slug subs
without_empty slug (i ∷ ids) subs = insert slug (i ∷ ids) subs

abbrev pub cancel_in : Text → ℕ → Option (List ℕ) → Broker → Outcome Panic Broker
cancel_in slug i none b = ok b
cancel_in slug i (some ids) b =
    if is_member i ids
    then (and_then (close i b.heap) λ heap.
        ok (record b {
          heap = heap;
          subs = without_empty slug (keep (λ j. not (i == j)) ids) b.subs;
        }))
    else ok (record b { subs = without_empty slug ids b.subs })

-- The cancel function that `Subscribe` returns for a place.
unfoldable pub cancel : Text → ℕ → Broker → Outcome Panic Broker
unfolding lookup insert remove has keep
cancel slug i b = cancel_in slug i (lookup slug b.subs) b
