-- ===== src/Tests/Broker.antt =====
-- workspace/notification.go: a browser that opens a stream, gets a notification and goes.
use workspace_api.Base.{
  ℕ, ◌≡◌, refl, true, false, List, [], ◌∷◌, Text, codes, lookup, none, ok, err,
}
use workspace_api.Model.{Notification, run_failed}
use workspace_api.Broker.{Broker, at_place, new_notification_broker, subscribe, broadcast}
use workspace_api.Broker.Sound.{start, subscribed, sent}
use workspace_api.Broker.Safe.{IsSafe, Reach-IsSafe}

abbrev failed : Notification
failed = record { customer_slug = codes "acme"; notice = run_failed; pipeline_id = codes "1" }

abbrev opened : Broker
opened = (subscribe (codes "acme") new_notification_broker).1

abbrev delivered : Broker
delivered = record opened {
  heap = at_place 0 (record { buffer = failed ∷ []; closed = false }) opened.heap;
}

delivery : broadcast failed opened ≡ ok delivered
unfolding broadcast subscribe workspace_api.Base.same
delivery = refl

Reach-IsSafe_example : IsSafe delivered failed (codes "acme") 0
Reach-IsSafe_example = Reach-IsSafe delivered failed (codes "acme") 0 (
    sent failed opened delivered (subscribed (codes "acme") new_notification_broker start) delivery)
