-- ===== src/Scheduler/Dispatch/Settled.antt =====
-- What a dispatch leaves in the queue.
use agenstfer_agi.Base.{
  String, ◌≡◌, refl, ◌⊎◌, Bool, true, false, Option, none, some, List, [], ◌∷◌, ok, err, Bool-cases,
  inl, inr, if◌then◌else◌,
}
use agenstfer_agi.Registry.Rows.{WorkflowDefinitionRow, is_published}
use agenstfer_agi.Events.{EventInbox, EventDispatchQueue, is_queued}
use agenstfer_agi.Runtime.Tables.{Tables}
use agenstfer_agi.Runtime.Start.{StartError, Started}
use agenstfer_agi.Runtime.Start.Service.{StartService}
use agenstfer_agi.Scheduler.Dispatch.{after_start, send, send_queued, dispatch_queued_events}

-- The item is not queued any more, and was left alone if it was not queued.
abbrev Settles : EventDispatchQueue → EventDispatchQueue → Type 0
Settles item item' =
    (is_queued item'.status ≡ false)
    × (item'.id ≡ item.id)
    × (item'.event_id ≡ item.event_id)
    × ((is_queued item.status ≡ true) ⊎ (item' ≡ item))

abbrev pub AllSettle : List EventDispatchQueue → List EventDispatchQueue → Type 0
AllSettle [] [] = Unit
AllSettle (item ∷ items) (item' ∷ items') = Settles item item' × AllSettle items items'
AllSettle _ _ = ⊥

module _ (error_text : StartError → String) (service : StartService) (inbox : List EventInbox) where
  after_start-Settles :
      (item : EventDispatchQueue) (x : Started)
      → is_queued item.status ≡ true
      → Settles item (after_start error_text item x).1
  unfolding after_start is_queued
  after_start-Settles item (db, ok run) q = (refl, refl, refl, inl q)
  after_start-Settles item (db, err e) q = (refl, refl, refl, inl q)

  send-Settles :
      (item : EventDispatchQueue) (o : Option WorkflowDefinitionRow) (db : Tables)
      → is_queued item.status ≡ true
      → Settles item (send error_text service inbox item o db).1
  unfolding send is_queued
  send-Settles item none db q = (refl, refl, refl, inl q)
  send-Settles item (some w) db q = elim (Bool-cases (is_published w.status)) [
    | inl e ↦ rw e (after_start-Settles item _ q)
    | inr e ↦ rw e (refl, refl, refl, inl q)
  ]

  sent_if-Settles :
      (item : EventDispatchQueue) (b : Bool) (o : Option WorkflowDefinitionRow) (db : Tables)
      → is_queued item.status ≡ b
      → Settles item (if b then send error_text service inbox item o db else (db, item, [])).1
  sent_if-Settles item true o db q = send-Settles item o db q
  sent_if-Settles item false o db q = (q, refl, refl, inr refl)

  send_queued-Settles :
      (item : EventDispatchQueue) (db : Tables)
      → Settles item (send_queued error_text service inbox item db).1
  unfolding send_queued
  send_queued-Settles item db = sent_if-Settles item (is_queued item.status) _ db refl

  -- Dispatching ends with an item for each item of the queue, of the same event, none of them
  -- queued; the items that were not queued are as they were.
  pub dispatch_settles :
      (items : List EventDispatchQueue) (db : Tables)
      → AllSettle items (dispatch_queued_events error_text service inbox items db).1
  unfolding dispatch_queued_events
  dispatch_settles [] db = tt
  dispatch_settles (item ∷ items) db =
      let first = send_queued error_text service inbox item db in
      (send_queued-Settles item db, dispatch_settles items first.0)
