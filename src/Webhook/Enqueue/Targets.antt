-- ===== src/Webhook/Enqueue/Targets.antt =====
-- Which deliveries `enqueue_event` adds.
use materials_manager.Base.{
  ℕ, suc, ◌+◌, ◌≡◌, refl, ap, ◌∙◌, sym, Bool, true, false, List, [], ◌∷◌, ◌++◌, ◌==◌, ◌||◌, ◌&&◌,
  any, map, keep, keep-ext, length, All,
}
use materials_manager.Core.Enums.{WebhookEventType, WebhookDeliveryStatus}
use materials_manager.Core.Tx.{ok, modify}
use materials_manager.Model.Webhook.{WebhookChannel, WebhookDelivery, EventData}
use materials_manager.Model.Database.{Db, Env}
use materials_manager.Webhook.Enqueue.{
  event_eq, new_delivery, new_deliveries, subscribed, enqueue_event,
}

-- The events, numbered.
abbrev pub event_no : WebhookEventType → ℕ
event_no WebhookEventType.stock_outbound_created = 1
event_no WebhookEventType.stock_inbound_created = 2
event_no WebhookEventType.mini_program_user_bound = 3

abbrev pub is_listed : ℕ → List WebhookEventType → Bool
is_listed n [] = false
is_listed n (e ∷ es) = n == event_no e || is_listed n es

-- A channel that is enabled and lists the event.
abbrev pub is_target : WebhookEventType → WebhookChannel → Bool
is_target event_type channel = elim channel.enabled [
  | true ↦ is_listed (event_no event_type) channel.subscribed_events
  | false ↦ false
]

event_eq-no : (a b : WebhookEventType) → event_eq a b ≡ (event_no a == event_no b)
event_eq-no WebhookEventType.stock_outbound_created WebhookEventType.stock_outbound_created = refl
event_eq-no WebhookEventType.stock_outbound_created WebhookEventType.stock_inbound_created = refl
event_eq-no WebhookEventType.stock_outbound_created WebhookEventType.mini_program_user_bound = refl
event_eq-no WebhookEventType.stock_inbound_created WebhookEventType.stock_outbound_created = refl
event_eq-no WebhookEventType.stock_inbound_created WebhookEventType.stock_inbound_created = refl
event_eq-no WebhookEventType.stock_inbound_created WebhookEventType.mini_program_user_bound = refl
event_eq-no WebhookEventType.mini_program_user_bound WebhookEventType.stock_outbound_created = refl
event_eq-no WebhookEventType.mini_program_user_bound WebhookEventType.stock_inbound_created = refl
event_eq-no WebhookEventType.mini_program_user_bound WebhookEventType.mini_program_user_bound = refl

any-listed :
    (event_type : WebhookEventType) (es : List WebhookEventType)
    → any (event_eq event_type) es ≡ is_listed (event_no event_type) es
any-listed event_type [] = refl
any-listed event_type (e ∷ es) =
    ap (λ (b : Bool). b || any (event_eq event_type) es) (event_eq-no event_type e)
    ∙ ap (λ (b : Bool). event_no event_type == event_no e || b) (any-listed event_type es)

subscribed-target :
    (event_type : WebhookEventType) (channel : WebhookChannel)
    → subscribed event_type channel ≡ is_target event_type channel
unfolding subscribed
subscribed-target event_type channel =
    rest channel.enabled (any-listed event_type channel.subscribed_events)
  where
    rest :
        {x y : Bool} (on : Bool)
        → x ≡ y
        → (on && x) ≡ (elim on as (λ _. Bool) [ true ↦ y | false ↦ false ])
    rest true e = e
    rest false e = refl

-- A delivery that waits for its first attempt and carries the event.
pub record IsFresh (env : Env) (event_type : WebhookEventType) (contents : EventData)
    (d : WebhookDelivery) : Type 0 where
  pub waits : d.status ≡ WebhookDeliveryStatus.pending
  pub untried : d.attempts ≡ 0
  pub due : d.next_retry_at ≡ env.now
  pub of_event : d.event_id ≡ env.event_id
  pub of_type : d.event_type ≡ event_type
  pub carries_id : d.payload.event_id ≡ env.event_id
  pub carries_type : d.payload.event_type ≡ event_type
  pub carries_time : d.payload.occurred_at ≡ env.now
  pub carries : d.payload.contents ≡ contents

module _ (env : Env) (event_type : WebhookEventType) (contents : EventData) where
  new_deliveries-channels :
      (id : ℕ) (channels : List WebhookChannel)
      → map (λ d. d.channel_id) (new_deliveries env event_type contents id channels)
        ≡ map (λ c. c.id) channels
  unfolding new_deliveries new_delivery
  new_deliveries-channels id [] = refl
  new_deliveries-channels id (c ∷ cs) = ap (◌∷◌ c.id) (new_deliveries-channels (suc id) cs)

  length-new_deliveries :
      (id : ℕ) (channels : List WebhookChannel)
      → length (new_deliveries env event_type contents id channels) ≡ length channels
  unfolding new_deliveries new_delivery
  length-new_deliveries id [] = refl
  length-new_deliveries id (c ∷ cs) = ap suc (length-new_deliveries (suc id) cs)

  new_deliveries-IsFresh :
      (id : ℕ) (channels : List WebhookChannel)
      → All (IsFresh env event_type contents) (new_deliveries env event_type contents id channels)
  unfolding new_deliveries new_delivery
  new_deliveries-IsFresh id [] = tt
  new_deliveries-IsFresh id (c ∷ cs) = (
    record {
      waits = refl;
      untried = refl;
      due = refl;
      of_event = refl;
      of_type = refl;
      carries_id = refl;
      carries_type = refl;
      carries_time = refl;
      carries = refl;
    },
    new_deliveries-IsFresh (suc id) cs,
  )

-- An event adds exactly one delivery for each channel that is enabled and lists it, in the order of the
-- channels, after the earlier ones, which are kept. Each waits for its first attempt, is due at once, and
-- carries the id, the type, the time and the contents of the event; the counter of the deliveries goes up
-- by their number.
pub enqueue_event-targets :
    (env : Env) (event_type : WebhookEventType) (contents : EventData) (db : Db)
    → (added : List WebhookDelivery) × (map (λ d. d.channel_id) added
        ≡ map (λ c. c.id) (keep (is_target event_type) db.webhook_channels))
      × All (IsFresh env event_type contents) added
      × (db' : Db) × (enqueue_event env event_type contents db ≡ ok (tt, db'))
      × (db'.webhook_deliveries ≡ db.webhook_deliveries ++ added)
      × (db'.next_delivery_id ≡ db.next_delivery_id + length added)
unfolding enqueue_event modify
enqueue_event-targets env event_type contents db =
    let targets = keep (subscribed event_type) db.webhook_channels in
    let added = new_deliveries env event_type contents db.next_delivery_id targets in
    let wanted =
      keep-ext (subscribed event_type) (is_target event_type) db.webhook_channels
        (subscribed-target event_type) in
    (
      added,
      new_deliveries-channels env event_type contents db.next_delivery_id targets
          ∙ ap (λ (cs : List WebhookChannel). map (λ c. c.id) cs) wanted,
      new_deliveries-IsFresh env event_type contents db.next_delivery_id targets,
      _,
      refl,
      refl,
      ap (λ (n : ℕ). db.next_delivery_id + n)
          (sym (length-new_deliveries env event_type contents db.next_delivery_id targets)),
    )
