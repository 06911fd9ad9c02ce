-- ===== src/Webhook/Delivery/Hazards.antt =====
-- What a credential that cannot be deciphered does to the worker.
use materials_manager.Base.{
  ℕ, ◌≤◌, ◌≡◌, refl, subst, sym, Option, none, some, true, List, [], ◌∷◌, arith, Option-cases, inl,
  inr, ap, ◌∙◌, ◌==◌, find, All, Text,
}
use materials_manager.Core.Calendar.{Time}
use materials_manager.Core.Errors.{ErrorCode, app_error, Failure, app}
use materials_manager.Core.Tx.{Result, Tx, err, pure}
use materials_manager.Core.Tx.Runs.{bind-ok, bind-err, gets-ok, or_key_error-some, or_raise-none}
use materials_manager.Model.Webhook.{WebhookChannel, WebhookDelivery}
use materials_manager.Model.Database.{Db}
use materials_manager.Webhook.Delivery.{
  ClaimedDelivery, Turn, is_claimable, first_claimable, decrypt_credential, claim_row,
  claim_delivery, after_claim, deliver_pending_once, run_worker,
}

first-above :
    (now : Time) (n : ℕ) (ds : List WebhookDelivery) (e : WebhookDelivery)
    → All (λ f. n ≤ f.id) ds
    → first_claimable now ds ≡ some e
    → n ≤ e.id
unfolding first_claimable
first-above now n [] e h k = cc
first-above now n (d ∷ ds) e h k = elim (Option-cases (first_claimable now ds)) [
  | inl c ↦ ground (arith, h.0)
  | inr (y, c) ↦ ground (arith, h.0, first-above now n ds y h.1 c)
]

-- A delivery that is due and has the smallest id is the one that is claimed.
first-head :
    (now : Time) (d : WebhookDelivery) (ds : List WebhookDelivery)
    → is_claimable now d ≡ true
    → All (λ e. d.id ≤ e.id) ds
    → first_claimable now (d ∷ ds) ≡ some d
unfolding first_claimable
first-head now d ds c h = elim (Option-cases (first_claimable now ds)) [
  | inl e ↦ rw (c, e) refl
  | inr (y, e) ↦ ground (arith, first-above now d.id ds y h e)
]

-- A delivery that is due, whose channel has an address that cannot be deciphered.
pub record IsPoison (decrypt : Text → Option Text) (now : Time) (d : WebhookDelivery) (db : Db)
    : Type 0 where
  pub due : is_claimable now d ≡ true
  pub channel : WebhookChannel
  pub of_channel : find (λ c. c.id == d.channel_id) db.webhook_channels ≡ some channel
  pub code : ℕ
  pub codes : Text
  pub address : channel.webhook_url_encrypted ≡ (code ∷ codes)
  pub undecryptable : decrypt (code ∷ codes) ≡ none

-- The error of `_decrypt`, with its status 503.
abbrev pub decrypt_failed : Failure
decrypt_failed = app (app_error ErrorCode.webhook_credential_decrypt_failed (some 503))

module _ (decrypt : Text → Option Text) where
  decrypt_credential-raises :
      (s : Text) (code : ℕ) (codes : Text) (db : Db)
      → s ≡ (code ∷ codes)
      → decrypt (code ∷ codes) ≡ none
      → decrypt_credential decrypt s db ≡ err decrypt_failed
  unfolding decrypt_credential
  decrypt_credential-raises s code codes db e h =
      subst (λ (t : Text). decrypt_credential decrypt t db ≡ err decrypt_failed) (sym e)
        (or_raise-none (decrypt (code ∷ codes)) _ db h)

  claim_row-raises :
      (now : Time) (d : WebhookDelivery) (db : Db)
      → IsPoison decrypt now d db
      → claim_row decrypt now d db ≡ err decrypt_failed
  unfolding claim_row
  claim_row-raises now d db p =
      bind-ok _ _ db _ db (gets-ok _ db)
      ∙ bind-ok _ _ db p.channel db (or_key_error-some _ p.channel db p.of_channel)
      ∙ bind-err _ _ db _ (
          decrypt_credential-raises p.channel.webhook_url_encrypted p.code p.codes db p.address
            p.undecryptable)

  claim_delivery-raises :
      (now : Time) (d : WebhookDelivery) (rest : List WebhookDelivery) (db : Db)
      → db.webhook_deliveries ≡ (d ∷ rest)
      → All (λ e. d.id ≤ e.id) rest
      → IsPoison decrypt now d db
      → claim_delivery decrypt now db ≡ err decrypt_failed
  unfolding claim_delivery
  claim_delivery-raises now d rest db table least p =
      let found : first_claimable now db.webhook_deliveries ≡ some d =
        ap (first_claimable now) table ∙ first-head now d rest p.due least in
      bind-ok _ _ db (first_claimable now db.webhook_deliveries) db (gets-ok _ db)
      ∙ ap
          (λ (o : Option WebhookDelivery).
            (elim o as (λ _. Tx Db (Option ClaimedDelivery)) [
              | none ↦ pure none
              | some e ↦ claim_row decrypt now e
            ])
              db)
          found
      ∙ claim_row-raises now d db p

  deliver_pending_once-raises :
      (turn : Turn) (db : Db)
      → claim_delivery decrypt turn.claimed_at db ≡ err decrypt_failed
      → (deliver_pending_once decrypt turn db).0 ≡ db
  unfolding deliver_pending_once after_claim
  deliver_pending_once-raises turn db e =
      ap (λ (r : Result (Option ClaimedDelivery × Db)). (after_claim decrypt turn db r).0) e

-- If the delivery with the smallest id is due at every turn and its channel's address cannot be
-- deciphered, then the worker never changes the database again, however many turns it takes: no
-- delivery of any other channel is sent.
pub run_worker-blocked :
    (decrypt : Text → Option Text) (turns : List Turn) (d : WebhookDelivery)
    (rest : List WebhookDelivery) (db : Db)
    → db.webhook_deliveries ≡ (d ∷ rest)
    → All (λ e. d.id ≤ e.id) rest
    → All (λ turn. IsPoison decrypt turn.claimed_at d db) turns
    → run_worker decrypt turns db ≡ db
unfolding run_worker
run_worker-blocked decrypt [] d rest db table least p = refl
run_worker-blocked decrypt (turn ∷ turns) d rest db table least p =
    ap (run_worker decrypt turns) (
      deliver_pending_once-raises decrypt turn db
        (claim_delivery-raises decrypt turn.claimed_at d rest db table least p.0))
    ∙ run_worker-blocked decrypt turns d rest db table least p.1
