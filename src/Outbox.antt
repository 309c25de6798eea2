-- ===== src/Outbox.antt =====
-- src/popperpad/core/outbox.py: effects of commits that wait for delivery, and acknowledgements of
-- their delivery.
pub mod Tables
pub mod Held
pub mod Pending
pub mod Chain
pub mod Delivery
mod Examples
use popper_pad.Prelude.{
  ℕ, suc, ◌==◌, ◌&&◌, ◌||◌, ℤ, pos, negsuc, Bool, true, false, not, any, contains, is_nonempty,
  keep, map, Option, none, some, List, [], ◌∷◌, ◌++◌, String, ◌⊕◌, str_eq, str_nat, le_text,
  if◌then◌else◌,
}
use popper_pad.Values.{
  Json, null, bool, int, str, arr, obj, Items, nil, cons, Fields, end, field, dict,
}
use popper_pad.Values.Equality.{json_eq}
use popper_pad.Codec.{Crypto, json_hash}
use popper_pad.Sorting.{sort_by}
use popper_pad.Result.{Checked, refuse_when, ◌>>=◌, ◌>>◌, reason}
use popper_pad.Market.Types.{valid_ref}
use popper_pad.Market.Lookup.{find_by, replace_by}

pub record CommittedEffect : Type 0 where
  pub effect_id : String
  pub commit_record_hash : String
  pub kind : String
  pub payload : Json

pub record DeliveryAcknowledgement : Type 0 where
  pub effect_id : String
  pub commit_record_hash : String
  pub handler_id : String
  pub delivered_at : String
  pub delivery_receipt : Json
  pub previous_ack_hash : String
  pub ack_hash : String

pub record OutboxSnapshot : Type 0 where
  pub effects : List CommittedEffect
  pub acknowledgements : List DeliveryAcknowledgement

-- `==` of the two dataclasses.
unfoldable pub effect_eq : CommittedEffect → CommittedEffect → Bool
effect_eq a b =
    str_eq a.effect_id b.effect_id
    && (str_eq a.commit_record_hash b.commit_record_hash
        && (str_eq a.kind b.kind && json_eq a.payload b.payload))

unfoldable pub ack_eq : DeliveryAcknowledgement → DeliveryAcknowledgement → Bool
ack_eq a b =
    str_eq a.effect_id b.effect_id
    && (str_eq a.commit_record_hash b.commit_record_hash
        && (str_eq a.handler_id b.handler_id
            && (str_eq a.delivered_at b.delivered_at
                && (json_eq a.delivery_receipt b.delivery_receipt
                    && (str_eq a.previous_ack_hash b.previous_ack_hash
                        && str_eq a.ack_hash b.ack_hash)))))

abbrev pub effect_key : CommittedEffect → String
effect_key e = e.effect_id

abbrev pub ack_key : DeliveryAcknowledgement → String
ack_key a = a.effect_id

-- `entries[key(x)] = x`, for a dictionary as the list of its values.
unfoldable pub upsert {ℓ} : {A : Type ℓ} → (A → String) → List A → A → List A
upsert key xs x = if contains (map key xs) (key x) then replace_by key xs x else (xs ++ x ∷ [])

-- `previous is not None and previous != x`
abbrev pub conflicts {ℓ} : {A : Type ℓ} → (A → A → Bool) → Option A → A → Bool
conflicts eq none x = false
conflicts eq (some previous) x = not (eq previous x)

-- The first loop of `pending_outbox`.
unfoldable pub register :
    List CommittedEffect → List CommittedEffect → Checked (List CommittedEffect)
register table [] = Checked.ok table
register table (e ∷ es) = do
  refuse_when (not (valid_ref e.effect_id)) "INVALID_EFFECT_ID" (reason e.effect_id)
  refuse_when (not (valid_ref e.commit_record_hash)) "INVALID_COMMIT_RECORD_HASH"
      (reason e.commit_record_hash)
  refuse_when (not (is_nonempty e.kind)) "INVALID_EFFECT_KIND"
      (reason "effect kind must be non-empty")
  refuse_when (conflicts effect_eq (find_by effect_key table e.effect_id) e) "CONFLICTING_EFFECT_ID"
      (reason e.effect_id)
  register (upsert effect_key table e) es

-- The test that an acknowledgement names an effect of the table, and of the same commit.
unfoldable pub match_effect : List CommittedEffect → DeliveryAcknowledgement → Checked (Unit {0})
match_effect table a = elim (find_by effect_key table a.effect_id) [
  | none ↦ Checked.refused "ACK_FOR_UNKNOWN_EFFECT" (reason a.effect_id)
  | some e ↦
      refuse_when (not (str_eq a.commit_record_hash e.commit_record_hash)) "ACK_COMMIT_MISMATCH"
        (reason a.effect_id)
]

-- The second loop of `pending_outbox`.
unfoldable pub acknowledge :
    List CommittedEffect
    → List DeliveryAcknowledgement
    → List DeliveryAcknowledgement
    → Checked (List DeliveryAcknowledgement)
acknowledge table acked [] = Checked.ok acked
acknowledge table acked (a ∷ rest) = do
  refuse_when (not (valid_ref a.effect_id)) "INVALID_ACK_EFFECT_ID" (reason a.effect_id)
  match_effect table a
  refuse_when (conflicts ack_eq (find_by ack_key acked a.effect_id) a) "CONFLICTING_ACK"
      (reason a.effect_id)
  acknowledge table (upsert ack_key acked a) rest

-- The effects that `pending_outbox` returns, sorted by id.
abbrev pub unacknowledged :
    List CommittedEffect → List DeliveryAcknowledgement → List CommittedEffect
unacknowledged table acked =
    keep (λ e. not (contains (map ack_key acked) e.effect_id))
      (sort_by (λ a b. le_text a.effect_id b.effect_id) table)

unfoldable pub pending_outbox : OutboxSnapshot → Checked (List CommittedEffect)
pending_outbox snapshot = do
  table ← register [] snapshot.effects
  acked ← acknowledge table [] snapshot.acknowledgements
  Checked.ok (unacknowledged table acked)

-- `DeliveryAcknowledgement.core_json`
unfoldable pub core_json : DeliveryAcknowledgement → Json
core_json a = dict (
    ("schema", str "popperpad/outbox-ack/v1")
    ∷ ("effect_id", str a.effect_id)
    ∷ ("commit_record_hash", str a.commit_record_hash)
    ∷ ("handler_id", str a.handler_id)
    ∷ ("delivered_at", str a.delivered_at)
    ∷ ("delivery_receipt", a.delivery_receipt)
    ∷ ("previous_ack_hash", str a.previous_ack_hash)
    ∷ [])

-- `_valid_ref(value, optional=True)`
abbrev pub valid_head : String → Bool
valid_head value = not (is_nonempty value) || valid_ref value

-- The acknowledgement that `plan_acknowledgement` builds, with a given hash.
abbrev pub planned :
    CommittedEffect → String → String → Json → String → String → DeliveryAcknowledgement
planned e handler_id delivered_at delivery_receipt previous_ack_hash ack_hash = record {
  effect_id = e.effect_id;
  commit_record_hash = e.commit_record_hash;
  handler_id = handler_id;
  delivered_at = delivered_at;
  delivery_receipt = delivery_receipt;
  previous_ack_hash = previous_ack_hash;
  ack_hash = ack_hash;
}

module _ (crypto : Crypto) where
  unfoldable pub plan_acknowledgement :
      CommittedEffect → String → String → Json → String → Checked DeliveryAcknowledgement
  plan_acknowledgement e handler_id delivered_at delivery_receipt previous_ack_hash = do
    refuse_when (not (valid_ref e.effect_id)) "INVALID_EFFECT_ID" (reason e.effect_id)
    refuse_when (not (valid_ref e.commit_record_hash)) "INVALID_COMMIT_RECORD_HASH"
        (reason e.commit_record_hash)
    refuse_when (not (is_nonempty handler_id)) "INVALID_HANDLER_ID"
        (reason "handler_id must be non-empty")
    refuse_when (not (is_nonempty delivered_at)) "INVALID_DELIVERED_AT"
        (reason "delivered_at must be non-empty")
    refuse_when (not (valid_head previous_ack_hash)) "INVALID_ACK_HEAD" (reason previous_ack_hash)
    Checked.ok (
        planned e handler_id delivered_at delivery_receipt previous_ack_hash (
          json_hash crypto "outbox-ack/v1"
            (core_json (planned e handler_id delivered_at delivery_receipt previous_ack_hash ""))))

  -- The loop of `verify_ack_chain` from an index on: the last hash, and the acknowledgements by their
  -- effects.
  unfoldable pub verify_chain :
      ℕ → String → List DeliveryAcknowledgement → List DeliveryAcknowledgement → Checked (Unit {0})
  verify_chain index previous seen [] = Checked.ok tt
  verify_chain index previous seen (a ∷ rest) = do
    refuse_when (not (str_eq a.previous_ack_hash previous)) "ACK_CHAIN_PREDECESSOR_MISMATCH"
        (reason ("index=" ⊕ str_nat index))
    refuse_when (not (str_eq a.ack_hash (json_hash crypto "outbox-ack/v1" (core_json a))))
        "ACK_HASH_MISMATCH" (reason a.effect_id)
    refuse_when (conflicts ack_eq (find_by ack_key seen a.effect_id) a) "CONFLICTING_ACK"
        (reason a.effect_id)
    verify_chain (suc index) a.ack_hash (upsert ack_key seen a) rest

  unfoldable pub verify_ack_chain :
      List DeliveryAcknowledgement → Checked (List DeliveryAcknowledgement)
  verify_ack_chain acks = do _ ← verify_chain 0 "" [] acks; Checked.ok acks
