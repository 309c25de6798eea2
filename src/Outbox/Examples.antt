-- ===== src/Outbox/Examples.antt =====
-- The theorems on the outbox at one notice and its acknowledgement.
use popper_pad.Prelude.{◌≡◌, refl, [], ◌∷◌, true, false, any, some, str_eq}
use popper_pad.Values.{null, bool, int, dict}
use popper_pad.Prelude.{pos}
use popper_pad.Values.Equality.{json_eq}
use popper_pad.Codec.{json_bytes, frame_bytes, sha256_bytes, frame_sha256, json_hash}
use popper_pad.Sorting.{sort_by, insert_by}
use popper_pad.Result.{Checked, refuse_when, ◌>>=◌, ◌>>◌}
use popper_pad.Market.Types.{valid_ref}
use popper_pad.Market.Lookup.{find_by, replace_by}
use popper_pad.Market.Samples.{plain, ref}
use popper_pad.Outbox.{
  CommittedEffect, DeliveryAcknowledgement, OutboxSnapshot, effect_eq, ack_eq, upsert, register,
  match_effect, acknowledge, pending_outbox, core_json, planned, plan_acknowledgement, verify_chain,
  verify_ack_chain,
}
use popper_pad.Outbox.Pending.{IsPending, pending_outbox-IsPending}
use popper_pad.Outbox.Chain.{
  IsChain, verify_ack_chain-IsChain, verify_ack_chain-plan_acknowledgement,
}
use popper_pad.Outbox.Delivery.{with_ack, without, pending_outbox-plan_acknowledgement}

abbrev notice : CommittedEffect
unfolding dict
notice = record { effect_id = ref; commit_record_hash = ref; kind = "notify"; payload = dict [] }

abbrev other : CommittedEffect
unfolding dict
other = record {
  effect_id = "sha256:1123456789abcdef0123456789abcdef0123456789abcdef0123456789abcdef";
  commit_record_hash = ref;
  kind = "notify";
  payload = dict [];
}

abbrev delivery : DeliveryAcknowledgement
delivery = planned notice "mailer" "2026-01-01" null "" ref

abbrev second : DeliveryAcknowledgement
second = planned other "mailer" "2026-01-02" null ref ref

abbrev snapshot : OutboxSnapshot
snapshot = record { effects = other ∷ notice ∷ other ∷ []; acknowledgements = [] }

unfoldable steps : Unit {0}
unfolding valid_ref find_by replace_by sort_by insert_by str_eq refuse_when ◌>>=◌ ◌>>◌ upsert
    json_eq effect_eq ack_eq register match_effect acknowledge pending_outbox core_json
    plan_acknowledgement verify_chain verify_ack_chain dict json_bytes frame_bytes sha256_bytes
    frame_sha256 json_hash
steps = tt

both_pending : pending_outbox snapshot ≡ Checked.ok (notice ∷ other ∷ [])
unfolding steps
both_pending = refl

delivery-planned :
    plan_acknowledgement plain notice "mailer" "2026-01-01" null "" ≡ Checked.ok delivery
unfolding steps
delivery-planned = refl

second-planned : plan_acknowledgement plain other "mailer" "2026-01-02" null ref ≡ Checked.ok second
unfolding steps
second-planned = refl

chain-verified : verify_ack_chain plain (delivery ∷ []) ≡ Checked.ok (delivery ∷ [])
unfolding steps
chain-verified = refl

found_effect : find_by (λ e. e.effect_id) (notice ∷ other ∷ []) notice.effect_id ≡ some notice
unfolding steps
found_effect = refl

unnamed : any (λ x. str_eq other.effect_id x.effect_id) (delivery ∷ []) ≡ false
unfolding steps
unnamed = refl

-- Two effects whose payloads differ by `True` and `1` pass as one, and the later stays.
duplicate_replaced :
    pending_outbox (record {
      effects =
          record notice { payload = dict (("paid", bool true) ∷ []) }
          ∷ record notice { payload = dict (("paid", int (pos 1)) ∷ []) }
          ∷ [];
      acknowledgements = [];
    })
    ≡ Checked.ok (record notice { payload = dict (("paid", int (pos 1)) ∷ []) } ∷ [])
unfolding steps
duplicate_replaced = refl

pending_outbox-IsPending_example : IsPending snapshot (notice ∷ other ∷ [])
pending_outbox-IsPending_example =
    pending_outbox-IsPending snapshot (notice ∷ other ∷ []) both_pending

verify_ack_chain-IsChain_example :
    IsChain plain "" (delivery ∷ []) × ((delivery ∷ []) ≡ (delivery ∷ []))
verify_ack_chain-IsChain_example =
    verify_ack_chain-IsChain plain (delivery ∷ []) (delivery ∷ []) chain-verified

verify_ack_chain-plan_acknowledgement_example :
    verify_ack_chain plain (delivery ∷ second ∷ []) ≡ Checked.ok (delivery ∷ second ∷ [])
verify_ack_chain-plan_acknowledgement_example =
    verify_ack_chain-plan_acknowledgement plain (delivery ∷ []) other "mailer" "2026-01-02" null
      second chain-verified second-planned unnamed

pending_outbox-plan_acknowledgement_example :
    pending_outbox (with_ack snapshot delivery) ≡ Checked.ok (without ref (notice ∷ other ∷ []))
unfolding notice
pending_outbox-plan_acknowledgement_example =
    pending_outbox-plan_acknowledgement plain snapshot (notice ∷ other ∷ []) notice "mailer"
      "2026-01-01" null "" delivery both_pending found_effect delivery-planned
