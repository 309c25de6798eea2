-- ===== src/Outbox/Delivery.antt =====
-- A delivery in src/popperpad/core/outbox.py: from a pending effect over its acknowledgement to the
-- next pending effects.
use popper_pad.Prelude.{
  ◌≡◌, refl, ap, ◌∙◌, sym, Bool, true, false, not, ◌&&◌, ◌||◌, contains, map, keep, Bool-cases, inl,
  inr, some, List, [], ◌∷◌, ◌++◌, String, str_eq, le_text, arith, not-eq_false, and-true,
}
use popper_pad.Values.{Json}
use popper_pad.Codec.{Crypto}
use popper_pad.Sorting.{sort_by}
use popper_pad.Result.{
  Checked, refuse_when, ◌>>=◌, when-ok, when-pass, then-ok, then-pass, bind-ok, ok-injective,
}
use popper_pad.Market.Types.{valid_ref}
use popper_pad.Market.Lookup.{find_by}
use popper_pad.Market.Ids.{contains-find_by}
use popper_pad.Outbox.{
  CommittedEffect, DeliveryAcknowledgement, OutboxSnapshot, effect_key, ack_key, ack_eq, conflicts,
  upsert, register, match_effect, acknowledge, unacknowledged, pending_outbox, plan_acknowledgement,
}
use popper_pad.Outbox.Tables.{contains-upsert, contains-keep, find_by-sort_by, find_by-keep}
use popper_pad.Outbox.Pending.{register-OnOk}
use popper_pad.Outbox.Chain.{planned-IsSealed, no_conflict, same_text}

acknowledge-snoc :
    (table : List CommittedEffect) (before acks acked : List DeliveryAcknowledgement)
    (a : DeliveryAcknowledgement)
    → acknowledge table before acks ≡ Checked.ok acked
    → valid_ref a.effect_id ≡ true
    → match_effect table a ≡ Checked.ok tt
    → conflicts ack_eq (find_by ack_key acked a.effect_id) a ≡ false
    → acknowledge table before (acks ++ a ∷ []) ≡ Checked.ok (upsert ack_key acked a)
unfolding acknowledge
acknowledge-snoc table before [] acked a h valid known free =
    let same = ok-injective before acked h in
    when-pass _ _ _ _ (ap not valid)
    ∙ then-pass _ _ known
    ∙ when-pass _ _ _ _ (ap (λ xs. conflicts ack_eq (find_by ack_key xs a.effect_id) a) same ∙ free)
    ∙ ap (λ xs. Checked.ok (upsert ack_key xs a)) same
acknowledge-snoc table before (x ∷ rest) acked a h valid known free =
    let (h1, k1) = when-ok _ _ _ _ _ h in
    let (h2, k2) = then-ok _ _ _ k1 in
    let (h3, k3) = when-ok _ _ _ _ _ k2 in
    when-pass _ _ _ _ h1
    ∙ then-pass _ _ h2
    ∙ when-pass _ _ _ _ h3
    ∙ acknowledge-snoc table (upsert ack_key before x) rest acked a k3 valid known free

match_effect-known :
    (table : List CommittedEffect) (a : DeliveryAcknowledgement) (e : CommittedEffect)
    → find_by effect_key table a.effect_id ≡ some e
    → a.commit_record_hash ≡ e.commit_record_hash
    → match_effect table a ≡ Checked.ok tt
unfolding match_effect refuse_when
match_effect-known table a e found same = rw (found, match_effect, same_text same) refl

plan-valid :
    (crypto : Crypto) (e : CommittedEffect) (handler_id delivered_at : String) (receipt : Json)
    (previous : String) (a : DeliveryAcknowledgement)
    → plan_acknowledgement crypto e handler_id delivered_at receipt previous ≡ Checked.ok a
    → valid_ref e.effect_id ≡ true
unfolding plan_acknowledgement
plan-valid crypto e handler_id delivered_at receipt previous a h =
    not-eq_false _ (when-ok _ _ _ _ _ h).0

not-eq_true : {b : Bool} → not b ≡ true → b ≡ false
not-eq_true {b} h = ground arith

-- The snapshot with one more acknowledgement.
abbrev pub with_ack : OutboxSnapshot → DeliveryAcknowledgement → OutboxSnapshot
with_ack s a = record s { acknowledgements = s.acknowledgements ++ a ∷ [] }

-- The effects of a list without those of an id.
abbrev pub without : String → List CommittedEffect → List CommittedEffect
without done es = keep (λ x. not (str_eq x.effect_id done)) es

keep-keep :
    (p q r : CommittedEffect → Bool) (xs : List CommittedEffect)
    → ((x : CommittedEffect) → r x ≡ (p x && q x))
    → keep r xs ≡ keep q (keep p xs)
keep-keep p q r [] h = refl
keep-keep p q r (x ∷ xs) h = elim (Bool-cases (p x)) [
  | inl yes_p ↦ elim (Bool-cases (q x)) [
    | inl yes_q ↦ rw (h x, yes_p, yes_q) (ap (λ ys. x ∷ ys) (keep-keep p q r xs h))
    | inr no_q ↦ rw (h x, yes_p, no_q) (keep-keep p q r xs h)
  ]
  | inr no_p ↦ rw (h x, no_p) (keep-keep p q r xs h)
]

not_or : (b c : Bool) → not (b || c) ≡ (not b && not c)
not_or true c = refl
not_or false c = refl

-- If an effect is pending and its delivery is acknowledged by what `plan_acknowledgement` gives for it,
-- then the snapshot with this acknowledgement is accepted too, and pending are the same effects in the
-- same order, without this one.
pub pending_outbox-plan_acknowledgement :
    (crypto : Crypto) (s : OutboxSnapshot) (es : List CommittedEffect) (e : CommittedEffect)
    (handler_id delivered_at : String) (receipt : Json) (previous : String)
    (a : DeliveryAcknowledgement)
    → pending_outbox s ≡ Checked.ok es
    → find_by effect_key es e.effect_id ≡ some e
    → plan_acknowledgement crypto e handler_id delivered_at receipt previous ≡ Checked.ok a
    → pending_outbox (with_ack s a) ≡ Checked.ok (without e.effect_id es)
unfolding pending_outbox ◌>>=◌
pending_outbox-plan_acknowledgement crypto s es e handler_id delivered_at receipt previous a h found
      p =
    let le : CommittedEffect → CommittedEffect → Bool = λ x y. le_text x.effect_id y.effect_id in
    let (table, r, h1) = bind-ok (register [] s.effects) _ es h in
    let (acked, q, h2) = bind-ok (acknowledge table [] s.acknowledgements) _ es h1 in
    let same = ok-injective (unacknowledged table acked) es h2 in
    let open_id : String → Bool = λ id. not (contains (map ack_key acked) id) in
    let here : find_by effect_key (unacknowledged table acked) e.effect_id ≡ some e =
      ap (λ xs. find_by effect_key xs e.effect_id) same ∙ found in
    let in_table =
      find_by-sort_by effect_key le table e.effect_id {e = e}
        (((register-OnOk [] s.effects).holds table r).distinct tt)
        (find_by-keep effect_key open_id (sort_by le table) e.effect_id {e = e} here) in
    let unseen =
      (and-true (contains (map effect_key (sort_by le table)) e.effect_id) (open_id e.effect_id) (
        sym (contains-keep effect_key open_id (sort_by le table) e.effect_id)
        ∙ contains-find_by effect_key (unacknowledged table acked) e.effect_id {x = e} here)).1 in
    let (is_sealed, linked, named, commit) =
      planned-IsSealed crypto e handler_id delivered_at receipt previous a p in
    let next : acknowledge table [] (s.acknowledgements ++ a ∷ [])
        ≡ Checked.ok (upsert ack_key acked a) =
      acknowledge-snoc table [] s.acknowledgements acked a q
        (ap valid_ref named ∙ plan-valid crypto e handler_id delivered_at receipt previous a p)
        (match_effect-known table a e (ap (find_by effect_key table) named ∙ in_table) commit)
        (no_conflict acked a (ap (contains (map ack_key acked)) named ∙ not-eq_true unseen)) in
    let open_next : String → Bool =
      λ id. not (contains (map ack_key (upsert ack_key acked a)) id) in
    rw (r, next)
      (ap Checked.ok (
        keep-keep (λ x. open_id x.effect_id) (λ x. not (str_eq x.effect_id e.effect_id))
          (λ x. open_next x.effect_id) (sort_by le table)
          (λ x.
            ap not (
              contains-upsert ack_key acked a x.effect_id
              ∙ ap (λ n. contains (map ack_key acked) x.effect_id || str_eq x.effect_id n) named)
            ∙ not_or (contains (map ack_key acked) x.effect_id) (str_eq x.effect_id e.effect_id))
        ∙ ap (without e.effect_id) same))
