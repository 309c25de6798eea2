-- ===== src/Outbox/Chain.antt =====
-- The chain of acknowledgements of src/popperpad/core/outbox.py.
use popper_pad.Prelude.{
  ℕ, suc, ◌≡◌, refl, ap, ◌∙◌, sym, subst, Bool, false, not, ◌||◌, any, contains, map, List, [], ◌∷◌,
  ◌++◌, String, str_eq, str_eq_refl, str_eq-eq, not-eq_false, or-false,
}
use popper_pad.Values.{Json}
use popper_pad.Codec.{Crypto, json_hash}
use popper_pad.Result.{Checked, ◌>>=◌, when-ok, when-pass, bind-ok, ok-injective}
use popper_pad.Market.Lookup.{find_by}
use popper_pad.Outbox.{
  CommittedEffect, DeliveryAcknowledgement, ack_key, ack_eq, conflicts, upsert, core_json,
  plan_acknowledgement, verify_chain, verify_ack_chain,
}
use popper_pad.Outbox.Tables.{contains-upsert, find_by-absent}

-- The hash of the last acknowledgement, or the hash before the first.
abbrev pub head_after : String → List DeliveryAcknowledgement → String
head_after previous [] = previous
head_after previous (a ∷ rest) = head_after a.ack_hash rest

pub same_text : {s t : String} → s ≡ t → not (str_eq s t) ≡ false
same_text {s} {t} e = ap (λ x. not (str_eq s x)) (sym e) ∙ ap not (str_eq_refl s)

neither : {a b : Bool} → a ≡ false → b ≡ false → (a || b) ≡ false
neither h k = rw (h, k) refl

pub no_conflict :
    (seen : List DeliveryAcknowledgement) (a : DeliveryAcknowledgement)
    → contains (map ack_key seen) a.effect_id ≡ false
    → conflicts ack_eq (find_by ack_key seen a.effect_id) a ≡ false
no_conflict seen a h = rw (find_by-absent ack_key seen a.effect_id h) refl

module _ (crypto : Crypto) where
  -- The acknowledgement carries the hash of its own content.
  abbrev pub IsSealed : DeliveryAcknowledgement → Type 0
  IsSealed a = a.ack_hash ≡ json_hash crypto "outbox-ack/v1" (core_json a)

  -- Each acknowledgement is sealed and names the one before it.
  abbrev pub IsChain : String → List DeliveryAcknowledgement → Type 0
  IsChain previous [] = Unit
  IsChain previous (a ∷ rest) =
      (a.previous_ack_hash ≡ previous) × IsSealed a × IsChain a.ack_hash rest

  verify_chain-IsChain :
      (index : ℕ) (previous : String) (seen acks : List DeliveryAcknowledgement)
      → verify_chain crypto index previous seen acks ≡ Checked.ok tt
      → IsChain previous acks
  unfolding verify_chain
  verify_chain-IsChain index previous seen [] h = tt
  verify_chain-IsChain index previous seen (a ∷ rest) h =
      let (linked, h1) = when-ok _ _ _ _ _ h in
      let (is_sealed, h2) = when-ok _ _ _ _ _ h1 in
      let (free, h3) = when-ok _ _ _ _ _ h2 in
      (
        str_eq-eq _ _ (not-eq_false _ linked),
        str_eq-eq _ _ (not-eq_false _ is_sealed),
        verify_chain-IsChain (suc index) a.ack_hash (upsert ack_key seen a) rest h3,
      )

  -- A chain that verifies starts from the empty hash, each acknowledgement names the hash of the one
  -- before it and carries the hash of its own content; the verification returns the chain itself.
  pub verify_ack_chain-IsChain :
      (acks result : List DeliveryAcknowledgement)
      → verify_ack_chain crypto acks ≡ Checked.ok result
      → IsChain "" acks × (result ≡ acks)
  unfolding verify_ack_chain
  verify_ack_chain-IsChain acks result h =
      let (u, verified, same) = bind-ok (verify_chain crypto 0 "" [] acks) _ result h in
      (verify_chain-IsChain 0 "" [] acks verified, sym (ok-injective acks result same))

  verify_chain-snoc :
      (index : ℕ) (previous : String) (seen acks : List DeliveryAcknowledgement)
      (a : DeliveryAcknowledgement)
      → verify_chain crypto index previous seen acks ≡ Checked.ok tt
      → a.previous_ack_hash ≡ head_after previous acks
      → IsSealed a
      → contains (map ack_key seen) a.effect_id ≡ false
      → any (λ x. str_eq a.effect_id x.effect_id) acks ≡ false
      → verify_chain crypto index previous seen (acks ++ a ∷ []) ≡ Checked.ok tt
  unfolding verify_chain
  verify_chain-snoc index previous seen [] a h linked is_sealed unseen new =
      when-pass _ _ _ _ (same_text linked)
      ∙ when-pass _ _ _ _ (same_text is_sealed)
      ∙ when-pass _ _ _ _ (no_conflict seen a unseen)
  verify_chain-snoc index previous seen (x ∷ rest) a h linked is_sealed unseen new =
      let (first, h1) = when-ok _ _ _ _ _ h in
      let (second, h2) = when-ok _ _ _ _ _ h1 in
      let (third, h3) = when-ok _ _ _ _ _ h2 in
      let (ne, new_later) =
        or-false (str_eq a.effect_id x.effect_id) (any (λ y. str_eq a.effect_id y.effect_id) rest)
          new in
      when-pass _ _ _ _ first
      ∙ when-pass _ _ _ _ second
      ∙ when-pass _ _ _ _ third
      ∙ verify_chain-snoc (suc index) x.ack_hash (upsert ack_key seen x) rest a h3 linked is_sealed
          (contains-upsert ack_key seen x a.effect_id ∙ neither unseen ne) new_later

  pub planned-IsSealed :
      (e : CommittedEffect) (handler_id delivered_at : String) (receipt : Json) (previous : String)
      (a : DeliveryAcknowledgement)
      → plan_acknowledgement crypto e handler_id delivered_at receipt previous ≡ Checked.ok a
      → IsSealed a
        × (a.previous_ack_hash ≡ previous)
        × (a.effect_id ≡ e.effect_id)
        × (a.commit_record_hash ≡ e.commit_record_hash)
  unfolding plan_acknowledgement core_json
  planned-IsSealed e handler_id delivered_at receipt previous a h =
      let (h0, k0) = when-ok _ _ _ _ _ h in
      let (h1, k1) = when-ok _ _ _ _ _ k0 in
      let (h2, k2) = when-ok _ _ _ _ _ k1 in
      let (h3, k3) = when-ok _ _ _ _ _ k2 in
      let (h4, k4) = when-ok _ _ _ _ _ k3 in
      subst
        (λ b.
          IsSealed b
          × (b.previous_ack_hash ≡ previous)
          × (b.effect_id ≡ e.effect_id)
          × (b.commit_record_hash ≡ e.commit_record_hash))
        (ok-injective _ _ k4) (refl, refl, refl, refl)

  -- Planning and verifying fit together: an acknowledgement that is planned on the head of a chain that
  -- verifies, for an effect that the chain does not name yet, extends the chain to one that verifies.
  pub verify_ack_chain-plan_acknowledgement :
      (acks : List DeliveryAcknowledgement) (e : CommittedEffect) (handler_id delivered_at : String)
      (receipt : Json) (a : DeliveryAcknowledgement)
      → verify_ack_chain crypto acks ≡ Checked.ok acks
      → plan_acknowledgement crypto e handler_id delivered_at receipt (head_after "" acks)
        ≡ Checked.ok a
      → any (λ x. str_eq e.effect_id x.effect_id) acks ≡ false
      → verify_ack_chain crypto (acks ++ a ∷ []) ≡ Checked.ok (acks ++ a ∷ [])
  unfolding verify_ack_chain ◌>>=◌
  verify_ack_chain-plan_acknowledgement acks e handler_id delivered_at receipt a h p new =
      let (u, verified, same) = bind-ok (verify_chain crypto 0 "" [] acks) _ acks h in
      let (is_sealed, linked, named, commit) =
        planned-IsSealed e handler_id delivered_at receipt (head_after "" acks) a p in
      rw
        (verify_chain-snoc 0 "" [] acks a verified linked is_sealed refl
          (ap (λ i. any (λ x. str_eq i x.effect_id) acks) named ∙ new))
        refl
