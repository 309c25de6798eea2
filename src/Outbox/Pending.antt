-- ===== src/Outbox/Pending.antt =====
-- The loops of `pending_outbox` of src/popperpad/core/outbox.py, and what they return.
use popper_pad.Prelude.{
  ◌≡◌, refl, ap, sym, subst, ◌∙◌, Bool, true, false, not, ◌&&◌, ◌||◌, any, contains, map, inl, inr,
  List, [], ◌∷◌, ◌⊎◌, All, Bool-cases, Option-cases, none, String, str_eq, le_text,
}
use mathlib.Core.Path.{ap₂}
use mathlib.Core.Option.{some-injective}
use popper_pad.Sorting.{sort_by}
use popper_pad.Result.{
  Checked, OnOk, ok-OnOk, refused-OnOk, Checked-cases, when-OnOk, bind-OnOk, ◌>>◌,
}
use popper_pad.Market.Lookup.{find_by}
use popper_pad.Market.Ids.{Distinct, contains-find_by, not-contains-find_by}
use popper_pad.Outbox.{
  CommittedEffect, DeliveryAcknowledgement, OutboxSnapshot, effect_key, ack_key, upsert, register,
  match_effect, acknowledge, unacknowledged, pending_outbox,
}
use popper_pad.Outbox.Tables.{
  find_by-absent, find_by-sort_by, find_by-keep, contains-upsert, Distinct-upsert, contains-keep,
  Distinct-keep, contains-sort_by, Distinct-sort_by,
}
use popper_pad.Outbox.Held.{
  Among, IsSame, Has, Has-upsert, Has-new, Among-upsert, Among-keep, Among-sort_by,
}

or_false : (b : Bool) → b ≡ (b || false)
or_false true = refl
or_false false = refl

or_assoc : (a b c : Bool) → ((a || b) || c) ≡ (a || (b || c))
or_assoc true b c = refl
or_assoc false b c = refl

-- `match_effect` as a step: what follows may use that the effect is there.
match-OnOk {ℓ κ} :
    {A : Type ℓ} {P : A → Type κ} (table : List CommittedEffect) (a : DeliveryAcknowledgement)
    (r : Checked A)
    → OnOk P r
    → OnOk P (match_effect table a >> r)
unfolding ◌>>◌
match-OnOk table a r h = elim (Checked-cases (match_effect table a)) [
  | inl good ↦ rw good h
  | inr (code, details, bad) ↦ rw bad (refused-OnOk code details)
]

-- An effect of a snapshot among the pending ones: gone if its id is acknowledged, else there.
abbrev pub IsLeft : Bool → List CommittedEffect → CommittedEffect → Type 0
IsLeft true es x = find_by effect_key es x.effect_id ≡ none
IsLeft false es x = Has es x

-- What the first loop makes of the table `before`.
pub record IsRegistered (before es table : List CommittedEffect) : Type 0 where
  pub ids :
      (id : String)
      → contains (map effect_key table) id
        ≡ (contains (map effect_key before) id || any (λ e. str_eq id e.effect_id) es)
  pub distinct : Distinct (map effect_key before) → Distinct (map effect_key table)
  pub has : All (Has table) es
  pub keeps : (x : CommittedEffect) → Has before x → Has table x
  pub from : (x : CommittedEffect) → Among x table → Among x before ⊎ Among x es

from_before :
    (before es : List CommittedEffect) (e x : CommittedEffect)
    → Among x (upsert effect_key before e) ⊎ Among x es
    → Among x before ⊎ Among x (e ∷ es)
from_before before es e x (inl h) = elim (Among-upsert before e x h) [
  | inl old ↦ inl old
  | inr new ↦ inr (inl new)
]
from_before before es e x (inr h) = inr (inr h)

pub register-OnOk :
    (before es : List CommittedEffect) → OnOk (IsRegistered before es) (register before es)
unfolding register
register-OnOk before [] = ok-OnOk before (record {
  ids = λ id. or_false _;
  distinct = λ d. d;
  has = tt;
  keeps = λ x h. h;
  from = λ x h. inl h;
})
register-OnOk before (e ∷ es) = when-OnOk _ _ _ _ λ id_ok. when-OnOk _ _ _ _ λ hash_ok.
    when-OnOk _ _ _ _ λ kind_ok. when-OnOk _ _ _ _ λ free. record {
      holds = λ table r.
          let rest = (register-OnOk (upsert effect_key before e) es).holds table r in
          record {
            ids = λ id.
                rest.ids id
                ∙ ap (λ b. b || any (λ x. str_eq id x.effect_id) es)
                    (contains-upsert effect_key before e id)
                ∙ or_assoc (contains (map effect_key before) id) (str_eq id e.effect_id)
                    (any (λ x. str_eq id x.effect_id) es);
            distinct = λ d. rest.distinct (Distinct-upsert effect_key before e d);
            has = (rest.keeps e (Has-new before e), rest.has);
            keeps = λ x h. rest.keeps x (Has-upsert before e x free h);
            from = λ x h. from_before before es e x (rest.from x h);
          };
    }

pub record IsAcknowledged (before acks after : List DeliveryAcknowledgement) : Type 0 where
  pub ids :
      (id : String)
      → contains (map ack_key after) id
        ≡ (contains (map ack_key before) id || any (λ a. str_eq id a.effect_id) acks)

acknowledge-OnOk :
    (table : List CommittedEffect) (before acks : List DeliveryAcknowledgement)
    → OnOk (IsAcknowledged before acks) (acknowledge table before acks)
unfolding acknowledge
acknowledge-OnOk table before [] = ok-OnOk before (record { ids = λ id. or_false _ })
acknowledge-OnOk table before (a ∷ acks) = when-OnOk _ _ _ _ λ id_ok. match-OnOk table a _ (
    when-OnOk _ _ _ _ λ free. record {
      holds = λ after r.
          let rest = (acknowledge-OnOk table (upsert ack_key before a) acks).holds after r in
          record {
            ids = λ id.
                rest.ids id
                ∙ ap (λ b. b || any (λ x. str_eq id x.effect_id) acks)
                    (contains-upsert ack_key before a id)
                ∙ or_assoc (contains (map ack_key before) id) (str_eq id a.effect_id)
                    (any (λ x. str_eq id x.effect_id) acks);
          };
    })

All-among :
    (P : CommittedEffect → Type 0) (xs : List CommittedEffect)
    → ((x : CommittedEffect) → Among x xs → P x)
    → All P xs
All-among P [] f = tt
All-among P (x ∷ xs) f = (f x (inl refl), All-among P xs (λ y h. f y (inr h)))

All-map_to {κ κ'} :
    {P : CommittedEffect → Type κ} {Q : CommittedEffect → Type κ'} (xs : List CommittedEffect)
    → ((x : CommittedEffect) → P x → Q x)
    → All P xs
    → All Q xs
All-map_to [] f h = tt
All-map_to (x ∷ xs) f h = (f x h.0, All-map_to xs f h.1)

-- Where the table has an effect, the pending effects have it exactly if its id is not acknowledged.
unacknowledged-IsLeft :
    (table : List CommittedEffect) (acked : List DeliveryAcknowledgement) (x : CommittedEffect)
    → Distinct (map effect_key table)
    → Has table x
    → IsLeft (contains (map ack_key acked) x.effect_id) (unacknowledged table acked) x
unacknowledged-IsLeft table acked x distinct (y, found, same) =
    let le : CommittedEffect → CommittedEffect → Bool = λ a b. le_text a.effect_id b.effect_id in
    let p : String → Bool = λ id. not (contains (map ack_key acked) id) in
    let ids : contains (map effect_key (unacknowledged table acked)) x.effect_id
        ≡ (contains (map effect_key table) x.effect_id && p x.effect_id) =
      contains-keep effect_key p (sort_by le table) x.effect_id
      ∙ ap (λ b. b && p x.effect_id) (contains-sort_by effect_key le table x.effect_id) in
    let there = contains-find_by effect_key table x.effect_id {x = y} found in
    elim (Bool-cases (contains (map ack_key acked) x.effect_id)) [
      | inl done ↦ rw done (
          find_by-absent effect_key (unacknowledged table acked) x.effect_id
            (ids ∙ rw (there, done) refl))
      | inr waits ↦
          elim (Option-cases (find_by effect_key (unacknowledged table acked) x.effect_id)) [
            | inl missing ↦
                let present : contains (map effect_key (unacknowledged table acked)) x.effect_id
                    ≡ true =
                  rw (ids, there, waits) refl in
                let gone =
                  not-contains-find_by effect_key (unacknowledged table acked) x.effect_id
                    missing in
                cc (present, gone)
            | inr (e, held) ↦
                let in_table =
                  find_by-sort_by effect_key le table x.effect_id {e = e} distinct
                    (find_by-keep effect_key p (sort_by le table) x.effect_id {e = e} held) in
                rw waits
                  (e, held, subst (IsSame x) (some-injective y e (sym found ∙ in_table)) same)
          ]
    ]

from_none : (x : CommittedEffect) (es : List CommittedEffect) → Among x [] ⊎ Among x es → Among x es
from_none x es (inl h) = elim h [ ]
from_none x es (inr h) = h

-- What `pending_outbox` returns for a snapshot.
pub record IsPending (s : OutboxSnapshot) (es : List CommittedEffect) : Type 0 where
  pub ids :
      (id : String)
      → contains (map effect_key es) id ≡ (
          any (λ e. str_eq id e.effect_id) s.effects
          && not (any (λ a. str_eq id a.effect_id) s.acknowledgements))
  pub distinct : Distinct (map effect_key es)
  pub taken : All (λ e. Among e s.effects) es
  pub left :
      All
        (λ x. IsLeft (any (λ a. str_eq x.effect_id a.effect_id) s.acknowledgements) es x)
        s.effects

-- What `pending_outbox` returns are effects of the snapshot, none with the id of another; their ids are those
-- of the snapshot's effects that no acknowledgement of the snapshot names. Each effect of the snapshot
-- with such an id is there, or one that agrees with it in commit, kind and payload up to Python's `==`;
-- with an acknowledged id there is none.
pub pending_outbox-IsPending :
    (s : OutboxSnapshot) (es : List CommittedEffect)
    → pending_outbox s ≡ Checked.ok es
    → IsPending s es
unfolding pending_outbox
pending_outbox-IsPending s es h =
    (bind-OnOk {P = IsPending s} (register [] s.effects) _ λ table r.
        bind-OnOk (acknowledge table [] s.acknowledgements) _ λ acked q. ok-OnOk _ (
          let le : CommittedEffect → CommittedEffect → Bool =
            λ a b. le_text a.effect_id b.effect_id in
          let is_registered = (register-OnOk [] s.effects).holds table r in
          let is_acked = (acknowledge-OnOk table [] s.acknowledgements).holds acked q in
          let p : String → Bool = λ id. not (contains (map ack_key acked) id) in
          record {
            ids = λ id.
                contains-keep effect_key p (sort_by le table) id
                ∙ ap₂ ◌&&◌ (contains-sort_by effect_key le table id ∙ is_registered.ids id)
                    (ap not (is_acked.ids id));
            distinct =
                Distinct-keep effect_key p (sort_by le table)
                  (Distinct-sort_by effect_key le table (is_registered.distinct tt));
            taken =
                All-among (λ e. Among e s.effects) (unacknowledged table acked)
                  λ e h. from_none e s.effects (
                    is_registered.from e
                      (Among-sort_by le table e (Among-keep (λ x. p x.effect_id) _ e h)));
            left =
                All-map_to {P = Has table} s.effects
                  (λ x h.
                    subst (λ b. IsLeft b (unacknowledged table acked) x) (is_acked.ids x.effect_id)
                      (unacknowledged-IsLeft table acked x (is_registered.distinct tt) h))
                  is_registered.has;
          })).holds
      es h
