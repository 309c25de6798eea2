-- ===== src/Graph/Transfer/Search.antt =====
-- The search of `find_transfer_paths` of src/popperpad/core/graph.py: it ends, and what it finds.
use popper_pad.Prelude.{
  All-append, ℕ, zero, suc, ◌+◌, ◌*◌, ◌-◌, ◌≤◌, ◌<◌, ℤ, pos, pos_part, leb_ℤ, leb, ◌≡◌, refl, ap,
  sym, subst, Bool, true, false, not, ◌&&◌, is_empty, contains, set_add, All, length, Bool-cases,
  Option-cases, inl, inr, some, List, [], ◌∷◌, ◌++◌, String, str_eq, str_eq-eq, arith,
}
use mathlib.Core.Option.{some-injective}
use popper_pad.Market.Ids.{total_of, total_of-append}
use popper_pad.Graph.Types.{SemanticEdge, TransferSnapshot, TransferPath, OpenObligation}
use popper_pad.Graph.Transfer.{
  Hop, Walk, Outcome, adjacent, edge_by_ref, extend, open_edge_obligations, open_path_obligations,
  search_loop, sort_paths, tree_size, find_transfer_paths,
}
use popper_pad.Graph.Transfer.Hops.{
  IsHop, adjacent-IsHop, length-adjacent, IsHop-edge_by_ref, length-append,
}
use popper_pad.Sorting.{All-sort_by}

-- The edges lead from the first node to the last one.
abbrev pub IsRoute : TransferSnapshot → String → List String → String → Type 0
IsRoute snapshot from [] to = from ≡ to
IsRoute snapshot from (r ∷ rs) to =
    (mid : String) × IsHop snapshot.edges from (record { edge_ref = r; target = mid })
    × IsRoute snapshot mid rs to

IsRoute-snoc :
    (snapshot : TransferSnapshot) (from : String) (rs : List String) (mid : String) (h : Hop)
    → IsRoute snapshot from rs mid
    → IsHop snapshot.edges mid h
    → IsRoute snapshot from (rs ++ h.edge_ref ∷ []) h.target
IsRoute-snoc snapshot from [] mid h e j =
    (h.target, subst (λ n. IsHop snapshot.edges n h) (sym e) j, refl)
IsRoute-snoc snapshot from (r ∷ rs) mid h (next, hop, route) j =
    (next, hop, IsRoute-snoc snapshot next rs mid h route j)

-- What a path of the result is: a route from one node to the other of at most so many edges, with the
-- obligations that are open along it, and none if only validated ones are asked for.
pub record IsPath (snapshot : TransferSnapshot) (from to : String) (depth : ℕ) (validated : Bool)
    (p : TransferPath) : Type 0 where
  pub route : IsRoute snapshot from p.edge_refs to
  pub short : length p.edge_refs ≤ depth
  pub obligations : open_path_obligations snapshot p.edge_refs ≡ some p.obligations_open
  pub closed : validated ≡ true → p.obligations_open ≡ []

-- What an entry of the queue is.
record IsWalk (snapshot : TransferSnapshot) (from : String) (depth : ℕ) (validated : Bool)
    (w : Walk) : Type 0 where
  route : IsRoute snapshot from w.edge_path w.node
  short : length w.edge_path ≤ depth
  left : List OpenObligation
  obligations : open_path_obligations snapshot w.edge_path ≡ some left
  closed : validated ≡ true → left ≡ []

append_nil {ℓ} : {A : Type ℓ} (xs : List A) → xs ++ [] ≡ xs
append_nil [] = refl
append_nil (x ∷ xs) = ap (◌∷◌ x) (append_nil xs)

append_assoc {ℓ} : {A : Type ℓ} (xs ys zs : List A) → (xs ++ ys) ++ zs ≡ xs ++ (ys ++ zs)
append_assoc [] ys zs = refl
append_assoc (x ∷ xs) ys zs = ap (◌∷◌ x) (append_assoc xs ys zs)

nothing_open {ℓ} :
    {A : Type ℓ} (validated : Bool) (left os : List A)
    → (validated && not (is_empty os)) ≡ false
    → left ≡ []
    → validated ≡ true
    → left ++ os ≡ []
nothing_open validated left [] free none_left v = rw none_left refl
nothing_open validated left (o ∷ os) free none_left v = cc (rw v at free)

mul_suc : (n t : ℕ) → suc n * t ≡ t + n * t
mul_suc n t = grind arith

mul_mono : (n m t : ℕ) → n ≤ m → n * t ≤ m * t
mul_mono n m t h = grind arith

open_path_obligations-snoc :
    (snapshot : TransferSnapshot) (refs : List String) (ref : String) (os : List OpenObligation)
    (e : SemanticEdge)
    → open_path_obligations snapshot refs ≡ some os
    → edge_by_ref snapshot ref ≡ some e
    → open_path_obligations snapshot (refs ++ ref ∷ [])
      ≡ some (os ++ open_edge_obligations snapshot e)
unfolding open_path_obligations
open_path_obligations-snoc snapshot [] ref os e h k =
    rw (open_path_obligations, k, sym (some-injective _ _ h))
      (ap some (append_nil (open_edge_obligations snapshot e)))
open_path_obligations-snoc snapshot (r ∷ rs) ref os e h k =
    elim (Option-cases (edge_by_ref snapshot r)) [
      | inl nothing ↦ cc (rw (nothing, open_path_obligations) at h)
      | inr (x, f) ↦ elim (Option-cases (open_path_obligations snapshot rs)) [
        | inl nothing ↦ cc (rw (f, nothing, open_path_obligations) at h)
        | inr (ys, g) ↦
            let h2 = rw (f, g, open_path_obligations) at h in
            rw
              (
                f,
                open_path_obligations,
                open_path_obligations-snoc snapshot rs ref ys e g k,
                sym (some-injective _ _ h2),
              )
              (ap some (
                sym (
                  append_assoc (open_edge_obligations snapshot x) ys
                    (open_edge_obligations snapshot e))))
      ]
    ]

room_lem : (d n : ℕ) → leb d n ≡ false → n + suc (d - n - 1) ≡ d
room_lem d n h = ground arith

pred_depth : (d n : ℕ) → leb d n ≡ false → d - n ≡ suc (d - n - 1)
pred_depth d n h = ground arith

minus_zero : (d : ℕ) → d - 0 ≡ d
minus_zero d = omega arith

rest_depth : (depth n m d : ℕ) → m ≡ n + 1 → n + suc d ≡ depth → depth - m ≡ d
rest_depth depth n m d h k = omega (arith, h, k)

module _ (snapshot : TransferSnapshot) (from : String) (depth : ℕ) (validated : Bool) where
  abbrev width : ℕ
  width = 2 * length snapshot.edges

  abbrev weight : Walk → ℕ
  weight w = tree_size width (depth - length w.edge_path)

  weight-positive : (d : ℕ) → 0 < tree_size width d
  weight-positive zero = omega arith
  weight-positive (suc d) = omega arith

  -- The entries that a node appends to the queue.
  extend_lem :
      (w : Walk) (d : ℕ) (hs : List Hop)
      → IsWalk snapshot from depth validated w
      → length w.edge_path + suc d ≡ depth
      → All (IsHop snapshot.edges w.node) hs
      → (ws : List Walk) × (extend snapshot validated w hs ≡ some ws)
        × All (IsWalk snapshot from depth validated) ws
        × (total_of weight ws ≤ length hs * tree_size width d)
  unfolding extend
  extend_lem w d [] ok room known = ([], refl, tt, omega arith)
  extend_lem w d (h ∷ hs) ok room known =
      let (ws, e, all_ok, bound) = extend_lem w d hs ok room known.1 in
      let (edge, f) = IsHop-edge_by_ref snapshot w.node h known.0 in
      elim (Bool-cases (contains w.visited_nodes h.target)) [
        | inl old ↦ (ws, rw old e, all_ok, omega (arith, bound))
        | inr new ↦
            elim (Bool-cases (validated && not (is_empty (open_edge_obligations snapshot edge)))) [
              | inl barred ↦ (ws, rw (new, f, barred) e, all_ok, omega (arith, bound))
              | inr free ↦
                  let next : Walk = record {
                    node = h.target;
                    edge_path = w.edge_path ++ h.edge_ref ∷ [];
                    visited_nodes = set_add w.visited_nodes h.target;
                  } in
                  let size = length-append w.edge_path (h.edge_ref ∷ []) in
                  (
                    next ∷ ws,
                    rw (new, f, free, e) refl,
                    (
                      record {
                        route = IsRoute-snoc snapshot from w.edge_path w.node h ok.route known.0;
                        short = omega (arith, size, room);
                        left = ok.left ++ open_edge_obligations snapshot edge;
                        obligations =
                            open_path_obligations-snoc snapshot w.edge_path h.edge_ref ok.left edge
                              ok.obligations f;
                        closed = λ v.
                            nothing_open validated ok.left (open_edge_obligations snapshot edge)
                              free (ok.closed v) v;
                      },
                      all_ok,
                    ),
                    omega (
                      arith,
                      bound,
                      mul_suc (length hs) (tree_size width d),
                      ap (tree_size width) (
                          rest_depth depth (length w.edge_path) (length next.edge_path) d size
                            room),
                    ),
                  )
            ]
      ]

  search_loop_lem :
      (to : String) (fuel : ℕ) (queue : List Walk) (found : List TransferPath)
      → All (IsWalk snapshot from depth validated) queue
      → All (IsPath snapshot from to depth validated) found
      → total_of weight queue ≤ fuel
      → (ps : List TransferPath) × (search_loop snapshot to depth validated fuel queue found
          ≡ Outcome.paths ps)
        × All (IsPath snapshot from to depth validated) ps
  unfolding search_loop
  search_loop_lem to fuel [] found ok good enough =
      (sort_paths found, refl, All-sort_by _ (IsPath snapshot from to depth validated) found good)
  search_loop_lem to zero (w ∷ queue) found ok good enough =
      absurd (omega (arith, enough, weight-positive (depth - length w.edge_path)))
  search_loop_lem to (suc fuel) (w ∷ queue) found ok good enough =
      elim (Bool-cases (str_eq w.node to)) [
        | inl there ↦
            let p : TransferPath = record {
              edge_refs = w.edge_path;
              obligations_open = ok.0.left;
            } in
            let (ps, e, all_good) =
              search_loop_lem to fuel queue (found ++ p ∷ []) ok.1
                (All-append (IsPath snapshot from to depth validated) found (p ∷ []) good (
                  record {
                    route =
                        subst (IsRoute snapshot from w.edge_path) (str_eq-eq w.node to there)
                          ok.0.route;
                    short = ok.0.short;
                    obligations = ok.0.obligations;
                    closed = ok.0.closed;
                  },
                  tt,
                ))
                (omega (arith, enough, weight-positive (depth - length w.edge_path))) in
            (ps, rw (there, search_loop, ok.0.obligations) e, all_good)
        | inr elsewhere ↦ elim (Bool-cases (leb depth (length w.edge_path))) [
          | inl deep ↦
              let (ps, e, all_good) =
                search_loop_lem to fuel queue found ok.1 good
                  (omega (arith, enough, weight-positive (depth - length w.edge_path))) in
              (ps, rw (elsewhere, deep, search_loop) e, all_good)
          | inr shallow ↦
              let room = room_lem depth (length w.edge_path) shallow in
              let (ws, e, ws_ok, bound) =
                extend_lem w (depth - length w.edge_path - 1) (adjacent snapshot w.node) ok.0 room
                  (adjacent-IsHop snapshot w.node) in
              let (ps, f, all_good) =
                search_loop_lem to fuel (queue ++ ws) found
                  (All-append (IsWalk snapshot from depth validated) queue ws ok.1 ws_ok) good
                  (omega (
                    arith,
                    enough,
                    bound,
                    total_of-append weight queue ws,
                    mul_mono (length (adjacent snapshot w.node)) width
                        (tree_size width (depth - length w.edge_path - 1))
                        (length-adjacent snapshot w.node),
                    ap (tree_size width) (pred_depth depth (length w.edge_path) shallow),
                  )) in
              (ps, rw (elsewhere, shallow, e, search_loop) f, all_good)
        ]
      ]

-- For a depth from 1 to 12 the search ends within its fuel and with no KeyError, so it returns paths:
-- each is a route along edges of the snapshot from the one node to the other, is at most that long,
-- comes with the obligations that are open along it, and has none if only validated ones are asked for.
pub find_transfer_paths-IsPath :
    (snapshot : TransferSnapshot) (from to : String) (max_depth : ℤ) (validated : Bool)
    → leb_ℤ (pos 1) max_depth ≡ true
    → leb_ℤ max_depth (pos 12) ≡ true
    → (ps : List TransferPath) × (find_transfer_paths snapshot from to max_depth validated
        ≡ Outcome.paths ps)
      × All (IsPath snapshot from to (pos_part max_depth) validated) ps
unfolding find_transfer_paths open_path_obligations
find_transfer_paths-IsPath snapshot from to max_depth validated low high =
    let depth = pos_part max_depth in
    let first : Walk = record { node = from; edge_path = []; visited_nodes = from ∷ [] } in
    let (ps, e, good) =
      search_loop_lem snapshot from depth validated to (tree_size (2 * length snapshot.edges) depth)
        (first ∷ []) []
        (
          record {
            route = refl;
            short = omega arith;
            left = [];
            obligations = refl;
            closed = λ v. refl;
          },
          tt,
        )
        tt (omega (arith, ap (tree_size (2 * length snapshot.edges)) (minus_zero depth))) in
    (ps, rw (low, high) e, good)
