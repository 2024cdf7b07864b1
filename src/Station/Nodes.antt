-- ===== src/Station/Nodes.antt =====
-- The node checks of `evaluate_station_health` in backend/app/services/station_health.py.
use ads_b_flight_intelligenc.Base.{
  ◌≡◌, ◌↔◌, refl, false, ◌||◌, Option, none, some, String, eq_iff, arith,
}
use ads_b_flight_intelligenc.Station.{
  Reports, differ, telemetry_node, presence_node_only, pipeline_node, mixed_nodes,
}

-- Every message that was received is from this node.
abbrev pub FromNode : Option String → String → Type 0
FromNode none node = Unit
FromNode (some n) node = n ≡ node

pub record IsFrom (r : Reports) (node : String) : Type 0 where
  pub telemetry_from : FromNode (telemetry_node r.telemetry) node
  pub presence_from : FromNode (presence_node_only r.presence) node
  pub pipeline_from : FromNode (pipeline_node r.pipeline) node

one_node_of :
    (a b c : Option String)
    → (differ a b || (differ c a || differ c b) ≡ false)
      ↔ ((node : String) × FromNode a node × FromNode b node × FromNode c node)
one_node_of none none none = (λ h. ("", tt, tt, tt), λ h. refl)
one_node_of (some a) none none = (λ h. (a, refl, tt, tt), λ h. refl)
one_node_of none (some b) none = (λ h. (b, tt, refl, tt), λ h. refl)
one_node_of none none (some c) = (λ h. (c, tt, tt, refl), λ h. refl)
one_node_of (some a) (some b) none =
    (λ h. (a, refl, ground (arith, eq_iff a b), tt), λ h. ground (arith, eq_iff a b))
one_node_of (some a) none (some c) =
    (λ h. (a, refl, tt, ground (arith, eq_iff c a)), λ h. ground (arith, eq_iff c a))
one_node_of none (some b) (some c) =
    (λ h. (b, tt, refl, ground (arith, eq_iff c b)), λ h. ground (arith, eq_iff c b))
one_node_of (some a) (some b) (some c) = (
  λ h. (a, refl, ground (arith, eq_iff a b), ground (arith, eq_iff c a)),
  λ h. ground (arith, eq_iff a b, eq_iff c a, eq_iff c b),
)

pub mixed_nodes_iff : (r : Reports) → (mixed_nodes r ≡ false) ↔ ((node : String) × IsFrom r node)
mixed_nodes_iff r = (
  λ h.
      let (node, a, b, c) = (one_node_of _ _ _).0 h in
      (node, record { telemetry_from = a; presence_from = b; pipeline_from = c }),
  λ h.
      let (node, from) = h in
      (one_node_of _ _ _).1 (node, from.telemetry_from, from.presence_from, from.pipeline_from),
)
