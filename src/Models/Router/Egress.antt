-- ===== src/Models/Router/Egress.antt =====
-- When src/models/router.js lets a payload leave the box.
use nvidia_omoda.Prelude.{Bool, true, false, not, ◌||◌, ◌≡◌, ◌↔◌, if◌then◌else◌, arith}
use nvidia_omoda.Models.Router.{
  Ask, on_box, hosted, nowhere, Route, routed, refused, is_perceive, is_classify, is_sensitive,
  route, may_leave_box,
}

abbrev pub leaves_box : Route → Bool
leaves_box (routed hosted d) = true
leaves_box (routed on_box d) = false
leaves_box (routed nowhere d) = false
leaves_box (refused m) = false

abbrev pub stays_on_box : Route → Bool
stays_on_box (routed on_box d) = true
stays_on_box (routed hosted d) = false
stays_on_box (routed nowhere d) = false
stays_on_box (refused m) = false

abbrev pub is_refused : Route → Bool
is_refused (routed w d) = false
is_refused (refused m) = true

-- The tests of the route, in their order, as a function of their outcomes.
abbrev choose : Bool → Bool → Bool → Bool → Bool → Route
choose held sensitive classifies hosted_up local_up =
    if held
    then (if not local_up
        then refused "perception requires the local model; refusing to send media off-box"
        else routed on_box false)
    else if sensitive
    then (if not local_up
        then refused
            "sensitive payload and the local model is unavailable; refusing to route it off-box"
        else routed on_box false)
    else if classifies
    then (if not local_up then routed nowhere true else routed on_box false)
    else if not hosted_up
    then (if not local_up
        then refused "neither the hosted planner nor the local model is available"
        else routed on_box true)
    else routed hosted false

abbrev Ways : Bool → Bool → Bool → Bool → Bool → Route → Type 0
Ways held sensitive classifies hosted_up local_up r =
    ((leaves_box r ≡ true)
      ↔ ((hosted_up ≡ true) × (not sensitive ≡ true) × (held ≡ false) × (classifies ≡ false)))
    × ((stays_on_box r ≡ true) ↔ ((local_up ≡ true) × (leaves_box r ≡ false)))
    × ((is_refused r ≡ true)
        ↔ ((local_up ≡ false) × ((held || (sensitive || not (classifies || hosted_up))) ≡ true)))

choose-Ways : (h s c u l : Bool) → Ways h s c u l (choose h s c u l)
choose-Ways true s c u true = ground arith
choose-Ways true s c u false = ground arith
choose-Ways false true c u true = ground arith
choose-Ways false true c u false = ground arith
choose-Ways false false true u true = ground arith
choose-Ways false false true u false = ground arith
choose-Ways false false false true l = ground arith
choose-Ways false false false false true = ground arith
choose-Ways false false false false false = ground arith

module _ (a : Ask) where
  -- A payload leaves the box exactly if the hosted model is available, the payload passes the guard that
  -- other paths use, and the task is neither multimodal nor perception nor classification. The task is
  -- done on the box exactly if the local model is there and the payload does not leave. The route is
  -- refused exactly if the local model is not there and the task is multimodal or perception, or the
  -- payload does not pass the guard, or the task is no classification and the hosted model is missing.
  pub route_ways :
      ((leaves_box (route a) ≡ true) ↔ (
        (a.hosted_available ≡ true)
        × (may_leave_box a.payload a.declared_sensitive ≡ true)
        × ((a.multimodal || is_perceive a.task) ≡ false)
        × (is_classify a.task ≡ false)))
      × ((stays_on_box (route a) ≡ true)
          ↔ ((a.local_available ≡ true) × (leaves_box (route a) ≡ false)))
      × ((is_refused (route a) ≡ true) ↔ (
          (a.local_available ≡ false)
          × (((a.multimodal || is_perceive a.task)
                || (is_sensitive a.payload a.declared_sensitive
                    || not (is_classify a.task || a.hosted_available)))
              ≡ true)))
  unfolding route may_leave_box
  route_ways =
      choose-Ways (a.multimodal || is_perceive a.task) (is_sensitive a.payload a.declared_sensitive)
        (is_classify a.task) a.hosted_available a.local_available
