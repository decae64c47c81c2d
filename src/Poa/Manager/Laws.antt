-- ===== src/Poa/Manager/Laws.antt =====
-- src/orb/poa/poa-manager.c: which states follow which, and what each call reports.
use orbit.Base.{◌≡◌, Bool, false, ◌&&◌, Option, none, some, arith, if◌then◌else◌}
use orbit.Poa.Adapter.{ManagerState, holding, active, discarding, inactive}
use orbit.Poa.Manager.{
  Manager, Exception, no_exception, adapter_inactive, bad_inv_order, is_inactive, manager_activate,
  manager_hold_requests, manager_discard_requests, manager_deactivate, any_idle,
}

-- The operations of the interface that change a manager.
pub data Op : Type 0 where
  activate : Op
  hold discard : Bool → Op
  deactivate_all : Bool → Bool → Op

abbrev pub perform : Op → Option Manager → Option (Exception × Option Manager)
perform activate = manager_activate
perform (hold wait) = manager_hold_requests wait
perform (discard wait) = manager_discard_requests wait
perform (deactivate_all etherealize wait) = manager_deactivate etherealize wait

abbrev goal : Op → ManagerState
goal activate = active
goal (hold wait) = holding
goal (discard wait) = discarding
goal (deactivate_all etherealize wait) = inactive

abbrev pub refused : Op → Manager → Bool
refused activate m = false
refused (hold wait) m = false
refused (discard wait) m = false
refused (deactivate_all etherealize wait) m = wait && any_idle m.poa_collection

-- The report and the state that an operation leaves.
abbrev pub outcome : Exception × Option Manager → Exception × Option ManagerState
outcome (e, none) = (e, none)
outcome (e, some m) = (e, some m.state)

abbrev pub expected : Op → Manager → Exception × Option ManagerState
expected op m =
    if is_inactive m.state
    then (adapter_inactive, some m.state)
    else if refused op m
    then (bad_inv_order, some m.state)
    else (no_exception, some (goal op))

-- Every operation that comes back from a manager that is not inactive has led to the operation's own
-- state, whatever the state was, and reports nothing; an inactive manager stays inactive and reports
-- it; a deactivation that is to wait leaves the state alone and reports BAD_INV_ORDER if some POA is
-- idle.
pub outcome-perform :
    (op : Op) (m : Manager) (r : Exception × Option Manager)
    → perform op (some m) ≡ some r
    → outcome r ≡ expected op m
unfolding manager_activate manager_hold_requests manager_discard_requests manager_deactivate
outcome-perform activate m r h = ground arith
outcome-perform (hold wait) m r h = ground arith
outcome-perform (discard wait) m r h = ground arith
outcome-perform (deactivate_all etherealize wait) m r h = ground arith
