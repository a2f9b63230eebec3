-- ===== src/Firewall/Manager.antt =====
-- internal/firewall/manager.go: the plans of the running nodes, and the backend that is told of them.
pub mod Plans
pub mod Controlled
use Prim.Native.String.{String}
use yzboard_node.Prelude.{
  ok, err, ℕ, ◌≡◌, refl, Bool, true, false, not, ◌&&◌, ◌||◌, Option, none, some, List, [], ◌∷◌,
  if◌then◌else◌, ltb, length, Dict, lookup, contains, insert, erase, string_Eq,
}
use yzboard_node.Model.{NodeSpec}
use yzboard_node.Firewall.{Rule, Plan, Netip, plan_for_node}
use yzboard_node.Firewall as Firewall
use yzboard_node.Firewall.Combine.{combine_plans}

-- What a call of the manager or of its backend ends with.
pub data Error : Type 0 where
  stopped redirects_unsupported : Error
  plan_error : Firewall.Error → Error
  -- What the backend reports.
  backend_error : ℕ → Error

-- The backend: its state, and one round of `Apply` on the allowed rules and the redirects. It is
-- `systemBackend`, or a test's own.
pub record Backend : Type 1 where
  pub State : Type 0
  pub apply : List Rule → List Rule → State → State × Option ℕ
  pub close : State → State × Option ℕ

abbrev pub backend_result : Option ℕ → Option Error
backend_result none = none
backend_result (some e) = some (backend_error e)

-- The first error of two.
abbrev pub first_error : Option Error → Option Error → Option Error
first_error none e = e
first_error (some e) other = some e

module _ (b : Backend) where
  open b use {State}

  -- `backend` is missing where the system is not Linux.
  pub record Manager : Type 0 where
    pub plans : Dict String Plan
    pub backend : Option State
    pub enabled : Bool
    pub linux : Bool
    pub closed : Bool
    pub last_err : Option Error

  -- `Apply` of the backend within `reconcile`, with what `combinePlans` gave.
  abbrev pub run_backend :
      Firewall.Result (List Rule × List Rule) → State → Manager → Manager × Option Error
  run_backend (err e) s m = (record m { last_err = some (plan_error e) }, some (plan_error e))
  run_backend (ok (allows, redirects)) s m =
      let (s', e) = b.apply allows redirects s in
      (record m { backend = some s'; last_err = backend_result e }, backend_result e)

  unfoldable pub reconcile : Manager → Manager × Option Error
  reconcile m = elim (m.backend) [
    | none ↦ (m, none)
    | some s ↦ run_backend (combine_plans m.plans) s m
  ]

  -- The end of `Apply`, with the candidate's plans.
  abbrev pub commit :
      Firewall.Result (List Rule × List Rule) → Dict String Plan → Manager → Manager × Option Error
  commit (err e) candidate m = (m, some (plan_error e))
  commit (ok rules) candidate m = reconcile (record m { plans = candidate })

  abbrev pub apply_plan : Firewall.Result Plan → String → Manager → Manager × Option Error
  apply_plan (err e) owner m = (m, some (plan_error e))
  apply_plan (ok plan) owner m =
      if not m.linux && ltb 0 (length plan.redirects)
      then (m, some redirects_unsupported)
      else commit (combine_plans (insert owner plan m.plans)) (insert owner plan m.plans) m

  -- `Apply`
  unfoldable pub apply :
      Netip → String → Option NodeSpec → String → Manager → Manager × Option Error
  apply ip owner node kernel_type m =
      if m.closed
      then (m, some stopped)
      else if not m.enabled
      then (m, none)
      else apply_plan (plan_for_node ip node kernel_type) owner m

  abbrev pub is_none {ℓ} : {A : Type ℓ} → Option A → Bool
  is_none none = true
  is_none (some a) = false

  -- `Release`
  unfoldable pub release : String → Manager → Manager × Option Error
  release owner m =
      if m.closed
      then (m, none)
      else if not (contains owner m.plans) && is_none m.last_err
      then (m, none)
      else reconcile (record m { plans = erase owner m.plans })

  -- The last part of `Close`, behind the reconciliation, which closes the backend.
  abbrev pub close_backend : Option State → Manager × Option Error → Manager × Option Error
  close_backend none (m, e) = (record m { closed = true }, e)
  close_backend (some s) (m, e) =
      let (s', f) = b.close s in
      (record m { closed = true; backend = some s' }, first_error e (backend_result f))

  -- `Close`, once the periodic check has ended.
  unfoldable pub close : Manager → Manager × Option Error
  close m =
      if m.closed
      then (m, none)
      else let r = reconcile (record m { plans = [] }) in close_backend (r.0.backend) r
