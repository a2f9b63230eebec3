-- ===== src/Firewall/Manager/Plans.antt =====
-- The plans that the manager holds, and what its backend is told.
use Prim.Native.String.{String}
use yzboard_node.Prelude.{
  ok, err, ℕ, ◌≡◌, refl, sym, ap, inl, inr, true, false, not, ◌&&◌, Option, none, some, List, arith,
  ltb, length, Dict, insert, erase, contains, lookup, lookup-erase, ◌==◌, string_Eq, Bool-cases,
  if◌then◌else◌,
}
use mathlib.Core.Path.{subst}
use text.Mathlib.TextEquality.{eq_iff}
use yzboard_node.Firewall as Firewall
use yzboard_node.Model.{NodeSpec}
use yzboard_node.Firewall.{Rule, Plan, Netip, plan_for_node}
use yzboard_node.Firewall.Combine.{combine_plans, any_clash, claims_of}
use yzboard_node.Firewall.Conflict.{combine_ok, erase-combines}
use yzboard_node.Firewall.Manager.{
  Backend, Manager, Error, backend_result, run_backend, reconcile, commit, apply_plan, apply,
  release,
}

module _ (b : Backend) where
  open b use {State}

  -- The plans that the manager holds combine.
  abbrev pub IsConsistent : Manager b → Type 0
  IsConsistent m = any_clash (claims_of m.plans) ≡ false

  pub reconcile-plans : (m : Manager b) → (reconcile b m).0.plans ≡ m.plans
  unfolding reconcile
  reconcile-plans m = ground arith

  reconcile-IsConsistent :
      (m : Manager b) → any_clash (claims_of m.plans) ≡ false → IsConsistent (reconcile b m).0
  reconcile-IsConsistent m h = rw (reconcile-plans m) h

  commit-IsConsistent :
      (r : Firewall.Result (List Rule × List Rule)) (candidate : Dict String Plan) (m : Manager b)
      → IsConsistent m
      → ((rules : List Rule × List Rule) → r ≡ ok rules → any_clash (claims_of candidate) ≡ false)
      → IsConsistent (commit b r candidate m).0
  commit-IsConsistent (err e) candidate m h k = h
  commit-IsConsistent (ok rules) candidate m h k =
      reconcile-IsConsistent (record m { plans = candidate }) (k rules refl)

  apply_plan-IsConsistent :
      (r : Firewall.Result Plan) (owner : String) (m : Manager b)
      → IsConsistent m
      → IsConsistent (apply_plan b r owner m).0
  apply_plan-IsConsistent (err e) owner m h = h
  apply_plan-IsConsistent (ok plan) owner m h =
      elim (Bool-cases (not m.linux && ltb 0 (length plan.redirects))) [
        | inl e ↦ rw e h
        | inr e ↦ rw e (
            commit-IsConsistent (combine_plans (insert owner plan m.plans))
              (insert owner plan m.plans) m h λ rules eq. combine_ok (insert owner plan m.plans) eq)
      ]

  -- If the plans that the manager holds combine, those it holds after `Apply` do, whatever `Apply`
  -- ends with: a plan that cannot be made, one that conflicts, or an error of the backend.
  pub apply-IsConsistent :
      (ip : Netip) (owner : String) (spec : Option NodeSpec) (kernel_type : String) (m : Manager b)
      → IsConsistent m
      → IsConsistent (apply b ip owner spec kernel_type m).0
  unfolding apply
  apply-IsConsistent ip owner spec kernel_type m h =
      ground (arith, apply_plan-IsConsistent (plan_for_node ip spec kernel_type) owner m h)

  -- The backend, where there is one, has ended a round without an error on the union of the plans.
  abbrev pub HasRun : Dict String Plan → Option State → Type 0
  HasRun plans none = Unit
  HasRun plans (some after) =
      (rules : List Rule × List Rule) × (before : State) × (combine_plans plans ≡ ok rules)
      × (b.apply rules.0 rules.1 before ≡ (after, none))

  abbrev pub IsInForce : Manager b → Type 0
  IsInForce m = HasRun m.plans m.backend

  backend_result-none : (e : Option ℕ) → backend_result e ≡ none → e ≡ none
  backend_result-none none h = refl
  backend_result-none (some x) h = cc

  run_backend-IsInForce :
      (r : Firewall.Result (List Rule × List Rule)) (s : State) (m : Manager b)
      → combine_plans m.plans ≡ r
      → (run_backend b r s m).1 ≡ none
      → IsInForce (run_backend b r s m).0
  run_backend-IsInForce (err e) s m c h = cc
  run_backend-IsInForce (ok rules) s m c h = (
    rules,
    s,
    c,
    ap (λ e. ((b.apply rules.0 rules.1 s).0, e))
        (backend_result-none (b.apply rules.0 rules.1 s).1 h),
  )

  abbrev reconciled : Manager b → Option State → Manager b × Option Error
  reconciled m none = (m, none)
  reconciled m (some s) = run_backend b (combine_plans m.plans) s m

  reconciled-IsInForce :
      (m : Manager b) (o : Option State)
      → m.backend ≡ o
      → (reconciled m o).1 ≡ none
      → IsInForce (reconciled m o).0
  reconciled-IsInForce m none e h = subst (HasRun m.plans) (sym e) tt
  reconciled-IsInForce m (some s) e h = run_backend-IsInForce (combine_plans m.plans) s m refl h

  reconcile_lem : (m : Manager b) → reconcile b m ≡ reconciled m m.backend
  unfolding reconcile
  reconcile_lem m = ground arith

  pub reconcile-IsInForce : (m : Manager b) → (reconcile b m).1 ≡ none → IsInForce (reconcile b m).0
  reconcile-IsInForce m h =
      rw (reconcile_lem m) (reconciled-IsInForce m m.backend refl (rw (reconcile_lem m) at h))

  -- What is left under each name once an owner's plan is released.
  abbrev pub IsReleased : String → Manager b → Manager b → Type 0
  IsReleased owner m m' =
      (other : String)
      → lookup other m'.plans ≡ (if owner == other then none else lookup other m.plans)

  release_open-IsReleased :
      (owner : String) (m : Manager b) → m.closed ≡ false → IsReleased owner m (release b owner m).0
  unfolding release
  release_open-IsReleased owner m open_manager other = ground (
    arith,
    eq_iff owner other,
    reconcile-plans (record m { plans = erase owner m.plans }),
    lookup-erase owner other m.plans,
  )

  -- `Release` of a manager that is not closed takes out the owner's plan, whether it ends with an error or
  -- not, and leaves every other plan as it was; if there was such a plan and it ends with no error, the
  -- backend, where there is one, has ended a round without an error on the union of what is left. If the
  -- plans combined, they still do. A closed manager is left as it was.
  pub release-IsReleased :
      (owner : String) (m : Manager b)
      → let (m', e) = release b owner m in
        (m.closed ≡ false → IsReleased owner m m')
        × (m.closed ≡ false → contains owner m.plans ≡ true → e ≡ none → IsInForce m')
        × (IsConsistent m → IsConsistent m')
        × (m.closed ≡ true → m' ≡ m)
  unfolding release
  release-IsReleased owner m = (
    release_open-IsReleased owner m,
    (λ open_manager held done. ground (
      arith,
      open_manager,
      held,
      done,
      reconcile-IsInForce (record m { plans = erase owner m.plans }),
    )),
    (λ h. ground (
      arith,
      reconcile-IsConsistent (record m { plans = erase owner m.plans })
          (erase-combines owner m.plans h),
    )),
    λ closed_manager. ground (arith, closed_manager),
  )
