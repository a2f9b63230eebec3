-- ===== src/Firewall/Manager/Controlled.antt =====
-- internal/firewall/manager.go as the controller of the service with one name (internal/service/firewall.go).
use Prim.Native.String.{String}
use yzboard_node.Prelude.{
  ok, err, ◌≡◌, refl, ◌⊎◌, inl, inr, Bool, true, false, not, ◌&&◌, Option, none, some, List, arith,
  ltb, length, Dict, lookup, lookup-insert, insert, string_Eq, Bool-cases, if◌then◌else◌,
}
use text.Mathlib.TextEquality.{eq_iff}
use yzboard_node.Firewall as Firewall
use yzboard_node.Model.{NodeSpec}
use yzboard_node.Firewall.{Rule, Plan, Netip, plan_for_node}
use yzboard_node.Firewall.Combine.{combine_plans}
use yzboard_node.Firewall.Manager.{
  Backend, Manager, Error, stopped, commit, apply_plan, apply, release, is_none,
}
use yzboard_node.Firewall.Manager.Plans.{IsInForce, reconcile-IsInForce, reconcile-plans}
use yzboard_node.Runtime.{Controller}
use yzboard_node.Runtime.Laws.{IsController}

module _ (b : Backend) where
  -- The manager holds the owner's plan, and the backend, where there is one, has ended a round without an
  -- error on the union of all plans.
  abbrev pub Holds : String → Plan → Manager b → Type 0
  Holds owner plan m = (lookup owner m.plans ≡ some plan) × IsInForce b m

  lookup-inserted :
      (owner : String) (plan : Plan) (m : Dict String Plan)
      → lookup owner (insert owner plan m) ≡ some plan
  lookup-inserted owner plan m =
      ground (arith, lookup-insert owner plan owner m, eq_iff owner owner)

  commit-Holds :
      (r : Firewall.Result (List Rule × List Rule)) (owner : String) (plan : Plan) (m : Manager b)
      → (commit b r (insert owner plan m.plans) m).1 ≡ none
      → Holds owner plan (commit b r (insert owner plan m.plans) m).0
  commit-Holds (err e) owner plan m h = cc
  commit-Holds (ok rules) owner plan m h =
      let m' = record m { plans = insert owner plan m.plans } in
      (rw (reconcile-plans b m') (lookup-inserted owner plan m.plans), reconcile-IsInForce b m' h)

  apply_plan-Holds :
      (r : Firewall.Result Plan) (owner : String) (m : Manager b)
      → (apply_plan b r owner m).1 ≡ none
      → (plan : Plan) × (r ≡ ok plan) × Holds owner plan (apply_plan b r owner m).0
  apply_plan-Holds (err e) owner m h = cc
  apply_plan-Holds (ok plan) owner m h =
      elim (Bool-cases (not m.linux && ltb 0 (length plan.redirects))) [
        | inl e ↦ cc (rw e at h)
        | inr e ↦ (
          plan,
          refl,
          rw e (commit-Holds (combine_plans (insert owner plan m.plans)) owner plan m (rw e at h)),
        )
      ]

  either_branch :
      (P : Manager b → Type 0) (x : Bool) (r1 r2 : Manager b × Option Error)
      → (if x then r1 else r2).1 ≡ none
      → (x ≡ true → r1.1 ≡ none → P r1.0)
      → (x ≡ false → r2.1 ≡ none → P r2.0)
      → P (if x then r1 else r2).0
  either_branch P true r1 r2 h f g = f refl h
  either_branch P false r1 r2 h f g = g refl h

  module _ (ip : Netip) (owner : String) where
    -- What `Apply` promises: the manager is switched off, or it holds the plan of this node.
    abbrev pub IsApplied : Manager b → NodeSpec → String → Type 0
    IsApplied m n kernel_type =
        (m.enabled ≡ false)
        ⊎ ((plan : Plan) × (plan_for_node ip (some n) kernel_type ≡ ok plan) × Holds owner plan m)

    -- If `Apply` ends with no error, the manager is switched off, or it holds the plan that the node has for
    -- the type of its kernel, and the backend, where there is one, has ended a round without an error on the
    -- union of all the plans held.
    pub apply-IsApplied :
        (m : Manager b) (n : NodeSpec) (kernel_type : String)
        → (apply b ip owner (some n) kernel_type m).1 ≡ none
        → IsApplied (apply b ip owner (some n) kernel_type m).0 n kernel_type
    unfolding apply
    apply-IsApplied m n kernel_type h =
        let P : Manager b → Type 0 = λ m'. IsApplied m' n kernel_type in
        either_branch P m.closed (m, some stopped) _ h (λ e x. cc (x))
          (λ e x.
            either_branch P (not m.enabled) (m, none) _ x (λ off y. inl (ground (arith, off)))
              (λ on y. inr (apply_plan-Holds (plan_for_node ip (some n) kernel_type) owner m y)))

    -- `Apply` and `Release` for the one owner, with whether they end without an error.
    abbrev pub controller : Controller
    controller = record {
      State = Manager b;
      apply = λ m n kernel_type.
          let r = apply b ip owner (some n) kernel_type m in (r.0, is_none b r.1);
      release = λ m. let r = release b owner m in (r.0, is_none b r.1);
    }

    is_none_lem : (e : Option Error) → is_none b e ≡ true → e ≡ none
    is_none_lem none h = refl
    is_none_lem (some e) h = cc

    -- The manager is a controller of the service.
    pub manager-IsController : IsController controller
    manager-IsController = record {
      IsApplied = IsApplied;
      applied = λ m n kernel_type h.
          apply-IsApplied m n kernel_type
            (is_none_lem (apply b ip owner (some n) kernel_type m).1 h);
    }
