-- ===== src/Firewall/Conflict.antt =====
-- The claims of the nodes on UDP ports.
use Prim.Native.String.{String}
use mathlib.Core.Path.{subst}
use text.Mathlib.TextEquality.{eq_iff}
use yzboard_node.Prelude.{
  ok, ℕ, ◌≡◌, refl, ◌∙◌, ◌⊎◌, inl, inr, Bool, true, false, ◌&&◌, ◌||◌, List, [], ◌∷◌, ◌++◌,
  if◌then◌else◌, arith, ◌==◌, nat_Eq, string_Eq, Bool-cases, Dict, erase,
}
use yzboard_node.Portset
use yzboard_node.Firewall.{Rule, Plan, ok}
use yzboard_node.Firewall.Combine.{
  listener_claims, claims_of, clashes, clashes_any, any_clash, combine_plans,
}

-- The rule stands in the list.
abbrev pub In : Rule → List Rule → Type 0
In r [] = ⊥
In r (x ∷ xs) = (r ≡ x) ⊎ In r xs

clashes_self : (a : Rule) → clashes a a ≡ false
unfolding clashes
clashes_self a = ground arith

clashes_comm : (a b : Rule) → clashes a b ≡ clashes b a
unfolding clashes Portset.overlaps
clashes_comm a b = ground (arith, eq_iff a.address b.address, eq_iff b.address a.address)

clashes_any-In :
    (a b : Rule) (cs : List Rule) → clashes_any a cs ≡ false → In b cs → clashes a b ≡ false
unfolding clashes_any
clashes_any-In a b [] h m = absurd m
clashes_any-In a b (c ∷ cs) h (inl e) = ground arith
clashes_any-In a b (c ∷ cs) h (inr m) = clashes_any-In a b cs (ground arith) m

any_clash-In :
    (a b : Rule) (cs : List Rule) → any_clash cs ≡ false → In a cs → In b cs → clashes a b ≡ false
unfolding any_clash
any_clash-In a b [] h m k = absurd m
any_clash-In a b (c ∷ cs) h (inl e) (inl e') = ground (arith, clashes_self c)
any_clash-In a b (c ∷ cs) h (inl e) (inr k) = rw e (clashes_any-In c b cs (ground arith) k)
any_clash-In a b (c ∷ cs) h (inr m) (inl e) =
    clashes_comm a b ∙ rw e (clashes_any-In c a cs (ground arith) m)
any_clash-In a b (c ∷ cs) h (inr m) (inr k) = any_clash-In a b cs (ground arith) m k

-- Two claims concern one address.
abbrev pub meets : Rule → Rule → Bool
meets a b = a.family == b.family && (a.address == "" || b.address == "" || a.address == b.address)

clashes-contains :
    (a b : Rule) (p : ℕ)
    → clashes a b ≡ false
    → meets a b ≡ true
    → Portset.contains a.ports p ≡ true
    → Portset.contains b.ports p ≡ true
    → a.target ≡ b.target
unfolding clashes Portset.overlaps Portset.contains
clashes-contains a b p h m k l = ground arith

pub combine_ok :
    (plans : Dict String Plan) {r : List Rule × List Rule}
    → combine_plans plans ≡ ok r
    → any_clash (claims_of plans) ≡ false
unfolding combine_plans
combine_ok plans e = ground arith

-- If the plans of the nodes are combined, then no UDP port of an address is claimed for two targets: of
-- any two claims (a UDP listener's own port, or a redirect) that concern one address and hold one
-- port, the targets are the same.
pub combine_plans-targets :
    (plans : Dict String Plan) (allows redirects : List Rule) (a b : Rule) (p : ℕ)
    → combine_plans plans ≡ ok (allows, redirects)
    → In a (claims_of plans)
    → In b (claims_of plans)
    → meets a b ≡ true
    → Portset.contains a.ports p ≡ true
    → Portset.contains b.ports p ≡ true
    → a.target ≡ b.target
combine_plans-targets plans allows redirects a b p e i j m k l =
    clashes-contains a b p (any_clash-In a b (claims_of plans) (combine_ok plans e) i j) m k l

clashes_any_none :
    (a : Rule) (cs : List Rule)
    → ((b : Rule) → In b cs → clashes a b ≡ false)
    → clashes_any a cs ≡ false
unfolding clashes_any
clashes_any_none a [] h = refl
clashes_any_none a (c ∷ cs) h =
    ground (arith, h c (inl refl), clashes_any_none a cs (λ b m. h b (inr m)))

any_clash_none :
    (cs : List Rule)
    → ((a b : Rule) → In a cs → In b cs → clashes a b ≡ false)
    → any_clash cs ≡ false
unfolding any_clash
any_clash_none [] h = refl
any_clash_none (c ∷ cs) h = ground (
  arith,
  clashes_any_none c cs (λ b m. h c b (inl refl) (inr m)),
  any_clash_none cs (λ a b m k. h a b (inr m) (inr k)),
)

In-append_left : (r : Rule) (xs ys : List Rule) → In r xs → In r (xs ++ ys)
In-append_left r [] ys m = absurd m
In-append_left r (x ∷ xs) ys (inl e) = inl e
In-append_left r (x ∷ xs) ys (inr m) = inr (In-append_left r xs ys m)

In-append_right : (r : Rule) (xs ys : List Rule) → In r ys → In r (xs ++ ys)
In-append_right r [] ys m = m
In-append_right r (x ∷ xs) ys m = inr (In-append_right r xs ys m)

In-append_cases : (r : Rule) (xs ys : List Rule) → In r (xs ++ ys) → In r xs ⊎ In r ys
In-append_cases r [] ys m = inr m
In-append_cases r (x ∷ xs) ys (inl e) = inl (inl e)
In-append_cases r (x ∷ xs) ys (inr m) = elim (In-append_cases r xs ys m) [
  | inl k ↦ inl (inr k)
  | inr k ↦ inr k
]

claims-erase :
    (owner : String) (plans : Dict String Plan) (r : Rule)
    → In r (claims_of (erase owner plans))
    → In r (claims_of plans)
claims-erase owner [] r m = m
claims-erase owner ((j, p) ∷ plans) r m = elim (Bool-cases (j == owner)) [
  | inl e ↦ In-append_right r (listener_claims p.listeners) _ (
      In-append_right r p.redirects _ (
        claims-erase owner plans r (
          subst
            (λ t. In r (claims_of (if t then erase owner plans else (j, p) ∷ erase owner plans))) e
            m)))
  | inr e ↦
      elim (In-append_cases r (listener_claims p.listeners) _ (
        subst (λ t. In r (claims_of (if t then erase owner plans else (j, p) ∷ erase owner plans)))
          e m)) [
            | inl k ↦ In-append_left r (listener_claims p.listeners) _ k
            | inr k ↦
                In-append_right r (listener_claims p.listeners) _
                  (elim (In-append_cases r p.redirects _ k) [
                    | inl x ↦ In-append_left r p.redirects _ x
                    | inr x ↦ In-append_right r p.redirects _ (claims-erase owner plans r x)
                  ])
          ]
]

-- If the plans of the nodes combine, they do so without the plan of one owner.
pub erase-combines :
    (owner : String) (plans : Dict String Plan)
    → any_clash (claims_of plans) ≡ false
    → any_clash (claims_of (erase owner plans)) ≡ false
erase-combines owner plans h = any_clash_none (claims_of (erase owner plans)) λ a b m k.
    any_clash-In a b (claims_of plans) h (claims-erase owner plans a m)
      (claims-erase owner plans b k)
