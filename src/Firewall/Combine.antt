-- ===== src/Firewall/Combine.antt =====
-- internal/firewall/plan.go: `combinePlans` and `mergeRules`.
use Prim.Native.String.{String}
use mathlib.Core.List.{foldl}
use yzboard_node.Prelude.{
  ok, err, ℕ, zero, suc, ◌+◌, ◌/◌, ◌%◌, Bool, true, false, not, ◌&&◌, ◌||◌, List, [], ◌∷◌, ◌++◌,
  if◌then◌else◌, ltb, Dict, ◌==◌, nat_Eq, string_Eq, codes,
}
use yzboard_node.Portset
use yzboard_node.Portset.{Range}
use yzboard_node.Firewall.{Rule, Plan, Result, conflict}

-- The decimal digits of a number, before those in `out`; a number below `fuel` has fewer digits.
unfoldable pub digits : ℕ → ℕ → List ℕ → List ℕ
digits zero n out = out
digits (suc fuel) n out =
    let rest = digits fuel (n / 10) ((b'0' + n % 10) ∷ out) in
    if ltb n 10 then (b'0' + n) ∷ out else rest

-- `strconv.Itoa`
unfoldable pub itoa : ℕ → List ℕ
unfolding digits
itoa n = digits (suc n) n []

-- `Range.String`
unfoldable pub range_text : Range → List ℕ
unfolding itoa
range_text r = if r.from == r.to then itoa r.from else itoa r.from ++ b'-' ∷ itoa r.to

-- `Rule.key`
unfoldable pub key : Rule → List ℕ
unfolding range_text itoa
key r =
    itoa r.family
    ++ b'/'
      ∷ (codes r.address
          ++ b'/' ∷ (codes r.protocol ++ b'/' ∷ (range_text r.ports ++ b'/' ∷ itoa r.target)))

-- Go's `<` on texts.
unfoldable pub text_less : List ℕ → List ℕ → Bool
text_less xs [] = false
text_less [] (y ∷ ys) = true
text_less (x ∷ xs) (y ∷ ys) =
    let rest = text_less xs ys in if ltb x y then true else if ltb y x then false else rest

-- `sort.Slice` by the key.
unfoldable pub insert_rule : Rule → List Rule → List Rule
insert_rule r [] = r ∷ []
insert_rule r (x ∷ xs) =
    let rest = insert_rule r xs in if text_less (key x) (key r) then x ∷ rest else r ∷ x ∷ xs

unfoldable pub sort_rules : List Rule → List Rule
sort_rules [] = []
sort_rules (r ∷ rs) = insert_rule r (sort_rules rs)

-- Two rules with one group key, `family/address/protocol/target`. The texts of addresses and
-- protocols hold no slash, so the keys are equal where all four parts are.
unfoldable pub same_group : Rule → Rule → Bool
same_group a b =
    a.family == b.family
    && a.address == b.address
    && a.protocol == b.protocol
    && a.target == b.target

pub record Group : Type 0 where
  pub rule : Rule
  pub ports : List Range

-- One round of the grouping loop.
unfoldable pub put_rule : List Group → Rule → List Group
put_rule [] rule = record { rule = rule; ports = rule.ports ∷ [] } ∷ []
put_rule (g ∷ gs) rule =
    let rest = put_rule gs rule in
    if same_group g.rule rule
    then record g { ports = g.ports ++ rule.ports ∷ [] } ∷ gs
    else g ∷ rest

abbrev pub with_ports : Rule → List Range → List Rule
with_ports rule [] = []
with_ports rule (ports ∷ rest) = record rule { ports = ports } ∷ with_ports rule rest

abbrev pub merge_groups : List Group → List Rule
merge_groups [] = []
merge_groups (g ∷ gs) = with_ports g.rule (Portset.merge g.ports) ++ merge_groups gs

-- `mergeRules`, for any order in which the map of groups is visited.
unfoldable pub merge_rules : List Rule → List Rule
unfolding put_rule
merge_rules rules = sort_rules (merge_groups (foldl put_rule [] rules))

-- The claim of a listener on its UDP port.
abbrev pub listener_claims : List Rule → List Rule
listener_claims [] = []
listener_claims (l ∷ ls) =
    let rest = listener_claims ls in
    if l.protocol == "udp" then record l { target = l.ports.from } ∷ rest else rest

abbrev pub opened : List Rule → List Rule
opened [] = []
opened (r ∷ rs) = record r { target = 0 } ∷ opened rs

-- The three lists of the first loop in `combinePlans`.
abbrev pub claims_of : Dict String Plan → List Rule
claims_of [] = []
claims_of ((owner, p) ∷ plans) = listener_claims p.listeners ++ (p.redirects ++ claims_of plans)

abbrev pub allows_of : Dict String Plan → List Rule
allows_of [] = []
allows_of ((owner, p) ∷ plans) = p.listeners ++ (opened p.redirects ++ allows_of plans)

abbrev pub redirects_of : Dict String Plan → List Rule
redirects_of [] = []
redirects_of ((owner, p) ∷ plans) = p.redirects ++ redirects_of plans

-- The test in the second loop.
unfoldable pub clashes : Rule → Rule → Bool
clashes left right =
    left.family == right.family
    && (left.address == "" || right.address == "" || left.address == right.address)
    && Portset.overlaps left.ports right.ports
    && not (left.target == right.target)

unfoldable pub clashes_any : Rule → List Rule → Bool
clashes_any left [] = false
clashes_any left (right ∷ rest) = clashes left right || clashes_any left rest

unfoldable pub any_clash : List Rule → Bool
unfolding clashes_any
any_clash [] = false
any_clash (left ∷ rest) = clashes_any left rest || any_clash rest

-- The allowed rules and the redirects.
unfoldable pub combine_plans : Dict String Plan → Result (List Rule × List Rule)
combine_plans plans =
    if any_clash (claims_of plans)
    then err conflict
    else ok (merge_rules (allows_of plans), merge_rules (redirects_of plans))
