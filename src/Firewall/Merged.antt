-- ===== src/Firewall/Merged.antt =====
-- `mergeRules` lets through what the rules let through.
use mathlib.Core.List.{foldl}
use text.Mathlib.TextEquality.{eq_iff}
use yzboard_node.Prelude.{
  ℕ, ◌≡◌, refl, Bool, true, false, ◌&&◌, ◌||◌, List, [], ◌∷◌, ◌++◌, arith, All, nat_Eq, string_Eq,
  Bool-cases, inl, inr,
}
use yzboard_node.Portset
use yzboard_node.Portset.{Range}
use yzboard_node.Portset.Cover.{covers, covers-append, covers-merge, IsProper}
use yzboard_node.Firewall.{Rule}
use yzboard_node.Firewall.Combine.{
  insert_rule, sort_rules, same_group, Group, put_rule, with_ports, merge_groups, merge_rules,
}

-- Some rule of the list has the family, address, protocol and target of `q`, and holds the port.
abbrev pub permits : Rule → ℕ → List Rule → Bool
permits q p [] = false
permits q p (r ∷ rs) = (same_group r q && Portset.contains r.ports p) || permits q p rs

abbrev permits_groups : Rule → ℕ → List Group → Bool
permits_groups q p [] = false
permits_groups q p (g ∷ gs) = (same_group g.rule q && covers p g.ports) || permits_groups q p gs

-- Every group has proper ranges.
abbrev IsProperGroups : List Group → Type 0
IsProperGroups [] = Unit
IsProperGroups (g ∷ gs) = All IsProper g.ports × IsProperGroups gs

same_group_cong : (a b q : Rule) → same_group a b ≡ true → same_group a q ≡ same_group b q
unfolding same_group
same_group_cong a b q h = ground (arith, eq_iff a.address b.address, eq_iff a.protocol b.protocol)

permits-insert_rule :
    (q : Rule) (p : ℕ) (r : Rule) (xs : List Rule)
    → permits q p (insert_rule r xs)
      ≡ ((same_group r q && Portset.contains r.ports p) || permits q p xs)
unfolding insert_rule
permits-insert_rule q p r [] = refl
permits-insert_rule q p r (x ∷ xs) = ground (arith, permits-insert_rule q p r xs)

permits-sort_rules :
    (q : Rule) (p : ℕ) (rs : List Rule) → permits q p (sort_rules rs) ≡ permits q p rs
unfolding sort_rules
permits-sort_rules q p [] = refl
permits-sort_rules q p (r ∷ rs) =
    ground (arith, permits-insert_rule q p r (sort_rules rs), permits-sort_rules q p rs)

permits-put_rule :
    (q : Rule) (p : ℕ) (gs : List Group) (r : Rule)
    → permits_groups q p (put_rule gs r)
      ≡ ((same_group r q && Portset.contains r.ports p) || permits_groups q p gs)
unfolding put_rule
permits-put_rule q p [] r = ground arith
permits-put_rule q p (g ∷ gs) r = ground (
  arith,
  same_group_cong g.rule r q,
  covers-append p g.ports (r.ports ∷ []),
  permits-put_rule q p gs r,
)

permits-put_rules :
    (q : Rule) (p : ℕ) (rs : List Rule) (gs : List Group)
    → permits_groups q p (foldl put_rule gs rs) ≡ (permits q p rs || permits_groups q p gs)
permits-put_rules q p [] gs = refl
permits-put_rules q p (r ∷ rs) gs =
    ground (arith, permits-put_rule q p gs r, permits-put_rules q p rs (put_rule gs r))

permits-append :
    (q : Rule) (p : ℕ) (xs ys : List Rule)
    → permits q p (xs ++ ys) ≡ (permits q p xs || permits q p ys)
permits-append q p [] ys = refl
permits-append q p (x ∷ xs) ys = ground (arith, permits-append q p xs ys)

permits-with_ports :
    (q : Rule) (p : ℕ) (rule : Rule) (rs : List Range)
    → permits q p (with_ports rule rs) ≡ (same_group rule q && covers p rs)
unfolding same_group
permits-with_ports q p rule [] = ground arith
permits-with_ports q p rule (r ∷ rs) = ground (arith, permits-with_ports q p rule rs)

permits-merge_groups :
    (q : Rule) (p : ℕ) (gs : List Group)
    → IsProperGroups gs
    → permits q p (merge_groups gs) ≡ permits_groups q p gs
permits-merge_groups q p [] h = refl
permits-merge_groups q p (g ∷ gs) (h, hs) = ground (
  arith,
  permits-append q p (with_ports g.rule (Portset.merge g.ports)) (merge_groups gs),
  permits-with_ports q p g.rule (Portset.merge g.ports),
  covers-merge p g.ports h,
  permits-merge_groups q p gs hs,
)

All-snoc :
    (rs : List Range) (r : Range) → All IsProper rs → IsProper r → All IsProper (rs ++ r ∷ [])
All-snoc [] r h k = (k, tt)
All-snoc (x ∷ rs) r (h, hs) k = (h, All-snoc rs r hs k)

put_rule-IsProperGroups :
    (gs : List Group) (r : Rule)
    → IsProperGroups gs
    → IsProper r.ports
    → IsProperGroups (put_rule gs r)
unfolding put_rule
put_rule-IsProperGroups [] r h k = ((k, tt), tt)
put_rule-IsProperGroups (g ∷ gs) r (h, hs) k = elim (Bool-cases (same_group g.rule r)) [
  | inl e ↦ rw e (All-snoc g.ports r.ports h k, hs)
  | inr e ↦ rw e (h, put_rule-IsProperGroups gs r hs k)
]

put_rules-IsProperGroups :
    (rs : List Rule) (gs : List Group)
    → IsProperGroups gs
    → All (λ r. IsProper r.ports) rs
    → IsProperGroups (foldl put_rule gs rs)
put_rules-IsProperGroups [] gs h k = h
put_rules-IsProperGroups (r ∷ rs) gs h (k, ks) =
    put_rules-IsProperGroups rs (put_rule gs r) (put_rule-IsProperGroups gs r h k) ks

-- The merged rules let a port through for a family, address, protocol and target exactly where the
-- given rules do, if the ranges of the given rules hold a port each.
pub permits-merge_rules :
    (q : Rule) (p : ℕ) (rs : List Rule)
    → All (λ r. IsProper r.ports) rs
    → permits q p (merge_rules rs) ≡ permits q p rs
unfolding merge_rules
permits-merge_rules q p rs h =
    let gs = foldl put_rule [] rs in
    ground (
      arith,
      permits-sort_rules q p (merge_groups gs),
      permits-merge_groups q p gs (put_rules-IsProperGroups rs [] tt h),
      permits-put_rules q p rs [],
    )
