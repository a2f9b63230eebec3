-- ===== src/Firewall/Owned/Recorded.antt =====
-- The rules that the backend owns are in its file before they are in force, whatever a save comes to.
use mathlib.Core.Path.{subst}
use text.Mathlib.TextEquality.{eq_iff}
use yzboard_node.Prelude.{
  ◌≡◌, ◌≢◌, ◌⊎◌, refl, sym, ap, true, false, ◌||◌, none, List, [], ◌∷◌, ◌++◌, nat_Eq, string_Eq,
  arith, Bool-cases, inl, inr,
}
use yzboard_node.Firewall.Combine.{same_group}
use yzboard_node.Firewall.Owned.{
  OwnedRule, Saving, written, unwritten, unsynced, same_owned, owns, remove_owned, Tools,
  SystemBackend, save_next, save, undo, with_owned, remember, forget,
}

same_owned_refl : (a : OwnedRule) → same_owned a a ≡ true
unfolding same_owned same_group
same_owned_refl a = ground (
  arith,
  eq_iff a.backend a.backend,
  eq_iff a.zone a.zone,
  eq_iff a.rule.address a.rule.address,
  eq_iff a.rule.protocol a.rule.protocol,
)

same_owned_cong : (a b c : OwnedRule) → same_owned a b ≡ true → same_owned a c ≡ same_owned b c
unfolding same_owned same_group
same_owned_cong a b c h = ground (
  arith,
  eq_iff a.backend b.backend,
  eq_iff a.zone b.zone,
  eq_iff a.rule.address b.rule.address,
  eq_iff a.rule.protocol b.rule.protocol,
)

owns-append :
    (r rule : OwnedRule) (os : List OwnedRule)
    → owns r (os ++ rule ∷ []) ≡ (owns r os || same_owned rule r)
owns-append r rule [] = ground arith
owns-append r rule (o ∷ os) = ground (arith, owns-append r rule os)

owns-remove_owned :
    (r rule : OwnedRule) (os : List OwnedRule)
    → same_owned rule r ≡ false
    → owns r (remove_owned rule os) ≡ owns r os
owns-remove_owned r rule [] h = refl
owns-remove_owned r rule (o ∷ os) h =
    ground (arith, same_owned_cong o rule r, owns-remove_owned r rule os h)

-- The second list is the first without the first of its rules that is the given one.
abbrev pub IsLess : OwnedRule → List OwnedRule → List OwnedRule → Type 0
IsLess rule os less =
    (before : List OwnedRule) × (found : OwnedRule) × (after : List OwnedRule) × (os
      ≡ before ++ found ∷ after)
    × (owns rule before ≡ false)
    × (same_owned found rule ≡ true)
    × (less ≡ before ++ after)

remove_owned-IsLess :
    (rule : OwnedRule) (os : List OwnedRule)
    → owns rule os ≡ true
    → IsLess rule os (remove_owned rule os)
remove_owned-IsLess rule [] h = cc
remove_owned-IsLess rule (o ∷ os) h = elim (Bool-cases (same_owned o rule)) [
  | inl same ↦ ([], o, os, refl, refl, same, ground (arith, same))
  | inr other ↦
      let (before, found, after, e, absent, same, less) =
        remove_owned-IsLess rule os (ground (arith, h, other)) in
      (
        o ∷ before,
        found,
        after,
        ap (λ xs. o ∷ xs) e,
        ground (arith, absent, other),
        same,
        ground (arith, less, other),
      )
]

module _ (tools : Tools) where
  -- The rule is in the file if the state owns it.
  abbrev pub IsFiled : OwnedRule → SystemBackend tools → Type 0
  IsFiled r b = owns r b.state.owned ≡ true → owns r b.file.owned ≡ true

  -- What a save with a new list comes to, and the old list after an error.
  undo_save :
      (ss : List Saving) (owned : List OwnedRule) (b : SystemBackend tools)
      → let (b', e) = undo tools b.state.owned (save_next tools ss (with_owned tools owned b)) in
        ((e ≡ none) × (b'.state.owned ≡ owned) × (b'.file.owned ≡ owned))
        ⊎ ((e ≢ none)
            × (b'.state.owned ≡ b.state.owned)
            × ((b'.file.owned ≡ b.file.owned) ⊎ (b'.file.owned ≡ owned)))
  undo_save [] owned b = inl (refl, refl, refl)
  undo_save (written ∷ rest) owned b = inl (refl, refl, refl)
  undo_save (unwritten ∷ rest) owned b = inr ((λ e. cc), refl, inl refl)
  undo_save (unsynced ∷ rest) owned b = inr ((λ e. cc), refl, inr refl)

  -- If every rule that the state owns is in the file, so it is after `remember`, whatever its save comes
  -- to; a rule that it remembers with no error is owned and in the file, so before it is added to the
  -- firewall; and after an error the state owns what it owned.
  pub remember-IsFiled :
      (rule : OwnedRule) (b : SystemBackend tools)
      → ((r : OwnedRule) → IsFiled r b)
      → let (b', e) = remember tools rule b in
        ((r : OwnedRule) → IsFiled r b')
        × (e ≡ none → (owns rule b'.state.owned ≡ true) × (owns rule b'.file.owned ≡ true))
        × (e ≢ none → b'.state.owned ≡ b.state.owned)
  unfolding remember save
  remember-IsFiled rule b h =
      let new = b.state.owned ++ rule ∷ [] in
      elim (Bool-cases (owns rule b.state.owned)) [
        | inl old ↦ rw old (h, λ e. (old, h rule old), λ e. refl)
        | inr new_rule ↦ elim (undo_save b.savings new b) [
          | inl (e, state, file) ↦ (
            λ r. ground (arith, h r),
            λ z. ground (arith, owns-append rule rule b.state.owned, same_owned_refl rule),
            λ z. ground arith,
          )
          | inr (e, state, file) ↦ (
            λ r. ground (arith, h r, owns-append r rule b.state.owned),
            λ z. ground arith,
            λ z. ground arith,
          )
        ]
      ]

  -- If every rule that the state owns is in the file, so is, after `forget`, every rule that it then owns,
  -- but for the forgotten rule. With no error, a rule that was owned is gone from the state: of the rules
  -- that are the given one the first, and no other rule; the file holds the same list. A rule that was not
  -- owned, or an error, leaves the state owning what it owned.
  pub forget-IsFiled :
      (rule : OwnedRule) (b : SystemBackend tools)
      → ((r : OwnedRule) → IsFiled r b)
      → let (b', e) = forget tools rule b in
        ((r : OwnedRule) → same_owned rule r ≡ false → IsFiled r b')
        × (e ≡ none
            → owns rule b.state.owned ≡ true
            → IsLess rule b.state.owned b'.state.owned × (b'.file.owned ≡ b'.state.owned))
        × (owns rule b.state.owned ≡ false → b'.state.owned ≡ b.state.owned)
        × (e ≢ none → b'.state.owned ≡ b.state.owned)
  unfolding forget save
  forget-IsFiled rule b h =
      let os = b.state.owned in
      elim (Bool-cases (owns rule os)) [
        | inr absent ↦ rw absent ((λ r differs. h r), (λ e. cc), (λ x. refl), λ e. refl)
        | inl old ↦ elim (undo_save b.savings (remove_owned rule os) b) [
          | inl (e, state, file) ↦ (
            λ r differs. ground arith,
            (λ z held. (
              subst (IsLess rule os) (sym (ground (arith, old, state)))
                  (remove_owned-IsLess rule os held),
              ground (arith, old, state, file),
            )),
            (λ x. cc (x, old)),
            λ z. ground arith,
          )
          | inr (e, state, file) ↦ (
            λ r differs. ground (arith, h r, owns-remove_owned r rule os differs),
            (λ z held. ground (arith, old, e)),
            (λ x. cc (x, old)),
            λ z. ground arith,
          )
        ]
      ]
