-- ===== src/Firewall/Owned.antt =====
-- internal/firewall/state.go and redirect.go: what the backend records about the rules that it made,
-- and the port redirects that it hands to nftables or iptables.
pub mod Recorded
mod Tests
use Prim.Native.String.{String}
use mathlib.Core.List.{foldl}
use yzboard_node.Prelude.{
  ℕ, ◌≡◌, ◌≢◌, Bool, true, false, not, ◌&&◌, ◌||◌, Option, none, some, List, [], ◌∷◌, ◌++◌,
  if◌then◌else◌, ltb, nat_eq, ◌==◌, nat_Eq, string_Eq,
}
use yzboard_node.Firewall.{Rule}
use yzboard_node.Firewall.Combine.{same_group}

-- `ownedRule`
pub record OwnedRule : Type 0 where
  pub backend : String
  pub zone : String
  pub rule : Rule

-- `savedState`, less its version and its scope, which no operation changes.
pub record SavedState : Type 0 where
  pub owned : List OwnedRule
  pub redirect : String
  pub redirect_families : List ℕ

pub data Failure : Type 0 where
  save_failed no_driver unknown_driver missing_command : Failure
  command_failed : ℕ → Failure

-- What one `save` comes to: the file is written, or not, or it is in place and the sync of its
-- directory fails.
pub data Saving : Type 0 where
  written unwritten unsynced : Saving

-- `==` on two owned rules.
unfoldable pub same_owned : OwnedRule → OwnedRule → Bool
same_owned a b =
    a.backend == b.backend
    && a.zone == b.zone
    && same_group a.rule b.rule
    && nat_eq a.rule.ports.from b.rule.ports.from
    && nat_eq a.rule.ports.to b.rule.ports.to

abbrev pub owns : OwnedRule → List OwnedRule → Bool
owns rule [] = false
owns rule (existing ∷ rest) = if same_owned existing rule then true else owns rule rest

-- The list without the first rule that is the given one.
abbrev pub remove_owned : OwnedRule → List OwnedRule → List OwnedRule
remove_owned rule [] = []
remove_owned rule (existing ∷ rest) =
    let others = remove_owned rule rest in
    if same_owned existing rule then rest else existing ∷ others

-- A family is put into a sorted list that holds none twice.
abbrev pub put_family : List ℕ → ℕ → List ℕ
put_family [] family = family ∷ []
put_family (f ∷ fs) family =
    let rest = put_family fs family in
    if nat_eq family f then f ∷ fs else if ltb family f then family ∷ f ∷ fs else f ∷ rest

abbrev pub put_rule_family : List ℕ → Rule → List ℕ
put_rule_family families rule = put_family families rule.family

-- The rules of one family.
abbrev pub of_family : ℕ → List Rule → List Rule
of_family family [] = []
of_family family (r ∷ rs) =
    let rest = of_family family rs in if nat_eq r.family family then r ∷ rest else rest

-- `syncNFT` (nftables.go) and `syncIPTablesFamily` (iptables.go), which run `nft` for all families, and
-- `iptables` or `ip6tables` for one. They are not modelled, and nothing is assumed of them.
pub record Tools : Type 1 where
  pub System : Type 0
  pub available : String → System → Bool
  pub sync_nft : List Rule → System → System × Option ℕ
  pub sync_family : ℕ → List Rule → System → System × Option ℕ

module _ (tools : Tools) where
  open tools use {System, available, sync_nft, sync_family}

  -- `file` is what a restart would read, and `savings` what the coming saves come to.
  pub record SystemBackend : Type 0 where
    pub state : SavedState
    pub file : SavedState
    pub system : System
    pub savings : List Saving

  abbrev pub write : Saving → SystemBackend → SystemBackend × Option Failure
  write written b = (record b { file = b.state }, none)
  write unwritten b = (b, some save_failed)
  write unsynced b = (record b { file = b.state }, some save_failed)

  -- A save takes the first of what is to come.
  abbrev pub save_next : List Saving → SystemBackend → SystemBackend × Option Failure
  save_next [] b = write written b
  save_next (s ∷ rest) b = write s (record b { savings = rest })

  unfoldable pub save : SystemBackend → SystemBackend × Option Failure
  save b = save_next b.savings b

  -- `if err := …; err != nil { return err }`
  abbrev pub and_then :
      SystemBackend × Option Failure
      → (SystemBackend → SystemBackend × Option Failure)
      → SystemBackend × Option Failure
  and_then (b, none) f = f b
  and_then (b, some e) f = (b, some e)

  -- The old list comes back if the save fails.
  abbrev pub undo : List OwnedRule → SystemBackend × Option Failure → SystemBackend × Option Failure
  undo previous (b, none) = (b, none)
  undo previous (b, some e) = (record b { state = record (b.state) { owned = previous } }, some e)

  abbrev pub with_owned : List OwnedRule → SystemBackend → SystemBackend
  with_owned owned b = record b { state = record (b.state) { owned = owned } }

  unfoldable pub remember : OwnedRule → SystemBackend → SystemBackend × Option Failure
  unfolding save
  remember rule b =
      if owns rule b.state.owned
      then (b, none)
      else undo b.state.owned (save (with_owned (b.state.owned ++ rule ∷ []) b))

  unfoldable pub forget : OwnedRule → SystemBackend → SystemBackend × Option Failure
  unfolding save
  forget rule b =
      if owns rule b.state.owned
      then undo b.state.owned (save (with_owned (remove_owned rule b.state.owned) b))
      else (b, none)

  abbrev pub tool_result : System × Option ℕ → SystemBackend → SystemBackend × Option Failure
  tool_result (s, none) b = (record b { system = s }, none)
  tool_result (s, some e) b = (record b { system = s }, some (command_failed e))

  abbrev pub tool_of : ℕ → String
  tool_of family = if nat_eq family 6 then "ip6tables" else "iptables"

  abbrev pub restore_tool_of : ℕ → String
  restore_tool_of family = if nat_eq family 6 then "ip6tables-restore" else "iptables-restore"

  -- The loop of `syncIPTables`.
  unfoldable pub sync_families : List ℕ → List Rule → SystemBackend → SystemBackend × Option Failure
  sync_families [] rules b = (b, none)
  sync_families (f ∷ fs) rules b =
      if not (available (tool_of f) b.system) || not (available (restore_tool_of f) b.system)
      then (b, some missing_command)
      else and_then (tool_result (sync_family f (of_family f rules) b.system) b)
          (sync_families fs rules)

  -- `syncRedirectDriver`
  unfoldable pub sync_redirect_driver :
      String → List Rule → SystemBackend → SystemBackend × Option Failure
  unfolding sync_families
  sync_redirect_driver driver rules b =
      if driver == "nftables"
      then tool_result (sync_nft rules b.system) b
      else if driver == "iptables"
      then sync_families b.state.redirect_families rules b
      else (b, some unknown_driver)

  -- The driver and the families are set before they are saved.
  abbrev pub record_driver : String → List Rule → SystemBackend → SystemBackend
  record_driver driver rules b = record b {
    state = record (b.state) {
      redirect = driver;
      redirect_families =
          if driver == "iptables"
          then foldl put_rule_family (foldl put_family [] b.state.redirect_families) rules
          else b.state.redirect_families;
    };
  }

  -- The end of `applyRedirects`: with no rule, the driver is forgotten.
  abbrev pub clear_driver : List Rule → SystemBackend → SystemBackend × Option Failure
  clear_driver [] b =
      save (record b { state = record (b.state) { redirect = ""; redirect_families = [] } })
  clear_driver (r ∷ rs) b = (b, none)

  unfoldable pub set_driver : String → List Rule → SystemBackend → SystemBackend × Option Failure
  unfolding save sync_redirect_driver
  set_driver driver rules b =
      and_then (save (record_driver driver rules b))
        λ saved. and_then (sync_redirect_driver driver rules saved) (clear_driver rules)

  unfoldable pub switch_driver : String → List Rule → SystemBackend → SystemBackend × Option Failure
  unfolding set_driver sync_redirect_driver
  switch_driver driver rules b =
      if not (b.state.redirect == "") && not (b.state.redirect == driver)
      then and_then (sync_redirect_driver b.state.redirect [] b) (set_driver driver rules)
      else set_driver driver rules b

  -- The driver for redirects, as configured or as found.
  unfoldable pub choose_driver : String → System → Option String
  choose_driver configured s =
      if not (configured == "" || configured == "auto")
      then some configured
      else if available "nft" s
      then some "nftables"
      else if available "iptables" s
      then some "iptables"
      else none

  abbrev pub redirect_with :
      Option String → List Rule → SystemBackend → SystemBackend × Option Failure
  redirect_with none rules b = (b, some no_driver)
  redirect_with (some driver) rules b =
      if driver == "" then (b, none) else switch_driver driver rules b

  -- `applyRedirects`
  unfoldable pub apply_redirects :
      String → List Rule → SystemBackend → SystemBackend × Option Failure
  unfolding choose_driver switch_driver
  apply_redirects configured [] b = redirect_with (some b.state.redirect) [] b
  apply_redirects configured (r ∷ rs) b =
      redirect_with (choose_driver configured b.system) (r ∷ rs) b
