-- ===== src/Kernels/Laws.antt =====
-- The kernel on sing-box keeps the laws of the interface, with the configuration and the users of its fields
-- `nodeConfig` and `users`. What the instance of sing-box makes of them is not modelled.
use mathlib.Core.List.{foldl}
use Prim.Native.String.{String}
use yzboard_node.Prelude.{
  ℕ, ◌≡◌, ◌≤◌, nat_eq_iff, refl, sym, ap, ◌∙◌, Bool, true, false, not, Option, none, some, List, [],
  ◌∷◌, ◌++◌, if◌then◌else◌, Dict, contains, insert, lookup-insert, nat_Eq, nat_eq, length, arith,
}
use yzboard_node.Users.{UserSpec, put_id, keep_users}
use yzboard_node.Users.Maps.{find_user, has_id, or_else, contains-put_ids, find_user-keep_users}
use yzboard_node.Users.Credentials.{credential}
use yzboard_node.Model.{NodeSpec}
use yzboard_node.Runtime.{TlsCert, Kernel}
use yzboard_node.Runtime.Laws.{IsKernel}
use yzboard_node.Kernels.{user_diff}
use yzboard_node.Kernels.Singbox

abbrev pub kernel : Singbox.Library → Kernel
kernel l = record {
  State = Singbox.SingBox l;
  protocols = Singbox.protocols l;
  start = Singbox.start l;
  stop = Singbox.stop l;
  is_running = Singbox.is_running l;
  reload = Singbox.reload l;
  add_users = Singbox.add_users l;
  remove_users = Singbox.remove_users l;
  update_users = Singbox.update_users l;
  update_global_devices = Singbox.update_global_devices l;
  clear_global_devices = Singbox.clear_global_devices l;
}

abbrev config_of : Option Singbox.Running → Option NodeSpec
config_of none = none
config_of (some r) = some r.node_config

abbrev users_of : Option Singbox.Running → List UserSpec
users_of none = []
users_of (some r) = r.users

module _ (l : Singbox.Library) where
  abbrev Serving : NodeSpec → List UserSpec → Singbox.SingBox l → Type 0
  Serving n us s =
      (Singbox.is_running l s ≡ true)
      × (config_of s.current ≡ some n)
      × ((id : ℕ) → credential (users_of s.current) id ≡ credential us id)

  installed :
      (n : NodeSpec) (us : List UserSpec) (t : TlsCert) (s : Singbox.SingBox l) (r : l.Box × Bool)
      → (Singbox.install l n us t s r).1 ≡ true
      → Serving n us (Singbox.install l n us t s r).0
  unfolding Singbox.is_running
  installed n us t s (b, true) e = (refl, refl, λ id. refl)
  installed n us t s (b, false) e = cc

  start_built-lem :
      (n : NodeSpec) (us : List UserSpec) (t : TlsCert) (s : Singbox.SingBox l) (o : Option l.Box)
      → (Singbox.start_built l n us t s o).1 ≡ true
      → Serving n us (Singbox.start_built l n us t s o).0
  start_built-lem n us t s none e = cc
  start_built-lem n us t s (some b) e = installed n us t (Singbox.stop l s) (l.start b) e

  start-lem :
      (s : Singbox.SingBox l) (n : NodeSpec) (us : List UserSpec) (t : TlsCert)
      → (Singbox.start l s n us t).1 ≡ true
      → Serving n us (Singbox.start l s n us t).0
  unfolding Singbox.start
  start-lem s n us t e = start_built-lem n us t s (l.build n us t) e

  change_rules-lem :
      (n : NodeSpec) (us : List UserSpec) (t : TlsCert) (s : Singbox.SingBox l) (r : l.Box × Bool)
      → (Singbox.change_rules l n us t s r).1 ≡ true
      → Serving n us (Singbox.change_rules l n us t s r).0
  unfolding Singbox.is_running
  change_rules-lem n us t s (b, true) e = (refl, refl, λ id. refl)
  change_rules-lem n us t s (b, false) e = cc

  reload_how-lem :
      (h : Option Bool) (n : NodeSpec) (us : List UserSpec) (t : TlsCert) (b : l.Box)
      (s : Singbox.SingBox l)
      → (Singbox.reload_how l h n us t b s).1 ≡ true
      → Serving n us (Singbox.reload_how l h n us t b s).0
  reload_how-lem none n us t b s e = cc
  reload_how-lem (some false) n us t b s e = start-lem s n us t e
  reload_how-lem (some true) n us t b s e = change_rules-lem n us t s (l.update_rules b n us t) e

  -- A property of what a running kernel makes of an operation holds of the operation.
  while_running-lem :
      (P : Singbox.SingBox l → Type 0) (s : Singbox.SingBox l) (o : Option l.Box)
      (c : Option Singbox.Running) (next : l.Box → Singbox.Running → Singbox.SingBox l × Bool)
      → (Singbox.while_running l s o c next).1 ≡ true
      → ((b : l.Box) (r : Singbox.Running)
          → o ≡ some b
          → c ≡ some r
          → (next b r).1 ≡ true
          → P (next b r).0)
      → P (Singbox.while_running l s o c next).0
  while_running-lem P s none c next e g = cc
  while_running-lem P s (some b) none next e g = cc
  while_running-lem P s (some b) (some r) next e g = g b r refl refl e

  choose-lem :
      (P : Singbox.SingBox l → Type 0) (x : Bool) (r1 r2 : Singbox.SingBox l × Bool)
      → (if x then r1 else r2).1 ≡ true
      → (r1.1 ≡ true → P r1.0)
      → (r2.1 ≡ true → P r2.0)
      → P (if x then r1 else r2).0
  choose-lem P true r1 r2 e g h = g e
  choose-lem P false r1 r2 e g h = h e

  -- The same, where the first branch needs the test.
  choose-Knows :
      (P : Singbox.SingBox l → Type 0) (x : Bool) (r1 r2 : Singbox.SingBox l × Bool)
      → (if x then r1 else r2).1 ≡ true
      → (x ≡ true → P r1.0)
      → (r2.1 ≡ true → P r2.0)
      → P (if x then r1 else r2).0
  choose-Knows P true r1 r2 e g h = g refl
  choose-Knows P false r1 r2 e g h = h e

  told-lem :
      (o : Option Singbox.Running) (d : Dict ℕ (List String)) (s : Singbox.SingBox l)
      → (Singbox.is_running l (Singbox.told l o d s) ≡ Singbox.is_running l s)
        × (config_of (Singbox.told l o d s).current ≡ config_of s.current)
        × ((id : ℕ)
            → credential (users_of (Singbox.told l o d s).current) id
              ≡ credential (users_of s.current) id)
  unfolding Singbox.is_running
  told-lem none d s = (refl, refl, λ id. refl)
  told-lem (some r) d s = (refl, refl, λ id. refl)

  reload-lem :
      (s : Singbox.SingBox l) (n : NodeSpec) (us : List UserSpec) (t : TlsCert)
      → (Singbox.reload l s n us t).1 ≡ true
      → Serving n us (Singbox.reload l s n us t).0
  unfolding Singbox.reload
  reload-lem s n us t e = while_running-lem (Serving n us) s s.box s.current _ e (λ b old eb ec e'.
      choose-lem (Serving n us) (not (l.prepares n us t)) (s, false) _ e' (λ x. cc)
        (λ x. reload_how-lem (l.only_rules old.node_config old.users old.tls n us t) n us t b s x))

  -- A running kernel that knows the ids by these UUIDs.
  abbrev Knows : (ℕ → Option String) → Singbox.SingBox l → Type 0
  Knows known s =
      (Singbox.is_running l s ≡ true) × ((id : ℕ) → credential (users_of s.current) id ≡ known id)

  unchanged_runs :
      (b : l.Box) (r : Singbox.Running) (s : Singbox.SingBox l)
      → s.box ≡ some b
      → s.current ≡ some r
      → Singbox.is_running l s ≡ true
  unfolding Singbox.is_running
  unchanged_runs b r s eb ec = by_box s.box eb
    where
      by_box :
          (o : Option l.Box)
          → o ≡ some b
          → (elim o as (λ x. Bool) [ none ↦ false | some x ↦ true ]) ≡ true
      by_box none e = cc
      by_box (some x) e = refl

  unchanged-Knows :
      (b : l.Box) (r : Singbox.Running) (s : Singbox.SingBox l) (known : ℕ → Option String)
      → s.box ≡ some b
      → s.current ≡ some r
      → ((id : ℕ) → credential r.users id ≡ known id)
      → Knows known s
  unchanged-Knows b r s known eb ec h =
      (unchanged_runs b r s eb ec, λ id. ap (λ o. credential (users_of o) id) ec ∙ h id)

  after_swap-Knows :
      (r : Singbox.Running) (us : List UserSpec) (s : Singbox.SingBox l) (x : Singbox.Swap l.Box)
      (known : ℕ → Option String)
      → (Singbox.after_swap l r us s x).1 ≡ true
      → ((id : ℕ) → credential us id ≡ known id)
      → Knows known (Singbox.after_swap l r us s x).0
  unfolding Singbox.is_running
  after_swap-Knows r us s (Singbox.swapped b) known e h = (refl, h)
  after_swap-Knows r us s (Singbox.refused b) known e h = cc
  after_swap-Knows r us s Singbox.closed known e h = cc

  after_swap-config :
      (r : Singbox.Running) (us : List UserSpec) (s : Singbox.SingBox l) (x : Singbox.Swap l.Box)
      → s.current ≡ some r
      → config_of (Singbox.after_swap l r us s x).0.current ≡ config_of s.current
  after_swap-config r us s (Singbox.swapped b) e = sym (ap config_of e)
  after_swap-config r us s (Singbox.refused b) e = refl
  after_swap-config r us s Singbox.closed e = refl

  while_running-config :
      (s : Singbox.SingBox l) (o : Option l.Box) (c : Option Singbox.Running)
      (next : l.Box → Singbox.Running → Singbox.SingBox l × Bool)
      → ((b : l.Box) (r : Singbox.Running)
          → c ≡ some r
          → config_of (next b r).0.current ≡ config_of s.current)
      → config_of (Singbox.while_running l s o c next).0.current ≡ config_of s.current
  while_running-config s none c next g = refl
  while_running-config s (some b) none next g = refl
  while_running-config s (some b) (some r) next g = g b r refl

  choose-config :
      (s : Singbox.SingBox l) (x : Bool) (r1 r2 : Singbox.SingBox l × Bool)
      → config_of r1.0.current ≡ config_of s.current
      → config_of r2.0.current ≡ config_of s.current
      → config_of (if x then r1 else r2).0.current ≡ config_of s.current
  choose-config s true r1 r2 g h = g
  choose-config s false r1 r2 g h = h

  new_users-find :
      (m : Dict ℕ (Unit {0})) (us : List UserSpec) (id : ℕ)
      → find_user id (Singbox.new_users l m us) ≡ (if contains id m then none else find_user id us)
  new_users-find m [] id = ground arith
  new_users-find m (u ∷ us) id = ground (
    arith,
    new_users-find m us id,
    new_users-find (insert u.id tt m) us id,
    lookup-insert u.id tt id m,
  )

  find_user-append :
      (us vs : List UserSpec) (id : ℕ)
      → find_user id (us ++ vs) ≡ or_else (find_user id us) (find_user id vs)
  find_user-append [] vs id = refl
  find_user-append (u ∷ us) vs id = ground (arith, find_user-append us vs id)

  added-credential :
      (users delta : List UserSpec) (id : ℕ)
      → credential (users ++ Singbox.new_users l (foldl put_id [] users) delta) id
        ≡ or_else (credential users id) (credential delta id)
  added-credential users delta id = ground (
    arith,
    find_user-append users (Singbox.new_users l (foldl put_id [] users) delta) id,
    new_users-find (foldl put_id [] users) delta id,
    contains-put_ids users [] id,
  )

  empty-lem : (us : List UserSpec) → Singbox.is_empty l us ≡ true → us ≡ []
  empty-lem [] e = refl
  empty-lem (u ∷ us) e = cc

  unadded-credential :
      (users delta : List UserSpec) (id : ℕ)
      → Singbox.is_empty l (Singbox.new_users l (foldl put_id [] users) delta) ≡ true
      → credential users id ≡ or_else (credential users id) (credential delta id)
  unadded-credential users delta id e =
      let none_new = empty-lem (Singbox.new_users l (foldl put_id [] users) delta) e in
      ground (arith, find_user-append users [] id, rw none_new at (added-credential users delta id))

  kept-credential :
      (users delta : List UserSpec) (id : ℕ)
      → credential (keep_users (foldl put_id [] delta) users) id
        ≡ (if has_id id delta then none else credential users id)
  kept-credential users delta id =
      ground
        (arith, find_user-keep_users id (foldl put_id [] delta) users, contains-put_ids delta [] id)

  keep_users-length :
      (m : Dict ℕ (Unit {0})) (us : List UserSpec) → length (keep_users m us) ≤ length us
  keep_users-length m [] = ground arith
  keep_users-length m (u ∷ us) = ground (arith, keep_users-length m us)

  keep_users-all :
      (m : Dict ℕ (Unit {0})) (us : List UserSpec)
      → length (keep_users m us) ≡ length us
      → keep_users m us ≡ us
  keep_users-all m [] e = refl
  keep_users-all m (u ∷ us) e = ground (arith, keep_users-all m us, keep_users-length m us)

  add_users-config :
      (s : Singbox.SingBox l) (us : List UserSpec)
      → config_of (Singbox.add_users l s us).0.current ≡ config_of s.current
  unfolding Singbox.add_users
  add_users-config s us = while_running-config s s.box s.current _ (λ b r ec.
      let to_add = Singbox.new_users l (foldl put_id [] r.users) us in
      choose-config s (Singbox.is_empty l to_add) (s, true)
        (Singbox.swap_users l r (r.users ++ to_add) b s) refl
        (after_swap-config r (r.users ++ to_add) s
          (l.update_inbounds b r.node_config r.users (r.users ++ to_add) r.tls) ec))

  remove_users-config :
      (s : Singbox.SingBox l) (us : List UserSpec)
      → config_of (Singbox.remove_users l s us).0.current ≡ config_of s.current
  unfolding Singbox.remove_users
  remove_users-config s us = while_running-config s s.box s.current _ (λ b r ec.
      let kept = keep_users (foldl put_id [] us) r.users in
      choose-config s (nat_eq (length kept) (length r.users)) (s, true)
        (Singbox.swap_users l r kept b s) refl
        (after_swap-config r kept s (l.update_inbounds b r.node_config r.users kept r.tls) ec))

  update_users-config :
      (s : Singbox.SingBox l) (us : List UserSpec)
      → config_of (Singbox.update_users l s us).0.current ≡ config_of s.current
  unfolding Singbox.update_users
  update_users-config s us = while_running-config s s.box s.current _ (λ b r ec.
      let x = after_swap-config r us s (l.update_inbounds b r.node_config r.users us r.tls) ec in
      let swap = Singbox.swap_users l r us b s in
      let d = user_diff r.users us in
      let limits : Singbox.SingBox l × Bool =
        (record s { current = some (record r { users = us }) }, true) in
      choose-config s (not (l.accepts r.node_config us)) (s, false) _ refl
        (choose-config s (Singbox.is_empty l d.0) (if Singbox.is_empty l d.1 then limits else swap)
          swap (choose-config s (Singbox.is_empty l d.1) limits swap (sym (ap config_of ec)) x) x))

  add_users-Knows :
      (s : Singbox.SingBox l) (us : List UserSpec)
      → (Singbox.add_users l s us).1 ≡ true
      → Knows
          (λ id. or_else (credential (users_of s.current) id) (credential us id))
          (Singbox.add_users l s us).0
  unfolding Singbox.add_users
  add_users-Knows s us e =
      let P = Knows (λ id. or_else (credential (users_of s.current) id) (credential us id)) in
      while_running-lem P s s.box s.current _ e (λ b r eb ec e'.
        let m : Dict ℕ (Unit {0}) = foldl put_id [] r.users in
        let to_add = Singbox.new_users l m us in
        let known : (id : ℕ)
            → or_else (credential r.users id) (credential us id)
              ≡ or_else (credential (users_of s.current) id) (credential us id) =
          λ id. ap (λ o. or_else (credential (users_of o) id) (credential us id)) (sym ec) in
        choose-Knows P (Singbox.is_empty l to_add) (s, true)
          (Singbox.swap_users l r (r.users ++ to_add) b s) e'
          (λ none_new.
            unchanged-Knows b r s _ eb ec
              (λ id. unadded-credential r.users us id none_new ∙ known id))
          (λ x.
            after_swap-Knows r (r.users ++ to_add) s
              (l.update_inbounds b r.node_config r.users (r.users ++ to_add) r.tls) _ x
              (λ id. added-credential r.users us id ∙ known id)))

  remove_users-Knows :
      (s : Singbox.SingBox l) (us : List UserSpec)
      → (Singbox.remove_users l s us).1 ≡ true
      → Knows
          (λ id. if has_id id us then none else credential (users_of s.current) id)
          (Singbox.remove_users l s us).0
  unfolding Singbox.remove_users
  remove_users-Knows s us e =
      let P = Knows (λ id. if has_id id us then none else credential (users_of s.current) id) in
      while_running-lem P s s.box s.current _ e (λ b r eb ec e'.
        let m : Dict ℕ (Unit {0}) = foldl put_id [] us in
        let kept = keep_users m r.users in
        let known : (id : ℕ)
            → credential kept id
              ≡ (if has_id id us then none else credential (users_of s.current) id) =
          λ id.
            kept-credential r.users us id
            ∙ ap (λ o. if has_id id us then none else credential (users_of o) id) (sym ec) in
        choose-Knows P (nat_eq (length kept) (length r.users)) (s, true)
          (Singbox.swap_users l r kept b s) e'
          (λ same. unchanged-Knows b r s _ eb ec (λ id.
            ap (λ us'. credential us' id)
              (sym (keep_users-all m r.users ((nat_eq_iff (length kept) (length r.users)).0 same)))
            ∙ known id))
          (λ x.
            after_swap-Knows r kept s (l.update_inbounds b r.node_config r.users kept r.tls) _ x
              known))

  update_users-Knows :
      (s : Singbox.SingBox l) (us : List UserSpec)
      → (Singbox.update_users l s us).1 ≡ true
      → Knows (credential us) (Singbox.update_users l s us).0
  unfolding Singbox.update_users Singbox.is_running
  update_users-Knows s us e =
      let P = Knows (credential us) in
      while_running-lem P s s.box s.current _ e (λ b r eb ec e'.
        let x =
          after_swap-Knows r us s (l.update_inbounds b r.node_config r.users us r.tls)
            (credential us) in
        let swap = Singbox.swap_users l r us b s in
        let d = user_diff r.users us in
        let limits : Singbox.SingBox l × Bool =
          (record s { current = some (record r { users = us }) }, true) in
        let renewed : P limits.0 = (unchanged_runs b r s eb ec, λ id. refl) in
        choose-lem P (not (l.accepts r.node_config us)) (s, false) _ e' (λ y. cc)
          (λ y.
            choose-lem P (Singbox.is_empty l d.0) (if Singbox.is_empty l d.1 then limits else swap)
              swap y
              (λ z.
                choose-lem P (Singbox.is_empty l d.1) limits swap z (λ q. renewed)
                  (λ q. x q (λ id. refl)))
              (λ z. x z (λ id. refl))))

  -- The kernel on sing-box keeps the laws of the interface on what its fields record, for any library.
  pub singbox-IsKernel : IsKernel (kernel l)
  unfolding Singbox.stop Singbox.is_running Singbox.update_global_devices
      Singbox.clear_global_devices
  singbox-IsKernel = record {
    config = λ s. config_of s.current;
    credentials = λ s. credential (users_of s.current);
    stopped = λ s. refl;
    started = start-lem;
    reloaded = reload-lem;
    added_config = add_users-config;
    added = add_users-Knows;
    removed_config = remove_users-config;
    removed = remove_users-Knows;
    updated_config = update_users-config;
    updated = update_users-Knows;
    devices_kept = λ s d. told-lem s.current d s;
    devices_cleared = λ s. told-lem s.current [] s;
  }
