-- ===== src/Runtime/Prepare.antt =====
-- `prepareRuntime` leaves a service that is ready for the kernel, or one that is stopped.
use yzboard_node.Prelude.{
  ◌≡◌, refl, true, Option, none, some, List, arith, Bool-cases, Option-cases, inl, inr,
}
use yzboard_node.Users.{UserSpec}
use yzboard_node.Model.{CertConfig, NodeSpec}
use yzboard_node.Runtime.{Parts, Service}
use yzboard_node.Runtime.Apply.{
  is_set, runtime_attempt_blocked, reconfigure, apply_local_cert, check_runtime,
  apply_remote_overrides, apply_cert_config, apply_node_cert, prepare_runtime,
}
use yzboard_node.Runtime.Laws.{IsKernel, IsController, Ends}
use yzboard_node.Runtime.Steady.{
  IsTidy, IsPending, IsDown, or_fail-lem, IsWanted, IsReady, bind, either,
}

module _ {w : Parts} (k : IsKernel w.kernel) (c : IsController w.firewall) where
  reconfigure-lem :
      (x : CertConfig) (n : NodeSpec) (us : List UserSpec) (s : Service w)
      → IsWanted k c n us s
      → Ends (IsWanted k c n us) (IsTidy w) (reconfigure x s)
  reconfigure-lem x n us s h =
      either (IsWanted k c n us) (IsTidy w) (reconfigure x s) (λ e. h) (λ e. h.0)

  apply_local_cert-lem :
      (n : NodeSpec) (us : List UserSpec) (s : Service w)
      → IsWanted k c n us s
      → Ends (IsWanted k c n us) (IsTidy w) (apply_local_cert n s)
  apply_local_cert-lem n us s h = elim (Bool-cases (is_set n.cert_config)) [
    | inl e ↦ rw e h
    | inr e ↦ rw e (reconfigure-lem s.cfg.cert n us s h)
  ]

  check_runtime-lem :
      (n : NodeSpec) (us : List UserSpec) (s : Service w)
      → IsWanted k c n us s
      → Ends (IsWanted k c n us) (IsTidy w) (check_runtime n s)
  unfolding check_runtime
  check_runtime-lem n us s h =
      either (IsWanted k c n us) (IsTidy w) (check_runtime n s) (λ e. h) (λ e. h.0)

  apply_cert_config-lem :
      (o : Option CertConfig) (n : NodeSpec) (us : List UserSpec) (s : Service w)
      → IsWanted k c n us s
      → Ends (IsWanted k c n us) (IsTidy w) (apply_cert_config o n s)
  unfolding apply_node_cert
  apply_cert_config-lem none n us s h = h
  apply_cert_config-lem (some x) n us s h =
      let copy = record x { cert_dir = s.cfg.cert.cert_dir } in
      bind (IsWanted k c n us) (IsTidy w) (IsWanted k c n us)
        (λ s'. (record s' { cfg = record s'.cfg { cert = copy } }, true)) (reconfigure copy s)
        (reconfigure-lem copy n us s h) (λ s' h'. h')

  apply_remote_overrides-lem :
      (n : NodeSpec) (us : List UserSpec) (s : Service w)
      → IsWanted k c n us s
      → Ends (IsWanted k c n us) (IsTidy w) (apply_remote_overrides n s)
  unfolding apply_remote_overrides
  apply_remote_overrides-lem n us s h = apply_cert_config-lem n.cert_config n us _ h

  blocked-IsDown :
      (n : NodeSpec) (us : List UserSpec) (s : Service w)
      → IsPending k c s
      → runtime_attempt_blocked n us s ≡ true
      → IsDown k c s
  unfolding runtime_attempt_blocked
  blocked-IsDown n us s p e = elim (Bool-cases s.runtime_error) [
    | inl bad ↦ elim (Bool-cases (w.kernel.is_running s.kernel)) [
      | inl up ↦ let h = p.1 up in ground (arith, h)
      | inr down ↦ (p.0, down, bad)
    ]
    | inr good ↦
        let h = p.0.noted in
        elim (Option-cases s.failed_runtime_hash) [
          | inl missing ↦ ground (arith, h)
          | inr (a, found) ↦ ground (arith, h)
        ]
  ]

  pub prepare_runtime-lem :
      (n : NodeSpec) (us : List UserSpec) (s : Service w)
      → IsPending k c s
      → IsWanted k c n us s
      → Ends (IsReady k c n us) (IsDown k c) (prepare_runtime n us s)
  unfolding prepare_runtime
  prepare_runtime-lem n us s p h = elim (Bool-cases (runtime_attempt_blocked n us s)) [
    | inl e ↦ rw e (blocked-IsDown n us s p e)
    | inr e ↦ rw e (
        bind (IsWanted k c n us) (IsDown k c) (IsReady k c n us) _ _
          (or_fail-lem k c (IsWanted k c n us) n us _ (apply_local_cert-lem n us s h))
          (λ s1 h1.
            bind (IsWanted k c n us) (IsDown k c) (IsReady k c n us) _ _
              (or_fail-lem k c (IsWanted k c n us) n us _ (check_runtime-lem n us s1 h1))
              (λ s2 h2.
                bind (IsWanted k c n us) (IsDown k c) (IsReady k c n us) _ _
                  (or_fail-lem k c (IsWanted k c n us) n us _
                    (apply_remote_overrides-lem n us s2 h2))
                  (λ s3 h3. (h3, refl)))))
  ]
