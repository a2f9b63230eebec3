-- ===== src/Reporter/Conserve.antt =====
-- What is booked at the panel and what is still owed to it add up to the usage of the history,
-- whatever the order of the steps.
use mathlib.Core.Path.{subst}
use yzboard_node.Prelude.{
  ℕ, ◌+◌, ◌%◌, ◌≤◌, ◌<◌, ◌≡◌, refl, sym, Bool, true, false, ◌||◌, none, some, List, [], ◌∷◌, arith,
  nat_Eq, two64, add64, Bool-cases, Option-cases, inl, inr,
}
use yzboard_node.Tracker.{no_traffic, add_traffic, flush_traffic, new}
use yzboard_node.Tracker.Relay.{flush_relay_traffic, flush_relay_user_traffic}
use yzboard_node.Tracker.Deltas.{add_traffic-IsWord, add_traffic_zero, IsWord, add_traffic_comm}
use yzboard_node.Tracker.Ledger.{counted}
use yzboard_node.Reporter.{Batch, Service, fresh_batch, take_report_batch, push_start, should_skip}
use yzboard_node.Reporter.History.{usage, last_reading, IsGrowing, usage-growing}
use yzboard_node.Reporter.World.{World, boot, taken, booked, push, final_take, Step, Reach, owed}
use yzboard_node.Reporter.Invariant.{
  IsBalanced, IsBelow, sample-IsBalanced, deliver-IsBalanced, finish-IsBalanced,
  final_finish-IsBalanced, close-IsBalanced,
}

not-taken : (n : ℕ) (bs : List Batch) → IsBelow n bs → taken (n + 1) bs ≡ false
not-taken n [] h = refl
not-taken n (b ∷ bs) (h, hs) = ground (arith, not-taken n bs hs)

IsBelow-mono : (m n : ℕ) (bs : List Batch) → m ≤ n → IsBelow m bs → IsBelow n bs
IsBelow-mono m n [] h b = tt
IsBelow-mono m n (c ∷ bs) h (b, r) = (omega arith, IsBelow-mono m n bs h r)

no_traffic-IsWord : IsWord no_traffic
no_traffic-IsWord = omega arith

-- The world in which a batch has been taken and is on its way.
abbrev taking : World → Bool → ℕ → Service × Batch → World
taking w active skip (s, b) = record w {
  service = record s { push_active = active; skip_remaining = skip };
  in_flight = some b;
}

final_take-taking :
    (w : World)
    → final_take w
      ≡ taking w w.service.push_active w.service.skip_remaining (take_report_batch w.service)
unfolding final_take take_report_batch fresh_batch
final_take-taking w = ground arith

take_waiting : (s : Service) (r : Batch) → s.retry_report ≡ some r → take_report_batch s ≡ (s, r)
unfolding take_report_batch
take_waiting s r e = ground arith

take_fresh : (s : Service) → s.retry_report ≡ none → take_report_batch s ≡ fresh_batch s
unfolding take_report_batch
take_fresh s e = ground arith

module _ (u : ℕ) (w : World) (v : IsBalanced u w) where
  -- A batch is taken where none is on its way: the one that waits, or what the tracker holds.
  module _ (idle : w.in_flight ≡ none) (active : Bool) (skip : ℕ)
      (busy : (w.service.push_closing || active) ≡ true) where
    retry-IsBalanced :
        (r : Batch)
        → w.service.retry_report ≡ some r
        → IsBalanced u (taking w active skip (w.service, r))
    retry-IsBalanced r waits = record {
      balance = ground (arith, v.balance, v.same);
      seen = v.seen;
      words = v.words;
      ids = v.ids;
      id = ground (arith, v.id);
      same = ground arith;
      busy = busy;
    }

    fresh-IsBalanced :
        w.service.retry_report ≡ none
        → w.service.report_seq + 1 < two64
        → IsBalanced u (taking w active skip (fresh_batch w.service))
    unfolding fresh_batch flush_traffic flush_relay_traffic flush_relay_user_traffic
    fresh-IsBalanced no_retry bound =
        let next_id : (w.service.report_seq + 1) % two64 ≡ w.service.report_seq + 1 = omega arith in
        record {
          balance = ground (
            arith,
            v.balance,
            next_id,
            not-taken w.service.report_seq w.panel v.ids,
            add_traffic_comm no_traffic (counted u w.service.tracker.pending_traffic),
          );
          seen = v.seen;
          words = λ k. no_traffic-IsWord;
          ids = IsBelow-mono w.service.report_seq _ w.panel (omega arith) v.ids;
          id = omega arith;
          same = ground arith;
          busy = busy;
        }

    take_report_batch-IsBalanced :
        w.service.report_seq + 1 < two64
        → IsBalanced u (taking w active skip (take_report_batch w.service))
    take_report_batch-IsBalanced bound = elim (Option-cases w.service.retry_report) [
      | inl e ↦
          subst (λ p. IsBalanced u (taking w active skip p)) (sym (take_fresh w.service e))
            (fresh-IsBalanced e bound)
      | inr (r, e) ↦
          subst (λ p. IsBalanced u (taking w active skip p)) (sym (take_waiting w.service r e))
            (retry-IsBalanced r e)
    ]

  push-IsBalanced : w.service.report_seq + 1 < two64 → IsBalanced u (push w)
  unfolding push push_start
  push-IsBalanced bound = elim (Bool-cases (w.service.push_closing || w.service.push_active)) [
    | inl e ↦ rw e v
    | inr e ↦ elim (Bool-cases (should_skip w.service.skip_remaining).1) [
      | inl k ↦
          rw (e, k)
            (record {
              balance = v.balance;
              seen = v.seen;
              words = v.words;
              ids = v.ids;
              id = v.id;
              same = v.same;
              busy = v.busy;
            })
      | inr k ↦
          rw (e, k)
            (take_report_batch-IsBalanced (ground (arith, v.busy)) true _ (ground arith) bound)
    ]
  ]

  final_take-IsBalanced :
      w.service.push_closing ≡ true
      → w.in_flight ≡ none
      → w.service.report_seq + 1 < two64
      → IsBalanced u (final_take w)
  final_take-IsBalanced closing idle bound =
      subst (IsBalanced u) (sym (final_take-taking w))
        (take_report_batch-IsBalanced idle _ _ (ground arith) bound)

boot-IsBalanced : (u : ℕ) → IsBalanced u boot
unfolding new add_traffic add64
boot-IsBalanced u = record {
  balance = ground arith;
  seen = refl;
  words = λ k. no_traffic-IsWord;
  ids = tt;
  id = tt;
  same = tt;
  busy = tt;
}

Step-IsBalanced : (u : ℕ) {v w : World} → Step v w → IsBalanced u v → IsBalanced u w
Step-IsBalanced u {v} (Step.sampled r h) b = sample-IsBalanced u v b r h
Step-IsBalanced u {v} (Step.pushed bound) b = push-IsBalanced u v b bound
Step-IsBalanced u {v} (Step.delivered x e) b = deliver-IsBalanced u v b x e
Step-IsBalanced u {v} (Step.finished x done e h) b = finish-IsBalanced u v b x done e h
Step-IsBalanced u {v} Step.closed b = close-IsBalanced u v b
Step-IsBalanced u {v} (Step.final_taken closing idle bound) b =
    final_take-IsBalanced u v b closing idle bound
Step-IsBalanced u {v} (Step.final_finished x done e h) b = final_finish-IsBalanced u v b x done e h

Reach-IsBalanced : (u : ℕ) {w : World} → Reach w → IsBalanced u w
Reach-IsBalanced u Reach.here = boot-IsBalanced u
Reach-IsBalanced u (Reach.next r s) = Step-IsBalanced u s (Reach-IsBalanced u r)

-- In every order of samplings, pushes, retries, lost answers and the final pushes, what the panel has
-- booked for a user and what the node still owes it (the batch on its way or kept for a retry, unless
-- the panel has taken its id, and the pending counter) add up, as 64-bit words, to the user's usage
-- in the history of readings: no traffic is lost and none is booked twice.
pub booked-owed :
    (u : ℕ) {w : World} → Reach w → add_traffic (booked u w.panel) (owed u w) ≡ usage u w.history
booked-owed u r = (Reach-IsBalanced u r).balance

booked-IsWord : (u : ℕ) (bs : List Batch) → IsWord (booked u bs)
booked-IsWord u [] = omega arith
booked-IsWord u (b ∷ bs) = add_traffic-IsWord (booked u bs) (counted u b.traffic)

-- In every reachable world in which nothing is owed for a user, and in whose history the kernel's
-- counters of the user never started anew, the panel has booked exactly the user's last reading.
pub booked-settled :
    (u : ℕ) {w : World}
    → Reach w
    → IsGrowing u w.history
    → owed u w ≡ no_traffic
    → booked u w.panel ≡ last_reading u w.history
booked-settled u {w} r g settled = cc (
  booked-owed u r,
  usage-growing u w.history g,
  add_traffic_zero (booked u w.panel) (booked-IsWord u w.panel),
)
