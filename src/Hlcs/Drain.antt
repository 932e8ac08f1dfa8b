-- ===== src/Hlcs/Drain.antt =====
-- Working off a whole queue of requests: repeated calls of `HLCS_ProcessOneEvent` until it returns
-- false, as the tests of example/services/hwLockCtrlService/src/hwLockCtrlService.c do.
use cpputest_for_freertos.Hlcs.{
  Hlcs, Signal, Driver, Kernel, queue_depth, sig_request_locked, sig_request_unlocked,
  sig_request_self_test, sig_request_current_check, sig_request_thread_exit, sm_enter, sm_exit,
  Effect, below_2000,
}
use cpputest_for_freertos.Service.EventQueue.{EventQueue}
use cpputest_for_freertos.Service.{Outcome, ok, asserted, undefined_behavior}
use cpputest_for_freertos.Hlcs.Process.{Lock, shut, process, opened, Rests, process-none}
use cpputest_for_freertos.Base.{
  Bool, List, ℕ, ◌∷◌, true, false, ◌&&◌, ◌≡◌, [], suc, zero, subst, sym, length, ◌≤◌, ap, arith,
}
use cpputest_for_freertos.Hlcs.Requests.{
  same_request, other_request, self_test_request, current_check_low,
}

-- The position a request leads to, from position `l`.
abbrev pub follow : Lock → Signal → Lock
follow l sig_request_locked = shut
follow l sig_request_unlocked = opened
follow l _ = l

abbrev pub follow_all : Lock → List Signal → Lock
follow_all l [] = l
follow_all l (e ∷ es) = follow_all (follow l e) es

-- The events that the four functions of the interface push.
abbrev pub is_request : Signal → Bool
is_request sig_request_locked = true
is_request sig_request_unlocked = true
is_request sig_request_self_test = true
is_request sig_request_current_check = true
is_request sig_request_thread_exit = false
is_request sm_enter = false
is_request sm_exit = false

abbrev pub all_requests : List Signal → Bool
all_requests [] = true
all_requests (e ∷ es) = is_request e && all_requests es

-- The calls until one returns false: a self test takes a second one for its return.
abbrev pub calls : List Signal → ℕ
calls [] = 1
calls (sig_request_self_test ∷ es) = suc (suc (calls es))
calls (e ∷ es) = suc (calls es)

module _ {Q : Type 0} (events : EventQueue Q Signal queue_depth) (driver : Driver)
    (kernel : Kernel) where
  open events use {contents}

  -- `while (HLCS_ProcessOneEvent(EXECUTION_OPTION_UNIT_TEST)) {}` for at most so many calls: the
  -- answer is false when a call returned false.
  abbrev pub again :
      (Hlcs Q → Outcome (Hlcs Q) Bool) → Outcome (Hlcs Q) Bool → Outcome (Hlcs Q) Bool
  again rest (ok true s) = rest s
  again rest (ok false s) = ok false s
  again rest (asserted line s) = asserted line s
  again rest undefined_behavior = undefined_behavior

  unfoldable pub rounds : ℕ → Hlcs Q → Outcome (Hlcs Q) Bool
  rounds zero s = ok true s
  rounds (suc n) s = again (rounds n) (process events driver kernel s)

  -- `out` is the answer false from a service that rests in position `l` with an empty queue.
  pub record Settles (l : Lock) (out : Outcome (Hlcs Q) Bool) : Type 0 where
    pub final : Hlcs Q
    pub queue : Q
    pub runs : out ≡ ok false final
    pub rests : Rests events driver kernel final l queue []

  rounds-next :
      {l : Lock} (n : ℕ) (s t : Hlcs Q)
      → process events driver kernel s ≡ ok true t
      → Settles l (rounds n t)
      → Settles l (rounds (suc n) s)
  unfolding rounds
  rounds-next {l} n s t e = subst (λ out. Settles l (again (rounds n) out)) (sym e)

  -- Let the lock service rest in a position with at most ten events pending, each a request to
  -- lock, to unlock, to test or to check the current, and let the driver read less than 2000 mA
  -- always. Then processing one event after the other returns false after one call for each event,
  -- one more for each self test and one at the end, and leaves the service at rest with no event,
  -- in the position to which the last request to lock or to unlock led.
  pub drain_lem :
      ((log : List Effect) → below_2000 (driver.read_current log) ≡ true)
      → (es : List Signal) (s : Hlcs Q) (l : Lock) (q : Q) → all_requests es ≡ true
      → length es ≤ queue_depth
      → Rests events driver kernel s l q es
      → Settles (follow_all l es) (rounds (calls es) s)
  unfolding rounds
  drain_lem low [] s l q all room v = record {
    final = s;
    queue = q;
    runs = ap (again (rounds 0)) (process-none events driver kernel s v.has v.waits);
    rests = v;
  }
  drain_lem low (sig_request_locked ∷ es) s shut q all room v =
      let at = same_request events driver kernel s shut q es v in
      rounds-next (calls es) s _ at.runs
        (drain_lem low es _ shut _ all (ground (arith, room)) at.rests)
  drain_lem low (sig_request_locked ∷ es) s opened q all room v =
      let at = other_request events driver kernel s opened q es v in
      rounds-next (calls es) s _ at.runs
        (drain_lem low es _ shut _ all (ground (arith, room)) at.rests)
  drain_lem low (sig_request_unlocked ∷ es) s opened q all room v =
      let at = same_request events driver kernel s opened q es v in
      rounds-next (calls es) s _ at.runs
        (drain_lem low es _ opened _ all (ground (arith, room)) at.rests)
  drain_lem low (sig_request_unlocked ∷ es) s shut q all room v =
      let at = other_request events driver kernel s shut q es v in
      rounds-next (calls es) s _ at.runs
        (drain_lem low es _ opened _ all (ground (arith, room)) at.rests)
  drain_lem low (sig_request_self_test ∷ es) s l q all room v =
      let at = self_test_request events driver kernel s l q es v (ground (arith, room)) in
      rounds-next (suc (calls es)) s _ at.0 (
        rounds-next (calls es) _ _ at.1.runs
          (drain_lem low es _ l _ all (ground (arith, room)) at.1.rests))
  drain_lem low (sig_request_current_check ∷ es) s l q all room v =
      let at = current_check_low events driver kernel s l q es v (low _) in
      rounds-next (calls es) s _ at.runs
        (drain_lem low es _ l _ all (ground (arith, room)) at.rests)
  drain_lem low (sig_request_thread_exit ∷ es) s l q all room v = ground (arith, all)
  drain_lem low (sm_enter ∷ es) s l q all room v = ground (arith, all)
  drain_lem low (sm_exit ∷ es) s l q all room v = ground (arith, all)
