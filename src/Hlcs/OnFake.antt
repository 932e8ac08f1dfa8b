-- ===== src/Hlcs/OnFake.antt =====
-- The lock service of example/services/hwLockCtrlService/src/hwLockCtrlService.c on the fake queue of
-- cpputest-for-freertos-lib/src/cpputest_for_freertos_queue.cpp.
use cpputest_for_freertos.Hlcs.{
  Hlcs, Signal, Driver, Kernel, queue_depth, sm_enter, sm_exit, sig_request_locked,
  sig_request_unlocked, sig_request_self_test, sig_request_current_check, sig_request_thread_exit,
  below_2000,
}
use cpputest_for_freertos.Service.EventQueue.{EventQueue}
use cpputest_for_freertos.Service.{◌>>◌, pure, ok}
use cpputest_for_freertos.Hlcs.Machine.{Action, push_event}
use cpputest_for_freertos.Base.{
  ℕ, length, List, ◌≡◌, ◌∷◌, arith, [], ◌+◌, ◌≤◌, ◌++◌, inl, refl, inr, subst, suc, sym, zero,
  append-nil, length-append, append_assoc, ◌≢◌, Bool, true, ◌<◌,
}
use cpputest_for_freertos.Base.Bytes.{to_bytes, of_bytes, length-to_bytes}
use cpputest_for_freertos.Queue.Fifo.Events.{Layout, FakeEvents}
use cpputest_for_freertos.Queue.Fifo.Instance.{fake_events, made, fake_events-create}
use cpputest_for_freertos.Hlcs.Process.{Lock, Rests, shut}
use cpputest_for_freertos.Hlcs.Start.{push_event_lem, started, started_lem}
use cpputest_for_freertos.World.{World, Ptr, null}
use cpputest_for_freertos.Hlcs.{Effect, statics}
use cpputest_for_freertos.Hlcs.Drain.{all_requests, Settles, follow_all, rounds, calls, drain_lem}

-- The value of an enumerator of `SignalT`, and an event as the 4 bytes of it.
abbrev pub number_of : Signal → ℕ
number_of sm_enter = 0
number_of sm_exit = 1
number_of sig_request_locked = 2
number_of sig_request_unlocked = 3
number_of sig_request_self_test = 4
number_of sig_request_current_check = 5
number_of sig_request_thread_exit = 6

abbrev pub signal_of : ℕ → Signal
signal_of zero = sm_enter
signal_of (suc zero) = sm_exit
signal_of (suc (suc zero)) = sig_request_locked
signal_of (suc (suc (suc zero))) = sig_request_unlocked
signal_of (suc (suc (suc (suc zero)))) = sig_request_self_test
signal_of (suc (suc (suc (suc (suc zero))))) = sig_request_current_check
signal_of _ = sig_request_thread_exit

pub signal-number : (e : Signal) → signal_of (of_bytes (to_bytes 4 (number_of e))) ≡ e
unfolding to_bytes of_bytes
signal-number sm_enter = refl
signal-number sm_exit = refl
signal-number sig_request_locked = refl
signal-number sig_request_unlocked = refl
signal-number sig_request_self_test = refl
signal-number sig_request_current_check = refl
signal-number sig_request_thread_exit = refl

pub four-bytes : (e : Signal) → length (to_bytes 4 (number_of e)) ≡ 4
four-bytes e = length-to_bytes 4 (number_of e)

pub size-small : 4 < 256
size-small = omega arith

pub depth-small : queue_depth < 256
depth-small = omega arith

abbrev pub signal_layout : Layout Signal
signal_layout = record {
  encode = λ e. to_bytes 4 (number_of e);
  decode = λ m. signal_of (of_bytes m);
  size = 4;
  depth = queue_depth;
  sized = four-bytes;
  decodes = signal-number;
  small_size = size-small;
  small_depth = depth-small;
}

module _ {Q : Type 0} (events : EventQueue Q Signal queue_depth) (driver : Driver)
    (kernel : Kernel) where
  open events use {send_to_back}

  -- One request after the other.
  unfoldable pub push_all : List Signal → Action Q (Unit {0})
  push_all [] = pure tt
  push_all (e ∷ es) = push_event events driver e >> push_all es

  push_all-Rests :
      (es : List Signal) (s : Hlcs Q) (l : Lock) (q : Q) (ds : List Signal)
      → Rests events driver kernel s l q ds
      → length ds + length es ≤ queue_depth
      → (s' : Hlcs Q) × (q' : Q) × (push_all es s ≡ ok tt s')
        × Rests events driver kernel s' l q' (ds ++ es)
  unfolding push_all
  push_all-Rests [] s l q ds v room =
      (s, q, refl, subst (Rests events driver kernel s l q) (sym (append-nil ds)) v)
  push_all-Rests (e ∷ es) s l q ds v room =
      elim (push_event_lem events driver kernel e s l q ds v) [
        | inl (_, runs, v') ↦
            let (s'', q'', e'', v'') =
              push_all-Rests es _ l _ (ds ++ e ∷ []) v'
                (omega (arith, room, length-append ds (e ∷ []))) in
            (
              s'',
              q'',
              ground (arith, runs, e''),
              subst (Rests events driver kernel s'' l q'') (append_assoc ds (e ∷ []) es) v'',
            )
        | inr (full, _, _) ↦ absurd (ground (arith, full, room))
      ]

module _ (driver : Driver) (kernel : Kernel) (w : World) (fresh : Ptr) (ne : fresh ≢ null) where
  -- The event queue of the service is a fake queue in the world `w`.
  abbrev pub on_fake : EventQueue (FakeEvents signal_layout) Signal queue_depth
  on_fake = fake_events signal_layout w fresh ne

  -- Let the lock service have a fake queue as its event queue, at an address other than nullptr in
  -- any world, let the kernel create the timer and start it, and let the driver read less than 2000
  -- mA always. Then the start from the initial statics and at most ten requests to lock, to unlock,
  -- to test or to check the current return, and processing one event after the other then returns
  -- false after one call for each event, one more for each self test and one at the end. The
  -- service is at rest with no event, in the position to which the last request to lock or to
  -- unlock led, which is locked if there was none.
  pub Settles-on_fake :
      (on_state on_test : Bool) (es : List Signal)
      → kernel.timer_create ≡ true
      → kernel.timer_start ≡ true
      → ((log : List Effect) → below_2000 (driver.read_current log) ≡ true)
      → all_requests es ≡ true
      → length es ≤ queue_depth
      → (s : Hlcs (FakeEvents signal_layout)) × (s' : Hlcs (FakeEvents signal_layout)) × (started
            on_fake driver kernel on_state on_test statics
          ≡ ok tt s)
        × (push_all on_fake driver kernel es s ≡ ok tt s')
        × Settles on_fake driver kernel
            (follow_all shut es)
            (rounds on_fake driver kernel (calls es) s')
  Settles-on_fake on_state on_test es created begun low all room =
      let b =
        started_lem on_fake driver kernel on_state on_test (made signal_layout w fresh ne) []
          (fake_events-create signal_layout w fresh ne) created begun in
      let (s', q', e, v) =
        push_all-Rests on_fake driver kernel es b.state shut _ [] b.rests (omega (arith, room)) in
      (b.state, s', b.runs, e, drain_lem on_fake driver kernel low es s' shut q' all room v)
