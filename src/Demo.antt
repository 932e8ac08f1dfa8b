-- ===== src/Demo.antt =====
-- The demo application of example/apps/demoPcApp/main.cpp: its callbacks, its task for the keys, and
-- `main`. What it prints is kept as lines.
--
-- The two services, the kernel and the drivers are parameters, as in Hlcs and Button. A key is its
-- character code, and the keys typed are a list.
pub mod Spec
pub mod Read
pub mod Typed
pub mod Input
pub mod Whole
use cpputest_for_freertos.Hlcs
use cpputest_for_freertos.Hlcs.Api
use cpputest_for_freertos.Button
use cpputest_for_freertos.Hlcs.{
  Hlcs, Driver, Signal, queue_depth, Effect, LockState, SelfTestResult, lock_state_unknown,
  lock_state_locked, lock_state_unlocked, result_pass, result_fail, notify_state, notify_self_test,
}
use cpputest_for_freertos.Button.{Button, ButtonState, Reader, simulate_isr, button_change}
use cpputest_for_freertos.Service.{
  ◌>>=◌, ◌>>◌, Run, Outcome, ok, asserted, undefined_behavior, pure, config_assert, normal,
}
use cpputest_for_freertos.Service.BinarySemaphore.{BinarySemaphore}
use cpputest_for_freertos.Base.{
  ℕ, List, [], ◌∷◌, ◌+◌, Option, Bool, suc, none, true, if◌then◌else◌, some, ◌==◌, zero,
}
use cpputest_for_freertos.Service.EventQueue.{EventQueue}

-- The string that `GetLockState` returns.
pub data LockName : Type 0 where
  unlocked_name locked_name unknown_name : LockName

-- A line on the console: the change of the lock, the result of a self test, the head of the menu,
-- or the change of buttons with the flags and the state.
pub data Line : Type 0 where
  lock_state_changed : LockName → Line
  self_test_result_is : SelfTestResult → Line
  lock_state_is : LockName → Line
  button_changed : ℕ → ButtonState → Line

-- What the callbacks of the lock service have done: `s_lastState`, and their lines, last first.
pub record Screen : Type 0 where
  pub last_state : LockState
  pub lines : List Line

abbrev pub screen_statics : Screen
screen_statics = record { last_state = lock_state_unknown; lines = [] }

abbrev pub get_lock_state : LockState → LockName
get_lock_state lock_state_unlocked = unlocked_name
get_lock_state lock_state_locked = locked_name
get_lock_state lock_state_unknown = unknown_name

unfoldable pub lock_state_change_callback : LockState → Screen → Screen
lock_state_change_callback state screen = record {
  last_state = state;
  lines = lock_state_changed (get_lock_state state) ∷ screen.lines;
}

unfoldable pub self_test_result_callback : SelfTestResult → Screen → Screen
self_test_result_callback result screen = record screen {
  lines = self_test_result_is result ∷ screen.lines;
}

-- The callbacks are called in the order of the log of the lock service.
unfoldable pub heard : List Effect → Screen
unfolding lock_state_change_callback self_test_result_callback
heard [] = screen_statics
heard (notify_state state ∷ log) = lock_state_change_callback state (heard log)
heard (notify_self_test result ∷ log) = self_test_result_callback result (heard log)
heard (_ ∷ log) = heard log

abbrev pub button_change_callback : (flags : ℕ) (state : ButtonState) (context : ℕ) → Line
button_change_callback flags state context = button_changed flags state

pub data DesiredAction : Type 0 where
  exit lock unlock self_test : DesiredAction

-- How the task for the keys stands when the keys typed are used up: it waits for the next, or has
-- exited; or so many rounds of its loop are used up.
pub data InputEnd : Type 0 where
  waits_for_key exited rounds_used : InputEnd

pub record Demo (Q S : Type 0) : Type 0 where
  pub hlcs : Hlcs Q
  pub button : Button S
  pub menus : List Line
  pub ticks_waited : ℕ

abbrev pub Action : Type 0 → Type 0 → Type 0 → Type 0
Action Q S A = Run (Demo Q S) A

module _ {Q S A : Type 0} where
  abbrev pub on_hlcs_end : Demo Q S → Outcome (Hlcs Q) A → Outcome (Demo Q S) A
  on_hlcs_end d (ok a s) = ok a (record d { hlcs = s })
  on_hlcs_end d (asserted line s) = asserted line (record d { hlcs = s })
  on_hlcs_end d undefined_behavior = undefined_behavior

  abbrev pub on_hlcs : Run (Hlcs Q) A → Action Q S A
  on_hlcs m d = on_hlcs_end d (m d.hlcs)

  abbrev pub on_button_end : Demo Q S → Outcome (Button S) A → Outcome (Demo Q S) A
  on_button_end d (ok a s) = ok a (record d { button = s })
  on_button_end d (asserted line s) = asserted line (record d { button = s })
  on_button_end d undefined_behavior = undefined_behavior

  abbrev pub on_button : Run (Button S) A → Action Q S A
  on_button m d = on_button_end d (m d.button)

module _ {Q S : Type 0} where
  abbrev pub print_menu : Action Q S (Unit {0})
  print_menu d =
      ok tt (record d {
        menus = lock_state_is (get_lock_state (heard d.hlcs.log).last_state) ∷ d.menus;
      })

  -- `vTaskDelay`: the time that the task lets pass.
  abbrev pub delay : ℕ → Action Q S (Unit {0})
  delay ticks d = ok tt (record d { ticks_waited = d.ticks_waited + ticks })

module _ {Q S : Type 0} (events : EventQueue Q Signal queue_depth) (driver : Driver)
    (hlcs_kernel : Hlcs.Kernel) (sema : BinarySemaphore S) (reader : Reader)
    (button_kernel : Button.Kernel) where
  -- The loop of `GetUserAction`, until the keys are used up: the action, and the keys that are left.
  unfoldable pub read_keys : List ℕ → Action Q S (Option (DesiredAction × List ℕ))
  read_keys [] = pure none
  read_keys (ch ∷ chs) =
      let rest = read_keys chs in
      if ch == 48
      then pure (some (unlock, chs))
      else if ch == 49
      then pure (some (lock, chs))
      else if ch == 50
      then pure (some (self_test, chs))
      else if ch == 51
      then (on_button (simulate_isr sema reader button_kernel) >> rest)
      else if ch == 57
      then pure (some (exit, chs))
      else (delay 10 >> rest)

  unfoldable pub get_user_action : List ℕ → Action Q S (Option (DesiredAction × List ℕ))
  unfolding read_keys
  get_user_action chs = print_menu >> read_keys chs

  -- The loop of `UserInputTask`, for at most so many rounds.
  unfoldable pub user_input_task : ℕ → List ℕ → Action Q S InputEnd
  user_input_task zero chs = pure rounds_used
  user_input_task (suc n) chs = get_user_action chs >>= λ action. elim action [
    | none ↦ pure waits_for_key
    | some (wanted, rest) ↦ elim wanted [
      | lock ↦
          on_hlcs (Api.request_locked_async events driver hlcs_kernel) >> user_input_task n rest
      | unlock ↦
          on_hlcs (Api.request_unlocked_async events driver hlcs_kernel) >> user_input_task n rest
      | self_test ↦
          on_hlcs (Api.request_self_test_async events driver hlcs_kernel) >> user_input_task n rest
      | exit ↦ on_hlcs (Api.destroy events driver hlcs_kernel) >> pure exited
    ]
  ]

  -- `main`, up to the start of the scheduler; `input_created` says whether `xTaskCreate` returns
  -- pdPASS for the task for the keys.
  unfoldable pub main : (input_created : Bool) → Action Q S (Unit {0})
  main input_created = do
    on_hlcs (Api.init events driver hlcs_kernel)
    on_hlcs (Api.register_change_state_callback events driver hlcs_kernel true)
    on_hlcs (Api.register_self_test_result_callback events driver hlcs_kernel true)
    on_hlcs (Api.start events driver hlcs_kernel normal)
    on_button (Button.init sema reader button_kernel)
    on_button (Button.register_button_change_callback true 0)
    on_button (Button.start sema reader button_kernel normal)
    config_assert 126 input_created

abbrev pub statics : {Q S : Type 0} → Demo Q S
statics = record { hlcs = Hlcs.statics; button = Button.statics; menus = []; ticks_waited = 0 }
