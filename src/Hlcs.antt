-- ===== src/Hlcs.antt =====
-- The active object of example/services/hwLockCtrlService/src/hwLockCtrlService.c. Its static
-- variables are the record `Hlcs`, its functions are runs over them.
--
-- `events` is the interface of the event queue, `kernel` what the other calls of the kernel answer
-- and `driver` what the driver of the lock answers, which may depend on all that happened before.
pub mod Machine
pub mod Api
pub mod Command
pub mod Process
pub mod Requests
pub mod Drain
pub mod Start
pub mod OnFake
pub mod System
use cpputest_for_freertos.Service.{ExecutionOption, unit_test, normal}
use cpputest_for_freertos.Base.{ℕ, Bool, List, false, Option, none, true, ltb, [], some}

pub data Signal : Type 0 where
  sm_enter sm_exit : Signal
  sig_request_locked sig_request_unlocked sig_request_self_test : Signal
  sig_request_current_check sig_request_thread_exit : Signal

pub data LockState : Type 0 where
  lock_state_unknown lock_state_locked lock_state_unlocked : LockState

pub data SelfTestResult : Type 0 where
  result_pass result_fail : SelfTestResult

-- `HwLockCtrlSelfTestResultT` of example/drivers/hwLockCtrl/include/hwLockCtrl.h.
pub data HwResult : Type 0 where
  passed failed_power failed_motor : HwResult

-- The functions that `s_currentState` can point to.
pub data StateFunc : Type 0 where
  sm_initial_pseudo_state sm_locked sm_unlocked sm_self_test : StateFunc

-- A current in milliamps: `negative n` is -(n + 1).
pub data Milliamps : Type 0 where
  positive negative : ℕ → Milliamps

-- What the service does to the world outside, last first.
pub data Effect : Type 0 where
  hw_init hw_lock hw_unlock hw_self_test hw_read_current : Effect
  notify_state : LockState → Effect
  notify_self_test : SelfTestResult → Effect
  task_created task_deleted queue_deleted timer_created timer_started timer_deleted : Effect

pub record Hlcs (Q : Type 0) : Type 0 where
  pub lock_state : LockState
  pub exit_thread : Bool
  pub thread : Bool
  pub event_queue : Option Q
  pub state_changed_callback : Bool
  pub self_test_result_callback : Bool
  pub current_state : Option StateFunc
  pub state_history : Option StateFunc
  pub timer : Bool
  pub log : List Effect

-- `HwLockCtrlSelfTest` returns false, or true with a result.
pub record Driver : Type 0 where
  pub self_test : List Effect → Option HwResult
  pub read_current : List Effect → Milliamps

-- Whether `xTaskCreate` returns pdPASS and whether it sets the handle, whether `xTimerCreate`
-- returns a timer, and whether `xTimerStart` returns pdPASS.
pub record Kernel : Type 0 where
  pub task_create : Bool
  pub task_handle : Bool
  pub timer_create : Bool
  pub timer_start : Bool

abbrev pub queue_depth : ℕ
queue_depth = 10

-- The static initialisers.
abbrev pub statics : {Q : Type 0} → Hlcs Q
statics = record {
  lock_state = lock_state_unknown;
  exit_thread = false;
  thread = false;
  event_queue = none;
  state_changed_callback = false;
  self_test_result_callback = false;
  current_state = none;
  state_history = none;
  timer = false;
  log = [];
}

abbrev pub is_unknown : LockState → Bool
is_unknown lock_state_unknown = true
is_unknown _ = false

abbrev pub is_none {ℓ} : {A : Type ℓ} → Option A → Bool
is_none none = true
is_none (some a) = false

abbrev pub same_state : StateFunc → StateFunc → Bool
same_state sm_initial_pseudo_state sm_initial_pseudo_state = true
same_state sm_locked sm_locked = true
same_state sm_unlocked sm_unlocked = true
same_state sm_self_test sm_self_test = true
same_state _ _ = false

abbrev pub below_2000 : Milliamps → Bool
below_2000 (positive n) = ltb n 2000
below_2000 (negative n) = true

abbrev pub is_unit_test : ExecutionOption → Bool
is_unit_test unit_test = true
is_unit_test normal = false
