-- ===== src/Button.antt =====
-- The button service of example/services/buttonService/src/buttonService.c. Its static variables
-- are the record `Button`, its functions are runs over them.
--
-- `sema` is the interface of the event semaphore, `kernel` what the creation of the task answers,
-- and `reader` what the driver of the buttons answers, which may depend on all that happened
-- before.
pub mod Emit
pub mod Events
pub mod Lifecycle
pub mod System
use cpputest_for_freertos.Service.{
  ◌>>=◌, ◌>>◌, Run, get, put, ok, undefined_behavior, pure, config_assert, ExecutionOption, normal,
  unit_test,
}
use cpputest_for_freertos.Service.BinarySemaphore.{BinarySemaphore}
use cpputest_for_freertos.Base.{
  ℕ, Bool, List, false, ◌∷◌, Option, not, if◌then◌else◌, some, none, ◌/◌, ◌+◌, true, ◌&&◌, ◌==◌,
  suc, [], ◌%◌, zero,
}
use cpputest_for_freertos.Hlcs.{is_none}

pub data ButtonState : Type 0 where
  button_pressed button_released : ButtonState

-- What the service does to the world outside, last first. A call of the callback has the flags, the
-- state and the context.
pub data Effect : Type 0 where
  reader_init reader_register reader_read : Effect
  button_change : ℕ → ButtonState → ℕ → Effect
  task_created task_deleted semaphore_deleted : Effect

pub record Button (S : Type 0) : Type 0 where
  pub thread : Bool
  pub event_sema : Option S
  pub exit_thread : Bool
  pub callback : Bool
  pub context : ℕ
  pub log : List Effect

-- `ButtonReaderRead` returns false, or true with the bits that are pressed and released.
pub record Reader : Type 0 where
  pub read : List Effect → Option (ℕ × ℕ)

-- Whether `xTaskCreate` returns pdPASS and whether it sets the handle.
pub record Kernel : Type 0 where
  pub task_create : Bool
  pub task_handle : Bool

-- The static initialisers.
abbrev pub statics : {S : Type 0} → Button S
statics = record {
  thread = false;
  event_sema = none;
  exit_thread = false;
  callback = false;
  context = 0;
  log = [];
}

-- `bits & 0x02` and `bits & 0x08`, as conditions.
abbrev pub has_on_off_bit : ℕ → Bool
has_on_off_bit bits = (bits / 2) % 2 == 1

abbrev pub has_func_a_bit : ℕ → Bool
has_func_a_bit bits = (bits / 8) % 2 == 1

-- `flags |= BUTTON_ON_OFF` on no flags, and `flags |= BUTTON_FUNC_A` on flags without that bit.
abbrev pub flags_of : ℕ → ℕ
flags_of bits =
    let flags = if has_on_off_bit bits then 1 else 0 in
    if has_func_a_bit bits then flags + 2 else flags

abbrev pub is_unit_test : ExecutionOption → Bool
is_unit_test unit_test = true
is_unit_test normal = false

abbrev pub Action : Type 0 → Type 0 → Type 0
Action S A = Run (Button S) A

module _ {S : Type 0} where
  abbrev pub effect : Effect → Action S (Unit {0})
  effect e s = ok tt (record s { log = e ∷ s.log })

  -- The handle of the semaphore, which the kernel's calls are given.
  abbrev pub sema_of : Option S → Action S S
  sema_of none s = undefined_behavior
  sema_of (some h) s = ok h s

  unfoldable pub emit : ℕ → ButtonState → Action S (Unit {0})
  emit bits state = do
    s ← get
    if s.callback && not (flags_of bits == 0)
        then effect (button_change (flags_of bits) state s.context)
        else pure tt

  abbrev pub emit_if : ℕ → ButtonState → Action S (Unit {0})
  emit_if bits state = if not (bits == 0) then emit bits state else pure tt

  unfoldable pub report : Option (ℕ × ℕ) → Action S (Unit {0})
  unfolding emit
  report none = config_assert 115 false
  report (some (pressed, released)) = do
    s ← get
    if s.callback
        then (do emit_if pressed button_pressed; emit_if released button_released)
        else pure tt

  unfoldable pub initialize : Action S (Unit {0})
  initialize = effect reader_init >> effect reader_register

  unfoldable pub register_button_change_callback :
      (callback : Bool) (context : ℕ) → Action S (Unit {0})
  register_button_change_callback callback context s =
      ok tt (record s { callback = callback; context = context })

  -- After `ButtonService_Destroy`, but for the log.
  abbrev pub cleared : Button S → Button S
  cleared s = record statics { log = s.log }

module _ {S : Type 0} (sema : BinarySemaphore S) (reader : Reader) (kernel : Kernel) where
  open sema use {create, give, give_from_isr, take, get_count}

  unfoldable pub init : Action S (Unit {0})
  init = do
    s ← get
    config_assert 49 (not s.thread)
    config_assert 50 (is_none s.event_sema)
    config_assert 51 (not s.callback)
    config_assert 52 (s.context == 0)
    config_assert 53 (not s.exit_thread)
    put (record s { event_sema = create })
    config_assert 56 (not (is_none create))

  unfoldable pub destroy : Action S (Unit {0})
  destroy = do
    s ← get
    if is_none s.event_sema then pure tt else do
      put (record s { exit_thread = true })
      h ← sema_of s.event_sema
      t ← get
      put (record t {
        event_sema = some (give h).1;
        log = semaphore_deleted ∷ task_deleted ∷ t.log;
      })
    s ← get
    put (cleared s)

  unfoldable pub start : ExecutionOption → Action S (Unit {0})
  unfolding initialize
  start option = do
    s ← get
    config_assert 80 (not s.thread)
    if is_unit_test option then initialize else do
      put (record s { thread = kernel.task_handle; log = task_created ∷ s.log })
      config_assert 84 kernel.task_create

  -- What follows the take.
  unfoldable pub taken : Bool → Action S Bool
  unfolding report
  taken false = pure false
  taken true = do s ← get; effect reader_read; report (reader.read s.log); pure true

  unfoldable pub process_one_event : ExecutionOption → Action S Bool
  unfolding taken
  process_one_event option = do
    s ← get
    h ← sema_of s.event_sema
    if is_unit_test option && (get_count h == 0)
        then pure false
        else do put (record s { event_sema = some (take h).1 }); taken (take h).0

  -- The loop of `ButtonService_Task`, for at most so many rounds.
  unfoldable pub task_rounds : ℕ → Action S (Unit {0})
  unfolding process_one_event
  task_rounds zero = pure tt
  task_rounds (suc n) = do
    s ← get
    if s.exit_thread then pure tt else do process_one_event normal; task_rounds n

  unfoldable pub task : ℕ → Action S (Unit {0})
  unfolding initialize task_rounds
  task n = initialize >> task_rounds n

  unfoldable pub isr_callback : Action S (Unit {0})
  isr_callback = do
    s ← get
    h ← sema_of s.event_sema
    put (record s { event_sema = some (give_from_isr h).1 })

  unfoldable pub simulate_isr : Action S (Unit {0})
  unfolding isr_callback
  simulate_isr = isr_callback
