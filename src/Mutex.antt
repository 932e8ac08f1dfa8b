-- ===== src/Mutex.antt =====
-- The fake mutexes of cpputest-for-freertos-lib/src/cpputest_for_freertos_mutex.cpp, and the list
-- `s_mutexes` by which a test confirms that it leaves none of them locked. (`MutexAboutToDelete`
-- stands with `vQueueDelete`, its only caller, in Queue.)
pub mod Inv
pub mod Depth
pub mod Tracking
pub mod Create
use cpputest_for_freertos.World.{
  ◌>>=◌, ◌>>◌, M, QueueType, Ptr, ok, config_assert, test_failed, pure, deref, store,
  recursive_mutex, u64, mutex, base, set, other_type,
}
use cpputest_for_freertos.Semaphore.{Macros}
use cpputest_for_freertos.Base.{
  Option, List, Bool, if◌then◌else◌, some, true, [], false, none, ◌++◌, not, ◌∷◌, ◌==◌, ◌+◌, ◌&&◌,
  ltb, ◌-◌,
}
use cpputest_for_freertos.Queue.{
  x_queue_generic_create, BaseType, is_null, internal_queue_receive_dummy, pd_true, pd_false,
  is_recursive_mutex,
}
use cpputest_for_freertos.QueueSet.{is_true}

-- `s_mutexes == nullptr`
abbrev pub untracked : Option (List Ptr) → Bool
untracked none = true
untracked (some ms) = false

unfoldable pub set_mutexes : Option (List Ptr) → M (Unit {0})
set_mutexes ms w = ok tt (record w { mutexes = ms })

unfoldable pub mutex_tracking_init : M (Unit {0})
unfolding set_mutexes
mutex_tracking_init w = (config_assert 45 (untracked w.mutexes) >> set_mutexes (some [])) w

abbrev pub track : Ptr → Option (List Ptr) → Option (List Ptr)
track new none = none
track new (some ms) = some (ms ++ new ∷ [])

-- `FAIL_TEST` leaves the test.
abbrev pub fail_test : M (Unit {0})
fail_test w = test_failed w

module _ (macros : Macros) where
  open macros use {x_semaphore_give, ux_semaphore_get_count}

  -- `std::any_of`, which stops at the first mutex with no token.
  unfoldable pub any_locked : List Ptr → M Bool
  any_locked [] = pure false
  any_locked (m ∷ ms) = do
    count ← ux_semaphore_get_count m
    if count == 0 then pure true else any_locked ms

  unfoldable pub is_any_mutex_locked : M Bool
  is_any_mutex_locked w = elim w.mutexes [ none ↦ ok false w | some ms ↦ any_locked ms w ]

  unfoldable pub mutex_tracking_teardown : M (Unit {0})
  unfolding set_mutexes
  mutex_tracking_teardown w =
      if untracked w.mutexes
      then ok tt w
      else (do
        is_any_locked ← is_any_mutex_locked
        set_mutexes none
        if is_any_locked then fail_test else pure tt)
          w

  -- The `switch` over the type of a new mutex.
  unfoldable pub unlock_new : Ptr → QueueType → M (Unit {0})
  unlock_new new mutex = x_semaphore_give new >> pure tt
  unlock_new new recursive_mutex = do
    x_semaphore_give new
    q ← deref new
    store new (record q { recursive_call_count = 0 })
  unlock_new new base = config_assert 102 false
  unlock_new new set = config_assert 102 false
  unlock_new new other_type = config_assert 102 false

  unfoldable pub x_queue_create_mutex : (fresh : Ptr) → QueueType → M Ptr
  unfolding unlock_new
  x_queue_create_mutex fresh queue_type = do
    new ← x_queue_generic_create fresh 1 0 queue_type
    unlock_new new queue_type
    config_assert 104 (not (is_null new))
    λ w. set_mutexes (track new w.mutexes) w
    pure new

  -- `mutex->recursiveCallCount++; return pdTRUE;`
  unfoldable pub count_call : Ptr → M BaseType
  count_call handle = do
    q ← deref handle
    store handle (record q { recursive_call_count = u64 (q.recursive_call_count + 1) })
    pure pd_true

  unfoldable pub x_queue_take_mutex_recursive : Ptr → M BaseType
  unfolding count_call
  x_queue_take_mutex_recursive handle = do
    config_assert 117 (not (is_null handle))
    q ← deref handle
    config_assert 118 (is_recursive_mutex q.queue_type)
    count ← ux_semaphore_get_count handle
    if count == 1
        then (do
          (rtn, dummy) ← internal_queue_receive_dummy handle
          if is_true rtn then count_call handle else pure rtn)
        else count_call handle

  unfoldable pub x_queue_give_mutex_recursive : Ptr → M BaseType
  x_queue_give_mutex_recursive handle = do
    config_assert 136 (not (is_null handle))
    q ← deref handle
    config_assert 137 (is_recursive_mutex q.queue_type)
    count ← ux_semaphore_get_count handle
    let left = record q { recursive_call_count = q.recursive_call_count - 1 }
    if count == 0 && ltb 0 q.recursive_call_count
        then (do
          store handle left
          if left.recursive_call_count == 0 then x_semaphore_give handle else pure pd_true)
        else pure pd_false
