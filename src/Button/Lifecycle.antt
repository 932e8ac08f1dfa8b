-- ===== src/Button/Lifecycle.antt =====
-- Destroying the service and using it again: example/services/buttonService/src/buttonService.c.
use cpputest_for_freertos.Service.{◌>>◌, ok, unit_test}
use cpputest_for_freertos.Service.BinarySemaphore.{BinarySemaphore}
use cpputest_for_freertos.Button.{
  Reader, Kernel, destroy, init, start, Button, Effect, statics, reader_register, reader_init,
  semaphore_deleted, task_deleted,
}
use cpputest_for_freertos.Base.{◌≡◌, some, List, ◌∷◌, Option-cases, inl, arith, inr}

module _ {S : Type 0} (sema : BinarySemaphore S) (reader : Reader) (kernel : Kernel) where
  open sema use {create, get_count, create_empty}

  -- From any state ButtonService_Destroy returns to the initial statics, from which
  -- ButtonService_Init and ButtonService_Start for a unit test return, having initialised the
  -- driver, with a semaphore that has no token, if the kernel creates one as FreeRTOS documents.
  pub restarts :
      (s : Button S) (h : S)
      → create ≡ some h
      → (log : List Effect) × (destroy sema reader kernel s ≡ ok tt (record statics { log = log }))
        × ((init sema reader kernel >> start sema reader kernel unit_test)
              (record statics { log = log })
            ≡ ok tt
                (record statics { event_sema = some h; log = reader_register ∷ reader_init ∷ log }))
        × (get_count h ≡ 0)
  unfolding destroy init start
  restarts s h made = elim (Option-cases s.event_sema) [
    | inl e ↦ (s.log, ground (arith, e), ground (arith, made), create_empty h made)
    | inr (g, e) ↦ (
      semaphore_deleted ∷ task_deleted ∷ s.log,
      ground (arith, e),
      ground (arith, made),
      create_empty h made,
    )
  ]
