-- ===== src/Button/System/Launch.antt =====
-- The start for normal use, in which a task runs the service:
-- example/services/buttonService/src/buttonService.c.
use cpputest_for_freertos.Service.{◌>>◌, returned_state, ok, Outcome, normal}
use cpputest_for_freertos.Service.BinarySemaphore.{BinarySemaphore}
use cpputest_for_freertos.Button.{
  Button, Reader, Kernel, statics, init, start, register_button_change_callback, task_created,
}
use cpputest_for_freertos.Button.System.{System, Reach}
use cpputest_for_freertos.Button.System.Served.{Has, Served, Reach-Served}
use cpputest_for_freertos.Base.{ℕ, true, some, ◌≡◌, ◌∷◌, arith, sym, [], ◌∙◌, subst, ap, refl}

module _ {S : Type 0} (sema : BinarySemaphore S) (reader : Reader) (kernel : Kernel) where
  open sema use {create, create_empty}

  -- The calls of `ButtonService_Init`, the registration and `ButtonService_Start`.
  unfoldable pub launched : (context : ℕ) → Button S → Outcome (Button S) (Unit {0})
  launched context = do
    init sema reader kernel
    register_button_change_callback true context
    start sema reader kernel normal

  -- The service before its task runs.
  abbrev pub launch : ℕ → S → Button S
  launch context h = record statics {
    thread = kernel.task_handle;
    event_sema = some h;
    callback = true;
    context = context;
    log = task_created ∷ [];
  }

  pub launched_lem :
      (context : ℕ) (h : S)
      → create ≡ some h
      → kernel.task_create ≡ true
      → launched context statics ≡ ok tt (launch context h)
  unfolding launched init register_button_change_callback start
  launched_lem context h made task_made = ground (arith, made, task_made)

  pub launched-Has :
      (context : ℕ) (h : S) (s : Button S)
      → create ≡ some h
      → kernel.task_create ≡ true
      → launched context statics ≡ ok tt s
      → Has sema reader kernel s h 0
  launched-Has context h s made task_made runs =
      let same : ok tt s ≡ ok tt (launch context h) =
        sym runs ∙ launched_lem context h made task_made in
      subst (λ t. Has sema reader kernel t h 0) (sym (ap (returned_state s) same))
        (record { has = refl; count = create_empty h made; within = omega arith; goes_on = refl })

  -- Let the kernel create the semaphore and the task, and let interrupts come while the task of the
  -- button service runs, a call of the kernel at a time, in any order. Then in every state that
  -- ButtonService_Init, the registration of a callback and ButtonService_Start for normal use lead
  -- to, the semaphore has at most one token, and an interrupt that came after the last read has its
  -- token in the semaphore or with the task; or the assertion on line 115 has failed after a read
  -- that the driver refused. The semaphore behaves as FreeRTOS documents.
  pub launched-Served :
      (context : ℕ) (h : S) (s : Button S) (x : System S)
      → create ≡ some h
      → kernel.task_create ≡ true
      → launched context statics ≡ ok tt s
      → Reach sema reader kernel s x
      → Served sema reader kernel x
  launched-Served context h s x made task_made runs r =
      Reach-Served sema reader kernel (launched-Has context h s made task_made runs) r
