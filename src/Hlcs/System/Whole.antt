-- ===== src/Hlcs/System/Whole.antt =====
-- The steps of the task, when nobody comes between them, are the functions that it calls:
-- example/services/hwLockCtrlService/src/hwLockCtrlService.c.
use cpputest_for_freertos.Service.EventQueue.{EventQueue}
use cpputest_for_freertos.Hlcs.{Signal, queue_depth, Driver, Kernel, Hlcs}
use cpputest_for_freertos.Hlcs.System.{System, Alone}

module _ {Q : Type 0} (events : EventQueue Q Signal queue_depth) (driver : Driver)
    (kernel : Kernel) where
  abbrev pub Runs : System Q → System Q → Type 0
  Runs = Alone events driver kernel
