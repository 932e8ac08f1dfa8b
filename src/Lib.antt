-- ===== src/Lib.antt =====
-- A library of fakes for unit tests of code that uses FreeRTOS, two example services and their demo.
--
-- The fakes (cpputest-for-freertos-lib) replace the kernel's queues, queue sets, semaphores and
-- mutexes. All of them are `FakeQueue` objects: a semaphore is a queue of empty messages, a mutex a
-- queue of one empty message, and a set a queue of the handles of its members. A send to a queue
-- that is in a set sends the queue's handle to the set. Mutexes are recorded in a list, by which a
-- test confirms at its end that none is locked, and from which vQueueDelete takes them. The lock
-- service (example/services/hwLockCtrlService) is an active object: its functions push events on a
-- queue, and its task takes them off and gives them to a state machine. The button service
-- (example/services/buttonService) waits for a semaphore that an interrupt gives, and reads the
-- buttons. The demo (example/apps/demoPcApp) starts both and turns keys into requests. Tasks do not
-- run in a test; the time is a tick count, or that of the fake timers where a test has made them.
--
-- Files, with paths from the repository's root:
--   World              the heap of FakeQueue objects with their addresses, s_mutexes, configASSERT, and
--                      runs as functions from a world to an outcome
--                      (cpputest-for-freertos-lib/src/cpputest_for_freertos_fake_queue.hpp,
--                      cpputest-for-freertos-lib/port/include)
--   Queue              cpputest-for-freertos-lib/src/cpputest_for_freertos_queue.cpp
--   QueueSet           cpputest-for-freertos-lib/src/cpputest_for_freertos_queue_set.cpp
--   Semaphore          cpputest-for-freertos-lib/src/cpputest_for_freertos_semaphore.cpp
--   Mutex              cpputest-for-freertos-lib/src/cpputest_for_freertos_mutex.cpp
--   Service            what services share: runs over statics, and the kernel's queue and semaphore
--                      as interfaces
--   Hlcs               example/services/hwLockCtrlService/src/hwLockCtrlService.c
--   Clock              cpputest-for-freertos-lib/src/cpputest_for_freertos_task.cpp (Clock/Tasks) and
--                      cpputest-for-freertos-lib/src/cpputest_for_freertos_timers.cpp (Clock/Timers)
--   Button             example/services/buttonService/src/buttonService.c
--   Demo               example/apps/demoPcApp/main.cpp
--   Drivers            example/drivers/buttonReader/src/buttonReader.c and
--                      example/drivers/hwLockCtrl/src/hwLockCtrl.c
--   Assert             cpputest-for-freertos-lib/src/cpputest_for_freertos_assert.cpp and
--                      cpputest-for-freertos-lib/include/cpputest_for_freertos_assert.hpp
--   Config             configASSERT of example/apps/demoPcApp/FreeRTOSConfig.h, and the values of
--                      configTICK_TYPE_WIDTH_IN_BITS
--   Port               cpputest-for-freertos-lib/port/include/portmacro.h
--   Library            the setup and the teardown of a test, and sequences of calls
--                      (cpputest-for-freertos-lib/include)
--   Scenarios          concrete instances and worlds
--   Base               lists, Boolean tests and bytes
-- A definition has the name of the C function in lower case: x_queue_generic_send is
-- xQueueGenericSend, process_one_event is HLCS_ProcessOneEvent. A configASSERT is config_assert with
-- its line.
--
-- How the code is modelled:
--   - Numbers are natural numbers; a UBaseType_t, which is an unsigned char in this port, is taken
--     modulo 256, and recursiveCallCount modulo 2 ^ 64.
--   - A call returns, fails the assertion on a line, reaches FAIL_TEST, or is undefined: it reads a
--     deleted object, pops an empty deque or copies more bytes than a buffer has.
--   - The address that `new` returns is an argument. Handles are 8 bytes, as on a 64-bit host.
--   - xQueueGenericSend calls itself on the container of the queue. It runs on fuel, two more than
--     the free places of all queues: each call but the last fills a place.
--   - Waiting times are ignored, as the fakes ignore them.
--   - semphr.h and queue.h are not in the repository. The macros that the fakes call are the parameter
--     `Macros`, with the expansions that FreeRTOS documents as laws.
--   - CppUMock is the parameter `Mock` of Assert, with what it documents of expectations as laws.
--   - FakeTimers, the library behind the fake timers, and the kernel's conversions between ticks and
--     milliseconds are parameters, with what is documented of them as laws. The time is in
--     nanoseconds, and what an int64_t does not hold when milliseconds are converted is undefined. The
--     variable that xTaskDelayUntil is given a pointer to is one of the caller's, by its address.
--   - The services use the kernel's queue and semaphore through the interfaces of Service.
--     Queue/Fifo/Instance gives an event queue that is a fake queue, and Hlcs/OnFake the lock service on
--     it, with the 4 bytes of an enumerator as the event.
--   - The drivers, of which Drivers gives those of the demo, and the answers of the kernel are
--     parameters. The services' callbacks are recorded when they are called; they do not call the
--     service. What the callbacks of the demo do is replayed from that record.
--   - Hlcs/System has the clients of the lock service and its task as threads. A step of the task ends at
--     a call of the kernel, at its command to the lock (Hlcs/Command), at its store of the state that
--     HLCS_GetState reads, and at its call of the callback. Button/System has the interrupt of the
--     buttons and the task of the button service: a call of the kernel is a step, and so is what the
--     task does with an event, as only its calls of the kernel touch what the interrupt touches.
--     ButtonService_Destroy and HLCS_Destroy are functions, and no steps of these.
--   - The loops of tasks run for a number of rounds. The task for the keys of the demo ends within a
--     round more than there are keys.
--
-- Not modelled: the wording of what is printed, the macros of the port that are empty or not compiled, and
-- the settings of the two FreeRTOSConfig.h, which are constants for the kernel, and the tests and mocks.
pub mod Base
pub mod World
pub mod Queue
pub mod QueueSet
pub mod Semaphore
pub mod Mutex
pub mod Service
pub mod Clock
pub mod Hlcs
pub mod Button
pub mod Drivers
pub mod Demo
pub mod Assert
pub mod Config
pub mod Port
pub mod Library
pub mod Scenarios
