-- ===== src/Demo/Spec.antt =====
-- What the keys ask for, as the menu of example/apps/demoPcApp/main.cpp tells the user.
use cpputest_for_freertos.Base.{
  List, ℕ, Bool, false, ◌∷◌, true, [], ◌==◌, if◌then◌else◌, not, ◌||◌, ◌&&◌,
}
use cpputest_for_freertos.Demo.{DesiredAction, exit, lock, unlock, self_test}
use cpputest_for_freertos.Hlcs.{
  Signal, sig_request_locked, sig_request_unlocked, sig_request_self_test,
}

-- Whether the keys leave the program, and the requests to the lock and whether there is an interrupt
-- of the buttons before that.
unfoldable pub leaves : List ℕ → Bool
leaves [] = false
leaves (ch ∷ chs) = ch == 57 || leaves chs

unfoldable pub requests_of : List ℕ → List Signal
requests_of [] = []
requests_of (ch ∷ chs) =
    let rest = requests_of chs in
    if ch == 57
    then []
    else if ch == 48
    then sig_request_unlocked ∷ rest
    else if ch == 49
    then sig_request_locked ∷ rest
    else if ch == 50
    then sig_request_self_test ∷ rest
    else rest

unfoldable pub interrupts : List ℕ → Bool
interrupts [] = false
interrupts (ch ∷ chs) = not (ch == 57) && (ch == 51 || interrupts chs)

-- The same, of an action and the keys behind it.
abbrev pub leaves_with : DesiredAction → List ℕ → Bool
leaves_with exit chs = true
leaves_with lock chs = leaves chs
leaves_with unlock chs = leaves chs
leaves_with self_test chs = leaves chs

abbrev pub requests_with : DesiredAction → List ℕ → List Signal
requests_with exit chs = []
requests_with lock chs = sig_request_locked ∷ requests_of chs
requests_with unlock chs = sig_request_unlocked ∷ requests_of chs
requests_with self_test chs = sig_request_self_test ∷ requests_of chs

abbrev pub interrupts_with : DesiredAction → List ℕ → Bool
interrupts_with exit chs = false
interrupts_with lock chs = interrupts chs
interrupts_with unlock chs = interrupts chs
interrupts_with self_test chs = interrupts chs
