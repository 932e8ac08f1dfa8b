-- ===== src/World/Heap.antt =====
-- The laws of the heap of the objects of
-- cpputest-for-freertos-lib/src/cpputest_for_freertos_fake_queue.hpp.
use cpputest_for_freertos.Base.{
  ◌+◌, ◌≤◌, ◌≡◌, ◌≢◌, refl, inl, inr, none, some, [], ◌∷◌, arith, ◌==◌, if◌then◌else◌, Bool-cases,
}
use mathlib.Core.Path.{subst₂}
use cpputest_for_freertos.World.{Ptr, FakeQueue, Heap, lookup, insert, erase, spaces, total_spaces}

pub lookup-insert :
    (j p : Ptr) (q : FakeQueue) (h : Heap)
    → lookup j (insert p q h) ≡ (if p == j then some q else lookup j h)
unfolding lookup insert
lookup-insert j p q [] = refl
lookup-insert j p q ((k, r) ∷ h) = ground (arith, lookup-insert j p q h)

pub lookup-insert_self : (p : Ptr) (q : FakeQueue) (h : Heap) → lookup p (insert p q h) ≡ some q
lookup-insert_self p q h = ground (arith, lookup-insert p p q h)

pub lookup-insert_ne :
    (j p : Ptr) (q : FakeQueue) (h : Heap) → p ≢ j → lookup j (insert p q h) ≡ lookup j h
lookup-insert_ne j p q h n = ground (arith, lookup-insert j p q h)

pub insert-insert :
    (p : Ptr) (q r : FakeQueue) (h : Heap) → insert p r (insert p q h) ≡ insert p r h
unfolding insert
insert-insert p q r [] = ground arith
insert-insert p q r ((k, s) ∷ h) = ground (arith, insert-insert p q r h)

pub lookup-erase :
    (j p : Ptr) (h : Heap) → lookup j (erase p h) ≡ (if p == j then none else lookup j h)
unfolding lookup erase
lookup-erase j p [] = ground arith
lookup-erase j p ((k, r) ∷ h) = ground (arith, lookup-erase j p h)

pub lookup-erase_self : (p : Ptr) (h : Heap) → lookup p (erase p h) ≡ none
lookup-erase_self p h = ground (arith, lookup-erase p p h)

-- A property of every object on the heap.
abbrev pub AllHeap : (Ptr → FakeQueue → Type 0) → Heap → Type 0
AllHeap P h = (p : Ptr) (q : FakeQueue) → lookup p h ≡ some q → P p q

module _ (P : Ptr → FakeQueue → Type 0) where
  pub AllHeap-insert :
      (p : Ptr) (q : FakeQueue) (h : Heap) → P p q → AllHeap P h → AllHeap P (insert p q h)
  AllHeap-insert p q h x a j r e = elim (Bool-cases (p == j)) [
    | inl same ↦
        let here : p ≡ j = ground arith in
        let it : q ≡ r = ground (arith, lookup-insert j p q h) in subst₂ P here it x
    | inr other ↦ a j r (ground (arith, lookup-insert j p q h))
  ]

  pub AllHeap-erase : (p : Ptr) (h : Heap) → AllHeap P h → AllHeap P (erase p h)
  AllHeap-erase p h a j r e = a j r (ground (arith, lookup-erase j p h))

-- The space left after a queue has taken a new value.
pub total_spaces-insert :
    (p : Ptr) (q r : FakeQueue) (h : Heap)
    → lookup p h ≡ some r
    → total_spaces (insert p q h) + spaces r ≡ total_spaces h + spaces q
unfolding lookup insert total_spaces
total_spaces-insert p q r [] e = absurd (ground arith)
total_spaces-insert p q r ((k, s) ∷ h) e = elim (Bool-cases (k == p)) [
  | inl same ↦ rw same (let it : s ≡ r = ground arith in rw it (omega arith))
  | inr other ↦ rw other (omega (arith, total_spaces-insert p q r h (ground arith)))
]

pub spaces-le_total :
    (p : Ptr) (r : FakeQueue) (h : Heap) → lookup p h ≡ some r → spaces r ≤ total_spaces h
unfolding lookup total_spaces
spaces-le_total p r [] e = absurd (ground arith)
spaces-le_total p r ((k, s) ∷ h) e = elim (Bool-cases (k == p)) [
  | inl same ↦ let it : s ≡ r = ground arith in rw it (omega arith)
  | inr other ↦ omega (arith, spaces-le_total p r h (ground arith))
]
