-- ===== src/Cpu/Clock/Ends.antt =====
-- Total correctness of a method: it ends without failing, in a state where a condition holds.
use apollo_rs.Cpu.State.{Machine, Outcome, done, failed, M, ◌>>=◌}

abbrev pub Ends : {A : Type 0} → (A → Machine → Type 0) → Outcome A → Type 0
Ends P (done a t) = P a t
Ends P (failed e t) = ⊥

pub Ends-result :
    {A B : Type 0} (Q : A → Machine → Type 0) (P : B → Machine → Type 0) (f : A → M B)
    (r : Outcome A)
    → Ends Q r
    → ((a : A) (t : Machine) → Q a t → Ends P (f a t))
    → Ends P (elim r [ done a t ↦ f a t | failed e t ↦ failed e t ])
Ends-result Q P f (done a t) h k = k a t h
Ends-result Q P f (failed e t) h k = h

-- A method followed by another.
pub Ends-bind :
    {A B : Type 0} (Q : A → Machine → Type 0) (P : B → Machine → Type 0) (m : M A) (f : A → M B)
    (s : Machine)
    → Ends Q (m s)
    → ((a : A) (t : Machine) → Q a t → Ends P (f a t))
    → Ends P ((m >>= f) s)
Ends-bind Q P m f s h k = Ends-result Q P f (m s) h k

-- A weaker condition.
pub Ends-weaken :
    {A : Type 0} (Q P : A → Machine → Type 0) (r : Outcome A)
    → Ends Q r
    → ((a : A) (t : Machine) → Q a t → P a t)
    → Ends P r
Ends-weaken Q P (done a t) h k = k a t h
Ends-weaken Q P (failed e t) h k = h
