-- ===== src/Cpu/Sets.antt =====
-- The processor's ordered sets: pending interrupts by priority, breakpoints and watchpoints.
use apollo_rs.Prelude.{ℕ, ◌+◌, ◌<◌, ◌≤◌, ◌≡◌, refl, arith, true, false, List, [], ◌∷◌}
use apollo_rs.Prelude.{◌==◌, ltb, if_cases, if◌then◌else◌}
use apollo_rs.Cpu.State.{contains, insert, remove}

module _ {A : Type 0} (key : A → ℕ) where
  -- The elements rise strictly, from `n` on.
  abbrev pub IsRising : ℕ → List A → Type 0
  IsRising n [] = Unit
  IsRising n (x ∷ xs) = (n ≤ key x) × IsRising (key x + 1) xs

  above : (x y : A) → ltb (key x) (key y) ≡ true → key x + 1 ≤ key y
  above x y e = ground arith

  pub insert-IsRising :
      (n : ℕ) (xs : List A) (x : A) → n ≤ key x → IsRising n xs → IsRising n (insert key xs x)
  unfolding insert
  insert-IsRising n [] x h r = (h, tt)
  insert-IsRising n (y ∷ ys) x h r =
      if_cases (IsRising n) (ltb (key x) (key y)) _ _ (λ e. (h, (above x y e, r.1)))
        λ e.
          if_cases (IsRising n) (key x == key y) _ _ (λ _. r)
            λ f. (r.0, insert-IsRising (key y + 1) ys x (ground arith) r.1)

  IsRising-weaken : (n m : ℕ) (xs : List A) → m ≤ n → IsRising n xs → IsRising m xs
  IsRising-weaken n m [] h r = tt
  IsRising-weaken n m (x ∷ xs) h r = (omega arith, r.1)

  pub remove-IsRising : (n : ℕ) (xs : List A) (x : A) → IsRising n xs → IsRising n (remove key xs x)
  unfolding remove
  remove-IsRising n [] x r = tt
  remove-IsRising n (y ∷ ys) x r =
      if_cases (IsRising n) (key x == key y) _ _
        (λ _. IsRising-weaken (key y + 1) n ys (omega arith) r.1)
        λ _. (r.0, remove-IsRising (key y + 1) ys x r.1)

  -- An element that was put in is in the set, and the others are as before.
  pub contains-insert :
      (xs : List A) (x y : A)
      → contains key (insert key xs x) y ≡ (if key y == key x then true else contains key xs y)
  unfolding contains insert
  contains-insert [] x y = refl
  contains-insert (z ∷ zs) x y = ground (arith, contains-insert zs x y)

  contains-above :
      (n : ℕ) (xs : List A) (x : A) → IsRising n xs → key x < n → contains key xs x ≡ false
  unfolding contains
  contains-above n [] x r h = refl
  contains-above n (y ∷ ys) x r h = ground (arith, contains-above (key y + 1) ys x)

  -- An element that was taken out is out of the set, and the others are as before.
  pub contains-remove :
      (n : ℕ) (xs : List A) (x y : A)
      → IsRising n xs
      → contains key (remove key xs x) y ≡ (if key y == key x then false else contains key xs y)
  unfolding contains remove
  contains-remove n [] x y r = ground arith
  contains-remove n (z ∷ zs) x y r =
      ground (arith, contains-remove (key z + 1) zs x y, contains-above (key z + 1) zs y)

  -- The first element is the least.
  pub first_least :
      (n : ℕ) (x y : A) (xs : List A)
      → IsRising n (x ∷ xs)
      → contains key (x ∷ xs) y ≡ true
      → key x ≤ key y
  unfolding contains
  first_least n x y [] r h = ground arith
  first_least n x y (z ∷ zs) r h = ground (arith, first_least (key x + 1) z y zs)
