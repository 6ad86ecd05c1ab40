-- ===== src/Dsky/Spelled.antt =====
-- crates/agc-dsky/src/lib.rs, `V37ProgramChange`: the accepted sequences of keys are the beginnings of
-- VERB 3 7 ENTER and two digits and ENTER, or another verb that waits for its ENTER.
use apollo_rs.Prelude.{
  ℕ, ◌+◌, ◌*◌, ◌/◌, ◌%◌, ◌≤◌, ◌≡◌, refl, sym, ◌∙◌, ap, arith, true, ◌==◌, ◌&&◌, leb, if_cases, ok,
  bind_ok, IfOk, IfOk-bind, Option, none, some, List, [], ◌∷◌, ◌++◌, length, length-append,
}
use mathlib.Core.Path.{subst}
use mathlib.Core.List.{append-nil, append_assoc}
use apollo_rs.Dsky.Keys.{Key, digit, verb, enter}
use apollo_rs.Dsky.Pinball.{
  V37State, await_verb, verb_tens, verb_ones, verb_enter, program_tens, program_ones, program_enter,
  complete, V37ProgramChange, initial, decimal_pair, next, accept_in, accept, accept_all,
}

-- VERB 3 7 ENTER.
abbrev pub v37 : List Key
v37 = verb ∷ digit 3 ∷ digit 7 ∷ enter ∷ []

-- The keys that lead to a state.
abbrev pub spelled : V37State → List Key
spelled await_verb = []
spelled verb_tens = verb ∷ []
spelled (verb_ones tens) = verb ∷ digit tens ∷ []
spelled (verb_enter v) = verb ∷ digit (v / 10) ∷ digit (v % 10) ∷ []
spelled program_tens = v37
spelled (program_ones tens) = v37 ++ digit tens ∷ []
spelled (program_enter p) = v37 ++ digit (p / 10) ∷ digit (p % 10) ∷ []
spelled (complete p) = v37 ++ digit (p / 10) ∷ digit (p % 10) ∷ enter ∷ []

-- The registers of a state: the verb from its ENTER on, and the program from the last ENTER.
abbrev pub registers : V37State → Option ℕ × Option ℕ
registers await_verb = (none, none)
registers verb_tens = (none, none)
registers (verb_ones tens) = (none, none)
registers (verb_enter v) = (none, none)
registers program_tens = (some 37, none)
registers (program_ones tens) = (some 37, none)
registers (program_enter p) = (some 37, none)
registers (complete p) = (some 37, some p)

-- The numbers of a state have two digits.
abbrev pub HasDigits : V37State → Type 0
HasDigits (verb_enter v) = v ≤ 99
HasDigits (program_enter p) = p ≤ 99
HasDigits (complete p) = p ≤ 99
HasDigits _ = Unit

-- The given keys, and no others, led to the state.
pub record Entered (keys : List Key) (s : V37ProgramChange) : Type 0 where
  pub spells : keys ≡ spelled s.state
  pub counts : s.accepted_keys ≡ length keys
  pub registers_are : (s.verb_register, s.program_register) ≡ registers s.state
  pub has_digits : HasDigits s.state

after_key :
    (keys : List Key) (k : Key) (s t : V37ProgramChange) (state : V37State)
    → Entered keys s
    → spelled s.state ++ k ∷ [] ≡ spelled state
    → (t.verb_register, t.program_register) ≡ registers state
    → t.accepted_keys ≡ s.accepted_keys
    → HasDigits state
    → Entered (keys ++ k ∷ []) (record t { state = state; accepted_keys = t.accepted_keys + 1 })
after_key keys k s t state e spells regs counts digits = record {
  spells = ap (λ ks. ks ++ k ∷ []) e.spells ∙ spells;
  counts = omega (arith, counts, e.counts, length-append keys (k ∷ []));
  registers_are = regs;
  has_digits = digits;
}

pair_digits : (t o : ℕ) → o ≤ 9 → ((t * 10 + o) / 10 ≡ t) × ((t * 10 + o) % 10 ≡ o)
pair_digits t o h = (omega arith, omega arith)

accept_in-Entered :
    (state : V37State) (k : Key) (keys : List Key) (s : V37ProgramChange)
    → s.state ≡ state
    → Entered keys s
    → IfOk (Entered (keys ++ k ∷ [])) (accept_in state k s)
unfolding accept_in decimal_pair
accept_in-Entered await_verb verb keys s e h =
    after_key keys verb s s verb_tens h (rw e refl) (h.registers_are ∙ ap registers e) refl tt
accept_in-Entered verb_tens (digit t) keys s e h =
    after_key keys (digit t) s s (verb_ones t) h (rw e refl) (h.registers_are ∙ ap registers e) refl
      tt
accept_in-Entered (verb_ones t) (digit o) keys s e h =
    if_cases
      (λ r. IfOk (Entered (keys ++ digit o ∷ [])) (bind_ok r λ pair. next s (verb_enter pair)))
      (leb t 9 && leb o 9) _ _
      (λ b.
        let small : (t ≤ 9) × (o ≤ 9) = ground (arith, b) in
        let back = pair_digits t o small.1 in
        after_key keys (digit o) s s (verb_enter (t * 10 + o)) h (rw (e, back.0, back.1) refl)
          (h.registers_are ∙ ap registers e) refl (omega (arith, small)))
      λ _. tt
accept_in-Entered (verb_enter v) enter keys s e h =
    if_cases (IfOk (Entered (keys ++ enter ∷ []))) (v == 37) _ _
      (λ b.
        let is_37 : v ≡ 37 = ground (arith, b) in
        after_key keys enter s (record s { verb_register = some 37 }) program_tens h
          (rw (e, is_37) refl) (ap (λ r. (some 37, r.1)) (h.registers_are ∙ ap registers e)) refl
          tt)
      λ _. tt
accept_in-Entered program_tens (digit t) keys s e h =
    after_key keys (digit t) s s (program_ones t) h (rw e refl) (h.registers_are ∙ ap registers e)
      refl tt
accept_in-Entered (program_ones t) (digit o) keys s e h =
    if_cases
      (λ r. IfOk (Entered (keys ++ digit o ∷ [])) (bind_ok r λ pair. next s (program_enter pair)))
      (leb t 9 && leb o 9) _ _
      (λ b.
        let small : (t ≤ 9) × (o ≤ 9) = ground (arith, b) in
        let back = pair_digits t o small.1 in
        after_key keys (digit o) s s (program_enter (t * 10 + o)) h (rw (e, back.0, back.1) refl)
          (h.registers_are ∙ ap registers e) refl (omega (arith, small)))
      λ _. tt
accept_in-Entered (program_enter p) enter keys s e h =
    after_key keys enter s (record s { program_register = some p }) (complete p) h (rw e refl)
      (ap (λ r. (r.0, some p)) (h.registers_are ∙ ap registers e)) refl
      (subst HasDigits e h.has_digits)
accept_in-Entered _ _ keys s e h = tt

accept_all-Entered :
    (ks keys : List Key) (s : V37ProgramChange)
    → Entered keys s
    → IfOk (Entered (keys ++ ks)) (accept_all s ks)
unfolding accept_all accept
accept_all-Entered [] keys s h = subst (λ l. Entered l s) (sym (append-nil keys)) h
accept_all-Entered (k ∷ ks) keys s h =
    IfOk-bind (Entered (keys ++ k ∷ [])) (Entered (keys ++ k ∷ ks)) (accept_in s.state k s)
      (λ t. accept_all t ks) (accept_in-Entered s.state k keys s refl h)
      λ t q.
        subst (λ l. IfOk (Entered l) (accept_all t ks)) (append_assoc keys (k ∷ []) ks)
          (accept_all-Entered ks (keys ++ k ∷ []) t q)

-- Of all sequences of keys, only those that spell the state that they lead to are accepted from the
-- start: the number of accepted keys is their number, the verb register is 37 and the program
-- register the entered program once their ENTER is in, and every complete number has two digits.
pub accept_all-spelled : (ks : List Key) → IfOk (Entered ks) (accept_all initial ks)
accept_all-spelled ks =
    accept_all-Entered ks [] initial
      (record { spells = refl; counts = refl; registers_are = refl; has_digits = tt })

-- V37 with a program of two digits is accepted, and the state is complete with that program.
pub accept_all-v37 :
    (t o : ℕ)
    → t ≤ 9
    → o ≤ 9
    → accept_all initial (v37 ++ digit t ∷ digit o ∷ enter ∷ [])
      ≡ ok (record {
        state = complete (t * 10 + o);
        accepted_keys = 7;
        verb_register = some 37;
        program_register = some (t * 10 + o);
      })
unfolding accept_all accept accept_in decimal_pair
accept_all-v37 t o h k =
    let small : (leb t 9 && leb o 9) ≡ true = ground (arith, h, k) in rw small refl
