-- ===== src/Dsky/Pinball.antt =====
-- crates/agc-dsky/src/lib.rs, `V37ProgramChange`: the entry protocol of V37.
use apollo_rs.Prelude.{
  ℕ, ◌+◌, ◌*◌, ◌&&◌, leb, ◌==◌, if◌then◌else◌, Result, ok, err, bind_ok, map_err, Option, none,
  some, List, [], ◌∷◌,
}
use apollo_rs.Dsky.Keys.{Key, digit, verb, enter, DskyError, from_code}

pub data V37State : Type 0 where
  await_verb verb_tens program_tens : V37State
  verb_ones verb_enter program_ones program_enter complete : ℕ → V37State

pub data PinballError : Type 0 where
  dsky : DskyError → PinballError
  invalid_digit not_program_change : ℕ → PinballError
  unexpected : V37State → Key → PinballError

pub record V37ProgramChange : Type 0 where
  pub state : V37State
  pub accepted_keys : ℕ
  pub verb_register : Option ℕ
  pub program_register : Option ℕ

-- `V37ProgramChange::default`.
abbrev pub initial : V37ProgramChange
initial = record {
  state = await_verb;
  accepted_keys = 0;
  verb_register = none;
  program_register = none;
}

unfoldable pub decimal_pair : ℕ → ℕ → Result PinballError ℕ
decimal_pair tens ones =
    if leb tens 9 && leb ones 9
    then ok (tens * 10 + ones)
    else err (invalid_digit (if leb ones tens then tens else ones))

-- `self` with the new state, and the key counted. A refused key leaves `self` as it was.
abbrev pub next : V37ProgramChange → V37State → Result PinballError V37ProgramChange
next s state = ok (record s { state = state; accepted_keys = s.accepted_keys + 1 })

-- The `match` of `accept`.
unfoldable pub accept_in : V37State → Key → V37ProgramChange → Result PinballError V37ProgramChange
unfolding decimal_pair
accept_in await_verb verb s = next s verb_tens
accept_in verb_tens (digit tens) s = next s (verb_ones tens)
accept_in (verb_ones tens) (digit ones) s =
    bind_ok (decimal_pair tens ones) λ pair. next s (verb_enter pair)
accept_in (verb_enter v) enter s =
    if v == 37
    then next (record s { verb_register = some 37 }) program_tens
    else err (not_program_change v)
accept_in program_tens (digit tens) s = next s (program_ones tens)
accept_in (program_ones tens) (digit ones) s =
    bind_ok (decimal_pair tens ones) λ pair. next s (program_enter pair)
accept_in (program_enter p) enter s = next (record s { program_register = some p }) (complete p)
accept_in state key s = err (unexpected state key)

unfoldable pub accept : V37ProgramChange → Key → Result PinballError V37ProgramChange
unfolding accept_in
accept s key = accept_in s.state key s

unfoldable pub accept_code : V37ProgramChange → ℕ → Result PinballError V37ProgramChange
unfolding accept
accept_code s c = bind_ok (map_err dsky (from_code c)) λ key. accept s key

-- A sequence of keys, until one is refused.
unfoldable pub accept_all : V37ProgramChange → List Key → Result PinballError V37ProgramChange
accept_all s [] = ok s
accept_all s (k ∷ ks) = bind_ok (accept s k) λ t. accept_all t ks
