-- ===== src/Memory/Central.antt =====
-- crates/agc-memory/src/lib.rs, `register`: the addresses of the central registers.
use apollo_rs.Prelude.{ℕ}

abbrev pub a : ℕ
a = 0o0

abbrev pub l : ℕ
l = 0o1

abbrev pub q : ℕ
q = 0o2

abbrev pub eb : ℕ
eb = 0o3

abbrev pub fb : ℕ
fb = 0o4

abbrev pub z : ℕ
z = 0o5

abbrev pub bb : ℕ
bb = 0o6

abbrev pub zero : ℕ
zero = 0o7

abbrev pub zrupt : ℕ
zrupt = 0o15

abbrev pub brupt : ℕ
brupt = 0o17
