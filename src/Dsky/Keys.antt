-- ===== src/Dsky/Keys.antt =====
-- crates/agc-dsky/src/lib.rs, `Key`: the keys and their five-bit codes on channel 015.
use apollo_rs.Prelude.{
  ℕ, ◌≤◌, ◌≡◌, refl, arith, leb, ◌==◌, ◌&&◌, if◌then◌else◌, Result, ok, err, IfOk,
}

pub data Key : Type 0 where
  digit : ℕ → Key
  verb noun plus minus enter clear key_release reset proceed : Key

pub data DskyError : Type 0 where
  bad_digit bad_code : ℕ → DskyError

unfoldable pub code : Key → Result DskyError ℕ
code (digit d) = if d == 0 then ok 0o20 else if leb d 9 then ok d else err (bad_digit d)
code verb = ok 0o21
code reset = ok 0o22
code key_release = ok 0o31
code plus = ok 0o32
code minus = ok 0o33
code enter = ok 0o34
code clear = ok 0o36
code noun = ok 0o37
code proceed = ok 0o20

unfoldable pub from_code : ℕ → Result DskyError Key
from_code c =
    if c == 0o20
    then ok (digit 0)
    else if leb 1 c && leb c 9
    then ok (digit c)
    else if c == 0o21
    then ok verb
    else if c == 0o22
    then ok reset
    else if c == 0o31
    then ok key_release
    else if c == 0o32
    then ok plus
    else if c == 0o33
    then ok minus
    else if c == 0o34
    then ok enter
    else if c == 0o36
    then ok clear
    else if c == 0o37
    then ok noun
    else err (bad_code c)

-- The key that a code stands for on the channel: PRO shares the code of the zero.
abbrev pub on_channel : Key → Key
on_channel proceed = digit 0
on_channel k = k

-- The code of a key, where it has one, has five bits, and is decoded to the key, but for PRO, whose
-- code is decoded to the digit zero.
pub from_code-code : (k : Key) → IfOk (λ c. (c ≤ 0o37) × (from_code c ≡ ok (on_channel k))) (code k)
unfolding code from_code
from_code-code (digit d) = ground arith
from_code-code verb = (omega arith, refl)
from_code-code noun = (omega arith, refl)
from_code-code plus = (omega arith, refl)
from_code-code minus = (omega arith, refl)
from_code-code enter = (omega arith, refl)
from_code-code clear = (omega arith, refl)
from_code-code key_release = (omega arith, refl)
from_code-code reset = (omega arith, refl)
from_code-code proceed = (omega arith, refl)

-- A code that is decoded is the code of the decoded key.
pub code-from_code : (c : ℕ) → IfOk (λ k. code k ≡ ok c) (from_code c)
unfolding code from_code
code-from_code c = ground arith
