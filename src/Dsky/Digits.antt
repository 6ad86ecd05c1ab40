-- ===== src/Dsky/Digits.antt =====
-- crates/agc-dsky/src/lib.rs, `write_relay`: which relay word shows which digit.
use apollo_rs.Prelude.{
  ℕ, ◌+◌, ◌-◌, ◌*◌, ◌/◌, ◌%◌, ◌<◌, ◌≡◌, refl, arith, true, false, ◌&&◌, leb, ◌==◌, if◌then◌else◌,
  if_cases, Option,
}
use apollo_rs.Bits.{shr, low_bits}
use apollo_rs.Dsky.Display.{DskyState, decode_digit, set_linear_digit, write_relay}

-- The place of a digit, from the first of register 1 to the last of register 3.
abbrev pub place_of : ℕ → ℕ → ℕ
place_of r c = r * 5 + c

set_linear_digit-registers :
    (d : DskyState) (index r c : ℕ) (shown : Option ℕ)
    → r < 3
    → c < 5
    → (set_linear_digit d index shown).registers r c
      ≡ (if index == place_of r c then shown else d.registers r c)
unfolding set_linear_digit
set_linear_digit-registers d index r c shown h k = ground arith

module _ (s : DskyState) (raw r c : ℕ) (h : r < 3) (k : c < 5) where
  abbrev relay : ℕ
  relay = low_bits (shr raw 11) 4

  abbrev upper : Option ℕ
  upper = decode_digit (low_bits (shr raw 5) 5)

  abbrev lower : Option ℕ
  lower = decode_digit (low_bits raw 5)

  -- The relay word shows, or leaves, the digit in the given state.
  abbrev Shows : DskyState → Type 0
  Shows d = d.registers r c ≡ (
      if relay == (16 - place_of r c) / 2
      then decode_digit (if place_of r c % 2 == 1 then low_bits (shr raw 5) 5 else low_bits raw 5)
      else s.registers r c)

  by_pair :
      (d : DskyState)
      → d.registers r c ≡ s.registers r c
      → (leb 1 relay && leb relay 7) ≡ true
      → Shows (
          set_linear_digit
            (set_linear_digit d (14 - relay * 2 + 1) upper)
            (14 - relay * 2 + 2)
            lower)
  by_pair d e b =
      let outer =
        set_linear_digit-registers (set_linear_digit d (14 - relay * 2 + 1) upper)
          (14 - relay * 2 + 2) r c lower h k in
      let inner = set_linear_digit-registers d (14 - relay * 2 + 1) r c upper h k in
      rw (outer, inner, e) (ground (arith, b, h, k))

  first_digit :
      (d : DskyState)
      → d.registers r c ≡ s.registers r c
      → (relay == 8) ≡ true
      → Shows (set_linear_digit d 0 lower)
  first_digit d e b = rw (set_linear_digit-registers d 0 r c lower h k, e) (ground (arith, b, h, k))

  others :
      (d : DskyState)
      → d.registers r c ≡ s.registers r c
      → (leb 1 relay && leb relay 7) ≡ false
      → (relay == 8) ≡ false
      → Shows d
  others d e b g =
      let elsewhere : (relay == (16 - place_of r c) / 2) ≡ false = ground (arith, b, g) in
      rw (elsewhere, e) refl

  write_relay-Shows : Shows (write_relay s raw)
  unfolding write_relay
  write_relay-Shows =
      let d = record s { last_relay_word = raw } in
      if_cases Shows (leb 1 relay && leb relay 7) _ _ (λ b. by_pair d refl b)
        λ b.
          if_cases Shows (relay == 8) _ _ (λ g. first_digit d refl g)
            λ g.
              if_cases Shows (relay == 9) _ _ (λ _. others d refl b g)
                λ _.
                  if_cases Shows (relay == 10) _ _ (λ _. others d refl b g)
                    λ _.
                      if_cases Shows (relay == 11) _ _ (λ _. others d refl b g)
                        λ _.
                          if_cases Shows (relay == 12) _ _ (λ _. others d refl b g)
                            λ _. others d refl b g

-- After a relay word, a digit of a register shows a field of the word if the word's relay number is
-- that of the digit's place, and what it showed before if not. The places 1 to 14 go in pairs, from
-- relay 7 down to relay 1, the odd place by the upper field and the even one by the lower, and place
-- 0 goes by the lower field of relay 8.
pub write_relay-registers :
    (s : DskyState) (raw r c : ℕ)
    → r < 3
    → c < 5
    → (write_relay s raw).registers r c ≡ (
        if low_bits (shr raw 11) 4 == (16 - place_of r c) / 2
        then decode_digit (if place_of r c % 2 == 1 then low_bits (shr raw 5) 5 else low_bits raw 5)
        else s.registers r c)
write_relay-registers s raw r c h k = write_relay-Shows s raw r c h k
