-- ===== src/Dsky/Display.antt =====
-- crates/agc-dsky/src/lib.rs, `DskyState`: what channel writes show on the display.
use apollo_rs.Prelude.{
  ℕ, ◌+◌, ◌-◌, ◌*◌, ◌/◌, ◌%◌, Bool, false, ◌&&◌, ltb, leb, ◌==◌, if◌then◌else◌, Option, none, some,
  List, [], ◌∷◌,
}
use apollo_rs.Bits.{shr, low_bits, bit_is_set}
use apollo_rs.Trace.{TraceEvent, IoEvent}

pub record Sign : Type 0 where
  pub plus : Bool
  pub minus : Bool

pub record Lamps : Type 0 where
  pub uplink_activity : Bool
  pub no_attitude : Bool
  pub standby : Bool
  pub key_release : Bool
  pub operator_error : Bool
  pub restart : Bool
  pub tracker : Bool
  pub altitude : Bool
  pub velocity : Bool
  pub computer_activity : Bool
  pub temperature : Bool
  pub gimbal_lock : Bool
  pub program_alarm : Bool

-- A pair of digits is the pair of what its places show, and the registers and signs are functions of
-- their index, of which the code uses those below 3, and below 5 for a digit.
pub record DskyState : Type 0 where
  pub program : Option ℕ × Option ℕ
  pub verb : Option ℕ × Option ℕ
  pub noun : Option ℕ × Option ℕ
  pub registers : ℕ → ℕ → Option ℕ
  pub signs : ℕ → Sign
  pub lamps : Lamps
  pub flash : Bool
  pub last_relay_word : ℕ
  pub last_lamp_word : ℕ

abbrev pub lamps_off : Lamps
lamps_off = record {
  uplink_activity = false;
  no_attitude = false;
  standby = false;
  key_release = false;
  operator_error = false;
  restart = false;
  tracker = false;
  altitude = false;
  velocity = false;
  computer_activity = false;
  temperature = false;
  gimbal_lock = false;
  program_alarm = false;
}

-- `DskyState::default`.
abbrev pub blank_display : DskyState
blank_display = record {
  program = (none, none);
  verb = (none, none);
  noun = (none, none);
  registers = λ _ _. none;
  signs = λ _. record { plus = false; minus = false };
  lamps = lamps_off;
  flash = false;
  last_relay_word = 0;
  last_lamp_word = 0;
}

unfoldable pub decode_digit : ℕ → Option ℕ
decode_digit c =
    if c == 0o25
    then some 0
    else if c == 0o03
    then some 1
    else if c == 0o31
    then some 2
    else if c == 0o33
    then some 3
    else if c == 0o17
    then some 4
    else if c == 0o36
    then some 5
    else if c == 0o34
    then some 6
    else if c == 0o23
    then some 7
    else if c == 0o35
    then some 8
    else if c == 0o37
    then some 9
    else none

unfoldable pub set_linear_digit : DskyState → ℕ → Option ℕ → DskyState
set_linear_digit d index shown =
    if ltb index 15
    then record d {
      registers = λ r c. if r == index / 5 && c == index % 5 then shown else d.registers r c;
    }
    else d

-- `self.signs[index] = sign`.
abbrev pub set_sign : DskyState → ℕ → Sign → DskyState
set_sign d index sign = record d { signs = λ i. if i == index then sign else d.signs i }

-- The lamps of relay word 12.
abbrev pub relay_lamps : ℕ → Lamps → Lamps
relay_lamps raw l = record l {
  velocity = bit_is_set raw 2;
  no_attitude = bit_is_set raw 3;
  altitude = bit_is_set raw 4;
  gimbal_lock = bit_is_set raw 5;
  tracker = bit_is_set raw 6;
  program_alarm = bit_is_set raw 7;
}

unfoldable pub write_relay : DskyState → ℕ → DskyState
unfolding decode_digit set_linear_digit
write_relay s raw =
    let d = record s { last_relay_word = raw } in
    let relay = low_bits (shr raw 11) 4 in
    let upper = decode_digit (low_bits (shr raw 5) 5) in
    let lower = decode_digit (low_bits raw 5) in
    let sign = bit_is_set raw 10 in
    if leb 1 relay && leb relay 7
    then (let linear = 14 - relay * 2 in
        set_linear_digit (set_linear_digit d (linear + 1) upper) (linear + 2) lower)
    else if relay == 8
    then (let e = set_linear_digit d 0 lower in
        set_sign e 0 (record { plus = (e.signs 0).plus; minus = sign }))
    else if relay == 9
    then record d { noun = (upper, lower) }
    else if relay == 10
    then record d { verb = (upper, lower) }
    else if relay == 11
    then record d { program = (upper, lower) }
    else if relay == 12
    then record d { lamps = relay_lamps raw d.lamps }
    else d

unfoldable pub iss_warning : Lamps → ℕ → Lamps
iss_warning l raw = record l { standby = bit_is_set raw 8; restart = bit_is_set raw 9 }

unfoldable pub write_lamps : DskyState → ℕ → DskyState
unfolding iss_warning
write_lamps s raw =
    let d = record s { last_lamp_word = raw; lamps = iss_warning s.lamps raw } in
    set_sign
      (set_sign (set_sign d 0 (record { plus = bit_is_set raw 2; minus = bit_is_set raw 3 })) 1
        (record { plus = bit_is_set raw 4; minus = bit_is_set raw 5 }))
      2 (record { plus = bit_is_set raw 6; minus = bit_is_set raw 7 })

unfoldable pub write_extended_lamps : DskyState → ℕ → DskyState
write_extended_lamps s raw = record s {
  lamps = record s.lamps {
    computer_activity = bit_is_set raw 0;
    uplink_activity = bit_is_set raw 1;
    temperature = bit_is_set raw 2;
    key_release = bit_is_set raw 3;
    operator_error = bit_is_set raw 4;
  };
}

unfoldable pub write_channel : DskyState → ℕ → ℕ → DskyState
unfolding write_relay write_lamps write_extended_lamps
write_channel s channel raw =
    if channel == 0o10
    then write_relay s raw
    else if channel == 0o11
    then write_lamps s raw
    else if channel == 0o13
    then record s { flash = bit_is_set raw 9 }
    else if channel == 0o163
    then write_extended_lamps s raw
    else s

-- The loop of `consume_trace`.
unfoldable pub consume_io : DskyState → List IoEvent → DskyState
unfolding write_channel
consume_io s [] = s
consume_io s (io ∷ ios) =
    let t = if io.write then write_channel s io.channel io.value else s in consume_io t ios

unfoldable pub consume_trace : DskyState → TraceEvent → DskyState
unfolding consume_io
consume_trace s event = consume_io s event.io
