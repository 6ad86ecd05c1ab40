-- ===== src/Tests/Campaigns.antt =====
-- Campaigns of faults around a machine after power-up.
use apollo_rs.Prelude.{some, ◌≡◌, refl, arith, [], ◌∷◌}
use apollo_rs.Memory.Store.{blank}
use apollo_rs.Memory.Total.{blank-IsValid}
use apollo_rs.Cpu.Step.{new}
use apollo_rs.Cpu.Safe.Run.{new-IsWell}
use apollo_rs.Runtime.Events.{Runtime, dsky_key, idle_hardware}
use apollo_rs.Runtime.Machine as Machine
use apollo_rs.Runtime.Safe.{IsReady}
use apollo_rs.Faults.Effects.{FaultEngine, erasable_bit_flip, register_fault, stuck_channel}
use apollo_rs.Faults.Engine.{step, apply_due}
use apollo_rs.Faults.Keeps.{IsArmed}
use apollo_rs.Faults.Safe.{CampaignEnds, step-CampaignEnds}
use apollo_rs.Faults.Stuck.{Forces, in_campaign, step-Forces}
use apollo_rs.Runtime.Events.{with_memory}
use apollo_rs.Memory.Store.{Memory}
use apollo_rs.Faults.Effects.{apply, take_effect}
use apollo_rs.Faults.Audit.{Recorded, apply_due-Recorded}

-- A machine with a key waiting.
abbrev powered : Runtime
powered = record {
  cpu = new blank;
  events = record { cycle = 0; sequence = 0; event = dsky_key 0o21 } ∷ [];
  next_event_sequence = 1;
  hardware = idle_hardware;
  observer = record { executive_slots = []; waitlist_slots = [] };
}

powered-IsReady : IsReady powered
powered-IsReady = record { cpu_IsWell = new-IsWell blank blank-IsValid; queue = (tt, tt) }

-- Two faults that are due at once, one that is due later, and a channel that is stuck.
abbrev campaign : FaultEngine
campaign = record {
  scheduled =
      record { instruction = 0; sequence = 0; fault = erasable_bit_flip 0o100 4 }
      ∷ (record { instruction = 0; sequence = 1; fault = register_fault 0 1 }
          ∷ (record { instruction = 5; sequence = 2; fault = stuck_channel 0o30 0 3 } ∷ []));
  active_channels = record { channel = 0o31; value = 0o77; remaining = 2 } ∷ [];
  next_sequence = 3;
  applied = [];
}

campaign-IsArmed : IsArmed campaign
campaign-IsArmed = record {
  faults = (tt, (omega arith, (omega arith, tt)));
  stuck = (omega arith, tt);
}

step-CampaignEnds_example : CampaignEnds (step campaign powered)
step-CampaignEnds_example = step-CampaignEnds campaign powered campaign-IsArmed powered-IsReady

apply_due-Recorded_example : Recorded 0 campaign.scheduled campaign (apply_due campaign powered)
unfolding new
apply_due-Recorded_example = apply_due-Recorded campaign powered

-- A channel is stuck for two boundaries more, and a fault makes another stuck now.
abbrev sticking : FaultEngine
sticking = record {
  scheduled = record { instruction = 0; sequence = 0; fault = stuck_channel 0o30 5 3 } ∷ [];
  active_channels = record { channel = 0o31; value = 0o77; remaining = 2 } ∷ [];
  next_sequence = 1;
  applied = [];
}

-- After the fault.
abbrev stuck : FaultEngine
stuck = record {
  scheduled = [];
  active_channels =
      record { channel = 0o31; value = 0o77; remaining = 2 }
      ∷ (record { channel = 0o30; value = 5; remaining = 3 } ∷ []);
  next_sequence = 1;
  applied =
      record { instruction = 0; cycle = 0; fault = stuck_channel 0o30 5 3; resulting_word = some 5 }
      ∷ [];
}

step-Forces_example :
    (m : Memory) × Forces stuck.active_channels powered.cpu.memory m
    × (step sticking powered ≡ in_campaign stuck (Machine.step (with_memory powered m)))
unfolding new apply_due apply take_effect
step-Forces_example =
    step-Forces sticking stuck powered powered refl
      ((omega arith, omega arith), ((omega arith, omega arith), tt))
