-- ===== src/Cpu/Safe/Io.antt =====
-- The channels: each access of `agc-cpu` is safe where its address is in range.
use apollo_rs.Prelude.{
  if◌then◌else◌, ℕ, ◌≤◌, ◌≡◌, refl, arith, Bool, true, false, if_cases, ltb, ◌==◌,
}
use apollo_rs.Word.{IsWord}
use apollo_rs.Memory.Store
use apollo_rs.Memory.Store.{
  Memory, MemoryError, MemoryAccess, read_access, write_access, central_register,
  set_central_register, write_central_raw,
}
use apollo_rs.Memory.Invariant.{IsValid}
use apollo_rs.Memory.Keeps.{write_channel-IsValid, read_special-IsWord}
use apollo_rs.Cpu.State.{Machine, Cpu, pure, ◌>>◌, modify, push_io, set_memory}
use apollo_rs.Cpu.Access
use apollo_rs.Cpu.Clock.Timers.{View, Calm, kept}
use apollo_rs.Cpu.Safe.{Safe, Safe-bind, Safe-get, Safe-pure, Safe-modify, Anything}
use apollo_rs.Cpu.Safe.Operands.{set_memory-Safe}

channel-IsWord : (m : Memory) (k : ℕ) → IsValid m → IsWord (Store.read_channel m k)
unfolding Store.read_channel
channel-IsWord m k v =
    if_cases IsWord (k == 1) _ _ (λ _. read_special-IsWord m 1)
      λ _. if_cases IsWord (k == 2) _ _ (λ _. read_special-IsWord m 2) λ _. v.channels_IsWord k

channel_value-IsWord : (c : Cpu) (k w : ℕ) → IsWord w → IsWord (Access.channel_value c k w)
unfolding Access.channel_value
channel_value-IsWord c k w h = ground arith

module _ (v : View) (n : ℕ) where
  channel_address-Safe : (k : ℕ) → k ≤ 0o777 → Safe v n Anything (Access.channel_address k)
  unfolding Access.channel_address
  channel_address-Safe k h =
      let inside : ltb 0o777 k ≡ false = ground (arith, h) in
      rw inside (Safe-pure v n Anything k tt)

  pub read_channel-Safe : (k : ℕ) → k ≤ 0o777 → Safe v n IsWord (Access.read_channel k)
  unfolding Access.read_channel
  read_channel-Safe k h = Safe-bind v n Anything IsWord _ _ (channel_address-Safe k h) λ a _.
      Safe-get v n IsWord
        (λ c. do
          let value = Store.read_channel c.memory a
          push_io (record { write = false; channel = k; value = value })
          pure value)
        λ s c.
          Safe-bind v n Anything IsWord (push_io _) _
            (record { runs = λ t d. (tt, kept v n t _ refl refl refl d) })
            λ _ _. Safe-pure v n IsWord _ (channel-IsWord s.cpu.memory a c.memory_IsValid)

  note_downlink-Safe : (k : ℕ) → Safe v n Anything (modify (Access.note_downlink k))
  unfolding Access.note_downlink
  note_downlink-Safe k = Safe-modify v n _ λ s c. by_words s c _ _
    where
      by_words :
          (s : Machine)
          → Calm v n s
          → (b : Bool) (words : ℕ)
          → Calm v n (record s {
            cpu =
                if b
                then record s.cpu { downlink_words = 0; schedule_downrupt = true }
                else record s.cpu { downlink_words = words };
          })
      by_words s c true words = kept v n s _ refl refl refl c
      by_words s c false words = kept v n s _ refl refl refl c

  pub write_channel-Safe :
      (k w : ℕ) → k ≤ 0o777 → IsWord w → Safe v n Anything (Access.write_channel k w)
  unfolding Access.write_channel Access.note_downlink Access.arm_traps
  write_channel-Safe k w h word =
      Safe-bind v n Anything Anything _ _ (channel_address-Safe k h) λ a _.
        Safe-bind v n Anything Anything (modify λ c. if k == 0o13 then Access.arm_traps w c else c)
          _
          (Safe-modify v n _ λ s c.
            if_cases (λ d. Calm v n (record s { cpu = d })) (k == 0o13) _ _
              (λ _. kept v n s _ refl refl refl c) λ _. c)
          λ _ _.
            Safe-get v n Anything
              (λ c. do
                let kept = Access.channel_value c k w
                set_memory (Store.write_channel c.memory a kept)
                push_io (record { write = true; channel = k; value = kept })
                modify (Access.note_downlink k))
              λ s c.
                Safe-bind v n Anything Anything (set_memory _)
                  (λ _. do
                    push_io (record {
                      write = true;
                      channel = k;
                      value = Access.channel_value s.cpu k w;
                    })
                    modify (Access.note_downlink k))
                  (set_memory-Safe v n _ (
                    write_channel-IsValid s.cpu.memory a _ c.memory_IsValid
                      (channel_value-IsWord s.cpu k w word)))
                  λ _ _.
                    Safe-bind v n Anything Anything (push_io _) _
                      (record { runs = λ t d. (tt, kept v n t _ refl refl refl d) })
                      λ _ _. note_downlink-Safe k
