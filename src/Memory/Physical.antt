-- ===== src/Memory/Physical.antt =====
-- crates/agc-memory/src/lib.rs: the operations on physical memory, for loading and inspection,
-- against each other and against reads through the windows.
use apollo_rs.Prelude.{ℕ, ◌+◌, ◌*◌, ◌<◌, ◌≡◌, arith}
use apollo_rs.Prelude.{List, some, ok, length, get_or, update, ◌==◌, ◌&&◌, if◌then◌else◌}
use apollo_rs.Memory.Store.{Memory, fixed, read_special, read_physical}
use apollo_rs.Memory.Store.{load_rope, read_erasable_physical, write_erasable_physical}
use apollo_rs.Memory.ReadWrite.{IsPlain}

-- A word written to a physical erasable word that is no special register is what a physical read of
-- it then returns, and a physical read anywhere else returns what it returned before.
pub read_erasable_physical-write_erasable_physical :
    (m : Memory) (bank offset w b o : ℕ)
    → bank < 8
    → offset < 256
    → IsPlain bank offset
    → (m' : Memory) × (write_erasable_physical m bank offset w ≡ ok m')
      × (read_erasable_physical m' b o
          ≡ (if bank == b && offset == o then some w else read_erasable_physical m b o))
unfolding read_erasable_physical write_erasable_physical read_special
read_erasable_physical-write_erasable_physical m bank offset w b o lo hi plain =
    let i = bank * 256 + offset in
    (
      record m { erasable_words = update m.erasable_words i w },
      rw plain (ground arith),
      ground arith,
    )

-- A rope of the right length is loaded, and each fixed word that exists is then the word of the rope
-- at 1024 times its bank and its offset.
pub read_physical-load_rope :
    (m : Memory) (words : List ℕ) (bank offset : ℕ)
    → length words ≡ 36864
    → bank < 36
    → offset < 1024
    → (m' : Memory) × (load_rope m words ≡ ok m')
      × (read_physical m' (fixed bank offset) ≡ ok (get_or words (bank * 1024 + offset) 0))
unfolding load_rope read_physical
read_physical-load_rope m words bank offset n b o =
    (record m { fixed_words = λ i. get_or words i 0 }, ground arith, ground arith)
