-- ===== src/Assembler/Assembled.antt =====
-- crates/agc-assembler/src/lib.rs, `assemble` and `to_yayul_bytes`: an image and its way into memory.
use apollo_rs.Prelude.{
  ℕ, ◌+◌, ◌*◌, ◌<◌, ◌≡◌, refl, arith, false, List, Result, ok, err, ◌==◌, All, ◌∙◌, ap, Bool-cases,
  inl, inr, ==_iff,
}
use apollo_rs.Word.{IsWord}
use apollo_rs.Memory.Store.{Memory, fixed, read_physical}
use apollo_rs.Rope.Image.{RopeImage, yayul, decode_bytes, into_memory}
use apollo_rs.Rope.RoundTrip.{decode_bytes-bank_bytes}
use apollo_rs.Rope.Loaded.{read_physical-into_memory}
use apollo_rs.Assembler.Records.{IrRecord}
use apollo_rs.Assembler.Diagnostics.{count_errors}
use apollo_rs.Assembler.Assign.{pass_one}
use apollo_rs.Assembler.Fill.{PassTwo, pass_two}
use apollo_rs.Assembler.Kept.{IsRope}
use apollo_rs.Assembler.Placed.{Assembled, pass_two-EmitsTo}
use apollo_rs.Assembler.Image.{
  ExpandedProgram, ProgramImage, AssemblyError, pass_one_start, between, finish, assemble,
  to_yayul_bytes,
}

-- What a successful assembly makes.
pub record IsImage (image : ProgramImage) : Type 0 where
  pub assembled : All (Assembled image.words image.occupied image.symbols) image.records
  pub are_words : (p : ℕ) → IsWord (image.words p)
  pub free : (p : ℕ) → image.occupied p ≡ false → image.words p ≡ 0
  pub no_errors : count_errors image.diagnostics ≡ 0

abbrev OkImage : Result AssemblyError ProgramImage → Type 0
OkImage (ok image) = IsImage image
OkImage (err e) = Unit

finish-IsImage :
    (rs : List IrRecord) (s : PassTwo)
    → IsRope s
    → (count_errors s.diagnostics ≡ 0 → All (Assembled s.words s.occupied s.symbols) rs)
    → OkImage (finish rs s)
unfolding finish
finish-IsImage rs s h k = elim (Bool-cases (count_errors s.diagnostics == 0)) [
  | inl e ↦
      let none_left : count_errors s.diagnostics ≡ 0 =
        (==_iff (count_errors s.diagnostics) 0).0 e in
      rw e (record {
        assembled = k none_left;
        are_words = h.are_words;
        free = h.free;
        no_errors = none_left;
      })
  | inr e ↦ rw e tt
]

between-IsRope : (e : ExpandedProgram) → IsRope (between (pass_one e.records (pass_one_start e)).1)
unfolding between
between-IsRope e = record { are_words = λ p. omega arith; free = λ p _. refl }

assemble-OkImage : (e : ExpandedProgram) → OkImage (assemble e)
unfolding assemble
assemble-OkImage e =
    let assigned = (pass_one e.records (pass_one_start e)).0 in
    let s = between (pass_one e.records (pass_one_start e)).1 in
    let all = pass_two-EmitsTo assigned s in
    finish-IsImage (pass_two assigned s).0 (pass_two assigned s).1 (all.1 (between-IsRope e)) all.2

-- In the image of a successful assembly, every record that has a bank and an offset and whose
-- operation is a mnemonic notes a word that is at 1024 times the bank and the offset, in a place
-- marked as occupied, and that encodes the mnemonic in some context with the value that the operand
-- of the record has over the symbols of the image, or with zero where the mnemonic takes no
-- operand. Every place holds a word, a place that is not occupied holds zero, and no diagnostic is
-- an error.
pub assemble-IsImage :
    (e : ExpandedProgram) (image : ProgramImage) → assemble e ≡ ok image → IsImage image
assemble-IsImage e image h = rw h at (assemble-OkImage e)

-- The bytes of the image of a successful assembly are decoded and installed without an error, and
-- each fixed word of the memory is then the word of the image at 1024 times its bank and its
-- offset.
pub read_physical-assemble :
    (e : ExpandedProgram) (image : ProgramImage) (bank offset : ℕ)
    → assemble e ≡ ok image
    → bank < 36
    → offset < 1024
    → (rope : RopeImage) × (m : Memory) × (decode_bytes (to_yayul_bytes image) yayul ≡ ok rope)
      × (into_memory rope ≡ ok m)
      × (read_physical m (fixed bank offset) ≡ ok (image.words (bank * 1024 + offset)))
unfolding to_yayul_bytes
read_physical-assemble e image bank offset h hb ho =
    let (rope, reads, holds, _) =
      decode_bytes-bank_bytes image.words (assemble-IsImage e image h).are_words in
    let (m, installs, at_place) = read_physical-into_memory rope bank offset hb ho in
    (rope, m, reads, installs, at_place ∙ ap ok (holds (bank * 1024 + offset) (omega arith)))
