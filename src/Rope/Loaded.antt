-- ===== src/Rope/Loaded.antt =====
-- crates/agc-loader/src/lib.rs, `RopeImage::into_memory`: from a list of words through a file to the
-- fixed memory.
use apollo_rs.Prelude.{
  ℕ, zero, suc, ◌+◌, ◌*◌, ◌<◌, ◌≡◌, refl, arith, List, ok, length, get_or, ◌∙◌, ap,
}
use apollo_rs.Word.{IsWord}
use apollo_rs.Memory.Store.{Memory, fixed, read_physical, blank}
use apollo_rs.Memory.Physical.{read_physical-load_rope}
use apollo_rs.Rope.Bytes.{encode_yayul}
use apollo_rs.Rope.Image.{RopeImage, yayul, decode_bytes, into_memory, tabulate}
use apollo_rs.Rope.RoundTrip.{decode_bytes-encode_yayul}

length-tabulate : (f : ℕ → ℕ) (n i : ℕ) → length (tabulate f i n) ≡ n
unfolding tabulate
length-tabulate f zero i = refl
length-tabulate f (suc n) i = omega (arith, length-tabulate f n (i + 1))

get_or-tabulate : (f : ℕ → ℕ) (n i j : ℕ) → j < n → get_or (tabulate f i n) j 0 ≡ f (i + j)
unfolding tabulate
get_or-tabulate f zero i j h = absurd (omega arith)
get_or-tabulate f (suc n) i zero h = let e : i + 0 ≡ i = omega arith in rw e refl
get_or-tabulate f (suc n) i (suc j) h =
    let e : i + 1 + j ≡ i + suc j = omega arith in
    rw e at (get_or-tabulate f n (i + 1) j (omega arith))

get_or-tabulate_zero : (f : ℕ → ℕ) (n j : ℕ) → j < n → get_or (tabulate f 0 n) j 0 ≡ f j
get_or-tabulate_zero f n j h = let e : 0 + j ≡ j = omega arith in get_or-tabulate f n 0 j h ∙ ap f e

-- An image is installed in fixed memory, the word of an index at 1024 times its bank and its offset.
pub read_physical-into_memory :
    (image : RopeImage) (bank offset : ℕ)
    → bank < 36
    → offset < 1024
    → (m : Memory) × (into_memory image ≡ ok m)
      × (read_physical m (fixed bank offset) ≡ ok (image.words (bank * 1024 + offset)))
unfolding into_memory
read_physical-into_memory image bank offset hb ho =
    let words = tabulate image.words 0 36864 in
    let (m, loads, reads) =
      read_physical-load_rope blank words bank offset (length-tabulate image.words 36864 0) hb ho in
    (
      m,
      loads,
      reads ∙ ap ok (get_or-tabulate_zero image.words 36864 (bank * 1024 + offset) (omega arith)),
    )

-- A rope of 36864 words is encoded, decoded and installed without an error, and every fixed word of
-- the memory is then the word of the rope at 1024 times its bank and its offset.
pub into_memory-encode_yayul :
    (words : List ℕ) (bank offset : ℕ)
    → ((i : ℕ) → IsWord (get_or words i 0))
    → length words ≡ 36864
    → bank < 36
    → offset < 1024
    → (bytes : List ℕ) × (image : RopeImage) × (m : Memory) × (encode_yayul words ≡ ok bytes)
      × (decode_bytes bytes yayul ≡ ok image)
      × (into_memory image ≡ ok m)
      × (read_physical m (fixed bank offset) ≡ ok (get_or words (bank * 1024 + offset) 0))
into_memory-encode_yayul words bank offset fits n hb ho =
    let (bytes, image, encodes, decodes, holds, _) = decode_bytes-encode_yayul words fits n in
    let (m, installs, reads) = read_physical-into_memory image bank offset hb ho in
    (
      bytes,
      image,
      m,
      encodes,
      decodes,
      installs,
      reads ∙ ap ok (holds (bank * 1024 + offset) (omega arith)),
    )
