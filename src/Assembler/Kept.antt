-- ===== src/Assembler/Kept.antt =====
-- crates/agc-assembler/src/lib.rs, the second pass: the words that are placed stay.
use apollo_rs.Prelude.{
  ℕ, ◌+◌, ◌≤◌, ◌≡◌, refl, arith, true, false, List, [], ◌∷◌, Option, some, All, ◌∙◌,
}
use apollo_rs.Word.{IsWord}
use apollo_rs.Text.{codes}
use apollo_rs.Assembler.Records.{IrRecord}
use apollo_rs.Assembler.Diagnostics.{count_errors}
use apollo_rs.Assembler.Words.{count_errors-push_error}
use apollo_rs.Assembler.Values.{SameValues}
use apollo_rs.Assembler.Fill.{PassTwo, place_word, place_words, first_placed}

-- The rope of a state is that of an earlier one with words at free places, and no error is lost.
pub record Extends (s t : PassTwo) : Type 0 where
  pub keeps : (p : ℕ) → s.occupied p ≡ true → (t.occupied p ≡ true) × (t.words p ≡ s.words p)
  pub grows : count_errors s.diagnostics ≤ count_errors t.diagnostics
  pub values : SameValues s.symbols t.symbols

pub Extends-trans : (s t u : PassTwo) → Extends s t → Extends t u → Extends s u
Extends-trans s t u h k = record {
  keeps = λ p o. let a = h.keeps p o in let b = k.keeps p a.0 in (b.0, b.1 ∙ a.1);
  grows = omega (arith, h.grows, k.grows);
  values = λ n. k.values n ∙ h.values n;
}

-- The words of a rope are words, and zero at free places.
pub record IsRope (s : PassTwo) : Type 0 where
  pub are_words : (p : ℕ) → IsWord (s.words p)
  pub free : (p : ℕ) → s.occupied p ≡ false → s.words p ≡ 0

module _ (r : IrRecord) (physical word : ℕ) (s : PassTwo) where
  pub place_word-Extends : Extends s (place_word r physical word s)
  unfolding place_word
  place_word-Extends = record {
    keeps = λ p o. (ground arith, ground arith);
    grows = ground (
      arith,
      count_errors-push_error s.diagnostics (codes "AGCA004") r,
      count_errors-push_error s.diagnostics (codes "AGCA005") r,
    );
    values = λ n. ground arith;
  }

  place_word-IsRope : IsWord word → IsRope s → IsRope (place_word r physical word s)
  unfolding place_word
  place_word-IsRope w h = record {
    are_words = λ p. ground (arith, h.are_words p);
    free = λ p o. ground (arith, h.free p);
  }

  -- A word is placed if its place is free, and otherwise there is an error.
  pub place_word-placed :
      (count_errors (place_word r physical word s).diagnostics ≡ count_errors s.diagnostics)
      → ((place_word r physical word s).occupied physical ≡ true)
        × ((place_word r physical word s).words physical ≡ word)
        × ((old : Option ℕ) → first_placed physical (word ∷ []) s old ≡ some word)
  unfolding place_word first_placed
  place_word-placed h =
      let four = count_errors-push_error s.diagnostics (codes "AGCA004") r in
      let five = count_errors-push_error s.diagnostics (codes "AGCA005") r in
      (ground (arith, four, five), ground (arith, four, five), λ old. ground (arith, four, five))

pub place_words-Extends :
    (r : IrRecord) (ws : List ℕ) (physical : ℕ) (s : PassTwo)
    → Extends s (place_words r physical ws s)
unfolding place_words
place_words-Extends r [] physical s = record {
  keeps = λ p o. (o, refl);
  grows = omega arith;
  values = λ n. refl;
}
place_words-Extends r (w ∷ ws) physical s =
    let t = place_word r physical w s in
    Extends-trans s t _ (place_word-Extends r physical w s)
      (place_words-Extends r ws (physical + 1) t)

pub place_words-IsRope :
    (r : IrRecord) (ws : List ℕ) (physical : ℕ) (s : PassTwo)
    → All IsWord ws
    → IsRope s
    → IsRope (place_words r physical ws s)
unfolding place_words
place_words-IsRope r [] physical s h k = k
place_words-IsRope r (w ∷ ws) physical s h k =
    place_words-IsRope r ws (physical + 1) (place_word r physical w s) h.1
      (place_word-IsRope r physical w s h.0 k)
