-- ===== src/Assembler/Placed.antt =====
-- crates/agc-assembler/src/lib.rs, the second pass: no word is overwritten, and every instruction
-- that has a place is there once the pass ends with no error.
use apollo_rs.Prelude.{
  ℕ, ◌+◌, ◌*◌, ◌≡◌, refl, arith, Bool, true, false, List, [], ◌∷◌, some, none, ok, All, ◌∙◌, sym,
  inl, inr, Option-cases,
}
use mathlib.Core.Path.{subst}
use apollo_rs.Text.{codes, is}
use apollo_rs.Isa.Mnemonics.{Mnemonic}
use apollo_rs.Isa.Encode.{encode_with_context}
use apollo_rs.Isa.Names.{parse}
use apollo_rs.Symbols.Table.{SymbolTable}
use apollo_rs.Assembler.Records.{IrRecord, Diagnostic, push_error}
use apollo_rs.Assembler.Diagnostics.{count_errors}
use apollo_rs.Assembler.Emission.{Emitted, emit_record}
use apollo_rs.Assembler.Words.{Emits, emit_record-Emits, count_errors-push_error}
use apollo_rs.Assembler.Instructions.{
  IsOperand, IsOperand-SameValues, Encoded, failed, encoded, emit_record-Encoded,
}
use apollo_rs.Assembler.Values.{SameValues, emit_record-SameValues}
use apollo_rs.Assembler.Fill.{PassTwo, place_words, first_placed, emit_at, emit, pass_two}
use apollo_rs.Assembler.Kept.{
  Extends, Extends-trans, IsRope, place_word-Extends, place_word-placed, place_words-Extends,
  place_words-IsRope,
}

-- An instruction with a place has its word there, which encodes it with the value of its operand.
pub record IsThere (words : ℕ → ℕ) (occupied : ℕ → Bool) (symbols : SymbolTable) (r : IrRecord)
    (bank offset : ℕ) (m : Mnemonic) : Type 0 where
  pub w : ℕ
  pub operand : ℕ
  pub context : Bool
  pub noted : r.word ≡ some w
  pub free_no_more : occupied (bank * 1024 + offset) ≡ true
  pub there : words (bank * 1024 + offset) ≡ w
  pub encodes : encode_with_context m operand context ≡ ok w
  pub means : IsOperand r symbols m operand

abbrev pub Assembled : (ℕ → ℕ) → (ℕ → Bool) → SymbolTable → IrRecord → Type 0
Assembled words occupied symbols r =
    (bank offset : ℕ) (m : Mnemonic)
    → r.bank ≡ some bank
    → r.offset ≡ some offset
    → parse r.operation ≡ some m
    → IsThere words occupied symbols r bank offset m

-- What holds of a record after its step from a state, if there is no error then.
abbrev EmitsTo : PassTwo → IrRecord × PassTwo → Type 0
EmitsTo s e =
    Extends s e.1
    × (IsRope s → IsRope e.1)
    × (count_errors e.1.diagnostics ≡ 0 → Assembled e.1.words e.1.occupied e.1.symbols e.0)

Assembled-Extends :
    (s t : PassTwo) (r : IrRecord)
    → Extends s t
    → Assembled s.words s.occupied s.symbols r
    → Assembled t.words t.occupied t.symbols r
Assembled-Extends s t r e a bank offset m hb ho hm =
    let i = a bank offset m hb ho hm in
    let k = e.keeps (bank * 1024 + offset) i.free_no_more in
    record {
      w = i.w;
      operand = i.operand;
      context = i.context;
      noted = i.noted;
      free_no_more = k.0;
      there = k.1 ∙ i.there;
      encodes = i.encodes;
      means = IsOperand-SameValues r s.symbols t.symbols m i.operand e.values i.means;
    }

IsThere-SameValues :
    {words : ℕ → ℕ} {occupied : ℕ → Bool} {bank offset : ℕ} {m : Mnemonic} (s t : SymbolTable)
    (r : IrRecord)
    → SameValues s t
    → IsThere words occupied s r bank offset m
    → IsThere words occupied t r bank offset m
IsThere-SameValues {m = m} s t r same i = record {
  w = i.w;
  operand = i.operand;
  context = i.context;
  noted = i.noted;
  free_no_more = i.free_no_more;
  there = i.there;
  encodes = i.encodes;
  means = IsOperand-SameValues r s t m i.operand same i.means;
}

-- The state after the words of a record are known and before they are placed.
abbrev emitted_state : IrRecord → PassTwo → Emitted × SymbolTable → PassTwo
emitted_state r s e = record s {
  symbols = e.1;
  diagnostics = e.0.1;
  previous_extend = is r.operation "EXTEND";
}

module _ (r : IrRecord) (bank offset : ℕ) (s : PassTwo) where
  abbrev emission : Emitted × SymbolTable
  emission = emit_record r s.symbols s.previous_extend s.diagnostics

  abbrev before_placing : PassTwo
  before_placing = emitted_state r s emission

  emits : Emits s.diagnostics emission.0
  emits = emit_record-Emits r s.symbols s.previous_extend s.diagnostics

  emit_at-Extends : Extends s (emit_at r bank offset s).1
  unfolding emit_at
  emit_at-Extends =
      Extends-trans s before_placing _
        (record {
          keeps = λ p o. (o, refl);
          grows = emits.grows;
          values = emit_record-SameValues r s.symbols s.diagnostics s.previous_extend;
        })
        (place_words-Extends r emission.0.0 (bank * 1024 + offset) before_placing)

  emit_at-IsRope : IsRope s → IsRope (emit_at r bank offset s).1
  unfolding emit_at
  emit_at-IsRope h =
      place_words-IsRope r emission.0.0 (bank * 1024 + offset) before_placing emits.are_words
        (record { are_words = h.are_words; free = h.free })

  abbrev place_of : ℕ
  place_of = bank * 1024 + offset

  -- The one word of an instruction is placed where there is no error.
  one_word_placed :
      (m : Mnemonic) (w operand : ℕ) (t : PassTwo)
      → encode_with_context m operand s.previous_extend ≡ ok w
      → IsOperand r s.symbols m operand
      → count_errors (place_words r place_of (w ∷ []) t).diagnostics ≡ 0
      → IsThere
          (place_words r place_of (w ∷ []) t).words
          (place_words r place_of (w ∷ []) t).occupied
          s.symbols
          (record r { word = first_placed place_of (w ∷ []) t r.word })
          bank
          offset
          m
  unfolding place_words
  one_word_placed m w operand t enc means none_left =
      let grown = (place_word-Extends r place_of w t).grows in
      let placed = place_word-placed r place_of w t (omega (arith, grown, none_left)) in
      record {
        w = w;
        operand = operand;
        context = s.previous_extend;
        noted = placed.2 r.word;
        free_no_more = placed.0;
        there = placed.1;
        encodes = enc;
        means = means;
      }

  words_placed :
      (m : Mnemonic) (ws : List ℕ) (ds : List Diagnostic) (symbols : SymbolTable)
      → Encoded s.diagnostics r s.symbols m s.previous_extend (ws, ds)
      → count_errors (place_words r place_of ws (emitted_state r s ((ws, ds), symbols))).diagnostics
        ≡ 0
      → IsThere
          (place_words r place_of ws (emitted_state r s ((ws, ds), symbols))).words
          (place_words r place_of ws (emitted_state r s ((ws, ds), symbols))).occupied
          s.symbols
          (record r {
            word = first_placed place_of ws (emitted_state r s ((ws, ds), symbols)) r.word;
          })
          bank
          offset
          m
  words_placed m ws ds symbols (failed lt) none_left = absurd (
      omega (
        arith,
        lt,
        none_left,
        (place_words-Extends r ws place_of (emitted_state r s ((ws, ds), symbols))).grows,
      ))
  words_placed m ws ds symbols (encoded w operand one enc means) none_left =
      let t = emitted_state r s (([], ds), symbols) in
      rw one (one_word_placed m w operand t enc means (rw one at none_left))

  emit_at-Assembled :
      r.bank ≡ some bank
      → r.offset ≡ some offset
      → count_errors (emit_at r bank offset s).1.diagnostics ≡ 0
      → Assembled
          (emit_at r bank offset s).1.words
          (emit_at r bank offset s).1.occupied
          (emit_at r bank offset s).1.symbols
          (emit_at r bank offset s).0
  unfolding emit_at
  emit_at-Assembled hb ho none_left b o m eb eo em =
      let same_bank : bank ≡ b = cc in
      let same_offset : offset ≡ o = cc in
      let there =
        words_placed m emission.0.0 emission.0.1 emission.1
          (emit_record-Encoded s.diagnostics r s.symbols m s.previous_extend em) none_left in
      rw (← same_bank, ← same_offset)
        (IsThere-SameValues s.symbols (emit_at r bank offset s).1.symbols
          (emit_at r bank offset s).0 emit_at-Extends.values there)

  emit_at-EmitsTo :
      r.bank ≡ some bank → r.offset ≡ some offset → EmitsTo s (emit_at r bank offset s)
  emit_at-EmitsTo hb ho = (emit_at-Extends, emit_at-IsRope, emit_at-Assembled hb ho)

unplaced-EmitsTo : (r : IrRecord) (s : PassTwo) → r.bank ≡ none → EmitsTo s (emit r s)
unfolding emit
unplaced-EmitsTo r s e =
    subst (EmitsTo s)
      (let now : (r, record s { previous_extend = false }) ≡ emit r s = ground (arith, e) in now)
      (
        record { keeps = λ p o. (o, refl); grows = omega arith; values = λ n. refl },
        λ h. record { are_words = h.are_words; free = h.free },
        λ _ b o m eb. absurd (let clash : none ≡ some b = sym e ∙ eb in ground arith),
      )

no_offset-EmitsTo :
    (r : IrRecord) (s : PassTwo) {bank : ℕ}
    → r.bank ≡ some bank
    → r.offset ≡ none
    → EmitsTo s (emit r s)
unfolding emit
no_offset-EmitsTo r s e f =
    let reported = push_error s.diagnostics (codes "AGCA051") r in
    subst (EmitsTo s)
      (let now : (r, record s { previous_extend = false; diagnostics = reported }) ≡ emit r s =
          ground (arith, e, f) in
        now)
      (
        record {
          keeps = λ p o. (o, refl);
          grows = omega (arith, count_errors-push_error s.diagnostics (codes "AGCA051") r);
          values = λ n. refl;
        },
        λ h. record { are_words = h.are_words; free = h.free },
        λ _ b o m eb eo. absurd (let clash : none ≡ some o = sym f ∙ eo in ground arith),
      )

emit-EmitsTo : (r : IrRecord) (s : PassTwo) → EmitsTo s (emit r s)
unfolding emit
emit-EmitsTo r s = elim (Option-cases r.bank) [
  | inl e ↦ unplaced-EmitsTo r s e
  | inr (bank, e) ↦ elim (Option-cases r.offset) [
    | inl f ↦ no_offset-EmitsTo r s e f
    | inr (offset, f) ↦
        subst (EmitsTo s)
          (let now : emit_at r bank offset s ≡ emit r s = ground (arith, e, f) in now)
          (emit_at-EmitsTo r bank offset s e f)
  ]
]

-- The records of a pass that ends with no error.
pub pass_two-EmitsTo :
    (rs : List IrRecord) (s : PassTwo)
    → Extends s (pass_two rs s).1
      × (IsRope s → IsRope (pass_two rs s).1)
      × (count_errors (pass_two rs s).1.diagnostics ≡ 0
          → All
              (Assembled
                (pass_two rs s).1.words
                (pass_two rs s).1.occupied
                (pass_two rs s).1.symbols)
              (pass_two rs s).0)
unfolding pass_two
pass_two-EmitsTo [] s =
    (record { keeps = λ p o. (o, refl); grows = omega arith; values = λ n. refl }, λ h. h, λ _. tt)
pass_two-EmitsTo (r ∷ rs) s =
    let first = emit-EmitsTo r s in
    let t = (emit r s).1 in
    let rest = pass_two-EmitsTo rs t in
    (
      Extends-trans s t _ first.0 rest.0,
      λ h. rest.1 (first.1 h),
      λ none_left. (
        Assembled-Extends t _ _ rest.0 (first.2 (omega (arith, rest.0.grows, none_left))),
        rest.2 none_left,
      ),
    )
