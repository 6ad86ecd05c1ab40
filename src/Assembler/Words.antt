-- ===== src/Assembler/Words.antt =====
-- crates/agc-assembler/src/lib.rs: what `emit_record` emits is words, and for an instruction its
-- encoding.
use apollo_rs.Prelude.{
  ℕ, zero, suc, ◌+◌, ◌≤◌, ◌≡◌, arith, Bool, true, false, ◌&&◌, not, List, [], ◌∷◌, ◌++◌, some, none,
  Result, ok, err, leb, if◌then◌else◌, bit_or, All, IfOk, if_cases, result_cases, map_err, ◌-◌, ◌^◌,
  ◌/◌, ◌==◌,
}
use apollo_rs.Prelude.Int.{ℤ, pos, negsuc, abs, is_neg}
use apollo_rs.Bits.{shr, low_bits}
use apollo_rs.Text.{Text, codes, is}
use apollo_rs.Word.{WordError, IsWord, from_i32, from_raw_truncate, try_from_raw}
use apollo_rs.Double.{from_i64, AgcDoubleWord}
use apollo_rs.Isa.Mnemonics.{Mnemonic, is_extended}
use apollo_rs.Isa.Encode.{EncodeError, operand_out_of_range, base_and_bits, encode_with_context}
use apollo_rs.Isa.Names.{parse}
use apollo_rs.Symbols.Table.{SymbolTable, SymbolError}
use apollo_rs.Assembler.Records.{
  IrRecord, Diagnostic, Operand, literal, no_operand, symbol, expression, push_error, error,
  symbol_diagnostic,
}
use apollo_rs.Assembler.Operands.{EvaluationError, evaluate_and_reference}
use apollo_rs.Assembler.Diagnostics.{is_error, count_errors}
use apollo_rs.Assembler.Emission.{
  erase_count, emitted_word_count, is_single, is_double, single_word, signed_word, double_octal,
  double_words, encode_instruction, emit_instruction, replicate, emit_data, emit_record, Emitted,
  with_zero, takes_no_operand,
}

from_i32-IsWord : (v : ℤ) → IfOk IsWord (from_i32 v)
unfolding from_i32
from_i32-IsWord (pos n) = if_cases (IfOk IsWord) (leb n 16383) _ _ (λ h. ground arith) λ _. tt
from_i32-IsWord (negsuc n) =
    if_cases (IfOk IsWord) (leb (suc n) 16383) _ _ (λ h. ground arith) λ _. tt

abbrev Halves : AgcDoubleWord → Type 0
Halves d = IsWord d.high × IsWord d.low

from_i64-IsWord : (v : ℤ) → IfOk Halves (from_i64 v)
unfolding from_i64
from_i64-IsWord v =
    if_cases (IfOk Halves) (leb (abs v) (2 ^ 28 - 1)) _ _ (λ _. (omega arith, omega arith)) λ _. tt

try_from_raw-IsWord :
    (f : WordError → EncodeError) (raw : ℕ) → IfOk IsWord (map_err f (try_from_raw raw))
unfolding try_from_raw
try_from_raw-IsWord f raw =
    if_cases (λ r. IfOk IsWord (map_err f r)) (raw / 2 ^ 15 == 0) _ _ (λ h. ground arith) λ _. tt

encode_with_context-IsWord :
    (m : Mnemonic) (operand : ℕ) (x : Bool) → IfOk IsWord (encode_with_context m operand x)
unfolding encode_with_context
encode_with_context-IsWord m operand x =
    let (base, bits) = base_and_bits m x in
    let wide = operand_out_of_range m operand bits in
    if_cases (IfOk {E = EncodeError} IsWord) (shr operand bits == 0)
      (map_err (λ _. wide) (try_from_raw (bit_or base (low_bits operand bits)))) (err wide)
      (λ _. try_from_raw-IsWord (λ _. wide) (bit_or base (low_bits operand bits))) λ _. tt

count_errors-append :
    (ds : List Diagnostic) (d : Diagnostic)
    → count_errors (ds ++ d ∷ []) ≡ count_errors ds + (if is_error d.severity then 1 else 0)
unfolding count_errors
count_errors-append [] d = omega arith
count_errors-append (c ∷ ds) d = omega (arith, count_errors-append ds d)

pub count_errors-push_error :
    (ds : List Diagnostic) (code : Text) (r : IrRecord)
    → count_errors (push_error ds code r) ≡ count_errors ds + 1
unfolding push_error
count_errors-push_error ds code r =
    count_errors-append ds (record { severity = error; code = code; location = some r.location })

pub count_errors-symbol_diagnostic :
    (ds : List Diagnostic) (e : SymbolError)
    → count_errors (symbol_diagnostic ds e) ≡ count_errors ds + 1
unfolding symbol_diagnostic
count_errors-symbol_diagnostic ds e = count_errors-append ds _

-- Words, after the diagnostics of which none is lost.
pub record Emits (ds : List Diagnostic) (e : Emitted) : Type 0 where
  pub are_words : All IsWord e.0
  pub grows : count_errors ds ≤ count_errors e.1

module _ (ds : List Diagnostic) where
  nothing : Emits ds ([], ds)
  nothing = record { are_words = tt; grows = omega arith }

  refuses : (code : Text) (r : IrRecord) → Emits ds ([], push_error ds code r)
  refuses code r = record {
    are_words = tt;
    grows = omega (arith, count_errors-push_error ds code r);
  }

  one_word : (w : ℕ) → IsWord w → Emits ds (w ∷ [], ds)
  one_word w h = record { are_words = (h, tt); grows = omega arith }

  two_words : (w x : ℕ) → IsWord w → IsWord x → Emits ds (w ∷ (x ∷ []), ds)
  two_words w x h k = record { are_words = (h, (k, tt)); grows = omega arith }

single_word-Emits :
    (v : Result EvaluationError ℤ) (r : IrRecord) (ds : List Diagnostic)
    → Emits ds (single_word v r ds)
unfolding single_word from_raw_truncate
single_word-Emits (ok (pos n)) r ds =
    if_cases (Emits ds) (leb n 0o77777) _ _ (λ _. one_word ds _ (omega arith)) λ _. refuses ds _ r
single_word-Emits (ok (negsuc n)) r ds = refuses ds _ r
single_word-Emits (err e) r ds = refuses ds _ r

signed_word-Emits :
    (v : Result EvaluationError ℤ) (r : IrRecord) (ds : List Diagnostic)
    → Emits ds (signed_word v r ds)
unfolding signed_word
signed_word-Emits (err e) r ds = refuses ds _ r
signed_word-Emits (ok v) r ds =
    if_cases (Emits ds) (leb (abs v) (if is_neg v then 0x8000_0000 else 0x7fff_ffff)) _ _
      (λ _.
        result_cases (Emits ds) (from_i32 v) _ _
          (λ w e. one_word ds w (rw e at (from_i32-IsWord v))) λ _ _. refuses ds _ r)
      λ _. refuses ds _ r

double_octal-Emits : (v : ℤ) (r : IrRecord) (ds : List Diagnostic) → Emits ds (double_octal v r ds)
unfolding double_octal from_raw_truncate
double_octal-Emits (pos n) r ds =
    if_cases (Emits ds) (leb n 0x0fff_ffff) _ _ (λ _. two_words ds _ _ (omega arith) (omega arith))
      λ _. refuses ds _ r
double_octal-Emits (negsuc n) r ds = refuses ds _ r

double_words-Emits :
    (v : Result EvaluationError ℤ) (x : Bool) (r : IrRecord) (ds : List Diagnostic)
    → Emits ds (double_words v x r ds)
unfolding double_words
double_words-Emits (err e) x r ds = refuses ds _ r
double_words-Emits (ok v) true r ds =
    result_cases (Emits ds) (from_i64 v) _ _
      (λ d e. let h = rw e at (from_i64-IsWord v) in two_words ds _ _ h.0 h.1) λ _ _. refuses ds _ r
double_words-Emits (ok v) false r ds = double_octal-Emits v r ds

encode_instruction-Emits :
    (m : Mnemonic) (operand : ℕ) (r : IrRecord) (x : Bool) (ds : List Diagnostic)
    → Emits ds (encode_instruction m operand r x ds)
unfolding encode_instruction
encode_instruction-Emits m operand r x ds =
    if_cases (Emits ds) (is_extended m && not x) _ _ (λ _. refuses ds _ r)
      λ _.
        result_cases (Emits ds) (encode_with_context m operand x) _ _
          (λ w e. one_word ds w (rw e at (encode_with_context-IsWord m operand x)))
          λ _ _. refuses ds _ r

emit_instruction-Emits :
    (m : Mnemonic) (v : Result EvaluationError ℤ) (r : IrRecord) (x : Bool) (ds : List Diagnostic)
    → Emits ds (emit_instruction m v r x ds)
unfolding emit_instruction
emit_instruction-Emits m (ok (pos n)) r x ds =
    if_cases (Emits ds) (leb n 0o7777) _ _ (λ _. encode_instruction-Emits m n r x ds)
      λ _. refuses ds _ r
emit_instruction-Emits m (ok (negsuc n)) r x ds = refuses ds _ r
emit_instruction-Emits m (err e) r x ds = refuses ds _ r

replicate-IsWord : (n : ℕ) → All IsWord (replicate n)
unfolding replicate
replicate-IsWord zero = tt
replicate-IsWord (suc n) = (omega arith, replicate-IsWord n)

with_zero-Emits : (ds : List Diagnostic) (e : Emitted) → Emits ds e → Emits ds (with_zero e)
with_zero-Emits ds ([], es) h = h
with_zero-Emits ds (w ∷ ws, es) h = record {
  are_words = (h.are_words.0, (omega arith, tt));
  grows = h.grows;
}

erase_count-grows :
    (r : IrRecord) (o : Operand) (ds : List Diagnostic)
    → count_errors ds ≤ count_errors (erase_count r o ds).1
unfolding erase_count
erase_count-grows r (literal (pos n)) ds = omega arith
erase_count-grows r (literal (negsuc n)) ds =
    omega (arith, count_errors-push_error ds (codes "AGCA020") r)
erase_count-grows r no_operand ds = omega arith
erase_count-grows r (symbol name offset) ds =
    omega (arith, count_errors-push_error ds (codes "AGCA020") r)
erase_count-grows r (expression text) ds =
    omega (arith, count_errors-push_error ds (codes "AGCA020") r)

pub emitted_word_count-grows :
    (r : IrRecord) (ds : List Diagnostic)
    → count_errors ds ≤ count_errors (emitted_word_count r ds).1
unfolding emitted_word_count
emitted_word_count-grows r ds =
    ground (arith, erase_count-grows r r.operand ds, count_errors-push_error ds (codes "AGCA021") r)

abbrev pub RecordEmits : List Diagnostic → Emitted × SymbolTable → Type 0
RecordEmits ds e = Emits ds e.0

emit_data-Emits :
    (r : IrRecord) (symbols : SymbolTable) (ds : List Diagnostic)
    → RecordEmits ds (emit_data r symbols ds)
unfolding emit_data
emit_data-Emits r symbols ds =
    let operation = r.operation in
    let value = (evaluate_and_reference r.operand symbols r.location).0 in
    if_cases (RecordEmits ds) (is operation "DEC") _ _ (λ _. signed_word-Emits value r ds)
      λ _.
        if_cases (RecordEmits ds) (is operation "2OCT") _ _
          (λ _. double_words-Emits value false r ds)
          λ _.
            if_cases (RecordEmits ds) (is operation "2DEC") _ _
              (λ _. double_words-Emits value true r ds)
              λ _.
                if_cases (RecordEmits ds) (is_single operation) _ _
                  (λ _. single_word-Emits value r ds)
                  λ _.
                    if_cases (RecordEmits ds) (is_double operation) _ _
                      (λ _. with_zero-Emits ds _ (single_word-Emits value r ds))
                      λ _.
                        if_cases (RecordEmits ds) (is operation "ERASE") _ _
                          (λ _. record {
                            are_words = replicate-IsWord (emitted_word_count r ds).0;
                            grows = emitted_word_count-grows r ds;
                          })
                          λ _.
                            if_cases (RecordEmits ds) (is operation "BNKSUM") _ _
                              (λ _. one_word ds _ (omega arith)) λ _. nothing ds

-- Every record emits words.
pub emit_record-Emits :
    (r : IrRecord) (symbols : SymbolTable) (x : Bool) (ds : List Diagnostic)
    → RecordEmits ds (emit_record r symbols x ds)
unfolding emit_record
emit_record-Emits r symbols x ds =
    elim (parse r.operation)
      as (λ p. RecordEmits ds (elim p [
        | some mnemonic ↦
            if takes_no_operand mnemonic then (encode_instruction mnemonic 0 r x ds, symbols) else (
              emit_instruction mnemonic (evaluate_and_reference r.operand symbols r.location).0 r x
                  ds,
              (evaluate_and_reference r.operand symbols r.location).1,
            )
        | none ↦ emit_data r symbols ds
      ])) [
        | some m ↦
            if_cases (RecordEmits ds) (takes_no_operand m) _ _
              (λ _. encode_instruction-Emits m 0 r x ds)
              λ _.
                emit_instruction-Emits m (evaluate_and_reference r.operand symbols r.location).0 r x
                  ds
        | none ↦ emit_data-Emits r symbols ds
      ]
