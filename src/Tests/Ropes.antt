-- ===== src/Tests/Ropes.antt =====
-- Rope images, symbols and the assembler at concrete inputs.
use apollo_rs.Prelude.{
  ℕ, zero, suc, ◌+◌, ◌*◌, ◌^◌, ◌≡◌, refl, arith, false, List, [], ◌∷◌, Option, some, none, Result,
  ok, err, length, get_or, All, ◌⊎◌, bit_xor, inl,
}
use apollo_rs.Prelude.Int.{pos, ◌+ℤ◌}
use apollo_rs.Text.{Text, codes, text_eq, is, is_any}
use apollo_rs.Word.{IsWord}
use apollo_rs.Memory.Store.{Memory, fixed, read_physical, blank, translate}
use apollo_rs.Memory.Store as Store
use apollo_rs.Rope.Bytes.{encode_yayul, parity}
use apollo_rs.Rope.Image.{
  RopeImage, yayul, yayul_parity, decode_bytes, into_memory, word_data, count_ones,
}
use apollo_rs.Rope.Loaded.{into_memory-encode_yayul}
use apollo_rs.Rope.Parity.{word_data-flip}
use apollo_rs.Symbols.Table.{
  SourceLocation, Span, Symbol, SymbolTable, no_symbols, get, define, reference, logical_address,
}
use apollo_rs.Symbols.Table as Symbols
use apollo_rs.Symbols.Addresses.{translate-fixed_address}
use apollo_rs.Assembler.Records.{IrRecord, Operand, literal, symbol, instruction, is_equate}
use apollo_rs.Assembler.Equates.{Equating, resolve_equates}
use apollo_rs.Assembler.Location.{advance, current_value, apply_location_directive}
use apollo_rs.Assembler.Operands.{evaluate_operand, evaluate_and_reference}
use apollo_rs.Assembler.Emission.{emitted_word_count, emit_record, is_single, single_word}
use apollo_rs.Isa.Names.{parse, as_str, parse-as_str}
use apollo_rs.Isa.Mnemonics.{edrupt}
use apollo_rs.Isa.Encode.{encode_with_context}
use apollo_rs.Isa.Mnemonics.{is_extended}
use apollo_rs.Assembler.Assign.{pass_one}
use apollo_rs.Assembler.Image.{
  ExpandedProgram, ProgramImage, AssemblyError, assemble, to_yayul_bytes, pass_one_start,
}
use apollo_rs.Assembler.Assembled.{IsImage, assemble-IsImage, read_physical-assemble}
use apollo_rs.Assembler.Settled.{IsDefined, IsStuck, resolve_equates-settles}
use apollo_rs.Assembler.InBank.{InBank, IsLocation, fixed_location, pass_one-InBank}

-- A rope of ones.
ones : ℕ → List ℕ
ones zero = []
ones (suc n) = 1 ∷ ones n

length-ones : (n : ℕ) → length (ones n) ≡ n
unfolding ones
length-ones zero = refl
length-ones (suc n) = omega (arith, length-ones n)

ones-IsWord : (n i : ℕ) → IsWord (get_or (ones n) i 0)
unfolding ones
ones-IsWord zero i = omega arith
ones-IsWord (suc n) zero = omega arith
ones-IsWord (suc n) (suc i) = ones-IsWord n i

into_memory-encode_yayul_example :
    (bytes : List ℕ) × (image : RopeImage) × (m : Memory) × (encode_yayul (ones 36864) ≡ ok bytes)
    × (decode_bytes bytes yayul ≡ ok image)
    × (into_memory image ≡ ok m)
    × (read_physical m (fixed 2 5) ≡ ok (get_or (ones 36864) (2 * 1024 + 5) 0))
into_memory-encode_yayul_example =
    into_memory-encode_yayul (ones 36864) 2 5 (ones-IsWord 36864) (length-ones 36864) (omega arith)
      (omega arith)

odd_word : word_data yayul_parity 0 7 ≡ ok (3, 1)
unfolding word_data count_ones
odd_word = refl

word_data-flip_example :
    word_data yayul_parity 0 (bit_xor (2 ^ 4) 7) ≡ err (parity 0 (bit_xor (2 ^ 4) 7))
word_data-flip_example = word_data-flip yayul_parity 0 4 7 (inl refl) (omega arith) odd_word

abbrev at_line : ℕ → SourceLocation
at_line n = record { file = codes "TEST.agc"; line = n; span = record { start = 0; end = 1 } }

abbrev start_symbol : Symbol
start_symbol = record {
  name = codes "START";
  value = Symbols.fixed 2 0;
  definition = at_line 2;
  references = [];
}

translate-fixed_address_example :
    (a : ℕ) × (logical_address (Symbols.fixed 2 5) ≡ some a)
    × (translate blank a ≡ ok (Store.fixed 2 5))
translate-fixed_address_example = translate-fixed_address blank 2 5 (omega arith) refl

start_only : SymbolTable
start_only = record { symbols = start_symbol ∷ [] }

start_found : get start_only (codes "START") ≡ some start_symbol
unfolding get start_only text_eq
start_found = refl

abbrev card : ℕ → Option Text → Text → Operand → IrRecord
card n label operation operand = record {
  location = at_line n;
  label = label;
  operation = operation;
  operand = operand;
  kind = instruction;
  bank = none;
  offset = none;
  word = none;
}

-- A transfer forward and one back.
abbrev cards : List IrRecord
cards =
    card 1 none (codes "BANK") (literal (pos 2))
    ∷ (card 2 (some (codes "START")) (codes "TC") (symbol (codes "END") (pos 0))
        ∷ (card 3 none (codes "OCT") (literal (pos 0o12345))
            ∷ (card 4 (some (codes "END")) (codes "TC") (symbol (codes "START") (pos 0)) ∷ [])))

abbrev program : ExpandedProgram
program = record { records = cards; diagnostics = [] }

abbrev image_of : Result AssemblyError ProgramImage → ProgramImage
image_of (ok image) = image
image_of (err e) = record {
  words = λ _. 0;
  occupied = λ _. false;
  symbols = no_symbols;
  records = [];
  diagnostics = [];
}

program_assembles : assemble program ≡ ok (image_of (assemble program))
unfolding assemble is_equate is apply_location_directive is_any emitted_word_count parse advance
    is_single evaluate_operand current_value emit_record evaluate_and_reference reference
    single_word define logical_address ◌+ℤ◌ encode_with_context is_extended
program_assembles = refl

-- The words that the test of the crate expects.
program_words :
    ((image_of (assemble program)).words 2048 ≡ 0o4002)
    × ((image_of (assemble program)).words 2049 ≡ 0o12345)
    × ((image_of (assemble program)).words 2050 ≡ 0o4000)
unfolding assemble is_equate is apply_location_directive is_any emitted_word_count parse advance
    is_single evaluate_operand current_value emit_record evaluate_and_reference reference
    single_word define logical_address ◌+ℤ◌ encode_with_context is_extended
program_words = (refl, refl, refl)

assemble-IsImage_example : IsImage (image_of (assemble program))
assemble-IsImage_example = assemble-IsImage program (image_of (assemble program)) program_assembles

read_physical-assemble_example :
    (rope : RopeImage) × (m : Memory) × (decode_bytes
        (to_yayul_bytes (image_of (assemble program)))
        yayul
      ≡ ok rope)
    × (into_memory rope ≡ ok m)
    × (read_physical m (fixed 2 1) ≡ ok ((image_of (assemble program)).words (2 * 1024 + 1)))
read_physical-assemble_example =
    read_physical-assemble program (image_of (assemble program)) 2 1 program_assembles (omega arith)
      (omega arith)

pass_one-InBank_example :
    All InBank (pass_one cards (pass_one_start program)).0
    × IsLocation (pass_one cards (pass_one_start program)).1.location
pass_one-InBank_example =
    pass_one-InBank cards (pass_one_start program) (refl, (refl, (refl, (refl, tt))))
      (fixed_location 2 0 (omega arith) (omega arith))

-- One equate that needs the other, and one that needs a symbol that is not there.
abbrev equates : List (IrRecord × Text)
equates =
    (card 5 none (codes "=") (symbol (codes "B") (pos 1)), codes "A")
    ∷ ((card 6 none (codes "=") (literal (pos 7)), codes "B")
        ∷ ((card 7 none (codes "=") (symbol (codes "D") (pos 0)), codes "C") ∷ []))

abbrev equating : Equating
equating = record { symbols = no_symbols; diagnostics = [] }

abbrev settled : List (IrRecord × Text) × Equating
settled = resolve_equates 3 equates equating

resolve_equates-settles_example :
    All (λ q. IsDefined settled.1.symbols q.1 ⊎ IsStuck settled.1.symbols q) equates
    × All (IsStuck settled.1.symbols) settled.0
resolve_equates-settles_example = resolve_equates-settles equates equating

parse-as_str_example : parse (codes (as_str edrupt)) ≡ some edrupt
parse-as_str_example = parse-as_str edrupt
