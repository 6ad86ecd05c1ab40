-- ===== src/Isa/Names.antt =====
-- crates/agc-isa/src/lib.rs, `Mnemonic::as_str` and `Mnemonic::parse`.
use Prim.Native.String.{String}
use apollo_rs.Prelude.{◌≡◌, refl, ◌==◌, if◌then◌else◌, List, [], ◌∷◌, Option, some, none}
use apollo_rs.Text.{Text, codes, is, trim, trim_end_by, to_ascii_uppercase}
use apollo_rs.Isa.Mnemonics.{
  Mnemonic, ad, ads, aug, bzf, bzmf, ca, ccs, cs, das, dca, dcs, dim, dv, dxch, edrupt, extend,
  incr, index, inhint, lxch, mask, mp, msu, qxch, rand, read, relint, resume, ror, rxor, su, tc,
  tcf, ts, wand, wor, write, xch,
}

unfoldable pub as_str : Mnemonic → String
as_str ad = "AD"
as_str ads = "ADS"
as_str aug = "AUG"
as_str bzf = "BZF"
as_str bzmf = "BZMF"
as_str ca = "CA"
as_str ccs = "CCS"
as_str cs = "CS"
as_str das = "DAS"
as_str dca = "DCA"
as_str dcs = "DCS"
as_str dim = "DIM"
as_str dv = "DV"
as_str dxch = "DXCH"
as_str edrupt = "EDRUPT"
as_str extend = "EXTEND"
as_str incr = "INCR"
as_str index = "INDEX"
as_str inhint = "INHINT"
as_str lxch = "LXCH"
as_str mask = "MASK"
as_str mp = "MP"
as_str msu = "MSU"
as_str qxch = "QXCH"
as_str rand = "RAND"
as_str read = "READ"
as_str relint = "RELINT"
as_str resume = "RESUME"
as_str ror = "ROR"
as_str rxor = "RXOR"
as_str su = "SU"
as_str tc = "TC"
as_str tcf = "TCF"
as_str ts = "TS"
as_str wand = "WAND"
as_str wor = "WOR"
as_str write = "WRITE"
as_str xch = "XCH"

-- The spellings of the match, in its order.
abbrev spellings : List (String × Mnemonic)
spellings =
    ("AD", ad)
    ∷ (("ADS", ads)
        ∷ (("AUG", aug)
            ∷ (("BZF", bzf)
                ∷ (("BZMF", bzmf)
                    ∷ (("CA", ca)
                        ∷ (("CAF", ca)
                            ∷ (("CCS", ccs)
                                ∷ (("CS", cs)
                                    ∷ (("COM", cs)
                                        ∷ (("DAS", das)
                                            ∷ (("DCA", dca)
                                                ∷ (("DCS", dcs)
                                                    ∷ (("DCOM", dcs)
                                                        ∷ (("DIM", dim)
                                                            ∷ (("DV", dv)
                                                            ∷ (("DXCH", dxch)
                                                            ∷ (("EDRUPT", edrupt)
                                                            ∷ (("EXTEND", extend)
                                                            ∷ (("INCR", incr)
                                                            ∷ (("INDEX", index)
                                                            ∷ (("NDX", index)
                                                            ∷ (("INHINT", inhint)
                                                            ∷ (("LXCH", lxch)
                                                            ∷ (("MASK", mask)
                                                            ∷ (("MP", mp)
                                                            ∷ (("SQUARE", mp)
                                                            ∷ (("MSU", msu)
                                                            ∷ (("QXCH", qxch)
                                                            ∷ (("RAND", rand)
                                                            ∷ (("READ", read)
                                                            ∷ (("RELINT", relint)
                                                            ∷ (("RESUME", resume)
                                                            ∷ (("ROR", ror)
                                                            ∷ (("RXOR", rxor)
                                                            ∷ (("SU", su)
                                                            ∷ (("TC", tc)
                                                            ∷ (("TCR", tc)
                                                            ∷ (("RETURN", tc)
                                                            ∷ (("TCF", tcf)
                                                            ∷ (("TS", ts)
                                                            ∷ (("OVSK", ts)
                                                            ∷ (("WAND", wand)
                                                            ∷ (("WOR", wor)
                                                            ∷ (("WRITE", write)
                                                            ∷ (("XCH", xch) ∷ ([])))))))))))))))))))
                                                            )))))))))))))))))))))))))))

find_spelling : Text → List (String × Mnemonic) → Option Mnemonic
unfolding is
find_spelling s [] = none
find_spelling s ((t, m) ∷ rest) = if is s t then some m else find_spelling s rest

unfoldable pub parse : Text → Option Mnemonic
unfolding find_spelling trim trim_end_by to_ascii_uppercase
parse input =
    find_spelling (to_ascii_uppercase (trim_end_by (λ c. c == b'*') (trim input))) spellings

-- The canonical spelling of every mnemonic is parsed to that mnemonic.
pub parse-as_str : (m : Mnemonic) → parse (codes (as_str m)) ≡ some m
unfolding parse as_str
parse-as_str ad = refl
parse-as_str ads = refl
parse-as_str aug = refl
parse-as_str bzf = refl
parse-as_str bzmf = refl
parse-as_str ca = refl
parse-as_str ccs = refl
parse-as_str cs = refl
parse-as_str das = refl
parse-as_str dca = refl
parse-as_str dcs = refl
parse-as_str dim = refl
parse-as_str dv = refl
parse-as_str dxch = refl
parse-as_str edrupt = refl
parse-as_str extend = refl
parse-as_str incr = refl
parse-as_str index = refl
parse-as_str inhint = refl
parse-as_str lxch = refl
parse-as_str mask = refl
parse-as_str mp = refl
parse-as_str msu = refl
parse-as_str qxch = refl
parse-as_str rand = refl
parse-as_str read = refl
parse-as_str relint = refl
parse-as_str resume = refl
parse-as_str ror = refl
parse-as_str rxor = refl
parse-as_str su = refl
parse-as_str tc = refl
parse-as_str tcf = refl
parse-as_str ts = refl
parse-as_str wand = refl
parse-as_str wor = refl
parse-as_str write = refl
parse-as_str xch = refl
