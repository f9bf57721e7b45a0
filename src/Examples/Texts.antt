-- ===== src/Examples/Texts.antt =====
-- Runs of the textual form.
use mopa.Base.{ℕ, ◌≡◌, refl, arith, Option, List, [], ◌∷◌, ◌++◌, some, ok}
use mopa.Io.Info.{Info, codes}
use mopa.Io.TextIn
use mopa.Io.TextIn.{IcCtx}
use mopa.Io.TextOut
use mopa.Io.TextOut.{OcCtx}
use mopa.Io.Decimal.{read_uint-write_uint}
use mopa.Io.Limits.{Below, uint-Below}
use mopa.Io.Exceptions.{Arg}
use mopa.Io.Lines.{unlines}

abbrev pid_info : Info
pid_info = record { file = []; line = 0; name = codes "pid"; hint = 0 }

abbrev product : OcCtx
product = record { bitpos = 3; bitlimit = 64; scope_stack = []; prod = codes "{" }

abbrev scanner : IcCtx
scanner = record { bitpos = 3; bitlimit = 64; scope_stack = []; parsed_text = []; parse_pos = [] }

read_uint-write_uint_example :
    (text : List ℕ) × (TextOut.uint 13 8190 (some pid_info) product
      ≡ ok (tt, record product { prod = codes "{" ++ text; bitpos = 16 }))
    × (TextIn.uint 13 (some pid_info) (record scanner { parse_pos = text ++ codes "}" })
        ≡ ok (8190, record scanner { parse_pos = 10 ∷ codes "}"; bitpos = 16 }))
read_uint-write_uint_example =
    read_uint-write_uint 13 8190 (codes "}") b'p' (codes "id") pid_info product scanner
      (omega arith) (omega arith) refl refl refl refl (omega arith) (omega arith) (omega arith)
      (omega arith) (omega arith)

uint-Below_example :
    Below 8192
      (TextIn.uint 13 (some pid_info) (record scanner { parse_pos = codes " pid: 0x1fff\n" }))
uint-Below_example = uint-Below 13 pid_info (record scanner { parse_pos = codes " pid: 0x1fff\n" })

abbrev two_lines : List (List ℕ)
two_lines = codes "{" ∷ codes "pid:1" ∷ []

-- Every format is printed as a question mark.
abbrev marked : List ℕ → List Arg → Option (List ℕ)
marked format arguments = some (b'?' ∷ [])

abbrev inside : IcCtx
inside = record scanner {
  parsed_text = unlines two_lines ++ (codes "a" ++ codes "bc");
  parse_pos = codes "bc";
}
