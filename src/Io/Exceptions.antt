-- ===== src/Io/Exceptions.antt =====
-- src/io.cpp `Exception`: the message of an exception.
-- `asprintf` is a parameter: from a format and its arguments the text, or none when the call prints no
-- byte or fails. What `vasprintf` makes of the format of the `throw` statement is an argument.
use mopa.Base.{
  ℕ, zero, suc, ◌+◌, ◌-◌, ◌/◌, ◌%◌, Option, none, some, List, [], ◌∷◌, ◌++◌, ◌==◌, if◌then◌else◌,
  length, u32,
}
use mopa.Io.Info.{Info, codes}
use mopa.Io.BinaryIn.{IbScope}
use mopa.Io.BinaryOut.{ObScope}
use mopa.Io.TextIn.{IcScope}
use mopa.Io.TextOut.{OcScope}
use mopa.Io.Facade.{Ctx, ib, ic, ob, oc, parsing, constructing}

-- `empty_info`
abbrev pub empty_info : Info
empty_info = record { file = codes "-unknown-"; line = 0; name = codes "-unknown-"; hint = 0 }

abbrev pub info_of : Option Info → Info
info_of none = empty_info
info_of (some info) = info

pub data Arg : Type 0 where
  text : List ℕ → Arg
  number : ℕ → Arg

-- A position and a limit, and what they are about.
pub record Place : Type 0 where
  pub info : Option Info
  pub bitpos : ℕ
  pub bitlimit : ℕ

unfoldable pub args : Place → List Arg
args p =
    text (info_of p.info).name
    ∷ number (p.bitpos / 8)
    ∷ number (p.bitpos % 8)
    ∷ number (p.bitlimit / 8)
    ∷ number (p.bitlimit % 8)
    ∷ text (info_of p.info).file
    ∷ number (info_of p.info).line
    ∷ []

-- The open blocks, the innermost first.
unfoldable pub ib_blocks : List IbScope → List Place
ib_blocks [] = []
ib_blocks (s ∷ outer) =
    record { info = s.info; bitpos = s.bitpos_at_enter; bitlimit = s.bitlimit_at_enter }
    ∷ ib_blocks outer

unfoldable pub ic_blocks : List IcScope → List Place
ic_blocks [] = []
ic_blocks (s ∷ outer) =
    record { info = s.info; bitpos = s.bitpos_at_enter; bitlimit = s.bitlimit_at_enter }
    ∷ ic_blocks outer

unfoldable pub ob_blocks : List ObScope → List Place
ob_blocks [] = []
ob_blocks (s ∷ outer) =
    record { info = s.info; bitpos = s.bitpos_at_enter; bitlimit = s.bitlimit_at_enter }
    ∷ ob_blocks outer

unfoldable pub oc_blocks : List OcScope → List Place
oc_blocks [] = []
oc_blocks (s ∷ outer) =
    record { info = s.info; bitpos = s.bitpos_at_enter; bitlimit = s.bitlimit_at_enter }
    ∷ oc_blocks outer

-- The loop from the start of the text to the position: the number of the line, from 1, and the
-- characters from its begin on.
unfoldable pub line_column : ℕ → List ℕ → ℕ → ℕ → ℕ × ℕ
line_column zero rs line column = (line, column)
line_column (suc n) [] line column = (line, column)
line_column (suc n) (r ∷ rs) line column =
    line_column n rs (if r == 10 then u32 (line + 1) else line) (if r == 10 then 0 else column + 1)

module _ (asprintf : List ℕ → List Arg → Option (List ℕ)) where
  -- `if(rr>0){message+=p;free(p);}`
  unfoldable pub add : List ℕ → List ℕ → List Arg → List ℕ
  add message format arguments = elim (asprintf format arguments) [
    | none ↦ message
    | some p ↦ message ++ p
  ]

  unfoldable pub add_blocks : List ℕ → List Place → List ℕ
  add_blocks message [] = message
  add_blocks message (p ∷ outer) =
      add_blocks
        (add message (codes "\nin block '%s' position %d.%d limit %d.%d declared in (%s:%d)")
          (args p))
        outer

  abbrev pub started : Option (List ℕ) → List ℕ
  started none = []
  started (some p) = p

  -- The constructor; `printed` is the text of the `throw` statement.
  unfoldable pub message : Option (List ℕ) → Option Info → Ctx → List ℕ
  message printed info (parsing (ib y)) =
      add_blocks
        (add (started printed)
          (codes " when parsing '%s' position %d.%d limit %d.%d declared in (%s:%d)")
          (args (record { info = info; bitpos = y.bitpos; bitlimit = y.bitlimit })))
        (ib_blocks y.scope_stack)
  message printed info (parsing (ic y)) =
      let (line, column) =
        line_column (length y.parsed_text - length y.parse_pos) y.parsed_text 1 0 in
      add_blocks
        (add (started printed)
          (codes
            " at <input>:%d:%ld when parsing '%s' position %d.%d limit %d.%d declared in (%s:%d)")
          (number line
            ∷ number column
            ∷ args (record { info = info; bitpos = y.bitpos; bitlimit = y.bitlimit })))
        (ic_blocks y.scope_stack)
  message printed info (constructing (ob y)) =
      add_blocks
        (add (started printed)
          (codes " when building '%s' position %d.%d limit %d.%d declared in (%s:%d)")
          (args (record { info = info; bitpos = y.bitpos; bitlimit = y.bitlimit })))
        (ob_blocks y.scope_stack)
  message printed info (constructing (oc y)) =
      add_blocks
        (add (started printed)
          (codes " when building '%s' position %d.%d limit %d.%d declared in (%s:%d)")
          (args (record { info = info; bitpos = y.bitpos; bitlimit = y.bitlimit })))
        (oc_blocks y.scope_stack)
