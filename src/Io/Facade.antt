-- ===== src/Io/Facade.antt =====
-- src/io.cpp `ix`, `ox` and `iox`: one call for all four modes.
-- A context is one of the four; `is_parsing` and `is_binary` choose by its constructors.
use mopa.Base.{
  ℕ, ◌*◌, Option, List, [], Bool, true, false, not, leb, ◌==◌, if◌then◌else◌, u8, u16, u32,
}
use mopa.Base.{Outcome, ok, required_value, bind, M, ◌>>=◌, pure, throw_if, within}
use mopa.Io.Info.{Info}
use mopa.Io.BinaryIn
use mopa.Io.BinaryIn.{IbCtx}
use mopa.Io.BinaryOut
use mopa.Io.BinaryOut.{ObCtx}
use mopa.Io.TextIn
use mopa.Io.TextIn.{IcCtx}
use mopa.Io.TextOut
use mopa.Io.TextOut.{OcCtx}

pub data ICtx : Type 0 where
  ib : IbCtx → ICtx
  ic : IcCtx → ICtx

pub data OCtx : Type 0 where
  ob : ObCtx → OCtx
  oc : OcCtx → OCtx

pub data Ctx : Type 0 where
  parsing : ICtx → Ctx
  constructing : OCtx → Ctx

unfoldable pub is_parsing : Ctx → Bool
is_parsing (parsing c) = true
is_parsing (constructing c) = false

unfoldable pub is_binary : Ctx → Bool
is_binary (parsing (ib c)) = true
is_binary (parsing (ic c)) = false
is_binary (constructing (ob c)) = true
is_binary (constructing (oc c)) = false

unfoldable pub bitpos : Ctx → ℕ
bitpos (parsing (ib c)) = c.bitpos
bitpos (parsing (ic c)) = c.bitpos
bitpos (constructing (ob c)) = c.bitpos
bitpos (constructing (oc c)) = c.bitpos

-- `iox::parse_binary`, `parse_text`, `construct_binary` and `construct_text`.
unfoldable pub parse_binary : List ℕ → ℕ → Ctx
parse_binary bytes size =
    parsing (ib (record { bitpos = 0; bitlimit = u32 (size * 8); bytes = bytes; scope_stack = [] }))

unfoldable pub parse_text : List ℕ → Ctx
parse_text text = parsing (
    ic (record {
      bitpos = 0;
      bitlimit = 8 * 1000000;
      scope_stack = [];
      parsed_text = text;
      parse_pos = text;
    }))

unfoldable pub construct_binary : List ℕ → ℕ → Ctx
construct_binary bytes size =
    constructing
      (ob (record { bitpos = 0; bitlimit = u32 (size * 8); bytes = bytes; scope_stack = [] }))

unfoldable pub construct_text : Ctx
construct_text =
    constructing (oc (record { bitpos = 0; bitlimit = 8 * 1000000; scope_stack = []; prod = [] }))

-- `ix::uint8`, `ix::uint16` and `ix::uint32`; the second reads 32 bits at a time.
unfoldable pub ix_uint8 : ℕ → Option Info → M ICtx ℕ
ix_uint8 bitsize info (ib c) = within ib (BinaryIn.uint8 bitsize c)
ix_uint8 bitsize info (ic c) = within ic ((TextIn.uint bitsize info >>= λ v. pure (u8 v)) c)

unfoldable pub ix_uint16 : ℕ → Option Info → M ICtx ℕ
ix_uint16 bitsize info (ib c) = within ib ((BinaryIn.uint32 bitsize >>= λ v. pure (u16 v)) c)
ix_uint16 bitsize info (ic c) = within ic ((TextIn.uint bitsize info >>= λ v. pure (u16 v)) c)

unfoldable pub ix_uint32 : ℕ → Option Info → M ICtx ℕ
ix_uint32 bitsize info (ib c) = within ib (BinaryIn.uint32 bitsize c)
ix_uint32 bitsize info (ic c) = within ic (TextIn.uint bitsize info c)

unfoldable pub ix_named_block_begin : ℕ → Option Info → M ICtx (Unit {0})
ix_named_block_begin bitsize info (ib c) =
    within ib ((BinaryIn.uint32 bitsize >>= λ length. BinaryIn.block_begin length info) c)
ix_named_block_begin bitsize info (ic c) =
    within ic ((TextIn.uint bitsize info >>= λ length. TextIn.block_begin length info) c)

unfoldable pub ix_named_block_end : M ICtx ℕ
ix_named_block_end (ib c) = within ib (BinaryIn.block_end c)
ix_named_block_end (ic c) = within ic (TextIn.block_end c)

unfoldable pub ix_block_size_left : M ICtx ℕ
ix_block_size_left (ib c) = ok (BinaryIn.block_size_left c, ib c)
ix_block_size_left (ic c) = within ic (TextIn.block_size_left c)

-- `ox::uint` for the three types of the value.
unfoldable pub ox_uint8 : ℕ → ℕ → Option Info → M OCtx (Unit {0})
ox_uint8 bitsize val info (ob c) = within ob (BinaryOut.uint8 bitsize val c)
ox_uint8 bitsize val info (oc c) = within oc (TextOut.uint bitsize val info c)

unfoldable pub ox_uint16 : ℕ → ℕ → Option Info → M OCtx (Unit {0})
ox_uint16 bitsize val info (ob c) = within ob (BinaryOut.uint16 bitsize val c)
ox_uint16 bitsize val info (oc c) = within oc (TextOut.uint bitsize val info c)

unfoldable pub ox_uint32 : ℕ → ℕ → Option Info → M OCtx (Unit {0})
ox_uint32 bitsize val info (ob c) = within ob (BinaryOut.uint32 bitsize val c)
ox_uint32 bitsize val info (oc c) = within oc (TextOut.uint bitsize val info c)

unfoldable pub ox_named_block_begin : ℕ → Option Info → M OCtx (Unit {0})
ox_named_block_begin bitsize info (ob c) = within ob (BinaryOut.named_block_begin bitsize info c)
ox_named_block_begin bitsize info (oc c) = within oc (TextOut.named_block_begin bitsize info c)

unfoldable pub ox_named_block_end : M OCtx ℕ
ox_named_block_end (ob c) = within ob (BinaryOut.named_block_end c)
ox_named_block_end (oc c) = within oc (TextOut.named_block_end c)

unfoldable pub ox_block_size_left : M OCtx ℕ
ox_block_size_left (ob c) = ok (BinaryOut.block_size_left c, ob c)
ox_block_size_left (oc c) = ok (TextOut.block_size_left c, oc c)

-- `iox::uint` on a variable of 8, 16 or 32 bits with the value `val`; the result is its new value.
abbrev keep {ℓ} : {A : Type ℓ} → A → Outcome (Unit {0} × OCtx) → Outcome (A × Ctx)
keep val r = bind r (λ (_, c). ok (val, constructing c))

unfoldable pub uint8 : ℕ → ℕ → Option Info → M Ctx ℕ
uint8 bitsize val info (parsing c) = within parsing (ix_uint8 bitsize info c)
uint8 bitsize val info (constructing c) = keep val (ox_uint8 bitsize val info c)

unfoldable pub uint16 : ℕ → ℕ → Option Info → M Ctx ℕ
uint16 bitsize val info (parsing c) = within parsing (ix_uint16 bitsize info c)
uint16 bitsize val info (constructing c) = keep val (ox_uint16 bitsize val info c)

unfoldable pub uint32 : ℕ → ℕ → Option Info → M Ctx ℕ
uint32 bitsize val info (parsing c) = within parsing (ix_uint32 bitsize info c)
uint32 bitsize val info (constructing c) = keep val (ox_uint32 bitsize val info c)

-- `iox::uint_req` for the three types.
abbrev require : ℕ → M ICtx ℕ → M ICtx (Unit {0})
require val read = read >>= λ v. throw_if (not (v == val)) required_value

unfoldable pub uint_req8 : ℕ → ℕ → Option Info → M Ctx (Unit {0})
uint_req8 bitsize val info (parsing c) = within parsing (require val (ix_uint8 bitsize info) c)
uint_req8 bitsize val info (constructing c) = within constructing (ox_uint8 bitsize val info c)

unfoldable pub uint_req16 : ℕ → ℕ → Option Info → M Ctx (Unit {0})
uint_req16 bitsize val info (parsing c) = within parsing (require val (ix_uint16 bitsize info) c)
uint_req16 bitsize val info (constructing c) = within constructing (ox_uint16 bitsize val info c)

unfoldable pub uint_req32 : ℕ → ℕ → Option Info → M Ctx (Unit {0})
uint_req32 bitsize val info (parsing c) = within parsing (require val (ix_uint32 bitsize info) c)
uint_req32 bitsize val info (constructing c) = within constructing (ox_uint32 bitsize val info c)

-- `iox::uint_req` of an `int`, which is not negative in any call.
unfoldable pub uint_req : ℕ → ℕ → Option Info → M Ctx (Unit {0})
uint_req bitsize val info =
    if leb bitsize 8
    then uint_req8 bitsize (u8 val) info
    else if leb bitsize 16
    then uint_req16 bitsize (u16 val) info
    else uint_req32 bitsize val info

unfoldable pub named_block_begin : ℕ → Option Info → M Ctx (Unit {0})
named_block_begin bitsize info (parsing c) = within parsing (ix_named_block_begin bitsize info c)
named_block_begin bitsize info (constructing c) =
    within constructing (ox_named_block_begin bitsize info c)

unfoldable pub named_block_end : M Ctx ℕ
named_block_end (parsing c) = within parsing (ix_named_block_end c)
named_block_end (constructing c) = within constructing (ox_named_block_end c)

unfoldable pub block_size_left : M Ctx ℕ
block_size_left (parsing c) = within parsing (ix_block_size_left c)
block_size_left (constructing c) = within constructing (ox_block_size_left c)
