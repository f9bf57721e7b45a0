-- ===== src/Common/Checksum.antt =====
-- src/commontypes.cpp `crc_io` and `crc_late_fix`: the checksum of the bytes since `started_at`.
use mopa.Base.{ℕ, ◌/◌, ◌%◌, Option, List, not, ◌==◌, sub32, slice}
use mopa.Base.{
  Outcome, ok, crc_block_not_aligned, crc_not_aligned, crc_mismatch, bind, M, ◌>>=◌, ◌>>◌, pure,
  throw_if,
}
use mopa.Crc.{dvb_crc32}
use mopa.Io.Info.{Info}
use mopa.Io.BinaryOut
use mopa.Io.Facade.{Ctx, parsing, constructing, ib, ic, ob, oc, bitpos, uint32}

-- `dvb_crc32(data+started_at/8,(end-started_at)/8)`
unfoldable pub checksum : List ℕ → ℕ → ℕ → Outcome ℕ
unfolding slice
checksum bytes started_at end =
    bind (slice bytes (started_at / 8) (sub32 end started_at / 8)) λ block. ok (dvb_crc32 block)

checked_crc : ℕ → ℕ → Option Info → M Ctx ℕ
checked_crc started_at crc info (parsing (ib c)) =
    bind (checksum c.bytes started_at c.bitpos) λ calculated.
      (uint32 32 crc info >>= λ v. throw_if (not (calculated == v)) crc_mismatch >> pure v)
        (parsing (ib c))
checked_crc started_at crc info (constructing (ob c)) =
    bind (checksum c.bytes started_at c.bitpos)
      λ calculated. uint32 32 calculated info (constructing (ob c))
checked_crc started_at crc info (parsing (ic c)) = uint32 32 crc info (parsing (ic c))
checked_crc started_at crc info (constructing (oc c)) = uint32 32 crc info (constructing (oc c))

-- The result is the value of the `crc` variable.
unfoldable pub crc_io : ℕ → ℕ → Option Info → M Ctx ℕ
unfolding checked_crc checksum
crc_io started_at crc info x =
    let run : M Ctx ℕ = do
      throw_if (not (started_at % 8 == 0)) crc_block_not_aligned
      throw_if (not (bitpos x % 8 == 0)) crc_not_aligned
      checked_crc started_at crc info
    in run x

late_crc : ℕ → ℕ → ℕ → M Ctx ℕ
late_crc started_at crc_pos crc (constructing (ob c)) =
    bind (checksum c.bytes started_at crc_pos) λ calculated.
      bind (BinaryOut.uint32 32 calculated (record c { bitpos = crc_pos }))
        λ (_, d). ok (calculated, constructing (ob (record d { bitpos = c.bitpos })))
late_crc started_at crc_pos crc (constructing (oc c)) = ok (crc, constructing (oc c))
late_crc started_at crc_pos crc (parsing c) = ok (crc, parsing c)

unfoldable pub crc_late_fix : ℕ → ℕ → ℕ → M Ctx ℕ
unfolding late_crc checksum
crc_late_fix started_at crc_pos crc x =
    let run : M Ctx ℕ = do
      throw_if (not (started_at % 8 == 0)) crc_block_not_aligned
      throw_if (not (bitpos x % 8 == 0)) crc_not_aligned
      late_crc started_at crc_pos crc
    in run x
