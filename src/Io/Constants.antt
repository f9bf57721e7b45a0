-- ===== src/Io/Constants.antt =====
-- `iox::uint_req`: fields that have one value.
use mopa.Base.{
  IsBytes, ℕ, ◌+◌, ◌*◌, ◌^◌, ◌<◌, ◌≤◌, ◌≡◌, ◌≢◌, ◌⊎◌, inl, inr, refl, arith, length, ◌==◌, ==_iff,
  le→leb, u8, Option, ok, throw, required_value, false,
}
use native.Mathlib.Decide.{ℕ_discrete}
use mopa.Io.Info.{Info}
use mopa.Io.BinaryIn.{IbCtx}
use mopa.Io.Facade.{parsing, ib, uint_req, uint_req8, ix_uint8}
use mopa.Io.Fetching.{moved}
use mopa.Io.Reading.{uint8-bits_at}
use mopa.Io.Stream.{bits_at}

differs : (a b : ℕ) → a ≢ b → (a == b) ≡ false
differs a b h = ground arith

-- When the binary form is parsed, `iox::uint_req` of 1 to 8 bits and a value below 256, with the bits
-- within the limit and the buffer of bytes: if the bits of the stream have the value, it moves past
-- them; if not, it throws.
pub uint_req-bits_at :
    (c : IbCtx) (info : Option Info) (n val : ℕ)
    → IsBytes c.bytes
    → 0 < n
    → n ≤ 8
    → val < 2 ^ 8
    → c.bitpos + n ≤ c.bitlimit
    → c.bitlimit < 2 ^ 32
    → c.bitlimit ≤ 8 * length c.bytes
    → ((bits_at c.bytes c.bitpos n ≡ val)
        × (uint_req n val info (parsing (ib c)) ≡ ok (tt, parsing (ib (moved c n)))))
      ⊎ ((bits_at c.bytes c.bitpos n ≢ val)
          × (uint_req n val info (parsing (ib c)) ≡ throw required_value))
unfolding uint_req uint_req8 ix_uint8
uint_req-bits_at c info n val valid some_bit small fits inside word limit =
    let read = uint8-bits_at c valid n some_bit small inside word limit in
    let word8 : u8 val ≡ val = omega arith in
    elim (ℕ_discrete (bits_at c.bytes c.bitpos n) val) [
      | yes same ↦ inl (
        same,
        rw (le→leb n 8 small, read, word8, (==_iff (bits_at c.bytes c.bitpos n) val).1 same) refl,
      )
      | no ne ↦
          inr (
            ne,
            rw (le→leb n 8 small, read, word8, differs (bits_at c.bytes c.bitpos n) val ne) refl,
          )
    ]
