-- ===== src/Si/Coding/Finish.antt =====
-- The end of `network_information_section::io`: the checksum, the length, and the checksum again, which
-- covers the length.
use mopa.Base.{
  IsBytes, ℕ, ◌+◌, ◌-◌, ◌*◌, ◌/◌, ◌%◌, ◌^◌, ◌<◌, ◌≤◌, ◌≡◌, refl, sym, ap, ap₂, ◌∙◌, arith, List,
  ◌∷◌, length, take, drop, false, true, le→ltb, le→leb, ==_iff, u16, sub32, slice, ok, Option,
}
use mopa.Crc.{dvb_crc32}
use mopa.Crc.Laws.{dvb_crc32-lt}
use mopa.Io.Info.{Info}
use mopa.Io.Stream.{bits_at}
use mopa.Io.Patches.{Patched, bits_at-Patched, bits_at-Patched_before, bits_at-Patched_behind}
use mopa.Io.BinaryIn
use mopa.Io.BinaryIn.{IbCtx, IbScope}
use mopa.Io.BinaryOut
use mopa.Io.BinaryOut.{ObCtx, ObScope}
use mopa.Io.Reading.{uint32-bits_at}
use mopa.Io.Writing.{uint32-Patched}
use mopa.Io.Blocks.{opened, block_end-block_begin, named_block_end-Patched}
use mopa.Io.Facade.{
  parsing, constructing, ib, ob, bitpos, uint32, ix_uint32, ox_uint32, named_block_end,
  ix_named_block_end, ox_named_block_end,
}
use mopa.Common.Checksum.{crc_io, crc_late_fix}
use mopa.Common.Characters.{take_eq}
use mopa.Si.Nit.{NetworkInformationSection}
use mopa.Si.Coding.Section.{finish}

-- The checksum of the bytes from `begin` up to `end`.
abbrev pub sum : List ℕ → ℕ → ℕ → ℕ
sum bytes begin end = dvb_crc32 (take ((end - begin) / 8) (drop (begin / 8) bytes))

slice-sum :
    (bytes : List ℕ) (begin end : ℕ)
    → begin ≤ end
    → end < 2 ^ 32
    → end ≤ 8 * length bytes
    → slice bytes (begin / 8) (sub32 end begin / 8)
      ≡ ok (take ((end - begin) / 8) (drop (begin / 8) bytes))
unfolding slice
slice-sum bytes begin end order word room =
    let size : sub32 end begin ≡ end - begin = omega arith in
    rw (size, le→leb (begin / 8 + (end - begin) / 8) (length bytes) (omega arith)) refl

-- The same bits have the same checksum.
pub sum_eq :
    (xs ys : List ℕ) (begin end : ℕ)
    → IsBytes xs
    → IsBytes ys
    → length xs ≡ length ys
    → begin % 8 ≡ 0
    → end % 8 ≡ 0
    → begin ≤ end
    → end ≤ 8 * length xs
    → bits_at xs begin (end - begin) ≡ bits_at ys begin (end - begin)
    → sum xs begin end ≡ sum ys begin end
sum_eq xs ys begin end px py len byte byte' order room same =
    let k : 8 * (begin / 8) ≡ begin = omega arith in
    let w : 8 * ((end - begin) / 8) ≡ end - begin = omega arith in
    ap dvb_crc32 (
      take_eq xs ys (begin / 8) ((end - begin) / 8) px py (omega arith) (omega arith)
        (rw (k, w) same))

-- A 32-bit field, written at the start of a byte.
module _ (val : ℕ) (fits : val < 2 ^ 32) where
  pub crc_written :
      (c : ObCtx)
      → IsBytes c.bytes
      → c.bitpos % 8 ≡ 0
      → c.bitpos + 32 ≤ c.bitlimit
      → c.bitlimit < 2 ^ 31
      → c.bitpos + 32 ≤ 8 * length c.bytes
      → (after : List ℕ) × (BinaryOut.uint32 32 val c
          ≡ ok (tt, record c { bitpos = c.bitpos + 32; bytes = after }))
        × Patched c.bytes after c.bitpos 32 val
  crc_written c valid aligned inside word room =
      let w =
        uint32-Patched c valid 32 val fits (omega arith) (omega arith) inside (omega arith)
          (omega arith) in
      (w.0, w.1 ∙ ap (λ p. ok (tt, record c { bitpos = p; bytes = w.0 })) (omega arith), w.2)

-- What the writer has done behind the content of the block `s`, whose length is at `len_pos`.
pub record Finished (c : ObCtx) (s : ObScope) (outer : List ObScope) (begin len : ℕ)
    (n : NetworkInformationSection) : Type 0 where
  pub after : List ℕ
  pub returned :
      finish begin false n (constructing (ob c))
      ≡ ok (
        record n { section_length = len; crc = sum after begin c.bitpos },
        constructing (
            ob (record c {
              bitpos = c.bitpos + 32;
              bitlimit = s.bitlimit_at_enter;
              bytes = after;
              scope_stack = outer;
            })),
      )
  pub same_length : length after ≡ length c.bytes
  pub after-IsBytes : IsBytes after
  pub front_kept :
      (q m : ℕ) → q + m ≤ s.position_for_write → bits_at after q m ≡ bits_at c.bytes q m
  pub content_kept :
      (q m : ℕ) → s.bitpos_at_enter ≤ q → q + m ≤ c.bitpos → bits_at after q m ≡ bits_at c.bytes q m
  pub counted : bits_at after s.position_for_write 12 ≡ len
  pub summed : bits_at after c.bitpos 32 ≡ sum after begin c.bitpos

-- The block is that of the section, from `begin` on, and has room for the checksum.
pub record CanFinish (c : ObCtx) (s : ObScope) (outer : List ObScope) (begin len : ℕ) : Type 0 where
  pub valid : IsBytes c.bytes
  pub stack : c.scope_stack ≡ s ∷ outer
  pub front : s.position_for_write + 12 ≡ s.bitpos_at_enter
  pub size : s.bitpos_at_enter + len * 8 ≡ c.bitpos + 32
  pub begin_byte : begin % 8 ≡ 0
  pub byte : c.bitpos % 8 ≡ 0
  pub half : s.position_for_write % 8 ≡ 4
  pub begins : begin ≤ s.position_for_write
  pub content : s.bitpos_at_enter ≤ c.bitpos
  pub short : len ≤ 1021
  pub inside : c.bitpos + 32 ≤ c.bitlimit
  pub outside : c.bitlimit ≤ s.bitlimit_at_enter
  pub word : s.bitlimit_at_enter < 2 ^ 31
  pub spare : c.bitpos + 32 + 24 ≤ 8 * length c.bytes

module _ (c : ObCtx) (s : ObScope) (outer : List ObScope) (begin len : ℕ)
    (n : NetworkInformationSection) (can : CanFinish c s outer begin len) where
  order : begin ≤ c.bitpos
  order = omega (arith, can.begins, can.front, can.content)

  module _ {first second third : List ℕ} {early : ℕ} (w1 : Patched c.bytes first c.bitpos 32 early)
      (w2 : Patched first second s.position_for_write 12 len)
      (w3 : Patched second third c.bitpos 32 (sum second begin c.bitpos)) where
    third_room : c.bitpos + 32 ≤ 8 * length second
    third_room = omega (arith, can.spare, w2.same_length, w1.same_length)

    second_room : s.position_for_write + 12 ≤ 8 * length first
    second_room = omega (arith, can.front, can.content, can.spare, w1.same_length)

    -- The last write does not change what it sums.
    sum_kept : sum third begin c.bitpos ≡ sum second begin c.bitpos
    sum_kept =
        sum_eq third second begin c.bitpos w3.after-IsBytes w2.after-IsBytes w3.same_length
          can.begin_byte can.byte order (omega (arith, third_room, w3.same_length))
          (bits_at-Patched_before w3 begin (c.bitpos - begin) (omega (arith, order)) third_room)

    -- The three writes, one after the other.
    finished :
        finish begin false n (constructing (ob c))
          ≡ ok (
            record n { section_length = len; crc = sum second begin c.bitpos },
            constructing (
                ob (record c {
                  bitpos = c.bitpos + 32;
                  bitlimit = s.bitlimit_at_enter;
                  bytes = third;
                  scope_stack = outer;
                })),
          )
        → Finished c s outer begin len n
    finished run = record {
      after = third;
      returned = rw sum_kept run;
      same_length = w3.same_length ∙ w2.same_length ∙ w1.same_length;
      after-IsBytes = w3.after-IsBytes;
      front_kept = λ q m h.
          bits_at-Patched_before w3 q m (omega (arith, can.front, can.content)) third_room
          ∙ bits_at-Patched_before w2 q m h second_room
          ∙ bits_at-Patched_before w1 q m (omega (arith, can.front, can.content))
              (omega (arith, can.spare));
      content_kept = λ q m h h'.
          bits_at-Patched_before w3 q m h' third_room
          ∙ bits_at-Patched_behind w2 q m (omega (arith, can.front))
              (omega (arith, can.spare, w1.same_length))
          ∙ bits_at-Patched_before w1 q m h' (omega (arith, can.spare));
      counted =
          bits_at-Patched_before w3 s.position_for_write 12 (omega (arith, can.front, can.content))
            third_room
          ∙ bits_at-Patched w2;
      summed = bits_at-Patched w3 ∙ sym sum_kept;
    }

  -- `finish` of the writer, where it can.
  pub finish-Finished : Finished c s outer begin len n
  unfolding crc_io crc_late_fix named_block_end ox_named_block_end uint32 ox_uint32 bitpos
  finish-Finished =
      let early = sum c.bytes begin c.bitpos in
      let (first, ran1, w1) =
        crc_written early (dvb_crc32-lt _) c can.valid can.byte can.inside
          (omega (arith, can.outside, can.word)) (omega (arith, can.spare)) in
      let (second, ran2, w2) =
        named_block_end-Patched (record c { bitpos = c.bitpos + 32; bytes = first }) s outer 12 len
          w1.after-IsBytes can.stack can.front can.size
          (omega (arith, can.inside, can.outside, can.word)) (omega arith)
          (omega (arith, can.short)) (omega (arith, can.half))
          (omega (arith, can.size, can.inside, can.outside)) (omega (arith, can.word))
          (omega (arith, can.front, can.content, can.spare, w1.same_length)) in
      let (third, ran3, w3) =
        crc_written (sum second begin c.bitpos) (dvb_crc32-lt _)
          (record c { bitlimit = s.bitlimit_at_enter; bytes = second; scope_stack = outer })
          w2.after-IsBytes can.byte (omega (arith, can.inside, can.outside)) can.word
          (omega (arith, can.spare, w2.same_length, w1.same_length)) in
      let u16_len : u16 len ≡ len = omega (arith, can.short) in
      finished w1 w2 w3 (
        rw
          (
            (==_iff (begin % 8) 0).1 can.begin_byte,
            (==_iff (c.bitpos % 8) 0).1 can.byte,
            slice-sum c.bytes begin c.bitpos order
                (omega (arith, can.inside, can.outside, can.word)) (omega (arith, can.spare)),
            ran1,
            ran2,
            (==_iff ((c.bitpos + 32) % 8) 0).1 (omega (arith, can.byte)),
            slice-sum second begin c.bitpos order (omega (arith, can.inside, can.outside, can.word))
                (omega (arith, can.spare, w2.same_length, w1.same_length)),
            ran3,
            u16_len,
            le→ltb 1021 len can.short,
          )
          refl)

-- The reader's end of the section, in the block of `len` bytes from `c` on: the checksum read is that of
-- the bytes from `begin` up to it.
module _ (info : Option Info) (c : IbCtx) (begin len pos : ℕ) (n : NetworkInformationSection) where
  pub finish_read :
      IsBytes c.bytes
      → c.bitpos % 8 ≡ 0
      → c.bitpos + len * 8 ≤ c.bitlimit
      → c.bitlimit < 2 ^ 31
      → pos + 32 ≡ c.bitpos + len * 8
      → begin % 8 ≡ 0
      → begin ≤ c.bitpos
      → c.bitpos ≤ pos
      → len ≤ 1021
      → c.bitpos + len * 8 + 24 ≤ 8 * length c.bytes
      → bits_at c.bytes pos 32 ≡ sum c.bytes begin pos
      → finish begin true n (parsing (ib (record (opened info len c) { bitpos = pos })))
        ≡ ok (
          record n { section_length = len; crc = sum c.bytes begin pos },
          parsing (ib (record c { bitpos = c.bitpos + len * 8 })),
        )
  unfolding crc_io crc_late_fix named_block_end ix_named_block_end uint32 ix_uint32 bitpos
  finish_read valid byte inside word end begin_byte order content short spare is =
      let r : IbCtx = record (opened info len c) { bitpos = pos } in
      let read : BinaryIn.uint32 32 r
          ≡ ok (sum c.bytes begin pos, record (opened info len c) { bitpos = c.bitpos + len * 8 }) =
        uint32-bits_at r valid 32 (omega arith) (omega arith) (omega arith) (omega arith)
          (omega arith)
        ∙ ap₂ (λ v p. ok (v, record (opened info len c) { bitpos = p })) is (omega arith) in
      let close = block_end-block_begin info len c byte inside (omega arith) in
      let u16_len : u16 len ≡ len = omega arith in
      rw
        (
          (==_iff (begin % 8) 0).1 begin_byte,
          (==_iff (pos % 8) 0).1 (omega arith),
          slice-sum c.bytes begin pos (omega arith) (omega arith) (omega arith),
          read,
          (==_iff (sum c.bytes begin pos) (sum c.bytes begin pos)).1 refl,
          close.1,
          (==_iff ((c.bitpos + len * 8) % 8) 0).1 (omega arith),
          u16_len,
        )
        refl
