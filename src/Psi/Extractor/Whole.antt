-- ===== src/Psi/Extractor/Whole.antt =====
-- Sections that follow each other without a gap.
use mopa.Base.{
  ℕ, suc, ◌+◌, ◌<◌, ◌≤◌, ◌≡◌, refl, sym, ap, ◌∙◌, arith, List, [], ◌∷◌, ◌++◌, true, false, length,
  drop, length-append, append_assoc, append-nil, take-append, drop-append, ok, ltb, ◌==◌, ◌||◌,
  bit_and, if◌then◌else◌, le→ltb,
}
use mopa.Psi.Extractor.{
  wait_start, wait_more, Extractor, capacity, Sections, is_stuffing, section_size, emitting,
  more_sections, gather, Memcpy, to_front, collect, reset, skip_pointer, skip_adaptation, ts_packet,
  pusi_of, afc_of, cc_of,
}
use mopa.Psi.Extractor.Safety.{size_bounds}
use mopa.Psi.Extractor.Resuming.{gather_fits}
use mopa.Psi.Extractor.Rounds.{
  following, following-nil, following-cons, section_size-append, is_stuffing-append,
  more_sections_step, more_sections_fuel,
}

-- A section within the limit: its length field says how long it is.
pub record IsSection (limit : ℕ) (section : List ℕ) : Type 0 where
  pub table_id : is_stuffing section ≡ false
  pub complete : section_size section ≡ length section
  pub small : length section ≤ limit

pub data AllSections (limit : ℕ) : Sections → Type 0 where
  none_left : AllSections limit []
  one_more :
      {s : List ℕ} {ss : Sections}
      → IsSection limit s
      → AllSections limit ss
      → AllSections limit (s ∷ ss)

unfoldable pub join : Sections → List ℕ
join [] = []
join (s ∷ ss) = s ++ join ss

-- The length read last.
unfoldable pub last_length : ℕ → Sections → ℕ
last_length n [] = n
last_length n (s ∷ ss) = last_length (length s) ss

pub section_first :
    (s rest : List ℕ) (c : Extractor)
    → c.callback_set ≡ true
    → IsSection c.max_section_size s
    → 0 < length rest
    → more_sections (suc (length (s ++ rest))) (s ++ rest) c
      ≡ emitting s
          (more_sections (suc (length rest)) rest (record c { dvb_section_length = length s }))
section_first s rest c set one some_byte =
    let some_size : 3 ≤ length s = omega (arith, size_bounds s, one.complete) in
    let size : section_size (s ++ rest) ≡ length s =
      section_size-append s rest some_size ∙ one.complete in
    more_sections_step (length (s ++ rest)) (s ++ rest) c
      (is_stuffing-append s rest some_size ∙ one.table_id) (omega (arith, length-append s rest))
      (omega (arith, one.small)) (omega (arith, length-append s rest)) set
    ∙ rw (size, take-append s rest, drop-append s rest)
        (ap (emitting s) (
          more_sections_fuel _ (suc (length rest)) rest _ c.state c.content
            (omega (arith, length-append s rest)) (omega arith)))

-- With the callback set, all complete sections within the limit that are in front of other bytes are
-- handed to the callback, in order, and the loop goes on with these bytes.
pub more_sections-join :
    (sections : Sections) (tail : List ℕ) (c : Extractor)
    → c.callback_set ≡ true
    → AllSections c.max_section_size sections
    → 0 < length tail
    → more_sections (suc (length (join sections ++ tail))) (join sections ++ tail) c
      ≡ following sections (
          more_sections
            (suc (length tail))
            tail
            (record c { dvb_section_length = last_length c.dvb_section_length sections }))
unfolding join last_length
more_sections-join [] tail c set all some_byte = sym (following-nil _)
more_sections-join (s ∷ ss) tail c set (one_more one all) some_byte =
    rw (append_assoc s (join ss) tail) (
      section_first s (join ss ++ tail) c set one (omega (arith, length-append (join ss) tail))
      ∙ ap (emitting s) (more_sections-join ss tail _ set all some_byte)
      ∙ following-cons s ss _)

pub stuffing_stops :
    (fuel : ℕ) (stuffing : List ℕ) (c : Extractor)
    → more_sections (suc fuel) (255 ∷ stuffing) c
      ≡ ok ([], record c { content = 255 ∷ stuffing; state = wait_start })
unfolding more_sections
stuffing_stops fuel stuffing c = refl

-- With the callback set and no bytes kept from before: complete sections within the limit that
-- stuffing follows, which fit the buffer, are handed to the callback, each once and in order, and the
-- next packet has to start sections again.
pub collect-join :
    ⦃m : Memcpy⦄ (sections : Sections) (stuffing : List ℕ) (c : Extractor)
    → c.content ≡ []
    → c.callback_set ≡ true
    → AllSections c.max_section_size sections
    → length (join sections ++ 255 ∷ stuffing) ≤ capacity c
    → collect (join sections ++ 255 ∷ stuffing) c
      ≡ ok (
        sections,
        record c {
          dvb_section_length = last_length c.dvb_section_length sections;
          content = 255 ∷ stuffing;
          state = wait_start;
        },
      )
unfolding collect to_front
collect-join sections stuffing c empty set all fits =
    let bytes = join sections ++ 255 ∷ stuffing in
    let stopped : Extractor = record c {
      dvb_section_length = last_length c.dvb_section_length sections;
      content = 255 ∷ stuffing;
      state = wait_start;
    } in
    let gathered : gather bytes (record c { content = [] }) ≡ ok (sections, stopped) =
      gather_fits bytes (record c { content = [] }) fits
      ∙ more_sections-join sections (255 ∷ stuffing) (record c { content = [] }) set all
          (omega arith)
      ∙ ap (following sections) (stuffing_stops _ stuffing _)
      ∙ ap (λ ss. ok (ss, stopped)) (append-nil sections) in
    ap (λ old. collect bytes (record c { content = old })) empty ∙ rw gathered refl

pub no_adaptation : (a : ℕ) → a < 2 → ((a == 2) || (a == 3)) ≡ false
no_adaptation a h = ground arith

one_more_byte : (n : ℕ) → 1 + n ≡ suc n
one_more_byte n = omega arith

pub pointer_skips :
    ⦃m : Memcpy⦄ (skipped rest : List ℕ) (c : Extractor)
    → c.state ≡ wait_start
    → skip_pointer true (length skipped ∷ skipped ++ rest) c ≡ collect rest c
unfolding skip_pointer
pointer_skips skipped rest c start =
    ap
      (λ s. elim s [
        | wait_start ↦
            if ltb (length bytes) (1 + length skipped)
            then reset c
            else collect (drop (1 + length skipped) bytes) c
        | wait_more ↦ collect (skipped ++ rest) c
      ])
      start
    ∙ rw (le→ltb (length bytes) (1 + length skipped) (omega (arith, length-append skipped rest))) (
        ap (λ r. collect r c)
          (ap (λ n. drop n bytes) (one_more_byte (length skipped)) ∙ drop-append skipped rest))
  where
    bytes : List ℕ
    bytes = length skipped ∷ skipped ++ rest

pub header_read :
    ⦃m : Memcpy⦄ (h0 h1 h2 h3 : ℕ) (rest : List ℕ) (c : Extractor)
    → pusi_of (h0 ∷ h1 ∷ h2 ∷ h3 ∷ []) ≡ true
    → afc_of (h0 ∷ h1 ∷ h2 ∷ h3 ∷ []) < 2
    → c.state ≡ wait_start
    → ts_packet (h0 ∷ h1 ∷ h2 ∷ h3 ∷ rest) c
      ≡ skip_pointer true rest (record c { content = []; cc = bit_and h3 15 })
unfolding ts_packet skip_adaptation
header_read h0 h1 h2 h3 rest c pusi afc start =
    rw (start, pusi, no_adaptation (afc_of (h0 ∷ h1 ∷ h2 ∷ h3 ∷ [])) afc)

-- A packet that starts sections, has no adaptation field and comes while no section is open, with
-- the callback set: the bytes the pointer field skips are dropped, and the complete sections within
-- the limit behind them, which stuffing follows, are handed to the callback, each once and in order.
pub ts_packet-join :
    ⦃m : Memcpy⦄ (header skipped stuffing : List ℕ) (sections : Sections) (c : Extractor)
    → length header ≡ 4
    → pusi_of header ≡ true
    → afc_of header < 2
    → c.state ≡ wait_start
    → c.callback_set ≡ true
    → AllSections c.max_section_size sections
    → length skipped + length (join sections ++ 255 ∷ stuffing) ≤ 183
    → ts_packet (header ++ length skipped ∷ skipped ++ (join sections ++ 255 ∷ stuffing)) c
      ≡ ok (
        sections,
        record c {
          dvb_section_length = last_length c.dvb_section_length sections;
          content = 255 ∷ stuffing;
          state = wait_start;
          cc = cc_of header;
        },
      )
ts_packet-join (h0 ∷ h1 ∷ h2 ∷ h3 ∷ []) skipped stuffing sections c len pusi afc start set all
      fits =
    header_read h0 h1 h2 h3 _ c pusi afc start
    ∙ pointer_skips skipped (join sections ++ 255 ∷ stuffing) _ start
    ∙ collect-join sections stuffing _ refl set all (omega arith)
ts_packet-join [] skipped stuffing sections c len pusi afc start set all fits = absurd (omega arith)
ts_packet-join (h0 ∷ []) skipped stuffing sections c len pusi afc start set all fits =
    absurd (omega arith)
ts_packet-join (h0 ∷ h1 ∷ []) skipped stuffing sections c len pusi afc start set all fits =
    absurd (omega arith)
ts_packet-join (h0 ∷ h1 ∷ h2 ∷ []) skipped stuffing sections c len pusi afc start set all fits =
    absurd (omega arith)
ts_packet-join (h0 ∷ h1 ∷ h2 ∷ h3 ∷ h4 ∷ hs) skipped stuffing sections c len pusi afc start set all
      fits =
    absurd (omega arith)
