-- ===== src/Examples/Transport.antt =====
-- Runs of a packetizer and an extractor at the two ends of a stream.
use mopa.Base.{ℕ, ◌≡◌, refl, arith, List, [], ◌∷◌, true, false, ok, replicate}
use mopa.Psi.Extractor.{Extractor, Sections, wait_start, section_size}
use mopa.Examples.Copies.{zeroing, zeroing_in_place}
use mopa.Psi.Transport.Lengths.{IsSent, AllSent, none_sent, one_sent}
use mopa.Psi.Packetizer.{Packetizer}
use mopa.Psi.Transport.{relay}
use mopa.Psi.Transport.Link.{Fits}
use mopa.Psi.Transport.RoundTrip.{relay_lem}

abbrev sender : Packetizer (Unit {0})
sender = record {
  pid = 0x1ff0;
  adaptation_ctx = tt;
  cc = 15;
  packet = replicate 188 0;
  pusi = false;
  payload_start = 0;
  payload_end = 0;
}

abbrev receiver : Extractor
receiver = record {
  max_section_size = 1024;
  callback_set = true;
  dvb_section_length = 0;
  state = wait_start;
  content = [];
  cc = 3;
}

-- More than one packet holds.
abbrev long_section : List ℕ
long_section = 0x42 ∷ 0xf1 ∷ 44 ∷ replicate 300 7

-- One byte more than a packet holds behind its pointer field.
abbrev short_section : List ℕ
short_section = 0x46 ∷ 0xf0 ∷ 181 ∷ replicate 181 9

abbrev three_sections : Sections
three_sections = short_section ∷ long_section ∷ short_section ∷ []

short_section-IsSent : IsSent 1024 short_section
unfolding section_size
short_section-IsSent = record {
  table_id = refl;
  complete = refl;
  small = omega arith;
  long = omega arith;
}

long_section-IsSent : IsSent 1024 long_section
unfolding section_size
long_section-IsSent = record {
  table_id = refl;
  complete = refl;
  small = omega arith;
  long = omega arith;
}

three_sections-AllSent : AllSent 1024 three_sections
three_sections-AllSent =
    one_sent short_section-IsSent
      (one_sent long_section-IsSent (one_sent short_section-IsSent none_sent))

sender-Fits : Fits sender
sender-Fits = record { size = refl; pid_fits = omega arith; cc_fits = omega arith }

relay_lem_example : relay three_sections sender receiver ≡ ok three_sections
relay_lem_example =
    relay_lem three_sections sender receiver sender-Fits refl refl refl refl three_sections-AllSent
