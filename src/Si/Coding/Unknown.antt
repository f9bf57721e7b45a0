-- ===== src/Si/Coding/Unknown.antt =====
-- `unknown_descriptor::io`: what it has constructed, parsed again.
use mathlib.Core.Path.{subst}
use mopa.Base.{
  IsBytes, ℕ, ◌+◌, ◌*◌, ◌^◌, ◌<◌, ◌≡◌, ◌≢◌, refl, sym, arith, List, [], ◌∷◌, length, false, ◌==◌,
  lt→ltb, M, ◌>>=◌, pure,
}
use mopa.Io.Info.{dvb_info}
use mopa.Io.Facade.{Ctx, uint8, is_parsing}
use mopa.Io.Coding.{Codes, Codes-then, Codes-bind, Leads-none}
use mopa.Io.Coding.Fields.{uint8-Codes}
use mopa.Common.Characters.{fixed_string-Codes}
use mopa.Si.Descriptors.{
  UnknownDescriptor, Descriptor, unknown, unknown_descriptor_io, content_io, tag_io, descriptor_io,
  descriptor_factory, read_descriptor,
}
use mopa.Si.Coding.{tagged-Codes}

-- The tag is a byte and not of another class, and the length is that of the content.
pub record UnknownFits (d : UnknownDescriptor) : Type 0 where
  pub byte : d.tag < 2 ^ 8
  pub no_service_list : d.tag ≢ 0x41
  pub no_cable_delivery_system : d.tag ≢ 0x44
  pub no_adaptation_field_data : d.tag ≢ 0x70
  pub counted : d.length ≡ length d.content
  pub short : d.length < 2 ^ 8
  pub chars : IsBytes d.content

content-Codes :
    (str : List ℕ)
    → IsBytes str
    → length str < 2 ^ 8
    → Codes 0 false
        (content_io (length str) str)
        str
        (content_io (length str) [])
        str
        (8 * length str)
unfolding content_io
content-Codes [] chars short = Leads-none false (pure []) (pure [])
content-Codes (x ∷ xs) chars short =
    rw (lt→ltb 0 (length (x ∷ xs)) (omega arith))
      (fixed_string-Codes (x ∷ xs) chars [] (dvb_info "data") short)

-- What `io` does behind the tag.
abbrev behind_tag : UnknownDescriptor → ℕ → M Ctx UnknownDescriptor
behind_tag d tag = uint8 8 d.length (dvb_info "length") >>= λ len.
    content_io len d.content >>= λ content.
    pure (record { tag = tag; length = len; content = content })

abbrev new_unknown : UnknownDescriptor
new_unknown = record { tag = 0; length = 0; content = [] }

module _ (d : UnknownDescriptor) (fits : UnknownFits d) where
  behind_tag-Codes :
      Codes 0 false
        (behind_tag d d.tag)
        d
        (behind_tag new_unknown d.tag)
        d
        (8 + 8 * length d.content)
  behind_tag-Codes =
      Codes-then _ _
        (uint8-Codes d.length 0 (dvb_info "length") fits.short (omega arith) (omega arith)) refl
        (Codes-bind _ _ (
          subst
            (λ l.
              Codes 0 false (content_io l d.content) d.content (content_io l []) d.content
                (8 * length d.content))
            (sym fits.counted)
            (content-Codes d.content fits.chars (omega (arith, fits.short, fits.counted)))))

-- A descriptor of no known class: it is written and read back as it is.
pub unknown-Codes :
    (d : UnknownDescriptor) (fresh : Descriptor)
    → UnknownFits d
    → Codes 0 false
        (descriptor_io (unknown d))
        (unknown d)
        (read_descriptor fresh)
        (unknown d)
        (8 + (8 + 8 * length d.content))
unfolding descriptor_io unknown_descriptor_io tag_io is_parsing descriptor_factory
unknown-Codes d fresh fits =
    tagged-Codes unknown (unknown_descriptor_io d) (behind_tag d) (behind_tag new_unknown) d.tag
      fresh fits.byte (λ c. refl)
      (λ r.
        rw
          (
            other d.tag 0x41 fits.no_service_list,
            other d.tag 0x44 fits.no_cable_delivery_system,
            other d.tag 0x70 fits.no_adaptation_field_data,
          )
          refl)
      (behind_tag-Codes d fits)
  where
    other : (a b : ℕ) → a ≢ b → (a == b) ≡ false
    other a b h = ground arith
