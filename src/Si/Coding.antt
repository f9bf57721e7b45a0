-- ===== src/Si/Coding.antt =====
-- What `descriptor::io` and its overrides have constructed in the binary form, parsed by them again.
pub mod Cable
pub mod ServiceList
pub mod Unknown
pub mod Lists
pub mod Loops
pub mod Section
pub mod Finish
pub mod Nit
use mopa.Base.{
  ℕ, ◌+◌, ◌^◌, ◌<◌, ◌≡◌, refl, ap, ◌∙◌, arith, false, Outcome, ok, throw, fault, out_of_fuel, bind,
  M, ◌>>=◌, pure,
}
use mopa.Io.Info.{dvb_info}
use mopa.Io.BinaryIn.{IbCtx}
use mopa.Io.BinaryOut.{ObCtx}
use mopa.Io.Facade.{Ctx, parsing, constructing, ib, ob, uint8}
use mopa.Io.Coding.{Codes, Codes-then, Codes-bind, Codes-write_as, Codes-read_as}
use mopa.Io.Coding.Fields.{uint8-Codes}
use mopa.Si.Descriptors.{Descriptor, descriptor_io, descriptor_factory, read_descriptor}

bind_assoc :
    {A B C : Type 0} (r : Outcome A) (f : A → Outcome B) (g : B → Outcome C)
    → bind (bind r f) g ≡ bind r (λ a. bind (f a) g)
bind_assoc (ok a) f g = refl
bind_assoc (throw e) f g = refl
bind_assoc fault f g = refl
bind_assoc out_of_fuel f g = refl

-- A descriptor behind its tag: the writer writes the tag, and the reader has read it ahead.
pub tagged-Codes :
    {X : Type 0} {n : ℕ} {x : X} (make : X → Descriptor) (io : M Ctx X) (write read : ℕ → M Ctx X)
    (tag : ℕ) (fresh : Descriptor)
    → tag < 2 ^ 8
    → ((c : ObCtx)
        → io (constructing (ob c)) ≡ (uint8 8 tag (dvb_info "tag") >>= write) (constructing (ob c)))
    → ((r : IbCtx)
        → descriptor_io (descriptor_factory tag) (parsing (ib r))
          ≡ (read tag >>= λ e. pure (make e)) (parsing (ib r)))
    → Codes 0 false (write tag) x (read tag) x n
    → Codes 0 false (io >>= λ e. pure (make e)) (make x) (read_descriptor fresh) (make x) (8 + n)
unfolding read_descriptor
tagged-Codes make io write read tag fresh byte writes reads codes =
    Codes-write_as (uint8 8 tag (dvb_info "tag") >>= λ t. write t >>= λ e. pure (make e))
      (Codes-then _ _ (uint8-Codes tag 0 (dvb_info "tag") byte (omega arith) (omega arith)) refl (
        Codes-read_as (read tag >>= λ e. pure (make e))
          (Codes-bind (λ e. pure (make e)) (λ e. pure (make e)) codes) λ after c r found. reads r))
      λ c.
        ap (λ o. bind o (λ (e, s). ok (make e, s))) (writes c)
        ∙ bind_assoc (uint8 8 tag (dvb_info "tag") (constructing (ob c))) _ _
