-- ===== src/Psi/Transport/Parts.antt =====
-- Packets given to `psi_extractor::ts_packet` in two parts.
use mopa.Base.{
  ◌≡◌, refl, sym, ap, ◌∙◌, [], ◌∷◌, ◌++◌, append_assoc, Outcome, ok, throw, fault, out_of_fuel,
  bind,
}
use mopa.Psi.Extractor.{Memcpy, Extractor, Sections, ts_packet}
use mopa.Psi.Extractor.Rounds.{following, following-nil}
use mopa.Psi.Packetizer.{Packets}
use mopa.Psi.Transport.{receive}

following_more :
    (s m : Sections) (r : Outcome (Sections × Extractor))
    → following s (following m r) ≡ following (s ++ m) r
following_more s m (ok (x, d)) = ap (λ y. ok (y, d)) (sym (append_assoc s m x))
following_more s m (throw e) = refl
following_more s m fault = refl
following_more s m out_of_fuel = refl

-- The packets `qs`, after a call that returned `r`.
unfoldable pub then_receive :
    ⦃m : Memcpy⦄ → Packets → Outcome (Sections × Extractor) → Outcome (Sections × Extractor)
then_receive qs r = bind r λ (first, d). following first (receive qs d)

followed_by :
    ⦃m : Memcpy⦄ (s : Sections) (qs : Packets) (r : Outcome (Sections × Extractor))
    → following s (then_receive qs r) ≡ then_receive qs (following s r)
unfolding then_receive
followed_by s qs (ok (m, d)) = following_more s m (receive qs d)
followed_by s qs (throw e) = refl
followed_by s qs fault = refl
followed_by s qs out_of_fuel = refl

one_first :
    ⦃m : Memcpy⦄ (qs : Packets) (f g : Extractor → Outcome (Sections × Extractor))
    (r : Outcome (Sections × Extractor))
    → ((d : Extractor) → f d ≡ then_receive qs (g d))
    → bind r (λ (s, d). following s (f d)) ≡ then_receive qs (bind r (λ (s, d). following s (g d)))
unfolding then_receive
one_first qs f g (ok (s, d)) h = ap (following s) (h d) ∙ followed_by s qs (g d)
one_first qs f g (throw e) h = refl
one_first qs f g fault h = refl
one_first qs f g out_of_fuel h = refl

pub receive-append :
    ⦃m : Memcpy⦄ (ps qs : Packets) (c : Extractor)
    → receive (ps ++ qs) c ≡ then_receive qs (receive ps c)
unfolding receive then_receive
receive-append [] qs c = sym (following-nil (receive qs c))
receive-append (p ∷ ps) qs c =
    one_first qs (receive (ps ++ qs)) (receive ps) (ts_packet p c) (receive-append ps qs)
