-- ===== src/Base/Effects.antt =====
-- What a call of the library does: it returns, throws a `mopa::Exception`, or leaves the memory that
-- it was given. The message of an exception is reduced to the `throw` statement that it comes from.
use mathlib.Core.Bool.{Bool, true, false}

pub data Error : Type 0 where
  value_exceeds_bits name_expected colon_expected value_exceeds_32_bit required_value : Error
  bits_left spans_five_bytes : Error
  not_byte_aligned block_exceeds_available unmatched_block_end bits_remaining : Error
  length_not_byte_aligned : Error
  string_not_aligned illegal_char value_too_big string_too_long string_no_room : Error
  string_wrong_length : Error
  crc_block_not_aligned crc_not_aligned crc_mismatch table_too_big : Error

-- `fault` is undefined behaviour: an access outside a buffer, a null pointer, `back()` of an empty
-- vector. `out_of_fuel` has no counterpart in the program.
pub data Outcome {ℓ} (A : Type ℓ) : Type ℓ where
  ok : A → Outcome A
  throw : Error → Outcome A
  fault out_of_fuel : Outcome A

abbrev pub bind {ℓ κ} : {A : Type ℓ} {B : Type κ} → Outcome A → (A → Outcome B) → Outcome B
bind (ok a) f = f a
bind (throw e) f = throw e
bind fault f = fault
bind out_of_fuel f = out_of_fuel

-- An operation on a context of type `S`.
abbrev pub M {ℓ κ} : Type ℓ → Type κ → Type (ℓ ⊔ κ)
M S A = S → Outcome (A × S)

module _ {ℓ} {S : Type ℓ} where
  infixl 1 ◌>>=◌ ◌>>◌
  abbrev pub ◌>>=◌ {κ μ} : {A : Type κ} {B : Type μ} → M S A → (A → M S B) → M S B
  ◌>>=◌ m f s = bind (m s) (λ (a, s'). f a s')

  abbrev pub ◌>>◌ {κ μ} : {A : Type κ} {B : Type μ} → M S A → M S B → M S B
  m >> k = m >>= λ _. k

  abbrev pub pure {κ} : {A : Type κ} → A → M S A
  pure a s = ok (a, s)

  abbrev pub get : M S S
  get s = ok (s, s)

  abbrev pub modify : (S → S) → M S (Unit {0})
  modify f s = ok (tt, f s)

  -- `if (test) throw Exception(...)`
  abbrev pub throw_if : Bool → Error → M S (Unit {0})
  throw_if true e s = throw e
  throw_if false e s = ok (tt, s)

-- An operation on a part of a state.
abbrev pub within {ℓ κ μ} :
    {S : Type ℓ} {T : Type κ} {A : Type μ} → (S → T) → Outcome (A × S) → Outcome (A × T)
within inj r = bind r (λ (a, s). ok (a, inj s))
