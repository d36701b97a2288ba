-- ===== src/Memory/Outcome.antt =====
-- How the operations of the memory system end.
use besm.Prelude.{Option, none, some}

-- A value, `UnalignedAddressError`, `InvalidAddressError`, `std::invalid_argument`,
-- `MappingIntersection`, `std::bad_alloc`, or an access through a null pointer, which C++ leaves
-- undefined.
pub data Outcome {ℓ} (A : Type ℓ) : Type ℓ where
  done : A → Outcome A
  unaligned : Outcome A
  invalid_address : Outcome A
  invalid_argument : Outcome A
  mapping_intersection : Outcome A
  bad_alloc : Outcome A
  undefined : Outcome A

infixl 20 ◌>>=◌
abbrev pub ◌>>=◌ {ℓ ℓ'} : {A : Type ℓ} {B : Type ℓ'} → Outcome A → (A → Outcome B) → Outcome B
done a >>= f = f a
unaligned >>= f = unaligned
invalid_address >>= f = invalid_address
invalid_argument >>= f = invalid_argument
mapping_intersection >>= f = mapping_intersection
bad_alloc >>= f = bad_alloc
undefined >>= f = undefined

-- What is left when the exception is not told apart from the others.
abbrev pub result {ℓ} : {A : Type ℓ} → Outcome A → Option A
result (done a) = some a
result _ = none
