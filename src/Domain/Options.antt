-- ===== src/Domain/Options.antt =====
-- Which options a new domain may have.
use Prim.Native.Nat.{bit_and}
use secure_rewind_and_discar.Base.{
  ℕ, ◌+◌, ◌*◌, ◌/◌, ◌%◌, ◌≡◌, Bool, ◌&&◌, ◌||◌, arith, if◌then◌else◌,
}
use secure_rewind_and_discar.Base.Bits.{and_bit, bit_and-zero, and_pair_clear}
use secure_rewind_and_discar.Base.Int.{pos}
use secure_rewind_and_discar.Codes.{
  sdrad_error_wrong_config, sdrad_execution_domain, sdrad_data_domain, sdrad_isolated_domain,
  sdrad_nonisolated_domain, sdrad_return_to_parent, sdrad_return_to_current, has_flag,
}
use secure_rewind_and_discar.Domain.{sdrad_check_init_config, pair_of_flags}

-- The lowest bits of a word.
low_bits :
    (f : ℕ)
    → (bit_and f 1 ≡ f % 2)
      × (bit_and f 2 ≡ f / 2 % 2 * 2)
      × (bit_and f 3 ≡ f % 2 + f / 2 % 2 * 2)
      × (bit_and f 4 ≡ f / 2 / 2 % 2 * 4)
      × (bit_and f 5 ≡ f % 2 + f / 2 / 2 % 2 * 4)
low_bits f =
    let zero = bit_and-zero (f / 2) in
    let zero₂ = bit_and-zero (f / 2 / 2) in
    let zero₃ = bit_and-zero (f / 2 / 2 / 2) in
    let one = and_bit (f / 2) 1 in
    let two = and_bit (f / 2) 2 in
    let high = and_bit (f / 2 / 2) 1 in
    (
      omega (arith, and_bit f 1, zero),
      omega (arith, and_bit f 2, one, zero₂),
      omega (arith, and_bit f 3, one, zero₂),
      omega (arith, and_bit f 4, two, high, zero₃),
      omega (arith, and_bit f 5, two, high, zero₃),
    )

-- A pair of options, and each of the two.
first_pair :
    (f : ℕ)
    → pair_of_flags f sdrad_data_domain sdrad_execution_domain
      ≡ (has_flag f sdrad_data_domain && has_flag f sdrad_execution_domain)
unfolding pair_of_flags
first_pair f = ground (arith, low_bits f)

second_pair :
    (f : ℕ)
    → pair_of_flags f sdrad_isolated_domain sdrad_nonisolated_domain
      ≡ (has_flag f sdrad_isolated_domain && has_flag f sdrad_nonisolated_domain)
unfolding pair_of_flags
second_pair f =
    ground (arith, low_bits (f / 4), and_pair_clear f 1, and_pair_clear f 2, and_pair_clear f 3)

third_pair :
    (f : ℕ)
    → pair_of_flags f sdrad_return_to_parent sdrad_return_to_current
      ≡ (has_flag f sdrad_return_to_parent && has_flag f sdrad_return_to_current)
unfolding pair_of_flags
third_pair f = ground (
  arith,
  low_bits (f / 4 / 4),
  and_pair_clear f 4,
  and_pair_clear f 16,
  and_pair_clear f 20,
  and_pair_clear (f / 4) 1,
  and_pair_clear (f / 4) 4,
  and_pair_clear (f / 4) 5,
)

-- The specification: each option is looked at on its own.
pub excluded : (f : ℕ) → Bool
excluded f =
    (has_flag f sdrad_data_domain && has_flag f sdrad_execution_domain)
    || (has_flag f sdrad_isolated_domain && has_flag f sdrad_nonisolated_domain)
    || (has_flag f sdrad_return_to_parent && has_flag f sdrad_return_to_current)

-- For every word of options, the three masked comparisons refuse exactly the words in which both options of
-- an exclusive pair are set: data and execution, isolated and not isolated, return to the parent
-- and to the current domain. Other bits do not matter.
pub check_init_config_exact :
    (domain_feature : ℕ)
    → sdrad_check_init_config domain_feature
      ≡ (if excluded domain_feature then sdrad_error_wrong_config else pos 1)
unfolding sdrad_check_init_config excluded
check_init_config_exact f = ground (arith, first_pair f, second_pair f, third_pair f)
