-- ===== src/Machine.antt =====
-- The state that the code runs on, and commands that read and write it. A command ends normally or
-- faults: an index outside its array, a NULL pointer. The sources define NDEBUG in sdrad.h and
-- include <assert.h> again after it, so every `assert` is compiled out and guards nothing.
pub mod Returns
pub mod Ensures
use secure_rewind_and_discar.Base.{
  ℕ, zero, suc, ◌+◌, ◌-◌, Bool, Option, none, some, ltb, ◌==◌, if◌then◌else◌, update,
}
use secure_rewind_and_discar.Base.Int.{ℤ, pos, negsuc}
use secure_rewind_and_discar.Codes.{total_domain}
use secure_rewind_and_discar.State.{Tlsf, InitStack, Thread, Manager}

-- `frames` is the memory of the callers' stacks where an `InitStack` lies; `os` is the platform's.
pub record World (S : Type 0) : Type 0 where
  pub sgm : Manager
  pub pkru : ℕ
  pub tlsf_structure : Tlsf
  pub sdrad_constructor_flag : Bool
  pub frames : ℕ → InitStack
  pub os : S

pub data Run (S A : Type 0) : Type 0 where
  done : A → World S → Run S A
  fault : Run S A

abbrev pub Cmd : Type 0 → Type 0 → Type 0
Cmd S A = World S → Run S A

module _ {S A : Type 0} where
  abbrev pub pure : A → Cmd S A
  pure a w = done a w

  abbrev pub fail : Cmd S A
  fail w = fault

module _ {S A B : Type 0} where
  abbrev pub and_then : Run S A → (A → Cmd S B) → Run S B
  and_then (done a w) k = k a w
  and_then fault k = fault

  infixl 5 ◌>>=◌ ◌>>◌
  abbrev pub ◌>>=◌ : Cmd S A → (A → Cmd S B) → Cmd S B
  m >>= k = λ w. and_then (m w) k

  abbrev pub ◌>>◌ : Cmd S A → Cmd S B → Cmd S B
  m >> k = m >>= λ _. k

module _ {S : Type 0} where
  abbrev pub get : Cmd S (World S)
  get w = done w w

  abbrev pub get_sgm : Cmd S Manager
  get_sgm w = done w.sgm w

  abbrev pub modify : (World S → World S) → Cmd S (Unit {0})
  modify f w = done tt (f w)

  abbrev pub modify_sgm : (Manager → Manager) → Cmd S (Unit {0})
  modify_sgm f w = done tt (record w { sgm = f w.sgm })

  -- A call of the platform.
  abbrev pub call : {A : Type 0} → (S → A × S) → Cmd S A
  call f w = let r = f w.os in done r.0 (record w { os = r.1 })

  abbrev pub call_void : (S → S) → Cmd S (Unit {0})
  call_void f w = done tt (record w { os = f w.os })

  -- `sdrad_store_pkru_config`: the `wrpkru` instruction.
  abbrev pub sdrad_store_pkru_config : ℕ → Cmd S (Unit {0})
  sdrad_store_pkru_config rights w = done tt (record w { pkru = rights })

  -- Element `i` of an array of TOTAL_DOMAIN elements.
  abbrev pub in_bounds : ℕ → Cmd S (Unit {0})
  in_bounds i = if ltb i total_domain then pure tt else fail

  -- A pointer that is written through without a test.
  abbrev pub deref : ℕ → Cmd S (Unit {0})
  deref pointer = if pointer == 0 then fail else pure tt

  -- An index that C takes as it comes: a negative one is outside every array.
  abbrev pub as_index : Option ℤ → Cmd S ℕ
  as_index (some (pos i)) = pure i
  as_index _ = fail

  -- A protection key that a mask is shifted by: `3 << 2 * key` is defined for sixteen keys.
  abbrev pub as_key : ℤ → Cmd S ℕ
  as_key (pos key) = if ltb key 16 then pure key else fail
  as_key (negsuc _) = fail

  -- `*sgm_ptr->stm_ptr[i]`
  abbrev pub thread : ℕ → Cmd S Thread
  thread i w = elim (w.sgm.stm_ptr i) [ none ↦ fault | some t ↦ done t w ]

  abbrev pub put_thread : ℕ → Thread → Cmd S (Unit {0})
  put_thread i t = modify_sgm (λ g. record g { stm_ptr = update g.stm_ptr i (some t) })
