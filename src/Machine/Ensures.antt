-- ===== src/Machine/Ensures.antt =====
-- Partial correctness of a command: if it does not fault, what it returns satisfies a postcondition.
use secure_rewind_and_discar.Base.{◌≡◌}
use secure_rewind_and_discar.Machine.{World, Run, done, fault, Cmd, and_then}
use secure_rewind_and_discar.Machine.Returns.{Returns}

abbrev pub Ensures : {S A : Type 0} → (A → World S → Type 0) → Run S A → Type 0
Ensures P (done a w) = P a w
Ensures P fault = Unit

module _ {S A : Type 0} where
  pub Ensures-and_then :
      {B : Type 0} (P : A → World S → Type 0) (Q : B → World S → Type 0) (r : Run S A)
      (k : A → Cmd S B)
      → Ensures P r
      → ((a : A) (w : World S) → P a w → Ensures Q (k a w))
      → Ensures Q (and_then r k)
  Ensures-and_then P Q (done a w) k p next = next a w p
  Ensures-and_then P Q fault k p next = tt

  pub Ensures-mono :
      (P Q : A → World S → Type 0) (r : Run S A)
      → Ensures P r
      → ((a : A) (w : World S) → P a w → Q a w)
      → Ensures Q r
  Ensures-mono P Q (done a w) p weaken = weaken a w p
  Ensures-mono P Q fault p weaken = tt

  pub Ensures-Returns : (P : A → World S → Type 0) (r : Run S A) → Returns P r → Ensures P r
  Ensures-Returns P (done a w) p = p
  Ensures-Returns P fault p = tt

  pub Ensures-run :
      (P : A → World S → Type 0) (r : Run S A) (a : A) (w : World S)
      → r ≡ done a w
      → P a w
      → Ensures P r
  Ensures-run P r a w e h = rw e h

  pub Returns-Ensures :
      (P Q : A → World S → Type 0) (r : Run S A)
      → Returns P r
      → Ensures Q r
      → Returns (λ a w. P a w × Q a w) r
  Returns-Ensures P Q (done a w) p q = (p, q)
  Returns-Ensures P Q fault p q = absurd p
