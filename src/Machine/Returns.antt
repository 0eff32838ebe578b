-- ===== src/Machine/Returns.antt =====
-- Total correctness of a command: it does not fault, and what it returns satisfies a postcondition.
use secure_rewind_and_discar.Machine.{World, Run, done, fault, Cmd, and_then}

abbrev pub Returns : {S A : Type 0} → (A → World S → Type 0) → Run S A → Type 0
Returns P (done a w) = P a w
Returns P fault = ⊥

module _ {S A : Type 0} where
  -- The rule for a bind, with the result of the first part as an equation.
  pub Returns-and_then :
      {B : Type 0} (P : A → World S → Type 0) (Q : B → World S → Type 0) (r : Run S A)
      (k : A → Cmd S B)
      → Returns P r
      → ((a : A) (w : World S) → P a w → Returns Q (k a w))
      → Returns Q (and_then r k)
  Returns-and_then P Q (done a w) k p next = next a w p
  Returns-and_then P Q fault k p next = absurd p

  pub Returns-mono :
      (P Q : A → World S → Type 0) (r : Run S A)
      → Returns P r
      → ((a : A) (w : World S) → P a w → Q a w)
      → Returns Q r
  Returns-mono P Q (done a w) p weaken = weaken a w p
  Returns-mono P Q fault p weaken = absurd p
