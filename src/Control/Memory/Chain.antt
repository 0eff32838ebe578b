-- ===== src/Control/Memory/Chain.antt =====
-- Chains of nodes in memory.
use secure_rewind_and_discar.Base.{
  ℕ, ◌≡◌, ◌≢◌, refl, sym, ◌∙◌, ◌⊎◌, inl, inr, List, [], ◌∷◌, ◌++◌, ◌==◌, arith, update, Bool-cases,
}

-- From the address `h` on, the nodes are those of the list, in this order, and then comes NULL.
abbrev pub Linked : (next : ℕ → ℕ) (h : ℕ) → List ℕ → Type 0
Linked next h [] = h ≡ 0
Linked next h (x ∷ l) = (h ≡ x) × (x ≢ 0) × Linked next (next x) l

abbrev pub In : ℕ → List ℕ → Type 0
In x [] = ⊥
In x (y ∷ l) = (x ≡ y) ⊎ In x l

-- A store into a node outside the chain leaves the chain.
pub Linked-update :
    (next : ℕ → ℕ) (n v h : ℕ) (l : List ℕ)
    → (In n l → ⊥)
    → Linked next h l
    → Linked (update next n v) h l
Linked-update next n v h [] out c = c
Linked-update next n v h (x ∷ l) out c = elim (Bool-cases (n == x)) [
  | inl e ↦ absurd (out (inl (ground arith)))
  | inr e ↦ (c.0, c.1, rw e (Linked-update next n v (next x) l (λ k. out (inr k)) c.2))
]

pub In-append : (x : ℕ) (new l : List ℕ) → In x l → In x (new ++ l)
In-append x [] l h = h
In-append x (y ∷ new) l h = inr (In-append x new l h)

-- The chain from an address is determined by the memory.
pub Linked-unique :
    (next : ℕ → ℕ) (h : ℕ) (k l : List ℕ) → Linked next h k → Linked next h l → k ≡ l
Linked-unique next h [] [] c d = refl
Linked-unique next h [] (x ∷ l) c d = absurd (d.1 (sym d.0 ∙ c))
Linked-unique next h (x ∷ k) [] c d = absurd (c.1 (sym c.0 ∙ d))
Linked-unique next h (x ∷ k) (y ∷ l) (a, b, c) (a', b', c') =
    let e : x ≡ y = sym a ∙ a' in
    let rest : k ≡ l = Linked-unique next (next y) k l (rw e at c) c' in cc
