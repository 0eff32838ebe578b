-- ===== src/Control/Gone.antt =====
-- The nodes that are left in the list.
use secure_rewind_and_discar.Base.{
  ℕ, ◌≡◌, ◌≢◌, inl, inr, List, [], ◌∷◌, arith, ◌==◌, All, Bool-cases,
}
use secure_rewind_and_discar.State.{UdiControl}
use secure_rewind_and_discar.Control.{unlink, unlink_after}
use secure_rewind_and_discar.Control.Lookup.{Distinct}

module _ (P : UdiControl → Type 0) where
  unlink_after-All : (d : ℕ) (l : List UdiControl) → All P l → All P (unlink_after d l).0
  unfolding unlink_after
  unlink_after-All d [] ok = tt
  unlink_after-All d (c ∷ l) ok = elim (Bool-cases (c.sdi == d)) [
    | inl hit ↦ rw hit ok.1
    | inr miss ↦ rw miss (ok.0, unlink_after-All d l ok.1)
  ]

  pub unlink-All : (d : ℕ) (l : List UdiControl) → All P l → All P (unlink d l).0
  unfolding unlink
  unlink-All d [] ok = tt
  unlink-All d (c ∷ l) ok = elim (Bool-cases (c.sdi == d)) [
    | inl hit ↦ rw hit ok.1
    | inr miss ↦ rw miss (ok.0, unlink_after-All d l ok.1)
  ]

-- After the deletion of a domain's node no node stands for it.
others :
    (c : UdiControl) (l : List UdiControl)
    → All (λ o. (o.udi ≢ c.udi) × (o.sdi ≢ c.sdi)) l
    → All (λ o. o.sdi ≢ c.sdi) l
others c [] h = tt
others c (o ∷ l) h = (h.0.1, others c l h.1)

unlink_after-gone :
    (d : ℕ) (l : List UdiControl) → Distinct l → All (λ o. o.sdi ≢ d) (unlink_after d l).0
unfolding unlink_after
unlink_after-gone d [] h = tt
unlink_after-gone d (c ∷ l) h = elim (Bool-cases (c.sdi == d)) [
  | inl hit ↦ let e : c.sdi ≡ d = ground arith in rw (hit, ← e) (others c l h.0)
  | inr miss ↦ rw miss (ground arith, unlink_after-gone d l h.1)
]

pub unlink-gone : (d : ℕ) (l : List UdiControl) → Distinct l → All (λ o. o.sdi ≢ d) (unlink d l).0
unfolding unlink
unlink-gone d [] h = tt
unlink-gone d (c ∷ l) h = elim (Bool-cases (c.sdi == d)) [
  | inl hit ↦ let e : c.sdi ≡ d = ground arith in rw (hit, ← e) (others c l h.0)
  | inr miss ↦ rw miss (ground arith, unlink_after-gone d l h.1)
]
