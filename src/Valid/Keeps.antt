-- ===== src/Valid/Keeps.antt =====
-- Commands that keep the manager valid, put together from their steps.
use secure_rewind_and_discar.Base.{
  ℕ, ◌<◌, ◌≡◌, inl, inr, Bool, true, false, List, Option, some, arith, ltb, if◌then◌else◌, update,
  Bool-cases, Option-cases,
}
use secure_rewind_and_discar.Base.Int.{ℤ, pos, negsuc, ℤ-cases}
use secure_rewind_and_discar.Codes.{total_domain}
use secure_rewind_and_discar.State.{DomainInfo, UdiControl, Thread}
use secure_rewind_and_discar.Machine.{World, Cmd, done, ◌>>=◌, thread, in_bounds, as_index, as_key}
use secure_rewind_and_discar.Machine.Ensures.{Ensures, Ensures-and_then, Ensures-run}
use secure_rewind_and_discar.Valid.{IsValidWith, Sound}

-- The list of user indices stays `l`.
abbrev pub Keeps : {S A : Type 0} → (rk : ℕ) → List UdiControl → Cmd S A → Type 0
Keeps {S} rk l m =
    (w : World S) → IsValidWith rk l w.sgm → Ensures (λ r v. IsValidWith rk l v.sgm) (m w)

-- Another record for a domain whose parent is a domain.
pub Sound-info :
    (t : Thread) (j : ℕ) (d : DomainInfo)
    → Sound t
    → d.sdi_parent_domain < total_domain
    → Sound (record t { sdrad_d_info = update t.sdrad_d_info j d })
Sound-info t j d sound inside = record {
  active = sound.active;
  parents = λ k. ground (arith, sound.parents k);
}

module _ {S : Type 0} (rk : ℕ) (l : List UdiControl) where
  module _ {A B : Type 0} where
    pub Keeps-bind :
        (m : Cmd S A) (k : A → Cmd S B)
        → Keeps rk l m
        → ((a : A) → Keeps rk l (k a))
        → Keeps rk l (m >>= k)
    Keeps-bind m k first next w ok = Ensures-and_then _ _ (m w) k (first w ok) next

  thread_lem : (i : ℕ) (t : Thread) (w : World S) → w.sgm.stm_ptr i ≡ some t → thread i w ≡ done t w
  thread_lem i t w e = ground arith

  thread-Sound :
      (i : ℕ) (w : World S)
      → IsValidWith rk l w.sgm
      → Ensures (λ t v. Sound t × IsValidWith rk l v.sgm) (thread i w)
  thread-Sound i w ok = elim (Option-cases (w.sgm.stm_ptr i)) [
    | inl nothing ↦ rw (Ensures, nothing) tt
    | inr (t, e) ↦ Ensures-run _ (thread i w) t w (thread_lem i t w e) (ok.0.threads i t e, ok)
  ]

  module _ {A : Type 0} where
    pub Keeps-thread :
        (i : ℕ) (k : Thread → Cmd S A)
        → ((t : Thread) → Sound t → Keeps rk l (k t))
        → Keeps rk l (thread i >>= k)
    Keeps-thread i k next w ok =
        Ensures-and_then _ _ (thread i w) k (thread-Sound i w ok)
          λ t v (sound, valid). next t sound v valid

    pub Keeps-bounds :
        (i : ℕ) (k : Unit {0} → Cmd S A)
        → (i < total_domain → Keeps rk l (k tt))
        → Keeps rk l (in_bounds i >>= k)
    Keeps-bounds i k next w ok = elim (Bool-cases (ltb i total_domain)) [
      | inl inside ↦ rw inside (next (ground arith) w ok)
      | inr out ↦ rw out tt
    ]

    pub Keeps-index :
        (o : World S → Option ℤ) (k : ℕ → Cmd S A)
        → ((i : ℕ) → Keeps rk l (k i))
        → Keeps rk l ((λ w. as_index (o w) w) >>= k)
    Keeps-index o k next w ok = elim (Option-cases (o w)) [
      | inl nothing ↦ rw nothing tt
      | inr (z, e) ↦ elim (ℤ-cases z) [
        | inl (i, q) ↦ rw (e, q) (next i w ok)
        | inr (m, q) ↦ rw (e, q) tt
      ]
    ]

    pub Keeps-key :
        (z : ℤ) (k : ℕ → Cmd S A) → ((i : ℕ) → Keeps rk l (k i)) → Keeps rk l (as_key z >>= k)
    Keeps-key (negsuc m) k next w ok = tt
    Keeps-key (pos i) k next w ok = elim (Bool-cases (ltb i 16)) [
      | inl small ↦ rw small (next i w ok)
      | inr large ↦ rw large tt
    ]

    pub Keeps-if :
        (c : Bool) (m n : Cmd S A) → Keeps rk l m → Keeps rk l n → Keeps rk l (if c then m else n)
    Keeps-if true m n first second = first
    Keeps-if false m n first second = second

    pub Keeps-ℤ :
        (z : ℤ) (f g : ℕ → Cmd S A)
        → ((i : ℕ) → Keeps rk l (f i))
        → ((m : ℕ) → Keeps rk l (g m))
        → Keeps rk l (elim z [ pos i ↦ f i | negsuc m ↦ g m ])
    Keeps-ℤ (pos i) f g first second = first i
    Keeps-ℤ (negsuc m) f g first second = second m
