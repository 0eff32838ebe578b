-- ===== src/UdiHeap/Search.antt =====
-- Which heap an address is found in.
use secure_rewind_and_discar.Base.{
  ℕ, ◌+◌, ◌<◌, ◌≡◌, refl, ◌⊎◌, inl, inr, true, false, List, [], ◌∷◌, arith, ◌&&◌, ltb, Bool-cases,
}
use secure_rewind_and_discar.Codes.{root_domain}
use secure_rewind_and_discar.State.{DomainInfo, Thread, Manager, UdiControl}
use secure_rewind_and_discar.UdiHeap.{sdrad_search_tlsf_control, search_tlsf, holds}

-- The address is strictly inside the heap of the record.
abbrev pub Within : (ptr : ℕ) → DomainInfo → Type 0
Within ptr d = (d.sdi_tlsf < ptr) × (ptr < d.sdi_tlsf + d.sdi_size_of_heap)

-- The domains of the list.
abbrev pub Listed : (sdi : ℕ) → List UdiControl → Type 0
Listed sdi [] = ⊥
Listed sdi (c ∷ rest) = (c.sdi ≡ sdi) ⊎ Listed sdi rest

holds_iff :
    (d : DomainInfo) (ptr : ℕ)
    → ((holds d ptr ≡ true) × Within ptr d) ⊎ ((holds d ptr ≡ false) × (Within ptr d → ⊥))
unfolding holds
holds_iff d ptr =
    elim (Bool-cases (ltb d.sdi_tlsf ptr && ltb ptr (d.sdi_tlsf + d.sdi_size_of_heap))) [
      | inl is_in ↦ inl (is_in, ground arith)
      | inr is_out ↦ inr (is_out, λ h. ground arith)
    ]

search_tlsf_sound :
    (info : ℕ → DomainInfo) (ptr : ℕ) (l : List UdiControl)
    → ((sdi : ℕ) × Listed sdi l
        × Within ptr (info sdi)
        × (search_tlsf info ptr l ≡ (info sdi).sdi_tlsf))
      ⊎ ((search_tlsf info ptr l ≡ 0) × ((sdi : ℕ) → Listed sdi l → Within ptr (info sdi) → ⊥))
unfolding search_tlsf
search_tlsf_sound info ptr [] = inr (refl, λ sdi absent _. absent)
search_tlsf_sound info ptr (c ∷ rest) = elim (holds_iff (info c.sdi) ptr) [
  | inl (is_in, there) ↦ inl (c.sdi, inl refl, there, rw is_in refl)
  | inr (is_out, outside) ↦ elim (search_tlsf_sound info ptr rest) [
    | inl (sdi, listed, there, is) ↦ inl (sdi, inr listed, there, rw is_out is)
    | inr (is, none_there) ↦ inr (
      rw is_out is,
      λ sdi listed h. elim listed [ inl e ↦ outside (rw e h) | inr l ↦ none_there sdi l h ],
    )
  ]
]

-- The result is the heap of the root domain or of a listed domain, with the address strictly inside it;
-- or it is NULL, and then the address is strictly inside the heap of none of these domains.
pub search_tlsf_control_sound :
    (ptr : ℕ) (g : Manager) (t : Thread)
    → ((sdi : ℕ) × ((sdi ≡ root_domain) ⊎ Listed sdi g.udi_control_head)
        × Within ptr (t.sdrad_d_info sdi)
        × (sdrad_search_tlsf_control ptr g t ≡ (t.sdrad_d_info sdi).sdi_tlsf))
      ⊎ ((sdrad_search_tlsf_control ptr g t ≡ 0)
          × ((sdi : ℕ)
              → (sdi ≡ root_domain) ⊎ Listed sdi g.udi_control_head
              → Within ptr (t.sdrad_d_info sdi)
              → ⊥))
unfolding sdrad_search_tlsf_control
search_tlsf_control_sound ptr g t = elim (holds_iff (t.sdrad_d_info root_domain) ptr) [
  | inl (is_in, there) ↦ inl (root_domain, inl refl, there, rw is_in refl)
  | inr (is_out, outside) ↦ elim (search_tlsf_sound t.sdrad_d_info ptr g.udi_control_head) [
    | inl (sdi, listed, there, is) ↦ inl (sdi, inr listed, there, rw is_out is)
    | inr (is, none_there) ↦ inr (
      rw is_out is,
      λ sdi place h. elim place [ inl e ↦ outside (rw⁻¹ e h) | inr l ↦ none_there sdi l h ],
    )
  ]
]
