-- ===== src/Pkey/Rights.antt =====
-- What the PKRU macro does to the rights of each key.
use Prim.Native.Nat.{bit_and, bit_or}
use native.Mathlib.Nat.{pow-suc}
use secure_rewind_and_discar.Base.{
  ℕ, zero, suc, ◌+◌, ◌-◌, ◌*◌, ◌/◌, ◌%◌, ◌^◌, ◌≤◌, ◌<◌, ◌≡◌, refl, true, ◌==◌, if◌then◌else◌, arith,
  ==_iff, every_below, every_below→,
}
use secure_rewind_and_discar.Base.Bits.{
  and_pair_clear, and_pair_keep, or_pair_set, or_pair_keep, bit_or-zero, bit_and-zero,
}
use secure_rewind_and_discar.Pkey.{
  pkru_set_domain, sdrad_pkru_default_config, sdrad_set_access_pdi, pkru_all_read_only_rd,
  pkey_disable_access, pkey_disable_write,
}

-- The two bits of key `k`, as the processor reads them.
abbrev pub key_rights : (pkru k : ℕ) → ℕ
key_rights pkru zero = pkru % 4
key_rights pkru (suc k) = key_rights (pkru / 4) k

-- The word in which those bits alone are replaced.
put_rights : (pkru k right : ℕ) → ℕ
put_rights pkru zero right = pkru / 4 * 4 + right
put_rights pkru (suc k) right = put_rights (pkru / 4) k right * 4 + pkru % 4

pow4 : ℕ → ℕ
pow4 zero = 1
pow4 (suc n) = pow4 n * 4

pow4_lem : (n : ℕ) → 2 ^ (2 * n) ≡ pow4 n
unfolding pow4
pow4_lem zero = refl
pow4_lem (suc n) =
    let e : 2 * suc n ≡ suc (suc (2 * n)) = omega arith in
    rw e (omega (arith, pow4_lem n, pow-suc 2 (suc (2 * n)), pow-suc 2 (2 * n)))

key_rights-put_rights :
    (d k pkru right : ℕ)
    → right < 4
    → key_rights (put_rights pkru d right) k ≡ (if d == k then right else key_rights pkru k)
unfolding put_rights
key_rights-put_rights zero zero pkru right h = omega arith
key_rights-put_rights zero (suc k) pkru right h =
    let e : (pkru / 4 * 4 + right) / 4 ≡ pkru / 4 = omega arith in rw e (ground arith)
key_rights-put_rights (suc d) zero pkru right h = ground arith
key_rights-put_rights (suc d) (suc k) pkru right h =
    let e : (put_rights (pkru / 4) d right * 4 + pkru % 4) / 4 ≡ put_rights (pkru / 4) d right =
      omega arith in
    rw e (ground (arith, key_rights-put_rights d k (pkru / 4) right))

pow4_pos : (n : ℕ) → 0 < pow4 n
unfolding pow4
pow4_pos zero = omega arith
pow4_pos (suc n) = omega (arith, pow4_pos n)

pow4_lt : (d n : ℕ) → d < n → pow4 d * 4 ≤ pow4 n
unfolding pow4
pow4_lt d zero h = absurd (omega arith)
pow4_lt zero (suc n) h = omega (arith, pow4_pos n)
pow4_lt (suc d) (suc n) h = omega (arith, pow4_lt d n)

-- A mask of ones keeps a word of its width.
and_ones : (n a : ℕ) → a < pow4 n → bit_and a (pow4 n - 1) ≡ a
unfolding pow4
and_ones zero a h = rw (bit_and-zero a) (omega arith)
and_ones (suc n) a h =
    let e : pow4 n * 4 - 1 ≡ (pow4 n - 1) * 4 + 3 = omega (arith, pow4_pos n) in
    rw e (omega (arith, and_pair_keep a (pow4 n - 1), and_ones n (a / 4) (omega arith)))

set-put :
    (n d byte right : ℕ)
    → byte < pow4 n
    → d < n
    → right < 4
    → bit_or (bit_and byte (pow4 n - 1 - 3 * pow4 d)) (right * pow4 d) ≡ put_rights byte d right
unfolding pow4 put_rights
set-put zero d byte right hb hd hr = absurd (omega arith)
set-put (suc n) zero byte right hb hd hr =
    let m : pow4 n * 4 - 1 - 3 ≡ (pow4 n - 1) * 4 = omega (arith, pow4_pos n) in
    let c : bit_and byte ((pow4 n - 1) * 4) ≡ byte / 4 * 4 =
      omega (arith, and_pair_clear byte (pow4 n - 1), and_ones n (byte / 4) (omega arith)) in
    let r : right * 1 ≡ 0 * 4 + right = omega arith in
    let q : byte / 4 * 4 / 4 ≡ byte / 4 = omega arith in
    rw (m, c, r)
      (omega (
        arith,
        or_pair_set (byte / 4 * 4) 0 right hr (omega arith),
        bit_or-zero (byte / 4 * 4 / 4),
      ))
set-put (suc n) (suc d) byte right hb hd hr =
    let low : ℕ = pow4 n - 1 - 3 * pow4 d in
    let m : pow4 n * 4 - 1 - 3 * (pow4 d * 4) ≡ low * 4 + 3 =
      omega (arith, pow4_lt d n (omega arith)) in
    let r : right * (pow4 d * 4) ≡ right * pow4 d * 4 = grind arith in
    let c : ℕ = bit_and (byte / 4) low in
    let q : (c * 4 + byte % 4) / 4 ≡ c = omega arith in
    rw (m, r, and_pair_keep byte low, or_pair_keep _ (right * pow4 d), q)
      (omega (arith, set-put n d (byte / 4) right (omega arith) (omega arith) hr))

put_rights-lt :
    (n d byte right : ℕ) → byte < pow4 n → d < n → right < 4 → put_rights byte d right < pow4 n
unfolding pow4 put_rights
put_rights-lt zero d byte right hb hd hr = absurd (omega arith)
put_rights-lt (suc n) zero byte right hb hd hr = omega arith
put_rights-lt (suc n) (suc d) byte right hb hd hr =
    omega (arith, put_rights-lt n d (byte / 4) right (omega arith) (omega arith) hr)

pow4_sixteen : pow4 16 ≡ 2 ^ 32
unfolding pow4
pow4_sixteen = refl

-- On the sixteen keys the macro's shifts lose nothing, so it replaces the two bits of one key.
pkru_set_domain-put :
    (byte d right : ℕ)
    → byte < 2 ^ 32
    → d < 16
    → right < 4
    → pkru_set_domain byte d right ≡ put_rights byte d right
unfolding pkru_set_domain
pkru_set_domain-put byte d right hb hd hr =
    let room : pow4 d * 4 ≤ 2 ^ 32 = omega (arith, pow4_lt d 16 hd, pow4_sixteen) in
    let mask : 3 * pow4 d % 2 ^ 32 ≡ 3 * pow4 d = omega (arith, pow4_pos d) in
    let small : right * pow4 d ≤ 3 * pow4 d = grind arith in
    let shifted : right * pow4 d % 2 ^ 32 ≡ right * pow4 d = omega (arith, pow4_pos d) in
    let law : bit_or (bit_and byte (2 ^ 32 - 1 - 3 * pow4 d)) (right * pow4 d)
        ≡ put_rights byte d right =
      rw pow4_sixteen at (set-put 16 d byte right (rw pow4_sixteen hb) hd hr) in
    rw (pow4_lem d, mask, shifted) law

module _ (pkru key access : ℕ) (fits : pkru < 2 ^ 32) (is_key : key < 16)
    (is_access : access < 4) where
  -- Setting the access of one protection key replaces the rights of exactly that key: it has the
  -- given rights afterwards, every other key keeps its own, and the word stays within 32 bits.
  pub set_access_exact :
      ((k : ℕ)
        → key_rights (sdrad_set_access_pdi pkru key access) k
          ≡ (if key == k then access else key_rights pkru k))
      × (sdrad_set_access_pdi pkru key access < 2 ^ 32)
  unfolding sdrad_set_access_pdi
  set_access_exact = rw (pkru_set_domain-put pkru key access fits is_key is_access) (
    λ k. key_rights-put_rights key k pkru access is_access,
    omega (arith, put_rights-lt 16 key pkru access, pow4_sixteen),
  )

-- What a fresh domain starts from: key 0 is open, key 2 (the root domain's) is read-only, and
-- every other key is closed.
abbrev pub base_rights : ℕ → ℕ
base_rights zero = 0
base_rights (suc (suc zero)) = pkey_disable_write
base_rights _ = pkey_disable_access + pkey_disable_write

base_rights_table : every_below 16 (λ k. key_rights pkru_all_read_only_rd k == base_rights k) ≡ true
unfolding every_below
base_rights_table = refl

key_rights-base : (k : ℕ) → k < 16 → key_rights pkru_all_read_only_rd k ≡ base_rights k
key_rights-base k h = (==_iff _ _).0 (every_below→ 16 _ k base_rights_table h)

-- The default configuration of a domain with protection key `key` opens that key fully, leaves
-- key 0 open and key 2 read-only, and closes every other of the sixteen keys.
pub default_config_isolates :
    (key k : ℕ)
    → key < 16
    → k < 16
    → key_rights (sdrad_pkru_default_config key) k ≡ (if key == k then 0 else base_rights k)
unfolding sdrad_pkru_default_config
default_config_isolates key k hk h =
    rw (pkru_set_domain-put pkru_all_read_only_rd key 0 (omega arith) hk (omega arith))
      (ground (arith, key_rights-put_rights key k pkru_all_read_only_rd 0, key_rights-base k h))
