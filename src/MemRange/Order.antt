-- ===== src/MemRange/Order.antt =====
-- k-memrange.hh: what `validate` checks, and the type of an address.
use pug_os.Prelude.{ℕ, zero, suc, ◌+◌, ◌-◌, ◌≤◌, ◌<◌, ◌≡◌, ◌≢◌, arith, subst}
use pug_os.MemRange.{Ranges}

-- The assertions of `validate`.
pub record Valid (maxsize : ℕ) (s : Ranges) : Type 0 where
  pub positive : 0 < s.n
  pub fits : s.n ≤ maxsize
  pub start : s.addr 0 ≡ 0
  pub sorted : (k : ℕ) → k < s.n → s.addr k < s.addr (k + 1)
  pub distinct : (k : ℕ) → k + 1 < s.n → s.type k ≢ s.type (k + 1)

-- The range that the address is in has the type.
pub record At (s : Ranges) (x type : ℕ) : Type 0 where
  pub index : ℕ
  pub within : index < s.n
  pub above : s.addr index ≤ x
  pub below : x < s.addr (index + 1)
  pub typed : s.type index ≡ type

module _ (s : Ranges) (sorted : (k : ℕ) → k < s.n → s.addr k < s.addr (k + 1)) where
  pub addr-le : (k d : ℕ) → k + d ≤ s.n → s.addr k ≤ s.addr (k + d)
  addr-le k zero h = let e : k + 0 ≡ k = omega arith in rw e (omega arith)
  addr-le k (suc d) h =
      let e : k + suc d ≡ k + d + 1 = omega arith in
      rw e (omega (arith, addr-le k d (omega (arith, h)), sorted (k + d) (omega (arith, h))))

  pub addr_mono : (k m : ℕ) → k ≤ m → m ≤ s.n → s.addr k ≤ s.addr m
  addr_mono k m p q =
      let e : k + (m - k) ≡ m = omega (arith, p) in
      subst (λ x. s.addr k ≤ s.addr x) e (addr-le k (m - k) (omega (arith, p, q)))

  -- An address is at or behind the start of a range only in it or behind it.
  pub index-le : (k m x : ℕ) → k ≤ s.n → m < s.n → s.addr k ≤ x → x < s.addr (m + 1) → k ≤ m
  index-le k m x a b p q = ground (arith, addr_mono (m + 1) k)

  pub index-lt : (k m x : ℕ) → k < s.n → m ≤ s.n → s.addr k ≤ x → x < s.addr m → k < m
  index-lt k m x a b p q = ground (arith, addr_mono m k)
