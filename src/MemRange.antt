-- ===== src/MemRange.antt =====
-- k-memrange.hh: `memrangeset`. `none` is a failed assertion.
pub mod Order
pub mod Cut
pub mod Assign
pub mod Fits
pub mod Place
pub mod Search
pub mod Bounds
pub mod SetRange
mod Tests
use pug_os.Prelude.{
  ℕ, zero, suc, ◌+◌, ◌-◌, ◌≤◌, ◌<◌, Bool, true, false, not, ◌&&◌, ◌||◌, Option, some, none, ltb,
  leb, ◌==◌, if◌then◌else◌, update, ◌>>=◌, ◌>>◌, check,
}

-- `memrangeset`, with the two fields of its `r_`.
pub record Ranges : Type 0 where
  pub n : ℕ
  pub addr : ℕ → ℕ
  pub type : ℕ → ℕ

-- `memrangeset(limit)`
abbrev pub one_range : ℕ → Ranges
one_range limit = record { n = 1; addr = λ k. if k == 0 then 0 else limit; type = λ k. 0 }

-- The loop of `find`, which `set` has again for its upper bound.
pub find_from : ℕ → Ranges → ℕ → ℕ → ℕ
find_from zero s x i = i
find_from (suc fuel) s x i =
    let rest = find_from fuel s x (i + 1) in if ltb i s.n && leb (s.addr (i + 1)) x then rest else i

pub find : Ranges → ℕ → ℕ
unfolding find_from
find s x = find_from s.n s x 0

-- `memrangeset::type`
pub type_of : Ranges → ℕ → Option ℕ
unfolding find
type_of s x = if find s x == s.n then none else some (s.type (find s x))

-- What stands at `k` after the elements from `i + 1` to `n` have moved up by one.
abbrev pub shift_up : (ℕ → ℕ) → ℕ → ℕ → ℕ → ℕ
shift_up a n i k = if ltb (i + 1) k && leb k (n + 1) then a (k - 1) else a k

-- What stands at `k` after the elements from `j` to `n` have moved down to `i + 1`.
abbrev pub shift_down : (ℕ → ℕ) → ℕ → ℕ → ℕ → ℕ → ℕ
shift_down a n i j k = if ltb i k && leb (k + j) (i + 1 + n) then a (k + j - (i + 1)) else a k

-- The lower bound in `set`, whose loop does not look at `n`.
pub lower_from : ℕ → Ranges → ℕ → ℕ → Option ℕ
lower_from zero s x i = none
lower_from (suc fuel) s x i =
    let rest = lower_from fuel s x (i + 1) in if leb (s.addr (i + 1)) x then rest else some i

-- The new range, once it has its bounds.
pub assign : Ranges → ℕ → ℕ → ℕ → Ranges
assign s i j type =
    let typed = update s.type i type in
    if ltb (i + 1) j
    then record {
      n = s.n - (j - (i + 1));
      addr = shift_down s.addr s.n i j;
      type = shift_down typed s.n i j;
    }
    else record s { type = typed }

pub joined_left : Ranges → ℕ → ℕ → ℕ → ℕ
joined_left s i first type =
    if (first == s.addr i) && ltb 0 i && (s.type (i - 1) == type) then i - 1 else i

module _ (maxsize : ℕ) where
  pub split : Ranges → ℕ → ℕ → Option Ranges
  split s i x = do
    check (ltb i s.n && leb (s.n + 1) maxsize)
    check (ltb (s.addr i) x && ltb x (s.addr (i + 1)))
    some (record {
      n = s.n + 1;
      addr = update (shift_up s.addr s.n i) (i + 1) x;
      type = update (shift_up s.type s.n i) (i + 1) (s.type i);
    })

  -- The range `i` is split unless it starts there; the result is by how much the later ones move.
  pub cut : Ranges → ℕ → ℕ → Option (ℕ × Ranges)
  cut s i x = if x == s.addr i then some (0, s) else (split s i x >>= λ s'. some (1, s'))

  cut_and_assign : Ranges → ℕ → ℕ → ℕ → ℕ → ℕ → Option (Bool × Ranges)
  cut_and_assign s i j first last type = do
    (d, s1) ← cut s i first
    (e, s2) ← cut s1 (j + d) last
    check ((s2.addr (i + d) == first) && (s2.addr (j + d + e) == last))
    some (true, assign s2 (i + d) (j + d + e) type)

  -- From the test of the size on, with the bounds that are found.
  pub place : Ranges → ℕ → ℕ → ℕ → ℕ → ℕ → Option (Bool × Ranges)
  place s i j first last type =
      let size = s.n + (if first == s.addr i then 0 else 1) + (if last == s.addr j then 0 else 1) in
      if ltb maxsize size then some (false, s) else cut_and_assign s i j first last type

  -- With both bounds; the end may still move to that of a range of the same type, or the start of the
  -- range that it is in may move to it.
  pub set_between : Ranges → ℕ → ℕ → ℕ → ℕ → ℕ → Option (Bool × Ranges)
  set_between s i j first last type =
      if ltb j s.n && (s.type j == type)
      then place s i (j + 1) first (s.addr (j + 1)) type
      else if ltb i j && (first == s.addr i)
      then place (record s { addr = update s.addr j last }) i j first last type
      else place s i j first last type

  -- The upper bound, for the range `i` that the new one starts in.
  pub set_above : Ranges → ℕ → ℕ → ℕ → ℕ → Option (Bool × Ranges)
  set_above s i first last type = do
    let j = find_from s.n s last i
    check (leb j s.n && leb (s.addr j) last && ((j == s.n) || ltb last (s.addr (j + 1))))
    set_between s i j first last type

  pub set_range : Ranges → ℕ → ℕ → ℕ → Option (Bool × Ranges)
  set_range s first last type = do
    i ← lower_from (s.n + 1) s first 0
    check (ltb i s.n && leb (s.addr i) first && ltb first (s.addr (i + 1)))
    let k = joined_left s i first type
    set_above s k (if s.type k == type then s.addr k else first) last type

  pub set : Ranges → ℕ → ℕ → ℕ → Option (Bool × Ranges)
  set s first last type = do
    check (leb first last && leb last (s.addr s.n))
    if first == last then some (true, s) else set_range s first last type
