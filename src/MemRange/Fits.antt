-- ===== src/MemRange/Fits.antt =====
-- k-memrange.hh: where the new range of `set` lies, and where it lies after each of the two splits.
use pug_os.Prelude.{ℕ, ◌+◌, ◌-◌, ◌≤◌, ◌<◌, ◌≡◌, ◌≢◌, sym, arith}
use pug_os.MemRange.{Ranges}
use pug_os.MemRange.Cut.{halved, halved-sorted}
use pug_os.MemRange.Assign.{Bounded}

-- The new range starts in the range `i` and ends in or before the range `j`.
pub record Fits (s : Ranges) (i j first last type : ℕ) : Type 0 where
  pub start : s.addr 0 ≡ 0
  pub sorted : (k : ℕ) → k < s.n → s.addr k < s.addr (k + 1)
  pub in_range : i < s.n
  pub order : i ≤ j
  pub end : j ≤ s.n
  pub nonempty : first < last
  pub limit : last ≤ s.addr s.n
  pub first_in : s.addr i ≤ first
  pub first_before : first < s.addr (i + 1)
  pub last_in : s.addr j ≤ last
  pub last_before : j < s.n → last < s.addr (j + 1)
  pub right : j < s.n → s.type j ≢ type
  pub distinct : (k : ℕ) → k + 1 < s.n → s.type k ≢ s.type (k + 1)
  pub left : first ≡ s.addr i → 0 < i → s.type (i - 1) ≢ type
  pub left_split : first ≢ s.addr i → s.type i ≢ type

-- The range `i` starts where the new one does.
pub record LeftCut (s : Ranges) (i j first last type : ℕ) : Type 0 where
  pub start : s.addr 0 ≡ 0
  pub sorted : (k : ℕ) → k < s.n → s.addr k < s.addr (k + 1)
  pub in_range : i < s.n
  pub order : i ≤ j
  pub end : j ≤ s.n
  pub nonempty : first < last
  pub limit : last ≤ s.addr s.n
  pub first_at : s.addr i ≡ first
  pub last_in : s.addr j ≤ last
  pub last_before : j < s.n → last < s.addr (j + 1)
  pub right : j < s.n → s.type j ≢ type
  pub left : 0 < i → s.type (i - 1) ≢ type
  pub distinct_left : (k : ℕ) → k + 1 < i → s.type k ≢ s.type (k + 1)
  pub distinct_right : (k : ℕ) → j ≤ k → k + 1 < s.n → s.type k ≢ s.type (k + 1)

module _ (s : Ranges) (i j first last type : ℕ) (f : Fits s i j first last type) where
  pub left_same : first ≡ s.addr i → LeftCut s i j first last type
  left_same e = record {
    start = f.start;
    sorted = f.sorted;
    in_range = f.in_range;
    order = f.order;
    end = f.end;
    nonempty = f.nonempty;
    limit = f.limit;
    first_at = sym e;
    last_in = f.last_in;
    last_before = f.last_before;
    right = f.right;
    left = f.left e;
    distinct_left = λ k h. f.distinct k (omega (arith, h, f.in_range));
    distinct_right = λ k a h. f.distinct k h;
  }

  pub left_halved : first ≢ s.addr i → LeftCut (halved s i first) (i + 1) (j + 1) first last type
  left_halved n =
      let lo : s.addr i < first = omega (arith, f.first_in, n) in
      record {
        start = ground (arith, f.start, f.in_range);
        sorted = halved-sorted 0 s i first f.in_range lo f.first_before f.sorted;
        in_range = omega (arith, f.in_range);
        order = omega (arith, f.order);
        end = omega (arith, f.end);
        nonempty = f.nonempty;
        limit = ground (arith, f.limit, f.in_range);
        first_at = ground arith;
        last_in = ground (arith, f.order, f.end, f.last_in, f.nonempty);
        last_before = λ h. ground (arith, f.order, f.last_before, h);
        right = λ h. ground (arith, f.order, f.right, h);
        left = λ h. ground (arith, f.left_split, n);
        distinct_left = λ k h. ground (arith, f.distinct k, f.in_range, h);
        distinct_right = λ k a h. ground (arith, f.distinct (k - 1), f.order, a, h);
      }

module _ (m : ℕ) (s : Ranges) (i j first last type : ℕ) (c : LeftCut s i j first last type) where
  pub right_same : s.n ≤ m → last ≡ s.addr j → Bounded m s i j first last type
  right_same r e = record {
    fits = r;
    start = c.start;
    sorted = c.sorted;
    order = ground (arith, c.order, c.first_at, c.nonempty, e);
    in_range = c.end;
    first_at = c.first_at;
    last_at = sym e;
    left = c.left;
    right = c.right;
    distinct_left = c.distinct_left;
    distinct_right = c.distinct_right;
  }

  pub inside_last : last ≢ s.addr j → j < s.n
  inside_last n = ground (arith, c.end, c.last_in, c.limit, n)

  pub right_halved :
      s.n + 1 ≤ m → last ≢ s.addr j → Bounded m (halved s j last) i (j + 1) first last type
  right_halved r n =
      let p = inside_last n in
      let lo : s.addr j < last = omega (arith, c.last_in, n) in
      record {
        fits = r;
        start = ground (arith, c.start, p);
        sorted = halved-sorted m s j last p lo (c.last_before p) c.sorted;
        order = omega (arith, c.order);
        in_range = omega (arith, p);
        first_at = ground (arith, c.first_at, c.order, p);
        last_at = ground arith;
        left = λ h. ground (arith, c.left, c.order, h);
        right = λ h. ground (arith, c.right, p, h);
        distinct_left = λ k h. ground (arith, c.distinct_left k, c.order, p, h);
        distinct_right = λ k a h. ground (arith, c.distinct_right (k - 1), p, a, h);
      }
