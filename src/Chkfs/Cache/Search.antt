-- ===== src/Chkfs/Cache/Search.antt =====
-- `bufcache`: the searches of `get_bufentry_slot`.
use pug_os.Prelude.{
  ℕ, zero, suc, ◌+◌, ◌*◌, ◌<◌, ◌≤◌, ◌≡◌, refl, sym, ap, ◌∙◌, Bool, true, false, ◌&&◌, ◌||◌, List,
  [], ◌∷◌, some, ◌==◌, count, arith, eq_cases, Bool-cases, inl, inr, count-cons,
}
use pug_os.Chkfs.Cache.{Cache, ne, emptyblock, search_empty, first, first_of}
use pug_os.Chkfs.Cache.Links.{IsCache}
use pug_os.Chkfs.Cache.Sync.{Keeps, Keeps-refl, Written-dirty, sync_dirty-Written}

pub record IsFirst (p : ℕ → Bool) (n i r : ℕ) : Type 0 where
  pub lower : i ≤ r
  pub upper : r ≤ i + n
  pub holds : r < i + n → p r ≡ true
  pub before : (k : ℕ) → i ≤ k → k < r → p k ≡ false

pub first-IsFirst : (p : ℕ → Bool) (n i : ℕ) → IsFirst p n i (first p n i)
unfolding first
first-IsFirst p zero i = record {
  lower = omega arith;
  upper = omega arith;
  holds = λ h. absurd (omega (arith, h));
  before = λ k h l. absurd (omega (arith, h, l));
}
first-IsFirst p (suc n) i =
    let f = first-IsFirst p n (i + 1) in
    elim (Bool-cases (p i)) [
      | inl hit ↦ rw (hit) (record {
        lower = omega arith;
        upper = omega arith;
        holds = λ h. hit;
        before = λ k h l. absurd (omega (arith, h, l));
      })
      | inr miss ↦ rw (miss) (record {
        lower = omega (arith, f.lower);
        upper = omega (arith, f.upper);
        holds = λ h. f.holds (omega (arith, h));
        before = λ k h l. elim (eq_cases i k) [
          | inl e ↦ ap p (sym e) ∙ miss
          | inr differ ↦ f.before k (omega (arith, h, differ)) l
        ];
      })
    ]

pub first_of-found :
    (p : ℕ → Bool) (xs : List ℕ) (i : ℕ) → first_of p xs ≡ some i → (p i ≡ true) × (0 < count i xs)
unfolding first_of
first_of-found p [] i h = absurd (ground (arith, h))
first_of-found p (x ∷ xs) i h = elim (Bool-cases (p x)) [
  | inl hit ↦ ground (arith, hit, h, count-cons i x xs)
  | inr miss ↦ ground (arith, miss, h, first_of-found p xs i, count-cons i x xs)
]

-- A search with nothing dirty left.
search_clean :
    (fuel i : ℕ) (c : Cache)
    → ((k : ℕ) → (c.entries k).dirty ≡ false)
    → i ≤ ne
    → ne + 1 ≤ fuel + i
    → (j : ℕ) × (search_empty fuel i c ≡ some (c, j))
      × (j ≤ ne)
      × (j < ne → (c.entries j).bn ≡ emptyblock)
unfolding search_empty
search_clean zero i c clean hi hf = absurd (omega (arith, hf, hi))
search_clean (suc fuel) i c clean hi hf =
    elim (Bool-cases ((i == ne) || ((c.entries i).bn == emptyblock))) [
      | inl stop ↦ (i, rw (stop) refl, hi, λ h. ground (arith, stop, h))
      | inr on ↦
          let (j, run, bound, empty) =
            search_clean fuel (i + 1) c clean (ground (arith, on, hi)) (omega (arith, hf)) in
          (j, rw (on, clean i) run, bound, empty)
    ]

pub record Searched (c d : Cache) (j : ℕ) : Type 0 where
  pub valid : IsCache d
  pub keeps : (i : ℕ) → Keeps (c.entries i) (d.entries i)
  pub bound : j ≤ ne
  pub empty : j < ne → (d.entries j).bn ≡ emptyblock

pub search_empty-Searched :
    (fuel i : ℕ) (c : Cache)
    → IsCache c
    → i ≤ ne
    → 2 * ne + 1 ≤ fuel + i
    → (d : Cache) × (j : ℕ) × (search_empty fuel i c ≡ some (d, j)) × Searched c d j
unfolding search_empty
search_empty-Searched zero i c v hi hf = absurd (omega (arith, hf, hi))
search_empty-Searched (suc fuel) i c v hi hf =
    elim (Bool-cases ((i == ne) || ((c.entries i).bn == emptyblock))) [
      | inl stop ↦ (
        c,
        i,
        rw (stop) refl,
        record {
          valid = v;
          keeps = λ k. Keeps-refl (c.entries k);
          bound = hi;
          empty = λ h. ground (arith, stop, h);
        },
      )
      | inr on ↦ elim (Bool-cases ((c.entries i).dirty && ((c.entries i).ref == 0))) [
        | inl write ↦
            let (d, run, w) = sync_dirty-Written c v in
            let (j, go, bound, empty) =
              search_clean fuel 1 d (Written-dirty w) (omega arith) (omega (arith, hf, hi)) in
            (
              d,
              j,
              rw (on, write, run) go,
              record { valid = w.valid; keeps = w.keeps; bound = bound; empty = empty },
            )
        | inr pass ↦
            let (d, j, run, rest) =
              search_empty-Searched fuel (i + 1) c v (ground (arith, on, hi)) (omega (arith, hf)) in
            (d, j, rw (on, pass) run, rest)
      ]
    ]
