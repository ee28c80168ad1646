-- ===== src/Files/Create/Search.antt =====
-- kernel.cc: the loops of `open` and `pipe` that look for empty slots.
use pug_os.Prelude.{
  ℕ, zero, suc, ◌+◌, ◌≤◌, ◌<◌, ◌≡◌, ◌≢◌, refl, ◌⊎◌, inl, inr, Option, some, none, arith,
  Option-cases,
}
use pug_os.Files.Create.{free_fd, pipe_fds}

-- `fd` is the first empty slot of the descriptors from `i` to `i + n`.
pub record First (slots : ℕ → Option ℕ) (base n i fd : ℕ) : Type 0 where
  pub lower : i ≤ fd
  pub upper : fd < i + n
  pub empty : slots (base + fd) ≡ none
  pub before : (j : ℕ) → i ≤ j → j < fd → slots (base + j) ≢ none

-- No slot of the descriptors from `i` to `i + n` is empty.
abbrev pub Full : (ℕ → Option ℕ) → ℕ → ℕ → ℕ → Type 0
Full slots base n i = (j : ℕ) → i ≤ j → j < i + n → slots (base + j) ≢ none

pub free_fd-First :
    (slots : ℕ → Option ℕ) (base n i : ℕ)
    → ((free_fd slots base n i ≡ none) × Full slots base n i)
      ⊎ ((fd : ℕ) × (free_fd slots base n i ≡ some fd) × First slots base n i fd)
unfolding free_fd
free_fd-First slots base zero i = inl (refl, λ j a b. absurd (omega arith))
free_fd-First slots base (suc n) i = elim (Option-cases (slots (base + i))) [
  | inl e ↦ inr (
    i,
    rw (free_fd, e) refl,
    record {
      lower = omega arith;
      upper = omega arith;
      empty = e;
      before = λ j a b. absurd (omega arith);
    },
  )
  | inr (f, e) ↦ elim (free_fd-First slots base n (i + 1)) [
    | inl (s, full) ↦ inl (rw (free_fd, e) s, λ j a b h. ground (arith, full j, e, h))
    | inr (fd, s, first) ↦ inr (
      fd,
      rw (free_fd, e) s,
      record {
        lower = omega (arith, first.lower);
        upper = omega (arith, first.upper);
        empty = first.empty;
        before = λ j a b h. ground (arith, first.before j, e, h);
      },
    )
  ]
]

pipe_fds-second :
    (slots : ℕ → Option ℕ) (base n i r : ℕ)
    → pipe_fds slots base n i (some r) ≡ (some r, free_fd slots base n i)
unfolding pipe_fds free_fd
pipe_fds-second slots base zero i r = refl
pipe_fds-second slots base (suc n) i r = elim (Option-cases (slots (base + i))) [
  | inl e ↦ rw (pipe_fds, free_fd, e) refl
  | inr (f, e) ↦ rw (pipe_fds, free_fd, e) (pipe_fds-second slots base n (i + 1) r)
]

-- The first two empty slots.
pub record FirstTwo (slots : ℕ → Option ℕ) (base n i r s : ℕ) : Type 0 where
  pub lower : i ≤ r
  pub order : r < s
  pub upper : s < i + n
  pub empty_r : slots (base + r) ≡ none
  pub empty_s : slots (base + s) ≡ none
  pub others : (j : ℕ) → i ≤ j → j < s → j ≢ r → slots (base + j) ≢ none

-- Any two empty slots are the same.
abbrev pub AtMostOne : (ℕ → Option ℕ) → ℕ → ℕ → ℕ → Type 0
AtMostOne slots base n i =
    (j k : ℕ) → i ≤ j → j < k → k < i + n → slots (base + j) ≡ none → slots (base + k) ≢ none

pub pipe_fds-FirstTwo :
    (slots : ℕ → Option ℕ) (base n i : ℕ)
    → ((o : Option ℕ) × (pipe_fds slots base n i none ≡ (o, none)) × AtMostOne slots base n i)
      ⊎ ((r : ℕ) × (s : ℕ) × (pipe_fds slots base n i none ≡ (some r, some s))
          × FirstTwo slots base n i r s)
unfolding pipe_fds
pipe_fds-FirstTwo slots base zero i = inl (none, refl, λ j k a b c. absurd (omega arith))
pipe_fds-FirstTwo slots base (suc n) i = elim (Option-cases (slots (base + i))) [
  | inl e ↦ elim (free_fd-First slots base n (i + 1)) [
    | inl (s, full) ↦ inl (
      some i,
      rw (pipe_fds, e, pipe_fds-second slots base n (i + 1) i, s) refl,
      λ j k a b c d h. ground (arith, full k, h),
    )
    | inr (fd, s, first) ↦ inr (
      i,
      fd,
      rw (pipe_fds, e, pipe_fds-second slots base n (i + 1) i, s) refl,
      record {
        lower = omega arith;
        order = omega (arith, first.lower);
        upper = omega (arith, first.upper);
        empty_r = e;
        empty_s = first.empty;
        others = λ j a b c h. ground (arith, first.before j, h);
      },
    )
  ]
  | inr (f, e) ↦ elim (pipe_fds-FirstTwo slots base n (i + 1)) [
    | inl (o, s, one) ↦
        inl (o, rw (pipe_fds, e) s, λ j k a b c d h. ground (arith, one j k, e, d, h))
    | inr (r, s, eq, two) ↦ inr (
      r,
      s,
      rw (pipe_fds, e) eq,
      record {
        lower = omega (arith, two.lower);
        order = two.order;
        upper = omega (arith, two.upper);
        empty_r = two.empty_r;
        empty_s = two.empty_s;
        others = λ j a b c h. ground (arith, two.others j, e, h);
      },
    )
  ]
]
