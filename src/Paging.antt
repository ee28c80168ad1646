-- ===== src/Paging.antt =====
-- k-vmiter.hh and k-vmiter.cc: `vmiter`, which walks the page table of four levels, and `validate_memory`
-- of kernel.cc. The tables are read from a memory that gives the entry at an index of a table; of an entry
-- the bits for present, writable, user and the size of the page matter, and its address.
pub mod Walk
pub mod Range
mod Tests
use pug_os.Prelude.{
  ℕ, zero, suc, ◌+◌, ◌-◌, ◌*◌, ◌/◌, ◌%◌, ◌^◌, Bool, true, false, not, ◌&&◌, ◌||◌, Option, some,
  none, ◌==◌, ltb, if◌then◌else◌, ◌>>=◌,
}

-- PTE_P, PTE_W and PTE_U
pub record Perm : Type 0 where
  pub present : Bool
  pub writable : Bool
  pub user : Bool

-- `x86_64_pageentry_t`
pub record Entry : Type 0 where
  pub perm : Perm
  pub huge : Bool
  pub pa : ℕ

abbrev pub Tables : Type 0
Tables = ℕ → ℕ → Entry

-- `pageoffmask(level) + 1`
unfoldable pub span : ℕ → ℕ
span zero = 2 ^ 12
span (suc level) = span level * 2 ^ 9

abbrev pub pageindex : ℕ → ℕ → ℕ
pageindex va level = va / span level % 2 ^ 9

abbrev pub both : Perm → Perm → Perm
both p q = record {
  present = p.present && q.present;
  writable = p.writable && q.writable;
  user = p.user && q.user;
}

-- The three flags of the 12 that are set at first.
abbrev pub initial_perm : Perm
initial_perm = record { present = true; writable = true; user = true }

-- `vmiter`, but for the address of the root; `pep_` is the entry at an index of a table.
pub record Vmiter : Type 0 where
  pub table : ℕ
  pub index : ℕ
  pub level : ℕ
  pub perm : Perm
  pub va : ℕ

-- `vmiter::down`, from the entry of `va` in a table of the level.
unfoldable pub down : Tables → ℕ → ℕ → ℕ → Perm → Vmiter
down m va table zero perm = record {
  table = table;
  index = pageindex va zero;
  level = zero;
  perm = perm;
  va = va;
}
down m va table (suc level) perm =
    let e = m table (pageindex va (suc level)) in
    let below = down m va e.pa level (both perm e.perm) in
    if e.perm.present && not e.huge then below else record {
      table = table;
      index = pageindex va (suc level);
      level = suc level;
      perm = perm;
      va = va;
    }

-- A walk from the root, which `real_find` starts over with.
abbrev pub from_top : Tables → ℕ → ℕ → Vmiter
from_top m root va = down m va root 3 initial_perm

-- `vmiter::real_find`: within the table that the iterator stands in, the walk goes on from there.
unfoldable pub real_find : Tables → ℕ → Vmiter → ℕ → Vmiter
real_find m root it va =
    if it.va / span (suc it.level) == va / span (suc it.level)
    then down m va it.table it.level it.perm
    else from_top m root va

-- `last_va`
abbrev pub last_va : Vmiter → ℕ
last_va it = (it.va / span it.level + 1) * span it.level

-- `vmiter::step`
abbrev pub step : Tables → ℕ → Vmiter → Vmiter
step m root it = real_find m root it (last_va it)

abbrev pub implies : Bool → Bool → Bool
implies true b = b
implies false b = true

-- `(q & p) == p`
abbrev pub covers : Perm → Perm → Bool
covers q p = implies p.present q.present && implies p.writable q.writable && implies p.user q.user

-- `vmiter::perm(p)`
abbrev pub has_perm : Tables → Vmiter → Perm → Bool
has_perm m it p = covers (both (m it.table it.index).perm it.perm) p

-- The loop of `vmiter::check_range`, up to `end`.
unfoldable pub check_from : ℕ → Tables → ℕ → Vmiter → ℕ → Perm → Option Bool
check_from zero m root it end p = none
check_from (suc n) m root it end p =
    let rest = check_from n m root (step m root it) end p in
    if ltb it.va end then (if has_perm m it p then rest else some false) else some true

-- `vmiter(pt, va).check_range(sz, p)`
unfoldable pub check_range : ℕ → Tables → ℕ → ℕ → ℕ → Perm → Option Bool
check_range fuel m root va sz p = check_from fuel m root (from_top m root va) (va + sz) p

-- VA_LOWEND, VA_HIGHMAX
abbrev pub va_lowend : ℕ
va_lowend = 2 ^ 47

abbrev pub va_highmax : ℕ
va_highmax = 2 ^ 64 - 1

-- `validate_memory`
unfoldable pub validate_memory : ℕ → Tables → ℕ → ℕ → ℕ → Perm → Option Bool
validate_memory fuel m root addr sz p =
    let checked = check_range fuel m root addr sz p in
    if (addr == 0) || ltb va_lowend ((addr + sz) % 2 ^ 64) || ltb (va_highmax - sz) addr
    then some false
    else (if ltb 0 sz then checked else some true)
