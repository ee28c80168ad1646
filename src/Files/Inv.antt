-- ===== src/Files/Inv.antt =====
-- k-vfs.hh: what the reference counts of files and vnodes count.
use pug_os.Prelude.{
  ℕ, zero, suc, ◌+◌, ◌≤◌, ◌<◌, ◌≡◌, ◌≢◌, Bool, true, false, ◌&&◌, Option, some, none, arith, ◌==◌,
  if◌then◌else◌, update, ltb,
}
use pug_os.Files.{World, File, nslots}

-- The option is the number.
abbrev pub is_at : Option ℕ → ℕ → Bool
is_at none f = false
is_at (some g) f = g == f

-- How many of the first `n` slots point to the file.
unfoldable pub slot_count : ℕ → (ℕ → Option ℕ) → ℕ → ℕ
slot_count zero slots f = 0
slot_count (suc n) slots f = (if is_at (slots n) f then 1 else 0) + slot_count n slots f

-- How many of the first `n` files are live and point to the vnode.
unfoldable pub file_count : ℕ → (ℕ → File) → ℕ → ℕ
file_count zero files v = 0
file_count (suc n) files v =
    (if (files n).live && is_at (files n).vnode v then 1 else 0) + file_count n files v

pub slot_count-update :
    (n : ℕ) (slots : ℕ → Option ℕ) (i f : ℕ) (x : Option ℕ)
    → slot_count n (update slots i x) f
        + (if is_at (slots i) f then (if ltb i n then 1 else 0) else 0)
      ≡ slot_count n slots f + (if is_at x f then (if ltb i n then 1 else 0) else 0)
unfolding slot_count
slot_count-update zero slots i f x = ground arith
slot_count-update (suc n) slots i f x = ground (arith, slot_count-update n slots i f x)

pub slot_count-pos :
    (n : ℕ) (slots : ℕ → Option ℕ) (i f : ℕ) → i < n → slots i ≡ some f → 0 < slot_count n slots f
unfolding slot_count
slot_count-pos zero slots i f p e = elim p [ ]
slot_count-pos (suc n) slots i f p e = ground (arith, slot_count-pos n slots i f)

pub file_count-update :
    (n : ℕ) (files : ℕ → File) (i v : ℕ) (x : File)
    → file_count n (update files i x) v
        + (if (files i).live && is_at (files i).vnode v then (if ltb i n then 1 else 0) else 0)
      ≡ file_count n files v + (if x.live && is_at x.vnode v then (if ltb i n then 1 else 0) else 0)
unfolding file_count
file_count-update zero files i v x = ground arith
file_count-update (suc n) files i v x = ground (arith, file_count-update n files i v x)

pub file_count-pos :
    (n : ℕ) (files : ℕ → File) (i v : ℕ)
    → i < n
    → (files i).live ≡ true
    → (files i).vnode ≡ some v
    → 0 < file_count n files v
unfolding file_count
file_count-pos zero files i v p l e = elim p [ ]
file_count-pos (suc n) files i v p l e = ground (arith, file_count-pos n files i v)

-- A file is live as long as slots point to it, and counts them; a live file has a live vnode, whose
-- count is at least the number of live files on it; and the numbers from `next_file` and `next_vnode`
-- on are not in use.
pub record Inv (w : World) : Type 0 where
  pub counted : (f : ℕ) → (w.files f).live ≡ true → (w.files f).refs ≡ slot_count nslots w.slots f
  pub dead : (f : ℕ) → (w.files f).live ≡ false → slot_count nslots w.slots f ≡ 0
  pub unused_file : (f : ℕ) → w.next_file ≤ f → (w.files f).live ≡ false
  pub has_vnode : (f : ℕ) → (w.files f).live ≡ true → (w.files f).vnode ≢ none
  pub alive : (v : ℕ) → 0 < file_count w.next_file w.files v → (w.vnodes v).live ≡ true
  pub holds : (v : ℕ) → file_count w.next_file w.files v ≤ (w.vnodes v).refs
  pub unused_vnode : (v : ℕ) → w.next_vnode ≤ v → (w.vnodes v).live ≡ false
