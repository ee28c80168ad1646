-- ===== src/Files/Seek.antt =====
-- kernel.cc: SYSCALL_LSEEK. An `ssize_t` is its register, negative from 2^63 on.
pub mod Sought
use pug_os.Prelude.{
  ℕ, ◌+◌, ◌-◌, ◌*◌, ◌%◌, ◌^◌, Bool, true, false, not, ◌&&◌, Option, some, none, ltb, leb, ◌==◌,
  if◌then◌else◌, update, ◌>>=◌, ◌>>◌, check,
}
use pug_os.Files.{World, File, Kind, normie, e_badf, int_arg, lookup_fd}

abbrev pub e_inval : ℕ
e_inval = 2 ^ 64 - 22

abbrev pub e_spipe : ℕ
e_spipe = 2 ^ 64 - 29

abbrev pub is_normie : Kind → Bool
is_normie normie = true
is_normie k = false

abbrev pub negative : ℕ → Bool
negative x = leb (2 ^ 63) x

-- A sum of two `ssize_t`; its overflow is undefined.
pub add_signed : ℕ → ℕ → Option ℕ
add_signed a b =
    let sum = (a + b) % 2 ^ 64 in
    if not (negative a) && not (negative b) && negative sum
    then none
    else if negative a && negative b && not (negative sum)
    then none
    else some sum

-- `max(new_off, (ssize_t) 0)`
abbrev pub clamp : ℕ → ℕ
clamp x = if negative x then 0 else x

abbrev pub moved_to : World → ℕ → ℕ → World
moved_to w f at = record w { files = update w.files f (record (w.files f) { off = at }) }

-- `f->vnode_->size()`
pub size_of : World → Option ℕ → Option ℕ
size_of w none = none
size_of w (some v) = check (w.vnodes v).live >> some (w.vnodes v).size

pub move_by : World → ℕ → ℕ → ℕ → Option (World × ℕ)
move_by w f base off = do sum ← add_signed base off; some (moved_to w f (clamp sum), clamp sum)

pub move_from_end : World → ℕ → ℕ → Option (World × ℕ)
move_from_end w f off = do size ← size_of w (w.files f).vnode; move_by w f size off

pub report_size : World → ℕ → Option (World × ℕ)
report_size w f = do size ← size_of w (w.files f).vnode; some (w, size)

pub seek : World → ℕ → ℕ → ℕ → Option (World × ℕ)
seek w f off origin =
    if not (is_normie (w.files f).kind)
    then some (w, e_spipe)
    else if origin == 0
    then some (moved_to w f (clamp off), clamp off)
    else if origin == 1
    then move_by w f (w.files f).off off
    else if origin == 2
    then move_from_end w f off
    else if origin == 3
    then report_size w f
    else some (w, e_inval)

pub seek_on : World → Option ℕ → ℕ → ℕ → Option (World × ℕ)
seek_on w none off origin = some (w, e_badf)
seek_on w (some f) off origin = check (w.files f).live >> seek w f off origin

pub sys_lseek : World → ℕ → ℕ → ℕ → ℕ → Option (World × ℕ)
sys_lseek w p fd_reg off origin_reg =
    seek_on w (lookup_fd w p (int_arg fd_reg)) off (int_arg origin_reg)
