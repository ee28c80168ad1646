-- ===== src/Files/Tables.antt =====
-- kernel.cc: what a fork and an exit do to whole tables of descriptors: the copy that `process_fork`
-- makes, the loop of `process_exit` that lets go of every file, and `knew` and `kdelete` of a table.
pub mod Cloned
pub mod Closed
use pug_os.Prelude.{
  ℕ, zero, suc, ◌+◌, ◌*◌, Option, some, none, ◌&&◌, ltb, leb, if◌then◌else◌, update, ◌>>=◌, ◌>>◌,
  check,
}
use pug_os.Files.{World, nfds, share, deref}

-- `f->vnode_->refs_++`
retain_vnode : World → Option ℕ → Option World
retain_vnode w none = none
retain_vnode w (some v) =
    check (w.vnodes v).live
    >> some (record w {
      vnodes = update w.vnodes v (record (w.vnodes v) { refs = (w.vnodes v).refs + 1 });
    })

-- One entry of the copy: the file and its vnode gain a reference each.
unfoldable pub copy_fd : World → ℕ → ℕ → Option World
unfolding retain_vnode share
copy_fd w slot f = do w' ← share w slot f; retain_vnode w' (w'.files f).vnode

-- The copy ends at the first entry that is not in use.
copy_entry : World → ℕ → Option ℕ → (World → Option World) → Option World
copy_entry w slot none go_on = some w
copy_entry w slot (some f) go_on = copy_fd w slot f >>= go_on

-- The entries from `i` on, of which there are `n`.
unfoldable pub clone_from : World → ℕ → ℕ → ℕ → ℕ → Option World
unfolding copy_entry
clone_from w p q zero i = some w
clone_from w p q (suc n) i =
    copy_entry w (q * nfds + i) (w.slots (p * nfds + i)) (λ w'. clone_from w' p q n (suc i))

-- The table `q` takes the entries of the table `p`.
unfoldable pub clone_fds : World → ℕ → ℕ → Option World
clone_fds w p q = clone_from w p q nfds 0

close_entry : World → Option ℕ → Option World
close_entry w none = some w
close_entry w (some f) = deref w f

unfoldable pub close_from : World → ℕ → ℕ → ℕ → Option World
unfolding close_entry
close_from w p zero i = some w
close_from w p (suc n) i = do w' ← close_entry w (w.slots (p * nfds + i)); close_from w' p n (suc i)

-- The files go, but the entries of the table `p` are left as they are.
unfoldable pub close_all : World → ℕ → Option World
close_all w p = close_from w p nfds 0

-- The table `p` with no entry in use: a new one, and what is left of one that was deleted.
unfoldable pub clear_table : World → ℕ → World
clear_table w p = record w {
  slots = λ i. if leb (p * nfds) i && ltb i (p * nfds + nfds) then none else w.slots i;
}
