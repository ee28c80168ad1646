-- ===== src/Files/Tests.antt =====
-- Files.antt on a table with the two ends of one pipe.
use pug_os.Prelude.{
  ℕ, zero, suc, ◌+◌, ◌*◌, ◌^◌, ◌<◌, ◌≡◌, refl, ◌⊎◌, true, false, some, none, arith,
}
use pug_os.Files.{World, nslots, nfds, int_arg, e_nfile, new_file, sys_dup2}
use pug_os.Files.Inv.{Inv, slot_count, file_count}
use pug_os.Files.Calls.{Refused, Stored, sys_dup2-Stored}
use pug_os.Files.Create.{
  attach, add_vnode, inode_vnode, open_file, pipe_vnode, pipe_end, open_fd, sys_pipe,
}
use pug_os.Files.Create.Search.{First, Full, FirstTwo, AtMostOne}
use pug_os.Files.Create.Opened.{
  attach_fresh, Opened, Piped, attach-attach-Inv, open_fd-Opened, sys_pipe-Piped,
}

abbrev nothing : World
nothing = record {
  slots = λ i. none;
  files = λ f. record new_file { live = false };
  vnodes = λ v. record (inode_vnode 0) { live = false };
  next_file = 0;
  next_vnode = 0;
}

slot_count-none : (n f : ℕ) → slot_count n (λ i. none) f ≡ 0
unfolding slot_count
slot_count-none zero f = refl
slot_count-none (suc n) f = ground (arith, slot_count-none n f)

nothing-Inv : Inv nothing
unfolding file_count
nothing-Inv = record {
  counted = λ f l. cc;
  dead = λ f l. slot_count-none nslots f;
  unused_file = λ f h. refl;
  has_vnode = λ f l. cc;
  alive = λ v h. absurd (omega (arith, h));
  holds = λ v. omega arith;
  unused_vnode = λ v h. refl;
}

-- A pipe in the descriptors 0 and 1 of the process 2.
abbrev pub piped : World
piped =
    attach (attach (add_vnode nothing pipe_vnode) (2 * nfds + 0) (pipe_end true 0)) (2 * nfds + 1)
      (pipe_end false 0)

pub piped-Inv : Inv piped
piped-Inv =
    attach-attach-Inv nothing nothing-Inv (2 * nfds + 0) (2 * nfds + 1) (omega arith) (omega arith)
      (omega arith) refl refl

sys_dup2-Stored_example :
    (w' : World) × (r : ℕ) × (sys_dup2 piped 2 0 1 ≡ some (w', r))
    × (Refused piped w' r
          (int_arg 0 < nfds → int_arg 1 < nfds → piped.slots (2 * nfds + int_arg 0) ≡ none)
        ⊎ ((f : ℕ) × (int_arg 0 < nfds)
            × (piped.slots (2 * nfds + int_arg 0) ≡ some f)
            × Stored piped w' r 2 (int_arg 1) (some f)))
sys_dup2-Stored_example = sys_dup2-Stored piped piped-Inv 2 0 1 (omega arith) (omega arith)

open_fd-Opened_example :
    (Full piped.slots (2 * nfds) nfds 0 × (open_fd piped 2 true false 9 true true ≡ none))
    ⊎ ((fd : ℕ) × (w' : World) × First piped.slots (2 * nfds) nfds 0 fd
        × (open_fd piped 2 true false 9 true true ≡ some (w', fd))
        × Opened piped w' 2 fd (open_file true false piped.next_vnode) (inode_vnode 9))
open_fd-Opened_example = open_fd-Opened piped piped-Inv 2 (omega arith) true false 9 true

sys_pipe-Piped_example :
    (AtMostOne piped.slots (2 * nfds) nfds 0
      × (sys_pipe piped 2 (record { rfile = true; wfile = true; vnode = true; buffer = true })
          ≡ some (piped, e_nfile)))
    ⊎ ((r : ℕ) × (s : ℕ) × (w' : World) × FirstTwo piped.slots (2 * nfds) nfds 0 r s
        × (sys_pipe piped 2 (record { rfile = true; wfile = true; vnode = true; buffer = true })
            ≡ some (w', r + s * 2 ^ 32))
        × Piped piped w' 2 r s)
sys_pipe-Piped_example = sys_pipe-Piped piped piped-Inv 2 (omega arith)

-- A file of 9 bytes in the descriptor 0 of the process 2.
abbrev opened : World
opened = attach (add_vnode nothing (inode_vnode 9)) (2 * nfds + 0) (open_file true false 0)

opened-Inv : Inv opened
opened-Inv =
    attach_fresh nothing nothing-Inv (2 * nfds + 0) (inode_vnode 9) (open_file true false 0)
      (omega arith) refl refl (omega arith) refl refl refl
