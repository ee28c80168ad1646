-- ===== src/MemFile/Tests.antt =====
-- Tests of `vnode_memfile`, and the theorems at concrete files.
use pug_os.Prelude.{ℕ, ◌≡◌, refl, Bool, true, [], ◌∷◌}
use pug_os.MemFile.{MemFile, null, kernel_image, heap, ended, faulted, unfinished, read, write}
use pug_os.MemFile.Write.{full_write_fails}

abbrev plenty : ℕ → Bool
plenty c = true

abbrev two_bytes : MemFile
two_bytes = record { data_at = heap; contents = 1 ∷ 2 ∷ []; capacity = 2 }

abbrev no_room : MemFile
no_room = record { data_at = null; contents = []; capacity = 0 }

read-middle : read two_bytes 5 1 ≡ (2 ∷ [], 2)
unfolding read
read-middle = refl

write-grows :
    write plenty 10 two_bytes (3 ∷ []) 7
    ≡ (ended (record { data_at = heap; contents = 1 ∷ 2 ∷ 3 ∷ []; capacity = 4 }) 1, 8)
unfolding write
write-grows = refl

full_write_fails_example :
    (no_room.data_at ≡ kernel_image → write plenty 100 no_room (3 ∷ []) 7 ≡ (faulted, 7))
    × (no_room.data_at ≡ null
        → no_room.capacity ≡ 0
        → write plenty 99 no_room (3 ∷ []) 7 ≡ (unfinished, 7))
full_write_fails_example = full_write_fails plenty 99 3 7 [] no_room refl

-- The first write to a full file of `initfs`.
abbrev init_file : MemFile
init_file = record two_bytes { data_at = kernel_image }

write-faults : write plenty 100 init_file (3 ∷ []) 7 ≡ (faulted, 7)
write-faults = (full_write_fails plenty 99 3 7 [] init_file refl).0 refl
