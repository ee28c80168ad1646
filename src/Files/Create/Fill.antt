-- ===== src/Files/Create/Fill.antt =====
-- k-vfs.hh: a new file in an empty slot keeps the reference counts in order.
use pug_os.Prelude.{ℕ, ◌+◌, ◌<◌, ◌≡◌, true, some, none, arith, ◌==◌, if◌then◌else◌}
use pug_os.Files.{World, File, Vnode, nslots}
use pug_os.Files.Inv.{Inv, file_count, slot_count-update, file_count-update}
use pug_os.Files.Create.{attach, add_vnode}

-- No file is on a vnode that is not live.
pub fresh_vnode : (w : World) → Inv w → file_count w.next_file w.files w.next_vnode ≡ 0
fresh_vnode w inv = ground (arith, inv.alive w.next_vnode, inv.unused_vnode w.next_vnode)

pub add_vnode-Inv : (w : World) (v : Vnode) → Inv w → v.live ≡ true → Inv (add_vnode w v)
add_vnode-Inv w v inv l = record {
  counted = inv.counted;
  dead = inv.dead;
  unused_file = inv.unused_file;
  has_vnode = inv.has_vnode;
  alive = λ u h. ground (arith, inv.alive u);
  holds = λ u. ground (arith, inv.holds u, fresh_vnode w inv);
  unused_vnode = λ u h. ground (arith, inv.unused_vnode u);
}

module _ (w : World) (inv : Inv w) (i v : ℕ) (x : File) where
  pub attach-count :
      (u : ℕ)
      → x.live ≡ true
      → x.vnode ≡ some v
      → file_count (w.next_file + 1) (attach w i x).files u
        ≡ (if v == u then 1 else 0) + file_count w.next_file w.files u
  unfolding file_count
  attach-count u l d = ground (arith, l, d, file_count-update w.next_file w.files w.next_file u x)

  pub attach-Inv :
      i < nslots
      → w.slots i ≡ none
      → x.live ≡ true
      → x.refs ≡ 1
      → x.vnode ≡ some v
      → (w.vnodes v).live ≡ true
      → file_count w.next_file w.files v < (w.vnodes v).refs
      → Inv (attach w i x)
  attach-Inv p e l r d m c = record {
    counted = λ g h. ground (
      arith,
      inv.counted g,
      inv.dead g,
      inv.unused_file g,
      slot_count-update nslots w.slots i g (some w.next_file),
    );
    dead =
        λ g h. ground (arith, inv.dead g, slot_count-update nslots w.slots i g (some w.next_file));
    unused_file = λ g h. ground (arith, inv.unused_file g);
    has_vnode = λ g h. ground (arith, inv.has_vnode g, d);
    alive = λ u h. ground (arith, inv.alive u, attach-count u l d);
    holds = λ u. ground (arith, inv.holds u, attach-count u l d);
    unused_vnode = inv.unused_vnode;
  }
