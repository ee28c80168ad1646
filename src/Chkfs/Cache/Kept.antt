-- ===== src/Chkfs/Cache/Kept.antt =====
-- `bufcache`: what becomes of the entries that somebody refers to.
use pug_os.Prelude.{
  update_other, ℕ, ◌≡◌, sym, subst, ap, ap₂, ◌∙◌, true, ◌||◌, update, eq_cases, inl, inr,
}
use pug_os.Chkfs.Cache.{Cache, Entry, loadeding}
use pug_os.Chkfs.Cache.Sync.{Keeps, Keeps-refl, Keeps-trans}

-- What became of an entry that somebody refers to: it holds the same block with the same references, and
-- the same bytes once they are there or on their way.
pub record Stays (e f : Entry) : Type 0 where
  pub bn : f.bn ≡ e.bn
  pub ref : f.ref ≡ e.ref
  pub all : loadeding e ≡ true → Keeps e f

pub Keeps-Stays : {e f : Entry} → Keeps e f → Stays e f
Keeps-Stays k = record { bn = k.bn; ref = k.ref; all = λ h. k }

pub Stays-trans : {e f g : Entry} → Stays e f → Stays f g → Stays e g
Stays-trans {e} {f} {g} k l = record {
  bn = l.bn ∙ k.bn;
  ref = l.ref ∙ k.ref;
  all = λ h. let a = k.all h in Keeps-trans a (l.all (ap₂ ◌||◌ (a.loaded) (a.loading) ∙ h));
}

unfoldable pub Kept : Cache → Cache → Type 0
Kept c d = (i : ℕ) → ((c.entries i).ref ≡ 0 → ⊥) → Stays (c.entries i) (d.entries i)

pub Kept-refl : (c : Cache) → Kept c c
unfolding Kept
Kept-refl c = λ i used. Keeps-Stays (Keeps-refl (c.entries i))

pub Stays-Kept : (c d : Cache) → ((i : ℕ) → Stays (c.entries i) (d.entries i)) → Kept c d
unfolding Kept
Stays-Kept c d stays = λ i used. stays i

pub Keeps-Kept : (c d : Cache) → ((i : ℕ) → Keeps (c.entries i) (d.entries i)) → Kept c d
Keeps-Kept c d keeps = Stays-Kept c d (λ i. Keeps-Stays (keeps i))

pub Kept-trans : (c d e : Cache) → Kept c d → Kept d e → Kept c e
unfolding Kept
Kept-trans c d e k l =
    λ i used. let a = k i used in Stays-trans a (l i (λ h. used (sym (a.ref) ∙ h)))

-- A change of one slot that nobody refers to.
pub Kept-update :
    (c d : Cache) (i : ℕ) (e : Entry)
    → (c.entries i).ref ≡ 0
    → d.entries ≡ update c.entries i e
    → Kept c d
unfolding Kept
Kept-update c d i e idle h = λ k used. elim (eq_cases i k) [
  | inl same ↦ absurd (used (ap (λ k. (c.entries k).ref) (sym same) ∙ idle))
  | inr differ ↦
      subst (Stays (c.entries k))
        (sym (ap (λ f. f k) h ∙ sym (update_other c.entries i k e differ)))
        (Keeps-Stays (Keeps-refl (c.entries k)))
]
