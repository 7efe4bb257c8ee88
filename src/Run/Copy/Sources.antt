-- ===== src/Run/Copy/Sources.antt =====
-- The references that `read_liveranges` of src/run.rs reads from: those of all holders, one by one.
use mathlib.Core.Path.{◌≡◌, sym, ap, subst}
use mathlib.Core.List.{Memᴰ}
use mathlib.Core.List.Memᴰ as M
use btrealloc.Prelude.{inl, inr, List, [], ◌∷◌, map}
use btrealloc.Extent.{ExtentRef}
use btrealloc.Extent.Holders.{all_refs}
use btrealloc.Run.Locate.{Located}
use btrealloc.Run.Copy.{Source, sources_of, all_sources}

-- A source is a reference of a holder.
sources_of-parts :
    (src : Source) (l : Located) (rs : List ExtentRef)
    → Memᴰ src (sources_of l rs)
    → (Memᴰ src.0 rs) × (src.1 ≡ l)
sources_of-parts src l [] m = elim m [ ]
sources_of-parts src l (r ∷ rs) (M.head e) = (M.head (ap (λ p. p.0) e), ap (λ p. p.1) e)
sources_of-parts src l (r ∷ rs) (M.tail m) =
    let (a, b) = sources_of-parts src l rs m in (M.tail a, b)

pub all_sources-parts :
    (src : Source) (ls : List Located)
    → Memᴰ src (all_sources ls)
    → (Memᴰ src.1 ls) × (Memᴰ src.0 src.1.holder.refs)
all_sources-parts src [] m = elim m [ ]
all_sources-parts src (l ∷ ls) m = elim (M.append_cases (sources_of l l.holder.refs) m) [
  | inl here ↦
      let (a, b) = sources_of-parts src l l.holder.refs here in
      (M.head b, subst (λ l. Memᴰ src.0 l.holder.refs) (sym b) a)
  | inr later ↦ let (a, b) = all_sources-parts src ls later in (M.tail a, b)
]

sources_of-member :
    (r : ExtentRef) (l : Located) (rs : List ExtentRef) → Memᴰ r rs → Memᴰ (r, l) (sources_of l rs)
sources_of-member r l [] m = elim m [ ]
sources_of-member r l (q ∷ rs) (M.head e) = M.head (ap (λ r. (r, l)) e)
sources_of-member r l (q ∷ rs) (M.tail m) = M.tail (sources_of-member r l rs m)

pub all_sources-member :
    (r : ExtentRef) (l : Located) (ls : List Located)
    → Memᴰ l ls
    → Memᴰ r l.holder.refs
    → Memᴰ (r, l) (all_sources ls)
all_sources-member r l [] n m = elim n [ ]
all_sources-member r l (k ∷ ls) (M.head e) m = M.append_left (all_sources ls) (
    subst (λ k. Memᴰ (r, l) (sources_of k k.holder.refs)) e (sources_of-member r l l.holder.refs m))
all_sources-member r l (k ∷ ls) (M.tail n) m =
    M.append_right (sources_of k k.holder.refs) (all_sources-member r l ls n m)

pub all_refs-member :
    (r : ExtentRef) (l : Located) (ls : List Located)
    → Memᴰ l ls
    → Memᴰ r l.holder.refs
    → Memᴰ r (all_refs (map (λ l. l.holder) ls))
all_refs-member r l [] n m = elim n [ ]
all_refs-member r l (k ∷ ls) (M.head e) m =
    M.append_left (all_refs (map (λ l. l.holder) ls)) (subst (λ k. Memᴰ r k.holder.refs) e m)
all_refs-member r l (k ∷ ls) (M.tail n) m =
    M.append_right k.holder.refs (all_refs-member r l ls n m)
