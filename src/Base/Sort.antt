-- ===== src/Base/Sort.antt =====
-- `slices.Sort` on ints: the result depends only on what the list holds, not on its order.
use mathlib.Core.Path.{◌≡◌, refl, ◌∙◌}
use mathlib.Core.Bool.{◌||◌}
use mathlib.Core.List.{List, [], ◌∷◌, Permᴰ}
use native.Mathlib.Omega.{arith}
use pluggable_sharded_fault.Base.Tests.{if◌then◌else◌}
use pluggable_sharded_fault.Base.Int.{ℤ, leb_ℤ, eq_of_parts}
use pluggable_sharded_fault.Base.Keys.{◌==◌, int_eq}
use pluggable_sharded_fault.Base.Lists.{mem}

unfoldable pub insert_sorted : ℤ → List ℤ → List ℤ
insert_sorted g [] = g ∷ []
insert_sorted g (h ∷ t) = if leb_ℤ g h then g ∷ h ∷ t else h ∷ insert_sorted g t

unfoldable pub sort : List ℤ → List ℤ
unfolding insert_sorted
sort [] = []
sort (g ∷ t) = insert_sorted g (sort t)

insert_sorted_comm :
    (a b : ℤ) (l : List ℤ)
    → insert_sorted a (insert_sorted b l) ≡ insert_sorted b (insert_sorted a l)
unfolding insert_sorted
insert_sorted_comm a b [] = ground (arith, eq_of_parts a b)
insert_sorted_comm a b (h ∷ t) = ground (arith, eq_of_parts a b, insert_sorted_comm a b t)

-- Two orders of the same items sort to the same list.
pub sort-eq_of_perm : {xs ys : List ℤ} → Permᴰ xs ys → sort xs ≡ sort ys
unfolding sort
sort-eq_of_perm Permᴰ.nil = refl
sort-eq_of_perm (Permᴰ.cons e p) = cc (e, sort-eq_of_perm p)
sort-eq_of_perm (Permᴰ.swap {a} {b} {l = l} p q) = insert_sorted_comm a b (sort l) ∙ cc (p, q)
sort-eq_of_perm (Permᴰ.trans p q) = sort-eq_of_perm p ∙ sort-eq_of_perm q

mem-insert_sorted : (a g : ℤ) (l : List ℤ) → mem a (insert_sorted g l) ≡ (g == a || mem a l)
unfolding insert_sorted
mem-insert_sorted a g [] = refl
mem-insert_sorted a g (h ∷ t) = ground (arith, mem-insert_sorted a g t)

pub mem-sort : (a : ℤ) (l : List ℤ) → mem a (sort l) ≡ mem a l
unfolding sort
mem-sort a [] = refl
mem-sort a (g ∷ t) = ground (arith, mem-insert_sorted a g (sort t), mem-sort a t)
