-- ===== src/Adapters/Registry/Sorted.antt =====
-- The order of the copies that crates/colui-adapters/src/registry/format.rs prunes.
use colui.Prelude.{
  ℕ, zero, suc, length-drop, length-filter-le, eq_self, ◌≤◌, ◌<◌, ◌≡◌, refl, ◌∙◌, Bool, true, false,
  ◌&&◌, List, [], ◌∷◌, any, all, filter, length, take, drop, arith, ◌==◌, list_eq, nat_eq,
  option_eq, eqb_iff, inl, inr, Bool-cases, eq_true,
}
use colui.Domain.Text.{Text}
use colui.Domain.FilePath.{FilePath, file_name_absolute}
use colui.Adapters.Registry.Artifacts.{text_le, insert_sorted, sort_by_name}

abbrev pub name : FilePath → Text
name p = file_name_absolute p

text_le_refl : (a : Text) → text_le a a ≡ true
unfolding text_le
text_le_refl [] = refl
text_le_refl (x ∷ xs) = ground (arith, text_le_refl xs, eqb_iff x x)

text_le_total : (a b : Text) → text_le a b ≡ false → text_le b a ≡ true
unfolding text_le
text_le_total [] b h = cc
text_le_total (x ∷ xs) [] h = refl
text_le_total (x ∷ xs) (y ∷ ys) h = ground (arith, text_le_total xs ys, eqb_iff x y, eqb_iff y x)

text_le_trans : (a b c : Text) → text_le a b ≡ true → text_le b c ≡ true → text_le a c ≡ true
unfolding text_le
text_le_trans [] b c h k = refl
text_le_trans (x ∷ xs) [] c h k = cc
text_le_trans (x ∷ xs) (y ∷ ys) [] h k = cc
text_le_trans (x ∷ xs) (y ∷ ys) (z ∷ zs) h k =
    ground (arith, text_le_trans xs ys zs, eqb_iff x y, eqb_iff y z, eqb_iff x z)

-- Whether all files of a list are named after a name, or like it.
abbrev pub above : FilePath → FilePath → Bool
above q p = text_le (name q) (name p)

pub is_sorted : List FilePath → Bool
is_sorted [] = true
is_sorted (p ∷ ps) = all (above p) ps && is_sorted ps

all-above :
    (q p : FilePath) (ps : List FilePath)
    → above q p ≡ true
    → all (above p) ps ≡ true
    → all (above q) ps ≡ true
all-above q p [] h k = refl
all-above q p (r ∷ ps) h k =
    ground (arith, all-above q p ps h, text_le_trans (name q) (name p) (name r) h)

all-insert_sorted :
    (q p : FilePath) (ps : List FilePath)
    → above q p ≡ true
    → all (above q) ps ≡ true
    → all (above q) (insert_sorted p ps) ≡ true
unfolding insert_sorted
all-insert_sorted q p [] h k = ground arith
all-insert_sorted q p (r ∷ ps) h k = ground (arith, all-insert_sorted q p ps h)

insert_sorted-sorted :
    (p : FilePath) (ps : List FilePath)
    → is_sorted ps ≡ true
    → is_sorted (insert_sorted p ps) ≡ true
unfolding insert_sorted is_sorted
insert_sorted-sorted p [] h = refl
insert_sorted-sorted p (r ∷ ps) h = elim (Bool-cases (text_le (name p) (name r))) [
  | inl e ↦ rw e (ground (arith, all-above p r ps e))
  | inr e ↦ rw e (
      ground (
        arith,
        insert_sorted-sorted p ps,
        all-insert_sorted r p ps (text_le_total (name p) (name r) e),
      ))
]

pub sort_by_name-sorted : (ps : List FilePath) → is_sorted (sort_by_name ps) ≡ true
unfolding sort_by_name is_sorted
sort_by_name-sorted [] = refl
sort_by_name-sorted (p ∷ ps) = insert_sorted-sorted p (sort_by_name ps) (sort_by_name-sorted ps)

-- Sorting changes no count.
count-insert_sorted :
    (f : FilePath → Bool) (p : FilePath) (ps : List FilePath)
    → length (filter f (insert_sorted p ps)) ≡ length (filter f (p ∷ ps))
unfolding insert_sorted
count-insert_sorted f p [] = refl
count-insert_sorted f p (r ∷ ps) = ground (arith, count-insert_sorted f p ps)

pub count-sort_by_name :
    (f : FilePath → Bool) (ps : List FilePath)
    → length (filter f (sort_by_name ps)) ≡ length (filter f ps)
unfolding sort_by_name
count-sort_by_name f [] = refl
count-sort_by_name f (p ∷ ps) =
    count-insert_sorted f p (sort_by_name ps) ∙ ground (arith, count-sort_by_name f ps)

count-all :
    (f : FilePath → Bool) (ps : List FilePath) → all f ps ≡ true → length (filter f ps) ≡ length ps
count-all f [] h = refl
count-all f (p ∷ ps) h = ground (arith, count-all f ps)

-- Before what is dropped of a sorted list there is nothing that is named later.
pub count-later :
    (q : FilePath) (n : ℕ) (ps : List FilePath)
    → is_sorted ps ≡ true
    → any (λ p. p == q) (take n ps) ≡ true
    → length (drop n ps) < length (filter (above q) ps)
unfolding is_sorted
count-later q zero ps s h = cc
count-later q (suc n) [] s h = cc
count-later q (suc n) (p ∷ ps) s h = elim (Bool-cases (p == q)) [
  | inl e ↦
      let same : p ≡ q = eq_true p q e in
      let from_p : all (above p) ps ≡ true = ground arith in
      let later : all (above q) ps ≡ true = rw same at from_p in
      ground (arith, text_le_refl (name q), count-all (above q) ps later, length-drop n ps)
  | inr e ↦ ground (arith, count-later q n ps)
]

all-insert :
    (f : FilePath → Bool) (p : FilePath) (ps : List FilePath)
    → f p ≡ true
    → all f ps ≡ true
    → all f (insert_sorted p ps) ≡ true
unfolding insert_sorted
all-insert f p [] h k = ground arith
all-insert f p (r ∷ ps) h k = ground (arith, all-insert f p ps h)

pub all-sort_filter :
    (f : FilePath → Bool) (ps : List FilePath) → all f (sort_by_name (filter f ps)) ≡ true
unfolding sort_by_name
all-sort_filter f [] = refl
all-sort_filter f (p ∷ ps) = elim (Bool-cases (f p)) [
  | inl e ↦ rw e (all-insert f p (sort_by_name (filter f ps)) e (all-sort_filter f ps))
  | inr e ↦ rw e (all-sort_filter f ps)
]

pub any-all :
    (f : FilePath → Bool) (q : FilePath) (n : ℕ) (ps : List FilePath)
    → all f ps ≡ true
    → any (λ p. p == q) (take n ps) ≡ true
    → f q ≡ true
any-all f q zero ps a h = cc
any-all f q (suc n) [] a h = cc
any-all f q (suc n) (p ∷ ps) a h = elim (Bool-cases (p == q)) [
  | inl e ↦
      let same : p ≡ q = eq_true p q e in let of_p : f p ≡ true = ground arith in rw same at of_p
  | inr e ↦ any-all f q n ps (ground arith) (ground arith)
]

-- What is gone of the files that are taken is not counted.
pub count-left :
    (f : FilePath → Bool) (n : ℕ) (ps : List FilePath)
    → ((q : FilePath) → any (λ p. p == q) (take n ps) ≡ true → f q ≡ false)
    → length (filter f ps) ≤ length (drop n ps)
count-left f zero ps gone = length-filter-le f ps
count-left f (suc n) [] gone = omega arith
count-left f (suc n) (p ∷ ps) gone =
    let first : f p ≡ false = gone p (rw (eq_self p) refl) in
    let more = count-left f n ps (λ q h. gone q (ground (arith, h))) in rw first more

-- Something is taken only if the number to take is not 0.
pub taken-many :
    (q : FilePath) (n : ℕ) (ps : List FilePath) → any (λ p. p == q) (take n ps) ≡ true → 0 < n
taken-many q zero ps h = cc
taken-many q (suc n) ps h = omega arith
