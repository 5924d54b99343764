-- ===== src/Domain/Order.antt =====
-- The order of Rust's strings, options, vectors and tuples, by which its `BTreeMap`s are sorted, and
-- the entry of such a map.
use Prim.Native.Nat.{compare, Ordering}
use colui.Prelude.{
  ℕ, ◌≡◌, refl, ap, subst, Bool, true, false, ◌||◌, List, [], ◌∷◌, Option, none, some, any, arith,
  eqb_iff,
}

abbrev pub then_compare : Ordering → Ordering → Ordering
then_compare Ordering.eq next = next
then_compare Ordering.lt next = Ordering.lt
then_compare Ordering.gt next = Ordering.gt

pub record Order (K : Type 0) : Type 0 where
  pub cmp : K → K → Ordering
  pub cmp_equal : (a b : K) → cmp a b ≡ Ordering.eq → a ≡ b

then_compare-left :
    (a b : Ordering) → then_compare a b ≡ Ordering.eq → (a ≡ Ordering.eq) × (b ≡ Ordering.eq)
then_compare-left Ordering.eq b h = (refl, h)
then_compare-left Ordering.lt b h = cc
then_compare-left Ordering.gt b h = cc

abbrev is_equal : Ordering → Bool
is_equal Ordering.eq = true
is_equal _ = false

pub nat_cmp_equal : (a b : ℕ) → compare a b ≡ Ordering.eq → a ≡ b
nat_cmp_equal a b h = (eqb_iff a b).0 (ap is_equal h)

instance abbrev pub nat_order : Order ℕ
nat_order = record { cmp = compare; cmp_equal = nat_cmp_equal }

module _ {A : Type 0} ⦃o : Order A⦄ where
  abbrev pub list_cmp : List A → List A → Ordering
  list_cmp [] [] = Ordering.eq
  list_cmp [] (y ∷ ys) = Ordering.lt
  list_cmp (x ∷ xs) [] = Ordering.gt
  list_cmp (x ∷ xs) (y ∷ ys) = then_compare (o.cmp x y) (list_cmp xs ys)

  pub list_cmp_equal : (a b : List A) → list_cmp a b ≡ Ordering.eq → a ≡ b
  list_cmp_equal [] [] h = refl
  list_cmp_equal [] (y ∷ ys) h = cc
  list_cmp_equal (x ∷ xs) [] h = cc
  list_cmp_equal (x ∷ xs) (y ∷ ys) h =
      let (first, rest) = then_compare-left (o.cmp x y) (list_cmp xs ys) h in
      rw (o.cmp_equal x y first, list_cmp_equal xs ys rest) refl

  instance abbrev pub list_order : Order (List A)
  list_order = record { cmp = list_cmp; cmp_equal = list_cmp_equal }

  abbrev pub option_cmp : Option A → Option A → Ordering
  option_cmp none none = Ordering.eq
  option_cmp none (some y) = Ordering.lt
  option_cmp (some x) none = Ordering.gt
  option_cmp (some x) (some y) = o.cmp x y

  pub option_cmp_equal : (a b : Option A) → option_cmp a b ≡ Ordering.eq → a ≡ b
  option_cmp_equal none none h = refl
  option_cmp_equal none (some y) h = cc
  option_cmp_equal (some x) none h = cc
  option_cmp_equal (some x) (some y) h = ap some (o.cmp_equal x y h)

  instance abbrev pub option_order : Order (Option A)
  option_order = record { cmp = option_cmp; cmp_equal = option_cmp_equal }

module _ {A B C : Type 0} ⦃o : Order A⦄ ⦃p : Order B⦄ ⦃q : Order C⦄ where
  abbrev pub triple_cmp : A × (B × C) → A × (B × C) → Ordering
  triple_cmp (a, (b, c)) (x, (y, z)) =
      then_compare (o.cmp a x) (then_compare (p.cmp b y) (q.cmp c z))

  pub triple_cmp_equal : (s t : A × (B × C)) → triple_cmp s t ≡ Ordering.eq → s ≡ t
  triple_cmp_equal (a, (b, c)) (x, (y, z)) h =
      let (first, more) = then_compare-left (o.cmp a x) _ h in
      let (second, third) = then_compare-left (p.cmp b y) (q.cmp c z) more in
      rw (o.cmp_equal a x first, p.cmp_equal b y second, q.cmp_equal c z third) refl

  instance abbrev pub triple_order : Order (A × (B × C))
  triple_order = record { cmp = triple_cmp; cmp_equal = triple_cmp_equal }

module _ {K V : Type 0} ⦃o : Order K⦄ where
  abbrev placed : Ordering → K → (Option V → V) → K → V → List (K × V) → List (K × V) → List (K × V)
  placed Ordering.lt k f j v m rest = (k, f none) ∷ (j, v) ∷ m
  placed Ordering.eq k f j v m rest = (j, f (some v)) ∷ m
  placed Ordering.gt k f j v m rest = (j, v) ∷ rest

  -- `entry(key)`, put in with a value or changed where it stands.
  unfoldable pub update_entry : K → (Option V → V) → List (K × V) → List (K × V)
  update_entry k f [] = (k, f none) ∷ []
  update_entry k f ((j, v) ∷ m) = placed (o.cmp k j) k f j v m (update_entry k f m)

  placed-any :
      (test : K × V → Bool) (added : Bool) (k : K) (f : Option V → V) (j : K) (v : V)
      (m rest : List (K × V)) (order : Ordering)
      → o.cmp k j ≡ order
      → test (k, f none) ≡ added
      → ((w : V) → test (k, f (some w)) ≡ (added || test (k, w)))
      → any test rest ≡ (added || any test m)
      → any test (placed order k f j v m rest) ≡ (added || any test ((j, v) ∷ m))
  placed-any test added k f j v m rest Ordering.lt e new old later = ground arith
  placed-any test added k f j v m rest Ordering.eq e new old later =
      let h : test (j, f (some v)) ≡ (added || test (j, v)) =
        subst (λ x. test (x, f (some v)) ≡ (added || test (x, v))) (o.cmp_equal k j e) (old v) in
      ground arith
  placed-any test added k f j v m rest Ordering.gt e new old later = ground arith

  -- What the change of an entry adds to a test of the entries.
  pub any-update_entry :
      (test : K × V → Bool) (added : Bool) (k : K) (f : Option V → V) (m : List (K × V))
      → test (k, f none) ≡ added
      → ((v : V) → test (k, f (some v)) ≡ (added || test (k, v)))
      → any test (update_entry k f m) ≡ (added || any test m)
  unfolding update_entry
  any-update_entry test added k f [] new old = ground arith
  any-update_entry test added k f ((j, v) ∷ m) new old =
      let later = any-update_entry test added k f m new old in
      placed-any test added k f j v m (update_entry k f m) (o.cmp k j) refl new old later
