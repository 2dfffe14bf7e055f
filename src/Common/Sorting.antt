-- ===== src/Common/Sorting.antt =====
-- What `order_by` and a limit after it give: the rows that stand first in the order.
use Prim.Native.Nat.{ℕ, zero, suc}
use mathlib.Core.Path.{◌≡◌, refl, ap, subst}
use mathlib.Core.Logic.{◌⊎◌, inl, inr}
use mathlib.Core.Bool.{Bool, true, false}
use mathlib.Core.Option.{some}
use mathlib.Core.List.{List, [], ◌∷◌, map}
use native.Mathlib.Omega.{arith}
use sd_platform.Common.Tests.{Bool-cases}
use sd_platform.Common.Lists.{All, All-map, length, take, mem_ℕ}
use sd_platform.Common.Tables.{select_where, first_where, insert_by, order_by, All-insert}

module _ {A : Type 0} where
  abbrev pub Has : A → List A → Type 0
  Has a [] = ⊥
  Has a (x ∷ xs) = (a ≡ x) ⊎ Has a xs

  pub Has-first : (test : A → Bool) (rs : List A) (r : A) → first_where test rs ≡ some r → Has r rs
  unfolding first_where
  Has-first test [] r e = cc
  Has-first test (x ∷ rs) r e = elim (Bool-cases (test x)) [
    | inl hit ↦ inl (ground arith)
    | inr miss ↦ inr (Has-first test rs r (ground arith))
  ]

  pub Has-select :
      (test : A → Bool) (a : A) (rs : List A)
      → test a ≡ true
      → Has a rs
      → Has a (select_where test rs)
  unfolding select_where
  Has-select test a [] t h = elim h [ ]
  Has-select test a (r ∷ rs) t (inl e) = rw (subst (λ z. test z ≡ true) e t, select_where) (inl e)
  Has-select test a (r ∷ rs) t (inr h) = elim (Bool-cases (test r)) [
    | inl hit ↦ rw (hit, select_where) (inr (Has-select test a rs t h))
    | inr miss ↦ rw (miss, select_where) (Has-select test a rs t h)
  ]

  pub mem-map_of_Has :
      (key : A → ℕ) (a : A) (rs : List A) → Has a rs → mem_ℕ (key a) (map key rs) ≡ true
  mem-map_of_Has key a [] h = elim h [ ]
  mem-map_of_Has key a (r ∷ rs) (inl e) = ground (arith, ap key e)
  mem-map_of_Has key a (r ∷ rs) (inr h) = ground (arith, mem-map_of_Has key a rs h)

  pub All-Has : (P : A → Type 0) (a : A) (rs : List A) → All P rs → Has a rs → P a
  All-Has P a [] h m = elim m [ ]
  All-Has P a (r ∷ rs) h (inl e) = rw e h.0
  All-Has P a (r ∷ rs) h (inr m) = All-Has P a rs h.1 m

module _ {A : Type 0} where
  pub All-of_Has : (P : A → Type 0) (rs : List A) → ((a : A) → Has a rs → P a) → All P rs
  All-of_Has P [] h = tt
  All-of_Has P (r ∷ rs) h = (h r (inl refl), All-of_Has P rs (λ a m. h a (inr m)))

module _ {A B : Type 0} where
  pub All-map_of_Has :
      (P : B → Type 0) (f : A → B) (rs : List A) → ((a : A) → Has a rs → P (f a)) → All P (map f rs)
  All-map_of_Has P f [] h = tt
  All-map_of_Has P f (r ∷ rs) h = (h r (inl refl), All-map_of_Has P f rs (λ a m. h a (inr m)))

-- An order given as a test.
module _ {A : Type 0} (before : A → A → Bool) where
  pub record IsOrder : Type 0 where
    pub total : (a b : A) → before a b ≡ false → before b a ≡ true
    pub transitive : (a b c : A) → before a b ≡ true → before b c ≡ true → before a c ≡ true

  abbrev pub IsSorted : List A → Type 0
  IsSorted [] = Unit
  IsSorted (r ∷ rs) = All (λ s. before r s ≡ true) rs × IsSorted rs

  Has-insert : (a x : A) (rs : List A) → (a ≡ x) ⊎ Has a rs → Has a (insert_by before x rs)
  unfolding insert_by
  Has-insert a x [] h = h
  Has-insert a x (r ∷ rs) h = elim (Bool-cases (before x r)) [
    | inl e ↦ rw (e, insert_by) h
    | inr e ↦
        rw (e, insert_by)
          (elim h [
            | inl same ↦ inr (Has-insert a x rs (inl same))
            | inr (inl here) ↦ inl here
            | inr (inr there) ↦ inr (Has-insert a x rs (inr there))
          ])
  ]

  pub Has-order : (a : A) (rs : List A) → Has a rs → Has a (order_by before rs)
  unfolding order_by
  Has-order a [] h = h
  Has-order a (r ∷ rs) (inl e) = Has-insert a r (order_by before rs) (inl e)
  Has-order a (r ∷ rs) (inr h) = Has-insert a r (order_by before rs) (inr (Has-order a rs h))

  module _ (order : IsOrder) where
    insert-IsSorted : (x : A) (rs : List A) → IsSorted rs → IsSorted (insert_by before x rs)
    unfolding insert_by
    insert-IsSorted x [] h = (tt, tt)
    insert-IsSorted x (r ∷ rs) h = elim (Bool-cases (before x r)) [
      | inl e ↦ rw (e, insert_by) ((e, All-map _ _ (λ s k. order.transitive x r s e k) rs h.0), h)
      | inr e ↦
          rw (e, insert_by)
            (All-insert _ before x rs (order.total x r e) h.0, insert-IsSorted x rs h.1)
    ]

    pub order-IsSorted : (rs : List A) → IsSorted (order_by before rs)
    unfolding order_by
    order-IsSorted [] = tt
    order-IsSorted (r ∷ rs) = insert-IsSorted r (order_by before rs) (order-IsSorted rs)

    -- A row that a limit cuts off: the limit is reached, and what is kept stands before the row.
    pub take-sorted :
        (n : ℕ) (a : A) (rs : List A)
        → IsSorted rs
        → Has a rs
        → Has a (take n rs) ⊎ ((length (take n rs) ≡ n) × All (λ r. before r a ≡ true) (take n rs))
    take-sorted zero a rs s h = inr (refl, tt)
    take-sorted (suc n) a [] s h = elim h [ ]
    take-sorted (suc n) a (r ∷ rs) s (inl e) = inl (inl e)
    take-sorted (suc n) a (r ∷ rs) s (inr h) = elim (take-sorted n a rs s.1 h) [
      | inl kept ↦ inl (inr kept)
      | inr (full, first) ↦ inr (ap suc full, (All-Has (λ b. before r b ≡ true) a rs s.0 h, first))
    ]
