-- ===== src/Common/Distinct.antt =====
-- Rows with distinct keys, through a select, an order and a limit.
use Prim.Native.Nat.{ℕ, zero, suc}
use mathlib.Core.Path.{◌≡◌, sym}
use mathlib.Core.Logic.{◌≢◌, inl, inr}
use mathlib.Core.Bool.{Bool}
use mathlib.Core.Option.{none}
use mathlib.Core.List.{List, [], ◌∷◌, map}
use native.Mathlib.Omega.{arith}
use sd_platform.Common.Tests.{Bool-cases}
use sd_platform.Common.Lists.{All, All-map, All-take, take}
use sd_platform.Common.Tables.{
  select_where, first_where, insert_by, order_by, All-insert, All-select, All-order, row_of,
  IsKeyed,
}

module _ {A : Type 0} (key : A → ℕ) where
  abbrev pub IsDistinct : List A → Type 0
  IsDistinct [] = Unit
  IsDistinct (r ∷ rs) = All (λ s. key s ≢ key r) rs × IsDistinct rs

  All-others : (k : ℕ) (rs : List A) → row_of key k rs ≡ none → All (λ s. key s ≢ k) rs
  unfolding first_where
  All-others k [] e = tt
  All-others k (r ∷ rs) e = (ground arith, All-others k rs (ground arith))

  pub IsKeyed-IsDistinct : (rs : List A) → IsKeyed key rs → IsDistinct rs
  IsKeyed-IsDistinct [] h = tt
  IsKeyed-IsDistinct (r ∷ rs) h = (All-others (key r) rs h.0, IsKeyed-IsDistinct rs h.1)

  select-All :
      (P : A → Type 0) (test : A → Bool) (rs : List A) → All P rs → All P (select_where test rs)
  select-All P test rs h = All-map _ P (λ a q. q.0) _ (All-select P test rs h)

  pub select-IsDistinct :
      (test : A → Bool) (rs : List A) → IsDistinct rs → IsDistinct (select_where test rs)
  unfolding select_where
  select-IsDistinct test [] h = tt
  select-IsDistinct test (r ∷ rs) h = elim (Bool-cases (test r)) [
    | inl e ↦
        rw (e, select_where)
          (select-All (λ s. key s ≢ key r) test rs h.0, select-IsDistinct test rs h.1)
    | inr e ↦ rw (e, select_where) (select-IsDistinct test rs h.1)
  ]

  module _ (before : A → A → Bool) where
    insert-IsDistinct :
        (x : A) (rs : List A)
        → All (λ s. key s ≢ key x) rs
        → IsDistinct rs
        → IsDistinct (insert_by before x rs)
    unfolding insert_by
    insert-IsDistinct x [] a h = (tt, tt)
    insert-IsDistinct x (r ∷ rs) a h = elim (Bool-cases (before x r)) [
      | inl e ↦ rw (e, insert_by) (a, h)
      | inr e ↦
          rw (e, insert_by)
            (All-insert _ before x rs (λ p. a.0 (sym p)) h.0, insert-IsDistinct x rs a.1 h.1)
    ]

    pub order-IsDistinct : (rs : List A) → IsDistinct rs → IsDistinct (order_by before rs)
    unfolding order_by
    order-IsDistinct [] h = tt
    order-IsDistinct (r ∷ rs) h =
        insert-IsDistinct r (order_by before rs) (All-order _ before rs h.0)
          (order-IsDistinct rs h.1)

  pub take-IsDistinct : (n : ℕ) (rs : List A) → IsDistinct rs → IsDistinct (take n rs)
  take-IsDistinct zero rs h = tt
  take-IsDistinct (suc n) [] h = tt
  take-IsDistinct (suc n) (r ∷ rs) h = (All-take _ n rs h.0, take-IsDistinct n rs h.1)

module _ {A B : Type 0} (key : A → ℕ) (key' : B → ℕ) (f : A → B)
    (same : (a : A) → key' (f a) ≡ key a) where
  map-All-ne :
      (r : A) (rs : List A)
      → All (λ s. key s ≢ key r) rs
      → All (λ s. key' s ≢ key' (f r)) (map f rs)
  map-All-ne r [] h = tt
  map-All-ne r (s ∷ rs) h = (λ e. h.0 (cc (e, same s, same r)), map-All-ne r rs h.1)

  pub map-IsDistinct : (rs : List A) → IsDistinct key rs → IsDistinct key' (map f rs)
  map-IsDistinct [] h = tt
  map-IsDistinct (r ∷ rs) h = (map-All-ne r rs h.0, map-IsDistinct rs h.1)
