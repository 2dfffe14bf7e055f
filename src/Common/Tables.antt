-- ===== src/Common/Tables.antt =====
-- Tables as lists of rows, and the statements of SQL that the code uses: a select of all rows or
-- of one row under a condition, an update under a condition, an order by with a limit.
use Prim.Native.Nat.{ℕ}
use mathlib.Core.Path.{◌≡◌, refl, sym, ap, subst}
use mathlib.Core.Logic.{◌⊎◌, inl, inr}
use mathlib.Core.Bool.{Bool, true, false, not, ◌&&◌}
use mathlib.Core.Option.{Option, none, some}
use mathlib.Core.List.{List, [], ◌∷◌, ◌++◌}
use native.Mathlib.Omega.{arith}
use sd_platform.Common.Tests.{if◌then◌else◌, is_none, Bool-cases, ◌==◌, eq→==, ==→eq}
use sd_platform.Common.Lists.{All, All-map}

module _ {ℓ} {A : Type ℓ} where
  -- select … where test
  unfoldable pub select_where : (A → Bool) → List A → List A
  select_where test [] = []
  select_where test (r ∷ rs) = let rest = select_where test rs in if test r then r ∷ rest else rest

  -- select … where test, read by `scalar`: the first row, if there is one
  unfoldable pub first_where : (A → Bool) → List A → Option A
  first_where test [] = none
  first_where test (r ∷ rs) = let rest = first_where test rs in if test r then some r else rest

  -- update … where test
  unfoldable pub update_where : (A → Bool) → (A → A) → List A → List A
  update_where test f [] = []
  update_where test f (r ∷ rs) = (if test r then f r else r) ∷ update_where test f rs

  abbrev pub exists_where : (A → Bool) → List A → Bool
  exists_where test rs = not (is_none (first_where test rs))

  -- order by, for an order that is given as a test
  unfoldable pub insert_by : (A → A → Bool) → A → List A → List A
  insert_by before a [] = a ∷ []
  insert_by before a (r ∷ rs) =
      let rest = insert_by before a rs in if before a r then a ∷ r ∷ rs else r ∷ rest

  unfoldable pub order_by : (A → A → Bool) → List A → List A
  unfolding insert_by
  order_by before [] = []
  order_by before (r ∷ rs) = insert_by before r (order_by before rs)

  pub update_where-append :
      (test : A → Bool) (f : A → A) (rs ss : List A)
      → update_where test f (rs ++ ss) ≡ update_where test f rs ++ update_where test f ss
  unfolding update_where
  update_where-append test f [] ss = refl
  update_where-append test f (r ∷ rs) ss = rw (update_where-append test f rs ss)

  -- A row that is found passes the test.
  pub first_where-test :
      (test : A → Bool) (rs : List A) (r : A) → first_where test rs ≡ some r → test r ≡ true
  unfolding first_where
  first_where-test test [] s e = cc
  first_where-test test (r ∷ rs) s e = elim (Bool-cases (test r)) [
    | inl hit ↦ ground arith
    | inr miss ↦ first_where-test test rs s (ground arith)
  ]

  abbrev pub Option-apply : (A → A) → Option A → Option A
  Option-apply f none = none
  Option-apply f (some a) = some (f a)

  abbrev pub Option-filter : (A → Bool) → Option A → Option A
  Option-filter q none = none
  Option-filter q (some r) = if q r then some r else none

  -- An update that leaves the key of a row alone can be read off the row that had the key.
  pub first_where-update :
      (key test : A → Bool) (f : A → A)
      → ((r : A) → key (f r) ≡ key r)
      → (rs : List A)
      → first_where key (update_where test f rs)
        ≡ Option-apply (λ r. if test r then f r else r) (first_where key rs)
  unfolding first_where update_where
  first_where-update key test f same [] = refl
  first_where-update key test f same (r ∷ rs) =
      ground (arith, same r, first_where-update key test f same rs)

  -- A row that comes to pass a test which no row passed is the row that the test finds.
  pub first_where-update_new :
      (key test : A → Bool) (f : A → A) (r : A)
      → key (f r) ≡ true
      → (rs : List A) → first_where key rs ≡ none
      → first_where test rs ≡ some r
      → first_where key (update_where test f rs) ≡ some (f r)
  unfolding first_where update_where
  first_where-update_new key test f r hit [] absent found = cc
  first_where-update_new key test f r hit (s ∷ rs) absent found = elim (Bool-cases (test s)) [
    | inl e ↦ rw (e, first_where) (ground arith)
    | inr e ↦ rw (e, first_where) (ground (arith, first_where-update_new key test f r hit rs))
  ]

  pub first_where-append :
      (test : A → Bool) (rs ss : List A)
      → first_where test (rs ++ ss)
        ≡ (if is_none (first_where test rs) then first_where test ss else first_where test rs)
  unfolding first_where
  first_where-append test [] ss = refl
  first_where-append test (r ∷ rs) ss = ground (arith, first_where-append test rs ss)

module _ {ℓ κ} {A : Type ℓ} (P : A → Type κ) where
  pub All-select :
      (test : A → Bool) (rs : List A)
      → All P rs
      → All (λ r. P r × (test r ≡ true)) (select_where test rs)
  unfolding select_where
  All-select test [] h = tt
  All-select test (r ∷ rs) h = elim (Bool-cases (test r)) [
    | inl e ↦ rw (e, select_where) ((h.0, e), All-select test rs h.1)
    | inr e ↦ rw (e, select_where) (All-select test rs h.1)
  ]

  pub All-insert :
      (before : A → A → Bool) (a : A) (rs : List A) → P a → All P rs → All P (insert_by before a rs)
  unfolding insert_by
  All-insert before a [] p h = (p, tt)
  All-insert before a (r ∷ rs) p h = elim (Bool-cases (before a r)) [
    | inl e ↦ rw (e, insert_by) (p, h)
    | inr e ↦ rw (e, insert_by) (h.0, All-insert before a rs p h.1)
  ]

  pub All-order : (before : A → A → Bool) (rs : List A) → All P rs → All P (order_by before rs)
  unfolding order_by
  All-order before [] h = tt
  All-order before (r ∷ rs) h =
      All-insert before r (order_by before rs) h.0 (All-order before rs h.1)

  pub All-first_where :
      (test : A → Bool) (rs : List A) → All P rs → (r : A) → first_where test rs ≡ some r → P r
  unfolding first_where
  All-first_where test [] h r e = cc
  All-first_where test (s ∷ rs) h r e = elim (Bool-cases (test s)) [
    | inl hit ↦ let same : s ≡ r = ground arith in subst P same h.0
    | inr miss ↦ All-first_where test rs h.1 r (ground arith)
  ]

  pub All-append : (rs ss : List A) → All P rs → All P ss → All P (rs ++ ss)
  All-append [] ss h k = k
  All-append (r ∷ rs) ss h k = (h.0, All-append rs ss h.1 k)

  pub All-update :
      (test : A → Bool) (f : A → A)
      → ((r : A) → test r ≡ true → P r → P (f r))
      → (rs : List A) → All P rs
      → All P (update_where test f rs)
  unfolding update_where
  All-update test f keep [] h = tt
  All-update test f keep (r ∷ rs) h = elim (Bool-cases (test r)) [
    | inl e ↦ rw (e, update_where) (keep r e h.0, All-update test f keep rs h.1)
    | inr e ↦ rw (e, update_where) (h.0, All-update test f keep rs h.1)
  ]

-- A primary key: a number for each row, and no row with the number of a row above it.
module _ {ℓ} {A : Type ℓ} (key : A → ℕ) where
  abbrev pub row_of : ℕ → List A → Option A
  row_of k rs = first_where (λ r. key r == k) rs

  abbrev pub IsKeyed : List A → Type ℓ
  IsKeyed [] = Unit
  IsKeyed (r ∷ rs) = (row_of (key r) rs ≡ none) × IsKeyed rs

  row_of-cons :
      (r s : A) (rs : List A)
      → row_of (key r) rs ≡ none
      → row_of (key s) rs ≡ some s
      → row_of (key s) (r ∷ rs) ≡ some s
  unfolding first_where
  row_of-cons r s rs absent found = elim (Bool-cases (key r == key s)) [
    | inl e ↦ cc (ap (λ k. row_of k rs) (==→eq (key r) (key s) e))
    | inr e ↦ rw (e, first_where) found
  ]

  row_of-cons_self : (r : A) (rs : List A) → row_of (key r) (r ∷ rs) ≡ some r
  unfolding first_where
  row_of-cons_self r rs = rw (eq→== (key r) (key r) refl)

  -- In a table with a primary key, each row is the row of its key.
  pub row_of_self : (rs : List A) → IsKeyed rs → All (λ r. row_of (key r) rs ≡ some r) rs
  row_of_self [] h = tt
  row_of_self (r ∷ rs) h = (
    row_of-cons_self r rs,
    All-map (λ s. row_of (key s) rs ≡ some s) (λ s. row_of (key s) (r ∷ rs) ≡ some s)
        (λ s found. row_of-cons r s rs h.0 found) rs (row_of_self rs h.1),
  )

  pub row_of-key : (k : ℕ) (rs : List A) (r : A) → row_of k rs ≡ some r → key r ≡ k
  row_of-key k rs r e = ==→eq (key r) k (first_where-test (λ r. key r == k) rs r e)

  -- An update that leaves the keys alone leaves the table keyed.
  pub update_where-IsKeyed :
      (test : A → Bool) (f : A → A)
      → ((r : A) → key (f r) ≡ key r)
      → (rs : List A) → IsKeyed rs
      → IsKeyed (update_where test f rs)
  unfolding update_where
  update_where-IsKeyed test f same [] h = tt
  update_where-IsKeyed test f same (r ∷ rs) h = (
    rw (kept (Bool-cases (test r))) (
        rw (first_where-update (λ s. key s == key r) test f (λ s. ap (λ k. k == key r) (same s)) rs)
          (rw h.0)),
    update_where-IsKeyed test f same rs h.1,
  )
    where
      kept : (test r ≡ true) ⊎ (test r ≡ false) → key (if test r then f r else r) ≡ key r
      kept (inl e) = rw e (same r)
      kept (inr e) = rw e

  first_where-absent :
      (k : ℕ) (q : A → Bool) (rs : List A)
      → row_of k rs ≡ none
      → first_where (λ r. key r == k && q r) rs ≡ none
  unfolding first_where
  first_where-absent k q [] e = refl
  first_where-absent k q (r ∷ rs) e = ground (arith, first_where-absent k q rs)

  -- A select by the key and a further test reads the row of the key.
  pub first_where-key :
      (k : ℕ) (q : A → Bool) (rs : List A)
      → IsKeyed rs
      → first_where (λ r. key r == k && q r) rs ≡ Option-filter q (row_of k rs)
  unfolding first_where
  first_where-key k q [] keyed = refl
  first_where-key k q (r ∷ rs) keyed = elim (Bool-cases (key r == k)) [
    | inl e ↦
        rw (e, first_where)
          (rw (first_where-absent k q rs (rw (sym (==→eq (key r) k e)) keyed.0), first_where))
    | inr e ↦ rw (e, first_where) (first_where-key k q rs keyed.1)
  ]
