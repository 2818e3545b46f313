-- ===== src/Prelude/Table.antt =====
-- A database table as a list of rows: `findFirst`, `updateMany` with its count, and sums.
use Prim.Native.Nat.{ℕ, zero, suc, ◌+◌, ◌*◌}
use mathlib.Core.Path.{◌≡◌, refl}
use mathlib.Core.Bool.{Bool, true, false}
use mathlib.Core.Logic.{◌≢◌, inl, inr}
use mathlib.Core.Option.{Option, none, some}
use mathlib.Core.List.{List, [], ◌∷◌}
use native.Mathlib.Omega.{arith}
use whatsapp_os.Prelude.Tests.{if◌then◌else◌, Bool-cases}
use whatsapp_os.Prelude.Lists.{find, filter}

module _ {ℓ} {A : Type ℓ} where
  -- The rows after `updateMany`.
  abbrev pub update_many : (A → Bool) → (A → A) → List A → List A
  update_many p f [] = []
  update_many p f (x ∷ xs) = (if p x then f x else x) ∷ update_many p f xs

  -- The `count` that it returns, or that `count` returns.
  abbrev pub count_where : (A → Bool) → List A → ℕ
  count_where p [] = 0
  count_where p (x ∷ xs) = let rest = count_where p xs in if p x then suc rest else rest

  abbrev pub sum_of : (A → ℕ) → List A → ℕ
  sum_of g [] = 0
  sum_of g (x ∷ xs) = g x + sum_of g xs

  -- What an update makes of a row that was found.
  abbrev pub updated : (A → Bool) → (A → A) → Option A → Option A
  updated p f none = none
  updated p f (some x) = some (if p x then f x else x)

  -- A sum over rows is kept by an update that keeps it on each row that it writes.
  pub sum_of-update_many :
      (g : A → ℕ) (p : A → Bool) (f : A → A) (xs : List A)
      → ((x : A) → p x ≡ true → g (f x) ≡ g x)
      → sum_of g (update_many p f xs) ≡ sum_of g xs
  sum_of-update_many g p f [] h = refl
  sum_of-update_many g p f (x ∷ xs) h = ground (arith, h x, sum_of-update_many g p f xs h)

  -- A sum that falls by `q` on each written row falls by `q` times the count.
  pub sum_of-update_many_count :
      (g : A → ℕ) (p : A → Bool) (f : A → A) (q : ℕ) (xs : List A)
      → ((x : A) → p x ≡ true → g (f x) + q ≡ g x)
      → sum_of g (update_many p f xs) + q * count_where p xs ≡ sum_of g xs
  sum_of-update_many_count g p f q [] h = omega arith
  sum_of-update_many_count g p f q (x ∷ xs) h =
      let rest = sum_of-update_many_count g p f q xs h in
      elim (Bool-cases (p x)) [
        | inl hit ↦ let here = h x hit in rw hit (omega arith)
        | inr miss ↦ rw miss (omega arith)
      ]

  -- Rows that a test selects are the same after an update that writes none of them.
  pub filter-update_many :
      (q p : A → Bool) (f : A → A) (xs : List A)
      → ((x : A) → q (f x) ≡ q x)
      → ((x : A) → p x ≡ true → q x ≡ false)
      → filter q (update_many p f xs) ≡ filter q xs
  filter-update_many q p f [] same apart = refl
  filter-update_many q p f (x ∷ xs) same apart =
      ground (arith, same x, apart x, filter-update_many q p f xs same apart)

  -- The first row with a key, after an update of rows with that key under a further test.
  pub find-update_many :
      (key p : A → Bool) (f : A → A) (xs : List A)
      → ((x : A) → key (f x) ≡ key x)
      → find key (update_many p f xs) ≡ updated p f (find key xs)
  find-update_many key p f [] same = refl
  find-update_many key p f (x ∷ xs) same = ground (arith, same x, find-update_many key p f xs same)

  -- A row that is found is counted.
  pub count_where-find :
      (p : A → Bool) (xs : List A) {x : A} → find p xs ≡ some x → count_where p xs ≢ zero
  count_where-find p [] h = cc
  count_where-find p (x ∷ xs) {x = y} h = ground (arith, count_where-find p xs {x = y})

  pub find_holds : (p : A → Bool) (xs : List A) {x : A} → find p xs ≡ some x → p x ≡ true
  find_holds p [] h = cc
  find_holds p (x ∷ xs) {x = y} h = ground (arith, find_holds p xs {x = y})
