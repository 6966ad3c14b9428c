-- ===== src/Db/Pool/Calls.antt =====
-- The calls of all threads together: what a piece of one call changes in a sum over all of them.
use linux_server.Base.{ℕ, zero, suc, ◌+◌, ◌≤◌, ◌≡◌, List, [], ◌∷◌, ◌++◌, some, arith, ap}
use linux_server.Db.Pool.{BorrowCall}
use linux_server.Db.Pool.Running.{get_elem?, set}

module _ (w : BorrowCall → ℕ) where
  abbrev pub sum : List BorrowCall → ℕ
  sum [] = 0
  sum (c ∷ rest) = w c + sum rest

  pub sum-append : (l : List BorrowCall) (c : BorrowCall) → sum (l ++ (c ∷ [])) ≡ sum l + w c
  sum-append [] c = omega arith
  sum-append (b ∷ rest) c = omega (arith, sum-append rest c)

  pub sum-set :
      (l : List BorrowCall) (i : ℕ) (c d : BorrowCall)
      → get_elem? l i ≡ some c
      → sum (set l i d) + w c ≡ sum l + w d
  unfolding get_elem? set
  sum-set [] i c d e = absurd (cc e)
  sum-set (b ∷ rest) zero c d e = let q : b ≡ c = cc e in omega (arith, ap w q)
  sum-set (b ∷ rest) (suc i) c d e = omega (arith, sum-set rest i c d e)

  pub w-le-sum :
      (l : List BorrowCall) (i : ℕ) (c : BorrowCall) → get_elem? l i ≡ some c → w c ≤ sum l
  unfolding get_elem?
  w-le-sum [] i c e = absurd (cc e)
  w-le-sum (b ∷ rest) zero c e = let q : b ≡ c = cc e in omega (arith, ap w q)
  w-le-sum (b ∷ rest) (suc i) c e = omega (arith, w-le-sum rest i c e)
