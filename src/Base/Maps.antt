-- ===== src/Base/Maps.antt =====
-- Maps as functions, with an update at one key.
use mathlib.Core.Path.{◌≡◌, fun_ext}
use mathlib.Core.Logic.{◌≢◌, ite}
use native.Mathlib.Omega.{arith}

module _ {ℓ κ} {K : Type ℓ} {V : Type κ} (d : Discrete K) where
  unfoldable pub put : (K → V) → K → V → K → V
  put f k v j = ite (d j k) v (f j)

  pub put_self : (f : K → V) (k : K) (v : V) → put f k v k ≡ v
  unfolding put
  put_self f k v = ground arith

  pub put_ne : (f : K → V) (k : K) (v : V) (j : K) → j ≢ k → put f k v j ≡ f j
  unfolding put
  put_ne f k v j h = ground arith

  -- The last of two updates at one key stands.
  pub put-put : (f : K → V) (k : K) (v w : V) → put (put f k v) k w ≡ put f k w
  unfolding put
  put-put f k v w = fun_ext λ j. ground arith

  -- To write what is there already is to change nothing.
  pub put_same : (f : K → V) (k : K) (v : V) → f k ≡ v → put f k v ≡ f
  unfolding put
  put_same f k v e = fun_ext λ j. ground arith
