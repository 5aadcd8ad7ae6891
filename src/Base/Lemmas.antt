-- ===== src/Base/Lemmas.antt =====
-- Small facts that several components use.
use voodoo_i2c.Base.{ℕ, zero, suc, ◌+◌, ◌≡◌, List, [], ◌∷◌, false, ltb, drop, arith}

pub drop-suc {ℓ} :
    {A : Type ℓ} (n : ℕ) (xs : List A) (x : A) (rest : List A)
    → drop n xs ≡ x ∷ rest
    → drop (n + 1) xs ≡ rest
drop-suc zero [] x rest e = cc
drop-suc zero (y ∷ ys) x rest e = ground arith
drop-suc (suc n) [] x rest e = cc
drop-suc (suc n) (y ∷ ys) x rest e =
    let step : suc n + 1 ≡ suc (n + 1) = omega arith in rw step (drop-suc n ys x rest e)

pub not-pos : (n : ℕ) → ltb 0 n ≡ false → n ≡ 0
not-pos n h = ground arith
