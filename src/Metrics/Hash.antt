-- ===== src/Metrics/Hash.antt =====
-- The key of an attribute set in src/metrics.rs and the order of the attributes.
use mathlib.Core.List.{Permᴰ, Perm}
use mathlib.Core.Logic.{∥∥₁_elim}
use rolly.Base.{ℕ, ◌≡◌, refl, ap, ◌∙◌, ◌+◌, ◌%◌, ◌^◌, ◌<◌, arith, [], ◌∷◌}
use rolly.Metrics.{Attrs, pair_hash, hash_loop, attrs_hash_unordered, attrs_key}

sum_hash : Attrs → ℕ
sum_hash [] = 0
sum_hash (p ∷ ps) = pair_hash p + sum_hash ps

hash_loop-sum :
    (acc : ℕ) (ps : Attrs) → acc < 2 ^ 64 → hash_loop acc ps ≡ (acc + sum_hash ps) % 2 ^ 64
unfolding hash_loop sum_hash
hash_loop-sum acc [] h = omega arith
hash_loop-sum acc (p ∷ ps) h =
    omega (arith, hash_loop-sum ((acc + pair_hash p) % 2 ^ 64) ps (omega arith))

sum_hash-Permᴰ : {l₁ l₂ : Attrs} → Permᴰ l₁ l₂ → sum_hash l₁ ≡ sum_hash l₂
unfolding sum_hash
sum_hash-Permᴰ Permᴰ.nil = refl
sum_hash-Permᴰ (Permᴰ.cons e d) = omega (arith, ap pair_hash e, sum_hash-Permᴰ d)
sum_hash-Permᴰ (Permᴰ.swap e f) = omega (arith, ap pair_hash e, ap pair_hash f)
sum_hash-Permᴰ (Permᴰ.trans d e) = sum_hash-Permᴰ d ∙ sum_hash-Permᴰ e

attrs_key-sum : (ps : Attrs) → attrs_key ps ≡ sum_hash ps % 2 ^ 64
unfolding attrs_key attrs_hash_unordered sum_hash
attrs_key-sum [] = refl
attrs_key-sum (p ∷ ps) = omega (arith, hash_loop-sum 0 (p ∷ ps) (omega arith))

-- Attributes in another order have the same key, so that they update the same data point.
pub attrs_key-Perm : (l₁ l₂ : Attrs) → Perm l₁ l₂ → attrs_key l₁ ≡ attrs_key l₂
attrs_key-Perm l₁ l₂ d =
    ∥∥₁_elim d (hlevel) (λ e. omega (arith, attrs_key-sum l₁, attrs_key-sum l₂, sum_hash-Permᴰ e))
