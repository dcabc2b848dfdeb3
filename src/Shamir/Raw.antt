-- ===== src/Shamir/Raw.antt =====
-- splitRaw and combineRaw of internal/shamir/shamir.go, on slices of bytes with the coordinate last.
pub mod Split
pub mod Products
pub mod Combine
pub mod Vanishing
use secretstash.Base.{
  ℕ, zero, suc, ◌+◌, ◌-◌, ◌%◌, bit_xor, List, [], ◌∷◌, ◌++◌, map, Option, none, some, Bytes, length,
  get_or, set, replicate, ◌==◌, if◌then◌else◌,
}
use secretstash.Shamir.Gf.{u8, gf_mul, gf_inv, gf_eval}

-- crypto/rand: the bytes that the call with this number fills a slice of this length with, or its
-- error.
abbrev pub Rand : Type 0
Rand = ℕ → ℕ → Option Bytes

-- The shares before any secret byte: room for the body, and the coordinate byte(i + 1).
unfoldable pub blank_shares : ℕ → ℕ → ℕ → List Bytes
blank_shares body_len i zero = []
blank_shares body_len i (suc n) =
    (replicate body_len 0 ++ u8 (i + 1) ∷ []) ∷ blank_shares body_len (suc i) n

-- shares[i][bi] = gfEval(coeffs, shares[i][len(secret)])
unfoldable pub fill : ℕ → ℕ → Bytes → Bytes → Bytes
fill body_len bi coeffs share = set share bi (gf_eval coeffs (get_or share body_len 0))

-- The loop over the secret bytes from the index bi; `none` is the error of rand.Read.
unfoldable pub split_loop : Rand → ℕ → ℕ → ℕ → Bytes → List Bytes → Option (List Bytes)
unfolding fill
split_loop rand k body_len bi [] shares = some shares
split_loop rand k body_len bi (sb ∷ secret) shares = elim (rand bi (k - 1)) [
  | none ↦ none
  | some random ↦
      split_loop rand k body_len (suc bi) secret (map (fill body_len bi (sb ∷ random)) shares)
]

unfoldable pub split_raw : Rand → Bytes → ℕ → ℕ → Option (List Bytes)
unfolding blank_shares split_loop
split_raw rand secret n k =
    split_loop rand k (length secret) 0 secret (blank_shares (length secret) 0 n)

-- The inner loop of combineRaw from the index j: num and den over all points but the i-th.
unfoldable pub products : ℕ → ℕ → ℕ → Bytes → ℕ → ℕ → ℕ × ℕ
products i xi j [] num den = (num, den)
products i xi j (xj ∷ xs) num den =
    products i xi (suc j) xs (if j == i then num else gf_mul num xj)
      (if j == i then den else gf_mul den (bit_xor xi xj))

-- The loop over the shares from the index i, for the body byte bi.
unfoldable pub interpolate : Bytes → ℕ → ℕ → List Bytes → ℕ → ℕ
unfolding products
interpolate xs bi i [] acc = acc
interpolate xs bi i (share ∷ shares) acc =
    let (num, den) = products i (get_or xs i 0) 0 xs 1 1 in
    interpolate xs bi (suc i) shares
      (bit_xor acc (gf_mul (get_or share bi 0) (gf_mul num (gf_inv den))))

-- The loop over the body bytes from the index bi; `rounds` of them are left.
unfoldable pub combine_loop : Bytes → List Bytes → ℕ → ℕ → Bytes
unfolding interpolate
combine_loop xs shares bi zero = []
combine_loop xs shares bi (suc rounds) =
    interpolate xs bi 0 shares 0 ∷ combine_loop xs shares (suc bi) rounds

-- combineRaw; it is never called on an empty slice, where shares[0] panics.
unfoldable pub combine_raw : List Bytes → Bytes
unfolding combine_loop
combine_raw [] = []
combine_raw (share ∷ shares) =
    let body_len = length share - 1 in
    combine_loop (map (λ s. get_or s body_len 0) (share ∷ shares)) (share ∷ shares) 0 body_len
