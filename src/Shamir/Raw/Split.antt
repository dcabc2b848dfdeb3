-- ===== src/Shamir/Raw/Split.antt =====
-- What splitRaw returns: one random polynomial for each secret byte, evaluated at each coordinate.
use mathlib.Core.Path.{fun_ext}
use mathlib.Core.List.{append-nil, append_assoc, map-append, map-map}
use mathlib.Core.Option
use secretstash.Base.{
  ℕ, zero, suc, ◌+◌, ◌-◌, ◌≡◌, refl, sym, ap, ap₂, ◌∙◌, List, [], ◌∷◌, ◌++◌, map, Option, none,
  some, Bytes, length, get_or, set, replicate, arith, get_or-append, set-append, length-append,
  length-map, length-replicate, Option-cases, inl, inr,
}
use secretstash.Shamir.Gf.{u8, gf_eval}
use secretstash.Shamir.Raw.{Rand, blank_shares, fill, split_loop, split_raw}

-- The coordinates byte(i + 1), byte(i + 2), …
unfoldable pub coordinates : ℕ → ℕ → Bytes
coordinates i zero = []
coordinates i (suc n) = u8 (i + 1) ∷ coordinates (suc i) n

-- The coefficients for each secret byte from the index bi.
unfoldable pub polynomials : Rand → ℕ → ℕ → Bytes → Option (List Bytes)
polynomials rand k bi [] = some []
polynomials rand k bi (sb ∷ secret) = elim (rand bi (k - 1)) [
  | none ↦ none
  | some random ↦ Option.map (◌∷◌ (sb ∷ random)) (polynomials rand k (suc bi) secret)
]

-- The share at x: the value of each polynomial, and the coordinate.
unfoldable pub share_at : List Bytes → ℕ → Bytes
share_at polys x = map (λ p. gf_eval p x) polys ++ x ∷ []

-- A share in which m bytes are not filled yet.
partial : List Bytes → ℕ → ℕ → Bytes
partial done m x = (map (λ p. gf_eval p x) done ++ replicate m 0) ++ x ∷ []

fill-partial :
    (done : List Bytes) (p : Bytes) (m x : ℕ)
    → fill (length done + suc m) (length done) p (partial done (suc m) x)
      ≡ partial (done ++ p ∷ []) m x
unfolding fill partial
fill-partial done p m x =
    ap (λ t. set row (length done) (gf_eval p t)) coordinate
    ∙ ap₂ (λ r i. set r i (gf_eval p x)) (append_assoc values (replicate (suc m) 0) (x ∷ []))
        (sym (length-map _ done))
    ∙ set-append values 0 (replicate m 0 ++ x ∷ []) (gf_eval p x)
    ∙ sym (
        ap (λ t. (t ++ replicate m 0) ++ x ∷ []) (map-append (λ q. gf_eval q x) done (p ∷ []))
        ∙ append_assoc (values ++ gf_eval p x ∷ []) (replicate m 0) (x ∷ [])
        ∙ append_assoc values (gf_eval p x ∷ []) (replicate m 0 ++ x ∷ []))
  where
    values : Bytes
    values = map (λ q. gf_eval q x) done

    row : Bytes
    row = (values ++ replicate (suc m) 0) ++ x ∷ []

    coordinate : get_or row (length done + suc m) 0 ≡ x
    coordinate =
        ap (λ t. get_or row t 0)
          (omega (
            arith,
            length-append values (replicate (suc m) 0),
            length-map (λ q. gf_eval q x) done,
            length-replicate {A = ℕ} m 0,
          ))
        ∙ get_or-append (values ++ replicate (suc m) 0) x [] 0

fill_step :
    (done : List Bytes) (p : Bytes) (m body_len bi : ℕ) (xs : Bytes)
    → bi ≡ length done
    → body_len ≡ bi + suc m
    → map (fill body_len bi p) (map (partial done (suc m)) xs) ≡ map (partial (done ++ p ∷ []) m) xs
fill_step done p m body_len bi xs e f =
    map-map _ _ xs
    ∙ ap (λ h. map h xs)
        (fun_ext (λ x.
          ap₂ (λ b i. fill b i p (partial done (suc m) x)) (f ∙ ap (λ t. t + suc m) e) e
          ∙ fill-partial done p m x))

regroup :
    (done : List Bytes) (p : Bytes) (xs : Bytes) (rest : Option (List Bytes))
    → Option.map (λ ps. map (share_at ((done ++ p ∷ []) ++ ps)) xs) rest
      ≡ Option.map (λ ps. map (share_at (done ++ ps)) xs) (Option.map (◌∷◌ p) rest)
regroup done p xs none = refl
regroup done p xs (some ps) = ap (λ l. some (map (share_at l) xs)) (append_assoc done (p ∷ []) ps)

split_loop-polynomials :
    (rand : Rand) (k body_len bi : ℕ) (secret : Bytes) (done : List Bytes) (xs : Bytes)
    → bi ≡ length done
    → body_len ≡ bi + length secret
    → split_loop rand k body_len bi secret (map (partial done (length secret)) xs)
      ≡ Option.map (λ ps. map (share_at (done ++ ps)) xs) (polynomials rand k bi secret)
unfolding split_loop polynomials
split_loop-polynomials rand k body_len bi [] done xs e f =
    unfold partial share_at in
    ap (λ h. some (map h xs))
      (fun_ext (λ x.
        ap (λ t. t ++ x ∷ []) (append-nil _)
        ∙ ap (λ d. map (λ p. gf_eval p x) d ++ x ∷ []) (sym (append-nil done))))
split_loop-polynomials rand k body_len bi (sb ∷ secret) done xs e f =
    elim (Option-cases (rand bi (k - 1))) [
      | inl h ↦ rw (h, split_loop, polynomials) refl
      | inr (random, h) ↦
          rw (h, split_loop, polynomials)
            (ap (split_loop rand k body_len (suc bi) secret)
                (fill_step done (sb ∷ random) (length secret) body_len bi xs e f)
              ∙ split_loop-polynomials rand k body_len (suc bi) secret (done ++ (sb ∷ random) ∷ [])
                  xs (omega (arith, length-append done ((sb ∷ random) ∷ []))) (omega arith)
              ∙ regroup done (sb ∷ random) xs (polynomials rand k (suc bi) secret))
    ]

blank_shares-coordinates : (m i n : ℕ) → blank_shares m i n ≡ map (partial [] m) (coordinates i n)
unfolding blank_shares coordinates partial
blank_shares-coordinates m i zero = refl
blank_shares-coordinates m i (suc n) =
    ap (◌∷◌ (replicate m 0 ++ u8 (i + 1) ∷ [])) (blank_shares-coordinates m (suc i) n)

-- splitRaw draws one polynomial for each byte of the secret, and its shares are the values of the
-- polynomials at 1, 2, …, n; it fails exactly when a draw fails.
pub split_raw-share_at :
    (rand : Rand) (secret : Bytes) (n k : ℕ)
    → split_raw rand secret n k
      ≡ Option.map (λ polys. map (share_at polys) (coordinates 0 n)) (polynomials rand k 0 secret)
unfolding split_raw
split_raw-share_at rand secret n k =
    ap (split_loop rand k (length secret) 0 secret) (blank_shares-coordinates (length secret) 0 n)
    ∙ split_loop-polynomials rand k (length secret) 0 secret [] (coordinates 0 n) refl (omega arith)
