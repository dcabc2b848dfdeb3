-- ===== src/Shamir/Share/Splits.antt =====
-- What Split returns: the shares of random polynomials that hide the secret.
use mathlib.Core.Option
use secretstash.Base.{
  ℕ, suc, ◌-◌, ◌≤◌, ◌≡◌, ◌≢◌, refl, ap, subst, List, [], ◌∷◌, map, Option, none, some, false, ◌||◌,
  Bytes, length, All, arith, ◌==◌, ltb,
}
use secretstash.Shamir.Codec.{Codec, IsBytes}
use secretstash.Shamir.Raw.{Rand}
use secretstash.Shamir.Raw.Split.{coordinates, polynomials, share_at, split_raw-share_at}
use secretstash.Shamir.Raw.Combine.{IsPolynomial, constant}
use secretstash.Base.Result.{ok, ◌>>=◌, or_fail, refuse-eq_ok}
use secretstash.Shamir.Share.{bare, randomness, render, split}

-- A draw that succeeds returns bytes, as many as were asked for.
abbrev pub Fills : Rand → Type 0
Fills rand = (i n : ℕ) (r : Bytes) → rand i n ≡ some r → IsBytes r × (length r ≡ n)

-- The random polynomials have the secret bytes as constant terms, and k coefficients.
pub record Hides (k : ℕ) (secret : Bytes) (polys : List Bytes) : Type 0 where
  pub polynomial : All (IsPolynomial k) polys
  pub constants : map constant polys ≡ secret
  pub count : length polys ≡ length secret

-- What a successful draw of the polynomials consists of.
pub draw_split :
    (sb : ℕ) (drawn : Option Bytes) (rest : Option (List Bytes)) {polys : List Bytes}
    → (elim drawn [ none ↦ none | some r ↦ Option.map (◌∷◌ (sb ∷ r)) rest ]) ≡ some polys
    → (r : Bytes) × (ps : List Bytes) × (drawn ≡ some r)
      × (rest ≡ some ps)
      × ((sb ∷ r) ∷ ps ≡ polys)
draw_split sb none rest e = cc
draw_split sb (some r) none e = cc
draw_split sb (some r) (some ps) e = (r, ps, refl, refl, cc)

pub Hides-polynomials :
    (rand : Rand) (k bi : ℕ) (secret : Bytes) (polys : List Bytes)
    → Fills rand
    → 1 ≤ k
    → IsBytes secret
    → polynomials rand k bi secret ≡ some polys
    → Hides k secret polys
unfolding polynomials
Hides-polynomials rand k bi [] polys fills hk b e =
    subst (Hides k []) (some_inj e) (record { polynomial = tt; constants = refl; count = refl })
  where
    some_inj : ◌≡◌ {A = Option (List Bytes)} (some []) (some polys) → [] ≡ polys
    some_inj q = cc
Hides-polynomials rand k bi (sb ∷ secret) polys fills hk b e =
    let (r, ps, d, re, eq) =
      draw_split sb (rand bi (k - 1)) (polynomials rand k (suc bi) secret) e in
    let f = fills bi (k - 1) r d in
    let ih = Hides-polynomials rand k (suc bi) secret ps fills hk b.1 re in
    subst (Hides k (sb ∷ secret)) eq (record {
      polynomial = ((b.0, f.0, omega arith), ih.polynomial);
      constants = ap (◌∷◌ sb) ih.constants;
      count = ap suc ih.count;
    })

-- What Split returns when it succeeds.
pub record Splits (codec : Codec) (rand : Rand) (secret : Bytes) (n k : ℕ) (shares : List Bytes)
    : Type 0 where
  pub low : 2 ≤ k
  pub high : k ≤ n
  pub few : n ≤ 255
  pub some_secret : secret ≢ []
  pub polys : List Bytes
  pub drawn : polynomials rand k 0 secret ≡ some polys
  pub rendered : shares ≡ map (render codec k) (map (share_at polys) (coordinates 0 n))

raw-cases :
    (render_all : List Bytes → List Bytes) (xs : Bytes) (drawn : Option (List Bytes))
    {shares : List Bytes}
    → (do
      raw ← or_fail (Option.map (λ polys. map (share_at polys) xs) drawn) (bare randomness)
      ok (render_all raw))
      ≡ ok shares
    → (polys : List Bytes) × (drawn ≡ some polys) × (shares ≡ render_all (map (share_at polys) xs))
raw-cases render_all xs none e = cc
raw-cases render_all xs (some polys) e = (polys, refl, cc)

module _ (codec : Codec) (rand : Rand) where
  pub Splits-split :
      (secret : Bytes) (n k : ℕ) {shares : List Bytes}
      → split codec rand secret n k ≡ ok shares
      → Splits codec rand secret n k shares
  unfolding split
  Splits-split secret n k {shares} e =
      let g1 = refuse-eq_ok (length secret == 0) _ _ e in
      let g2 = refuse-eq_ok (ltb k 2 || ltb n k) _ _ g1.1 in
      let g3 = refuse-eq_ok (ltb 255 n) _ _ g2.1 in
      let (polys, drawn, rendered) =
        raw-cases (map (render codec k)) (coordinates 0 n) (polynomials rand k 0 secret)
          (rw (split_raw-share_at rand secret n k) at g3.1) in
      record {
        low = ground arith;
        high = ground arith;
        few = ground arith;
        some_secret = not_empty secret g1.0;
        polys = polys;
        drawn = drawn;
        rendered = rendered;
      }
    where
      not_empty : (s : Bytes) → (length s == 0) ≡ false → s ≢ []
      not_empty s h = ground arith
