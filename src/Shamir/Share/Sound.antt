-- ===== src/Shamir/Share/Sound.antt =====
-- What Combine has checked when it succeeds.
use mathlib.Core.List.{append-nil, append_assoc}
use secretstash.Base.{
  ℕ, suc, ◌≤◌, ◌≡◌, ◌≢◌, refl, sym, ap, ap₂, ◌∙◌, subst, List, [], ◌∷◌, ◌++◌, map, false, Bytes,
  length, length-map, All, arith, ltb,
}
use secretstash.Base.Result.{Result, ok, err, refuse-eq_ok, bind-eq_ok, ok_inj}
use secretstash.Shamir.Codec.{Codec}
use secretstash.Shamir.Gf.{u8}
use secretstash.Shamir.Raw.{combine_raw}
use secretstash.Shamir.Share.{
  Error, in_share, duplicate_x, wrap, agree, contains, decode_share, combine_shares, combine,
}
use secretstash.Shamir.Share.Combine.{Separate}

-- The coordinate and the body of a share.
abbrev pub Point : Type 0
Point = ℕ × Bytes

abbrev pub raw_point : Point → Bytes
raw_point (x, body) = body ++ u8 x ∷ []

abbrev pub coordinate : Point → ℕ
coordinate p = p.0

wrap-eq_ok : {A : Type 0} (i : ℕ) (m : Result Error A) {a : A} → wrap i m ≡ ok a → m ≡ ok a
wrap-eq_ok i (ok b) h = ap ok (ok_inj h)
wrap-eq_ok i (err e) h = cc

agree-eq_ok :
    (i want_k body_len k : ℕ) (body : Bytes) (r : ℕ × ℕ)
    → agree (suc i) want_k body_len k body ≡ ok r
    → (k ≡ want_k) × (length body ≡ body_len) × (r.0 ≡ want_k) × (r.1 ≡ body_len)
unfolding agree
agree-eq_ok i want_k body_len k body r h = ground arith

contains_cons :
    (y x : ℕ) (seen : Bytes) → contains y (x ∷ seen) ≡ false → (y ≢ x) × (contains y seen ≡ false)
unfolding contains
contains_cons y x seen h = ground arith

-- The shares from the second on, behind those that have been seen.
record Rest (codec : Codec) (want_k body_len : ℕ) (seen : Bytes) (raw shares : List Bytes) (k : ℕ)
    (raws : List Bytes) : Type 0 where
  points : List Point
  decoded : map (decode_share codec) shares ≡ map (λ p. ok (want_k, p.0, p.1)) points
  same_k : k ≡ want_k
  lengths : All (λ p. length p.1 ≡ body_len) points
  fresh : All (λ p. contains p.0 seen ≡ false) points
  separate : Separate (map coordinate points)
  result : raws ≡ raw ++ map raw_point points

apart :
    (x : ℕ) (seen : Bytes) (points : List Point)
    → All (λ p. contains p.0 (x ∷ seen) ≡ false) points
    → All (λ y. y ≢ x) (map coordinate points) × All (λ p. contains p.0 seen ≡ false) points
apart x seen [] h = (tt, tt)
apart x seen (p ∷ points) h =
    let c = contains_cons p.0 x seen h.0 in
    let r = apart x seen points h.1 in ((c.0, r.0), (c.1, r.1))

module _ (codec : Codec) where
  combine_shares-Rest :
      (i want_k body_len : ℕ) (seen : Bytes) (raw shares : List Bytes) (k : ℕ) (raws : List Bytes)
      → combine_shares codec (suc i) want_k body_len seen raw shares ≡ ok (k, raws)
      → Rest codec want_k body_len seen raw shares k raws
  unfolding combine_shares
  combine_shares-Rest i want_k body_len seen raw [] k raws h = record {
    points = [];
    decoded = refl;
    same_k = sym (ap (λ r. r.0) (ok_inj h));
    lengths = tt;
    fresh = tt;
    separate = tt;
    result = sym (ap (λ r. r.1) (ok_inj h)) ∙ sym (append-nil raw);
  }
  combine_shares-Rest i want_k body_len seen raw (s ∷ shares) k raws h =
      let ((k1, x, body), d, h1) = bind-eq_ok (wrap (suc i) (decode_share codec s)) _ h in
      let (a, ag, h2) = bind-eq_ok (wrap (suc i) (agree (suc i) want_k body_len k1 body)) _ h1 in
      let (ek, el, wk, bl) = agree-eq_ok i want_k body_len k1 body a (wrap-eq_ok (suc i) _ ag) in
      let (new, h3) = refuse-eq_ok (contains x seen) _ _ h2 in
      let ih =
        combine_shares-Rest (suc i) want_k body_len (x ∷ seen) (raw ++ raw_point (x, body) ∷ [])
          shares k raws
          (subst
            (λ w.
              combine_shares codec (suc (suc i)) w body_len (x ∷ seen)
                (raw ++ raw_point (x, body) ∷ []) shares
              ≡ ok (k, raws))
            wk
            (subst
              (λ l.
                combine_shares codec (suc (suc i)) a.0 l (x ∷ seen)
                  (raw ++ raw_point (x, body) ∷ []) shares
                ≡ ok (k, raws))
              bl h3)) in
      let (others, fresh) = apart x seen ih.points ih.fresh in
      record {
        points = (x, body) ∷ ih.points;
        decoded =
            ap₂ ◌∷◌ (wrap-eq_ok (suc i) (decode_share codec s) d ∙ ap (λ w. ok (w, x, body)) ek)
              ih.decoded;
        same_k = ih.same_k;
        lengths = (el, ih.lengths);
        fresh = (new, fresh);
        separate = (others, ih.separate);
        result = ih.result ∙ append_assoc raw (raw_point (x, body) ∷ []) (map raw_point ih.points);
      }

  -- The checks of Combine: every share decodes and passes its checksum, they have one threshold k and
  -- bodies of one length, no coordinate stands twice, and there are two shares at least and k at least.
  pub record Sound (shares : List Bytes) (secret : Bytes) : Type 0 where
    pub threshold : ℕ
    pub body_len : ℕ
    pub points : List Point
    pub decoded : map (decode_share codec) shares ≡ map (λ p. ok (threshold, p.0, p.1)) points
    pub lengths : All (λ p. length p.1 ≡ body_len) points
    pub separate : Separate (map coordinate points)
    pub several : 2 ≤ length shares
    pub enough : threshold ≤ length shares
    pub result : secret ≡ combine_raw (map raw_point points)

  length-decoded :
      (shares : List Bytes) (k : ℕ) (points : List Point)
      → map (decode_share codec) shares ≡ map (λ p. ok (k, p.0, p.1)) points
      → length points ≡ length shares
  length-decoded shares k points d =
      sym (length-map {B = Result Error (ℕ × ℕ × Bytes)} (λ p. ok (k, p.0, p.1)) points)
      ∙ sym (ap length d)
      ∙ length-map (decode_share codec) shares

  first_Sound :
      (s : Bytes) (shares : List Bytes) (k : ℕ) (raws : List Bytes) (secret : Bytes)
      → 2 ≤ length (s ∷ shares)
      → combine_shares codec 0 0 0 [] [] (s ∷ shares) ≡ ok (k, raws)
      → k ≤ length raws
      → secret ≡ combine_raw raws
      → Sound (s ∷ shares) secret
  unfolding combine_shares agree
  first_Sound s shares k raws secret several h enough result =
      let ((k1, x, body), d, h1) = bind-eq_ok (wrap 0 (decode_share codec s)) _ h in
      let (new, h2) =
        refuse-eq_ok (contains x []) (in_share 1 duplicate_x)
          (combine_shares codec 1 k1 (length body) (x ∷ []) (raw_point (x, body) ∷ []) shares) h1 in
      let rest =
        combine_shares-Rest 0 k1 (length body) (x ∷ []) (raw_point (x, body) ∷ []) shares k raws
          h2 in
      let sep = apart x [] rest.points rest.fresh in
      record {
        threshold = k1;
        body_len = length body;
        points = (x, body) ∷ rest.points;
        decoded = ap₂ ◌∷◌ (wrap-eq_ok 0 (decode_share codec s) d) rest.decoded;
        lengths = (refl, rest.lengths);
        separate = (sep.0, rest.separate);
        several = several;
        enough = at_least rest (length-decoded shares k1 rest.points rest.decoded);
        result = result ∙ ap combine_raw rest.result;
      }
    where
      at_least :
          {k1 l x : ℕ} {p : Bytes} (r : Rest codec k1 l (x ∷ []) (p ∷ []) shares k raws)
          → length r.points ≡ length shares
          → k1 ≤ length (s ∷ shares)
      at_least r n =
          omega (arith, enough, r.same_k, ap length r.result, length-map raw_point r.points, n)

  -- Combine succeeds only on shares that pass its checks, and then returns what combineRaw returns for
  -- their points.
  pub combine-Sound :
      (shares : List Bytes) (secret : Bytes)
      → combine codec shares ≡ ok secret
      → Sound shares secret
  unfolding combine
  combine-Sound shares secret h =
      let (several, h1) = refuse-eq_ok (ltb (length shares) 2) _ _ h in
      let ((k, raws), c, h2) = bind-eq_ok (combine_shares codec 0 0 0 [] [] shares) _ h1 in
      let (enough, h3) = refuse-eq_ok (ltb (length raws) k) _ _ h2 in
      let two : 2 ≤ length shares = ground (arith, several) in
      let few : k ≤ length raws = ground (arith, enough) in
      cases shares k raws two c few (sym (ok_inj h3))
    where
      cases :
          (l : List Bytes) (k : ℕ) (raws : List Bytes)
          → 2 ≤ length l
          → combine_shares codec 0 0 0 [] [] l ≡ ok (k, raws)
          → k ≤ length raws
          → secret ≡ combine_raw raws
          → Sound l secret
      cases [] k raws n c e r = absurd (omega arith)
      cases (s ∷ l) k raws n c e r = first_Sound s l k raws secret n c e r
