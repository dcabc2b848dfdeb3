-- ===== src/Api/Labels.antt =====
-- quote of internal/api/metrics.go: label values in the text exposition of the metrics.
use mathlib.Core.Option
use secretstash.Base.{
  ℕ, ◌≡◌, refl, ap, [], ◌∷◌, Option, none, some, Bool, true, false, Bool-cases, inl, inr, Bytes,
  drop, ◌==◌, if◌then◌else◌, arith,
}

-- The switch on one byte, in front of what follows: 92 is a backslash, 34 a double quote, 10 a newline.
unfoldable pub escape_byte : ℕ → Bytes → Bytes
escape_byte c rest =
    if c == 92
    then 92 ∷ 92 ∷ rest
    else if c == 34
    then 92 ∷ 34 ∷ rest
    else if c == 10
    then 92 ∷ b'n' ∷ rest
    else c ∷ rest

unfoldable pub escape : Bytes → Bytes → Bytes
unfolding escape_byte
escape [] rest = rest
escape (c ∷ s) rest = escape_byte c (escape s rest)

unfoldable pub quote : Bytes → Bytes
unfolding escape
quote s = 34 ∷ escape s (34 ∷ [])

-- How a scraper reads a label value behind its opening quote, by the exposition format.
abbrev pub unescape : ℕ → ℕ
unescape c = if c == b'n' then 10 else c

unfoldable pub read_label : Bool → Bytes → Option (Bytes × Bytes)
read_label escaped [] = none
read_label true (c ∷ s) = Option.map (λ r. (unescape c ∷ r.0, r.1)) (read_label false s)
read_label false (c ∷ s) =
    let plain = read_label false s in
    let escaped = read_label true s in
    if c == 34
    then some ([], s)
    else if c == 92
    then escaped
    else Option.map (λ r. (c ∷ r.0, r.1)) plain

read_label-escape_byte :
    (c : ℕ) (s t rest : Bytes)
    → read_label false t ≡ some (s, rest)
    → read_label false (escape_byte c t) ≡ some (c ∷ s, rest)
unfolding escape_byte read_label
read_label-escape_byte c s t rest h = elim (Bool-cases (c == 92)) [
  | inl p ↦ rw (p, h) (ap (λ i. some (i ∷ s, rest)) (ground arith))
  | inr p ↦ elim (Bool-cases (c == 34)) [
    | inl q ↦ rw (p, q, h) (ap (λ i. some (i ∷ s, rest)) (ground arith))
    | inr q ↦ elim (Bool-cases (c == 10)) [
      | inl u ↦ rw (p, q, u, h) (ap (λ i. some (i ∷ s, rest)) (ground arith))
      | inr u ↦ rw (p, q, u) (rw (q, p, h) refl)
    ]
  ]
]

read_label-escape : (s rest : Bytes) → read_label false (escape s (34 ∷ rest)) ≡ some (s, rest)
unfolding escape read_label
read_label-escape [] rest = refl
read_label-escape (c ∷ s) rest =
    read_label-escape_byte c s (escape s (34 ∷ rest)) rest (read_label-escape s rest)

-- Behind the opening quote that quote writes, a scraper reads the label value back, up to the end.
pub read_label-quote : (s : Bytes) → read_label false (drop 1 (quote s)) ≡ some (s, [])
unfolding quote
read_label-quote s = read_label-escape s []
