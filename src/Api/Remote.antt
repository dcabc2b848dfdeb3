-- ===== src/Api/Remote.antt =====
-- remoteIP of internal/api/middleware.go: whose budget a request is charged to.
use secretstash.Base.{
  ℕ, Bool, ◌≡◌, refl, sym, ap, ◌∙◌, [], ◌∷◌, ◌++◌, Option, none, some, Bytes, ◌==◌, if◌then◌else◌,
  All, arith, ◌≢◌,
}

-- What the function takes from net and strings.
pub record Net : Type 0 where
  -- strings.TrimSpace
  pub trim_space : Bytes → Bytes
  -- net.ParseIP and the String of its result
  pub parse_ip : Bytes → Option Bytes
  -- net.IP.IsLoopback of a parsed address
  pub is_loopback_ip : Bytes → Bool
  -- net.SplitHostPort
  pub split_host_port : Bytes → Option (Bytes × Bytes)

-- What stands behind the last comma: strings.LastIndex(v, ",") and the slice behind it.
unfoldable pub after_comma : Bytes → Option Bytes
after_comma [] = none
after_comma (c ∷ s) = elim (after_comma s) [
  | some t ↦ some t
  | none ↦ if c == 44 then some s else none
]

unfoldable pub last_hop : Bytes → Bytes
unfolding after_comma
last_hop v = elim (after_comma v) [ none ↦ v | some t ↦ t ]

-- The host of the socket address.
unfoldable pub socket_ip : Net → Bytes → Bytes
socket_ip net addr = elim (net.split_host_port addr) [ none ↦ addr | some (host, port) ↦ host ]

-- The address that a hop of a header gives, or the socket address.
unfoldable pub hop_ip : Net → Bytes → Bytes → Bytes
unfolding socket_ip
hop_ip net hop addr = elim (net.parse_ip (net.trim_space hop)) [
  | none ↦ socket_ip net addr
  | some ip ↦ ip
]

unfoldable pub header_ip : Net → Bytes → Bytes → Bytes
unfolding last_hop hop_ip
header_ip net [] addr = socket_ip net addr
header_ip net (c ∷ v) addr = hop_ip net (last_hop (c ∷ v)) addr

-- remoteIP: `name` is RealIPHeader, `header` the Get of the request's header, `addr` its RemoteAddr.
unfoldable pub remote_ip : Net → Bytes → (Bytes → Bytes) → Bytes → Bytes
unfolding header_ip
remote_ip net [] header addr = socket_ip net addr
remote_ip net (c ∷ name) header addr = header_ip net (header (c ∷ name)) addr

abbrev pub NoComma : Bytes → Type 0
NoComma = All (λ c. c ≢ 44)

after_comma-NoComma : (hop : Bytes) → NoComma hop → after_comma hop ≡ none
unfolding after_comma
after_comma-NoComma [] h = refl
after_comma-NoComma (c ∷ s) h = rw (after_comma-NoComma s h.1) (ground (arith, h.0))

after_comma-append : (front hop : Bytes) → NoComma hop → after_comma (front ++ 44 ∷ hop) ≡ some hop
unfolding after_comma
after_comma-append [] hop h = rw (after_comma-NoComma hop h) refl
after_comma-append (c ∷ front) hop h = rw (after_comma-append front hop h) refl

last_hop-append : (front hop : Bytes) → NoComma hop → last_hop (front ++ 44 ∷ hop) ≡ hop
unfolding last_hop
last_hop-append front hop h = rw (after_comma-append front hop h, last_hop) refl

last_hop-NoComma : (hop : Bytes) → NoComma hop → last_hop hop ≡ hop
unfolding last_hop
last_hop-NoComma hop h = rw (after_comma-NoComma hop h, last_hop) refl

header_ip-append :
    (net : Net) (front : Bytes) (c : ℕ) (hop addr : Bytes)
    → NoComma (c ∷ hop)
    → header_ip net (front ++ 44 ∷ c ∷ hop) addr ≡ header_ip net (c ∷ hop) addr
unfolding header_ip
header_ip-append net [] c hop addr h =
    ap (λ v. hop_ip net v addr)
      (last_hop-append [] (c ∷ hop) h ∙ sym (last_hop-NoComma (c ∷ hop) h))
header_ip-append net (d ∷ front) c hop addr h =
    ap (λ v. hop_ip net v addr)
      (last_hop-append (d ∷ front) (c ∷ hop) h ∙ sym (last_hop-NoComma (c ∷ hop) h))

-- What a client writes in front of the last comma of the trusted header has no effect on the address
-- that it is charged to, if the proxy appends a hop that is not empty and has no comma.
pub remote_ip-append :
    (net : Net) (name : Bytes) (front : Bytes) (c : ℕ) (hop addr : Bytes)
    → NoComma (c ∷ hop)
    → remote_ip net name (λ n. front ++ 44 ∷ c ∷ hop) addr ≡ remote_ip net name (λ n. c ∷ hop) addr
unfolding remote_ip
remote_ip-append net [] front c hop addr h = refl
remote_ip-append net (n ∷ name) front c hop addr h = header_ip-append net front c hop addr h
