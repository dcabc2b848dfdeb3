-- ===== src/Tests/Wire.antt =====
-- A concrete JSON library, mux, address library and network that meet the documented laws.
use secretstash.Base.{
  zero, suc, ◌≡◌, refl, ap₂, [], ◌∷◌, ◌++◌, Option, none, some, true, false, Bytes, length, take,
  drop, take-length-append, drop-length-append, lookup, bytes_dec,
}
use secretstash.Base.Int.{ℤ, pos, negsuc}
use secretstash.Base.Result.{Result, ok, err}
use secretstash.Base.Text.{trim_slashes}
use secretstash.Api.{
  Api, WrapRequest, Response, wrapped, unwrapped, peeked, done, healthy, failure, ParseDuration,
}
use secretstash.Api.Json.{Json, Wrapped}
use secretstash.Api.Remote.{Net}
use secretstash.Api.Http.{Setup, Moment, Mux, serve}
use secretstash.Cli.{Network, Client, ClientFlags}
use secretstash.Cli.Calls.{arriving, answer, Reaches}
use secretstash.Tests.Samples.{codec, ciphers, rand}

-- An integer is its sign and its size.
abbrev write_int : ℤ → Bytes → Bytes
write_int (pos n) rest = 0 ∷ n ∷ rest
write_int (negsuc n) rest = 1 ∷ n ∷ rest

abbrev read_int : Bytes → Option (ℤ × Bytes)
read_int [] = none
read_int (s ∷ []) = none
read_int (zero ∷ n ∷ rest) = some (pos n, rest)
read_int (suc s ∷ n ∷ rest) = some (negsuc n, rest)

pub read_int-write_int : (n : ℤ) (rest : Bytes) → read_int (write_int n rest) ≡ some (n, rest)
read_int-write_int (pos n) rest = refl
read_int-write_int (negsuc n) rest = refl

abbrev write_response : Response → Bytes
write_response (wrapped token expiry reads url) = write_int reads (expiry ∷ token)
write_response (unwrapped secret reads created) = write_int reads secret
write_response (peeked expiry reads) = write_int reads (expiry ∷ [])
write_response done = []
write_response (healthy version uptime) = uptime ∷ version
write_response (failure status e) = status ∷ []

abbrev wrapped_of : ℤ × Bytes → Result Bytes Wrapped
wrapped_of (reads, []) = err []
wrapped_of (reads, expiry ∷ token) =
    ok (record { token = token; expires_at = expiry; reads = reads; share_url = [] })

abbrev read_wrapped : Bytes → Result Bytes Wrapped
read_wrapped b = elim (read_int b) [ none ↦ err [] | some r ↦ wrapped_of r ]

abbrev read_unwrapped : Bytes → Result Bytes (Bytes × ℤ)
read_unwrapped b = elim (read_int b) [ none ↦ err [] | some (reads, secret) ↦ ok (secret, reads) ]

abbrev request_of : ℤ × Bytes → Option WrapRequest
request_of (reads, []) = none
request_of (reads, n ∷ rest) =
    some (record { secret = drop n rest; ttl = take n rest; reads = reads })

abbrev read_request : Bytes → Option WrapRequest
read_request b = elim (read_int b) [ none ↦ none | some r ↦ request_of r ]

abbrev pub json : Json
json = record {
  utf8 = λ b. true;
  write_response = write_response;
  read_request = read_request;
  write_request = λ secret reads ttl. ok (write_int reads (length ttl ∷ (ttl ++ secret)));
  read_wrapped = read_wrapped;
  read_unwrapped = read_unwrapped;
  read_peeked = λ b. err [];
  read_health = λ b. err [];
  read_message = λ b. [];
  write_shares = λ parts k reads expires. err [];
  utf8-ascii = λ b h. refl;
  read_request-write_request = λ secret ttl reads u v. (
    write_int reads (length ttl ∷ (ttl ++ secret)),
    refl,
    rw (read_int-write_int reads (length ttl ∷ (ttl ++ secret)), read_request)
        (ap₂ (λ s t. some (record { secret = s; ttl = t; reads = reads }))
          (drop-length-append ttl secret) (take-length-append ttl secret)),
  );
  read_wrapped-write_response = λ token expiry reads url u. (
    record { token = token; expires_at = expiry; reads = reads; share_url = [] },
    rw (read_int-write_int reads (expiry ∷ token), read_wrapped) refl,
    refl,
    refl,
  );
  read_unwrapped-write_response =
      λ secret reads created u. rw (read_int-write_int reads secret, read_unwrapped) refl;
}

-- Every address is its own host.
abbrev pub net : Net
net = record {
  trim_space = λ s. s;
  parse_ip = some;
  is_loopback_ip = λ ip. false;
  split_host_port = λ s. some (s, []);
}

-- The patterns have no wildcards, so a lookup finds the route.
abbrev mux : Mux
mux endpoints method path = elim (lookup bytes_dec (method ++ 32 ∷ path) endpoints) [
  | some e ↦ ok e
  | none ↦ err (record { status = 404; headers = []; body = [] })
]

abbrev parse : ParseDuration
parse d = some (pos (length d))

abbrev pub setup : Setup
setup = record {
  codec = codec;
  ciphers = ciphers;
  rand = rand;
  parse = parse;
  json = json;
  net = net;
  mux = mux;
  real_ip_header = [];
  version = [];
}

abbrev pub lib : Client
lib = record {
  parse_flags = λ command args. err [];
  env_addr = [];
  new_request = λ method url. ok tt;
  print_int = λ n. [];
  print_quoted = λ s. s;
  print_time = λ t. [];
  print_seconds = λ n. [];
  json = json;
}

abbrev pub flags : ClientFlags
flags = record { addr = 1 ∷ 2 ∷ []; skip_verify = false; json_out = false }

abbrev pub caller_addr : Bytes
caller_addr = 9 ∷ []

-- Behind the address of two bytes stands the path.
abbrev pub network : Moment → Network Api
network m a o =
    answer (serve setup m (arriving caller_addr o.method (drop 2 o.url) o.token o.body) a)

pub network-Reaches : (m : Moment) → Reaches setup lib (network m) flags.addr caller_addr m
unfolding trim_slashes
network-Reaches m = record {
  same_json = refl;
  valid = λ method path. refl;
  arrives = λ a method path token body skip_verify. refl;
}
