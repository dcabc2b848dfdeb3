-- ===== src/Tls.antt =====
-- selfSignedCert and tlsConfig of internal/server/tls.go: the certificate that the server makes for itself.
-- The making of keys and the signing are left to the libraries.
use secretstash.Base.{ℕ, ◌+◌, ◌-◌, ◌*◌, List, [], ◌∷◌, Option, none, some, Bytes, Bool, true, ◌^◌}
use secretstash.Base.Result.{Result, ok, ◌>>=◌}
use secretstash.Base.Text.{ascii}
use secretstash.Store.{Time}
use secretstash.Api.Remote.{Net}

-- The hosts that selfSignedCert puts into a certificate.
pub record Names : Type 0 where
  pub dns : List Bytes
  pub ips : List Bytes

-- The x509 constants that selfSignedCert uses.
pub data KeyUsage : Type 0 where
  digital_signature : KeyUsage

pub data ExtKeyUsage : Type 0 where
  server_auth : ExtKeyUsage

-- x509.Certificate, as selfSignedCert fills it; the times are in nanoseconds.
pub record Template : Type 0 where
  pub serial : ℕ
  pub common_name : Bytes
  pub not_before : Time
  pub not_after : Time
  pub key_usage : KeyUsage
  pub ext_key_usage : List ExtKeyUsage
  pub basic_constraints_valid : Bool
  pub names : Names

-- What the package takes from crypto and encoding/hex. The error of a function is its text.
pub record Certs : Type 1 where
  pub Key : Type 0
  pub Cert : Type 0
  -- tls.LoadX509KeyPair, and the tls.Certificate of a DER and a key
  pub load_key_pair : Bytes → Bytes → Result Bytes Cert
  pub of_der : Bytes → Key → Cert
  -- ecdsa.GenerateKey(elliptic.P256(), rand.Reader)
  pub generate_key : Result Bytes Key
  -- rand.Int(rand.Reader, max)
  pub rand_int : ℕ → Result Bytes ℕ
  -- x509.CreateCertificate of a template that is its own parent, to its DER
  pub create_certificate : Template → Key → Result Bytes Bytes
  pub sha256 : Bytes → Bytes
  pub hex : Bytes → Bytes

-- The names of selfSignedCert: those of this machine, and the host that the server listens on.
unfoldable pub host_names : Net → Option (Bytes × Bytes) → Names
host_names net none = record {
  dns = ascii "localhost" ∷ [];
  ips = ascii "127.0.0.1" ∷ ascii "::1" ∷ [];
}
host_names net (some ([], port)) = record {
  dns = ascii "localhost" ∷ [];
  ips = ascii "127.0.0.1" ∷ ascii "::1" ∷ [];
}
host_names net (some (c ∷ host, port)) = elim (net.parse_ip (c ∷ host)) [
  | some ip ↦ record {
    dns = ascii "localhost" ∷ [];
    ips = ascii "127.0.0.1" ∷ ascii "::1" ∷ ip ∷ [];
  }
  | none ↦ record {
    dns = ascii "localhost" ∷ (c ∷ host) ∷ [];
    ips = ascii "127.0.0.1" ∷ ascii "::1" ∷ [];
  }
]

abbrev hour : Time
hour = 3600000000000

-- The template of selfSignedCert: valid from an hour back to 90 days ahead.
unfoldable pub template : Net → Bytes → Time → ℕ → Template
unfolding host_names
template net listen now serial = record {
  serial = serial;
  common_name = ascii "secretstash";
  not_before = now - hour;
  not_after = now + 90 * 24 * hour;
  key_usage = digital_signature;
  ext_key_usage = server_auth ∷ [];
  basic_constraints_valid = true;
  names = host_names net (net.split_host_port listen);
}

-- tls.VersionTLS12
abbrev pub version_tls12 : ℕ
version_tls12 = 0x0303

-- tls.Config, as tlsConfig fills it.
pub record TlsConfig (Cert : Type 0) : Type 0 where
  pub certificate : Cert
  pub min_version : ℕ

abbrev pub tls_config : {Cert : Type 0} → Cert → TlsConfig Cert
tls_config cert = record { certificate = cert; min_version = version_tls12 }

module _ (net : Net) (certs : Certs) where
  open certs use {Key, Cert, of_der, generate_key, rand_int, create_certificate, sha256, hex}

  -- selfSignedCert: the certificate and its fingerprint.
  unfoldable pub self_signed_cert : Bytes → Time → Result Bytes (Cert × Bytes)
  unfolding template
  self_signed_cert listen now = do
    key ← generate_key
    serial ← rand_int (2 ^ 128)
    der ← create_certificate (template net listen now serial) key
    ok (of_der der key, hex (sha256 der))
