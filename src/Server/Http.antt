-- ===== src/Server/Http.antt =====
-- The handlers of internal/server/server.go around the API: the parts of the site, the metrics, the
-- security headers and the recovery from panics of internal/api/middleware.go.
use secretstash.Base.{
  ℕ, List, [], ◌∷◌, ◌++◌, Option, none, some, Bytes, Bool, true, false, insert, bytes_dec,
  if◌then◌else◌,
}
use secretstash.Base.Result.{Result, ok, err}
use secretstash.Base.Text.{ascii, line}
use secretstash.Api.{Api}
use secretstash.Api.Exposition.{metrics_body}
use secretstash.Api.Http.{Request, Reply, Moment, Setup, serve}
use secretstash.Tls.{TlsConfig}
use secretstash.Server.{Running}
use secretstash.Web.{Assets, handler}

-- The parts of the site.
pub data Part : Type 0 where
  v1 metrics ui : Part

-- The patterns that Run registers.
unfoldable pub parts : {Cert : Type 0} → Running Cert → List (Bytes × Part)
parts r =
    (ascii "/v1/", v1)
    ∷ ((if r.serves_metrics then (ascii "GET /metrics", metrics) ∷ [] else [])
        ++ (if r.serves_ui then (47 ∷ [], ui) ∷ [] else []))

abbrev pub has_tls : {Cert : Type 0} → Option (TlsConfig Cert) → Bool
has_tls none = false
has_tls (some t) = true

-- SecurityHeaders
unfoldable pub security_headers : Bool → List (Bytes × Bytes)
security_headers hsts =
    (ascii "X-Content-Type-Options", ascii "nosniff")
    ∷ (ascii "Referrer-Policy", ascii "no-referrer")
    ∷ (ascii "Content-Security-Policy", ascii "default-src 'self'; frame-ancestors 'none'")
    ∷ (ascii "X-Frame-Options", ascii "DENY")
    ∷ (if hsts then (ascii "Strict-Transport-Security", ascii "max-age=31536000") ∷ [] else [])

-- What a handler did: a reply, or a panic before it wrote one, with the headers set by then.
pub data Handled : Type 0 where
  replied : Reply → Handled
  panicked : List (Bytes × Bytes) → Handled

-- http.Error in Recover.
unfoldable pub recovered : List (Bytes × Bytes) → Reply
recovered headers = record {
  status = 500;
  headers =
      insert bytes_dec (ascii "X-Content-Type-Options") (ascii "nosniff")
        (insert bytes_dec (ascii "Content-Type") (ascii "text/plain; charset=utf-8") headers);
  body = line (ascii "{\"code\":\"internal\",\"message\":\"internal server error\"}");
}

-- Recover around SecurityHeaders, whose headers are set before the handler runs.
unfoldable pub protect : Bool → Handled → Reply
unfolding security_headers recovered
protect hsts (replied r) = record r { headers = security_headers hsts ++ r.headers }
protect hsts (panicked headers) = recovered (security_headers hsts ++ headers)

-- HandleMetrics
unfoldable pub handle_metrics : (ℕ → Bytes) → Bytes → Moment → Api → Reply
unfolding metrics_body
handle_metrics print version m a = record {
  status = 200;
  headers =
      (ascii "Content-Type", ascii "text/plain; version=0.0.4; charset=utf-8")
      ∷ (ascii "Cache-Control", ascii "no-store")
      ∷ [];
  body = metrics_body print a m.now version;
}

-- What the site takes from outside: its mux, the files of the web pages, and the setup of the API.
pub record Site : Type 1 where
  pub setup : Setup
  pub print : ℕ → Bytes
  pub site_mux : List (Bytes × Part) → Bytes → Bytes → Result Reply Part
  pub assets : Assets

module _ (site : Site) where
  open site use {setup, print, site_mux, assets}
  open setup use {version}

  unfoldable pub handle_part : Moment → Request → Result Reply Part → Api → Api × Reply
  unfolding handle_metrics handler
  handle_part m req (err r) a = (a, r)
  handle_part m req (ok v1) a = serve setup m req a
  handle_part m req (ok metrics) a = (a, handle_metrics print version m a)
  handle_part m req (ok ui) a = (a, handler assets req)

-- The site with the header that Run trusts for the address of a client.
abbrev pub trusting : Site → Bytes → Site
trusting site header = record site { setup = record site.setup { real_ip_header = header } }

-- One request to a running server, where no handler panics.
unfoldable pub respond :
    {Cert : Type 0} → Site → Running Cert → Moment → Request → Running Cert × Reply
unfolding handle_part parts protect
respond site r m req =
    let (a, reply) =
      handle_part (trusting site r.real_ip_header) m req
        (site.site_mux (parts r) req.method req.path) r.state in
    (record r { state = a }, protect (has_tls r.tls) (replied reply))
