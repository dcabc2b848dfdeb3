-- ===== src/Web.antt =====
-- internal/web/web.go: the pages of the browser. The embedded files and the file server of net/http are
-- parameters; the scripts of the pages are not modelled.
use secretstash.Base.{List, [], ◌∷◌, Option, none, some, Bytes}
use secretstash.Base.Result.{Result, ok, err}
use secretstash.Base.Text.{ascii}
use secretstash.Api.Http.{Reply, Request}

-- The handlers that Handler registers.
pub data Page : Type 0 where
  page : Bytes → Page
  static : Page

-- The patterns of Handler.
abbrev pub pages : List (Bytes × Page)
pages =
    (ascii "GET /{$}", page (ascii "static/index.html"))
    ∷ (ascii "GET /s", page (ascii "static/unwrap.html"))
    ∷ (ascii "GET /unwrap", page (ascii "static/unwrap.html"))
    ∷ (ascii "GET /combine", page (ascii "static/combine.html"))
    ∷ (ascii "GET /static/", static)
    ∷ []

-- What the package takes from embed and net/http.
pub record Assets : Type 0 where
  -- assets.ReadFile
  pub read_file : Bytes → Option Bytes
  -- http.NotFound
  pub not_found : Request → Reply
  -- http.FileServerFS(assets)
  pub file_server : Request → Reply
  -- http.ServeMux on these patterns
  pub mux : List (Bytes × Page) → Bytes → Bytes → Result Reply Page

module _ (assets : Assets) where
  open assets use {read_file, not_found, file_server, mux}

  -- servePage
  unfoldable pub serve_page : Bytes → Request → Reply
  serve_page path req = elim (read_file path) [
    | none ↦ not_found req
    | some b ↦ record {
      status = 200;
      headers = (ascii "Content-Type", ascii "text/html; charset=utf-8") ∷ [];
      body = b;
    }
  ]

  unfoldable pub routed_page : Request → Result Reply Page → Reply
  unfolding serve_page
  routed_page req (err r) = r
  routed_page req (ok (page path)) = serve_page path req
  routed_page req (ok static) = file_server req

  -- Handler
  unfoldable pub handler : Request → Reply
  unfolding routed_page
  handler req = routed_page req (mux pages req.method req.path)
