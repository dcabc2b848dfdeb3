-- ===== src/Api/Http/Traffic.antt =====
-- The API of internal/api/api.go at work: requests, one after the other, and between them the ticks of the
-- janitor of internal/store/janitor.go.
use secretstash.Base.{◌≡◌, refl, sym, ap, ◌∙◌, subst, List, [], ◌∷◌, ◌++◌}
use secretstash.Base.Int.{ℤ}
use secretstash.Memory.{Memory}
use secretstash.Store.{Time, SecretId, Store, purge}
use secretstash.Store as store
use secretstash.Store.Calls.{Call, purges, step, run, run-append}
use secretstash.Store.Valid.{IsValid, run-IsValid}
use secretstash.Api.{Api, Config}
use secretstash.Api as api
use secretstash.Api.Http.{Request, Moment, Setup, serve}
use secretstash.Api.Http.Calls.{calls_of, serve-run}

pub data Happening : Type 0 where
  requests : Moment → Request → Happening
  ticks : Time → (SecretId → Time) → Happening

module _ (setup : Setup) where
  unfoldable pub happen : Api → Happening → Api
  happen a (requests m req) = (serve setup m req a).0
  happen a (ticks now clock) = record a { secrets = purge a.secrets now clock }

  unfoldable pub happens : Api → List Happening → Api
  unfolding happen
  happens a [] = a
  happens a (h ∷ hs) = happens (happen a h) hs

  -- The calls of the store that they make.
  unfoldable pub calls : Api → Happening → List Call
  calls a (requests m req) = calls_of setup m req a
  calls a (ticks now clock) = purges now clock ∷ []

  unfoldable pub history : Api → List Happening → List Call
  unfolding calls happen
  history a [] = []
  history a (h ∷ hs) = calls a h ++ history (happen a h) hs

  pub happen-run : (a : Api) (h : Happening) → (happen a h).secrets ≡ run a.secrets (calls a h)
  unfolding happen calls run step
  happen-run a (requests m req) = serve-run setup m req a
  happen-run a (ticks now clock) = refl

  -- Whatever is asked of the server, its secrets are those after a history of calls of the store.
  pub happens-run :
      (a : Api) (hs : List Happening) → (happens a hs).secrets ≡ run a.secrets (history a hs)
  unfolding happens history run
  happens-run a [] = refl
  happens-run a (h ∷ hs) =
      happens-run (happen a h) hs
      ∙ ap (λ s. run s (history (happen a h) hs)) (happen-run a h)
      ∙ sym (run-append a.secrets (calls a h) (history (happen a h) hs))

  -- After any requests and ticks since the start of the server, the invariant of the store holds.
  pub happens-IsValid :
      (max_secrets max_tombstones : ℤ) (memory : Memory) (cfg : Config) (started : Time)
      (hs : List Happening)
      → IsValid
          (happens (api.new (store.new max_secrets max_tombstones memory) cfg started) hs).secrets
  unfolding api.new
  happens-IsValid max_secrets max_tombstones memory cfg started hs =
      let a = api.new (store.new max_secrets max_tombstones memory) cfg started in
      subst IsValid (sym (happens-run a hs))
        (run-IsValid max_secrets max_tombstones memory (history a hs))
