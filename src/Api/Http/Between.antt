-- ===== src/Api/Http/Between.antt =====
-- handleUnwrap of internal/api/api.go calls Open outside the lock of the store: other requests, and ticks of
-- the janitor, may be served between its Take and its Open.
use secretstash.Base.{◌<◌, ◌≡◌, refl, sym, ap, ap₂, ◌∙◌, ◌⊎◌, inl, inr, subst, List, false, Bytes}
use secretstash.Base.Int.{ℤ, pred, is_nonpos}
use secretstash.Base.Result.{Result, ok, err}
use secretstash.Memory.{Memory}
use secretstash.Crypto.{Error, lookup_id, open_box}
use secretstash.Store.{Time, Entry, Store, Answer, take}
use secretstash.Store as store
use secretstash.Store.Valid.{IsValid}
use secretstash.Store.Delivery.{box_of}
use secretstash.Store.Handed.Lasting.{box_with, zeroed, Lasts, run-take}
use secretstash.Api.{Api, Config, Response, unwrapped, write_error, internal, decryption}
use secretstash.Api as api
use secretstash.Api.Handlers.{unwrap_response, unwrap_answer}
use secretstash.Api.RoundTrip.{Live}
use secretstash.Api.Http.{Setup}
use secretstash.Api.Http.Traffic.{Happening, happens, history, happens-run, happens-IsValid}

-- The answer of handleUnwrap to what Open returned for an entry.
abbrev pub opened : Entry → Result Error Bytes → Response
opened e (err x) = write_error 500 internal decryption
opened e (ok secret) = unwrapped secret (pred e.reads_remaining) e.created_at

module _ (setup : Setup) where
  open setup use {codec, ciphers, parse}

  -- The secret, or, if it was not the last read, what Open makes of zeros in place of the ciphertext.
  abbrev pub IsServed : Store → Bytes → Bytes → Entry → Response → Type 0
  IsServed s raw secret e response =
      (response ≡ unwrapped secret (pred e.reads_remaining) e.created_at)
      ⊎ ((is_nonpos (pred e.reads_remaining) ≡ false)
          × (response ≡ opened e (open_box codec ciphers raw (box_with e (zeroed s e)))))

  unwrap_response-opened :
      (a : Api) (e h : Entry) (r : Result Error Bytes)
      → h.reads_remaining ≡ pred e.reads_remaining
      → h.created_at ≡ e.created_at
      → (unwrap_response codec ciphers parse a h r).1 ≡ opened e r
  unfolding unwrap_response
  unwrap_response-opened a e h (err x) p q = refl
  unwrap_response-opened a e h (ok secret) p q = ap₂ (unwrapped secret) p q

  unwrap_answer-Lasts :
      (a : Api) (later : Time) (ip raw secret : Bytes) (s : Store) (e : Entry)
      (answer : Answer Entry)
      → open_box codec ciphers raw (box_of s e) ≡ ok secret
      → Lasts s e answer a.secrets
      → IsServed s raw secret e (unwrap_answer codec ciphers parse a later ip raw answer).1
  unfolding unwrap_answer
  unwrap_answer-Lasts a later ip raw secret s e answer o k = rw k.answered (elim k.box [
    | inl b ↦ inl (served ∙ ap (λ x. opened e (open_box codec ciphers raw x)) b ∙ ap (opened e) o)
    | inr (z, b) ↦ inr (z, served ∙ ap (λ x. opened e (open_box codec ciphers raw x)) b)
  ])
    where
      served :
          (unwrap_response codec ciphers parse a k.handed
            (open_box codec ciphers raw (box_of a.secrets k.handed))).1
          ≡ opened e (open_box codec ciphers raw (box_of a.secrets k.handed))
      served =
          unwrap_response-opened a e k.handed
            (open_box codec ciphers raw (box_of a.secrets k.handed)) k.reads k.created

  -- On the token of a live secret, and after any requests and ticks since the start of the server, an unwrap
  -- answers with the secret although other requests and ticks come between its Take and its Open; or, if it
  -- was not the last read, possibly with what Open makes of zeros in place of the ciphertext.
  pub unwrap_answer-IsServed :
      (max_secrets max_tombstones : ℤ) (memory : Memory) (cfg : Config) (started : Time)
      (before between : List Happening) (now later later' : Time) (ip token raw secret : Bytes)
      (e : Entry) (a : Api)
      → happens setup (api.new (store.new max_secrets max_tombstones memory) cfg started) before ≡ a
      → Live codec ciphers parse a.secrets token raw secret e
      → now < e.expires_at
      → IsServed a.secrets raw secret e
          (unwrap_answer codec ciphers parse
            (happens setup
              (record a { secrets = (take a.secrets now later (lookup_id codec ciphers raw)).0 })
              between)
            later'
            ip
            raw
            (take a.secrets now later (lookup_id codec ciphers raw)).1).1
  unwrap_answer-IsServed max_secrets max_tombstones memory cfg started before between now later
        later' ip token raw secret e a reached live h =
      let id = lookup_id codec ciphers raw in
      let r = take a.secrets now later id in
      let taken : Api = record a { secrets = r.0 } in
      let valid : IsValid a.secrets =
        subst (λ b. IsValid b.secrets) reached
          (happens-IsValid setup max_secrets max_tombstones memory cfg started before) in
      let k = run-take a.secrets now later id e (history setup taken between) valid live.entry h in
      unwrap_answer-Lasts (happens setup taken between) later' ip raw secret a.secrets e r.1
        live.opened (subst (Lasts a.secrets e r.1) (sym (happens-run setup taken between)) k)
