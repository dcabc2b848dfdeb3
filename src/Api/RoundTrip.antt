-- ===== src/Api/RoundTrip.antt =====
-- A secret that handleWrap accepts is what handleUnwrap returns for its token.
use secretstash.Base.{
  ℕ, ◌+◌, ◌<◌, ◌≡◌, refl, sym, ap, ap₂, ◌∙◌, ◌⊎◌, [], ◌∷◌, Option, none, some, Bool-cases, inl, inr,
  Bytes, length, ◌++◌, leb, size, arith,
}
use secretstash.Base.Int.{ℤ, pred}
use secretstash.Base.Result.{Result, ok, err}
use secretstash.Shamir.Codec.{Codec, IsBytes}
use secretstash.Shamir.Raw.{Rand}
use secretstash.Shamir.Share.Splits.{Fills}
use secretstash.Crypto.{
  token_prefix, token_bytes, Ciphers, Error, Box, new_token, parse_token, lookup_id, seal, open_box,
}
use secretstash.Crypto.Tokens.{parse_token-new_token, new_token-NewToken}
use secretstash.Crypto.Sealing.{open_box-seal}
use secretstash.Store.{
  Time, Entry, Store, Answer, add_time, new_entry, lookup_entry, set_entry, put, take,
}
use secretstash.Store.Calls.{seal_into, sealed_of}
use secretstash.Store.Delivery.{box_of, Delivers, take-Delivers}
use secretstash.Store.Countdown.{lookup_entry-set_entry}
use secretstash.Api.{Api, WrapRequest, Response, wrapped, unwrapped, ParseDuration, read_wrap}
use secretstash.Api.Handlers.{
  wrap_response, store_box, issue, wrap_request, handle_wrap, check_token, token_from,
  unwrap_response, unwrap_answer, unwrap_token, handle_unwrap,
}

module _ (codec : Codec) (ciphers : Ciphers) (parse : ParseDuration) where
  -- What a wrap that answers with a token did to the store.
  record Stored (a : Api) (now : Time) (token : Bytes) (ttl reads : ℤ) (box : Box) (a' : Api)
      (token' : Bytes) (expiry : Time) : Type 0 where
    same_token : token ≡ token'
    expires : add_time now ttl ≡ expiry
    secrets :
        set_entry box.lookup_id
          (new_entry now (sealed_of a.secrets box) ttl reads)
          (seal_into a.secrets box)
        ≡ a'.secrets

  wrapped_inj :
      {a a' : Api} {t t' : Bytes} {x x' : Time} {n n' : ℤ} {u u' : Option Bytes}
      → ◌≡◌ {A = Api × Response} (a, wrapped t x n u) (a', wrapped t' x' n' u')
      → (a.secrets ≡ a'.secrets) × (t ≡ t') × (x ≡ x')
  wrapped_inj h = (ap (λ p. p.0.secrets) h, cc, cc)

  put-cases :
      (s : Store) (now : Time) (box : Box) (ttl reads : ℤ)
      → (put (seal_into s box) now (sealed_of s box) ttl reads ≡ (seal_into s box, none))
        ⊎ (put (seal_into s box) now (sealed_of s box) ttl reads ≡ (
          set_entry box.lookup_id (new_entry now (sealed_of s box) ttl reads) (seal_into s box),
          some (new_entry now (sealed_of s box) ttl reads),
        ))
  unfolding put
  put-cases s now box ttl reads = elim (Bool-cases (leb s.max_secrets (size s.entries))) [
    | inl h ↦ inl (rw h refl)
    | inr h ↦ inr (rw h refl)
  ]

  store_box-Stored :
      (a : Api) (now : Time) (token : Bytes) (ttl reads : ℤ) (box : Box) (a' : Api) (token' : Bytes)
      (expiry : Time) (n : ℤ) (url : Option Bytes)
      → store_box codec ciphers parse a now token ttl reads (ok box)
        ≡ (a', wrapped token' expiry n url)
      → Stored a now token ttl reads box a' token' expiry
  unfolding store_box wrap_response
  store_box-Stored a now token ttl reads box a' token' expiry n url e =
      elim (put-cases a.secrets now box ttl reads) [
        | inl p ↦ absurd (full (sym (ap answer p) ∙ e))
        | inr p ↦
            let (s, t, x) = wrapped_inj (sym (ap answer p) ∙ e) in
            record { same_token = t; expires = x; secrets = s }
      ]
    where
      answer : Store × Option Entry → Api × Response
      answer r = wrap_response (record a { secrets = r.0 }) token reads r.1

      full : answer (seal_into a.secrets box, none) ≡ (a', wrapped token' expiry n url) → ⊥
      full h = cc

  -- Every random draw of a wrap that answered with a token.
  issue-Stored :
      (rand : Rand) (a : Api) (now : Time) (call : ℕ) (secret : Bytes) (ttl reads : ℤ)
      (drawn : Result Error (Bytes × Bytes)) (a' : Api) (token : Bytes) (expiry : Time) (n : ℤ)
      (url : Option Bytes)
      → issue codec ciphers parse rand a now call secret ttl reads drawn
        ≡ (a', wrapped token expiry n url)
      → (raw : Bytes) × (box : Box) × (drawn ≡ ok (token, raw))
        × (seal codec ciphers rand call raw secret ≡ ok box)
        × Stored a now token ttl reads box a' token expiry
  unfolding issue store_box
  issue-Stored rand a now call secret ttl reads (err x) a' token expiry n url e = cc
  issue-Stored rand a now call secret ttl reads (ok (t, raw)) a' token expiry n url e =
      sealed (seal codec ciphers rand call raw secret) refl e
    where
      sealed :
          (m : Result Error Box)
          → seal codec ciphers rand call raw secret ≡ m
          → store_box codec ciphers parse a now t ttl reads m ≡ (a', wrapped token expiry n url)
          → (raw' : Bytes) × (box : Box) × (◌≡◌ {A = Result Error (Bytes × Bytes)}
              (ok (t, raw))
              (ok (token, raw')))
            × (seal codec ciphers rand call raw' secret ≡ ok box)
            × Stored a now token ttl reads box a' token expiry
      sealed (err x) q f = cc
      sealed (ok box) q f =
          let st = store_box-Stored a now t ttl reads box a' token expiry n url f in
          (
            raw,
            box,
            ap (λ u. ok (u, raw)) st.same_token,
            q,
            record { same_token = refl; expires = st.expires; secrets = st.secrets },
          )

  pub token_from-parse_token :
      (a : Api) (now : Time) (ip token raw : Bytes)
      → parse_token codec token ≡ ok raw
      → token_from codec ciphers parse a now ip token ≡ ok (raw, lookup_id codec ciphers raw)
  unfolding token_from parse_token check_token
  token_from-parse_token a now ip [] raw h = cc
  token_from-parse_token a now ip (c ∷ cs) raw h = rw h refl

  unwrap_answer-Delivers :
      (a : Api) (now : Time) (ip raw secret : Bytes) (s : Store) (e : Entry)
      (r : Store × Answer Entry)
      → Delivers s e r
      → open_box codec ciphers raw (box_of s e) ≡ ok secret
      → (unwrap_answer codec ciphers parse (record a { secrets = r.0 }) now ip raw r.1).1
        ≡ unwrapped secret (pred e.reads_remaining) e.created_at
  unfolding unwrap_answer unwrap_response
  unwrap_answer-Delivers a now ip raw secret s e r d o =
      rw (d.answer, d.box, o, d.reads, d.created) refl

  -- A token whose entry is in the store, with the secret that opens from it.
  pub record Live (s : Store) (token raw secret : Bytes) (e : Entry) : Type 0 where
    pub parsed : parse_token codec token ≡ ok raw
    pub entry : lookup_entry (lookup_id codec ciphers raw) s ≡ some e
    pub allocated : e.sealed.ciphertext < s.memory.next
    pub opened : open_box codec ciphers raw (box_of s e) ≡ ok secret

  -- handleUnwrap on a token whose entry is live.
  pub handle_unwrap-Live :
      (a : Api) (now later : Time) (ip token raw secret : Bytes) (e : Entry)
      → Live a.secrets token raw secret e
      → now < e.expires_at
      → (handle_unwrap codec ciphers parse a now later ip token).1
        ≡ unwrapped secret (pred e.reads_remaining) e.created_at
  unfolding handle_unwrap unwrap_token
  handle_unwrap-Live a now later ip token raw secret e v x =
      ap (λ t. (unwrap_token codec ciphers parse a now later ip t).1)
        (token_from-parse_token a now ip token raw v.parsed)
      ∙ unwrap_answer-Delivers a later ip raw secret a.secrets e
          (take a.secrets now later (lookup_id codec ciphers raw))
          (take-Delivers a.secrets now later (lookup_id codec ciphers raw) e v.entry x v.allocated)
          v.opened

  box_of-sealed_of :
      (s : Store) (now : Time) (ttl reads : ℤ) (box : Box)
      → box_of (seal_into s box) (new_entry now (sealed_of s box) ttl reads) ≡ box
  box_of-sealed_of s now ttl reads box =
      ap
        (λ c. record {
          lookup_id = box.lookup_id;
          ciphertext = c;
          salt = box.salt;
          nonce = box.nonce;
        })
        (ground arith)

  -- What a wrap that answers with a token leaves: 32 bytes behind the token, and its entry.
  pub record Wraps (token secret : Bytes) (now : Time) (reads : ℤ) (s : Store) (expiry : Time)
      : Type 0 where
    pub raw : Bytes
    pub entry : Entry
    pub live : Live s token raw secret entry
    pub size : length raw ≡ token_bytes
    pub bytes : IsBytes raw
    pub text : token ≡ token_prefix ++ codec.encode raw
    pub expires : entry.expires_at ≡ expiry
    pub reads_remaining : entry.reads_remaining ≡ reads
    pub created : entry.created_at ≡ now

  pub handle_wrap-Wraps :
      (rand : Rand) (a : Api) (now : Time) (call : ℕ) (body : Option WrapRequest) (secret : Bytes)
      (ttl reads : ℤ) (a' : Api) (token : Bytes) (expiry : Time) (n : ℤ) (url : Option Bytes)
      → Fills rand
      → read_wrap parse a.cfg body ≡ ok (secret, ttl, reads)
      → handle_wrap codec ciphers parse rand a now call body ≡ (a', wrapped token expiry n url)
      → Wraps token secret now reads a'.secrets expiry
  unfolding handle_wrap wrap_request
  handle_wrap-Wraps rand a now call body secret ttl reads a' token expiry n url fills r w =
      let (raw, box, drawn, sealed, st) =
        issue-Stored rand a now (call + 1) secret ttl reads (new_token codec rand call) a' token
          expiry n url (sym (ap (wrap_request codec ciphers parse rand a now call) r) ∙ w) in
      let e : Entry = new_entry now (sealed_of a.secrets box) ttl reads in
      let opened = open_box-seal codec ciphers rand (call + 1) raw secret box fills sealed in
      let stored = set_entry box.lookup_id e (seal_into a.secrets box) in
      let made = new_token-NewToken codec rand call token raw fills drawn in
      record {
        raw = raw;
        entry = e;
        live = record {
          parsed = (parse_token-new_token codec rand call token raw fills drawn).1;
          entry =
              ap (λ s. lookup_entry (lookup_id codec ciphers raw) s) (sym st.secrets)
              ∙ ap (λ i. lookup_entry i stored) (sym opened.0)
              ∙ lookup_entry-set_entry box.lookup_id e (seal_into a.secrets box);
          allocated = omega (arith, ap (λ s. s.memory.next) st.secrets);
          opened =
              ap (λ s. open_box codec ciphers raw (box_of s e)) (sym st.secrets)
              ∙ ap (open_box codec ciphers raw) (box_of-sealed_of a.secrets now ttl reads box)
              ∙ opened.1;
        };
        size = made.0;
        bytes = made.1;
        text = made.2;
        expires = st.expires;
        reads_remaining = refl;
        created = refl;
      }

  -- If handleWrap accepts a secret and answers with a token, then handleUnwrap with this token and
  -- before the expiry, from any address, answers with the secret, the time of the wrap and one
  -- read less than were asked for; the random source fills the slices that it is given with bytes.
  pub handle_unwrap-handle_wrap :
      (rand : Rand) (a : Api) (now : Time) (call : ℕ) (body : Option WrapRequest) (secret : Bytes)
      (ttl reads : ℤ) (a' : Api) (token : Bytes) (expiry : Time) (n : ℤ) (url : Option Bytes)
      (now' later' : Time) (ip : Bytes)
      → Fills rand
      → read_wrap parse a.cfg body ≡ ok (secret, ttl, reads)
      → handle_wrap codec ciphers parse rand a now call body ≡ (a', wrapped token expiry n url)
      → now' < expiry
      → (handle_unwrap codec ciphers parse a' now' later' ip token).1
        ≡ unwrapped secret (pred reads) now
  handle_unwrap-handle_wrap rand a now call body secret ttl reads a' token expiry n url now' later'
        ip fills r w h =
      let wraps =
        handle_wrap-Wraps rand a now call body secret ttl reads a' token expiry n url fills r w in
      handle_unwrap-Live a' now' later' ip token wraps.raw secret wraps.entry wraps.live
        (omega (arith, wraps.expires, h))
      ∙ ap₂ (unwrapped secret) (ap pred wraps.reads_remaining) wraps.created
