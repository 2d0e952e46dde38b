-- ===== src/Operator/Certificates.antt =====
-- cmd/operator/main.go: the TLS options that the servers of the webhook and of the metrics have.
use conduit_operator.Prelude.{
  ℕ, zero, suc, String, ◌≡◌, refl, Bool, true, false, Option, none, some, List, [], ◌∷◌, ◌++◌,
  subst, sym, ltb, ◌+◌, arith, inl, inr, ◌⊎◌,
}
use conduit_operator.Operator.Slices.{items}
use conduit_operator.Operator.CommandLine.{Options}
use conduit_operator.Operator.{
  TlsOption, disable_http2, certificate, Attempt, made, fatal, Tls, Calls, cert_watcher,
  append_certificate, tls_opts, tls_setup,
}

pub Attempt-cases :
    {A : Type 0} (t : Attempt A)
    → ((a : A) × (t ≡ made a)) ⊎ ((msg : String) × (e : String) × (t ≡ fatal msg e))
Attempt-cases (made a) = inl (a, refl)
Attempt-cases (fatal msg e) = inr (msg, e, refl)

pub made-injective : {A : Type 0} {a b : A} → made a ≡ made b → a ≡ b
made-injective h = cc h

-- The options that a server is meant to have.
abbrev pub common : {W : Type 0} → Bool → List (TlsOption W)
common true = []
common false = disable_http2 ∷ []

abbrev pub own : {W : Type 0} → Option W → List (TlsOption W)
own none = []
own (some w) = certificate w ∷ []

-- The certificate of the webhook's server: where HTTP/2 is off and the array of the one common option
-- has room, the two appends write to one place, and the metrics' certificate is written last.
abbrev pub served : {W : Type 0} → Bool → Option W → Option W → ℕ → Option W
served false (some w) (some m) (suc k) = some m
served http2 webhook metrics room = webhook

has_room : (k : ℕ) → ltb 1 (1 + suc k) ≡ true
has_room k = ground arith

module _ (C : Calls) where
  abbrev laid : Bool → Option C.Watcher → Option C.Watcher → Tls C.Watcher
  laid http2 webhook metrics =
      let (arrays, opts) = tls_opts C http2 in
      let (arrays', webhook_opts) = append_certificate C webhook arrays opts in
      let (arrays'', metrics_opts) = append_certificate C metrics arrays' opts in
      record {
        arrays = arrays'';
        webhook_opts = webhook_opts;
        metrics_opts = metrics_opts;
        webhook_watcher = webhook;
        metrics_watcher = metrics;
      }

  items_of_laid :
      (http2 : Bool) (webhook metrics : Option C.Watcher) (r : ℕ)
      → C.room 1 ≡ r
      → (items (laid http2 webhook metrics).arrays (laid http2 webhook metrics).metrics_opts
          ≡ common http2 ++ own metrics)
        × (items (laid http2 webhook metrics).arrays (laid http2 webhook metrics).webhook_opts
            ≡ common http2 ++ own (served http2 webhook metrics r))
  items_of_laid true none none r e = (refl, refl)
  items_of_laid true none (some m) r e = (refl, refl)
  items_of_laid true (some w) none r e = (refl, refl)
  items_of_laid true (some w) (some m) r e = (refl, refl)
  items_of_laid false none none r e = (refl, refl)
  items_of_laid false none (some m) zero e = rw e (refl, refl)
  items_of_laid false none (some m) (suc k) e = rw (e, has_room k) (refl, refl)
  items_of_laid false (some w) none zero e = rw e (refl, refl)
  items_of_laid false (some w) none (suc k) e = rw (e, has_room k) (refl, refl)
  items_of_laid false (some w) (some m) zero e = rw e (refl, refl)
  items_of_laid false (some w) (some m) (suc k) e = rw (e, has_room k) (refl, refl)

  laid_of_setup :
      {Z : Type 0} (o : Options Z) (t : Tls C.Watcher)
      → tls_setup C o ≡ made t
      → t ≡ laid o.enable_http2 t.webhook_watcher t.metrics_watcher
  unfolding tls_setup
  laid_of_setup o t h =
      let webhook =
        cert_watcher C "Failed to initialize webhook certificate watcher" o.webhook_cert_path
          o.webhook_cert_name o.webhook_cert_key in
      let metrics =
        cert_watcher C "to initialize metrics certificate watcher" o.metrics_cert_path
          o.metrics_cert_name o.metrics_cert_key in
      elim (Attempt-cases webhook) [
        | inr (msg, e, g) ↦ absurd (cc (rw (g, tls_setup) at h))
        | inl (w, g) ↦ elim (Attempt-cases metrics) [
          | inr (msg, e, k) ↦ absurd (cc (rw (g, k, tls_setup) at h))
          | inl (m, k) ↦
              let same : made (laid o.enable_http2 w m) ≡ made t = rw (g, k, tls_setup) at h in
              let made_t = made-injective same in
              subst (λ x. x ≡ laid o.enable_http2 x.webhook_watcher x.metrics_watcher) made_t refl
        ]
      ]

  -- Where no watcher of a certificate fails, the metrics server has the option against HTTP/2,
  -- unless HTTP/2 is enabled, and its own certificate, if there is one; so has the webhook's
  -- server, except where HTTP/2 is off, both certificates are there and append leaves room behind
  -- a first item: then the webhook's server has the certificate of the metrics server.
  pub tls_setup_lem :
      {Z : Type 0} (o : Options Z) (t : Tls C.Watcher)
      → tls_setup C o ≡ made t
      → (items t.arrays t.metrics_opts ≡ common o.enable_http2 ++ own t.metrics_watcher)
        × (items t.arrays t.webhook_opts
            ≡ common o.enable_http2
              ++ own (served o.enable_http2 t.webhook_watcher t.metrics_watcher (C.room 1)))
  tls_setup_lem o t h =
      subst
        (λ x.
          (items x.arrays x.metrics_opts ≡ common o.enable_http2 ++ own t.metrics_watcher)
          × (items x.arrays x.webhook_opts
              ≡ common o.enable_http2
                ++ own (served o.enable_http2 t.webhook_watcher t.metrics_watcher (C.room 1))))
        (sym (laid_of_setup o t h))
        (items_of_laid o.enable_http2 t.webhook_watcher t.metrics_watcher (C.room 1) refl)
