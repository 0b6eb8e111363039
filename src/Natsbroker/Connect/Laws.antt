-- ===== src/Natsbroker/Connect/Laws.antt =====
-- What `Connect` leaves open, and with which options it dials.
use go_platform_kit.Common.{
  ◌≡◌, ◌⊎◌, inl, inr, refl, true, false, none, some, List, [], ◌∷◌, ◌++◌, Text, is_empty, arith,
  Bool-cases, Option-cases, Sum-cases,
}
use go_platform_kit.Broker.Publish.{ok, failed}
use go_platform_kit.Broker.Dispatch.Branches.{Reply-cases}
use go_platform_kit.Natsbroker.{NatsError, Conn, JetStream}
use go_platform_kit.Natsbroker.Connect.{
  Config, TlsVersion, TlsConfig, ClientOption, NatsClient, ConnCall, dialled, closed, with_roots,
  tls_config, base_options, open_conn, connect,
}

module _ {Cert Pool Nc Cons : Type 0} (client : NatsClient Cert Pool Nc Cons) (cfg : Config) where
  -- The client's certificate is given exactly if the certificate and its key are set.
  abbrev pub HasCertificate : TlsConfig Cert Pool → Type 0
  HasCertificate t =
      (((is_empty cfg.tls_cert ≡ true) ⊎ (is_empty cfg.tls_key ≡ true)) × (t.certificates ≡ []))
      ⊎ ((is_empty cfg.tls_cert ≡ false)
          × (is_empty cfg.tls_key ≡ false)
          × ((cert : Cert) × (client.x509_key_pair cfg.tls_cert cfg.tls_key ≡ ok cert)
              × (t.certificates ≡ cert ∷ [])))

  -- The server's roots are pinned exactly if a CA is set.
  abbrev pub HasRoots : TlsConfig Cert Pool → Type 0
  HasRoots t =
      ((is_empty cfg.tls_ca ≡ true) × (t.root_cas ≡ none))
      ⊎ ((is_empty cfg.tls_ca ≡ false)
          × ((pool : Pool) × (client.certs_from_pem cfg.tls_ca ≡ some pool)
              × (t.root_cas ≡ some pool)))

  abbrev pub IsTls : TlsConfig Cert Pool → Type 0
  IsTls t = (t.min_version ≡ TlsVersion.tls12) × HasCertificate t × HasRoots t

  -- TLS is asked for exactly if a certificate or a CA is set.
  abbrev pub IsSecured : List (ClientOption Cert Pool) → Type 0
  IsSecured opts =
      ((is_empty cfg.tls_cert ≡ true) × (is_empty cfg.tls_ca ≡ true) × (opts ≡ base_options cfg))
      ⊎ (((is_empty cfg.tls_cert ≡ false) ⊎ (is_empty cfg.tls_ca ≡ false))
          × ((t : TlsConfig Cert Pool) × (opts ≡ base_options cfg ++ ClientOption.secure t ∷ [])
              × IsTls t))

  with_roots-HasRoots :
      (t t' : TlsConfig Cert Pool)
      → t.root_cas ≡ none
      → with_roots client cfg t ≡ inl t'
      → (t'.min_version ≡ t.min_version) × (t'.certificates ≡ t.certificates) × HasRoots t'
  unfolding with_roots
  with_roots-HasRoots t t' none_yet e = elim (Bool-cases (is_empty cfg.tls_ca)) [
    | inl h ↦ ground arith
    | inr h ↦ elim (Option-cases (client.certs_from_pem cfg.tls_ca)) [
      | inr (pool, p) ↦ (ground arith, ground arith, inr (h, (pool, p, ground arith)))
      | inl p ↦ absurd (ground arith)
    ]
  ]

  abbrev before_roots : List Cert → TlsConfig Cert Pool
  before_roots certs = record {
    min_version = TlsVersion.tls12;
    certificates = certs;
    root_cas = none;
  }

  without_certificate :
      (t : TlsConfig Cert Pool)
      → (is_empty cfg.tls_cert ≡ true) ⊎ (is_empty cfg.tls_key ≡ true)
      → with_roots client cfg (before_roots []) ≡ inl t
      → IsTls t
  without_certificate t missing e =
      let (version, certs, roots) = with_roots-HasRoots (before_roots []) t refl e in
      (version, inl (missing, certs), roots)

  tls_config-IsTls : (t : TlsConfig Cert Pool) → tls_config client cfg ≡ inl t → IsTls t
  unfolding tls_config
  tls_config-IsTls t e = elim (Bool-cases (is_empty cfg.tls_cert)) [
    | inl no_cert ↦ without_certificate t (inl no_cert) (ground arith)
    | inr has_cert ↦ elim (Bool-cases (is_empty cfg.tls_key)) [
      | inl no_key ↦ without_certificate t (inr no_key) (ground arith)
      | inr has_key ↦ elim (Reply-cases (client.x509_key_pair cfg.tls_cert cfg.tls_key)) [
        | inl (_, bad) ↦ absurd (ground arith)
        | inr (cert, good) ↦
            let (version, certs, roots) =
              with_roots-HasRoots (before_roots (cert ∷ [])) t refl (ground arith) in
            (version, inr (has_cert, has_key, (cert, good, certs)), roots)
      ]
    ]
  ]

  -- What `Connect` may return, and what it then has called.
  pub data Ends (r : (Conn Nc Cons ⊎ NatsError) × List (ConnCall Cert Pool Nc)) : Type 0 where
    not_dialled : (e : NatsError) → r ≡ (inr e, []) → Ends r
    refused :
        (opts : List (ClientOption Cert Pool)) (e : Text)
        → IsSecured opts
        → is_empty cfg.url ≡ false
        → r ≡ (inr (NatsError.connect_failed cfg.url e), dialled cfg.url opts (failed e) ∷ [])
        → Ends r
    without_jet_stream :
        (opts : List (ClientOption Cert Pool)) (nc : Nc) (e : Text)
        → IsSecured opts
        → is_empty cfg.url ≡ false
        → r ≡ (inr (NatsError.jetstream_failed e), dialled cfg.url opts (ok nc) ∷ closed nc ∷ [])
        → Ends r
    connected :
        (opts : List (ClientOption Cert Pool)) (nc : Nc) (js : JetStream Cons)
        → IsSecured opts
        → is_empty cfg.url ≡ false
        → r ≡ (inl (record { nc = some nc; js = some js }), dialled cfg.url opts (ok nc) ∷ [])
        → Ends r

  open_conn-Ends :
      (opts : List (ClientOption Cert Pool))
      → IsSecured opts
      → is_empty cfg.url ≡ false
      → Ends (open_conn client cfg opts)
  unfolding open_conn
  open_conn-Ends opts secured url = elim (Reply-cases (client.dial cfg.url opts)) [
    | inl (e, d) ↦ refused opts e secured url (ground arith)
    | inr (nc, d) ↦ elim (Reply-cases (client.new_jet_stream nc)) [
      | inl (e, j) ↦ without_jet_stream opts nc e secured url (ground arith)
      | inr (js, j) ↦ connected opts nc js secured url (ground arith)
    ]
  ]

  with_tls :
      is_empty cfg.url ≡ false
      → (is_empty cfg.tls_cert ≡ false) ⊎ (is_empty cfg.tls_ca ≡ false)
      → Ends (connect client cfg)
  unfolding connect
  with_tls url wanted = elim (Sum-cases (tls_config client cfg)) [
    | inr (e, bad) ↦ not_dialled e (ground arith)
    | inl (t, good) ↦
        let opts : List (ClientOption Cert Pool) = base_options cfg ++ ClientOption.secure t ∷ [] in
        let dials : connect client cfg ≡ open_conn client cfg opts = ground arith in
        rw dials (open_conn-Ends opts (inr (wanted, (t, refl, tls_config-IsTls t good))) url)
  ]

  -- Every way in which `Connect` ends. It dials at most once, and only where the URL is not empty;
  -- a connection that it dialled is returned or closed. A dial asks for TLS exactly where a
  -- certificate or a CA is set, for TLS 1.2 at the least, with the certificate where its key is set
  -- too, and with the roots of the CA where one is set.
  pub connect-Ends : Ends (connect client cfg)
  unfolding connect
  connect-Ends = elim (Bool-cases (is_empty cfg.url)) [
    | inl no_url ↦ not_dialled NatsError.empty_url (ground arith)
    | inr url ↦ elim (Bool-cases (is_empty cfg.tls_cert)) [
      | inr cert ↦ with_tls url (inl cert)
      | inl no_cert ↦ elim (Bool-cases (is_empty cfg.tls_ca)) [
        | inr ca ↦ with_tls url (inr ca)
        | inl no_ca ↦
            let plain : connect client cfg ≡ open_conn client cfg (base_options cfg) =
              ground arith in
            rw plain (open_conn-Ends (base_options cfg) (inl (no_cert, no_ca, refl)) url)
      ]
    ]
  ]
