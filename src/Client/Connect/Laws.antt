-- ===== src/Client/Connect/Laws.antt =====
-- flightsql/client.py, create_flight_client: the transport, the certificate check and the credentials.
use flightsql_dbapi.Prelude.{◌≡◌, refl, ◌↔◌, Bool, true, false, List, ◌++◌, arith}
use flightsql_dbapi.Errors.{Result, ok, raised}
use flightsql_dbapi.Effects.{Exec, lift, pure, ◌>>=◌, ◌>>◌}
use flightsql_dbapi.Effects.Laws.{continue-eq-ok}
use flightsql_dbapi.Client.Options.{Header}
use flightsql_dbapi.Client.Connect.{
  Flag, absent, flag, other, tls, tcp, Location, Connector, Arguments, exclusive_error, check_flag,
  check_exclusive, protocol_of, skips_verification, metadata_headers, authorization, with_headers,
  open_client, create_flight_client,
}

after_checks :
    {W B : Type 0} (c₁ c₂ c₃ : Result (Unit {0})) (m : Exec W B) (w : W) (b : B) (w' : W)
    → (lift c₁ >> (lift c₂ >> (lift c₃ >> m))) w ≡ (ok b, w')
    → (c₁ ≡ ok tt) × (c₂ ≡ ok tt) × (m w ≡ (ok b, w'))
after_checks (ok _) (ok _) (ok _) m w b w' e = (refl, refl, e)
after_checks (ok _) (ok _) (raised x) m w b w' e = cc
after_checks (ok _) (raised x) _ m w b w' e = cc
after_checks (raised x) _ _ m w b w' e = cc

-- The transport is plain text exactly for the flag `insecure`, once that flag has been checked.
protocol_of_iff :
    (f : Flag) → check_flag "insecure" f ≡ ok tt → (protocol_of f ≡ tcp) ↔ (f ≡ flag true)
unfolding check_flag protocol_of
protocol_of_iff absent v = (λ h. cc, λ h. cc)
protocol_of_iff (flag true) v = (λ h. refl, λ h. refl)
protocol_of_iff (flag false) v = (λ h. cc, λ h. cc)
protocol_of_iff (other name) v = (λ h. cc, λ h. cc)

skips_verification_iff :
    (i d : Flag)
    → check_flag "disable_server_verification" d ≡ ok tt
    → (skips_verification i d ≡ true) ↔ ((protocol_of i ≡ tls) × (d ≡ flag true))
unfolding check_flag protocol_of skips_verification
skips_verification_iff i absent v = (λ h. ground arith, λ h. ground arith)
skips_verification_iff i (flag false) v = (λ h. ground arith, λ h. ground arith)
skips_verification_iff i (flag true) v = (λ h. ground arith, λ h. ground arith)
skips_verification_iff i (other name) v = (λ h. cc, λ h. cc)

module _ {W C : Type 0} (connector : Connector W C) (args : Arguments) (w : W) where
  -- With both flags set the call raises ValueError before anything is connected.
  pub create_flight_client_exclusive :
      args.insecure ≡ flag true
      → args.disable_server_verification ≡ flag true
      → create_flight_client connector args w ≡ (raised exclusive_error, w)
  unfolding create_flight_client
  create_flight_client_exclusive e f = rw (e, f)

  -- A connection that was opened: once, in plain text exactly if `insecure` is true, and without
  -- checking the certificate exactly if the transport is TLS and `disable_server_verification`
  -- is true; the headers are the credentials, followed by the metadata.
  abbrev pub Opened : C → List Header → W → Type 0
  Opened client headers w' =
      (location : Location) × (skip : Bool) × (w₁ : W) × (auth : List Header) × (connector.connect
          location skip w
        ≡ (ok client, w₁))
      × (location.host ≡ args.host)
      × (location.port ≡ args.port)
      × ((location.protocol ≡ tcp) ↔ (args.insecure ≡ flag true))
      × ((skip ≡ true)
          ↔ ((location.protocol ≡ tls) × (args.disable_server_verification ≡ flag true)))
      × (authorization connector client args w₁ ≡ (ok auth, w'))
      × (headers ≡ auth ++ metadata_headers connector args.metadata)

  -- A call that returns has connected once, in plain text exactly if `insecure` is true, and
  -- without checking the certificate exactly if the transport is TLS and
  -- `disable_server_verification` is true; its headers are the credentials, followed by the
  -- metadata.
  pub create_flight_client_ok :
      (client : C) (headers : List Header) (w' : W)
      → create_flight_client connector args w ≡ (ok (client, headers), w')
      → Opened client headers w'
  unfolding create_flight_client
  create_flight_client_ok client headers w' e =
      let (valid, valid', opened) =
        after_checks (check_flag "insecure" args.insecure)
          (check_flag "disable_server_verification" args.disable_server_verification)
          (check_exclusive args.insecure args.disable_server_verification)
          (open_client connector args >>= with_headers connector args) w (client, headers) w' e in
      let (c, w₁, connected, e₁) =
        continue-eq-ok (open_client connector args w) (with_headers connector args)
          (client, headers) w' opened in
      let (auth, w₂, authorized, e₂) =
        continue-eq-ok (authorization connector c args w₁)
          (λ found. pure (c, found ++ metadata_headers connector args.metadata)) (client, headers)
          w' e₁ in
      (
        record { protocol = protocol_of args.insecure; host = args.host; port = args.port },
        skips_verification args.insecure args.disable_server_verification,
        w₁,
        auth,
        cc (connected, e₂),
        refl,
        refl,
        protocol_of_iff args.insecure valid,
        skips_verification_iff args.insecure args.disable_server_verification valid',
        cc (authorized, e₂),
        cc e₂,
      )
