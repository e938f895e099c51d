-- ===== src/Extension/Dial.antt =====
-- consul-lambda/consul-lambda-extension/extension.go: the proxy configuration of an upstream. What
-- the crypto packages do is a parameter, and so is the network.
pub mod Targets
use terraform_aws_consul_lam.Prelude.{Text, text, text_eq, ◌==◌, Bool, List, [], ◌∷◌, ◌++◌}
use terraform_aws_consul_lam.Errors.{
  Error, Result, ok, err, ◌>>=◌, map_error, parse_certificate_failed,
}
use terraform_aws_consul_lam.Exec.{Exec}
use terraform_aws_consul_lam.Strings.{itoa}
use terraform_aws_consul_lam.Structs.{Service, sni}
use terraform_aws_consul_lam.Extension.{Extension}

-- crypto/tls and crypto/x509, as far as they are called
pub record Crypto : Type 1 where
  pub Pool : Type 0
  pub KeyPair : Type 0
  pub Certificate : Type 0
  -- A new pool with the certificates of a PEM text
  pub pool_of : Text → Pool
  pub x509_key_pair : Text → Text → Result KeyPair
  pub parse_certificate : Text → Result Certificate
  -- `Verify`, with the roots and the intermediates
  pub verify : Certificate → Pool → List Certificate → Result (Unit {0})

-- The address that `ListenFunc` listens at
unfoldable pub listen_address : Service → Text
listen_address up = text ":" ++ itoa up.port

-- Where a peer presents no certificate, `certs[1:]` panics.
pub data Verdict : Type 0 where
  panics : Verdict
  accepts : Verdict
  refuses : Error → Verdict

module _ (lib : Crypto) where
  open lib use {Pool, KeyPair, Certificate, pool_of, x509_key_pair, parse_certificate, verify}

  -- The loop of `VerifyPeerCertificate`
  unfoldable pub parse_certificates : List Text → Result (List Certificate)
  parse_certificates [] = ok []
  parse_certificates (raw ∷ rest) = do
    c ← map_error parse_certificate_failed (parse_certificate raw)
    cs ← parse_certificates rest
    ok (c ∷ cs)

  verdict_of : Result (Unit {0}) → Verdict
  verdict_of (ok _) = accepts
  verdict_of (err e) = refuses e

  verify_chain : Pool → Result (List Certificate) → Verdict
  unfolding verdict_of
  verify_chain roots (err e) = refuses e
  verify_chain roots (ok []) = panics
  verify_chain roots (ok (c ∷ cs)) = verdict_of (verify c roots cs)

  -- `VerifyPeerCertificate`
  unfoldable pub verify_peer : Pool → List Text → Verdict
  unfolding verify_chain parse_certificates
  verify_peer roots raw = verify_chain roots (parse_certificates raw)

  -- `tls.Config`, without the function above, which is that of `root_cas`
  pub record TlsConfig : Type 0 where
    pub root_cas : Pool
    pub certificate : KeyPair
    pub server_name : Text
    pub insecure_skip_verify : Bool

  -- What `DialFunc` dials with, from the data held, for a build with `PRE_RELEASE`
  unfoldable pub tls_config : Text → Extension → Service → Result TlsConfig
  tls_config pre_release ext up = do
    cert ← x509_key_pair ext.data_held.cert_pem ext.data_held.private_key_pem
    ok (record {
      root_cas = pool_of ext.data_held.root_cert_pem;
      certificate = cert;
      server_name = sni up;
      insecure_skip_verify = pre_release == text "dev";
    })

  -- `DialFunc`, for a network with connections of some type
  module _ {S Conn : Type 0} (tls_dial : Text → TlsConfig → Exec S Conn) where
    dial_with : Text → Result TlsConfig → Exec S Conn
    dial_with address (err e) s = (err e, s)
    dial_with address (ok cfg) s = tls_dial address cfg s

    unfoldable pub dial : Text → Extension → Service → Exec S Conn
    unfolding dial_with
    dial pre_release ext up = dial_with ext.config.mesh_gateway_uri (tls_config pre_release ext up)
