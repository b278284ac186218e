-- ===== src/Certificate.antt =====
-- pkg/agent/utils.go: the hash of a certificate (`certificateHash`, `parseCertsPEM`).
pub mod Terminates
use agent_baker.Prelude.{
  ℕ, zero, suc, Bool, true, false, not, ◌||◌, List, [], ◌∷◌, ◌++◌, Option, none, some, length,
  if◌then◌else◌,
}
use agent_baker.Prelude.Panic.{◌>>=◌}
use agent_baker.Prelude.Result.{Result, err, ok}
use agent_baker.Text.{Text, text, beq, is_empty, to_lower}
use agent_baker.GoMap.{GoMap}

-- `pem.Block`
pub record PemBlock : Type 0 where
  pub block_type : Text
  pub headers : GoMap Text
  pub bytes : Text

-- What the two functions call: `pem.Decode`, with `none` for a nil block; `x509.ParseCertificate`,
-- which gives the raw public key of a certificate or a message; and the hexadecimal SHA-256 hash.
pub record CertificateTools : Type 0 where
  pub pem_decode : Text → Option (PemBlock × Text)
  pub parse_certificate : Text → Result Text Text
  pub hex_sha256 : Text → Text

pub data CertificateError : Type 0 where
  not_parsed : Text → CertificateError
  no_valid_certificates : CertificateError
  more_than_one_certificate : CertificateError

-- What one round of the loop of `parseCertsPEM` comes to.
pub data Round : Type 0 where
  stop : Result CertificateError (List Text) → Round
  more : Text → List Text → Round

-- After the loop.
abbrev pub finish : List Text → Result CertificateError (List Text)
finish [] = err no_valid_certificates
finish (cert ∷ certs) = ok (cert ∷ certs)

abbrev pub appended : Text → List Text → Result Text Text → Round
appended rest certs (err message) = stop (err (not_parsed message))
appended rest certs (ok cert) = more rest (certs ++ cert ∷ [])

abbrev pub is_nonempty_map : GoMap Text → Bool
is_nonempty_map [] = false
is_nonempty_map (header ∷ headers) = true

abbrev pub decoded : CertificateTools → List Text → Option (PemBlock × Text) → Round
decoded tools certs none = stop (finish certs)
decoded tools certs (some (block, rest)) =
    if not (beq block.block_type (text "CERTIFICATE")) || is_nonempty_map block.headers
    then more rest certs
    else appended rest certs (tools.parse_certificate block.bytes)

-- One round: the test of the loop and its body.
unfoldable pub round : CertificateTools → Text → List Text → Round
round tools pem_certs certs =
    if is_empty pem_certs
    then stop (finish certs)
    else decoded tools certs (tools.pem_decode pem_certs)

-- The loop of `parseCertsPEM` on fuel; `none` is no fuel left.
unfoldable pub parse_from :
    CertificateTools → ℕ → Text → List Text → Option (Result CertificateError (List Text))
parse_from tools zero pem_certs certs = none
parse_from tools (suc fuel) pem_certs certs = elim (round tools pem_certs certs) [
  | stop result ↦ some result
  | more rest certs' ↦ parse_from tools fuel rest certs'
]

-- `parseCertsPEM`: a round takes away one byte at least.
unfoldable pub parse_certs_pem :
    CertificateTools → Text → Option (Result CertificateError (List Text))
parse_certs_pem tools pem_certs = parse_from tools (suc (length pem_certs)) pem_certs []

-- The part of `certificateHash` after the parsing; `parseCertsPEM` gives no empty list.
abbrev pub hash_of :
    CertificateTools → Result CertificateError (List Text) → Option (Result CertificateError Text)
hash_of tools (err failure) = some (err failure)
hash_of tools (ok []) = none
hash_of tools (ok (cert ∷ [])) = some (ok (text "sha256:" ++ to_lower (tools.hex_sha256 cert)))
hash_of tools (ok (cert ∷ other ∷ certs)) = some (err more_than_one_certificate)

-- `certificateHash`
unfoldable pub certificate_hash : CertificateTools → Text → Option (Result CertificateError Text)
certificate_hash tools certificate_data = parse_certs_pem tools certificate_data >>= hash_of tools
