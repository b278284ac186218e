-- ===== src/Certificate/Terminates.antt =====
-- pkg/agent/utils.go: the loop over the blocks of a certificate.
use agent_baker.Prelude.{
  ℕ, zero, suc, ◌<◌, Bool, true, false, not, ◌||◌, List, [], ◌∷◌, ◌≡◌, refl, arith, Option, none,
  some, is_some, length, if◌then◌else◌,
}
use agent_baker.Prelude.Result.{Result, err, ok}
use agent_baker.Text.{Text, text, beq, is_empty}
use agent_baker.Prelude.Panic.{◌>>=◌}
use agent_baker.Certificate.{
  PemBlock, CertificateTools, CertificateError, Round, stop, more, finish, appended, decoded, round,
  parse_from, is_nonempty_map, hash_of, parse_certs_pem, certificate_hash,
}

-- What the loop relies on in `pem.Decode`: behind a block less of the text is left.
pub record Shortens (tools : CertificateTools) : Type 0 where
  pub shorter :
      (s : Text) (block : PemBlock) (rest : Text)
      → tools.pem_decode s ≡ some (block, rest)
      → length rest < length s

-- An error, or at least one certificate; not a loop that has not ended.
abbrev IsUsable : Option (Result CertificateError (List Text)) → Type 0
IsUsable none = ⊥
IsUsable (some (err failure)) = Unit
IsUsable (some (ok [])) = ⊥
IsUsable (some (ok (cert ∷ certs))) = Unit

abbrev GoesOn : ℕ → Round → Type 0
GoesOn n (stop result) = IsUsable (some result)
GoesOn n (more rest certs) = length rest < n

finish-IsUsable : (certs : List Text) → IsUsable (some (finish certs))
finish-IsUsable [] = tt
finish-IsUsable (cert ∷ certs) = tt

appended-GoesOn :
    (n : ℕ) (rest : Text) (certs : List Text) (cert : Result Text Text)
    → length rest < n
    → GoesOn n (appended rest certs cert)
appended-GoesOn n rest certs (err message) h = tt
appended-GoesOn n rest certs (ok cert) h = h

branch-GoesOn :
    (n : ℕ) (b : Bool) (first second : Round)
    → GoesOn n first
    → GoesOn n second
    → GoesOn n (if b then first else second)
branch-GoesOn n true first second h g = h
branch-GoesOn n false first second h g = g

decoded-GoesOn :
    (tools : CertificateTools) (n : ℕ) (certs : List Text) (answer : Option (PemBlock × Text))
    → ((block : PemBlock) (rest : Text) → answer ≡ some (block, rest) → length rest < n)
    → GoesOn n (decoded tools certs answer)
decoded-GoesOn tools n certs none h = finish-IsUsable certs
decoded-GoesOn tools n certs (some (block, rest)) h =
    branch-GoesOn n
      (not (beq block.block_type (text "CERTIFICATE")) || is_nonempty_map block.headers)
      (more rest certs) (appended rest certs (tools.parse_certificate block.bytes))
      (h block rest refl)
      (appended-GoesOn n rest certs (tools.parse_certificate block.bytes) (h block rest refl))

round-GoesOn :
    (tools : CertificateTools)
    → Shortens tools
    → (s : Text) (certs : List Text) → GoesOn (length s) (round tools s certs)
unfolding round
round-GoesOn tools h s certs =
    branch-GoesOn (length s) (is_empty s) (stop (finish certs))
      (decoded tools certs (tools.pem_decode s)) (finish-IsUsable certs)
      (decoded-GoesOn tools (length s) certs (tools.pem_decode s)
        (λ block rest e. h.shorter s block rest e))

parse_from-IsUsable :
    (tools : CertificateTools)
    → Shortens tools
    → (fuel : ℕ) (s : Text) (certs : List Text) → length s < fuel
    → IsUsable (parse_from tools fuel s certs)
unfolding parse_from
parse_from-IsUsable tools h zero s certs g = absurd (omega (arith, g))
parse_from-IsUsable tools h (suc fuel) s certs g =
    elim (round tools s certs)
        as (λ (r : Round).
          GoesOn (length s) r
          → IsUsable (elim r [
            | stop result ↦ some result
            | more rest certs' ↦ parse_from tools fuel rest certs'
          ])) [
            | stop result ↦ λ usable. usable
            | more rest certs' ↦
                λ shorter. parse_from-IsUsable tools h fuel rest certs' (omega (arith, g, shorter))
          ]
      (round-GoesOn tools h s certs)

hash_of-returns :
    (tools : CertificateTools) (parsed : Option (Result CertificateError (List Text)))
    → IsUsable parsed
    → is_some (parsed >>= hash_of tools) ≡ true
hash_of-returns tools none h = elim h [ ]
hash_of-returns tools (some (err failure)) h = refl
hash_of-returns tools (some (ok [])) h = elim h [ ]
hash_of-returns tools (some (ok (cert ∷ []))) h = refl
hash_of-returns tools (some (ok (cert ∷ other ∷ certs))) h = refl

-- The hash of every text is an answer, a hash or an error: with a `pem.Decode` that leaves less
-- behind each block the loop over the blocks ends within the fuel given, and a certificate is
-- there where one is read.
pub certificate_hash-returns :
    (tools : CertificateTools) (certificate_data : Text)
    → Shortens tools
    → is_some (certificate_hash tools certificate_data) ≡ true
unfolding certificate_hash parse_certs_pem
certificate_hash-returns tools certificate_data h =
    hash_of-returns tools _ (
      parse_from-IsUsable tools h (suc (length certificate_data)) certificate_data [] (omega arith))
