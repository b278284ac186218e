-- ===== src/Methods/Helpers.antt =====
-- pkg/agent/datamodel/helper.go: checks and small formats of the data model.
use agent_baker.Prelude.{
  ℕ, zero, suc, Bool, false, not, ◌&&◌, ◌||◌, List, [], ◌∷◌, ◌++◌, leb, ◌==◌, if◌then◌else◌,
}
use agent_baker.Prelude.Result.{Result, err, ok}
use agent_baker.Prelude.Int.{ℤ}
use agent_baker.Text.{Text, text}
use agent_baker.Methods.Profiles.{is_nonempty}

abbrev pub is_letter : ℕ → Bool
is_letter c = (leb b'A' c && leb c b'Z') || (leb b'a' c && leb c b'z')

abbrev pub is_alphanumeric : ℕ → Bool
is_alphanumeric c = is_letter c || (leb b'0' c && leb c b'9')

-- `[A-Za-z0-9-]{0,n}[A-Za-z0-9]$`
abbrev pub ends_name : ℕ → Text → Bool
ends_name n [] = false
ends_name n (c ∷ []) = is_alphanumeric c
ends_name zero (c ∷ d ∷ s) = false
ends_name (suc n) (c ∷ d ∷ s) = (is_alphanumeric c || c == b'-') && ends_name n (d ∷ s)

-- `^([A-Za-z][A-Za-z0-9-]{1,43}[A-Za-z0-9])$`: the match reads the text from the left.
unfoldable pub is_dns_name : Text → Bool
is_dns_name (a ∷ b ∷ s) = is_letter a && ((is_alphanumeric b || b == b'-') && ends_name 42 s)
is_dns_name _ = false

-- The error of `ValidateDNSPrefix`, with the name that it prints.
pub data DnsPrefixError : Type 0 where
  invalid_dns_prefix : Text → DnsPrefixError

-- `ValidateDNSPrefix`; a success has no value.
unfoldable pub validate_dns_prefix : Text → Result {0, 0} DnsPrefixError Unit
validate_dns_prefix dns_name =
    if not (is_dns_name dns_name) then err (invalid_dns_prefix dns_name) else ok tt

-- `SliceIntIsNonEmpty`
unfoldable pub slice_int_is_non_empty : List ℤ → Bool
slice_int_is_non_empty s = is_nonempty s

-- `WrapAsVerbatim`
unfoldable pub wrap_as_verbatim : Text → Text
wrap_as_verbatim s = text "'," ++ (s ++ text ",'")
