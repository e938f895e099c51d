-- ===== src/Url.antt =====
-- What the program uses of Go's `net/url`: `URL.String` of a URL with a scheme, a host and a path
-- that begins with a slash, with the percent escapes of hosts and of paths.
use terraform_aws_consul_lam.Prelude.{
  ℕ, ◌+◌, ◌/◌, ◌%◌, Bool, false, not, ◌||◌, ◌&&◌, [], ◌∷◌, ◌++◌, Text, text, ltb, leb, eqb, ◌-◌,
  if◌then◌else◌,
}

pub data Encoding : Type 0 where
  encode_host encode_path : Encoding

is_alphanumeric : ℕ → Bool
is_alphanumeric c = leb b'a' c && leb c b'z' || leb b'A' c && leb c b'Z' || leb b'0' c && leb c b'9'

member : ℕ → Text → Bool
member c [] = false
member c (d ∷ s) = eqb c d || member c s

-- `shouldEscape`
should_escape : ℕ → Encoding → Bool
should_escape c encode_host =
    not (is_alphanumeric c || member c (text "!$&'()*+,;=:[]<>\"") || member c (text "-_.~"))
should_escape c encode_path =
    not (is_alphanumeric c || member c (text "-_.~") || member c (text "$&+,/:;=@"))

-- A digit of `0123456789ABCDEF`
hex_digit : ℕ → ℕ
hex_digit d = if ltb d 10 then b'0' + d else b'A' + d - 10

unfoldable pub escape : Encoding → Text → Text
unfolding should_escape is_alphanumeric member hex_digit text
escape mode [] = []
escape mode (c ∷ s) =
    let rest = escape mode s in
    if should_escape c mode then b'%' ∷ hex_digit (c / 16) ∷ hex_digit (c % 16) ∷ rest else c ∷ rest

-- `(&url.URL{Scheme: scheme, Host: host, Path: path}).String()`
unfoldable pub url_string : Text → Text → Text → Text
unfolding escape
url_string scheme host path =
    scheme ++ (text "://" ++ (escape encode_host host ++ escape encode_path path))
