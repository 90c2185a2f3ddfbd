-- ===== src/Api/Tests/Addresses.antt =====
-- internal/api/auth.go: a client behind a trusted proxy that writes an address of its own.
use vibe_forge.Base.{◌≡◌, refl, none, some, [], ◌∷◌, ◌++◌, Text, codes, split_on, text_eq}
use vibe_forge.Api.Source.{Net, request_source}
use vibe_forge.Api.Source.Forwarded.{request_source-forwarded}

-- An address is its text, and a prefix holds itself.
abbrev net : Net
net = record {
  Addr = Text;
  Prefix = Text;
  split_host_port = λ t. none;
  parse_addr = λ t. some t;
  without_zone = λ a. a;
  unmap = λ a. a;
  show = λ a. a;
  contains = λ p a. text_eq p a;
}

abbrev proxy : Text
proxy = codes "10.0.0.1"

request_source-forwarded_example :
    request_source net (proxy ∷ []) proxy (codes "1.1.1.1" ++ b',' ∷ codes " 9.9.9.9") []
    ≡ request_source net (proxy ∷ []) proxy (codes " 9.9.9.9") []
request_source-forwarded_example =
    request_source-forwarded net (proxy ∷ []) proxy (codes "1.1.1.1") (codes " 9.9.9.9") []

seen : request_source net (proxy ∷ []) proxy (codes "1.1.1.1, 9.9.9.9") [] ≡ codes "9.9.9.9"
unfolding request_source split_on
seen = refl
