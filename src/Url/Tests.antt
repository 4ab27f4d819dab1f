-- ===== src/Url/Tests.antt =====
-- A text through both codecs.
use chess_games.Url.Http
use chess_games.Url.Component
use chess_games.Prelude.{List, [], arith, some, ℕ, ◌∷◌, ◌≡◌}
use chess_games.Url.Http.{url_decode-url_encode}
use chess_games.Url.Component.{component_url_decode-url_encode}

-- "a+ b"
abbrev text : List ℕ
text = b'a' ∷ b'+' ∷ 32 ∷ b'b' ∷ []

url_decode-url_encode_example : Http.url_decode (Http.url_encode text) ≡ text
url_decode-url_encode_example = url_decode-url_encode text (omega arith)

component_url_decode-url_encode_example :
    Component.url_decode (Component.url_encode text) ≡ some text
component_url_decode-url_encode_example = component_url_decode-url_encode text (omega arith)
