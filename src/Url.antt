-- ===== src/Url.antt =====
-- The two codecs for query strings: `Http` is server/processes/http/url_en_decode.cpp, `Component`
-- is server/water/componet/url_encrypt.cpp. A byte is a number below 256.
pub mod Http
pub mod Component
mod Tests
