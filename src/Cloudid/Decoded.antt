-- ===== src/Cloudid/Decoded.antt =====
-- What `NewCloudID` of cloudid/cloudid.go reads from a well-formed cloud id.
use elastic_agent_libs.Prelude.{
  ℕ, Bytes, split, split-join, join, contains, AllFree, true, false, [], ◌∷◌, ◌++◌, Option, none,
  some, ok, ◌>>=◌, ◌==◌, ◌≡◌, refl, arith,
}
use elastic_agent_libs.Cloudid.{
  cut_last, cut_first, extract_port_from_name, default_cloud_port, host_of, urls_of,
  decode_cloud_id, decode_cloud_auth, auth_of, new_cloud_id,
}

cut_last-free : (sep : ℕ) (s : Bytes) → contains sep s ≡ false → cut_last sep s ≡ none
unfolding cut_last contains
cut_last-free sep [] h = refl
cut_last-free sep (c ∷ s) h = ground (arith, cut_last-free sep s)

cut_last-append :
    (sep : ℕ) (a s : Bytes) → contains sep s ≡ false → cut_last sep (a ++ sep ∷ s) ≡ some (a, s)
unfolding cut_last
cut_last-append sep [] s h =
    rw (cut_last-free sep s h) (let same : (sep == sep) ≡ true = ground arith in rw same refl)
cut_last-append sep (c ∷ a) s h = rw (cut_last-append sep a s h) refl

cut_first-append :
    (sep : ℕ) (a s : Bytes) → contains sep a ≡ false → cut_first sep (a ++ sep ∷ s) ≡ some (a, s)
unfolding cut_first contains
cut_first-append sep [] s h = let same : (sep == sep) ≡ true = ground arith in rw same refl
cut_first-append sep (c ∷ a) s h =
    let other : (c == sep) ≡ false = ground arith in
    rw other (rw (cut_first-append sep a s (ground arith)) refl)

extract_port-free :
    (word port : Bytes)
    → contains b':' word ≡ false
    → extract_port_from_name word port ≡ (word, port)
unfolding extract_port_from_name
extract_port-free word port h = rw (cut_last-free b':' word h, extract_port_from_name) refl

extract_port-append :
    (word own port : Bytes)
    → contains b':' own ≡ false
    → extract_port_from_name (word ++ b':' ∷ own) port ≡ (word, own)
unfolding extract_port_from_name
extract_port-append word own port h =
    rw (cut_last-append b':' word own h, extract_port_from_name) refl

module _ (base64 : Bytes → Option Bytes) (url_of : Bytes → Bytes) where
  decode_cloud_id-words :
      (label code decoded : Bytes)
      → contains b':' code ≡ false
      → base64 code ≡ some decoded
      → decode_cloud_id base64 url_of (label ++ b':' ∷ code)
        ≡ urls_of base64 url_of (split b'$' decoded)
  unfolding decode_cloud_id
  decode_cloud_id-words label code decoded free encoded =
      rw (cut_last-append b':' label code free, decode_cloud_id) (rw encoded refl)

  decode_cloud_auth-parts :
      (user password : Bytes)
      → contains b':' user ≡ false
      → decode_cloud_auth base64 url_of (user ++ b':' ∷ password) ≡ ok (user, password)
  unfolding decode_cloud_auth
  decode_cloud_auth-parts user password free =
      rw (cut_first-append b':' user password free, decode_cloud_auth) refl

  auth_of-parts :
      (user password : Bytes)
      → contains b':' user ≡ false
      → auth_of base64 url_of (user ++ b':' ∷ password) ≡ ok (user, password)
  auth_of-parts [] password free = decode_cloud_auth-parts [] password free
  auth_of-parts (c ∷ user) password free = decode_cloud_auth-parts (c ∷ user) password free

-- `NewCloudID` of a label, a colon and the base64 text of a host with its port and of two ids of which
-- the second has a port of its own, with dollar signs between them, has the URL of the first id with the
-- port of the host, and the URL of the second one with its own port; the user name ends at the first
-- colon of the cloud auth. No part has a dollar sign or, but for the password, a colon.
pub new_cloud_id-parts :
    (base64 : Bytes → Option Bytes) (url_of : Bytes → Bytes)
    (label code host port es kib kib_port user password : Bytes)
    → contains b':' code ≡ false
    → base64 code ≡ some (join b'$' ((host ++ b':' ∷ port) ∷ es ∷ (kib ++ b':' ∷ kib_port) ∷ []))
    → AllFree b'$' ((host ++ b':' ∷ port) ∷ es ∷ (kib ++ b':' ∷ kib_port) ∷ [])
    → AllFree b':' (port ∷ es ∷ kib_port ∷ user ∷ [])
    → new_cloud_id base64 url_of (label ++ b':' ∷ code) (user ++ b':' ∷ password)
      ≡ ok (record {
        es_url = url_of (host_of es host port);
        kib_url = url_of (host_of kib host kib_port);
        username = user;
        password = password;
      })
unfolding new_cloud_id
new_cloud_id-parts base64 url_of label code host port es kib kib_port user password free encoded
      dollars colons =
    rw (decode_cloud_id-words base64 url_of label code _ free encoded) (
      rw (split-join b'$' (host ++ b':' ∷ port) (es ∷ (kib ++ b':' ∷ kib_port) ∷ []) dollars) (
        rw
          (
            extract_port-append host port default_cloud_port colons.0,
            extract_port-append kib kib_port port colons.1.1.0,
            extract_port-free es port colons.1.0,
            auth_of-parts base64 url_of user password colons.1.1.1.0,
            ◌>>=◌,
          )
          refl))
