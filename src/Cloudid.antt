-- ===== src/Cloudid.antt =====
-- cloudid/cloudid.go: `NewCloudID`. The decoder of package encoding/base64 and the printing of a URL are
-- arguments.
pub mod Decoded
use elastic_agent_libs.Prelude.{
  ℕ, Bytes, codes, split, List, [], ◌∷◌, ◌++◌, Option, none, some, Result, ok, err, ◌>>=◌, ◌==◌,
  if◌then◌else◌,
}

pub data CloudError : Type 0 where
  bad_base64 too_few_parts no_colon : CloudError

-- `CloudID` without what it is made of.
pub record CloudId : Type 0 where
  pub es_url : Bytes
  pub kib_url : Bytes
  pub username : Bytes
  pub password : Bytes

-- The text before and behind the last `sep`, which `strings.LastIndex` finds.
unfoldable pub cut_last : ℕ → Bytes → Option (Bytes × Bytes)
cut_last sep [] = none
cut_last sep (c ∷ s) = elim (cut_last sep s) [
  | some parts ↦ some (c ∷ parts.0, parts.1)
  | none ↦ if c == sep then some ([], s) else none
]

-- The text before and behind the first `sep`, which `strings.Index` finds.
unfoldable pub cut_first : ℕ → Bytes → Option (Bytes × Bytes)
cut_first sep [] = none
cut_first sep (c ∷ s) =
    let later = cut_first sep s in
    if c == sep
    then some ([], s)
    else elim later [ some parts ↦ some (c ∷ parts.0, parts.1) | none ↦ none ]

-- `extractPortFromName`.
unfoldable pub extract_port_from_name : Bytes → Bytes → Bytes × Bytes
unfolding cut_last
extract_port_from_name word default_port = elim (cut_last b':' word) [
  | some parts ↦ parts
  | none ↦ (word, default_port)
]

abbrev pub default_cloud_port : Bytes
default_cloud_port = codes "443"

-- The host of a URL: `fmt.Sprintf("%s.%s:%s", id, host, port)`.
abbrev pub host_of : Bytes → Bytes → Bytes → Bytes
host_of id host port = id ++ b'.' ∷ (host ++ b':' ∷ port)

module _ (base64 : Bytes → Option Bytes) (url_of : Bytes → Bytes) where
  abbrev pub urls_of : List Bytes → Result CloudError (Bytes × Bytes)
  urls_of (name ∷ es ∷ kib ∷ more) =
      let host = extract_port_from_name name default_cloud_port in
      let es_id = extract_port_from_name es host.1 in
      let kb_id = extract_port_from_name kib host.1 in
      ok (url_of (host_of es_id.0 host.0 es_id.1), url_of (host_of kb_id.0 host.0 kb_id.1))
  urls_of _ = err too_few_parts

  -- `decodeCloudID`.
  unfoldable pub decode_cloud_id : Bytes → Result CloudError (Bytes × Bytes)
  unfolding cut_last
  decode_cloud_id id =
      let code : Bytes = elim (cut_last b':' id) [ some parts ↦ parts.1 | none ↦ id ] in
      elim (base64 code) [ none ↦ err bad_base64 | some decoded ↦ urls_of (split b'$' decoded) ]

  -- `decodeCloudAuth`.
  unfoldable pub decode_cloud_auth : Bytes → Result CloudError (Bytes × Bytes)
  unfolding cut_first
  decode_cloud_auth auth = elim (cut_first b':' auth) [
    | some parts ↦ ok parts
    | none ↦ err no_colon
  ]

  abbrev pub auth_of : Bytes → Result CloudError (Bytes × Bytes)
  auth_of [] = ok ([], [])
  auth_of (c ∷ auth) = decode_cloud_auth (c ∷ auth)

  -- `NewCloudID` with `decode`.
  unfoldable pub new_cloud_id : Bytes → Bytes → Result CloudError CloudId
  unfolding decode_cloud_id decode_cloud_auth
  new_cloud_id id auth = do
    urls ← decode_cloud_id id
    user ← auth_of auth
    ok (record { es_url = urls.0; kib_url = urls.1; username = user.0; password = user.1 })
