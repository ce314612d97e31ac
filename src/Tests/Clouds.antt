-- ===== src/Tests/Clouds.antt =====
-- cloudid/cloudid.go on a small cloud id.
use elastic_agent_libs.Prelude.{
  Bytes, codes, split, join, contains, AllFree, false, List, [], ◌∷◌, Option, some, ok, err, ◌≡◌,
  refl,
}
use elastic_agent_libs.Cloudid.{
  no_colon, cut_last, cut_first, extract_port_from_name, decode_cloud_id, decode_cloud_auth,
  new_cloud_id,
}
use elastic_agent_libs.Cloudid.Decoded.{new_cloud_id-parts}

-- Instead of base64, a decoder that knows one text.
abbrev decoder : Bytes → Option Bytes
decoder code = some (codes "host:9$es$kib:8")

abbrev same_text : Bytes → Bytes
same_text url = url

abbrev parts : List Bytes
parts = codes "host:9" ∷ codes "es" ∷ codes "kib:8" ∷ []

no_dollars : AllFree b'$' parts
unfolding contains
no_dollars = (refl, (refl, (refl, tt)))

no_colons : AllFree b':' (codes "9" ∷ codes "es" ∷ codes "8" ∷ codes "me" ∷ [])
unfolding contains
no_colons = (refl, (refl, (refl, (refl, tt))))

code-no_colon : contains b':' (codes "c") ≡ false
unfolding contains
code-no_colon = refl

joined : decoder (codes "c") ≡ some (join b'$' parts)
unfolding join
joined = refl

new_cloud_id-parts_example :
    new_cloud_id decoder same_text (codes "x:c") (codes "me:a:b")
    ≡ ok (record {
      es_url = codes "es.host:9";
      kib_url = codes "kib.host:8";
      username = codes "me";
      password = codes "a:b";
    })
new_cloud_id-parts_example =
    new_cloud_id-parts decoder same_text (codes "x") (codes "c") (codes "host") (codes "9")
      (codes "es") (codes "kib") (codes "8") (codes "me") (codes "a:b") code-no_colon joined
      no_dollars no_colons

auth-no_colon : new_cloud_id decoder same_text (codes "x:c") (codes "me") ≡ err no_colon
unfolding new_cloud_id decode_cloud_id decode_cloud_auth extract_port_from_name cut_last cut_first
    split
auth-no_colon = refl
