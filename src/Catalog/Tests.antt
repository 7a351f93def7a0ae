-- ===== src/Catalog/Tests.antt =====
-- Normal forms and matches at concrete identifiers.
use agentledger_mvp_v.Base.{◌≡◌, refl, none, some, true, List, [], ◌∷◌}
use agentledger_mvp_v.Base.Result.{ok}
use agentledger_mvp_v.Catalog.Normalization.{
  Libraries, SplitUrl, normalize_opaque_identifier, normalize_product_name, _parsed_http_url,
  normalize_redirect_uri, _normalize_parsed_hostname, split, canonicalize,
}
use agentledger_mvp_v.Catalog.Matching.{ProductIdentifier, known, match_product, save}
use agentledger_mvp_v.Catalog.Matching.Returns.{match_product-IsMatch}
use agentledger_mvp_v.Catalog.Matching.Save.{observed, save-match_product}
use agentledger_mvp_v.Catalog.Matching.Decides.{IsMatch}

-- Every URL has the parts of `https://chat.example.:0/callback`.
abbrev pub one_url : SplitUrl
one_url = record {
  scheme = "https";
  hostname = some "chat.example.";
  port = ok (some 0);
  path = "/callback";
  query = "";
}

abbrev pub libraries : Libraries
libraries = record {
  uuid = λ s. none;
  urlsplit = λ s. some one_url;
  urlunsplit = λ scheme location path query. location;
  ip_address = λ host. none;
  idna_encode = λ host. some host;
  lower = λ s. s;
  casefold = λ s. s;
  join_spaces = λ s. s;
}

stripped : normalize_opaque_identifier "\t ChatGPT \n" ≡ ok "ChatGPT"
unfolding normalize_opaque_identifier
stripped = refl

-- The last dot is dropped, and port 0 gives way to the port of the scheme.
port_run : canonicalize libraries "redirect_uri" "u" ≡ ok "chat.example:443"
unfolding canonicalize normalize_redirect_uri _parsed_http_url normalize_opaque_identifier split
    _normalize_parsed_hostname
port_run = refl

abbrev pub chat : ProductIdentifier
chat = record {
  id = 5;
  product_id = 9;
  identifier_type = "product_name";
  raw_value = " ChatGPT ";
  canonical_value = "";
  provider_scope = none;
  verified = true;
}

abbrev pub other : ProductIdentifier
other = record {
  id = 2;
  product_id = 8;
  identifier_type = "domain";
  raw_value = "other";
  canonical_value = "chat.example";
  provider_scope = none;
  verified = true;
}

abbrev pub table : List ProductIdentifier
table = other ∷ record chat { canonical_value = "ChatGPT" } ∷ []

save_run : save libraries chat (other ∷ []) ≡ ok table
unfolding save canonicalize normalize_product_name normalize_opaque_identifier
save_run = refl

save-match_product_example :
    match_product libraries table (observed chat ∷ []) ≡ ok (known 9 "product_name")
save-match_product_example =
    save-match_product libraries chat 4 (other ∷ []) table refl refl save_run

-- The domain comes before the name.
match_product-IsMatch_example :
    IsMatch libraries table
      (observed chat ∷ observed other ∷ [])
      (match_product libraries table (observed chat ∷ observed other ∷ []))
match_product-IsMatch_example =
    match_product-IsMatch libraries table (observed chat ∷ observed other ∷ [])
