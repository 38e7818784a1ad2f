-- ===== src/Adapters/OpenApi/Query/Redacted.antt =====
-- What `redactUrl` of packages/adapters/openapi/src/index.ts leaves of a URL's secrets.
use Prim.Native.Char.{Char}
use Prim.Native.String.{String, ◌++◌}
use glyph_protocol.Prelude.{◌≡◌, ◌⊎◌, false, List, All, Option, none, some}
use glyph_protocol.Adapters.OpenApi.Query.{Query, Platform, is_sensitive, split_query}

-- The base of a URL has no question mark, and any query can stand after it.
abbrev SplitsAs : String → String → Type 0
SplitsAs base r = split_query (base ++ ("?" ++ r)) ≡ some (base, r)

module _ (web : Platform) (extra : List String) where
  -- An entry with a sensitive key has the value `***`.
  abbrev Hidden : String × String → Type 0
  Hidden (key, value) = (is_sensitive web extra key ≡ false) ⊎ (value ≡ "***")

  abbrev HiddenQuery : Option (String × String) → Type 0
  HiddenQuery none = Unit
  HiddenQuery (some (base, query)) = All Hidden (web.parse_query query)

  -- Every sensitive entry of a URL's query has the value `***`.
  abbrev pub IsRedacted : String → Type 0
  IsRedacted url = HiddenQuery (split_query url)
