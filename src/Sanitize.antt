-- ===== src/Sanitize.antt =====
-- `sanitize` of packages/core/src/index.ts: invisible and dangerous characters are stripped from
-- every text of a JSON value, and each removal is reported. Unicode's NFKC is a parameter.
pub mod Strip
pub mod Clean
use Prim.Native.Char.{Char, code}
use Prim.Native.String.{◌++◌}
use glyph_protocol.Prelude.{
  ℕ, zero, suc, ◌+◌, String, Bool, true, false, List, [], ◌∷◌, leb, eqb, ◌==◌, ◌&&◌, ◌||◌, not,
  if◌then◌else◌, decimal, ◌++◌ as join,
}
use glyph_protocol.Json.{Json, null, bool, num, str, arr, obj, Items, nil, cons, Fields, end, field}
use glyph_protocol.Json.Order.{text_lt}
use glyph_protocol.Card.Diff.{nonempty}

pub data FindingKind : Type 0 where
  unicode_tags zero_width bidi_override control_char nfkc_normalized : FindingKind

abbrev pub kind_name : FindingKind → String
kind_name unicode_tags = "unicode-tags"
kind_name zero_width = "zero-width"
kind_name bidi_override = "bidi-override"
kind_name control_char = "control-char"
kind_name nfkc_normalized = "nfkc-normalized"

pub record Finding : Type 0 where
  pub path : String
  pub kind : FindingKind
  pub count : ℕ

pub record Sanitization : Type 0 where
  pub modified : Bool
  pub findings : List Finding

abbrev between : ℕ → ℕ → ℕ → Bool
between lo hi c = leb lo c && leb c hi

-- `STRIP_CLASSES`: whether a code point belongs to the class of a kind.
unfoldable pub in_class : FindingKind → ℕ → Bool
in_class unicode_tags c = between 0xe0000 0xe007f c
in_class zero_width c = between 0x200b 0x200d c || eqb c 0xfeff
in_class bidi_override c = between 0x202a 0x202e c || between 0x2066 0x2069 c
in_class control_char c =
    leb c 0x08 || between 0x0b 0x0c c || between 0x0e 0x1f c || between 0x7f 0x9f c
in_class nfkc_normalized c = false

abbrev pub strip_kinds : List FindingKind
strip_kinds = unicode_tags ∷ zero_width ∷ bidi_override ∷ control_char ∷ []

-- `s.match(re).length` and `s.replace(re, '')`
unfoldable pub matches : FindingKind → String → ℕ
matches k String.[] = 0
matches k (String.◌∷◌ c s) = (if in_class k (code c) then 1 else 0) + matches k s

unfoldable pub strip : FindingKind → String → String
strip k String.[] = String.[]
strip k (String.◌∷◌ c s) = if in_class k (code c) then strip k s else String.◌∷◌ c (strip k s)

-- The loop over `STRIP_REGEXES`.
unfoldable pub strip_all : String → List FindingKind → String → String × List Finding
strip_all path [] s = (s, [])
strip_all path (k ∷ ks) s = if eqb (matches k s) 0 then strip_all path ks s else (
  (strip_all path ks (strip k s)).0,
  record { path = path; kind = k; count = matches k s } ∷ (strip_all path ks (strip k s)).1,
)

-- `escapeToken`
unfoldable pub escape_token : String → String
escape_token String.[] = String.[]
escape_token (String.◌∷◌ c s) =
    (if eqb (code c) b'~' then "~0" else if eqb (code c) b'/' then "~1" else String.◌∷◌ c String.[])
    ++ escape_token s

-- The comparison by which the findings are sorted: `a` comes before `b`.
abbrev finding_lt : Finding → Finding → Bool
finding_lt a b =
    if text_lt a.path b.path
    then true
    else if text_lt b.path a.path
    then false
    else text_lt (kind_name a.kind) (kind_name b.kind)

unfoldable pub insert_finding : Finding → List Finding → List Finding
insert_finding f [] = f ∷ []
insert_finding f (g ∷ gs) = if finding_lt g f then g ∷ insert_finding f gs else f ∷ g ∷ gs

unfoldable pub sort_findings : List Finding → List Finding
sort_findings [] = []
sort_findings (f ∷ fs) = insert_finding f (sort_findings fs)

module _ (nfkc : String → String) where
  -- How many characters NFKC changes on their own.
  unfoldable pub changed_chars : String → ℕ
  changed_chars String.[] = 0
  changed_chars (String.◌∷◌ c s) =
      (if nfkc (String.◌∷◌ c String.[]) == String.◌∷◌ c String.[] then 0 else 1) + changed_chars s

  unfoldable pub normalize : String → String → String × List Finding
  normalize path s = if nfkc s == s then (s, []) else (
    nfkc s,
    record {
      path = path;
      kind = nfkc_normalized;
      count = if eqb (changed_chars s) 0 then 1 else changed_chars s;
    }
        ∷ [],
  )

  -- `sanitizeString`
  unfoldable pub sanitize_string : String → String → String × List Finding
  sanitize_string input path =
      let (s, stripped) = strip_all path strip_kinds input in
      let (t, normalized) = normalize path s in (t, join stripped normalized)

  -- `sanitizeValue`; the assignment `out[key] = …` sets no property for the key `__proto__`.
  unfoldable mutual
    pub sanitize_value : Json → String → Json × List Finding
    sanitize_value null path = (null, [])
    sanitize_value (bool b) path = (bool b, [])
    sanitize_value (num n) path = (num n, [])
    sanitize_value (str s) path = (str (sanitize_string s path).0, (sanitize_string s path).1)
    sanitize_value (arr vs) path = (arr (sanitize_items vs path 0).0, (sanitize_items vs path 0).1)
    sanitize_value (obj fs) path = (obj (sanitize_fields fs path).0, (sanitize_fields fs path).1)

    pub sanitize_items : Items → String → ℕ → Items × List Finding
    sanitize_items nil path i = (nil, [])
    sanitize_items (cons v vs) path i =
        let (w, first) = sanitize_value v (path ++ ("/" ++ decimal i)) in
        let (ws, later) = sanitize_items vs path (i + 1) in (cons w ws, join first later)

    pub sanitize_fields : Fields → String → Fields × List Finding
    sanitize_fields end path = (end, [])
    sanitize_fields (field k v fs) path =
        let (w, first) = sanitize_value v (path ++ ("/" ++ escape_token k)) in
        let (gs, later) = sanitize_fields fs path in
        (if k == "__proto__" then gs else field k w gs, join first later)

  -- `sanitize`
  unfoldable pub sanitize : Json → Json × Sanitization
  sanitize v =
      let (cleaned, found) = sanitize_value v "" in
      (cleaned, record { modified = nonempty found; findings = sort_findings found })
