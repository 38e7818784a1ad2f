-- ===== src/Tests/Texts.antt =====
-- The theorems on JSON values and on the sanitizer, on small values.
use glyph_protocol.Prelude.{String, ◌≡◌, refl, ◌↔◌, ◌≢◌, ◌==◌, eq_iff, false}
use glyph_protocol.Json.{Json, num, str, obj, end, field, canonicalize, assign_key}
use glyph_protocol.Json.Order.{key_le}
use glyph_protocol.Json.Laws.{Reordered}
use glyph_protocol.Json.Complete.{
  IsPlain, plain_num, plain_obj, plain_end, plain_field, canonicalize-eq_iff,
}
use glyph_protocol.Sanitize.{sanitize}
use glyph_protocol.Sanitize.Clean.{IsSanitized, sanitize-IsSanitized}
use glyph_protocol.Tests.{unchanged_text, unchanged_text-IsNormalization}

abbrev ab : Json
ab = obj (field "a" (num "1") (field "b" (num "2") end))

abbrev ba : Json
ba = obj (field "b" (num "2") (field "a" (num "1") end))

-- A text with a zero-width space.
abbrev dirty : Json
dirty = obj (field "k" (str "a\u{200b}b") end)

other_text : (a b : String) → (a == b) ≡ false → a ≢ b
other_text a b h e = let same = (eq_iff a b).1 e in absurd (cc)

ab-IsPlain : IsPlain ab
ab-IsPlain = plain_obj (
    plain_field (other_text "a" "__proto__" refl) (other_text "a" "b" refl, tt) (plain_num "1")
      (plain_field (other_text "b" "__proto__" refl) tt (plain_num "2") plain_end))

ba-IsPlain : IsPlain ba
ba-IsPlain = plain_obj (
    plain_field (other_text "b" "__proto__" refl) (other_text "b" "a" refl, tt) (plain_num "2")
      (plain_field (other_text "a" "__proto__" refl) tt (plain_num "1") plain_end))

canonicalize-eq_iff_example : (canonicalize ab ≡ canonicalize ba) ↔ Reordered ab ba
canonicalize-eq_iff_example = canonicalize-eq_iff ab ba ab-IsPlain ba-IsPlain

-- The two orders are told to be one value.
one_form : canonicalize ab ≡ canonicalize ba
unfolding canonicalize assign_key key_le
one_form = refl

sanitize-IsSanitized_example : IsSanitized unchanged_text (sanitize unchanged_text dirty).0
sanitize-IsSanitized_example =
    sanitize-IsSanitized unchanged_text dirty unchanged_text-IsNormalization
