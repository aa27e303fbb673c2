-- ===== src/Json/Tests.antt =====
-- Runs of the canonical form.
use hearthold.Prelude.{◌≡◌, refl, true, codes, text_leb, [], ◌∷◌, ◌++◌}
use hearthold.Prelude.Int.{pos, negsuc}
use hearthold.Json.{
  null, bool, num, str, arr, obj, nil, cons, end, field, canonicalize, string_items,
}

canonicalize_runs :
    (canonicalize (
        obj (
          field (codes "b") (arr (cons (num (pos 120)) (cons (num (negsuc 6)) nil))) (
            field
              (codes "a")
              (obj (field (codes "x") (bool true) (field (codes "") null end)))
              end)))
      ≡ codes "{\"a\":{\"\":null,\"x\":true},\"b\":[120,-7]}")
    × (canonicalize (str (10 ∷ b'"' ∷ 1 ∷ 0xd800 ∷ 0xd83d ∷ 0xde00 ∷ []))
        ≡ codes "\"\\n\\\"\\u0001\\ud800" ++ (0xd83d ∷ 0xde00 ∷ b'"' ∷ []))
    × (canonicalize (arr (string_items (codes "p" ∷ codes "q" ∷ []))) ≡ codes "[\"p\",\"q\"]")
unfolding canonicalize string_items text_leb
canonicalize_runs = (refl, refl, refl)
